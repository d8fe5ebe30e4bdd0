-- ===== src/Terminal/Whole/PasteBack.antt =====
-- A selection that the page posted, on its way over Flutter back to `terminal.paste`.
use code_roam.Prelude.{◌+◌, ap, ◌∙◌, if◌then◌else◌, List, [], ◌∷◌, ◌++◌, ◌≡◌}
use mathlib.Core.Path.{subst}
use mathlib.Core.Logic.Or
use mathlib.Core.List.{
  Mem, Mem-prop, mem-append, mem-cons, mem-cons_self, mem-cons_of_mem, not-mem-nil,
}
use code_roam.Bridge.{Shown}
use code_roam.Js.{Value}
use code_roam.Js.Strings.{Text}
use code_roam.Selection.Coordinates.{Coordinates}
use code_roam.Gesture.{
  Terminal, Effect, prevent_default, stop_propagation, set_timeout, clear_timeout, timeout_ran,
}
use code_roam.Gesture.Handlers.Copies.{copies}
use code_roam.Terminal.{receive}
use code_roam.Terminal.Stream.{inputs}
use code_roam.Terminal.Performed.{tidings}
use code_roam.Terminal.PasteBack.{paste_value, copied-IsPerformed}
use code_roam.Terminal.Whole.{Calls, commands, Whole, Lived}
use code_roam.Terminal.Whole.Relays.{Lived-IsRelayed, Lived-Reachable}
use code_roam.Terminal.Whole.Reports.{
  Report, selection_copied, paste_requested, reports, reports_of_effect, reported,
}

-- The text of a report stands before what is no copy.
Mem-before :
    (text : Text) (rs last : List Report) (texts : List Text)
    → (Mem (selection_copied text) rs → Mem text texts)
    → ¬ Mem (selection_copied text) last
    → Mem (selection_copied text) (rs ++ last)
    → Mem text texts
Mem-before text rs last texts before none m =
    Or.elim Mem-prop (mem-append.0 m) before (λ n. absurd (none n))

no_copy : (text : Text) → ¬ Mem (selection_copied text) (paste_requested ∷ [])
no_copy text m = Or.elim (λ a b. absurd a) (mem-cons.0 m) (λ e. cc) not-mem-nil

same_text :
    {text selection : Text} → selection_copied text ≡ selection_copied selection → text ≡ selection
same_text h = cc

Mem-copies :
    (text : Text) (es : List Effect)
    → Mem (selection_copied text) (reports es)
    → Mem text (copies es)
unfolding reports reports_of_effect copies
Mem-copies text [] m = absurd (not-mem-nil m)
Mem-copies text (Effect.on_copy selection ∷ es) m =
    Or.elim Mem-prop (mem-append.0 m) (λ n. mem-cons_of_mem selection (Mem-copies text es n))
      λ n.
        Or.elim Mem-prop (mem-cons.0 n)
          (λ e. subst (λ s. Mem text (s ∷ copies es)) (same_text e) mem-cons_self)
          λ none. absurd (not-mem-nil none)
Mem-copies text (Effect.on_paste ∷ es) m =
    Mem-before text (reports es) (paste_requested ∷ []) (copies es) (Mem-copies text es)
      (no_copy text) m
Mem-copies text (prevent_default ∷ es) m =
    Mem-before text (reports es) [] (copies es) (Mem-copies text es) not-mem-nil m
Mem-copies text (stop_propagation ∷ es) m =
    Mem-before text (reports es) [] (copies es) (Mem-copies text es) not-mem-nil m
Mem-copies text (set_timeout timer ∷ es) m =
    Mem-before text (reports es) [] (copies es) (Mem-copies text es) not-mem-nil m
Mem-copies text (clear_timeout timer ∷ es) m =
    Mem-before text (reports es) [] (copies es) (Mem-copies text es) not-mem-nil m
Mem-copies text (timeout_ran timer ∷ es) m =
    Mem-before text (reports es) [] (copies es) (Mem-copies text es) not-mem-nil m

module _ (k : Coordinates) (t : Terminal k) (calls : Calls t.State) (shown : Value → Shown)
    (stream_id : Text) where
  -- Through every sequence of touches, clicks, timers, values from Flutter and changes of the
  -- terminal, a text that the page posted as copied is pasted when Flutter sends it back in
  -- `terminal.paste`: the terminal's `paste` is called with the text as it is, and what its listeners
  -- are told is posted, and nothing else.
  pub posted-receive :
      (start : t.State) (w : Whole k t calls shown stream_id) (text : Text)
      → Lived k t calls shown stream_id start w
      → Mem (selection_copied text) (reported w.page.port.posted)
      → ((receive (commands t.State calls) shown stream_id (paste_value text) w.page).terminal
          ≡ (calls.paste text w.page.terminal).0)
        × ((receive (commands t.State calls) shown stream_id (paste_value text) w.page).port.posted
            ≡ w.page.port.posted
              ++ tidings stream_id w.page.sequence (calls.paste text w.page.terminal).1)
        × ((receive (commands t.State calls) shown stream_id (paste_value text) w.page).sequence
            ≡ w.page.sequence + inputs (calls.paste text w.page.terminal).1)
  posted-receive start w text l m =
      let r = Lived-IsRelayed k t calls shown stream_id start w l in
      let done =
        copied-IsPerformed k t (commands t.State calls) shown stream_id start w.session text w.page
          (Lived-Reachable k t calls shown stream_id start w l)
          (Mem-copies text w.session.effects (subst (Mem (selection_copied text)) r.relayed m)) in
      let told = ap (λ x. x.1) done.call in
      (
        ap (λ x. x.0) done.call,
        done.sent.posted
            ∙ ap
                (λ b.
                  if b
                  then w.page.port.posted ++ tidings stream_id w.page.sequence done.notices
                  else w.page.port.posted)
                r.connected
            ∙ ap (λ n. w.page.port.posted ++ tidings stream_id w.page.sequence n) told,
        done.numbered ∙ ap (λ n. w.page.sequence + inputs n) told,
      )
