-- ===== src/Terminal/Whole/Ids.antt =====
-- The ids under which the whole page posts its stream events.
use code_roam.Prelude.{
  ℕ, zero, suc, List, [], ◌∷◌, ◌++◌, length, get_elem?, length-append, some, ◌≡◌, refl, sym, ap,
  ◌∙◌, ◌⊎◌, inl, inr, arith,
}
use code_roam.Bridge.{Shown}
use code_roam.Js.{Value}
use code_roam.Js.Strings.{Text}
use code_roam.Selection.Coordinates.{Coordinates}
use code_roam.Gesture.{
  Terminal, Effect, prevent_default, stop_propagation, set_timeout, clear_timeout, timeout_ran,
}
use code_roam.Terminal.{Commands, Page, event_id, copies, pastes, on_page_event}
use code_roam.Terminal.Stream.{ids, event_id-injective}
use code_roam.Terminal.Numbered.{numbered, IsNumbered, event-IsNumbered, moved-IsNumbered}
use code_roam.Terminal.Whole.{
  Calls, commands, since, Whole, react, react_all, after_controls, page_event, after_page, acts,
  hears, Lived, begins, lives,
}

last-elem {ℓ} :
    {A : Type ℓ} (xs : List A) (x : A) (i : ℕ) (y : A)
    → get_elem? (xs ++ (x ∷ [])) i ≡ some y
    → (get_elem? xs i ≡ some y) ⊎ ((i ≡ length xs) × (x ≡ y))
last-elem [] x zero y h = inr (refl, cc)
last-elem [] x (suc i) y h = cc
last-elem (z ∷ xs) x zero y h = inl h
last-elem (z ∷ xs) x (suc i) y h = elim (last-elem xs x i y h) [
  | inl e ↦ inl e
  | inr (e, f) ↦ inr (ap suc e, f)
]

module _ (x : Commands) (shown : Value → Shown) (stream_id : Text) where
  length-numbered : (n : ℕ) → length (numbered x shown stream_id n) ≡ n
  length-numbered zero = refl
  length-numbered (suc n) = omega (
    arith,
    length-append (numbered x shown stream_id n) (event_id stream_id (suc n) ∷ []),
    length-numbered n,
  )

  elem-numbered :
      (n i : ℕ) (id : Text)
      → get_elem? (numbered x shown stream_id n) i ≡ some id
      → event_id stream_id (suc i) ≡ id
  elem-numbered zero i id h = cc
  elem-numbered (suc n) i id h =
      elim (last-elem (numbered x shown stream_id n) (event_id stream_id (suc n)) i id h) [
        | inl before ↦ elem-numbered n i id before
        | inr (place, same) ↦
            ap (λ m. event_id stream_id (suc m)) (place ∙ length-numbered n) ∙ same
      ]

module _ (k : Coordinates) (t : Terminal k) (calls : Calls t.State) (shown : Value → Shown)
    (stream_id : Text) where
  abbrev x : Commands
  x = commands t.State calls

  react-IsNumbered :
      (e : Effect) (p : Page x)
      → IsNumbered x shown stream_id p
      → IsNumbered x shown stream_id (react k t calls shown stream_id e p)
  unfolding react on_page_event
  react-IsNumbered (Effect.on_copy selection) p n =
      event-IsNumbered x shown stream_id (copies selection) p n
  react-IsNumbered Effect.on_paste p n = event-IsNumbered x shown stream_id pastes p n
  react-IsNumbered prevent_default p n = n
  react-IsNumbered stop_propagation p n = n
  react-IsNumbered (set_timeout timer) p n = n
  react-IsNumbered (clear_timeout timer) p n = n
  react-IsNumbered (timeout_ran timer) p n = n

  react_all-IsNumbered :
      (es : List Effect) (p : Page x)
      → IsNumbered x shown stream_id p
      → IsNumbered x shown stream_id (react_all k t calls shown stream_id es p)
  unfolding react_all
  react_all-IsNumbered [] p n = n
  react_all-IsNumbered (e ∷ es) p n =
      react-IsNumbered e (react_all k t calls shown stream_id es p) (react_all-IsNumbered es p n)

  Lived-IsNumbered :
      (start : t.State) (w : Whole k t calls shown stream_id)
      → Lived k t calls shown stream_id start w
      → IsNumbered x shown stream_id w.page
  unfolding after_controls after_page
  Lived-IsNumbered start _ begins = record { connected = refl; posted = refl }
  Lived-IsNumbered start _ (lives {w = w} l (acts {s = s} st)) =
      react_all-IsNumbered (since (length w.session.effects) s.effects)
        (record w.page { terminal = s.terminal })
        (moved-IsNumbered x shown stream_id w.page s.terminal (Lived-IsNumbered start w l))
  Lived-IsNumbered start _ (lives {w = w} l (hears o listened)) =
      event-IsNumbered x shown stream_id (page_event k t calls shown stream_id o) w.page
        (Lived-IsNumbered start w l)

  -- Through every sequence of touches, clicks, timers, values from Flutter and changes of the
  -- terminal, no two messages that the page posts have the same id.
  pub Lived-distinct :
      (start : t.State) (w : Whole k t calls shown stream_id) (i j : ℕ) (id : Text)
      → Lived k t calls shown stream_id start w
      → get_elem? (ids w.page.port.posted) i ≡ some id
      → get_elem? (ids w.page.port.posted) j ≡ some id
      → i ≡ j
  Lived-distinct start w i j id l at at' =
      let posted = (Lived-IsNumbered start w l).posted in
      let n = w.page.sequence in
      let first =
        elem-numbered x shown stream_id n i id (sym (ap (λ s. get_elem? s i) posted) ∙ at) in
      let other =
        elem-numbered x shown stream_id n j id (sym (ap (λ s. get_elem? s j) posted) ∙ at') in
      let (_, same) =
        event_id-injective stream_id stream_id (suc i) (suc j) refl (first ∙ sym other) in
      omega (arith, same)
