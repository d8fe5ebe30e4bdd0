-- ===== src/Terminal/Performed.antt =====
-- What each command asks of xterm's terminal, and what the page tells Flutter of it.
use code_roam.Prelude.{ℕ, ◌+◌, ◌≡◌, refl, sym, ap, ◌∙◌, List, [], ◌∷◌, ◌++◌, none, some, arith}
use mathlib.Core.Path.{subst}
use code_roam.Js.{Value, string, number, integer, end, field}
use code_roam.Js.Strings.{Text, codes}
use code_roam.Js.Numerals.{number_text}
use code_roam.Bridge.{Shown, BridgeMessage, message_of, optional_id}
use code_roam.Bridge.Posting.{Posts, send-Posts, Posts-none, Posts-both}
use code_roam.Terminal.{
  Commands, Page, Notice, input_data, resized, Command, write_text, paste_text, focus_terminal,
  clear_terminal, resize_to, event_id, with_stream_id, send_terminal_stream_event, hear, hear_all,
  run_command, perform,
}
use code_roam.Terminal.Stream.{inputs, optional-event_id}

-- The call of the terminal, what it gives and what its listeners are told.
abbrev pub Calls : (x : Commands) → Command → x.State → x.State × List Notice → Type 0
Calls x (write_text text) s r = r ≡ x.write text s
Calls x (paste_text text) s r = r ≡ x.paste text s
Calls x focus_terminal s r = r ≡ x.focus s
Calls x clear_terminal s r = r ≡ x.clear s
Calls x (resize_to columns rows) s r = r ≡ x.resize columns rows s

-- The messages about what the listeners are told, after `n` stream events: input under the next id,
-- sizes without an id.
abbrev pub tidings : Text → ℕ → List Notice → List BridgeMessage
tidings stream_id n [] = []
tidings stream_id n (input_data text ∷ notices) =
    record {
      version = 1;
      id = some (stream_id ++ (codes ":" ++ number_text 10 (n + 1)));
      type = codes "terminal.input";
      payload =
          field (codes "data") (string text) (field (codes "streamId") (string stream_id) end);
    }
    ∷ tidings stream_id (n + 1) notices
tidings stream_id n (resized columns rows ∷ notices) =
    record {
      version = 1;
      id = none;
      type = codes "terminal.resized";
      payload =
          field (codes "columns") (number (integer columns))
            (field (codes "rows") (number (integer rows)) end);
    }
    ∷ tidings stream_id n notices

module _ (x : Commands) (shown : Value → Shown) (stream_id : Text) where
  -- The page tells Flutter of these notices, and nothing else happens to it.
  pub record IsTold (notices : List Notice) (p p' : Page x) : Type 0 where
    pub same_terminal : p'.terminal ≡ p.terminal
    pub numbered : p'.sequence ≡ p.sequence + inputs notices
    pub sent : Posts (tidings stream_id p.sequence notices) p.port p'.port

  hear-IsTold : (n : Notice) (p : Page x) → IsTold (n ∷ []) p (hear x shown stream_id n p)
  unfolding hear send_terminal_stream_event message_of event_id with_stream_id optional_id
  hear-IsTold (input_data text) p = record {
    same_terminal = refl;
    numbered = refl;
    sent =
        subst
          (λ id.
            Posts
              (record {
                version = 1;
                id = id;
                type = codes "terminal.input";
                payload =
                    field (codes "data") (string text)
                      (field (codes "streamId") (string stream_id) end);
              }
                ∷ [])
              p.port (hear x shown stream_id (input_data text) p).port)
          (optional-event_id stream_id (p.sequence + 1))
          (send-Posts _ _ (some (event_id stream_id (p.sequence + 1))) p.port);
  }
  hear-IsTold (resized columns rows) p = record {
    same_terminal = refl;
    numbered = omega arith;
    sent = send-Posts _ _ none p.port;
  }

  tidings-append :
      (n : ℕ) (a : Notice) (notices : List Notice)
      → tidings stream_id n (a ∷ []) ++ tidings stream_id (n + inputs (a ∷ [])) notices
        ≡ tidings stream_id n (a ∷ notices)
  tidings-append n (input_data text) notices = refl
  tidings-append n (resized columns rows) notices =
      let same : n + 0 ≡ n = omega arith in
      ap (λ m. tidings stream_id n (resized columns rows ∷ []) ++ tidings stream_id m notices) same

  inputs-cons :
      (n : Notice) (notices : List Notice) → inputs (n ∷ notices) ≡ inputs (n ∷ []) + inputs notices
  inputs-cons (input_data text) notices = omega arith
  inputs-cons (resized columns rows) notices = omega arith

  hear_all-IsTold :
      (notices : List Notice) (p : Page x) → IsTold notices p (hear_all x shown stream_id notices p)
  unfolding hear_all
  hear_all-IsTold [] p = record {
    same_terminal = refl;
    numbered = omega arith;
    sent = Posts-none p.port;
  }
  hear_all-IsTold (n ∷ notices) p =
      let one = hear-IsTold n p in
      let rest = hear_all-IsTold notices (hear x shown stream_id n p) in
      record {
        same_terminal = rest.same_terminal ∙ one.same_terminal;
        numbered = omega (arith, rest.numbered, one.numbered, inputs-cons n notices);
        sent =
            subst (λ ms. Posts ms p.port (hear_all x shown stream_id (n ∷ notices) p).port)
              (ap (λ m. tidings stream_id p.sequence (n ∷ []) ++ tidings stream_id m notices)
                  one.numbered
                ∙ tidings-append p.sequence n notices)
              (Posts-both one.sent rest.sent);
      }

  -- The terminal was called for a command, and the page tells Flutter what its listeners were told:
  -- nothing else happens.
  pub record IsPerformed (c : Command) (p p' : Page x) : Type 0 where
    pub notices : List Notice
    pub call : Calls x c p.terminal (p'.terminal, notices)
    pub numbered : p'.sequence ≡ p.sequence + inputs notices
    pub sent : Posts (tidings stream_id p.sequence notices) p.port p'.port

  run_command-Calls : (c : Command) (s : x.State) → Calls x c s (run_command x shown stream_id c s)
  unfolding run_command
  run_command-Calls (write_text text) s = refl
  run_command-Calls (paste_text text) s = refl
  run_command-Calls focus_terminal s = refl
  run_command-Calls clear_terminal s = refl
  run_command-Calls (resize_to columns rows) s = refl

  pub perform-IsPerformed :
      (c : Command) (p : Page x) → IsPerformed c p (perform x shown stream_id c p)
  unfolding perform
  perform-IsPerformed c p =
      let after = run_command x shown stream_id c p.terminal in
      let told = hear_all-IsTold after.1 (record p { terminal = after.0 }) in
      record {
        notices = after.1;
        call =
            subst (λ s. Calls x c p.terminal (s, after.1)) (sym told.same_terminal)
              (run_command-Calls c p.terminal);
        numbered = told.numbered;
        sent = told.sent;
      }
