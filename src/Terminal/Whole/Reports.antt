-- ===== src/Terminal/Whole/Reports.antt =====
-- What the log of the controller and the messages of the page say of the selection's buttons.
use code_roam.Prelude.{true, List, [], ◌∷◌, ◌++◌, Option, ◌≡◌, refl, sym, ap, ◌∙◌, if◌then◌else◌}
use mathlib.Core.List.{append-nil, append_assoc}
use code_roam.Js.{Value, string, Fields, get}
use code_roam.Js.Strings.{Text, codes, text_eq}
use code_roam.Bridge.{BridgeMessage, Port, send, message_of}
use code_roam.Gesture.{
  Effect, prevent_default, stop_propagation, set_timeout, clear_timeout, timeout_ran,
}

-- What a button asks of Flutter.
pub data Report : Type 0 where
  selection_copied : Text → Report
  paste_requested : Report

unfoldable pub reports_of_effect : Effect → List Report
reports_of_effect (Effect.on_copy selection) = selection_copied selection ∷ []
reports_of_effect Effect.on_paste = paste_requested ∷ []
reports_of_effect prevent_default = []
reports_of_effect stop_propagation = []
reports_of_effect (set_timeout timer) = []
reports_of_effect (clear_timeout timer) = []
reports_of_effect (timeout_ran timer) = []

-- What the buttons asked for, the first first.
unfoldable pub reports : List Effect → List Report
unfolding reports_of_effect
reports [] = []
reports (e ∷ es) = reports es ++ reports_of_effect e

unfoldable pub copied_text : Value → List Report
copied_text (string selection) = selection_copied selection ∷ []
copied_text _ = []

unfoldable pub reports_of_message : BridgeMessage → List Report
unfolding copied_text
reports_of_message m =
    if text_eq m.type (codes "terminal.copySelection")
    then copied_text (get (codes "text") m.payload)
    else if text_eq m.type (codes "terminal.pasteRequest")
    then paste_requested ∷ []
    else []

-- What messages report of the buttons.
unfoldable pub reported : List BridgeMessage → List Report
unfolding reports_of_message
reported [] = []
reported (m ∷ ms) = reports_of_message m ++ reported ms

pub reported-append :
    (ms ns : List BridgeMessage) → reported (ms ++ ns) ≡ reported ms ++ reported ns
unfolding reported
reported-append [] ns = refl
reported-append (m ∷ ms) ns =
    ap (λ t. reports_of_message m ++ t) (reported-append ms ns)
    ∙ sym (append_assoc (reports_of_message m) _ _)

pub reports-append : (new old : List Effect) → reports (new ++ old) ≡ reports old ++ reports new
unfolding reports
reports-append [] old = sym (append-nil _)
reports-append (e ∷ new) old =
    ap (λ t. t ++ reports_of_effect e) (reports-append new old)
    ∙ append_assoc (reports old) (reports new) (reports_of_effect e)

-- Posts to a channel that is connected report so much more.
pub record Adds (new : List Report) (port port' : Port) : Type 0 where
  pub connected : port'.connected ≡ true
  pub posted : reported port'.posted ≡ reported port.posted ++ new

pub send-Adds :
    (type : Text) (payload : Fields) (id : Option Text) (port : Port)
    → port.connected ≡ true
    → Adds (reports_of_message (message_of type payload id)) port (send type payload id port)
unfolding send reported
send-Adds type payload id port h = rw h (record {
  connected = refl;
  posted = reported-append port.posted _ ∙ ap (λ t. reported port.posted ++ t) (append-nil _);
})

pub Adds-none : (port : Port) → port.connected ≡ true → Adds [] port port
Adds-none port h = record { connected = h; posted = sym (append-nil _) }

pub Adds-both :
    {new new' : List Report} {a b c : Port} → Adds new a b → Adds new' b c → Adds (new ++ new') a c
Adds-both {new = new} {new' = new'} {a = a} f g = record {
  connected = g.connected;
  posted = g.posted ∙ ap (λ t. t ++ new') f.posted ∙ append_assoc (reported a.posted) new new';
}
