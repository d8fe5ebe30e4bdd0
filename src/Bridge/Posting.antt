-- ===== src/Bridge/Posting.antt =====
-- What the channel to Flutter has posted.
use code_roam.Prelude.{
  Bool, true, false, ◌≡◌, refl, sym, ap₂, ◌∙◌, List, [], ◌∷◌, ◌++◌, Option, if◌then◌else◌,
  Bool-cases, inl, inr,
}
use mathlib.Core.List.{append-nil, append_assoc}
use code_roam.Js.{Fields}
use code_roam.Js.Strings.{Text}
use code_roam.Bridge.{BridgeMessage, Port, send, message_of}

-- The messages posted once more are sent: without a channel, the same as before.
abbrev pub posts : Port → List BridgeMessage → List BridgeMessage
posts port ms = if port.connected then port.posted ++ ms else port.posted

pub record Posts (ms : List BridgeMessage) (port port' : Port) : Type 0 where
  pub connection : port'.connected ≡ port.connected
  pub posted : port'.posted ≡ posts port ms

pub send-Posts :
    (type : Text) (payload : Fields) (id : Option Text) (port : Port)
    → Posts (message_of type payload id ∷ []) port (send type payload id port)
unfolding send
send-Posts type payload id port = elim (Bool-cases port.connected) [
  | inl c ↦ rw c (record { connection = refl; posted = refl })
  | inr c ↦ rw c (record { connection = refl; posted = refl })
]

posts-nil : (port : Port) → posts port [] ≡ port.posted
posts-nil port = elim (Bool-cases port.connected) [
  | inl c ↦ rw c (append-nil port.posted)
  | inr c ↦ rw c refl
]

pub Posts-none : (port : Port) → Posts [] port port
Posts-none port = record { connection = refl; posted = sym (posts-nil port) }

-- Appending twice, if at all, is appending both.
twice :
    (c : Bool) (l ms ns : List BridgeMessage)
    → (if c then (if c then l ++ ms else l) ++ ns else if c then l ++ ms else l)
      ≡ (if c then l ++ (ms ++ ns) else l)
twice true l ms ns = append_assoc l ms ns
twice false l ms ns = refl

pub Posts-both :
    {ms ns : List BridgeMessage} {a b c : Port} → Posts ms a b → Posts ns b c → Posts (ms ++ ns) a c
Posts-both {ms} {ns} {a} {b} f g = record {
  connection = g.connection ∙ f.connection;
  posted =
      g.posted
      ∙ ap₂ (λ o l. if o then l ++ ns else l) f.connection f.posted
      ∙ twice a.connected a.posted ms ns;
}
