-- ===== src/Bridge/Refusal.antt =====
-- Which check of `decodeBridgeMessage` an error stands for.
use code_roam.Prelude.{
  ◌≡◌, refl, sym, ◌∙◌, ◌≢◌, ◌⊎◌, inl, inr, true, false, Option, arith, pos, all, Bool-cases,
  eqb_ℤ-refl,
}
use code_roam.Js.{Value, string, number, integer, object, Fields, get, is_integer_value}
use code_roam.Js.Strings.{Text, codes, is_space, is_blank_lem}
use code_roam.Bridge.{
  DecodeError, Result, ok, throw, decode_type, decode_id, decode_payload, decode_bridge_message,
  not_an_object, unsupported_version, type_required, id_not_a_string, payload_not_an_object,
}
use code_roam.Bridge.Decoding.{IdOf, PayloadOf, version_lem, decode_type_sound, decode_id_sound}

-- The properties of an object that a check reads.
abbrev IsCurrent : Fields → Type 0
IsCurrent f = get (codes "version") f ≡ number (integer (pos 1))

abbrev IsTyped : Fields → Type 0
IsTyped f = (t : Text) × (get (codes "type") f ≡ string t) × (all is_space t ≡ false)

abbrev HasId : Fields → Type 0
HasId f = (o : Option Text) × IdOf (get (codes "id") f) o

-- The first check that fails, with those before it passed.
pub data Refusal (raw : Value) : DecodeError → Type 0 where
  no_object : ((f : Fields) → raw ≢ object f) → Refusal raw not_an_object
  other_version :
      (f : Fields)
      → raw ≡ object f
      → get (codes "version") f ≢ number (integer (pos 1))
      → Refusal raw (unsupported_version (get (codes "version") f))
  no_type :
      (f : Fields)
      → raw ≡ object f
      → IsCurrent f
      → ((t : Text) → get (codes "type") f ≡ string t → all is_space t ≡ true)
      → Refusal raw type_required
  no_id :
      (f : Fields)
      → raw ≡ object f
      → IsCurrent f
      → IsTyped f
      → ((o : Option Text) → ¬ (IdOf (get (codes "id") f) o))
      → Refusal raw id_not_a_string
  no_payload :
      (f : Fields)
      → raw ≡ object f
      → IsCurrent f
      → IsTyped f
      → HasId f
      → ((p : Fields) → ¬ (PayloadOf (get (codes "payload") f) p))
      → Refusal raw payload_not_an_object

Result-cases {ℓ} :
    {A : Type ℓ} (r : Result A) → ((a : A) × (r ≡ ok a)) ⊎ ((e : DecodeError) × (r ≡ throw e))
Result-cases (ok a) = inl (a, refl)
Result-cases (throw e) = inr (e, refl)

version_refused : (v : Value) → is_integer_value (pos 1) v ≡ false → v ≢ number (integer (pos 1))
version_refused v h e = ground (arith, eqb_ℤ-refl (pos 1))

type_refused :
    (v : Value) {e : DecodeError}
    → decode_type v ≡ throw e
    → (e ≡ type_required) × ((t : Text) → v ≡ string t → all is_space t ≡ true)
unfolding decode_type
type_refused (string t) h = (ground arith, λ s same. ground (arith, is_blank_lem s))
type_refused _ h = (cc, λ s same. cc)

id_refused :
    (v : Value) {e : DecodeError}
    → decode_id v ≡ throw e
    → (e ≡ id_not_a_string) × ((o : Option Text) → ¬ (IdOf v o))
unfolding decode_id
id_refused v h = (ground arith, λ o same. ground arith)

payload_refused :
    (v : Value) {e : DecodeError}
    → decode_payload v ≡ throw e
    → (e ≡ payload_not_an_object) × ((p : Fields) → ¬ (PayloadOf v p))
unfolding decode_payload
payload_refused v h = (ground arith, λ o same. ground arith)

module _ (f : Fields) {e : DecodeError} where
  -- What is left of the checks after the version, after the type and after the id.
  past_id :
      IsCurrent f
      → IsTyped f
      → HasId f
      → decode_payload (get (codes "payload") f) ≡ throw e
      → Refusal (object f) e
  past_id v t i h =
      let (same, never) = payload_refused _ h in rw same (no_payload f refl v t i never)

  past_type :
      (t : Text) (o : Result (Option Text))
      → IsCurrent f
      → decode_type (get (codes "type") f) ≡ ok t
      → decode_id (get (codes "id") f) ≡ o
      → is_integer_value (pos 1) (get (codes "version") f) ≡ true
      → decode_bridge_message (object f) ≡ throw e
      → Refusal (object f) e
  unfolding decode_bridge_message
  past_type t (ok o) v et ei test h =
      let (typed, filled) = decode_type_sound _ et in
      past_id v (t, typed, sym (is_blank_lem t) ∙ filled) (o, decode_id_sound _ ei) (ground arith)
  past_type t (throw e') v et ei test h =
      let (typed, filled) = decode_type_sound _ et in
      let (same, never) = id_refused (get (codes "id") f) {e = e} (ground arith) in
      rw same (no_id f refl v (t, typed, sym (is_blank_lem t) ∙ filled) never)

  past_version :
      (r : Result Text)
      → decode_type (get (codes "type") f) ≡ r
      → is_integer_value (pos 1) (get (codes "version") f) ≡ true
      → decode_bridge_message (object f) ≡ throw e
      → Refusal (object f) e
  unfolding decode_bridge_message
  past_version (ok t) et test h = past_type t _ (version_lem _ test) et refl test h
  past_version (throw e') et test h =
      let (same, never) = type_refused (get (codes "type") f) {e = e} (ground arith) in
      rw same (no_type f refl (version_lem _ test) never)

-- When `decodeBridgeMessage` throws, the error tells the first check that failed, and every
-- check before it passed.
pub decode-Refusal :
    (raw : Value) (e : DecodeError) → decode_bridge_message raw ≡ throw e → Refusal raw e
unfolding decode_bridge_message
decode-Refusal (object f) e h =
    elim (Bool-cases (is_integer_value (pos 1) (get (codes "version") f))) [
      | inl test ↦ past_version f _ refl test h
      | inr fails ↦
          let same : e ≡ unsupported_version (get (codes "version") f) = ground arith in
          rw same (other_version f refl (version_refused _ fails))
    ]
decode-Refusal _ e h =
    let same : e ≡ not_an_object = ground arith in rw same (no_object (λ f eq. cc))
