-- ===== src/Terminal/StreamId.antt =====
-- `createTerminalInputStreamId` of webview/terminal/src/main.ts.
use code_roam.Prelude.{
  ℕ, ◌*◌, ◌^◌, ◌<◌, ◌≡◌, ◌∙◌, sym, ap, ap₂, refl, List, [], ◌∷◌, ◌++◌, Option, none, some, length,
  length-append, All, arith,
}
use code_roam.Js.Strings.{Text}
use code_roam.Js.Numerals.{
  number_text, pad_start, value, value-number_text, value-pad_start, length-pad_start,
  length-number_text,
}

-- `value.toString(16).padStart(8, "0")`
hex_word : ℕ → Text
hex_word v = pad_start 8 (number_text 16 v)

hex_words : List ℕ → Text
unfolding hex_word
hex_words [] = []
hex_words (v ∷ values) = hex_word v ++ hex_words values

-- `crypto.randomUUID()`, where the platform has it, and otherwise the four words that
-- `crypto.getRandomValues` gives.
pub create_terminal_input_stream_id : Option Text → List ℕ → Text
unfolding hex_words
create_terminal_input_stream_id (some uuid) values = uuid
create_terminal_input_stream_id none values = hex_words values

-- An element of a `Uint32Array`.
abbrev pub IsWord : ℕ → Type 0
IsWord v = v < 2 ^ 32

length-hex_word : (v : ℕ) → IsWord v → length (hex_word v) ≡ 8
unfolding hex_word
length-hex_word v h =
    length-pad_start 8 (number_text 16 v) (length-number_text 16 (omega arith) 7 v (omega arith))

hex_word-injective : (v w : ℕ) → hex_word v ≡ hex_word w → v ≡ w
unfolding hex_word
hex_word-injective v w e = sym (read v) ∙ ap (value 16) e ∙ read w
  where
    read : (v : ℕ) → value 16 (pad_start 8 (number_text 16 v)) ≡ v
    read v =
        value-pad_start 16 8 (number_text 16 v) ∙ value-number_text 16 (omega arith) (omega arith) v

pub append-injective :
    (s t : Text) {x y : Text} → length s ≡ length t → s ++ x ≡ t ++ y → (s ≡ t) × (x ≡ y)
append-injective [] [] h e = (refl, e)
append-injective [] (b ∷ t) h e = absurd (omega arith)
append-injective (a ∷ s) [] h e = absurd (omega arith)
append-injective (a ∷ s) (b ∷ t) {x} {y} h e =
    let rest : s ++ x ≡ t ++ y = cc in
    let head : a ≡ b = cc in
    let (same, same_rest) = append-injective s t (omega arith) rest in (cc, same_rest)

hex_words-injective :
    (vs ws : List ℕ)
    → All IsWord vs
    → All IsWord ws
    → length vs ≡ length ws
    → hex_words vs ≡ hex_words ws
    → vs ≡ ws
unfolding hex_words
hex_words-injective [] [] h k l e = refl
hex_words-injective [] (w ∷ ws) h k l e = absurd (omega arith)
hex_words-injective (v ∷ vs) [] h k l e = absurd (omega arith)
hex_words-injective (v ∷ vs) (w ∷ ws) (h, hs) (k, ks) l e =
    let (here, there) =
      append-injective (hex_word v) (hex_word w) (length-hex_word v h ∙ sym (length-hex_word w k))
        e in
    ap₂ ◌∷◌ (hex_word-injective v w here) (hex_words-injective vs ws hs ks (omega arith) there)

length-hex_words : (vs : List ℕ) → All IsWord vs → length (hex_words vs) ≡ 8 * length vs
unfolding hex_words
length-hex_words [] h = refl
length-hex_words (v ∷ vs) (h, hs) =
    omega (
      arith,
      length-append (hex_word v) (hex_words vs),
      length-hex_word v h,
      length-hex_words vs hs,
    )

-- Without `randomUUID` the id has 32 digits, and different random words give different ids.
pub stream_id_lem :
    (a b c d : ℕ) (ws : List ℕ)
    → All IsWord (a ∷ b ∷ c ∷ d ∷ [])
    → All IsWord ws
    → length ws ≡ 4
    → (length (create_terminal_input_stream_id none (a ∷ b ∷ c ∷ d ∷ [])) ≡ 32)
      × (create_terminal_input_stream_id none (a ∷ b ∷ c ∷ d ∷ [])
            ≡ create_terminal_input_stream_id none ws
          → a ∷ b ∷ c ∷ d ∷ [] ≡ ws)
unfolding create_terminal_input_stream_id
stream_id_lem a b c d ws h k l = (
  length-hex_words (a ∷ b ∷ c ∷ d ∷ []) h,
  hex_words-injective (a ∷ b ∷ c ∷ d ∷ []) ws h k (sym l),
)
