-- ===== src/Js.antt =====
-- The JavaScript values that cross the bridge between Flutter and the web views, and the string
-- operations that webview/editor/src and webview/terminal/src use on them.
pub mod Strings
pub mod Numerals
use code_roam.Prelude.{
  ◌≡◌, ℕ, ℤ, Bool, List, Option, none, some, false, true, if◌then◌else◌, eqb_ℤ, pos,
}
use Strings.{Text, text_eq}

-- A number is an integer, or one that `Number.isInteger` refuses (a fraction, NaN, an infinity),
-- of which the code asks nothing else; a label tells those apart.
pub data JsNumber : Type 0 where
  integer : ℤ → JsNumber
  not_integer : ℕ → JsNumber

-- `opaque` stands for functions, symbols and big integers. An object is its own properties.
mutual
  pub data Value : Type 0 where
    undefined : Value
    null : Value
    boolean : Bool → Value
    number : JsNumber → Value
    string : Text → Value
    array : Items → Value
    object : Fields → Value
    opaque : ℕ → Value

  pub data Items : Type 0 where
    nil : Items
    cons : Value → Items → Items

  pub data Fields : Type 0 where
    end : Fields
    field : Text → Value → Fields → Fields

-- `fields.key`
unfoldable pub get : Text → Fields → Value
get key end = undefined
get key (field k v rest) = if text_eq k key then v else get key rest

-- `typeof value === "string"`, with the string
abbrev pub as_string : Value → Option Text
as_string (string t) = some t
as_string _ = none

-- `typeof value === "number" && Number.isInteger(value)`, with the integer
abbrev pub as_integer : Value → Option ℤ
as_integer (number (integer n)) = some n
as_integer _ = none

-- `value === n` for an integer `n`
abbrev pub is_integer_value : ℤ → Value → Bool
is_integer_value n (number (integer m)) = eqb_ℤ m n
is_integer_value n _ = false

-- What a reading that succeeds has read.
pub as_string_lem : (v : Value) {t : Text} → as_string v ≡ some t → v ≡ string t
as_string_lem (string t) h = cc
as_string_lem _ h = cc

pub as_integer_lem : (v : Value) {n : ℤ} → as_integer v ≡ some n → v ≡ number (integer n)
as_integer_lem (number (integer n)) h = cc
as_integer_lem _ h = cc
