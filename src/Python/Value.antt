-- ===== src/Python/Value.antt =====
-- A value of a dict that was read from JSON or from a database row, and what the program does with
-- one: `d.get(k)`, `d[k]`, truth, `a or b`, `.lower()`.
use finna_app.Prelude.{
  ℕ, String, Bool, true, false, not, Option, none, some, List, [], ◌∷◌, ◌==◌, if◌then◌else◌,
}
use finna_app.Python.Decimal.{Decimal, is_zero, truncate}
use finna_app.Python.Try.{Try, ok, raise, attribute_error, key_error, type_error, value_error}

mutual
  -- The entries of a dict, in order.
  pub data Fields : Type 0 where
    end : Fields
    field : (key : String) (value : Value) (others : Fields) → Fields

  -- The entries of a list.
  pub data Items : Type 0 where
    nil : Items
    cons : (value : Value) (others : Items) → Items

  pub data Value : Type 0 where
    null : Value
    obj : Fields → Value
    arr : Items → Value
    str : String → Value
    num : Decimal → Value
    bool : Bool → Value

-- `d.get(k)`, with `none` for a key that is not there.
unfoldable pub get? : Fields → String → Option Value
get? end k = none
get? (field j v d) k = if j == k then some v else get? d k

abbrev pub or_default : Option Value → Value → Value
or_default none v = v
or_default (some w) v = w

-- `d.get(k, default)`
unfoldable pub get_or : Fields → String → Value → Value
unfolding get?
get_or d k v = or_default (get? d k) v

-- `d.get(k)`
abbrev pub get : Fields → String → Value
get d k = get_or d k null

abbrev or_raise : Option Value → Try Value
or_raise none = raise key_error
or_raise (some v) = ok v

-- `d[k]`
unfoldable pub item : Fields → String → Try Value
unfolding get?
item d k = or_raise (get? d k)

-- `bool(v)`
unfoldable pub truthy : Value → Bool
unfolding is_zero
truthy null = false
truthy (bool b) = b
truthy (num n) = not (is_zero n)
truthy (str s) = not (s == "")
truthy (arr nil) = false
truthy (arr (cons v vs)) = true
truthy (obj end) = false
truthy (obj (field k v d)) = true

-- `v or w`
abbrev pub or_else : Value → Value → Value
or_else v w = if truthy v then v else w

-- A method call that only a string has, such as `v.lower()`.
abbrev pub as_text : Value → Try String
as_text (str s) = ok s
as_text _ = raise attribute_error

-- `for x in v`, over a list; a dict would give its keys, and a string its characters.
abbrev pub elements : Items → List Value
elements nil = []
elements (cons v vs) = v ∷ elements vs

-- `v is None`
abbrev pub is_null : Value → Bool
is_null null = true
is_null _ = false

-- What the interpreter and its library compute and the program only passes on: number parsing,
-- its sign for an integer, `str` of a value that is no string, `json.dumps`, `strptime` at UTC in microseconds since the
-- epoch, and the hexadecimal SHA-256 digest of a text.
pub record Builtins : Type 0 where
  pub parse_float : String → Option Decimal
  pub parse_int : String → Option ℕ
  pub is_negative_int : String → Bool
  pub repr : Value → String
  pub dumps : Value → String
  pub strptime : String → String → Option ℕ
  pub sha256 : String → String

module _ (py : Builtins) where
  -- `str(v)`
  unfoldable pub to_str : Value → String
  to_str (str s) = s
  to_str v = py.repr v

  abbrev or_value_error {ℓ} : {A : Type ℓ} → Option A → Try A
  or_value_error none = raise value_error
  or_value_error (some a) = ok a

  -- `float(v)`
  unfoldable pub to_float : Value → Try Decimal
  to_float null = raise type_error
  to_float (bool b) = ok (record { negative = false; coefficient = if b then 1 else 0; places = 0 })
  to_float (num n) = ok n
  to_float (str s) = or_value_error (py.parse_float s)
  to_float (arr vs) = raise type_error
  to_float (obj d) = raise type_error

  -- `int(v)`, as an absolute value
  unfoldable pub to_int : Value → Try ℕ
  unfolding truncate
  to_int null = raise type_error
  to_int (bool b) = ok (if b then 1 else 0)
  to_int (num n) = ok (truncate n)
  to_int (str s) = or_value_error (py.parse_int s)
  to_int (arr vs) = raise type_error
  to_int (obj d) = raise type_error
