-- ===== src/Python/Equality.antt =====
-- `==` of JSON values: a boolean is 0 or 1, numbers are compared by value, lists by position and dicts by key.
use finna_app.Prelude.{
  ℕ, suc, ◌*◌, ◌^◌, Bool, true, false, String, none, some, ◌&&◌, ◌||◌, ◌==◌, ◌≡◌, ap, eq_iff, eqb,
  if◌then◌else◌,
}
use finna_app.Python.Decimal.{Decimal, of_nat, is_zero}
use finna_app.Python.Value.{
  Value, null, bool, num, str, arr, obj, Items, nil, cons, Fields, end, field, get?,
}

unfoldable pub same_number : Decimal → Decimal → Bool
unfolding is_zero
same_number x y =
    eqb (x.coefficient * 10 ^ y.places) (y.coefficient * 10 ^ x.places)
    && (is_zero x || (if x.negative then y.negative else (if y.negative then false else true)))

abbrev pub truth_number : Bool → Decimal
truth_number b = of_nat (if b then 1 else 0)

-- `len(d)`
unfoldable pub entries : Fields → ℕ
entries end = 0
entries (field k v d) = suc (entries d)

-- A number, where the value is one or a boolean.
unfoldable pub equals_number : Decimal → Value → Bool
unfolding same_number
equals_number x (num y) = same_number x y
equals_number x (bool b) = same_number x (truth_number b)
equals_number x _ = false

unfoldable mutual
  unfolding equals_number entries get?

  -- `v == w`
  pub equals : Value → Value → Bool
  equals null null = true
  equals (bool b) w = equals_number (truth_number b) w
  equals (num x) w = equals_number x w
  equals (str s) (str t) = s == t
  equals (arr vs) (arr ws) = equals_items vs ws
  equals (obj d) (obj e) = eqb (entries d) (entries e) && equals_fields d e
  equals _ _ = false

  pub equals_items : Items → Items → Bool
  equals_items nil nil = true
  equals_items (cons v vs) (cons w ws) = equals v w && equals_items vs ws
  equals_items _ _ = false

  -- Each key of the one dict has an equal value in the other.
  pub equals_fields : Fields → Fields → Bool
  equals_fields end e = true
  equals_fields (field k v d) e =
      elim (get? e k) [ none ↦ false | some w ↦ equals v w ] && equals_fields d e

-- Only the same text is equal to a text.
pub equals-text : (v : Value) (s : String) → equals v (str s) ≡ true → v ≡ str s
unfolding equals
equals-text (str t) s h = ap str ((eq_iff t s).0 h)
equals-text null s h = cc
equals-text (bool b) s h = cc
equals-text (num x) s h = cc
equals-text (arr vs) s h = cc
equals-text (obj d) s h = cc
