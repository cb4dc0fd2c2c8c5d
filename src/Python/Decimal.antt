-- ===== src/Python/Decimal.antt =====
-- Numbers: Python's `Decimal`, and its `int` and `float` where they are read from JSON. A number is
-- exact; the rounding of a product to 28 digits and of a float to 53 bits is not modelled.
use finna_app.Prelude.{
  ℕ, suc, ◌+◌, ◌*◌, ◌/◌, ◌%◌, ◌^◌, Bool, false, not, ◌&&◌, ◌||◌, xor, eqb, ltb, if◌then◌else◌,
}

-- (-1)^negative * coefficient / 10^places
pub record Decimal : Type 0 where
  pub negative : Bool
  pub coefficient : ℕ
  pub places : ℕ

abbrev pub zero_decimal : Decimal
zero_decimal = record { negative = false; coefficient = 0; places = 0 }

-- An integer that is not negative.
abbrev pub of_nat : ℕ → Decimal
of_nat n = record { negative = false; coefficient = n; places = 0 }

-- `not x`
unfoldable pub is_zero : Decimal → Bool
is_zero x = eqb x.coefficient 0

unfoldable pub mul : Decimal → Decimal → Decimal
mul x y = record {
  negative = xor x.negative y.negative;
  coefficient = x.coefficient * y.coefficient;
  places = x.places + y.places;
}

-- `int(x)` drops the fraction; the absolute value of the result.
unfoldable pub truncate : Decimal → ℕ
truncate x = x.coefficient / 10 ^ x.places

-- Both coefficients at the sum of the places.
abbrev left_scaled : Decimal → Decimal → ℕ
left_scaled x y = x.coefficient * 10 ^ y.places

-- `x < y`
unfoldable pub less : Decimal → Decimal → Bool
unfolding is_zero
less x y =
    let a = left_scaled x y in
    let b = left_scaled y x in
    if x.negative
    then (if y.negative then ltb b a else not (is_zero x && is_zero y))
    else (if y.negative then false else ltb a b)

-- n / d as a whole number, a half rounded up: ROUND_HALF_UP of the absolute value.
unfoldable pub round_half_up : ℕ → ℕ → ℕ
round_half_up n d = (2 * n + d) / (2 * d)

-- n / d as a whole number, a half rounded to the even neighbour: ROUND_HALF_EVEN, the default.
unfoldable pub round_half_even : ℕ → ℕ → ℕ
round_half_even n d =
    let below = n / d in
    let twice = 2 * (n % d) in
    if ltb d twice || (eqb d twice && eqb (below % 2) 1) then suc below else below
