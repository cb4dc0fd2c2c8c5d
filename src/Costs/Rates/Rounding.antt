-- ===== src/Costs/Rates/Rounding.antt =====
-- How near the rate that is rounded twice is to the exact quotient.
use native.Mathlib.Nat.{
  one-le-pow, pow-le-pow_right, mul-le-mul_right, le_of_mul-le-mul_right, div-add-mod', mod-lt,
  div-mul-le_self, lt-div-mul-add,
}
use finna_app.Prelude.{
  ℕ, zero, suc, ◌+◌, ◌-◌, ◌*◌, ◌/◌, ◌%◌, ◌^◌, ◌≤◌, ◌<◌, ◌≡◌, refl, sym, subst, ◌⊎◌, inl, inr, Bool,
  true, false, arith, if◌then◌else◌, Bool-cases, leb→le, leb, ◌&&◌, ◌||◌, eqb, ltb, ltb→lt,
}
use finna_app.Python.Decimal.{round_half_up, round_half_even}
use finna_app.Costs.Rates.{digits_from, divide, rounded_twice, rounded, precision}

double : (q d : ℕ) → q * (2 * d) ≡ 2 * (q * d)
double q d = grind arith

pub round_half_up-near :
    (n d : ℕ)
    → zero < d
    → (2 * (round_half_up n d * d) ≤ 2 * n + d) × (2 * n < 2 * (round_half_up n d * d) + d)
unfolding round_half_up
round_half_up-near n d positive =
    let q = (2 * n + d) / (2 * d) in
    let same : q * (2 * d) ≡ 2 * (q * d) = double q d in
    let low : q * (2 * d) ≤ 2 * n + d = div-mul-le_self (2 * n + d) (2 * d) in
    let positive2 : zero < 2 * d = omega arith in
    let high : 2 * n + d < q * (2 * d) + 2 * d =
      lt-div-mul-add {a = 2 * n + d} {b = 2 * d} positive2 in
    (omega arith, omega arith)

-- Within half a unit.
abbrev pub IsNear : ℕ → ℕ → ℕ → Type 0
IsNear q n d = (2 * (q * d) ≤ 2 * n + d) × (2 * n ≤ 2 * (q * d) + d)

suc-mul : (q d : ℕ) → suc q * d ≡ q * d + d
suc-mul q d = grind arith

rounded-IsNear :
    (up : Bool) (q r n d : ℕ)
    → q * d + r ≡ n
    → r < d
    → (up ≡ true → d ≤ 2 * r)
    → (up ≡ false → 2 * r ≤ d)
    → IsNear (if up then suc q else q) n d
rounded-IsNear true q r n d parts low h k =
    let next : suc q * d ≡ q * d + d = suc-mul q d in
    let half = h refl in (omega arith, omega arith)
rounded-IsNear false q r n d parts low h k = let half = k refl in (omega arith, omega arith)

round_half_even-IsNear : (n d : ℕ) → zero < d → IsNear (round_half_even n d) n d
unfolding round_half_even
round_half_even-IsNear n d positive =
    let q = n / d in
    let twice = 2 * (n % d) in
    rounded-IsNear (ltb d twice || (eqb d twice && eqb (q % 2) 1)) q (n % d) n d (div-add-mod' n d)
      (mod-lt n positive) (λ h. ground (arith, h)) (λ h. ground (arith, h))

chosen :
    (P : ℕ → Type 0) (b : Bool) (x y : ℕ)
    → (b ≡ true → P x)
    → (b ≡ false → P y)
    → P (elim b [ true ↦ x | false ↦ y ])
chosen P true x y h k = h refl
chosen P false x y h k = k refl

-- The search ends with its fuel or with as many digits as the precision has.
abbrev Reached : ℕ → ℕ → ℕ → ℕ → Type 0
Reached n d last s = (s ≡ last) ⊎ (10 ^ (precision - 1) * d ≤ n * 10 ^ s)

later-Reached : (n d last other s : ℕ) → last ≡ other → Reached n d last s → Reached n d other s
later-Reached n d last other s same h = subst (λ (l : ℕ). Reached n d l s) same h

digits_from-Reached :
    (fuel places n d : ℕ) → Reached n d (places + fuel) (digits_from fuel places n d)
unfolding digits_from
digits_from-Reached zero places n d = inl (omega arith)
digits_from-Reached (suc fuel) places n d =
    chosen (Reached n d (places + suc fuel)) (leb (10 ^ (precision - 1) * d) (n * 10 ^ places))
      places (digits_from fuel (suc places) n d)
      (λ h. inr (leb→le (10 ^ (precision - 1) * d) (n * 10 ^ places) h))
      (λ h.
        later-Reached n d (suc places + fuel) (places + suc fuel)
          (digits_from fuel (suc places) n d) (omega arith)
          (digits_from-Reached fuel (suc places) n d))

combine :
    (r c n d p q : ℕ)
    → IsNear c (n * p) d
    → IsNear r (c * q) p
    → q ≤ p
    → zero < p
    → (r * d ≤ n * q + d) × (n * q ≤ r * d + d)
combine r c n d p q (a, b) (e, f) low positive =
    let a' = mul-le-mul_right q a in
    let b' = mul-le-mul_right q b in
    let e' = mul-le-mul_right d e in
    let f' = mul-le-mul_right d f in
    let g' : q * d ≤ p * d = mul-le-mul_right d low in
    let m1 : (2 * (c * d)) * q ≡ 2 * (c * q * d) = grind arith in
    let m2 : (2 * (n * p) + d) * q ≡ 2 * (n * q * p) + q * d = grind arith in
    let m3 : (2 * (r * p)) * d ≡ 2 * (r * d * p) = grind arith in
    let m4 : (2 * (c * q) + p) * d ≡ 2 * (c * q * d) + p * d = grind arith in
    let m5 : (2 * (n * p)) * q ≡ 2 * (n * q * p) = grind arith in
    let m6 : (2 * (c * d) + d) * q ≡ 2 * (c * q * d) + q * d = grind arith in
    let m7 : (2 * (c * q)) * d ≡ 2 * (c * q * d) = grind arith in
    let m8 : (2 * (r * p) + p) * d ≡ 2 * (r * d * p) + p * d = grind arith in
    let m9 : (n * q + d) * p ≡ n * q * p + p * d = grind arith in
    let m10 : (r * d + d) * p ≡ r * d * p + p * d = grind arith in
    (
      le_of_mul-le-mul_right {k = p} (omega arith) positive,
      le_of_mul-le-mul_right {k = p} (omega arith) positive,
    )

by_contradiction : (a b : ℕ) → (a < b → ⊥) → b ≤ a
by_contradiction a b h = elim (Bool-cases (ltb a b)) [
  | inl e ↦ elim (h (ltb→lt a b e)) [ ]
  | inr e ↦ ground (arith, e)
]

has_digits : (c n d p : ℕ) → zero < d → 10 ^ 27 * d ≤ n * p → IsNear c (n * p) d → 10 ^ 27 ≤ c
has_digits c n d p positive large (low, high) = by_contradiction c (10 ^ 27) (λ less.
    let most : suc c * d ≤ 10 ^ 27 * d = mul-le-mul_right d less in
    let next : suc c * d ≡ c * d + d = suc-mul c d in omega arith)

-- With fewer than 8 decimal places, a quotient of 28 digits has more than 28 at 8 places.
too_many : (r c p : ℕ) → 10 ^ 27 ≤ c → zero < p → p ≤ 10 ^ 7 → IsNear r (c * 10 ^ 8) p → 10 ^ 28 ≤ r
too_many r c p digits positive small (low, high) = by_contradiction r (10 ^ 28) (λ less.
    let most : suc r * p ≤ 10 ^ 28 * p = mul-le-mul_right p less in
    let next : suc r * p ≡ r * p + p = suc-mul r p in omega arith)

-- Within one unit.
abbrev pub IsWithin : ℕ → ℕ → ℕ → Type 0
IsWithin r n d = (r * d ≤ n * 10 ^ 8 + d) × (n * 10 ^ 8 ≤ r * d + d)

up-IsNear : (n d : ℕ) → zero < d → IsNear (round_half_up n d) n d
up-IsNear n d positive = let (low, high) = round_half_up-near n d positive in (low, omega arith)

rounded_twice-IsWithin :
    (s n d : ℕ)
    → zero < d
    → Reached n d (precision + d) s
    → rounded_twice s n d < 10 ^ precision
    → IsWithin (rounded_twice s n d) n d
unfolding rounded_twice divide
rounded_twice-IsWithin s n d positive reached small =
    let c = round_half_even (n * 10 ^ s) d in
    let p_positive : zero < 10 ^ s = one-le-pow s 10 (omega arith) in
    let once = round_half_even-IsNear (n * 10 ^ s) d positive in
    let twice = up-IsNear (c * 10 ^ 8) (10 ^ s) p_positive in
    let places : 8 ≤ s = by_contradiction s 8 (λ few. elim reached [
      | inl all ↦ omega arith
      | inr digits ↦
          let p_small : 10 ^ s ≤ 10 ^ 7 =
            pow-le-pow_right {n = 10} (omega arith) {i = s} {j = 7} (omega arith) in
          let big =
            too_many (round_half_up (c * 10 ^ 8) (10 ^ s)) c (10 ^ s)
              (has_digits c n d (10 ^ s) positive digits once) p_positive p_small twice in
          omega arith
    ]) in
    combine (round_half_up (c * 10 ^ 8) (10 ^ s)) c n d (10 ^ s) (10 ^ 8) once twice
      (pow-le-pow_right {n = 10} (omega arith) {i = 8} {j = s} places) p_positive

pub rounded-IsWithin :
    (n d : ℕ) → zero < d → rounded n d < 10 ^ precision → IsWithin (rounded n d) n d
unfolding rounded
rounded-IsWithin n d positive small = elim (Bool-cases (eqb n 0)) [
  | inl e ↦ ground (arith, e)
  | inr e ↦
      let same : rounded_twice (digits_from (precision + d) 0 n d) n d ≡ rounded n d =
        ground (arith, e) in
      subst (λ (r : ℕ). IsWithin r n d) same
        (rounded_twice-IsWithin (digits_from (precision + d) 0 n d) n d positive
          (later-Reached n d (0 + (precision + d)) (precision + d)
            (digits_from (precision + d) 0 n d) (omega arith)
            (digits_from-Reached (precision + d) 0 n d))
          (subst (λ (r : ℕ). r < 10 ^ precision) (sym same) small))
]
