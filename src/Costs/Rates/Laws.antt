-- ===== src/Costs/Rates/Laws.antt =====
-- What the conversion to dollars gives for each currency, and how near to the exact rate.
use native.Mathlib.Nat.{one-le-pow, mul-pos}
use finna_app.Prelude.{
  ℕ, zero, ◌^◌, ◌<◌, ◌≡◌, refl, sym, ◌∙◌, ap, String, Bool, true, false, Option, none, some, [],
  ◌∷◌, arith, ◌==◌, eq_iff, Bool-cases, inl, inr, xor, if◌then◌else◌, subst,
}
use finna_app.Prelude.Dict.{Dict, lookup, insert, HasDistinctKeys, lookup-insert, lookup-contains}
use finna_app.Python.Decimal.{Decimal, of_nat, is_zero}
use finna_app.Python.Try.{
  Try, ok, raise, value_error, invalid_operation, zero_division_error, >>=-eq-ok,
}
use finna_app.Costs.Rates.Rounding.{IsWithin, rounded-IsWithin}
use finna_app.Costs.Rates.{
  dividend, rounded, precision, checked, quotient, rate_to_usd, convert_items, convert_to_usd_rates,
}

checked-eq :
    (negative : Bool) (coefficient places : ℕ) (q : Decimal)
    → checked negative coefficient places ≡ ok q
    → record { negative = negative; coefficient = coefficient; places = places } ≡ q
unfolding checked
checked-eq negative coefficient places q returned = ground arith

lookup-head :
    {V : Type 0} (j k : String) (v : V) (d : Dict V)
    → lookup k ((j, v) ∷ d) ≡ (if j == k then some v else lookup k d)
unfolding lookup
lookup-head j k v d = refl

-- The loop leaves alone what no item is about.
convert_items-other :
    (usd_per_eur : Decimal) (items before after : Dict Decimal) (k : String)
    → convert_items usd_per_eur items before ≡ ok after
    → lookup k items ≡ none
    → lookup k after ≡ lookup k before
unfolding convert_items
convert_items-other u [] before after k returned absent = cc (returned)
convert_items-other u ((j, s) ∷ items) before after k returned absent =
    let (q, e, rest) = >>=-eq-ok (rate_to_usd u j s) _ returned in
    elim (Bool-cases (j == k)) [
      | inl same ↦ cc (sym (lookup-head j k s items) ∙ absent, same)
      | inr differs ↦
          convert_items-other u items (insert j q before) after k rest (
            ap (λ (b : Bool). if b then some s else lookup k items) (sym differs)
            ∙ sym (lookup-head j k s items)
            ∙ absent)
          ∙ lookup-insert j k q before
          ∙ ap (λ (b : Bool). if b then some q else lookup k before) differs
    ]

moved :
    (f : String → Decimal → Try Decimal) (j k : String) (s r : Decimal) (m : Try Decimal)
    → j ≡ k
    → s ≡ r
    → f j s ≡ m
    → f k r ≡ m
moved f j k s r m p v e = cc

some-eq : (s r : Decimal) → some s ≡ some r → s ≡ r
some-eq s r v = cc

-- What the loop leaves for a currency of the feed.
convert_items-lookup :
    (usd_per_eur : Decimal) (items before after : Dict Decimal) (k : String) (r : Decimal)
    → HasDistinctKeys items
    → convert_items usd_per_eur items before ≡ ok after
    → lookup k items ≡ some r
    → (q : Decimal) × (rate_to_usd usd_per_eur k r ≡ ok q) × (lookup k after ≡ some q)
unfolding convert_items lookup
convert_items-lookup u [] before after k r distinct returned found = cc (found)
convert_items-lookup u ((j, s) ∷ items) before after k r distinct returned found =
    let (q, e, rest) = >>=-eq-ok (rate_to_usd u j s) _ returned in
    elim (Bool-cases (j == k)) [
      | inl same ↦
          let p : j ≡ k = (eq_iff j k).0 same in
          let v : some s ≡ some r =
            ap (λ (b : Bool). if b then some s else lookup k items) (sym same) ∙ found in
          let absent : lookup k items ≡ none =
            ap (λ (i : String). lookup i items) (sym p) ∙ lookup-contains j items distinct.0 in
          (
            q,
            moved (rate_to_usd u) j k s r (ok q) p (some-eq s r v) e,
            convert_items-other u items (insert j q before) after k rest absent
                ∙ lookup-insert j k q before
                ∙ ap (λ (b : Bool). if b then some q else lookup k before) same,
          )
      | inr differs ↦ convert_items-lookup u items (insert j q before) after k r distinct.1 rest (
          ap (λ (b : Bool). if b then some s else lookup k items) (sym differs)
          ∙ sym (lookup-head j k s items)
          ∙ found)
    ]

-- q has 8 decimal places, the sign of x / y, and is within one unit of the last place of it. The two roundings
-- of at most half a unit each add up to that.
abbrev pub IsQuotient : Decimal → Decimal → Decimal → Type 0
IsQuotient x y q =
    (q.places ≡ 8)
    × (q.negative ≡ xor x.negative y.negative)
    × (zero < dividend y x)
    × IsWithin q.coefficient (dividend x y) (dividend y x)

pow-pos : (p : ℕ) → zero < 10 ^ p
pow-pos p = one-le-pow p 10 (omega arith)

guarded :
    (y_is_zero x_is_zero : Bool) (m : Try Decimal) (q : Decimal)
    → (if y_is_zero
        then (if x_is_zero then raise invalid_operation else raise zero_division_error)
        else m)
      ≡ ok q
    → (y_is_zero ≡ false) × (m ≡ ok q)
guarded true true m q returned = cc
guarded true false m q returned = cc
guarded false x_is_zero m q returned = (refl, returned)

checked-small :
    (negative : Bool) (coefficient places : ℕ) (q : Decimal)
    → checked negative coefficient places ≡ ok q
    → coefficient < 10 ^ precision
unfolding checked
checked-small negative coefficient places q returned = ground arith

quotient-ok :
    (x y q : Decimal)
    → quotient x y ≡ ok q
    → (zero < y.coefficient)
      × (checked (xor x.negative y.negative) (rounded (dividend x y) (dividend y x)) 8 ≡ ok q)
unfolding quotient is_zero
quotient-ok x y q returned =
    let (nonzero, value) =
      guarded (is_zero y) (is_zero x)
        (checked (xor x.negative y.negative) (rounded (dividend x y) (dividend y x)) 8) q
        returned in
    (ground (arith, nonzero), value)

quotient-IsQuotient : (x y q : Decimal) → quotient x y ≡ ok q → IsQuotient x y q
quotient-IsQuotient x y q returned =
    let n = dividend x y in
    let d = dividend y x in
    let (nonzero, value) = quotient-ok x y q returned in
    let e = checked-eq (xor x.negative y.negative) (rounded n d) 8 q value in
    let positive : zero < d = mul-pos nonzero (pow-pos x.places) in
    let small = checked-small (xor x.negative y.negative) (rounded n d) 8 q value in
    (
      ap (λ (z : Decimal). z.places) (sym e),
      ap (λ (z : Decimal). z.negative) (sym e),
      positive,
      subst (λ (z : Decimal). IsWithin z.coefficient n d) e (rounded-IsWithin n d positive small),
    )

pub of_dollar :
    (rates_vs_eur usd_rates : Dict Decimal) (usd_per_eur : Decimal)
    → lookup "USD" rates_vs_eur ≡ some usd_per_eur
    → convert_to_usd_rates rates_vs_eur ≡ ok usd_rates
    → convert_items usd_per_eur rates_vs_eur (insert "EUR" usd_per_eur []) ≡ ok usd_rates
unfolding convert_to_usd_rates
of_dollar rates out u dollar returned =
    ap
      (λ (o : Option Decimal). elim o [
        | none ↦ raise value_error
        | some v ↦ convert_items v rates (insert "EUR" v [])
      ])
      (sym dollar)
    ∙ returned

-- The rate of a currency of the feed, other than the dollar, is that of the dollar to the euro over its own,
-- within one unit of its 8th decimal place.
pub convert_to_usd_rates-IsQuotient :
    (rates_vs_eur usd_rates : Dict Decimal) (currency : String) (usd_per_eur eur_rate : Decimal)
    → HasDistinctKeys rates_vs_eur
    → convert_to_usd_rates rates_vs_eur ≡ ok usd_rates
    → lookup "USD" rates_vs_eur ≡ some usd_per_eur
    → lookup currency rates_vs_eur ≡ some eur_rate
    → (currency == "USD") ≡ false
    → (rate : Decimal) × (lookup currency usd_rates ≡ some rate)
      × IsQuotient usd_per_eur eur_rate rate
unfolding convert_to_usd_rates
convert_to_usd_rates-IsQuotient rates out k u r distinct returned dollar found other =
    let (q, e, stored) =
      convert_items-lookup u rates (insert "EUR" u []) out k r distinct
        (of_dollar rates out u dollar returned) found in
    (
      q,
      stored,
      quotient-IsQuotient u r q
          (ap (λ (b : Bool). if b then ok (of_nat 1) else quotient u r) (sym other) ∙ e),
    )
