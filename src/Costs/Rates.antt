-- ===== src/Costs/Rates.antt =====
-- extractors/common.py and extractors/exchange_rates.py: the rates of exchange to the dollar, from the
-- parsed feed of the European Central Bank to the table `exchange_rates`, and their use. A division
-- and a product round to 28 digits, `quantize` to the places that it is given, and refuses more than 28 digits.
pub mod Rounding
pub mod Laws
pub mod Stored
mod Tests
use finna_app.Prelude.{
  ℕ, zero, suc, ◌+◌, ◌-◌, ◌*◌, ◌^◌, String, Bool, true, false, Option, none, some, List, [], ◌∷◌,
  if◌then◌else◌, ltb, leb, eqb, xor, ◌==◌, ◌&&◌, ◌||◌, length,
}
use finna_app.Prelude.Dict.{Dict, lookup, insert}
use finna_app.Prelude.Sorted.{sorted_items}
use finna_app.Costs.Llm.Insert.{Health, running, succeeded, broken}
use finna_app.Python.Decimal.{Decimal, mul, of_nat, is_zero, round_half_up, round_half_even}
use finna_app.Python.Try.{
  Try, ok, raise, Exc, invalid_operation, zero_division_error, value_error, db_error, ◌>>=◌,
}

-- The digits that a result of `quantize` may have.
abbrev pub precision : ℕ
precision = 28

-- A result of `quantize` with so many decimal places.
unfoldable pub checked : Bool → ℕ → ℕ → Try Decimal
checked negative coefficient places =
    if leb (10 ^ precision) coefficient
    then raise invalid_operation
    else ok (record { negative = negative; coefficient = coefficient; places = places })

-- The decimal places at which n / d, not zero, has the digits of the precision, at least; from `places` on.
unfoldable pub digits_from : ℕ → ℕ → ℕ → ℕ → ℕ
digits_from zero places n d = places
digits_from (suc fuel) places n d = elim (leb (10 ^ (precision - 1) * d) (n * 10 ^ places)) [
  | true ↦ places
  | false ↦ digits_from fuel (suc places) n d
]

-- `n / d` rounded to the precision, a half to even: the coefficient at these places. A quotient with more digits
-- than that before the point is left whole; `quantize` refuses it.
unfoldable pub divide : ℕ → ℕ → ℕ → ℕ
unfolding round_half_even
divide places n d = round_half_even (n * 10 ^ places) d

abbrev pub dividend : Decimal → Decimal → ℕ
dividend x y = x.coefficient * 10 ^ y.places

-- `(x / y).quantize(Decimal("0.00000001"), rounding=ROUND_HALF_UP)`: both operations round.
unfoldable pub rounded_twice : ℕ → ℕ → ℕ → ℕ
unfolding divide round_half_up
rounded_twice places n d = round_half_up (divide places n d * 10 ^ 8) (10 ^ places)

-- The coefficient at 8 places of n / d. The fuel is enough, as d is less than 10 ^ d.
unfoldable pub rounded : ℕ → ℕ → ℕ
unfolding digits_from rounded_twice
rounded n d = if eqb n 0 then 0 else rounded_twice (digits_from (precision + d) 0 n d) n d

unfoldable pub quotient : Decimal → Decimal → Try Decimal
unfolding is_zero checked rounded
quotient x y =
    if is_zero y
    then (if is_zero x then raise invalid_operation else raise zero_division_error)
    else checked (xor x.negative y.negative) (rounded (dividend x y) (dividend y x)) 8

-- `x.quantize(Decimal("0.000001"))`
unfoldable pub to_micro : Decimal → Try Decimal
unfolding checked round_half_even
to_micro x = checked x.negative (round_half_even (x.coefficient * 10 ^ 6) (10 ^ x.places)) 6

-- How many of the last digits of a coefficient are beyond the precision; from `dropped` on.
unfoldable pub excess_from : ℕ → ℕ → ℕ → ℕ
excess_from zero dropped coefficient = dropped
excess_from (suc fuel) dropped coefficient = elim (ltb coefficient (10 ^ (precision + dropped))) [
  | true ↦ dropped
  | false ↦ excess_from fuel (suc dropped) coefficient
]

-- `x * y`, rounded to the precision, a half to even. A coefficient has fewer digits than itself.
unfoldable pub product : Decimal → Decimal → Decimal
unfolding mul excess_from round_half_even
product x y =
    let exact = mul x y in
    let unit = 10 ^ excess_from exact.coefficient 0 exact.coefficient in
    record exact { coefficient = round_half_even exact.coefficient unit * unit }

-- `convert_to_usd`
unfoldable pub convert_to_usd : Decimal → String → Dict Decimal → Try Decimal
unfolding to_micro lookup product
convert_to_usd cost currency rates =
    if currency == "USD"
    then ok cost
    else elim (lookup currency rates) [ none ↦ ok cost | some rate ↦ to_micro (product cost rate) ]

-- One turn of the loop of `_convert_to_usd_rates`: what it stores for the currency.
unfoldable pub rate_to_usd : Decimal → String → Decimal → Try Decimal
unfolding quotient
rate_to_usd usd_per_eur currency eur_rate =
    if currency == "USD" then ok (of_nat 1) else quotient usd_per_eur eur_rate

unfoldable pub convert_items : Decimal → Dict Decimal → Dict Decimal → Try (Dict Decimal)
unfolding rate_to_usd insert
convert_items usd_per_eur [] usd_rates = ok usd_rates
convert_items usd_per_eur ((currency, eur_rate) ∷ items) usd_rates =
    rate_to_usd usd_per_eur currency eur_rate >>= λ rate.
    convert_items usd_per_eur items (insert currency rate usd_rates)

-- `_convert_to_usd_rates`
unfoldable pub convert_to_usd_rates : Dict Decimal → Try (Dict Decimal)
unfolding convert_items lookup insert
convert_to_usd_rates rates_vs_eur = elim (lookup "USD" rates_vs_eur) [
  | none ↦ raise value_error
  | some usd_per_eur ↦ convert_items usd_per_eur rates_vs_eur (insert "EUR" usd_per_eur [])
]

-- A row of `exchange_rates`, whose key is the currency with the date. A date counts days, `fetched_at` is the
-- clock of the database.
pub record RateRow : Type 0 where
  pub currency : String
  pub rate_to_usd : Decimal
  pub rate_date : ℕ
  pub source : String
  pub fetched_at : ℕ

-- `_UPSERT_SQL`
unfoldable pub upsert_rate : RateRow → List RateRow → List RateRow
upsert_rate new [] = new ∷ []
upsert_rate new (row ∷ rows) =
    if (row.currency == new.currency) && eqb row.rate_date new.rate_date
    then record row {
      rate_to_usd = new.rate_to_usd;
      source = new.source;
      fetched_at = new.fetched_at;
    }
      ∷ rows
    else row ∷ upsert_rate new rows

module _ (now : ℕ) (rate_date : ℕ) (source : String) where
  -- The statement of `_upsert_rates` for each item.
  unfoldable pub upsert_all : Dict Decimal → List RateRow → List RateRow
  unfolding upsert_rate
  upsert_all [] table = table
  upsert_all ((currency, rate) ∷ rates) table = upsert_all rates (
      upsert_rate
        (record {
          currency = currency;
          rate_to_usd = rate;
          rate_date = rate_date;
          source = source;
          fetched_at = now;
        })
        table)

  -- `_upsert_rates`: all statements in one transaction, which the database takes or refuses. `NUMERIC(18,8)`
  -- holds a rate with 8 decimal places and 10 digits before them as it is.
  unfoldable pub upsert_rates : Bool → Dict Decimal → List RateRow → Try ℕ × List RateRow
  unfolding upsert_all sorted_items
  upsert_rates accepted rates table =
      let rows = sorted_items rates in
      if accepted then (ok (length rows), upsert_all rows table) else (raise db_error, table)

-- The loop of `load_exchange_rates` over the rows, in the order in which the database gives them.
unfoldable pub load_rows : List RateRow → Dict Decimal → Dict Decimal
unfolding insert
load_rows [] rates = rates
load_rows (row ∷ rows) rates = load_rows rows (insert row.currency row.rate_to_usd rates)

-- `load_exchange_rates`: no rows stand for a statement that fails.
unfoldable pub load_exchange_rates : String → Option (List RateRow) → Try (Dict Decimal)
unfolding load_rows insert
load_exchange_rates table selected =
    let rates = insert "USD" (of_nat 1) [] in
    if table == "exchange_rates"
    then elim selected [ none ↦ ok rates | some rows ↦ ok (load_rows rows rates) ]
    else raise value_error

-- The table, and the row of the extractor in `extractor_health`.
pub record RateStore : Type 0 where
  pub rates : List RateRow
  pub health : Option Health

-- `_mark_health_start`
unfoldable pub mark_start : RateStore → RateStore
mark_start s = record s {
  health = some (record { status = running; records_extracted = 0; error_message = none });
}

-- `_mark_health_success`
unfoldable pub mark_success : ℕ → RateStore → RateStore
mark_success n s = record s { health = succeeded n s.health }

-- `_mark_health_failure`
unfoldable pub mark_failure : Exc → RateStore → RateStore
mark_failure e s = record s { health = broken e s.health }

unfoldable pub closed : RateStore → Try ℕ × List RateRow → Try ℕ × RateStore
unfolding mark_success mark_failure
closed s (ok count, table) = (ok count, mark_success count (record s { rates = table }))
closed s (raise e, table) = (raise e, mark_failure e (record s { rates = table }))

module _ (now : ℕ) (accepted : Bool) where
  unfoldable pub store_converted : ℕ → Try (Dict Decimal) → RateStore → Try ℕ × RateStore
  unfolding closed upsert_rates mark_start
  store_converted rate_date (raise e) s = (raise e, s)
  store_converted rate_date (ok usd_rates) s =
      closed (mark_start s) (upsert_rates now rate_date "ecb" accepted usd_rates s.rates)

  unfoldable pub store_parsed : Try (ℕ × Dict Decimal) → RateStore → Try ℕ × RateStore
  unfolding store_converted convert_to_usd_rates
  store_parsed (raise e) s = (raise e, s)
  store_parsed (ok (rate_date, [])) s = (ok 0, s)
  store_parsed (ok (rate_date, item ∷ items)) s =
      store_converted rate_date (convert_to_usd_rates (item ∷ items)) s

  -- `extract`, on what the fetch and the parser make of the feed. The database answers, and takes the
  -- statements on the row of the extractor.
  unfoldable pub extract : Bool → Try (ℕ × Dict Decimal) → RateStore → Try ℕ × RateStore
  unfolding store_parsed
  extract pg_dsn parsed s = if pg_dsn then store_parsed parsed s else (raise value_error, s)
