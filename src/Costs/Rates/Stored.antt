-- ===== src/Costs/Rates/Stored.antt =====
-- What the table of rates holds after the rates of a day are stored.
use finna_app.Prelude.{
  ℕ, ◌≡◌, refl, ap, ◌∙◌, String, Bool, true, false, Option, none, some, List, [], ◌∷◌, arith, ◌==◌,
  eq_iff, eqb, eqb_iff, subst, length, ◌&&◌, if◌then◌else◌,
}
use finna_app.Prelude.Dict.{
  Dict, lookup, insert, HasDistinctKeys, insert-HasDistinctKeys, lookup-contains,
}
use finna_app.Python.Decimal.{Decimal}
use finna_app.Python.Try.{Try, ok, >>=-eq-ok}
use finna_app.Costs.Llm.Insert.{success}
use finna_app.Prelude.Sorted.{sorted_items, sorted_items-HasDistinctKeys, lookup-sorted_items}
use finna_app.Costs.Rates.{
  RateRow, RateStore, upsert_rate, upsert_all, rate_to_usd, convert_items, convert_to_usd_rates,
  store_converted, extract,
}
use finna_app.Costs.Rates.Laws.{IsQuotient, convert_to_usd_rates-IsQuotient, of_dollar}

-- The rate that the table has for a currency on a day.
unfoldable pub stored_rate : String → ℕ → List RateRow → Option Decimal
stored_rate currency day [] = none
stored_rate currency day (row ∷ rows) =
    if (row.currency == currency) && eqb row.rate_date day
    then some row.rate_to_usd
    else stored_rate currency day rows

stored_rate-upsert_rate :
    (currency : String) (day : ℕ) (new : RateRow) (table : List RateRow)
    → stored_rate currency day (upsert_rate new table) ≡ (
        if (new.currency == currency) && eqb new.rate_date day
        then some new.rate_to_usd
        else stored_rate currency day table)
unfolding stored_rate upsert_rate
stored_rate-upsert_rate currency day new [] = refl
stored_rate-upsert_rate currency day new (row ∷ rows) = ground (
  arith,
  eq_iff row.currency new.currency,
  eq_iff row.currency currency,
  eq_iff new.currency currency,
  eqb_iff row.rate_date new.rate_date,
  eqb_iff row.rate_date day,
  eqb_iff new.rate_date day,
  stored_rate-upsert_rate currency day new rows,
)

abbrev pub or_kept : Option Decimal → Option Decimal → Option Decimal
or_kept (some rate) old = some rate
or_kept none old = old

module _ (now rate_date : ℕ) (source : String) where
  stored_rate-upsert_all :
      (currency : String) (day : ℕ) (rates : Dict Decimal) (table : List RateRow)
      → HasDistinctKeys rates
      → stored_rate currency day (upsert_all now rate_date source rates table) ≡ (
          if eqb rate_date day
          then or_kept (lookup currency rates) (stored_rate currency day table)
          else stored_rate currency day table)
  unfolding upsert_all lookup
  stored_rate-upsert_all currency day [] table distinct = ground arith
  stored_rate-upsert_all currency day ((k, rate) ∷ rates) table distinct =
      let new : RateRow = record {
        currency = k;
        rate_to_usd = rate;
        rate_date = rate_date;
        source = source;
        fetched_at = now;
      } in
      stored_rate-upsert_all currency day rates (upsert_rate new table) distinct.1
      ∙ ground (
        arith,
        eq_iff k currency,
        lookup-contains k rates distinct.0,
        stored_rate-upsert_rate currency day new table,
      )

same_ok : (before after : Dict Decimal) → ok before ≡ ok after → before ≡ after
same_ok before after returned = cc

convert_items-HasDistinctKeys :
    (usd_per_eur : Decimal) (items before after : Dict Decimal)
    → HasDistinctKeys before
    → convert_items usd_per_eur items before ≡ ok after
    → HasDistinctKeys after
unfolding convert_items
convert_items-HasDistinctKeys u [] before after distinct returned =
    subst HasDistinctKeys (same_ok before after returned) distinct
convert_items-HasDistinctKeys u ((j, s) ∷ items) before after distinct returned =
    let (q, e, rest) = >>=-eq-ok (rate_to_usd u j s) _ returned in
    convert_items-HasDistinctKeys u items (insert j q before) after
      (insert-HasDistinctKeys j q before distinct) rest

converted-HasDistinctKeys :
    (rates_vs_eur usd_rates : Dict Decimal) (usd_per_eur : Decimal)
    → lookup "USD" rates_vs_eur ≡ some usd_per_eur
    → convert_to_usd_rates rates_vs_eur ≡ ok usd_rates
    → HasDistinctKeys usd_rates
converted-HasDistinctKeys rates out u dollar returned =
    convert_items-HasDistinctKeys u rates (insert "EUR" u []) out
      (insert-HasDistinctKeys "EUR" u [] tt) (of_dollar rates out u dollar returned)

extract-eq :
    (now rate_date : ℕ) (rates_vs_eur usd_rates : Dict Decimal) (usd_per_eur : Decimal)
    (s : RateStore)
    → convert_to_usd_rates rates_vs_eur ≡ ok usd_rates
    → lookup "USD" rates_vs_eur ≡ some usd_per_eur
    → extract now true true (ok (rate_date, rates_vs_eur)) s ≡ (
      ok (length (sorted_items usd_rates)),
      record {
        rates = upsert_all now rate_date "ecb" (sorted_items usd_rates) s.rates;
        health = some (record {
          status = success;
          records_extracted = length (sorted_items usd_rates);
          error_message = none;
        });
      },
    )
unfolding extract lookup
extract-eq now rate_date [] out u s returned dollar = cc (dollar)
extract-eq now rate_date (item ∷ items) out u s returned dollar =
    ap (λ (m : Try (Dict Decimal)). store_converted now true rate_date m s) returned

-- A run with a feed that is converted, on a database that takes the rates: it returns their number, the row of
-- the extractor tells of success with that number, the table has for every currency of the feed other than
-- the dollar, on the day of the feed, the rate of the dollar to the euro over its own within one unit of the
-- 8th decimal place, and the rates that any currency has on other days stay as they were.
pub extract-stored :
    (now rate_date day : ℕ) (rates_vs_eur usd_rates : Dict Decimal) (currency any_currency : String)
    (usd_per_eur eur_rate : Decimal) (s : RateStore)
    → HasDistinctKeys rates_vs_eur
    → convert_to_usd_rates rates_vs_eur ≡ ok usd_rates
    → lookup "USD" rates_vs_eur ≡ some usd_per_eur
    → lookup currency rates_vs_eur ≡ some eur_rate
    → (currency == "USD") ≡ false
    → eqb rate_date day ≡ false
    → (let (reply, after) = extract now true true (ok (rate_date, rates_vs_eur)) s in
        let count = length (sorted_items usd_rates) in
        (reply ≡ ok count)
        × (after.health
            ≡ some (record { status = success; records_extracted = count; error_message = none }))
        × ((rate : Decimal) × (stored_rate currency rate_date after.rates ≡ some rate)
            × IsQuotient usd_per_eur eur_rate rate)
        × (stored_rate any_currency day after.rates ≡ stored_rate any_currency day s.rates))
extract-stored now rate_date day rates out k any u r s distinct returned dollar found other
      earlier =
    let run = extract-eq now rate_date rates out u s returned dollar in
    let sorted_distinct =
      sorted_items-HasDistinctKeys out (converted-HasDistinctKeys rates out u dollar returned) in
    let table = stored_rate-upsert_all now rate_date "ecb" in
    let (rate, stored, near) =
      convert_to_usd_rates-IsQuotient rates out k u r distinct returned dollar found other in
    (
      ap (λ (o : Try ℕ × RateStore). o.0) run,
      ap (λ (o : Try ℕ × RateStore). o.1.health) run,
      (
        rate,
        ap (λ (o : Try ℕ × RateStore). stored_rate k rate_date o.1.rates) run
            ∙ table k rate_date (sorted_items out) s.rates sorted_distinct
            ∙ ap
                (λ (b : Bool).
                  if b
                  then or_kept (lookup k (sorted_items out)) (stored_rate k rate_date s.rates)
                  else stored_rate k rate_date s.rates)
                ((eqb_iff rate_date rate_date).1 refl)
            ∙ ap (λ (o : Option Decimal). or_kept o (stored_rate k rate_date s.rates))
                (lookup-sorted_items k out (converted-HasDistinctKeys rates out u dollar returned)
                  ∙ stored),
        near,
      ),
      ap (λ (o : Try ℕ × RateStore). stored_rate any day o.1.rates) run
          ∙ table any day (sorted_items out) s.rates sorted_distinct
          ∙ ap
              (λ (b : Bool).
                if b
                then or_kept (lookup any (sorted_items out)) (stored_rate any day s.rates)
                else stored_rate any day s.rates)
              earlier,
    )
