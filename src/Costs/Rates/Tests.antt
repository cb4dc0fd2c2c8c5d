-- ===== src/Costs/Rates/Tests.antt =====
-- A run of the extractor of rates on a small feed.
use mathlib.Core.Bool.{xor}
use finna_app.Prelude.{◌+◌, ◌*◌, ◌^◌, ℕ, ◌≡◌, refl, false, true, none, some, [], ◌∷◌, length}
use finna_app.Prelude.Dict.{Dict, HasDistinctKeys, contains, lookup}
use finna_app.Prelude.Sorted.{sorted_items}
use finna_app.Python.Decimal.{Decimal, of_nat}
use finna_app.Python.Try.{ok}
use finna_app.Costs.Llm.Insert.{success}
use finna_app.Costs.Rates.{
  product, RateRow, RateStore, extract, convert_to_usd, convert_to_usd_rates, load_exchange_rates,
}
use finna_app.Costs.Rates.Laws.{IsQuotient}
use finna_app.Costs.Rates.Stored.{stored_rate, extract-stored}

abbrev dec : ℕ → ℕ → Decimal
dec coefficient places = record { negative = false; coefficient = coefficient; places = places }

abbrev feed : Dict Decimal
feed = ("USD", dec 10850 4) ∷ ("JPY", dec 16432 2) ∷ ("GBP", dec 8577 4) ∷ []

abbrev converted : Dict Decimal
converted =
    ("EUR", dec 10850 4) ∷ ("USD", of_nat 1) ∷ ("JPY", dec 660297 8) ∷ ("GBP", dec 126501108 8) ∷ []

abbrev old_row : RateRow
old_row = record {
  currency = "GBP";
  rate_to_usd = dec 12650 4;
  rate_date = 19;
  source = "ecb";
  fetched_at = 1;
}

abbrev store : RateStore
store = record { rates = old_row ∷ []; health = none }

convert_to_usd_rates-feed : convert_to_usd_rates feed ≡ ok converted
unfolding convert_to_usd_rates xor
convert_to_usd_rates-feed = refl

convert_to_usd-price : convert_to_usd (dec 250 2) "GBP" converted ≡ ok (dec 3162528 6)
unfolding convert_to_usd xor
convert_to_usd-price = refl

-- A product of 30 digits loses the last two.
product-long :
    product (dec (10 ^ 15 + 1) 0) (dec (10 ^ 14 + 57) 0)
    ≡ dec (10 ^ 29 + 57 * 10 ^ 15 + 10 ^ 14 + 100) 0
unfolding product xor
product-long = refl

load_exchange_rates-old_row :
    load_exchange_rates "exchange_rates" (some (old_row ∷ []))
    ≡ ok (("USD", of_nat 1) ∷ ("GBP", dec 12650 4) ∷ [])
unfolding load_exchange_rates
load_exchange_rates-old_row = refl

feed-HasDistinctKeys : HasDistinctKeys feed
unfolding contains
feed-HasDistinctKeys = (refl, (refl, (refl, tt)))

extract-stored_example :
    let (reply, after) = extract 9 true true (ok (20, feed)) store in
    let count = length (sorted_items converted) in
    (reply ≡ ok count)
    × (after.health
        ≡ some (record { status = success; records_extracted = count; error_message = none }))
    × ((rate : Decimal) × (stored_rate "GBP" 20 after.rates ≡ some rate)
        × IsQuotient (dec 10850 4) (dec 8577 4) rate)
    × (stored_rate "GBP" 19 after.rates ≡ stored_rate "GBP" 19 store.rates)
unfolding lookup
extract-stored_example =
    extract-stored 9 20 19 feed converted "GBP" "GBP" (dec 10850 4) (dec 8577 4) store
      feed-HasDistinctKeys convert_to_usd_rates-feed refl refl refl refl
