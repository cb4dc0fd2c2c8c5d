-- ===== src/Costs/Llm/Laws.antt =====
-- What the records of the extractor have in common.
use finna_app.Prelude.{◌⊎◌, ◌+◌, ℕ, ◌≡◌, String, true, false, Option, none, some, List, [], ◌∷◌}
use finna_app.Python.Decimal.{Decimal, zero_decimal, of_nat, less}
use finna_app.Python.Value.{
  Value, obj, num, Items, nil, cons, Fields, get, truthy, or_else, Builtins, to_str, to_int,
}
use finna_app.Python.Try.{Try, ok, raise, ◌>>=◌}
use finna_app.Costs.Record.{CostRecord}
use finna_app.Costs.Llm.{Texts, generate_record_id, llm_record, to_decimal, parse_dt}

module _ (py : Builtins) (tx : Texts) (prefix : Option String) where
  -- The record of a row: it charges what the row tells, once and in full, under the id of the request.
  pub record Charges (row : Fields) (r : CostRecord) : Type 0 where
    pub positive : less zero_decimal r.cost_usd ≡ true
    pub spent : r.cost_usd ≡ to_decimal py tx (get row "spend")
    pub original : r.cost_original ≡ r.cost_usd
    pub net : r.net_cost_usd ≡ r.cost_usd
    pub identified :
        r.record_id
        ≡ generate_record_id py tx (to_str py (or_else (get row "request_id") (get row "id")))
    pub started :
        parse_dt py tx (or_else (get row "startTime") (get row "start_time")) ≡ some r.usage_start

  -- A row that is not charged has no id, no positive spend, or no time that can be read.
  abbrev pub Skips : Fields → Type 0
  Skips row =
      (truthy (or_else (get row "request_id") (get row "id")) ≡ false)
      ⊎ ((less zero_decimal (to_decimal py tx (get row "spend")) ≡ false)
          ⊎ (parse_dt py tx (or_else (get row "startTime") (get row "start_time")) ≡ none))

  abbrev Made : Value → Decimal → ℕ → Try CostRecord → Type 0
  Made request_id spend usage_start (raise e) = Unit
  Made request_id spend usage_start (ok r) =
      (r.cost_usd ≡ spend)
      × (r.cost_original ≡ spend)
      × (r.net_cost_usd ≡ spend)
      × (r.record_id ≡ generate_record_id py tx (to_str py request_id))
      × (r.usage_start ≡ usage_start)

  abbrev totals : Fields → Value → Decimal → ℕ → ℕ → ℕ → Try CostRecord
  totals row request_id spend usage_start p c =
      to_int py (or_else (get row "total_tokens") (num (of_nat (p + c))))
      >>= (λ (t : ℕ). ok (llm_record py tx prefix row request_id spend usage_start p c t))

  abbrev OnlyCharges : Fields → Try (Option CostRecord) → Type 0
  OnlyCharges row (ok (some r)) = Charges row r
  OnlyCharges row (ok none) = Skips row
  OnlyCharges row (raise e) = Unit

  -- The records are those of the rows, in order: one for each row that is charged, none for one that is not.
  pub data Matches : Items → List CostRecord → Type 0 where
    finished : Matches nil []
    charged :
        {row : Fields} {rows : Items} {r : CostRecord} {records : List CostRecord}
        → Charges row r
        → Matches rows records
        → Matches (cons (obj row) rows) (r ∷ records)
    skipped :
        {row : Fields} {rows : Items} {records : List CostRecord}
        → Skips row
        → Matches rows records
        → Matches (cons (obj row) rows) records
