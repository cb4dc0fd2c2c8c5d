-- ===== src/Costs/Record.antt =====
-- models/__init__.py: the record that every extractor makes, and the table `cost_records` with the
-- INSERT … ON CONFLICT (record_id) DO NOTHING that the extractors run on it.
pub mod Laws
use finna_app.Prelude.{ℕ, String, Bool, Option, List, [], ◌∷◌, ◌++◌, ◌==◌, if◌then◌else◌, exists}
use finna_app.Prelude.Dict.{Dict}
use finna_app.Python.Decimal.{Decimal}

pub data Provider : Type 0 where
  aws gcp azure llm : Provider

pub data ServiceCategory : Type 0 where
  compute storage network database ml llm_service other : ServiceCategory

-- `NormalizedCostRecord`. Times are in microseconds at UTC; `ingestion_ts`, `account_name`,
-- `project_name`, `environment`, `resource_type` and `latency_ms` keep their defaults.
pub record CostRecord : Type 0 where
  pub record_id : String
  pub provider : Provider
  pub usage_start : ℕ
  pub usage_end : ℕ
  pub account_id : String
  pub project_id : String
  pub team : Option String
  pub service_category : ServiceCategory
  pub service_name : String
  pub resource_id : Option String
  pub region : Option String
  pub charge_type : Option String
  pub cost_usd : Decimal
  pub currency_original : String
  pub cost_original : Decimal
  pub discount_usd : Decimal
  pub net_cost_usd : Decimal
  pub usage_quantity : Option Decimal
  pub usage_unit : Option String
  pub model_name : Option String
  pub input_tokens : Option ℕ
  pub output_tokens : Option ℕ
  pub total_tokens : Option ℕ
  pub trace_id : Option String
  pub tags : Dict String

abbrev pub CostTable : Type 0
CostTable = List CostRecord

unfoldable pub holds : String → CostTable → Bool
holds id table = exists (λ q. q.record_id == id) table

-- INSERT … ON CONFLICT (record_id) DO NOTHING
unfoldable pub insert_record : CostRecord → CostTable → CostTable
unfolding holds
insert_record r table = if holds r.record_id table then table else table ++ (r ∷ [])

-- `cur.executemany`
unfoldable pub insert_many : List CostRecord → CostTable → CostTable
unfolding insert_record
insert_many [] table = table
insert_many (r ∷ records) table = insert_many records (insert_record r table)
