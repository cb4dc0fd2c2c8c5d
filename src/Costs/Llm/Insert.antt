-- ===== src/Costs/Llm/Insert.antt =====
-- extractors/litellm_cost.py: the insertion of the records in batches, each with a commit of its own, and
-- `extract_costs` from the rows on. A batch that the database refuses raises.
pub mod Laws
pub mod Run
use finna_app.Prelude.{
  ◌&&◌, ℕ, zero, suc, ◌+◌, String, Bool, true, false, Option, none, some, List, [], ◌∷◌,
  if◌then◌else◌, length, take, drop, eqb,
}
use finna_app.Python.Value.{Items, Builtins}
use finna_app.Python.Try.{Try, ok, raise, Exc, db_error, value_error, ◌>>=◌}
use finna_app.Costs.Record.{CostRecord, CostTable, insert_many}
use finna_app.Costs.Llm.{Texts, normalize_litellm_records}

-- Whether the database takes the statement of a batch, by the number of the batch.
abbrev pub Accepts : Type 0
Accepts = ℕ → Bool

-- `_insert_batch`: it returns the number of records that it sent.
unfoldable pub insert_batch : Bool → List CostRecord → CostTable → Try ℕ × CostTable
unfolding insert_many
insert_batch accepted [] table = (ok 0, table)
insert_batch accepted (r ∷ records) table =
    if accepted
    then (ok (length (r ∷ records)), insert_many (r ∷ records) table)
    else (raise db_error, table)

-- What follows a batch, where it raised nothing.
abbrev pub then_next : Try ℕ × CostTable → (ℕ → CostTable → Try ℕ × CostTable) → Try ℕ × CostTable
then_next (raise e, table) next = (raise e, table)
then_next (ok inserted, table) next = next inserted table

module _ (accepts : Accepts) where
  -- The batches from the `i`-th on; there are no more of them than records.
  unfoldable pub insert_batches : ℕ → ℕ → ℕ → List CostRecord → ℕ → CostTable → Try ℕ × CostTable
  unfolding insert_batch
  insert_batches fuel batch_size i [] total table = (ok total, table)
  insert_batches zero batch_size i (r ∷ records) total table = (ok total, table)
  insert_batches (suc fuel) batch_size i (r ∷ records) total table =
      then_next (insert_batch (accepts i) (take batch_size (r ∷ records)) table) (λ inserted after.
        insert_batches fuel batch_size (suc i) (drop batch_size (r ∷ records)) (total + inserted)
          after)

  -- `insert_records`: `range` refuses a step of zero.
  unfoldable pub insert_records : List CostRecord → ℕ → CostTable → Try ℕ × CostTable
  unfolding insert_batches
  insert_records records batch_size table =
      if eqb batch_size 0
      then (raise value_error, table)
      else insert_batches (length records) batch_size 0 records 0 table

-- The row of `extractor_health` that the run writes. `has_columns` and the faults are the database's: a
-- statement on the table that fails is logged and skipped.
pub data HealthStatus : Type 0 where
  running success failed : HealthStatus

pub record Health : Type 0 where
  pub status : HealthStatus
  pub records_extracted : ℕ
  pub error_message : Option Exc

pub record HealthTable : Type 0 where
  pub has_columns : Bool
  pub writable : Bool
  pub row : Option Health

abbrev pub write_health : (Option Health → Option Health) → HealthTable → HealthTable
write_health change h =
    if h.has_columns then (if h.writable then (record h { row = change h.row }) else h) else h

abbrev pub succeeded : ℕ → Option Health → Option Health
succeeded n none = none
succeeded n (some h) = some (record h { status = success; records_extracted = n })

abbrev pub broken : Exc → Option Health → Option Health
broken e none = none
broken e (some h) = some (record h { status = failed; error_message = some e })

-- `_mark_health_start`, `_mark_health_success`, `_mark_health_failure`
unfoldable pub mark_health_start : HealthTable → HealthTable
mark_health_start h =
    write_health
      (λ old. some (record { status = running; records_extracted = 0; error_message = none })) h

unfoldable pub mark_health_success : ℕ → HealthTable → HealthTable
mark_health_success n h = write_health (succeeded n) h

unfoldable pub mark_health_failure : Exc → HealthTable → HealthTable
mark_health_failure e h = write_health (broken e) h

-- `LITELLM_BASE_URL`, `LITELLM_MASTER_KEY`, `PG_DSN`: whether each is set; and the prefix of task tags.
pub record Settings : Type 0 where
  pub base_url : Bool
  pub master_key : Bool
  pub pg_dsn : Bool
  pub task_tag_prefix : Option String

pub record Store : Type 0 where
  pub records : CostTable
  pub health : HealthTable

module _ (py : Builtins) (tx : Texts) (accepts : Accepts) where
  abbrev pub finished : HealthTable → Try ℕ × CostTable → Try ℕ × Store
  finished h (ok total, table) =
      (ok total, record { records = table; health = mark_health_success total h })
  finished h (raise e, table) =
      (raise e, record { records = table; health = mark_health_failure e h })

  abbrev pub with_records : ℕ → Try (List CostRecord) → Store → Try ℕ × Store
  with_records batch_size (raise e) s = (raise e, s)
  with_records batch_size (ok []) s = (ok 0, s)
  with_records batch_size (ok (r ∷ records)) s =
      finished (mark_health_start s.health)
        (insert_records accepts (r ∷ records) batch_size s.records)

  abbrev pub with_rows : Option String → ℕ → Try Items → Store → Try ℕ × Store
  with_rows task_tag_prefix batch_size (raise e) s = (raise e, s)
  with_rows task_tag_prefix batch_size (ok rows) s =
      with_records batch_size (normalize_litellm_records py tx task_tag_prefix rows) s

  -- `extract_costs` on what `fetch_spend_logs` gives. The fetch and the normalization come before the
  -- row of the run is marked, so that their failure is not recorded.
  unfoldable pub extract_costs : Settings → ℕ → Try Items → Store → Try ℕ × Store
  unfolding insert_records normalize_litellm_records mark_health_start mark_health_success
      mark_health_failure
  extract_costs env batch_size fetched s =
      if env.base_url && env.master_key
      then (if env.pg_dsn
          then with_rows env.task_tag_prefix batch_size fetched s
          else (raise value_error, s))
      else (ok 0, s)
