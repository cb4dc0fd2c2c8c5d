-- ===== src/Costs/Llm/Insert/Run.antt =====
-- A run of the extractor, from the rows of the log to the row of its health.
use finna_app.Prelude.{
  ◌&&◌, ℕ, suc, ◌≡◌, ap, ◌∙◌, Bool, true, none, some, List, ◌∷◌, arith, length, if◌then◌else◌,
}
use finna_app.Python.Value.{Items, Builtins}
use finna_app.Python.Try.{Try, ok, raise, value_error}
use finna_app.Costs.Record.{CostRecord, insert_many}
use finna_app.Costs.Llm.{Texts, normalize_litellm_records}
use finna_app.Costs.Llm.Insert.{
  Accepts, Settings, Store, HealthTable, success, extract_costs, mark_health_start,
  mark_health_success, finished, with_records, with_rows,
}
use finna_app.Costs.Llm.Insert.Laws.{insert_records-accepted}

marked :
    (n : ℕ) (h : HealthTable)
    → h.has_columns ≡ true
    → h.writable ≡ true
    → (mark_health_success n (mark_health_start h)).row
      ≡ some (record { status = success; records_extracted = n; error_message = none })
unfolding mark_health_success mark_health_start
marked n h columns writable = ground (arith, columns, writable)

module _ (py : Builtins) (tx : Texts) (accepts : Accepts) where
  run-eq :
      (env : Settings) (batch_size : ℕ) (rows : Items) (s : Store) (r : CostRecord)
      (records : List CostRecord)
      → env.base_url ≡ true
      → env.master_key ≡ true
      → env.pg_dsn ≡ true
      → ((j : ℕ) → accepts j ≡ true)
      → normalize_litellm_records py tx env.task_tag_prefix rows ≡ ok (r ∷ records)
      → extract_costs py tx accepts env (suc batch_size) (ok rows) s
        ≡ finished py tx accepts
            (mark_health_start s.health)
            (ok (length (r ∷ records)), insert_many (r ∷ records) s.records)
  unfolding extract_costs
  run-eq env batch_size rows s r records url key dsn all normalized =
      ap
        (λ (b : Bool).
          if b && env.master_key
          then (if env.pg_dsn
              then with_rows py tx accepts env.task_tag_prefix (suc batch_size) (ok rows) s
              else (raise value_error, s))
          else (ok 0, s))
        url
      ∙ ap
          (λ (b : Bool).
            if b
            then (if env.pg_dsn
                then with_rows py tx accepts env.task_tag_prefix (suc batch_size) (ok rows) s
                else (raise value_error, s))
            else (ok 0, s))
          key
      ∙ ap
          (λ (b : Bool).
            if b
            then with_rows py tx accepts env.task_tag_prefix (suc batch_size) (ok rows) s
            else (raise value_error, s))
          dsn
      ∙ ap (λ (m : Try (List CostRecord)). with_records py tx accepts (suc batch_size) m s)
          normalized
      ∙ ap (finished py tx accepts (mark_health_start s.health))
          (insert_records-accepted accepts (r ∷ records) batch_size s.records all)

  -- A run that has its settings and its rows, of which some are charged, with a database that takes all
  -- batches and can be written: the records are in the table, the number of them is returned, and the row of
  -- the run tells of success with that number.
  pub extract_costs-stored :
      (env : Settings) (batch_size : ℕ) (rows : Items) (s : Store) (r : CostRecord)
      (records : List CostRecord)
      → env.base_url ≡ true
      → env.master_key ≡ true
      → env.pg_dsn ≡ true
      → ((j : ℕ) → accepts j ≡ true)
      → s.health.has_columns ≡ true
      → s.health.writable ≡ true
      → normalize_litellm_records py tx env.task_tag_prefix rows ≡ ok (r ∷ records)
      → ((extract_costs py tx accepts env (suc batch_size) (ok rows) s).0
          ≡ ok (length (r ∷ records)))
        × ((extract_costs py tx accepts env (suc batch_size) (ok rows) s).1.records
            ≡ insert_many (r ∷ records) s.records)
        × ((extract_costs py tx accepts env (suc batch_size) (ok rows) s).1.health.row
            ≡ some (record {
              status = success;
              records_extracted = length (r ∷ records);
              error_message = none;
            }))
  extract_costs-stored env batch_size rows s r records url key dsn all columns writable normalized =
      let same = run-eq env batch_size rows s r records url key dsn all normalized in
      (
        ap (λ (m : Try ℕ × Store). m.0) same,
        ap (λ (m : Try ℕ × Store). m.1.records) same,
        ap (λ (m : Try ℕ × Store). m.1.health.row) same
            ∙ marked (length (r ∷ records)) s.health columns writable,
      )
