-- ===== src/Extraction/Steps/Final.antt =====
-- What happens to one run: it stays finished, the later of two writes stands, and a run that
-- nobody finishes stays as it is.
use finna_app.Prelude.{
  ℕ, ◌≡◌, ◌≢◌, refl, ◌∙◌, String, ◌++ₛ◌, Bool, true, false, Option, none, some, List, [], ◌∷◌,
  arith, ◌==◌, eq_iff, eq_refl, Option-cases, Bool-cases, inl, inr,
}
use finna_app.Prelude.Dict.{
  Dict, lookup, insert, erase, contains, lookup-insert, lookup-erase, contains-eq-lookup,
}
use finna_app.Python.Value.{Fields, Value, field}
use finna_app.Python.Try.{Try, ok, raise}
use finna_app.Extraction.Log.{Regex, signal, failed, outcome, stored_log}
use finna_app.Extraction.Runs.{
  ExtractorRun, finish, new_run, with_type, with_config, or_provider, Runner, Outside, reading,
  written, get_extractor_type, update_run_status, insert_run, register, start_run, start_extractor,
  monitor_write, monitor_pop, cancel_run, shut_down_each, shutdown_all,
}
use finna_app.Extraction.Steps.{
  Step, start, write, pop, cancel, shut_down, Steps, stay, then_step, at_start,
}
use finna_app.Extraction.Steps.Laws.{
  lookup-update_run_status, is_done_at, is_consistent_at, outcome-fits, Steps-IsValidAt,
  shut_down_each-IsValidAt,
}

-- A registered run whose monitor is still reading, ended by signal 15 and cancelled, on a database that takes
-- both writes to its row: they can come in either order, as the monitor goes on reading after the
-- cancellation, and the cancellation finds the run after the monitor's write. The later one stands: the row
-- tells of "Exit code: -15", or of "Cancelled by user".
pub cancel_write-last :
    (re : Regex) (now later : ℕ) (run_id : String) (lines : List String) (s : Runner)
    (r : ExtractorRun)
    → contains run_id s.processes ≡ true
    → lookup run_id s.monitors ≡ some reading
    → lookup run_id s.table ≡ some r
    → (let cancelled = (cancel_run true now run_id s).1 in
        (lookup run_id cancelled.monitors ≡ some reading)
        × (lookup run_id (monitor_write re true later run_id lines (signal 15) cancelled).table
            ≡ some (
                finish failed 0
                  (some ("Exit code: " ++ₛ "-" ++ₛ re.show 15))
                  (some (stored_log re lines))
                  later
                  r)))
      × (let ended = monitor_write re true now run_id lines (signal 15) s in
          ((cancel_run true later run_id ended).0 ≡ ok true)
          × (lookup run_id (cancel_run true later run_id ended).1.table
              ≡ some (finish failed 0 (some "Cancelled by user") none later r)))
unfolding cancel_run monitor_write outcome
cancel_write-last re now later run_id lines s r c m h =
    let cancelled = update_run_status now run_id failed 0 (some "Cancelled by user") none s.table in
    let ended =
      update_run_status now run_id failed 0 (some ("Exit code: " ++ₛ "-" ++ₛ re.show 15))
        (some (stored_log re lines)) s.table in
    ground (
      arith,
      eq_refl run_id,
      lookup-update_run_status now run_id run_id failed 0 (some "Cancelled by user") none s.table,
      lookup-update_run_status later run_id run_id failed 0
          (some ("Exit code: " ++ₛ "-" ++ₛ re.show 15)) (some (stored_log re lines)) cancelled,
      lookup-update_run_status now run_id run_id failed 0
          (some ("Exit code: " ++ₛ "-" ++ₛ re.show 15)) (some (stored_log re lines)) s.table,
      lookup-update_run_status later run_id run_id failed 0 (some "Cancelled by user") none ended,
    )

-- A run that no subprocess and no monitor belongs to.
abbrev pub IsOrphan : String → ExtractorRun → Runner → Type 0
IsOrphan k r s =
    (lookup k s.table ≡ some r) × (contains k s.processes ≡ false) × (lookup k s.monitors ≡ none)

-- Two states agree on a run id.
abbrev SameAt : String → Runner → Runner → Type 0
SameAt k s t =
    (lookup k t.table ≡ lookup k s.table)
    × (contains k t.processes ≡ contains k s.processes)
    × (lookup k t.monitors ≡ lookup k s.monitors)

start_run-SameAt :
    (out : Outside) (now : ℕ) (run_id config_id provider t : String) (config : Fields) (s : Runner)
    (k : String)
    → run_id ≢ k
    → SameAt k s (start_run out now run_id config_id provider t config s).1
unfolding start_run insert_run register
start_run-SameAt out now run_id config_id provider t config s k ne = ground (
  arith,
  eq_iff run_id k,
  lookup-insert run_id k tt s.processes,
  lookup-insert run_id k reading s.monitors,
  lookup-insert run_id k (new_run config_id provider t now) s.table,
  contains-eq-lookup k s.processes,
  contains-eq-lookup k (insert run_id tt s.processes),
)

with_config-SameAt :
    (out : Outside) (now : ℕ) (run_id config_id provider t : String)
    (loaded : Option (Try (Fields × Value))) (s : Runner) (k : String)
    → run_id ≢ k
    → SameAt k s (with_config out now run_id config_id provider t loaded s).1
with_config-SameAt out now run_id config_id provider t none s k ne = (refl, refl, refl)
with_config-SameAt out now run_id config_id provider t (some (raise e)) s k ne = (refl, refl, refl)
with_config-SameAt out now run_id config_id provider t (some (ok (config, credential_type))) s k
      ne =
    start_run-SameAt out now run_id config_id provider t
      (field "credential_type" credential_type config) s k ne

with_type-SameAt :
    (out : Outside) (now : ℕ) (run_id config_id provider : String) (r : Try String) (s : Runner)
    (k : String)
    → run_id ≢ k
    → SameAt k s (with_type out now run_id config_id provider r s).1
with_type-SameAt out now run_id config_id provider (raise e) s k ne = (refl, refl, refl)
with_type-SameAt out now run_id config_id provider (ok t) s k ne =
    with_config-SameAt out now run_id config_id provider t (out.load_config config_id) s k ne

start_extractor-SameAt :
    (out : Outside) (now : ℕ) (pg_dsn run_id config_id provider : String)
    (extractor_type : Option String) (s : Runner) (k : String)
    → run_id ≢ k
    → SameAt k s (start_extractor out now pg_dsn run_id config_id provider extractor_type s).1
unfolding start_extractor
start_extractor-SameAt out now pg_dsn run_id config_id provider extractor_type s k ne =
    elim (Bool-cases (pg_dsn == "")) [
      | inl p ↦ simp p (refl, refl, refl)
      | inr p ↦ simp p (
          with_type-SameAt out now run_id config_id provider
            (get_extractor_type (or_provider extractor_type provider)) s k ne)
    ]

-- A fresh id is another id than one that has a row.
fresh :
    (run_id k : String) (table : Dict ExtractorRun) {r : ExtractorRun}
    → lookup run_id table ≡ none
    → lookup k table ≡ some r
    → run_id ≢ k
fresh run_id k table n h e = cc

shut_down_each-other :
    (k : String) (db_up : String → Bool) (now : ℕ) (ps : Dict (Unit {0}))
    (table : Dict ExtractorRun)
    → contains k ps ≡ false
    → lookup k (shut_down_each db_up now ps table) ≡ lookup k table
unfolding shut_down_each contains
shut_down_each-other k db_up now [] table c = refl
shut_down_each-other k db_up now ((run_id, u) ∷ ps) table c = ground (
  arith,
  lookup-update_run_status now run_id k failed 0 (some "Server shutdown") none table,
  shut_down_each-other k db_up now ps table,
  shut_down_each-other k db_up now ps
      (update_run_status now run_id failed 0 (some "Server shutdown") none table),
)

Step-IsOrphan :
    (re : Regex) (out : Outside) (k : String) (r : ExtractorRun) {s t : Runner}
    → Step re out s t
    → IsOrphan k r s
    → IsOrphan k r t
unfolding monitor_write monitor_pop cancel_run shutdown_all contains
Step-IsOrphan re out k r {s} (start now pg_dsn run_id config_id provider extractor_type n) o =
    ground (
      arith,
      start_extractor-SameAt out now pg_dsn run_id config_id provider extractor_type s k
          (fresh run_id k s.table n o.0),
    )
Step-IsOrphan re out k r {s} (write db_up now run_id lines code h) o =
    let w = outcome re lines code in
    ground (
      arith,
      eq_iff run_id k,
      lookup-update_run_status now run_id k w.status w.records_extracted w.error_message
          (some (stored_log re lines)) s.table,
      lookup-insert run_id k written s.monitors,
      lookup-erase run_id k s.monitors,
    )
Step-IsOrphan re out k r {s} (pop run_id h) o = ground (
  arith,
  eq_iff run_id k,
  lookup-erase run_id k s.monitors,
  lookup-erase run_id k s.processes,
  contains-eq-lookup k s.processes,
  contains-eq-lookup k (erase run_id s.processes),
)
Step-IsOrphan re out k r {s} (cancel db_up now run_id) o = ground (
  arith,
  eq_iff run_id k,
  lookup-update_run_status now run_id k failed 0 (some "Cancelled by user") none s.table,
  lookup-erase run_id k s.processes,
  contains-eq-lookup k s.processes,
  contains-eq-lookup k (erase run_id s.processes),
)
Step-IsOrphan re out k r {s} (shut_down db_up now) o =
    (shut_down_each-other k db_up now s.processes s.table o.1 ∙ o.0, refl, o.2)

-- A row with no subprocess and no monitor never changes again, in whatever order the steps come: a
-- cancellation does not find it and the shutdown passes it over.
pub Steps-IsOrphan :
    (re : Regex) (out : Outside) (k : String) (r : ExtractorRun) {s t : Runner}
    → Steps re out s t
    → IsOrphan k r s
    → IsOrphan k r t
Steps-IsOrphan re out k r stay o = o
Steps-IsOrphan re out k r (then_step q step) o =
    Step-IsOrphan re out k r step (Steps-IsOrphan re out k r q o)

Step-is_done :
    (re : Regex) (out : Outside) (k : String) {s t : Runner}
    → Step re out s t
    → is_consistent_at (lookup k s.table) ≡ true
    → is_done_at (lookup k s.table) ≡ true
    → is_done_at (lookup k t.table) ≡ true
unfolding monitor_write monitor_pop cancel_run shutdown_all
Step-is_done re out k {s} (start now pg_dsn run_id config_id provider extractor_type n) c d =
    ground (
      arith,
      start_extractor-SameAt out now pg_dsn run_id config_id provider extractor_type s k,
      Option-cases (lookup k s.table),
    )
Step-is_done re out k {s} (write db_up now run_id lines code h) c d =
    let w = outcome re lines code in
    ground (
      arith,
      outcome-fits re lines code,
      lookup-update_run_status now run_id k w.status w.records_extracted w.error_message
          (some (stored_log re lines)) s.table,
    )
Step-is_done re out k {s} (pop run_id h) c d = d
Step-is_done re out k {s} (cancel db_up now run_id) c d =
    ground (
      arith,
      lookup-update_run_status now run_id k failed 0 (some "Cancelled by user") none s.table,
    )
Step-is_done re out k {s} (shut_down db_up now) c d =
    ground (arith, shut_down_each-IsValidAt k db_up now s.processes s.table c)

append :
    {re : Regex} {out : Outside} {s t u : Runner}
    → Steps re out s t
    → Steps re out t u
    → Steps re out s u
append q stay = q
append q (then_step r step) = then_step (append q r) step

-- From a state that the program can reach, a run that is finished stays finished, in whatever order
-- the steps come.
pub Steps-is_done :
    (re : Regex) (out : Outside) (k : String) {s t : Runner}
    → Steps re out at_start s
    → Steps re out s t
    → is_done_at (lookup k s.table) ≡ true
    → is_done_at (lookup k t.table) ≡ true
Steps-is_done re out k q stay d = d
Steps-is_done re out k q (then_step {t} r step) d =
    Step-is_done re out k step (Steps-IsValidAt re out k (append q r)).0
      (Steps-is_done re out k q r d)
