-- ===== src/Extraction/Steps/Laws.antt =====
-- What every order of the steps keeps.
use finna_app.Prelude.{
  ℕ, ◌≡◌, refl, String, Bool, true, false, not, ◌&&◌, Option, none, some, List, [], ◌∷◌, arith,
  ◌==◌, eq_iff, if◌then◌else◌, Option-cases, Bool-cases, inl, inr,
}
use finna_app.Prelude.Dict.{
  Dict, lookup, insert, erase, contains, lookup-insert, lookup-erase, contains-eq-lookup,
}
use finna_app.Python.Value.{Fields, Value, field}
use finna_app.Python.Try.{Try, ok, raise}
use finna_app.Extraction.Log.{
  Regex, ReturnCode, RunStatus, running, success, failed, outcome, stored_log,
}
use finna_app.Extraction.Runs.{
  ExtractorRun, finish, new_run, with_type, with_config, or_provider, Runner, Outside, Monitor,
  reading, written, is_allowed, get_extractor_type, update_run_status, insert_run, register,
  start_run, start_extractor, monitor_write, monitor_pop, cancel_run, shut_down_each, shutdown_all,
}
use finna_app.Extraction.Steps.{
  Step, start, write, pop, cancel, shut_down, Steps, stay, then_step, at_start,
}

abbrev pub finish_found :
    RunStatus → ℕ → Option String → Option String → ℕ → Option ExtractorRun → Option ExtractorRun
finish_found status records error log now none = none
finish_found status records error log now (some r) = some (finish status records error log now r)

pub lookup-update_run_status :
    (now : ℕ) (run_id k : String) (status : RunStatus) (records : ℕ) (error log : Option String)
    (table : Dict ExtractorRun)
    → lookup k (update_run_status now run_id status records error log table) ≡ (
        if run_id == k
        then finish_found status records error log now (lookup k table)
        else lookup k table)
unfolding update_run_status
lookup-update_run_status now run_id k status records error log table =
    elim (Option-cases (lookup run_id table)) [
      | inl e ↦ ground (arith, eq_iff run_id k)
      | inr (r, e) ↦ ground (
        arith,
        eq_iff run_id k,
        lookup-insert run_id k (finish status records error log now r) table,
      )
    ]

abbrev pub is_some {ℓ} : {A : Type ℓ} → Option A → Bool
is_some none = false
is_some (some a) = true

abbrev status_fits : RunStatus → Bool → Bool → Bool
status_fits running finished error = not finished && not error
status_fits success finished error = finished && not error
status_fits failed finished error = finished && error

-- A run has an allowed type; it has an end exactly where it is not running, and an error message
-- exactly where it failed.
unfoldable pub is_consistent : ExtractorRun → Bool
is_consistent r =
    is_allowed r.extractor_type
    && status_fits r.status (is_some r.finished_at) (is_some r.error_message)

abbrev pub is_consistent_at : Option ExtractorRun → Bool
is_consistent_at none = true
is_consistent_at (some r) = is_consistent r

abbrev pub is_done : RunStatus → Bool
is_done running = false
is_done success = true
is_done failed = true

abbrev pub is_done_at : Option ExtractorRun → Bool
is_done_at none = false
is_done_at (some r) = is_done r.status

abbrev is_written : Option Monitor → Bool
is_written none = false
is_written (some reading) = false
is_written (some written) = true

-- The row of the id is consistent; a registered subprocess has a row, a monitor has one, and a row
-- whose outcome a monitor has written is finished.
abbrev pub IsValidAt : String → Runner → Type 0
IsValidAt k s =
    (is_consistent_at (lookup k s.table) ≡ true)
    × ((contains k s.processes && not (is_some (lookup k s.table))) ≡ false)
    × ((is_some (lookup k s.monitors) && not (is_some (lookup k s.table))) ≡ false)
    × ((is_written (lookup k s.monitors) && not (is_done_at (lookup k s.table))) ≡ false)

get_extractor_type-is_allowed :
    (provider t : String) → get_extractor_type provider ≡ ok t → is_allowed t ≡ true
unfolding get_extractor_type
get_extractor_type-is_allowed provider t h = ground arith

start_run-IsValidAt :
    (out : Outside) (k : String) (now : ℕ) (run_id config_id provider t : String) (config : Fields)
    (s : Runner)
    → is_allowed t ≡ true
    → lookup run_id s.table ≡ none
    → IsValidAt k s
    → IsValidAt k (start_run out now run_id config_id provider t config s).1
unfolding start_run is_consistent insert_run register
start_run-IsValidAt out k now run_id config_id provider t config s a n v = ground (
  arith,
  lookup-insert run_id k (new_run config_id provider t now) s.table,
  lookup-insert run_id k tt s.processes,
  lookup-insert run_id k reading s.monitors,
  contains-eq-lookup k s.processes,
  contains-eq-lookup k (insert run_id tt s.processes),
  eq_iff run_id k,
)

with_config-IsValidAt :
    (out : Outside) (k : String) (now : ℕ) (run_id config_id provider t : String)
    (loaded : Option (Try (Fields × Value))) (s : Runner)
    → is_allowed t ≡ true
    → lookup run_id s.table ≡ none
    → IsValidAt k s
    → IsValidAt k (with_config out now run_id config_id provider t loaded s).1
with_config-IsValidAt out k now run_id config_id provider t none s a n v = v
with_config-IsValidAt out k now run_id config_id provider t (some (raise e)) s a n v = v
with_config-IsValidAt out k now run_id config_id provider t (some (ok (config, credential_type))) s
      a n v =
    start_run-IsValidAt out k now run_id config_id provider t
      (field "credential_type" credential_type config) s a n v

with_type-IsValidAt :
    (out : Outside) (k : String) (now : ℕ) (run_id config_id provider : String) (r : Try String)
    (s : Runner)
    → ((t : String) → r ≡ ok t → is_allowed t ≡ true)
    → lookup run_id s.table ≡ none
    → IsValidAt k s
    → IsValidAt k (with_type out now run_id config_id provider r s).1
with_type-IsValidAt out k now run_id config_id provider (raise e) s a n v = v
with_type-IsValidAt out k now run_id config_id provider (ok t) s a n v =
    with_config-IsValidAt out k now run_id config_id provider t (out.load_config config_id) s
      (a t refl) n v

start-IsValidAt :
    (out : Outside) (k : String) (now : ℕ) (pg_dsn run_id config_id provider : String)
    (extractor_type : Option String) (s : Runner)
    → lookup run_id s.table ≡ none
    → IsValidAt k s
    → IsValidAt k (start_extractor out now pg_dsn run_id config_id provider extractor_type s).1
unfolding start_extractor
start-IsValidAt out k now pg_dsn run_id config_id provider extractor_type s n v =
    elim (Bool-cases (pg_dsn == "")) [
      | inl p ↦ simp p v
      | inr p ↦ simp p (
          with_type-IsValidAt out k now run_id config_id provider
            (get_extractor_type (or_provider extractor_type provider)) s
            (get_extractor_type-is_allowed (or_provider extractor_type provider)) n v)
    ]

pub outcome-fits :
    (re : Regex) (lines : List String) (code : ReturnCode)
    → (status_fits
          (outcome re lines code).status
          true
          (is_some (outcome re lines code).error_message)
        ≡ true)
      × (is_done (outcome re lines code).status ≡ true)
unfolding outcome
outcome-fits re lines code = ground arith

write-IsValidAt :
    (re : Regex) (k : String) (db_up : Bool) (now : ℕ) (run_id : String) (lines : List String)
    (code : ReturnCode) (s : Runner)
    → IsValidAt k s
    → lookup run_id s.monitors ≡ some reading
    → IsValidAt k (monitor_write re db_up now run_id lines code s)
unfolding monitor_write is_consistent
write-IsValidAt re k db_up now run_id lines code s v h =
    let o = outcome re lines code in
    ground (
      arith,
      outcome-fits re lines code,
      lookup-update_run_status now run_id k o.status o.records_extracted o.error_message
          (some (stored_log re lines)) s.table,
      lookup-insert run_id k written s.monitors,
      lookup-erase run_id k s.monitors,
      eq_iff run_id k,
    )

pop-IsValidAt :
    (k run_id : String) (s : Runner) → IsValidAt k s → IsValidAt k (monitor_pop run_id s)
unfolding monitor_pop
pop-IsValidAt k run_id s v = ground (
  arith,
  lookup-erase run_id k s.monitors,
  lookup-erase run_id k s.processes,
  contains-eq-lookup k s.processes,
  contains-eq-lookup k (erase run_id s.processes),
  eq_iff run_id k,
)

cancel-IsValidAt :
    (k : String) (db_up : Bool) (now : ℕ) (run_id : String) (s : Runner)
    → IsValidAt k s
    → IsValidAt k (cancel_run db_up now run_id s).1
unfolding cancel_run is_consistent
cancel-IsValidAt k db_up now run_id s v = ground (
  arith,
  lookup-update_run_status now run_id k failed 0 (some "Cancelled by user") none s.table,
  lookup-erase run_id k s.processes,
  contains-eq-lookup k s.processes,
  contains-eq-lookup k (erase run_id s.processes),
  eq_iff run_id k,
)

pub shut_down_each-IsValidAt :
    (k : String) (db_up : String → Bool) (now : ℕ) (ps : Dict (Unit {0}))
    (table : Dict ExtractorRun)
    → is_consistent_at (lookup k table) ≡ true
    → (is_consistent_at (lookup k (shut_down_each db_up now ps table)) ≡ true)
      × (is_some (lookup k (shut_down_each db_up now ps table)) ≡ is_some (lookup k table))
      × ((is_done_at (lookup k table)
            && not (is_done_at (lookup k (shut_down_each db_up now ps table))))
          ≡ false)
unfolding shut_down_each is_consistent
shut_down_each-IsValidAt k db_up now [] table h = ground arith
shut_down_each-IsValidAt k db_up now ((run_id, u) ∷ ps) table h =
    let failed_table = update_run_status now run_id failed 0 (some "Server shutdown") none table in
    ground (
      arith,
      lookup-update_run_status now run_id k failed 0 (some "Server shutdown") none table,
      shut_down_each-IsValidAt k db_up now ps table,
      shut_down_each-IsValidAt k db_up now ps failed_table,
    )

shut_down-IsValidAt :
    (k : String) (db_up : String → Bool) (now : ℕ) (s : Runner)
    → IsValidAt k s
    → IsValidAt k (shutdown_all db_up now s)
unfolding shutdown_all contains
shut_down-IsValidAt k db_up now s v =
    ground (arith, shut_down_each-IsValidAt k db_up now s.processes s.table v.0)

pub Step-IsValidAt :
    (re : Regex) (out : Outside) (k : String) {s t : Runner}
    → Step re out s t
    → IsValidAt k s
    → IsValidAt k t
Step-IsValidAt re out k {s} (start now pg_dsn run_id config_id provider extractor_type n) v =
    start-IsValidAt out k now pg_dsn run_id config_id provider extractor_type s n v
Step-IsValidAt re out k {s} (write db_up now run_id lines code h) v =
    write-IsValidAt re k db_up now run_id lines code s v h
Step-IsValidAt re out k {s} (pop run_id h) v = pop-IsValidAt k run_id s v
Step-IsValidAt re out k {s} (cancel db_up now run_id) v = cancel-IsValidAt k db_up now run_id s v
Step-IsValidAt re out k {s} (shut_down db_up now) v = shut_down-IsValidAt k db_up now s v

-- In every state that the program can reach, in whatever order requests, monitors and the shutdown
-- come and whichever writes the database refuses: every row has an allowed extractor type, an end
-- exactly where it is not running and an error message exactly where it failed; a registered
-- subprocess and a monitor have a row; and the row of a monitor that has written is finished.
pub Steps-IsValidAt :
    (re : Regex) (out : Outside) (k : String) {s : Runner} → Steps re out at_start s → IsValidAt k s
unfolding lookup contains
Steps-IsValidAt re out k stay = (refl, refl, refl, refl)
Steps-IsValidAt re out k (then_step r t) = Step-IsValidAt re out k t (Steps-IsValidAt re out k r)
