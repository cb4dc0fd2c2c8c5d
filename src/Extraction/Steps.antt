-- ===== src/Extraction/Steps.antt =====
-- The orders in which requests, monitors and the shutdown of backend/app/api/runner.py can interleave.
-- `_process_lock` makes one step of a cancellation and of the shutdown; a monitor writes its outcome
-- outside the lock.
pub mod Laws
pub mod Final
pub mod Failed
use finna_app.Prelude.{ℕ, ◌≡◌, String, Bool, false, Option, none, some, List, []}
use finna_app.Prelude.Dict.{lookup}
use finna_app.Extraction.Log.{Regex, ReturnCode}
use finna_app.Extraction.Runs.{
  Runner, Outside, Monitor, reading, written, start_extractor, monitor_write, monitor_pop,
  cancel_run, shutdown_all,
}

abbrev pub at_start : Runner
at_start = record { table = []; processes = []; monitors = []; shutdown = false }

module _ (re : Regex) (out : Outside) where
  pub data Step (s : Runner) : Runner → Type 0 where
    -- `uuid4` gives an id that no row has.
    start :
        (now : ℕ) (pg_dsn run_id config_id provider : String) (extractor_type : Option String)
        → lookup run_id s.table ≡ none
        → Step s (start_extractor out now pg_dsn run_id config_id provider extractor_type s).1
    write :
        (db_up : Bool) (now : ℕ) (run_id : String) (lines : List String) (code : ReturnCode)
        → lookup run_id s.monitors ≡ some reading
        → Step s (monitor_write re db_up now run_id lines code s)
    pop :
        (run_id : String) → lookup run_id s.monitors ≡ some written → Step s (monitor_pop run_id s)
    cancel : (db_up : Bool) (now : ℕ) (run_id : String) → Step s (cancel_run db_up now run_id s).1
    shut_down : (db_up : String → Bool) (now : ℕ) → Step s (shutdown_all db_up now s)

  pub data Steps (s : Runner) : Runner → Type 0 where
    stay : Steps s s
    then_step : {t u : Runner} → Steps s t → Step t u → Steps s u
