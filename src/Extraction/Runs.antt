-- ===== src/Extraction/Runs.antt =====
-- The operations of backend/app/api/runner.py on the table `extractor_runs`, the registry of running
-- subprocesses and the monitors.
use finna_app.Prelude.{
  ℕ, String, Bool, true, false, not, Option, none, some, List, [], ◌∷◌, ◌==◌, if◌then◌else◌, ◌||◌,
}
use finna_app.Prelude.Dict.{Dict, lookup, insert, erase, contains}
use finna_app.Python.Value.{Fields, Value, field}
use finna_app.Python.Try.{Try, ok, raise, value_error, db_error}
use finna_app.Extraction.Log.{Regex, ReturnCode, RunStatus, running, failed, outcome, stored_log}

-- A row of `extractor_runs`.
pub record ExtractorRun : Type 0 where
  pub config_id : String
  pub provider : String
  pub extractor_type : String
  pub status : RunStatus
  pub started_at : ℕ
  pub finished_at : Option ℕ
  pub records_extracted : ℕ
  pub error_message : Option String
  pub log_output : Option String

-- A monitor thread reads its subprocess, and then has written the outcome to the table.
pub data Monitor : Type 0 where
  reading : Monitor
  written : Monitor

-- The table by run id, `_running_processes`, the monitor threads, and `_shutdown_event`.
pub record Runner : Type 0 where
  pub table : Dict ExtractorRun
  pub processes : Dict (Unit {0})
  pub monitors : Dict Monitor
  pub shutdown : Bool

unfoldable pub is_allowed : String → Bool
is_allowed t = t == "azure_cost" || t == "gcp_billing" || t == "aws_cost" || t == "litellm_cost"

unfoldable pub resolve_type : String → String
resolve_type provider =
    if provider == "azure"
    then "azure_cost"
    else if provider == "gcp"
    then "gcp_billing"
    else if provider == "aws"
    then "aws_cost"
    else if provider == "llm"
    then "litellm_cost"
    else if provider == "litellm"
    then "litellm_cost"
    else provider

unfoldable pub get_extractor_type : String → Try String
unfolding is_allowed resolve_type
get_extractor_type provider =
    let resolved = resolve_type provider in
    if is_allowed resolved then ok resolved else raise value_error

abbrev pub finish : RunStatus → ℕ → Option String → Option String → ℕ → ExtractorRun → ExtractorRun
finish status records error log now r = record r {
  status = status;
  finished_at = some now;
  records_extracted = records;
  error_message = error;
  log_output = log;
}

abbrev pub update_at :
    Option ExtractorRun
    → (ExtractorRun → ExtractorRun)
    → String
    → Dict ExtractorRun
    → Dict ExtractorRun
update_at none f run_id table = table
update_at (some r) f run_id table = insert run_id (f r) table

-- The UPDATE of `_update_run_status`.
unfoldable pub update_run_status :
    ℕ
    → String
    → RunStatus
    → ℕ
    → Option String
    → Option String
    → Dict ExtractorRun
    → Dict ExtractorRun
update_run_status now run_id status records error log table =
    update_at (lookup run_id table) (finish status records error log now) run_id table

-- What `start_extractor` takes from outside: the row of `cloud_config` with its decrypted config, the
-- start of the subprocess in the environment of that config, and whether the database takes writes.
pub record Outside : Type 0 where
  pub load_config : String → Option (Try (Fields × Value))
  pub launch : String → String → Fields → Try (Unit {0})
  pub accepts_insert : Bool

abbrev pub new_run : String → String → String → ℕ → ExtractorRun
new_run config_id provider extractor_type now = record {
  config_id = config_id;
  provider = provider;
  extractor_type = extractor_type;
  status = running;
  started_at = now;
  finished_at = none;
  records_extracted = 0;
  error_message = none;
  log_output = none;
}

unfoldable pub insert_run : String → ExtractorRun → Runner → Runner
insert_run run_id r s = record s { table = insert run_id r s.table }

unfoldable pub register : String → Runner → Runner
register run_id s = record s {
  processes = insert run_id tt s.processes;
  monitors = insert run_id reading s.monitors;
}

abbrev pub launched : Try (Unit {0}) → String → Runner → Try String × Runner
launched (raise e) run_id s = (raise e, s)
launched (ok _) run_id s = (ok run_id, register run_id s)

-- From the INSERT on: the row is committed before the subprocess starts.
unfoldable pub start_run :
    Outside → ℕ → String → String → String → String → Fields → Runner → Try String × Runner
unfolding insert_run register
start_run out now run_id config_id provider extractor_type config s =
    if not (out.accepts_insert)
    then (raise db_error, s)
    else launched (out.launch extractor_type provider config) run_id
        (insert_run run_id (new_run config_id provider extractor_type now) s)

abbrev pub with_config :
    Outside
    → ℕ
    → String
    → String
    → String
    → String
    → Option (Try (Fields × Value))
    → Runner
    → Try String × Runner
with_config out now run_id config_id provider extractor_type none s = (raise value_error, s)
with_config out now run_id config_id provider extractor_type (some (raise e)) s = (raise e, s)
with_config out now run_id config_id provider extractor_type (some (ok (config, credential_type)))
      s =
    start_run out now run_id config_id provider extractor_type
      (field "credential_type" credential_type config) s

abbrev pub with_type :
    Outside → ℕ → String → String → String → Try String → Runner → Try String × Runner
with_type out now run_id config_id provider (raise e) s = (raise e, s)
with_type out now run_id config_id provider (ok extractor_type) s =
    with_config out now run_id config_id provider extractor_type (out.load_config config_id) s

-- `extractor_type or provider`
abbrev pub or_provider : Option String → String → String
or_provider none provider = provider
or_provider (some t) provider = if t == "" then provider else t

-- `start_extractor` with the run id that `uuid4` makes.
unfoldable pub start_extractor :
    Outside → ℕ → String → String → String → String → Option String → Runner → Try String × Runner
unfolding get_extractor_type start_run
start_extractor out now pg_dsn run_id config_id provider extractor_type s =
    if pg_dsn == ""
    then (raise value_error, s)
    else with_type out now run_id config_id provider
        (get_extractor_type (or_provider extractor_type provider)) s

-- The monitor's write, after the subprocess has ended or the shutdown is on. Where the database
-- refuses it the thread dies: no second write, and the process stays registered.
unfoldable pub monitor_write :
    Regex → Bool → ℕ → String → List String → ReturnCode → Runner → Runner
unfolding update_run_status
monitor_write re db_up now run_id lines code s =
    let o = outcome re lines code in
    if db_up
    then record s {
      table =
          update_run_status now run_id o.status o.records_extracted o.error_message
            (some (stored_log re lines)) s.table;
      monitors = insert run_id written s.monitors;
    }
    else record s { monitors = erase run_id s.monitors }

unfoldable pub monitor_pop : String → Runner → Runner
monitor_pop run_id s = record s {
  processes = erase run_id s.processes;
  monitors = erase run_id s.monitors;
}

-- `cancel_run`, once the subprocess has been terminated or killed.
unfoldable pub cancel_run : Bool → ℕ → String → Runner → Try Bool × Runner
unfolding update_run_status
cancel_run db_up now run_id s =
    if not (contains run_id s.processes)
    then (ok false, s)
    else if not db_up
    then (raise db_error, s)
    else (
      ok true,
      record s {
        table = update_run_status now run_id failed 0 (some "Cancelled by user") none s.table;
        processes = erase run_id s.processes;
      },
    )

-- The loop of `shutdown_all`: an exception of one update is logged and the loop goes on.
unfoldable pub shut_down_each :
    (String → Bool) → ℕ → Dict (Unit {0}) → Dict ExtractorRun → Dict ExtractorRun
unfolding update_run_status
shut_down_each db_up now [] table = table
shut_down_each db_up now ((run_id, _) ∷ ps) table = shut_down_each db_up now ps (
    if db_up run_id
    then update_run_status now run_id failed 0 (some "Server shutdown") none table
    else table)

unfoldable pub shutdown_all : (String → Bool) → ℕ → Runner → Runner
shutdown_all db_up now s = record s {
  table = shut_down_each db_up now s.processes s.table;
  processes = [];
  shutdown = true;
}
