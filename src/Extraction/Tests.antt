-- ===== src/Extraction/Tests.antt =====
-- The theorems on extractor runs at concrete inputs: one run of the Azure extractor.
use finna_app.Prelude.{String, ◌⊎◌, ◌≡◌, refl, ◌++ₛ◌, true, none, some, []}
use finna_app.Prelude.Dict.{lookup, contains, insert}
use finna_app.Python.Value.{end, str}
use finna_app.Python.Try.{ok, raise, type_error}
use finna_app.Extraction.Log.{Regex, signal, failed, stored_log}
use finna_app.Extraction.Runs.{
  ExtractorRun, Runner, Outside, new_run, finish, reading, start_extractor, monitor_write,
  cancel_run,
}
use finna_app.Extraction.Steps.{Steps, stay, then_step, start, cancel, write, at_start}
use finna_app.Extraction.Steps.Laws.{IsValidAt, is_done_at, Steps-IsValidAt}
use finna_app.Extraction.Steps.Final.{IsOrphan, Steps-is_done, Steps-IsOrphan, cancel_write-last}
use finna_app.Extraction.Steps.Failed.{start_extractor-fails}

abbrev re : Regex
re = record {
  search = λ pattern text. none;
  sub = λ pattern replacement text. text;
  show = λ n. "15";
  parse = λ text. some 15;
  exc_text = λ e. "error";
}

abbrev starts : Outside
starts = record {
  load_config = λ id. some (ok (end, str "client_secret"));
  launch = λ t p config. ok tt;
  accepts_insert = true;
}

-- The subprocess cannot be started.
abbrev cannot_start : Outside
cannot_start = record (starts) { launch = λ t p config. raise type_error }

abbrev started : Runner
started = (start_extractor starts 1 "dsn" "r1" "c1" "azure" none at_start).1

no_row : lookup "r1" at_start.table ≡ none
unfolding lookup
no_row = refl

start-Steps : Steps re starts at_start started
start-Steps = then_step stay (start 1 "dsn" "r1" "c1" "azure" none no_row)

Steps-IsValidAt_example : IsValidAt "r1" started
Steps-IsValidAt_example = Steps-IsValidAt re starts "r1" start-Steps

abbrev cancelled : Runner
cancelled = (cancel_run true 2 "r1" started).1

cancel-Steps : Steps re starts at_start cancelled
cancel-Steps = then_step start-Steps (cancel true 2 "r1")

still_reading : lookup "r1" cancelled.monitors ≡ some reading
unfolding lookup cancel_run contains start_extractor insert
still_reading = refl

cancelled_done : is_done_at (lookup "r1" cancelled.table) ≡ true
unfolding lookup cancel_run contains start_extractor insert
cancelled_done = refl

Steps-is_done_example :
    is_done_at (lookup "r1" (monitor_write re true 3 "r1" [] (signal 15) cancelled).table) ≡ true
Steps-is_done_example =
    Steps-is_done re starts "r1" cancel-Steps
      (then_step stay (write true 3 "r1" [] (signal 15) still_reading)) cancelled_done

abbrev new_azure_run : ExtractorRun
new_azure_run = new_run "c1" "azure" "azure_cost" 1

abbrev orphaned : Runner
orphaned = (start_extractor cannot_start 1 "dsn" "r1" "c1" "azure" none at_start).1

orphaned-IsOrphan : IsOrphan "r1" new_azure_run orphaned
unfolding contains lookup start_extractor insert
orphaned-IsOrphan = (refl, refl, refl)

orphaned_raised :
    (start_extractor cannot_start 1 "dsn" "r1" "c1" "azure" none at_start).0 ≡ raise type_error
unfolding start_extractor
orphaned_raised = refl

start_extractor-fails_example :
    (orphaned ≡ at_start)
    ⊎ ((t : String) × IsOrphan "r1" (new_run "c1" "azure" t 1) (cancel_run true 2 "r1" orphaned).1)
start_extractor-fails_example =
    start_extractor-fails re cannot_start 1 "dsn" "r1" "c1" "azure" none type_error stay no_row
      orphaned_raised (then_step stay (cancel true 2 "r1"))

Steps-IsOrphan_example : IsOrphan "r1" new_azure_run (cancel_run true 2 "r1" orphaned).1
Steps-IsOrphan_example =
    Steps-IsOrphan re cannot_start "r1" new_azure_run (then_step stay (cancel true 2 "r1"))
      orphaned-IsOrphan

is_registered : contains "r1" started.processes ≡ true
unfolding contains start_extractor insert
is_registered = refl

has_row : lookup "r1" started.table ≡ some new_azure_run
unfolding lookup start_extractor insert
has_row = refl

monitor_reading : lookup "r1" started.monitors ≡ some reading
unfolding lookup start_extractor insert
monitor_reading = refl

cancel_write-last_example :
    ((lookup "r1" (cancel_run true 2 "r1" started).1.monitors ≡ some reading)
      × (lookup "r1" (monitor_write re true 3 "r1" [] (signal 15) cancelled).table
          ≡ some (
              finish failed 0
                (some ("Exit code: " ++ₛ "-" ++ₛ re.show 15))
                (some (stored_log re []))
                3
                new_azure_run)))
    × (((cancel_run true 3 "r1" (monitor_write re true 2 "r1" [] (signal 15) started)).0 ≡ ok true)
        × (lookup "r1"
              (cancel_run true 3 "r1" (monitor_write re true 2 "r1" [] (signal 15) started)).1.table
            ≡ some (finish failed 0 (some "Cancelled by user") none 3 new_azure_run)))
cancel_write-last_example =
    cancel_write-last re 2 3 "r1" [] started new_azure_run is_registered monitor_reading has_row
