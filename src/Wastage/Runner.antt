-- ===== src/Wastage/Runner.antt =====
-- A scan: backend/app/wastage/runner.py, from the inventory rows to the closed run record. The
-- inventory is a stream that may raise, and the database may raise at each statement: `Faults` says
-- where it does.
pub mod Cutoff
pub mod Loop
pub mod Invariant
pub mod Kept
pub mod Keys
pub mod Outcome
pub mod Detection
use text.Mathlib.Text.{starts_with}
use finna_app.Prelude.{
  ℕ, ◌+◌, String, ◌++ₛ◌, Bool, true, false, Option, none, some, List, [], ◌∷◌, map, if◌then◌else◌,
}
use finna_app.Prelude.Dict.{Dict, keep_items}
use finna_app.Python.Value.{Fields, Builtins}
use finna_app.Python.Try.{Try, ok, raise, Exc, db_error, ◌>>=◌}
use finna_app.Database.{Session}
unfoldable pub use finna_app.Database.{commit, rollback, connected}
use finna_app.Wastage.Finding.{Finding, Rule, Registry, PriceLookup}
use finna_app.Wastage.Tables.{
  WastageRow, RunStatus, done, failed, ScanRun, Db, new_row, upsert, resolve_row, insert_run,
  close_row, cutoff_run,
}

pub data Inventory : Type 0 where
  finished : Inventory
  broken : Exc → Inventory
  resource : Fields → Inventory → Inventory

pub record Faults : Type 0 where
  pub create_run : Bool
  pub upsert_at : ℕ → Bool
  pub commit_findings : Bool
  pub read_cutoff : Bool
  pub auto_resolve : Bool
  pub close_run : Bool

abbrev pub Conn : Type 0
Conn = Session Db

unfoldable pub update_runs : (List ScanRun → List ScanRun) → Conn → Conn
update_runs f c = record c { working = record (c.working) { runs = f c.working.runs } }

unfoldable pub update_findings : (List WastageRow → List WastageRow) → Conn → Conn
update_findings f c = record c { working = record (c.working) { findings = f c.working.findings } }

-- The rules whose id begins with the provider and a dot.
unfoldable pub provider_rules : String → Registry → Registry
unfolding keep_items
provider_rules provider registry = keep_items (λ id _. starts_with id (provider ++ₛ ".")) registry

-- The findings written so far: the table and the count.
abbrev pub Progress : Type 0
Progress = List WastageRow × ℕ

module _ (py : Builtins) (faults : Faults) (pricing : PriceLookup) (now : ℕ) where
  -- The upsert of one finding; the database may raise at it.
  unfoldable pub write_finding : Finding → Progress → Try Progress
  write_finding f (table, count) =
      if faults.upsert_at count
      then raise db_error
      else do new ← new_row py now f; table' ← upsert new table; ok (table', count + 1)

  -- One rule on one row: an exception of the rule skips it.
  unfoldable pub apply_rule : Fields → Rule → Progress → Try Progress
  unfolding write_finding
  apply_rule row r p = elim (r.fn pricing row) [
    | raise e ↦ ok p
    | ok none ↦ ok p
    | ok (some f) ↦ write_finding f p
  ]

  unfoldable pub apply_rules : Fields → Registry → Progress → Try Progress
  apply_rules row [] p = ok p
  apply_rules row ((id, r) ∷ rules) p = do p' ← apply_rule row r p; apply_rules row rules p'

  unfoldable pub scan_rows : Registry → Inventory → Progress → Try Progress
  scan_rows rules finished p = ok p
  scan_rows rules (broken e) p = raise e
  scan_rows rules (resource row rest) p = do p' ← apply_rules row rules p; scan_rows rules rest p'

  -- What the transaction has when the loop ends, or when it raises.
  unfoldable pub written_on_row : Fields → Registry → Progress → Progress
  unfolding apply_rule
  written_on_row row [] p = p
  written_on_row row ((id, r) ∷ rules) p = elim (apply_rule row r p) [
    | ok p' ↦ written_on_row row rules p'
    | raise e ↦ p
  ]

  unfoldable pub written : Registry → Inventory → Progress → Progress
  unfolding apply_rules written_on_row
  written rules finished p = p
  written rules (broken e) p = p
  written rules (resource row rest) p = elim (apply_rules row rules p) [
    | ok p' ↦ written rules rest p'
    | raise e ↦ written_on_row row rules p
  ]

-- `_close_scan_run`: a database error is only logged.
unfoldable pub close_scan_run : Faults → String → RunStatus → ℕ → ℕ → Option Exc → Conn → Conn
unfolding close_row update_runs commit
close_scan_run faults run_id status finished_at count error c =
    if faults.close_run
    then c
    else commit (update_runs (map (close_row run_id status finished_at count error)) c)

resolve_before : Faults → String → Option ℕ → Conn → Conn
unfolding resolve_row update_findings commit rollback
resolve_before faults provider none c = c
resolve_before faults provider (some cutoff) c =
    if faults.auto_resolve
    then rollback c
    else commit (update_findings (map (resolve_row provider cutoff)) c)

or_rollback : (Option ℕ → Conn → Conn) → Try (Option ℕ) → Conn → Conn
or_rollback f (ok cutoff) c = f cutoff c
or_rollback f (raise e) c = rollback c

-- `_auto_resolve_stale`: a database error is logged and rolled back.
unfoldable pub auto_resolve_stale : Faults → String → ℕ → Conn → Conn
unfolding cutoff_run resolve_before or_rollback rollback
auto_resolve_stale faults provider threshold c =
    if faults.read_cutoff
    then rollback c
    else or_rollback (resolve_before faults provider) (cutoff_run provider threshold c.working.runs)
        c

module _ (py : Builtins) (faults : Faults) (registry : Registry) (pricing : PriceLookup)
    (provider : String) (threshold : ℕ) (run_id : String) (now finished_at : ℕ) where
  -- The end of the `try` block, after the loop: an exception leaves the transaction open.
  commit_scan : Try Progress → Progress → Conn → Try ℕ × Conn
  unfolding update_findings commit auto_resolve_stale
  commit_scan (raise e) (table, count) c = (raise e, update_findings (λ _. table) c)
  commit_scan (ok (table, count)) last c =
      if faults.commit_findings then (raise db_error, update_findings (λ _. table) c) else (
        ok count,
        auto_resolve_stale faults provider threshold (commit (update_findings (λ _. table) c)),
      )

  -- The body of the `try` block: the count or the exception that it ends with, and the connection.
  unfoldable pub scan_body : Inventory → Conn → Try ℕ × Conn
  unfolding provider_rules scan_rows written commit_scan
  scan_body inventory c =
      let rules = provider_rules provider registry in
      commit_scan (scan_rows py faults pricing now rules inventory (c.working.findings, 0))
        (written py faults pricing now rules inventory (c.working.findings, 0)) c

  finish : Try ℕ × Conn → Try String × Conn
  unfolding close_scan_run rollback
  finish (ok count, c) = (ok run_id, close_scan_run faults run_id done finished_at count none c)
  finish (raise e, c) =
      (raise e, close_scan_run faults run_id failed finished_at 0 (some e) (rollback c))

  create : Try (List ScanRun) → Conn → Try Conn
  unfolding update_runs commit
  create (ok runs) c = ok (commit (update_runs (λ _. runs) c))
  create (raise e) c = raise e

  started : Inventory → Conn → Try Conn → Try String × Conn
  unfolding finish scan_body
  started inventory c (ok c') = finish (scan_body inventory c')
  started inventory c (raise e) = (raise e, c)

  unfoldable pub run_scan : Inventory → Conn → Try String × Conn
  unfolding insert_run create started
  run_scan inventory c =
      if faults.create_run
      then (raise db_error, c)
      else started inventory c (create (insert_run run_id provider now c.working.runs) c)
