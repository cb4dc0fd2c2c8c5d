-- ===== src/Wastage/Tables.antt =====
-- The tables of alembic/versions/006_resource_wastage.py and the statements that
-- backend/app/wastage/runner.py and backend/app/api/queries/wastage_queries.py run on them. The
-- columns are those that the statements read or write; `currency` is 'USD' in every row.
use finna_app.Prelude.{
  ℕ, zero, suc, String, Bool, true, false, ◌&&◌, Option, none, some, List, [], ◌∷◌, ◌++◌, map, ◌==◌,
  ltb, leb, if◌then◌else◌, exists, get_elem?,
}
use finna_app.Python.Decimal.{Decimal}
use finna_app.Python.Value.{Value, null, bool, num, str, arr, obj, Fields, Builtins}
use finna_app.Python.Try.{Try, ok, raise, Exc, db_error, ◌>>=◌}
use finna_app.Wastage.Finding.{Finding}

-- `WastageStatus`
pub data WastageStatus : Type 0 where
  opened acked resolved ignored : WastageStatus

pub record WastageRow : Type 0 where
  pub finding_id : String
  pub provider : String
  pub account_id : String
  pub resource_group : Option String
  pub region : Option String
  pub resource_id : String
  pub resource_type : String
  pub rule_id : String
  pub severity : String
  pub category : String
  pub estimated_monthly_usd : Decimal
  pub evidence : Fields
  pub tags : Value
  pub first_seen_at : ℕ
  pub last_seen_at : ℕ
  pub status : WastageStatus

pub data RunStatus : Type 0 where
  running done failed : RunStatus

-- `wastage_scan_runs`; `failed` stands for 'error', and the message for the exception it tells of.
pub record ScanRun : Type 0 where
  pub id : String
  pub provider : String
  pub started_at : ℕ
  pub finished_at : Option ℕ
  pub status : RunStatus
  pub findings_count : Option ℕ
  pub error : Option Exc

pub record Db : Type 0 where
  pub runs : List ScanRun
  pub findings : List WastageRow

-- A value in a TEXT column: NULL for None; a list or a dict is refused.
unfoldable pub text_param : Builtins → Value → Try (Option String)
text_param py null = ok none
text_param py (str s) = ok (some s)
text_param py (bool b) = ok (some (py.repr (bool b)))
text_param py (num n) = ok (some (py.repr (num n)))
text_param py (arr vs) = raise db_error
text_param py (obj d) = raise db_error

not_null : Option String → Try String
not_null none = raise db_error
not_null (some s) = ok s

-- The row that the INSERT of `_UPSERT_FINDING` offers, with `_finding_to_params`.
unfoldable pub new_row : Builtins → ℕ → Finding → Try WastageRow
unfolding text_param not_null
new_row py now f = do
  account ← text_param py f.account_id
  account_id ← not_null account
  resource ← text_param py f.resource_id
  resource_id ← not_null resource
  resource_group ← text_param py f.resource_group
  region ← text_param py f.region
  ok (record {
    finding_id = f.finding_id;
    provider = f.provider;
    account_id = account_id;
    resource_group = resource_group;
    region = region;
    resource_id = resource_id;
    resource_type = f.resource_type;
    rule_id = f.rule_id;
    severity = f.severity;
    category = f.category;
    estimated_monthly_usd = f.estimated_monthly_usd;
    evidence = f.evidence;
    tags = f.tags;
    first_seen_at = now;
    last_seen_at = now;
    status = opened;
  })

-- The unique key (provider, resource_id, rule_id).
unfoldable pub same_key : WastageRow → WastageRow → Bool
same_key a b = a.provider == b.provider && a.resource_id == b.resource_id && a.rule_id == b.rule_id

-- The DO UPDATE part on one row.
unfoldable pub refresh : WastageRow → WastageRow → WastageRow
unfolding same_key
refresh new r =
    if same_key new r
    then (record r {
      last_seen_at = new.last_seen_at;
      evidence = new.evidence;
      estimated_monthly_usd = new.estimated_monthly_usd;
      tags = new.tags;
    })
    else r

-- The upsert of one row. A row with another key and the same `finding_id` breaks the primary key.
unfoldable pub upsert : WastageRow → List WastageRow → Try (List WastageRow)
unfolding refresh
upsert new table =
    if exists (same_key new) table
    then ok (map (refresh new) table)
    else if exists (λ r. r.finding_id == new.finding_id) table
    then raise db_error
    else ok (table ++ new ∷ [])

unfoldable pub is_open : WastageStatus → Bool
is_open opened = true
is_open _ = false

-- `_AUTO_RESOLVE` on one row, and on the table.
unfoldable pub resolve_row : String → ℕ → WastageRow → WastageRow
unfolding is_open
resolve_row provider cutoff r =
    if r.provider == provider && is_open r.status && ltb r.last_seen_at cutoff
    then (record r { status = resolved })
    else r

-- `_INSERT_SCAN_RUN`
unfoldable pub insert_run : String → String → ℕ → List ScanRun → Try (List ScanRun)
insert_run id provider now runs =
    if exists (λ r. r.id == id) runs
    then raise db_error
    else ok (
        runs
        ++ (record {
          id = id;
          provider = provider;
          started_at = now;
          finished_at = none;
          status = running;
          findings_count = none;
          error = none;
        })
          ∷ [])

-- `_CLOSE_SCAN_RUN` on one row.
unfoldable pub close_row : String → RunStatus → ℕ → ℕ → Option Exc → ScanRun → ScanRun
close_row id status finished_at count error r =
    if r.id == id
    then (record r {
      finished_at = some finished_at;
      status = status;
      findings_count = some count;
      error = error;
    })
    else r

unfoldable pub is_done : RunStatus → Bool
is_done done = true
is_done _ = false

-- ORDER BY ... DESC
unfoldable pub insert_desc : ℕ → List ℕ → List ℕ
insert_desc t [] = t ∷ []
insert_desc t (u ∷ us) = if leb u t then t ∷ u ∷ us else u ∷ insert_desc t us

-- The start times of the finished runs of a provider, the latest first.
unfoldable pub done_starts : String → List ScanRun → List ℕ
unfolding is_done insert_desc
done_starts provider [] = []
done_starts provider (r ∷ rs) =
    let rest = done_starts provider rs in
    if r.provider == provider && is_done r.status then insert_desc r.started_at rest else rest

-- `_GET_CUTOFF_RUN` with OFFSET `threshold - 1`; a negative offset is an error.
unfoldable pub cutoff_run : String → ℕ → List ScanRun → Try (Option ℕ)
unfolding done_starts
cutoff_run provider zero runs = raise db_error
cutoff_run provider (suc offset) runs = ok (get_elem? (done_starts provider runs) offset)
