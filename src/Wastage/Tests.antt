-- ===== src/Wastage/Tests.antt =====
-- The theorems on the wastage detection at concrete inputs: a disk that no machine manages, scanned by
-- the Azure rules into a table.
use finna_app.Wastage.Rules.Helpers.{row_type}
use finna_app.Prelude.{
  arith, ℕ, ◌≡◌, refl, String, false, Option, none, some, [], ◌∷◌, map, is_blank, lower,
}
use finna_app.Prelude.Dict.{lookup}
use finna_app.Python.Decimal.{of_nat, zero_decimal}
use finna_app.Python.Value.{
  Value, null, num, str, arr, obj, Fields, end, field, nil, cons, Builtins, item, get_or, to_float,
  truthy,
}
use finna_app.Python.Try.{Try, ok, raise, attribute_error}
use finna_app.Database.{Session, connected}
use finna_app.Wastage.Finding.{Finding, Registry, PriceLookup, derive_finding_id, post_init}
use finna_app.Wastage.Pricing.{Files, Catalogs, price_lookup, split_slash}
use finna_app.Wastage.Pricing.Laws.{IsCoherent, price_lookup-cache, price_lookup-outcome, outcome}
use finna_app.Wastage.Rules.Disks.{azure_disk_orphan}
use finna_app.Wastage.Rules.Catalog.{disk_orphan, azure_registry}
use finna_app.Wastage.Rules.Describes.{Describes, registered-Describes}
use finna_app.Wastage.Tables.{
  WastageRow, opened, acked, resolved, ignored, ScanRun, done, Db, new_row, upsert,
}
use finna_app.Wastage.Runner.{
  Inventory, finished, resource, broken, Faults, auto_resolve_stale, scan_rows, run_scan, Progress,
  provider_rules, apply_rule, apply_rules,
}
use finna_app.Wastage.Runner.Cutoff.{auto_resolve_exact, resolve_missed}
use finna_app.Wastage.Runner.Outcome.{
  run_scan_record, run_scan_failure, find_run, closed_as, total_findings,
}
use finna_app.Wastage.Runner.Kept.{Kept, run_scan-Kept}
use finna_app.Wastage.Runner.Keys.{HasDistinctKeys, run_scan-HasDistinctKeys}
use finna_app.Wastage.Runner.Detection.{yields_here, fires_here, Seen, scan_rows-Seen}
use finna_app.Web.{body}
use finna_app.Wastage.Routes.{ack_finding, resolve_finding, ignore_finding}
use finna_app.Wastage.Routes.Laws.{status_changes_lost}

abbrev py : Builtins
py = record {
  parse_float = λ s. some (of_nat 1);
  parse_int = λ s. some 1;
  is_negative_int = λ s. false;
  repr = λ v. "1";
  dumps = λ v. "{}";
  strptime = λ s f. some 0;
  sha256 = λ s. s;
}

abbrev no_faults : Faults
no_faults = record {
  create_run = false;
  upsert_at = λ n. false;
  commit_findings = false;
  read_cutoff = false;
  auto_resolve = false;
  close_run = false;
}

abbrev two_dollars : PriceLookup
two_dollars provider sku region = ok (of_nat 2)

abbrev disk : Fields
disk = field "resource_type" (str "Microsoft.Compute/disks") (
    field "account_id" (str "acc")
      (field "resource_id" (str "d1") (field "resource_group" (str "rg-dev") end)))

abbrev rules : Registry
rules = ("azure.disk.orphan", disk_orphan py 0) ∷ []

abbrev disk_found : Try (Option Finding)
disk_found = azure_disk_orphan py two_dollars disk

abbrev or_default {ℓ} : {A : Type ℓ} → A → Try (Option A) → A
or_default a (ok (some b)) = b
or_default a _ = a

abbrev nothing : Finding
nothing = record {
  provider = "azure";
  account_id = null;
  resource_id = null;
  resource_type = "";
  rule_id = "";
  severity = "";
  category = "";
  remediation = "";
  resource_group = null;
  region = null;
  estimated_monthly_usd = zero_decimal;
  evidence = end;
  tags = null;
  finding_id = "";
}

abbrev disk_finding : Finding
disk_finding = or_default nothing disk_found

abbrev old_row : WastageRow
old_row = record {
  finding_id = "azure:d0:azure.disk.orphan";
  provider = "azure";
  account_id = "acc";
  resource_group = none;
  region = none;
  resource_id = "d0";
  resource_type = "Microsoft.Compute/disks";
  rule_id = "azure.disk.orphan";
  severity = "high";
  category = "storage";
  estimated_monthly_usd = zero_decimal;
  evidence = end;
  tags = null;
  first_seen_at = 1;
  last_seen_at = 1;
  status = opened;
}

abbrev run_at : String → ℕ → ScanRun
run_at id t = record {
  id = id;
  provider = "azure";
  started_at = t;
  finished_at = some t;
  status = done;
  findings_count = some 0;
  error = none;
}

abbrev db : Db
db = record { runs = run_at "r1" 1 ∷ run_at "r2" 2 ∷ run_at "r3" 3 ∷ []; findings = old_row ∷ [] }

abbrev after : Inventory → Try String × Session Db
after inventory =
    run_scan py no_faults rules two_dollars "azure" 2 "r4" 4 5 inventory (connected db)

-- Two finished scans have missed the old row.
auto_resolve_exact_example :
    auto_resolve_stale no_faults "azure" 2 (connected db)
    ≡ connected (record db { findings = map (resolve_missed "azure" 2 db.runs) db.findings })
auto_resolve_exact_example = auto_resolve_exact no_faults "azure" 1 db refl refl

run_scan_record_example :
    find_run "r4" (after (resource disk finished)).1.committed.runs
    ≡ some (
        closed_as "r4" "azure" 4 5
          (total_findings two_dollars (provider_rules "azure" rules) (resource disk finished))
          (after (resource disk finished)).0)
run_scan_record_example =
    run_scan_record py no_faults rules two_dollars "azure" 2 "r4" 4 5 (resource disk finished) db
      refl refl refl

abbrev breaks : Inventory
breaks = resource disk (broken attribute_error)

after-breaks : (after breaks).0 ≡ raise attribute_error
unfolding run_scan apply_rules apply_rule azure_disk_orphan row_type lower is_blank to_float truthy
    item new_row post_init upsert derive_finding_id
after-breaks = refl

run_scan_failure_example : (after breaks).1.committed.findings ≡ old_row ∷ []
run_scan_failure_example =
    run_scan_failure py no_faults rules two_dollars "azure" 2 "r4" 4 5 breaks db attribute_error
      after-breaks

run_scan-Kept_example : Kept db.findings (after (resource disk finished)).1.committed.findings
run_scan-Kept_example =
    run_scan-Kept py no_faults rules two_dollars "azure" 2 "r4" 4 5 (resource disk finished) db

run_scan-HasDistinctKeys_example :
    HasDistinctKeys (after (resource disk finished)).1.committed.findings
run_scan-HasDistinctKeys_example =
    run_scan-HasDistinctKeys py no_faults rules two_dollars "azure" 2 "r4" 4 5
      (resource disk finished) db (refl, tt)

abbrev start_of : Progress
start_of = ([], 0)

abbrev loop : Try Progress
loop = scan_rows py no_faults two_dollars 4 rules (resource disk finished) start_of

abbrev disk_row : WastageRow
disk_row = record {
  finding_id = "azure:d1:azure.disk.orphan";
  provider = "azure";
  account_id = "acc";
  resource_group = some "rg-dev";
  region = some "westeurope";
  resource_id = "d1";
  resource_type = "Microsoft.Compute/disks";
  rule_id = "azure.disk.orphan";
  severity = "high";
  category = "storage";
  estimated_monthly_usd = disk_finding.estimated_monthly_usd;
  evidence = disk_finding.evidence;
  tags = disk_finding.tags;
  first_seen_at = 4;
  last_seen_at = 4;
  status = opened;
}

disk_fires : azure_disk_orphan py two_dollars disk ≡ ok (some disk_finding)
unfolding azure_disk_orphan row_type lower is_blank to_float truthy item
disk_fires = refl

disk_offered : new_row py 4 disk_finding ≡ ok disk_row
unfolding azure_disk_orphan new_row row_type lower is_blank to_float truthy item post_init
    derive_finding_id
disk_offered = refl

loop_ends : loop ≡ ok (disk_row ∷ [], 1)
unfolding scan_rows apply_rules apply_rule azure_disk_orphan row_type lower is_blank to_float truthy
    item new_row post_init upsert derive_finding_id
loop_ends = refl

scan_rows-Seen_example : Seen disk_row 4 (disk_row ∷ [])
scan_rows-Seen_example =
    scan_rows-Seen py no_faults two_dollars 4 disk_finding disk_row disk_offered rules
      (resource disk finished) start_of (disk_row ∷ [], 1) (yields_here (fires_here disk_fires))
      loop_ends

abbrev disk_id : String
disk_id = "azure.disk.orphan"

registered : lookup disk_id (azure_registry py 0) ≡ some (disk_orphan py 0)
unfolding azure_registry lookup
registered = refl

registered-Describes_example :
    (disk_id ≡ disk_id) × Describes py (disk_orphan py 0) disk disk_finding
registered-Describes_example =
    registered-Describes py 0 disk_id (disk_orphan py 0) two_dollars disk disk_finding registered
      disk_fires

-- A pool that rolls back what comes back.
abbrev putconn : Session Db → Session Db
putconn c = connected c.committed

status_changes_lost_example :
    (ack_finding putconn old_row.finding_id 5 (connected db)
      ≡ (body (old_row.finding_id, acked), connected db))
    × (resolve_finding putconn old_row.finding_id 5 (connected db)
        ≡ (body (old_row.finding_id, resolved), connected db))
    × (ignore_finding putconn old_row.finding_id "known" 5 (connected db)
        ≡ (body (old_row.finding_id, ignored, "known"), connected db))
status_changes_lost_example =
    status_changes_lost putconn (λ c. refl) old_row.finding_id "known" 5 db

-- A catalogue of one disk.
abbrev catalog : Value
catalog = obj (
    field "managed_disk"
      (obj (field "westeurope" (obj (field "Standard_LRS" (num (of_nat 2)) end)) end))
      (field "_unit" (obj (field "_unit" (str "month") end)) end))

abbrev files : Files
files provider = ok (some catalog)

abbrev cached : Catalogs
cached = ("azure", catalog) ∷ []

cached-IsCoherent : IsCoherent files cached
unfolding lookup
cached-IsCoherent = record { at_provider = λ p c e. ground arith }

price_lookup-cache_example :
    ((price_lookup py files "azure" "managed_disk/Standard_LRS" (str "westeurope") cached).0
      ≡ (price_lookup py files "azure" "managed_disk/Standard_LRS" (str "westeurope") []).0)
    × IsCoherent files
        (price_lookup py files "azure" "managed_disk/Standard_LRS" (str "westeurope") cached).1
price_lookup-cache_example =
    price_lookup-cache py files "azure" "managed_disk/Standard_LRS" (str "westeurope") cached
      cached-IsCoherent

price_lookup-outcome_example :
    outcome (price_lookup py files "azure" "_unit/month" (str "_unit") cached).0
    ≡ some attribute_error
unfolding truthy split_slash get_or
price_lookup-outcome_example =
    price_lookup-outcome py files "azure" "_unit/month" (str "_unit") cached cached-IsCoherent

abbrev snapshot : Fields
snapshot = field "resource_type" (str "Microsoft.Compute/snapshots") (
    field "account_id" (str "acc")
      (field "resource_id" (str "s1") (field "time_created" (str "1970-01-01") end)))

abbrev machine : Fields
machine = field "resource_type" (str "Microsoft.Compute/virtualMachines") (
    field "account_id" (str "acc") (
      field "resource_id" (str "m1") (
        field "power_state" (str "Deallocated")
          (field "attached_disk_ids" (arr (cons (str "d1") nil)) end))))

abbrev plan : Fields
plan = field "resource_type" (str "Microsoft.Web/serverFarms") (
    field "account_id" (str "acc") (
      field "resource_id" (str "p1")
        (field "sku_name" (str "P1v2") (field "resource_group" (str "rg-dev") end))))
