-- ===== src/Wastage/Rules/Disks.antt =====
-- The rules on disks and snapshots of backend/app/wastage/rules/azure.py.
use finna_app.Prelude.{ℕ, ◌*◌, ◌++ₛ◌, not, Option, none, some, ◌==◌, leb, if◌then◌else◌, is_blank}
use finna_app.Python.Decimal.{of_nat, mul}
use finna_app.Python.Value.{
  num, str, obj, Fields, end, field, get, get_or, item, as_text, or_else, Builtins, to_str,
  to_float,
}
use finna_app.Python.Try.{Try, ok, ◌>>=◌}
use finna_app.Wastage.Finding.{Finding, post_init, PriceLookup}
use finna_app.Wastage.Rules.Helpers.{row_type, age, day, round_days}

unfoldable pub azure_disk_orphan : Builtins → PriceLookup → Fields → Try (Option Finding)
azure_disk_orphan py pricing row = do
  kind ← row_type row
  if not (kind == "microsoft.compute/disks") then ok none else do
    managed_by ← as_text (get_or row "managed_by" (str ""))
    if not (is_blank managed_by) then ok none else do
      size_gb ← to_float py (or_else (get row "size_gb") (num (of_nat 0)))
      let sku = to_str py (or_else (get row "sku") (str "Standard_LRS"))
      let region = get_or row "region" (str "westeurope")
      price ← pricing "azure" ("managed_disk/" ++ₛ sku) region
      account_id ← item row "account_id"
      resource_id ← item row "resource_id"
      ok (
          some (
            post_init py (record {
              provider = "azure";
              account_id = account_id;
              resource_group = get row "resource_group";
              region = region;
              resource_id = resource_id;
              resource_type = "Microsoft.Compute/disks";
              rule_id = "azure.disk.orphan";
              severity = "high";
              category = "storage";
              estimated_monthly_usd = mul price size_gb;
              evidence = field "size_gb" (num size_gb) (
                  field "sku" (str sku) (
                    field "disk_state" (get_or row "disk_state" (str ""))
                      (field "managed_by" (get_or row "managed_by" (str "")) end)));
              tags = get_or row "tags" (obj end);
              remediation =
                  "Delete the orphaned managed disk if no longer needed, or re-attach it to a virtual machine.";
              finding_id = "";
            })))

-- `now` is the clock, in microseconds since the epoch.
unfoldable pub azure_snapshot_old : Builtins → ℕ → PriceLookup → Fields → Try (Option Finding)
azure_snapshot_old py now pricing row = do
  kind ← row_type row
  if not (kind == "microsoft.compute/snapshots")
      then ok none
      else elim (age py now (to_str py (or_else (get row "time_created") (str "")))) [
        | none ↦ ok none
        | some micros ↦ if leb micros (180 * day) then ok none else do
          size_gb ← to_float py (or_else (get row "size_gb") (num (of_nat 0)))
          let sku = to_str py (or_else (get row "sku") (str "Standard_LRS"))
          let region = get_or row "region" (str "westeurope")
          price ← pricing "azure" ("snapshot/" ++ₛ sku) region
          account_id ← item row "account_id"
          resource_id ← item row "resource_id"
          ok (
              some (
                post_init py (record {
                  provider = "azure";
                  account_id = account_id;
                  resource_group = get row "resource_group";
                  region = region;
                  resource_id = resource_id;
                  resource_type = "Microsoft.Compute/snapshots";
                  rule_id = "azure.snapshot.old";
                  severity = "medium";
                  category = "storage";
                  estimated_monthly_usd = mul price size_gb;
                  evidence = field "age_days" (num (round_days micros)) (
                      field "size_gb" (num size_gb) (
                        field "sku" (str sku)
                          (field "time_created" (get_or row "time_created" (str "")) end)));
                  tags = get_or row "tags" (obj end);
                  remediation =
                      "Review and delete snapshots older than 180 days. Consider a retention policy to automate cleanup.";
                  finding_id = "";
                })))
      ]
