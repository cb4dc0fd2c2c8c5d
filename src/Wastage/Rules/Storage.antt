-- ===== src/Wastage/Rules/Storage.antt =====
-- The rules on storage accounts of backend/app/wastage/rules/azure.py.
use finna_app.Prelude.{
  String, ◌++ₛ◌, Bool, not, ◌||◌, Option, none, some, ◌==◌, if◌then◌else◌, codes, lower, upper,
  is_suffix,
}
use finna_app.Python.Decimal.{zero_decimal}
use finna_app.Python.Value.{
  str, obj, Fields, end, field, get, get_or, item, or_else, Builtins, to_str,
}
use finna_app.Python.Try.{Try, ok, ◌>>=◌}
use finna_app.Wastage.Finding.{Finding, post_init, PriceLookup}
use finna_app.Wastage.Rules.Helpers.{row_type, is_nonprod_rg}

unfoldable pub azure_storage_legacy_kind : Builtins → PriceLookup → Fields → Try (Option Finding)
azure_storage_legacy_kind py pricing row = do
  kind ← row_type row
  if not (kind == "microsoft.storage/storageaccounts") then ok none else do
    if not (lower (to_str py (or_else (get row "kind") (str ""))) == "storage") then ok none else do
      let region = get_or row "region" (str "westeurope")
      account_id ← item row "account_id"
      resource_id ← item row "resource_id"
      ok (
          some (
            post_init py (record {
              provider = "azure";
              account_id = account_id;
              resource_group = get row "resource_group";
              region = region;
              resource_id = resource_id;
              resource_type = "Microsoft.Storage/storageAccounts";
              rule_id = "azure.storage.legacy_kind";
              severity = "low";
              category = "storage";
              estimated_monthly_usd = zero_decimal;
              evidence =
                  field "kind" (get_or row "kind" (str ""))
                    (field "sku_name" (get_or row "sku_name" (str "")) end);
              tags = get_or row "tags" (obj end);
              remediation =
                  "Migrate the storage account to StorageV2 to unlock hot/cool/archive tiering and lower per-GB costs. Create a new StorageV2 account and migrate data using AzCopy.";
              finding_id = "";
            })))

-- `sku_name.endswith("_RAGRS") or sku_name.endswith("_GRS")`
unfoldable pub is_geo_redundant : String → Bool
unfolding codes is_suffix
is_geo_redundant sku_name =
    is_suffix (codes "_RAGRS") (codes sku_name) || is_suffix (codes "_GRS") (codes sku_name)

unfoldable pub azure_storage_ragrs_nonprod : Builtins → PriceLookup → Fields → Try (Option Finding)
azure_storage_ragrs_nonprod py pricing row = do
  kind ← row_type row
  if not (kind == "microsoft.storage/storageaccounts") then ok none else do
    let sku_name = upper (to_str py (or_else (get row "sku_name") (str "")))
    let rg = to_str py (or_else (get row "resource_group") (str ""))
    if not (is_geo_redundant sku_name) then ok none else do
      if not (is_nonprod_rg rg) then ok none else do
        let region = get_or row "region" (str "westeurope")
        account_id ← item row "account_id"
        resource_id ← item row "resource_id"
        ok (
            some (
              post_init py (record {
                provider = "azure";
                account_id = account_id;
                resource_group = get row "resource_group";
                region = region;
                resource_id = resource_id;
                resource_type = "Microsoft.Storage/storageAccounts";
                rule_id = "azure.storage.ragrs_nonprod";
                severity = "medium";
                category = "storage";
                estimated_monthly_usd = zero_decimal;
                evidence = field "sku_name" (str sku_name) (
                    field "kind" (get_or row "kind" (str ""))
                      (field "resource_group" (str rg) end));
                tags = get_or row "tags" (obj end);
                remediation =
                    "Downgrade replication from " ++ₛ sku_name
                    ++ₛ " to LRS for non-production storage accounts. GRS/RA-GRS replication roughly doubles storage costs and is unnecessary in dev/test/stage environments.";
                finding_id = "";
              })))
