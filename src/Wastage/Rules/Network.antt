-- ===== src/Wastage/Rules/Network.antt =====
-- The rules on public addresses and network interfaces of backend/app/wastage/rules/azure.py.
use finna_app.Prelude.{String, not, Option, none, some, ◌==◌, if◌then◌else◌, lower}
use finna_app.Python.Decimal.{zero_decimal}
use finna_app.Python.Value.{
  str, obj, Fields, end, field, get, get_or, item, or_else, is_null, Builtins, to_str,
}
use finna_app.Python.Try.{Try, ok, ◌>>=◌}
use finna_app.Wastage.Finding.{Finding, post_init, PriceLookup}
use finna_app.Wastage.Rules.Helpers.{row_type}

-- `str(row.get("sku_name") or "").lower()`
unfoldable pub address_sku : Builtins → Fields → String
address_sku py row = lower (to_str py (or_else (get row "sku_name") (str "")))

unfoldable pub azure_public_ip_unattached : Builtins → PriceLookup → Fields → Try (Option Finding)
azure_public_ip_unattached py pricing row = do
  kind ← row_type row
  if not (kind == "microsoft.network/publicipaddresses") then ok none else do
    if not (address_sku py row == "standard") then ok none else do
      if not (is_null (get row "ip_configuration")) then ok none else do
        let region = get_or row "region" (str "westeurope")
        price ← pricing "azure" "public_ip/Standard_Static" region
        account_id ← item row "account_id"
        resource_id ← item row "resource_id"
        ok (
            some (
              post_init py (record {
                provider = "azure";
                account_id = account_id;
                resource_group = get row "resource_group";
                region = region;
                resource_id = resource_id;
                resource_type = "Microsoft.Network/publicIPAddresses";
                rule_id = "azure.public_ip.unattached";
                severity = "medium";
                category = "network";
                estimated_monthly_usd = price;
                evidence = field "sku_name" (get_or row "sku_name" (str "")) (
                    field "allocation_method" (get_or row "allocation_method" (str ""))
                      (field "ip_address" (get_or row "ip_address" (str "")) end));
                tags = get_or row "tags" (obj end);
                remediation =
                    "Delete the unattached public IP address or associate it with a network interface or load balancer frontend.";
                finding_id = "";
              })))

unfoldable pub azure_public_ip_basic_sku : Builtins → PriceLookup → Fields → Try (Option Finding)
azure_public_ip_basic_sku py pricing row = do
  kind ← row_type row
  if not (kind == "microsoft.network/publicipaddresses") then ok none else do
    if not (address_sku py row == "basic") then ok none else do
      let region = get_or row "region" (str "westeurope")
      account_id ← item row "account_id"
      resource_id ← item row "resource_id"
      ok (
          some (
            post_init py (record {
              provider = "azure";
              account_id = account_id;
              resource_group = get row "resource_group";
              region = region;
              resource_id = resource_id;
              resource_type = "Microsoft.Network/publicIPAddresses";
              rule_id = "azure.public_ip.basic_sku";
              severity = "low";
              category = "network";
              estimated_monthly_usd = zero_decimal;
              evidence =
                  field "sku_name" (get_or row "sku_name" (str ""))
                    (field "allocation_method" (get_or row "allocation_method" (str "")) end);
              tags = get_or row "tags" (obj end);
              remediation =
                  "Migrate from Basic to Standard SKU public IP address. Basic SKU is deprecated and offers no zone redundancy or SLA.";
              finding_id = "";
            })))

unfoldable pub azure_nic_orphan : Builtins → PriceLookup → Fields → Try (Option Finding)
azure_nic_orphan py pricing row = do
  kind ← row_type row
  if not (kind == "microsoft.network/networkinterfaces") then ok none else do
    if not (is_null (get row "virtual_machine")) then ok none else do
      let region = get_or row "region" (str "westeurope")
      account_id ← item row "account_id"
      resource_id ← item row "resource_id"
      ok (
          some (
            post_init py (record {
              provider = "azure";
              account_id = account_id;
              resource_group = get row "resource_group";
              region = region;
              resource_id = resource_id;
              resource_type = "Microsoft.Network/networkInterfaces";
              rule_id = "azure.nic.orphan";
              severity = "medium";
              category = "network";
              estimated_monthly_usd = zero_decimal;
              evidence = field "private_ip_address" (get_or row "private_ip_address" (str "")) end;
              tags = get_or row "tags" (obj end);
              remediation =
                  "Delete the orphaned network interface. Confirm it is not required before removal.";
              finding_id = "";
            })))
