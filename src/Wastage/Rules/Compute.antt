-- ===== src/Wastage/Rules/Compute.antt =====
-- The rules on virtual machines, clusters and App Service plans of backend/app/wastage/rules/azure.py.
use finna_app.Prelude.{
  ◌++ₛ◌, not, Option, none, some, List, [], ◌∷◌, ◌==◌, eqb, if◌then◌else◌, length, lower,
}
use finna_app.Python.Decimal.{of_nat, zero_decimal}
use finna_app.Python.Value.{
  Value, num, str, arr, obj, Items, nil, cons, Fields, end, field, get, get_or, item, as_text,
  or_else, elements, Builtins, to_str, to_int,
}
use finna_app.Python.Try.{Try, ok, raise, type_error, attribute_error, ◌>>=◌}
use finna_app.Wastage.Finding.{Finding, post_init, PriceLookup}
use finna_app.Wastage.Rules.Helpers.{row_type, is_nonprod_rg, is_expensive}

-- `vs[:5]`
unfoldable pub first_five : Items → Items
first_five (cons a (cons b (cons c (cons d (cons e rest))))) =
    cons a (cons b (cons c (cons d (cons e nil))))
first_five vs = vs

-- A value that is used as a list: numbers and dicts have no length or no slices, and raise. So does
-- a string here, which Python would slice; the inventory never gives one.
as_list : Value → Try Items
as_list (arr vs) = ok vs
as_list _ = raise type_error

unfoldable pub azure_vm_stopped_with_disks : Builtins → PriceLookup → Fields → Try (Option Finding)
unfolding as_list
azure_vm_stopped_with_disks py pricing row = do
  kind ← row_type row
  if not (kind == "microsoft.compute/virtualmachines") then ok none else do
    power_state ← as_text (get_or row "power_state" (str ""))
    if not (lower power_state == "deallocated") then ok none else do
      disk_ids ← as_list (or_else (get row "attached_disk_ids") (arr nil))
      elim disk_ids [
        | nil ↦ ok none
        | cons first rest ↦ do
          let region = get_or row "region" (str "westeurope")
          let vm_size = to_str py (or_else (get row "vm_size") (str ""))
          price ← pricing "azure" ("virtual_machine/" ++ₛ vm_size) region
          account_id ← item row "account_id"
          resource_id ← item row "resource_id"
          ok (
              some (
                post_init py (record {
                  provider = "azure";
                  account_id = account_id;
                  resource_group = get row "resource_group";
                  region = region;
                  resource_id = resource_id;
                  resource_type = "Microsoft.Compute/virtualMachines";
                  rule_id = "azure.vm.stopped_with_disks";
                  severity = "high";
                  category = "compute";
                  estimated_monthly_usd = price;
                  evidence = field "power_state" (get_or row "power_state" (str "")) (
                      field "vm_size" (str vm_size) (
                        field "attached_disk_count"
                          (num (of_nat (length (elements (cons first rest)))))
                          (field "attached_disk_ids" (arr (first_five (cons first rest))) end)));
                  tags = get_or row "tags" (obj end);
                  remediation =
                      "Delete the VM and its managed disks if no longer needed, or start it if it is required. Deallocated VMs still incur managed-disk and IP address charges.";
                  finding_id = "";
                })))
      ]

as_dict : Value → Try Fields
as_dict (obj d) = ok d
as_dict _ = raise attribute_error

-- `[p for p in profiles if int(p.get("count") or 0) == 0]`
unfoldable pub idle_pools : Builtins → Items → Try (List Fields)
unfolding as_dict
idle_pools py nil = ok []
idle_pools py (cons p ps) = do
  pool ← as_dict p
  count ← to_int py (or_else (get pool "count") (num (of_nat 0)))
  rest ← idle_pools py ps
  ok (if eqb count 0 then pool ∷ rest else rest)

-- `[p["name"] for p in idle_pools]`
unfoldable pub pool_names : List Fields → Try Items
pool_names [] = ok nil
pool_names (p ∷ ps) = do name ← item p "name"; rest ← pool_names ps; ok (cons name rest)

unfoldable pub azure_aks_idle_nodepool : Builtins → PriceLookup → Fields → Try (Option Finding)
unfolding as_list
azure_aks_idle_nodepool py pricing row = do
  kind ← row_type row
  if not (kind == "microsoft.containerservice/managedclusters") then ok none else do
    profiles ← as_list (or_else (get row "agent_pool_profiles") (arr nil))
    idle ← idle_pools py profiles
    elim idle [
      | [] ↦ ok none
      | p ∷ ps ↦ do
        let region = get_or row "region" (str "westeurope")
        account_id ← item row "account_id"
        resource_id ← item row "resource_id"
        names ← pool_names (p ∷ ps)
        ok (
            some (
              post_init py (record {
                provider = "azure";
                account_id = account_id;
                resource_group = get row "resource_group";
                region = region;
                resource_id = resource_id;
                resource_type = "Microsoft.ContainerService/managedClusters";
                rule_id = "azure.aks.idle_nodepool";
                severity = "high";
                category = "compute";
                estimated_monthly_usd = zero_decimal;
                evidence = field "idle_pool_names" (arr names) (
                    field "idle_pool_count" (num (of_nat (length (p ∷ ps))))
                      (field "kubernetes_version" (get_or row "kubernetes_version" (str "")) end));
                tags = get_or row "tags" (obj end);
                remediation =
                    "Remove idle node pools from the AKS cluster or scale them down to their minimum required count. Consider enabling cluster autoscaler.";
                finding_id = "";
              })))
    ]

unfoldable pub azure_asp_oversized_nonprod : Builtins → PriceLookup → Fields → Try (Option Finding)
azure_asp_oversized_nonprod py pricing row = do
  kind ← row_type row
  if not (kind == "microsoft.web/serverfarms") then ok none else do
    let sku_name = to_str py (or_else (get row "sku_name") (str ""))
    let rg = to_str py (or_else (get row "resource_group") (str ""))
    if not (is_expensive sku_name) then ok none else do
      if not (is_nonprod_rg rg) then ok none else do
        let region = get_or row "region" (str "westeurope")
        price ← pricing "azure" ("app_service_plan/" ++ₛ sku_name) region
        account_id ← item row "account_id"
        resource_id ← item row "resource_id"
        ok (
            some (
              post_init py (record {
                provider = "azure";
                account_id = account_id;
                resource_group = get row "resource_group";
                region = region;
                resource_id = resource_id;
                resource_type = "Microsoft.Web/serverFarms";
                rule_id = "azure.asp.oversized_nonprod";
                severity = "medium";
                category = "compute";
                estimated_monthly_usd = price;
                evidence = field "sku_name" (str sku_name) (
                    field "sku_tier" (get_or row "sku_tier" (str "")) (
                      field "number_of_workers" (get_or row "number_of_workers" (num (of_nat 0)))
                        (field "resource_group" (str rg) end)));
                tags = get_or row "tags" (obj end);
                remediation =
                    "Downscale the App Service Plan from " ++ₛ sku_name
                    ++ₛ " to B1 or B2 in non-production environments to reduce costs significantly.";
                finding_id = "";
              })))
