-- ===== src/Wastage/Rules/Flags.antt =====
-- When a rule flags a row: the result of each rule against a plain Boolean description of the rows
-- that it means.
use finna_app.Prelude.{
  ℕ, ◌*◌, ◌≡◌, String, ◌++ₛ◌, Bool, true, false, ◌&&◌, Option, none, some, arith, ◌==◌, ltb, lower,
  upper, is_blank, refl, ==_exclusive,
}
use finna_app.Python.Decimal.{of_nat}
use finna_app.Python.Value.{
  Value, num, str, arr, Fields, nil, cons, get, get_or, item, as_text, or_else, is_null, Builtins,
  to_str, to_float,
}
use finna_app.Python.Try.{Try, ok, raise}
use finna_app.Wastage.Finding.{Finding, post_init, PriceLookup}
use finna_app.Wastage.Rules.Helpers.{row_type, age, day, is_nonprod_rg, is_expensive}
use finna_app.Wastage.Rules.Disks.{azure_disk_orphan, azure_snapshot_old}
use finna_app.Wastage.Rules.Network.{
  azure_public_ip_unattached, azure_public_ip_basic_sku, azure_nic_orphan, address_sku,
}
use finna_app.Wastage.Rules.Compute.{azure_vm_stopped_with_disks, azure_asp_oversized_nonprod}
use finna_app.Wastage.Rules.Storage.{azure_storage_ragrs_nonprod, is_geo_redundant}

-- The rule returned a finding.
abbrev pub flagged : Try (Option Finding) → Bool
flagged (ok (some f)) = true
flagged (ok none) = false
flagged (raise e) = false

abbrev returns {ℓ} : {A : Type ℓ} → Try A → Bool
returns (ok a) = true
returns (raise e) = false

abbrev text_is : Try String → (String → Bool) → Bool
text_is (ok s) p = p s
text_is (raise e) p = false

abbrev pub has_type : Fields → String → Bool
has_type row kind = text_is (row_type row) (λ k. k == kind)

-- The row has what every finding needs.
abbrev pub identified : Fields → Bool
identified row = returns (item row "account_id") && returns (item row "resource_id")

abbrev older_than : ℕ → Option ℕ → Bool
older_than limit none = false
older_than limit (some micros) = ltb limit micros

module _ (py : Builtins) (pricing : PriceLookup) (row : Fields) where
  abbrev sku_or_default : String
  sku_or_default = to_str py (or_else (get row "sku") (str "Standard_LRS"))

  abbrev region_or_default : Value
  region_or_default = get_or row "region" (str "westeurope")

  abbrev priced : String → Bool
  priced sku = returns (pricing "azure" sku region_or_default)

  abbrev sized : Bool
  sized = returns (to_float py (or_else (get row "size_gb") (num (of_nat 0))))

  -- A disk is flagged exactly if it is one, no virtual machine manages it, its size and price can
  -- be read, and it has an account and an id.
  pub flagged-disk_orphan : flagged (azure_disk_orphan py pricing row) ≡ (
      has_type row "microsoft.compute/disks"
      && text_is (as_text (get_or row "managed_by" (str ""))) is_blank
      && sized
      && priced ("managed_disk/" ++ₛ sku_or_default)
      && identified row)
  unfolding azure_disk_orphan post_init
  flagged-disk_orphan = ground arith

  -- A snapshot is flagged exactly if it is one, its creation time can be read and is more than 180 days
  -- ago, its size and price can be read, and it has an account and an id.
  pub flagged-snapshot_old :
      (now : ℕ)
      → flagged (azure_snapshot_old py now pricing row) ≡ (
          has_type row "microsoft.compute/snapshots"
          && older_than
              (180 * day)
              (age py now (to_str py (or_else (get row "time_created") (str ""))))
          && sized
          && priced ("snapshot/" ++ₛ sku_or_default)
          && identified row)
  unfolding azure_snapshot_old post_init
  flagged-snapshot_old now = ground arith

  pub flagged-public_ip_unattached : flagged (azure_public_ip_unattached py pricing row) ≡ (
      has_type row "microsoft.network/publicipaddresses"
      && (address_sku py row == "standard")
      && is_null (get row "ip_configuration")
      && priced "public_ip/Standard_Static"
      && identified row)
  unfolding azure_public_ip_unattached post_init
  flagged-public_ip_unattached = ground arith

  pub flagged-public_ip_basic_sku : flagged (azure_public_ip_basic_sku py pricing row) ≡ (
      has_type row "microsoft.network/publicipaddresses"
      && (address_sku py row == "basic")
      && identified row)
  unfolding azure_public_ip_basic_sku post_init
  flagged-public_ip_basic_sku = ground arith

  pub flagged-nic_orphan : flagged (azure_nic_orphan py pricing row) ≡ (
      has_type row "microsoft.network/networkinterfaces"
      && is_null (get row "virtual_machine")
      && identified row)
  unfolding azure_nic_orphan post_init
  flagged-nic_orphan = ground arith

  abbrev some_disks : Value → Bool
  some_disks (arr (cons v vs)) = true
  some_disks _ = false

  -- A virtual machine is flagged exactly if it is one, its power state is "deallocated" in any case of
  -- letters, it has a list of disks with one at least, its price can be read, and it has an account and
  -- an id.
  pub flagged-vm_stopped_with_disks : flagged (azure_vm_stopped_with_disks py pricing row) ≡ (
      has_type row "microsoft.compute/virtualmachines"
      && text_is (as_text (get_or row "power_state" (str ""))) (λ s. lower s == "deallocated")
      && some_disks (or_else (get row "attached_disk_ids") (arr nil))
      && priced ("virtual_machine/" ++ₛ to_str py (or_else (get row "vm_size") (str "")))
      && identified row)
  unfolding azure_vm_stopped_with_disks post_init
  flagged-vm_stopped_with_disks = ground arith

  abbrev sku_name_or_empty : String
  sku_name_or_empty = to_str py (or_else (get row "sku_name") (str ""))

  abbrev in_nonprod_rg : Bool
  in_nonprod_rg = is_nonprod_rg (to_str py (or_else (get row "resource_group") (str "")))

  -- A service plan is flagged exactly if it is one, its SKU is S1 to S3 or P with a digit, its resource
  -- group looks like one that is not production, its price can be read, and it has an account and an id.
  pub flagged-asp_oversized_nonprod : flagged (azure_asp_oversized_nonprod py pricing row) ≡ (
      has_type row "microsoft.web/serverfarms"
      && is_expensive sku_name_or_empty
      && in_nonprod_rg
      && priced ("app_service_plan/" ++ₛ sku_name_or_empty)
      && identified row)
  unfolding azure_asp_oversized_nonprod post_init
  flagged-asp_oversized_nonprod = ground arith

  pub flagged-storage_ragrs_nonprod : flagged (azure_storage_ragrs_nonprod py pricing row) ≡ (
      has_type row "microsoft.storage/storageaccounts"
      && is_geo_redundant (upper sku_name_or_empty)
      && in_nonprod_rg
      && identified row)
  unfolding azure_storage_ragrs_nonprod post_init
  flagged-storage_ragrs_nonprod = ground arith

  -- No row is flagged by both rules on public addresses.
  pub public_ip_rules_exclusive :
      (flagged (azure_public_ip_unattached py pricing row)
        && flagged (azure_public_ip_basic_sku py pricing row))
      ≡ false
  public_ip_rules_exclusive =
      rw (flagged-public_ip_unattached, flagged-public_ip_basic_sku)
        (ground (arith, ==_exclusive (address_sku py row) "standard" "basic" refl))
