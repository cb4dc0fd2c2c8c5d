-- ===== src/Wastage/Rules/Describes.antt =====
-- Every finding of a rule carries the metadata of the rule and the identity of its row.
use mathlib.Core.Path.{subst}
use finna_app.Prelude.{
  ℕ, ◌≡◌, refl, String, some, All, arith, [], ◌∷◌, ◌==◌, eq_iff, Bool-cases, inl, inr,
}
use finna_app.Prelude.Dict.{insert, lookup}
use finna_app.Python.Value.{Fields, get, item, Builtins}
use finna_app.Python.Try.{ok}
use finna_app.Wastage.Finding.{Finding, post_init, derive_finding_id, PriceLookup, Rule, Registry}
use finna_app.Wastage.Rules.Disks.{azure_disk_orphan, azure_snapshot_old}
use finna_app.Wastage.Rules.Network.{
  azure_public_ip_unattached, azure_public_ip_basic_sku, azure_nic_orphan,
}
use finna_app.Wastage.Rules.Compute.{
  azure_vm_stopped_with_disks, azure_aks_idle_nodepool, azure_asp_oversized_nonprod,
}
use finna_app.Wastage.Rules.Storage.{azure_storage_legacy_kind, azure_storage_ragrs_nonprod}
use finna_app.Wastage.Rules.Catalog.{
  disk_orphan, snapshot_old, public_ip_unattached, public_ip_basic_sku, nic_orphan,
  vm_stopped_with_disks, aks_idle_nodepool, asp_oversized_nonprod, storage_legacy_kind,
  storage_ragrs_nonprod, azure_registry,
}

pub record Describes (py : Builtins) (r : Rule) (row : Fields) (f : Finding) : Type 0 where
  pub provider : f.provider ≡ "azure"
  pub rule_id : f.rule_id ≡ r.id
  pub severity : f.severity ≡ r.severity
  pub category : f.category ≡ r.category
  pub account : item row "account_id" ≡ ok f.account_id
  pub resource : item row "resource_id" ≡ ok f.resource_id
  pub group : f.resource_group ≡ get row "resource_group"
  pub identity : f.finding_id ≡ derive_finding_id py f.provider f.resource_id f.rule_id

-- What the registry promises of one entry: its key is the rule's id, and the rule describes rows.
abbrev pub Truthful : Builtins → String × Rule → Type 0
Truthful py (id, r) =
    (id ≡ r.id)
    × ((pricing : PriceLookup) (row : Fields) (f : Finding)
        → r.fn pricing row ≡ ok (some f)
        → Describes py r row f)

module _ (py : Builtins) (now : ℕ) (pricing : PriceLookup) (row : Fields) (f : Finding) where
  disk_orphan-Describes :
      azure_disk_orphan py pricing row ≡ ok (some f) → Describes py (disk_orphan py now) row f
  unfolding azure_disk_orphan post_init
  disk_orphan-Describes h = ground arith

  snapshot_old-Describes :
      azure_snapshot_old py now pricing row ≡ ok (some f) → Describes py (snapshot_old py now) row f
  unfolding azure_snapshot_old post_init
  snapshot_old-Describes h = ground arith

  public_ip_unattached-Describes :
      azure_public_ip_unattached py pricing row ≡ ok (some f)
      → Describes py (public_ip_unattached py now) row f
  unfolding azure_public_ip_unattached post_init
  public_ip_unattached-Describes h = ground arith

  public_ip_basic_sku-Describes :
      azure_public_ip_basic_sku py pricing row ≡ ok (some f)
      → Describes py (public_ip_basic_sku py now) row f
  unfolding azure_public_ip_basic_sku post_init
  public_ip_basic_sku-Describes h = ground arith

  nic_orphan-Describes :
      azure_nic_orphan py pricing row ≡ ok (some f) → Describes py (nic_orphan py now) row f
  unfolding azure_nic_orphan post_init
  nic_orphan-Describes h = ground arith

  vm_stopped_with_disks-Describes :
      azure_vm_stopped_with_disks py pricing row ≡ ok (some f)
      → Describes py (vm_stopped_with_disks py now) row f
  unfolding azure_vm_stopped_with_disks post_init
  vm_stopped_with_disks-Describes h = ground arith

  aks_idle_nodepool-Describes :
      azure_aks_idle_nodepool py pricing row ≡ ok (some f)
      → Describes py (aks_idle_nodepool py now) row f
  unfolding azure_aks_idle_nodepool post_init
  aks_idle_nodepool-Describes h = ground arith

  asp_oversized_nonprod-Describes :
      azure_asp_oversized_nonprod py pricing row ≡ ok (some f)
      → Describes py (asp_oversized_nonprod py now) row f
  unfolding azure_asp_oversized_nonprod post_init
  asp_oversized_nonprod-Describes h = ground arith

  storage_legacy_kind-Describes :
      azure_storage_legacy_kind py pricing row ≡ ok (some f)
      → Describes py (storage_legacy_kind py now) row f
  unfolding azure_storage_legacy_kind post_init
  storage_legacy_kind-Describes h = ground arith

  storage_ragrs_nonprod-Describes :
      azure_storage_ragrs_nonprod py pricing row ≡ ok (some f)
      → Describes py (storage_ragrs_nonprod py now) row f
  unfolding azure_storage_ragrs_nonprod post_init
  storage_ragrs_nonprod-Describes h = ground arith

azure_registry-Truthful : (py : Builtins) (now : ℕ) → All (Truthful py) (azure_registry py now)
unfolding azure_registry insert
azure_registry-Truthful py now = (
  (refl, λ pricing row f. disk_orphan-Describes py now pricing row f),
  (
    (refl, λ pricing row f. public_ip_unattached-Describes py now pricing row f),
    (
      (refl, λ pricing row f. public_ip_basic_sku-Describes py now pricing row f),
      (
        (refl, λ pricing row f. nic_orphan-Describes py now pricing row f),
        (
          (refl, λ pricing row f. snapshot_old-Describes py now pricing row f),
          (
            (refl, λ pricing row f. vm_stopped_with_disks-Describes py now pricing row f),
            (
              (refl, λ pricing row f. aks_idle_nodepool-Describes py now pricing row f),
              (
                (refl, λ pricing row f. asp_oversized_nonprod-Describes py now pricing row f),
                (
                  (refl, λ pricing row f. storage_legacy_kind-Describes py now pricing row f),
                  (
                    (refl, λ pricing row f. storage_ragrs_nonprod-Describes py now pricing row f),
                    tt,
                  ),
                ),
              ),
            ),
          ),
        ),
      ),
    ),
  ),
)

lookup-Truthful :
    (py : Builtins) (id : String) (r : Rule) (registry : Registry)
    → All (Truthful py) registry
    → lookup id registry ≡ some r
    → Truthful py (id, r)
unfolding lookup
lookup-Truthful py id r [] t h = cc
lookup-Truthful py id r ((j, q) ∷ rest) t h = elim (Bool-cases (j == id)) [
  | inl e ↦
      let same : (j, q) ≡ (id, r) = cc ((eq_iff j id).0 e, rw e at h) in
      subst (λ (entry : String × Rule). Truthful py entry) same t.0
  | inr e ↦ lookup-Truthful py id r rest t.1 (rw e at h)
]

-- A rule that the Azure registry holds under an id has that id, and whatever row it flags, the finding
-- has the rule's id, severity and category, the row's account, resource and resource group, and the
-- derived finding id.
pub registered-Describes :
    (py : Builtins) (now : ℕ) (id : String) (r : Rule) (pricing : PriceLookup) (row : Fields)
    (f : Finding)
    → lookup id (azure_registry py now) ≡ some r
    → r.fn pricing row ≡ ok (some f)
    → (id ≡ r.id) × Describes py r row f
registered-Describes py now id r pricing row f h e =
    let (same, describes) =
      lookup-Truthful py id r (azure_registry py now) (azure_registry-Truthful py now) h in
    (same, describes pricing row f e)
