-- ===== src/Wastage/Rules/Catalog.antt =====
-- The registry that importing backend/app/wastage/rules/azure.py leaves: ten calls of `@rule`.
use finna_app.Prelude.{ℕ, []}
use finna_app.Python.Value.{Builtins}
use finna_app.Wastage.Finding.{Rule, Registry, register}
use finna_app.Wastage.Rules.Disks.{azure_disk_orphan, azure_snapshot_old}
use finna_app.Wastage.Rules.Network.{
  azure_public_ip_unattached, azure_public_ip_basic_sku, azure_nic_orphan,
}
use finna_app.Wastage.Rules.Compute.{
  azure_vm_stopped_with_disks, azure_aks_idle_nodepool, azure_asp_oversized_nonprod,
}
use finna_app.Wastage.Rules.Storage.{azure_storage_legacy_kind, azure_storage_ragrs_nonprod}

module _ (py : Builtins) (now : ℕ) where
  abbrev pub disk_orphan : Rule
  disk_orphan = record {
    id = "azure.disk.orphan";
    severity = "high";
    category = "storage";
    description = "Managed disk has no VM attachment (managedBy is empty).";
    fn = azure_disk_orphan py;
  }

  abbrev pub public_ip_unattached : Rule
  public_ip_unattached = record {
    id = "azure.public_ip.unattached";
    severity = "medium";
    category = "network";
    description = "Standard-SKU public IP has no associated IP configuration (unattached).";
    fn = azure_public_ip_unattached py;
  }

  abbrev pub public_ip_basic_sku : Rule
  public_ip_basic_sku = record {
    id = "azure.public_ip.basic_sku";
    severity = "low";
    category = "network";
    description = "Public IP uses deprecated Basic SKU; migrate to Standard.";
    fn = azure_public_ip_basic_sku py;
  }

  abbrev pub nic_orphan : Rule
  nic_orphan = record {
    id = "azure.nic.orphan";
    severity = "medium";
    category = "network";
    description = "Network interface has no virtual machine association.";
    fn = azure_nic_orphan py;
  }

  abbrev pub snapshot_old : Rule
  snapshot_old = record {
    id = "azure.snapshot.old";
    severity = "medium";
    category = "storage";
    description = "Managed disk snapshot older than 180 days.";
    fn = azure_snapshot_old py now;
  }

  abbrev pub vm_stopped_with_disks : Rule
  vm_stopped_with_disks = record {
    id = "azure.vm.stopped_with_disks";
    severity = "high";
    category = "compute";
    description = "VM is deallocated but still incurring managed-disk costs.";
    fn = azure_vm_stopped_with_disks py;
  }

  abbrev pub aks_idle_nodepool : Rule
  aks_idle_nodepool = record {
    id = "azure.aks.idle_nodepool";
    severity = "high";
    category = "compute";
    description = "AKS cluster has an agent pool with zero nodes.";
    fn = azure_aks_idle_nodepool py;
  }

  abbrev pub asp_oversized_nonprod : Rule
  asp_oversized_nonprod = record {
    id = "azure.asp.oversized_nonprod";
    severity = "medium";
    category = "compute";
    description = "App Service Plan in non-prod RG uses an expensive production-grade SKU.";
    fn = azure_asp_oversized_nonprod py;
  }

  abbrev pub storage_legacy_kind : Rule
  storage_legacy_kind = record {
    id = "azure.storage.legacy_kind";
    severity = "low";
    category = "storage";
    description = "Storage account uses legacy 'Storage' kind; migrate to StorageV2.";
    fn = azure_storage_legacy_kind py;
  }

  abbrev pub storage_ragrs_nonprod : Rule
  storage_ragrs_nonprod = record {
    id = "azure.storage.ragrs_nonprod";
    severity = "medium";
    category = "storage";
    description = "Storage account uses RA-GRS or GRS replication in a non-prod RG.";
    fn = azure_storage_ragrs_nonprod py;
  }

  -- In the order of the file; `register` is the decorator.
  unfoldable pub azure_registry : Registry
  unfolding register
  azure_registry = register storage_ragrs_nonprod (
      register storage_legacy_kind (
        register asp_oversized_nonprod (
          register aks_idle_nodepool (
            register vm_stopped_with_disks (
              register snapshot_old (
                register nic_orphan (
                  register public_ip_basic_sku
                    (register public_ip_unattached (register disk_orphan [])))))))))
