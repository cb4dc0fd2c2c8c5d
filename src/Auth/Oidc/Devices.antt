-- ===== src/Auth/Oidc/Devices.antt =====
-- The device codes of backend/app/api/oidc.py.
pub mod Laws
use finna_app.Prelude.{ℕ, ◌+◌, String, Bool, not, Option, none, some, ltb, if◌then◌else◌}
use finna_app.Prelude.Dict.{Dict, lookup, insert, erase, keep_items}
use finna_app.Auth.Oidc.{StoredDevice}

abbrev pub Devices : Type 0
Devices = Dict StoredDevice

-- `expires_in` in microseconds.
unfoldable pub store_device_code : ℕ → String → String → String → String → ℕ → ℕ → Devices → Devices
store_device_code now device_code provider_id client_id client_secret interval expires_in devices =
    insert device_code
      (record {
        provider_id = provider_id;
        client_id = client_id;
        client_secret = client_secret;
        interval = interval;
        expires_at = now + expires_in;
      })
      devices

abbrev unless_expired : ℕ → Option StoredDevice → Option StoredDevice
unless_expired now none = none
unless_expired now (some stored) = if ltb stored.expires_at now then none else some stored

unfoldable pub get_and_consume_device_code : ℕ → String → Devices → Option StoredDevice × Devices
get_and_consume_device_code now device_code devices =
    (unless_expired now (lookup device_code devices), erase device_code devices)

unfoldable pub clear_expired_device_codes : ℕ → Devices → Devices
clear_expired_device_codes now devices =
    keep_items (λ _ stored. not (ltb stored.expires_at now)) devices
