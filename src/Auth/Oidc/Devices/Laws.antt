-- ===== src/Auth/Oidc/Devices/Laws.antt =====
-- A device code is good once and until it expires.
use finna_app.Prelude.{
  ℕ, ◌+◌, ◌≤◌, ◌≡◌, ◌≢◌, String, not, none, some, arith, ltb, eq_iff, eq_refl, if◌then◌else◌,
  Option-cases,
}
use finna_app.Prelude.Dict.{
  lookup, insert, lookup-insert, lookup-erase, HasDistinctKeys, lookup-keep_items,
}
use finna_app.Auth.Oidc.{StoredDevice}
use finna_app.Auth.Oidc.Devices.{
  Devices, store_device_code, get_and_consume_device_code, clear_expired_device_codes,
}

abbrev device : ℕ → String → String → String → ℕ → ℕ → StoredDevice
device now provider_id client_id client_secret interval expires_in = record {
  provider_id = provider_id;
  client_id = client_id;
  client_secret = client_secret;
  interval = interval;
  expires_at = now + expires_in;
}

-- A stored device code is found until it expires and with what was stored; whether it was found or
-- not, the same code is not found again, and other codes are as before.
pub device_code_once :
    (now first later : ℕ) (code other provider_id client_id client_secret : String)
    (interval expires_in : ℕ) (devices : Devices)
    → code ≢ other
    → let stored =
        store_device_code now code provider_id client_id client_secret interval expires_in
          devices in
      let taken = get_and_consume_device_code first code stored in
      (taken.0 ≡ (
        if ltb (now + expires_in) first
        then none
        else some (device now provider_id client_id client_secret interval expires_in)))
      × ((get_and_consume_device_code later code taken.1).0 ≡ none)
      × ((get_and_consume_device_code later other taken.1).0
          ≡ (get_and_consume_device_code later other devices).0)
unfolding get_and_consume_device_code store_device_code
device_code_once now first later code other provider_id client_id client_secret interval expires_in
      devices ne =
    let d = device now provider_id client_id client_secret interval expires_in in
    let stored = insert code d devices in
    (
      ground (arith, lookup-insert code code d devices, eq_refl code),
      ground (arith, lookup-erase code code stored, eq_refl code),
      ground (
        arith,
        lookup-erase code other stored,
        lookup-insert code other d devices,
        eq_iff code other,
      ),
    )

-- Clearing the expired codes, at any time before, changes no answer.
pub consume-clear :
    (now later : ℕ) (code : String) (devices : Devices)
    → now ≤ later
    → HasDistinctKeys devices
    → (get_and_consume_device_code later code (clear_expired_device_codes now devices)).0
      ≡ (get_and_consume_device_code later code devices).0
unfolding get_and_consume_device_code clear_expired_device_codes
consume-clear now later code devices h d = ground (
  arith,
  lookup-keep_items (λ _ stored. not (ltb stored.expires_at now)) code devices d,
  Option-cases (lookup code devices),
)
