-- ===== src/Auth/Oidc.antt =====
-- The OIDC client of backend/app/api/oidc.py: its stores and caches as one state, the network and
-- the JWT library as parameters.
pub mod States
pub mod Devices
pub mod Discovery
pub mod Verify
use finna_app.Prelude.{ℕ, ◌*◌, String, Option, none, some}
use finna_app.Prelude.Dict.{Dict}
use finna_app.Python.Value.{Value, Fields}
use finna_app.Python.Try.{Exc}

-- Time is counted in microseconds.
abbrev pub second : ℕ
second = 1_000_000

abbrev pub discovery_cache_ttl : ℕ
discovery_cache_ttl = 3600 * second

abbrev pub jwks_cache_ttl : ℕ
jwks_cache_ttl = 300 * second

abbrev pub state_expiry : ℕ
state_expiry = 600 * second

-- `OIDCError`, by its message.
pub data OidcError : Type 0 where
  discovery_failed missing_endpoints no_jwks_uri jwks_failed missing_issuer no_keys : OidcError
  invalid_token_format insecure_algorithm no_suitable_key token_expired claims_invalid : OidcError
  bad_signature iat_in_future issuer_mismatch audience_mismatch nonce_mismatch : OidcError
  invalid_state state_expired no_token_endpoint exchange_failed no_id_token : OidcError
  provider_mismatch no_device_endpoint device_request_failed device_data_missing : OidcError
  provider_error : String → OidcError

-- What a call comes to: a value, an `OIDCError`, or another exception.
pub data Oidc {ℓ} (A : Type ℓ) : Type ℓ where
  ok : A → Oidc A
  oidc_error : OidcError → Oidc A
  crash : Exc → Oidc A

-- `_state_store[state]`
pub record StoredState : Type 0 where
  pub provider_id : String
  pub nonce : String
  pub code_verifier : String
  pub expires_at : ℕ

-- `_device_code_store[device_code]`
pub record StoredDevice : Type 0 where
  pub provider_id : String
  pub client_id : String
  pub client_secret : String
  pub interval : ℕ
  pub expires_at : ℕ
