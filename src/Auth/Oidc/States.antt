-- ===== src/Auth/Oidc/States.antt =====
-- The login states of backend/app/api/oidc.py: stored at login, consumed once by the callback.
pub mod Laws
use finna_app.Prelude.{
  ℕ, ◌+◌, String, Bool, true, false, not, ◌||◌, Option, none, some, ◌==◌, ltb, if◌then◌else◌,
}
use finna_app.Prelude.Dict.{Dict, lookup, insert, erase, keep_items}
use finna_app.Auth.Oidc.{
  Oidc, ok, oidc_error, invalid_state, state_expired, StoredState, state_expiry,
}

abbrev pub States : Type 0
States = Dict StoredState

unfoldable pub store_state : ℕ → String → String → String → String → States → States
store_state now state provider_id nonce code_verifier states =
    insert state
      (record {
        provider_id = provider_id;
        nonce = nonce;
        code_verifier = code_verifier;
        expires_at = now + state_expiry;
      })
      states

-- The rest of `validate_and_consume_state` for a state that is stored.
unfoldable pub consume :
    ℕ → String → StoredState → States → Oidc (String × String × String) × States
consume now state stored states =
    if ltb stored.expires_at now
    then (oidc_error state_expired, erase state states)
    else (ok (stored.provider_id, stored.nonce, stored.code_verifier), erase state states)

abbrev pub consume_found :
    ℕ → String → Option StoredState → States → Oidc (String × String × String) × States
consume_found now state none states = (oidc_error invalid_state, states)
consume_found now state (some stored) states = consume now state stored states

unfoldable pub validate_and_consume_state :
    ℕ → String → States → Oidc (String × String × String) × States
unfolding consume
validate_and_consume_state now state states =
    if state == ""
    then (oidc_error invalid_state, states)
    else consume_found now state (lookup state states) states

-- The expired keys are collected and popped.
unfoldable pub clear_expired_states : ℕ → States → States
clear_expired_states now states = keep_items (λ _ stored. not (ltb stored.expires_at now)) states
