-- ===== src/Auth/Oidc/States/Laws.antt =====
-- A state is good once, for ten minutes, and for what it was stored with.
use finna_app.Prelude.{
  ℕ, ◌+◌, ◌≤◌, ◌≡◌, ◌≢◌, String, not, Option, none, some, [], arith, ltb, eq_iff, eq_refl,
  if◌then◌else◌, Option-cases,
}
use finna_app.Prelude.Dict.{
  lookup, lookup-insert, lookup-erase, HasDistinctKeys, insert-HasDistinctKeys,
  erase-HasDistinctKeys, keep_items-HasDistinctKeys, lookup-keep_items,
}
use finna_app.Auth.Oidc.{Oidc, ok, oidc_error, crash, invalid_state, state_expired, state_expiry}
use finna_app.Auth.Oidc.States.{
  States, store_state, validate_and_consume_state, clear_expired_states,
}

-- A state that was just stored is accepted until it expires, with what was stored, whatever the
-- store held before.
pub validate-store :
    (now later : ℕ) (state provider_id nonce code_verifier : String) (states : States)
    → state ≢ ""
    → (validate_and_consume_state later state
        (store_state now state provider_id nonce code_verifier states)).0
      ≡ (if ltb (now + state_expiry) later
          then oidc_error state_expired
          else ok (provider_id, nonce, code_verifier))
unfolding validate_and_consume_state store_state
validate-store now later state provider_id nonce code_verifier states h = ground (
  arith,
  eq_iff state "",
  eq_refl state,
  lookup-insert state state
      (record {
        provider_id = provider_id;
        nonce = nonce;
        code_verifier = code_verifier;
        expires_at = now + state_expiry;
      })
      states,
)

-- Once a state has been presented, accepted or not, it is invalid at any later time, and every other
-- state is judged as before.
pub validate_once :
    (now later : ℕ) (state other : String) (states : States)
    → state ≢ other
    → ((validate_and_consume_state later state (validate_and_consume_state now state states).1).0
        ≡ oidc_error invalid_state)
      × ((validate_and_consume_state later other (validate_and_consume_state now state states).1).0
          ≡ (validate_and_consume_state later other states).0)
unfolding validate_and_consume_state
validate_once now later state other states ne = (
  ground (arith, lookup-erase state state states, eq_refl state),
  ground (arith, lookup-erase state other states, eq_iff state other),
)

-- The value of a call that is accepted.
abbrev pub accepted {ℓ} : {A : Type ℓ} → Oidc A → Option A
accepted (ok a) = some a
accepted (oidc_error e) = none
accepted (crash e) = none

-- Clearing the expired states, at any time before, takes no acceptance away and adds none.
pub validate-clear :
    (now later : ℕ) (state : String) (states : States)
    → now ≤ later
    → HasDistinctKeys states
    → accepted (validate_and_consume_state later state (clear_expired_states now states)).0
      ≡ accepted (validate_and_consume_state later state states).0
unfolding validate_and_consume_state clear_expired_states
validate-clear now later state states h d = ground (
  arith,
  lookup-keep_items (λ _ stored. not (ltb stored.expires_at now)) state states d,
  Option-cases (lookup state states),
)

-- The stores that the program can reach from the empty one.
pub data Reachable : States → Type 0 where
  at_start : Reachable []
  by_store :
      {states : States} (now : ℕ) (state provider_id nonce code_verifier : String)
      → Reachable states
      → Reachable (store_state now state provider_id nonce code_verifier states)
  by_validate :
      {states : States} (now : ℕ) (state : String)
      → Reachable states
      → Reachable (validate_and_consume_state now state states).1
  by_clear :
      {states : States} (now : ℕ) → Reachable states → Reachable (clear_expired_states now states)

validate-HasDistinctKeys :
    (now : ℕ) (state : String) (states : States)
    → HasDistinctKeys states
    → HasDistinctKeys (validate_and_consume_state now state states).1
unfolding validate_and_consume_state
validate-HasDistinctKeys now state states h = ground (arith, erase-HasDistinctKeys state states h)

-- No state is stored twice in a store that the program can reach.
pub Reachable-HasDistinctKeys : {states : States} → Reachable states → HasDistinctKeys states
unfolding store_state clear_expired_states
Reachable-HasDistinctKeys at_start = tt
Reachable-HasDistinctKeys (by_store {states} now state provider_id nonce code_verifier r) =
    insert-HasDistinctKeys state
      (record {
        provider_id = provider_id;
        nonce = nonce;
        code_verifier = code_verifier;
        expires_at = now + state_expiry;
      })
      states (Reachable-HasDistinctKeys r)
Reachable-HasDistinctKeys (by_validate {states} now state r) =
    validate-HasDistinctKeys now state states (Reachable-HasDistinctKeys r)
Reachable-HasDistinctKeys (by_clear {states} now r) =
    keep_items-HasDistinctKeys (λ _ stored. not (ltb stored.expires_at now)) states
      (Reachable-HasDistinctKeys r)
