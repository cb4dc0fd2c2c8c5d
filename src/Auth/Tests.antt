-- ===== src/Auth/Tests.antt =====
-- The theorems on logins at concrete inputs: a provider that publishes one key, and the token of one
-- user.
use finna_app.Prelude.{
  eq_iff, arith, ℕ, ◌<◌, ◌≢◌, ◌↔◌, ◌+◌, ◌≤◌, ◌≡◌, refl, String, true, false, Option, none, some,
  List, [], ◌∷◌,
}
use finna_app.Prelude.Dict.{HasDistinctKeys, contains, insert, lookup}
use finna_app.Python.Decimal.{of_nat}
use finna_app.Python.Value.{
  Value, num, str, arr, obj, Fields, end, field, nil, cons, get_or, get?, truthy,
}
use finna_app.Auth.RateLimit.Window.{admissions, IsMonotone, admissions_limit, count_live}
use finna_app.Auth.Oidc.{Oidc, ok, oidc_error, invalid_state, StoredDevice, discovery_cache_ttl}
use finna_app.Auth.Oidc.States.{States, store_state, validate_and_consume_state}
use finna_app.Auth.Oidc.States.Laws.{validate_once}
use finna_app.Auth.Oidc.Devices.{Devices, store_device_code, get_and_consume_device_code}
use finna_app.Auth.Oidc.Devices.Laws.{device_code_once}
use finna_app.Auth.Oidc.Discovery.{
  Network, response, World, discover_provider, fetch_metadata, rstrip_slash, fetch_jwks, get_jwks,
  has_endpoints,
}
use finna_app.Auth.Oidc.Verify.{
  Jose, claims_of, require_issuer, verify_id_token, verify_id_token_no_nonce, check_claims,
  check_exp, check_iat, decode_with_keys, find_key,
}
use finna_app.Auth.Oidc.Verify.Laws.{Trusted, verify_id_token_no_nonce-Trusted, verify_id_token_iff}

abbrev metadata : Fields
metadata = field "issuer" (str "https://i") (
    field "authorization_endpoint" (str "https://i/a")
      (field "token_endpoint" (str "https://i/t") (field "jwks_uri" (str "https://i/k") end)))

abbrev rsa_key : Fields
rsa_key = field "kid" (str "k1") (field "alg" (str "RS256") end)

abbrev keys : Value
keys = obj (field "keys" (arr (cons (obj rsa_key) nil)) end)

-- The metadata and the keys are replies to the same request here: one object holds both.
abbrev published : Fields
published = field "keys" (arr (cons (obj rsa_key) nil)) metadata

abbrev net : Network
net = record {
  get_url = λ now url. (response 200 (some (obj published)), now + 1);
  post_form = λ now url form. (response 200 (some (obj end)), now + 1);
}

abbrev claims : Fields
claims =
    field "iss" (str "https://i")
      (field "aud" (str "finna") (field "exp" (num (of_nat 100)) (field "nonce" (str "n1") end)))

abbrev jose : Jose
jose = record {
  unverified_header = λ token. some rsa_key;
  decode = λ token key alg. claims_of claims;
}

abbrev world : World
world = record { now = 5; discovery = []; jwks = [] }

token_accepted : (verify_id_token_no_nonce net jose "token" metadata "finna" world).0 ≡ ok claims
unfolding verify_id_token_no_nonce truthy get_or get_jwks discover_provider lookup fetch_metadata
    has_endpoints fetch_jwks decode_with_keys find_key check_claims check_exp check_iat
token_accepted = refl

verify_id_token_no_nonce-Trusted_example :
    (issuer : String) × (require_issuer metadata ≡ ok issuer)
    × Trusted net jose "token" issuer "finna" world
        (verify_id_token_no_nonce net jose "token" metadata "finna" world).1
        claims
verify_id_token_no_nonce-Trusted_example =
    verify_id_token_no_nonce-Trusted net jose "token" metadata "finna" world claims token_accepted

verify_id_token_iff_example :
    ((verify_id_token net jose "token" metadata "finna" "n1" world).0 ≡ ok claims) ↔ (
      ((verify_id_token_no_nonce net jose "token" metadata "finna" world).0 ≡ ok claims)
      × (get_or claims "nonce" (str "") ≡ str "n1"))
verify_id_token_iff_example =
    verify_id_token_iff net jose "token" metadata "finna" "n1" world claims

abbrev fetched : Oidc Fields × World
fetched = fetch_metadata net (rstrip_slash "https://i/") world

abbrev later_world : World
later_world = record (fetched.1) { now = 7 }

metadata_fetched : fetched.0 ≡ ok published
unfolding fetch_metadata has_endpoints get?
metadata_fetched = refl

still_fresh : 7 < fetched.1.now + discovery_cache_ttl
still_fresh = omega arith

abbrev Differ : String → String → Type 0
Differ s t = s ≢ t

abbrev stored : States
stored = store_state 10 "s1" "p1" "n1" "v1" []

absurd_test : false ≡ true → ⊥
absurd_test h = cc

s1_other : Differ "s1" "s2"
s1_other h = absurd_test (((eq_iff "s1" "s2").1 h))

validate_once_example :
    ((validate_and_consume_state 30 "s1" (validate_and_consume_state 20 "s1" stored).1).0
      ≡ oidc_error invalid_state)
    × ((validate_and_consume_state 30 "s2" (validate_and_consume_state 20 "s1" stored).1).0
        ≡ (validate_and_consume_state 30 "s2" stored).0)
validate_once_example = validate_once 20 30 "s1" "s2" stored s1_other

abbrev device_stored : Devices
device_stored = store_device_code 10 "c1" "p1" "id" "secret" 5 300 []

abbrev device_taken : Option StoredDevice × Devices
device_taken = get_and_consume_device_code 20 "c1" device_stored

c1_other : Differ "c1" "c2"
c1_other h = absurd_test ((eq_iff "c1" "c2").1 h)

device_code_once_example :
    (device_taken.0
      ≡ some (record {
        provider_id = "p1";
        client_id = "id";
        client_secret = "secret";
        interval = 5;
        expires_at = 310;
      }))
    × ((get_and_consume_device_code 30 "c1" device_taken.1).0 ≡ none)
    × ((get_and_consume_device_code 30 "c2" device_taken.1).0
        ≡ (get_and_consume_device_code 30 "c2" []).0)
device_code_once_example = device_code_once 10 20 30 "c1" "c2" "p1" "id" "secret" 5 300 [] c1_other

device_distinct : HasDistinctKeys device_stored
unfolding store_device_code insert contains
device_distinct = (refl, tt)

abbrev requests : List (String × ℕ)
requests = ("a", 1) ∷ ("a", 2) ∷ ("b", 2) ∷ ("a", 3) ∷ []

monotone : IsMonotone 2 60 0 requests
monotone = (omega arith, (omega arith, (omega arith, (omega arith, tt))))

-- Two attempts in 60: the third of one address is not admitted.
admissions_limit_example : count_live 60 4 (admissions 2 60 "a" requests [] []) ≤ 2
admissions_limit_example = admissions_limit 2 60 "a" 0 4 requests monotone (omega arith)
