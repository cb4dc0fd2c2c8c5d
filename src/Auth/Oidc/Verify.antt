-- ===== src/Auth/Oidc/Verify.antt =====
-- `verify_id_token` and `verify_id_token_no_nonce` of backend/app/api/oidc.py. `Jose` is the JWT
-- library: the unverified header of a token, and its claims under a key and an algorithm.
pub mod Keys
pub mod Laws
use text.Mathlib.Text.{starts_with}
use finna_app.Prelude.{
  ℕ, ◌+◌, ◌*◌, String, Bool, true, false, not, ◌&&◌, ◌||◌, Option, none, some, List, [], ◌∷◌, ◌==◌,
  eqb, if◌then◌else◌,
}
use finna_app.Python.Decimal.{of_nat, Decimal, less}
use finna_app.Python.Value.{
  Value, null, bool, num, str, arr, obj, Items, nil, cons, Fields, end, field, get, get_or, truthy,
}
use finna_app.Python.Try.{Exc, attribute_error, type_error}
use finna_app.Auth.Oidc.{
  Oidc, ok, oidc_error, crash, OidcError, missing_issuer, no_keys, invalid_token_format,
  insecure_algorithm, no_suitable_key, token_expired, claims_invalid, bad_signature, iat_in_future,
  issuer_mismatch, audience_mismatch, nonce_mismatch, second,
}
use finna_app.Auth.Oidc.Discovery.{Network, World, Action, ◌>>=◌, lift, as_dict, as_url, get_jwks}

-- `jwt.decode`: the claims, or what it raises.
pub data Decoded : Type 0 where
  claims_of : Fields → Decoded
  expired_signature : Decoded
  invalid_claims : Decoded
  invalid_signature : Decoded

pub record Jose : Type 0 where
  pub unverified_header : String → Option Fields
  pub decode : String → Fields → String → Decoded

-- `==` of key ids, which are strings or None; other values are taken as different.
unfoldable pub same_kid : Value → Value → Bool
same_kid null null = true
same_kid (str a) (str b) = a == b
same_kid _ _ = false

-- `for k in keys: k.get(...)` of keys that are not empty: a dict or a string gives strings.
unfoldable pub as_keys : Value → Oidc Items
as_keys (arr vs) = ok vs
as_keys (obj d) = crash attribute_error
as_keys (str s) = crash attribute_error
as_keys _ = crash type_error

-- The first key with the token's key id.
unfoldable pub key_by_kid : Value → Items → Oidc (Option Fields)
unfolding as_dict same_kid
key_by_kid kid nil = ok none
key_by_kid kid (cons v vs) =
    let rest = key_by_kid kid vs in
    elim (as_dict v) [
      | ok k ↦ if same_kid (get k "kid") kid then ok (some k) else rest
      | oidc_error e ↦ oidc_error e
      | crash e ↦ crash e
    ]

unfoldable pub as_alg : Value → Oidc String
as_alg (str s) = ok s
as_alg _ = crash attribute_error

-- The first key for an RS* or ES* algorithm.
unfoldable pub asymmetric_key : Items → Oidc (Option Fields)
unfolding as_dict as_alg
asymmetric_key nil = ok none
asymmetric_key (cons v vs) =
    let rest = asymmetric_key vs in
    elim (as_dict v) [
      | ok k ↦ elim (as_alg (get_or k "alg" (str ""))) [
        | ok alg ↦ if starts_with alg "RS" || starts_with alg "ES" then ok (some k) else rest
        | oidc_error e ↦ oidc_error e
        | crash e ↦ crash e
      ]
      | oidc_error e ↦ oidc_error e
      | crash e ↦ crash e
    ]

-- An empty key counts as none.
abbrev pub usable : Option Fields → Bool
usable none = false
usable (some k) = truthy (obj k)

abbrev pub or_no_key : Option Fields → Oidc Fields
or_no_key none = oidc_error no_suitable_key
or_no_key (some k) = if truthy (obj k) then ok k else oidc_error no_suitable_key

abbrev pub bind {ℓ κ} : {A : Type ℓ} {B : Type κ} → Oidc A → (A → Oidc B) → Oidc B
bind (ok a) f = f a
bind (oidc_error e) f = oidc_error e
bind (crash e) f = crash e

abbrev pub find_in : Value → Items → Oidc Fields
find_in kid keys =
    bind (key_by_kid kid keys)
      λ found. if usable found then or_no_key found else bind (asymmetric_key keys) or_no_key

unfoldable pub find_key : Value → Value → Oidc Fields
unfolding key_by_kid asymmetric_key as_keys
find_key kid keys = bind (as_keys keys) (find_in kid)

unfoldable pub insecure : String → Bool
insecure alg = alg == "none" || starts_with alg "HS"

unfoldable pub from_decoded : Decoded → Oidc Fields
from_decoded (claims_of claims) = ok claims
from_decoded expired_signature = oidc_error token_expired
from_decoded invalid_claims = oidc_error claims_invalid
from_decoded invalid_signature = oidc_error bad_signature

unfoldable pub require_header : Option Fields → Oidc Fields
require_header none = oidc_error invalid_token_format
require_header (some header) = ok header

-- From the header to the decoded claims.
abbrev pub decode_as : Jose → String → Value → Fields → String → Oidc Fields
decode_as jose id_token keys header alg =
    if insecure alg
    then oidc_error insecure_algorithm
    else bind (find_key (get header "kid") keys) λ key. from_decoded (jose.decode id_token key alg)

abbrev pub decode_under : Jose → String → Value → Fields → Oidc Fields
decode_under jose id_token keys header =
    bind (as_alg (get_or header "alg" (str ""))) (decode_as jose id_token keys header)

unfoldable pub decode_with_keys : Jose → String → Value → Oidc Fields
unfolding as_alg insecure from_decoded require_header
decode_with_keys jose id_token keys =
    bind (require_header (jose.unverified_header id_token)) (decode_under jose id_token keys)

-- `datetime.now(UTC).timestamp()`
abbrev timestamp : ℕ → Decimal
timestamp micros = record { negative = false; coefficient = micros; places = 6 }

-- A boolean compares as 0 or 1.
abbrev pub number : Bool → Decimal
number b = of_nat (if b then 1 else 0)

-- `not exp or exp < now`; any other truthy value cannot be compared.
unfoldable pub check_exp : ℕ → Value → Oidc (Unit {0})
unfolding less
check_exp now (num t) =
    if not (truthy (num t)) || less t (timestamp now) then oidc_error token_expired else ok tt
check_exp now (bool b) =
    let t = number b in if not b || less t (timestamp now) then oidc_error token_expired else ok tt
check_exp now v = if truthy v then crash type_error else oidc_error token_expired

-- `iat and iat > now + 300`
unfoldable pub check_iat : ℕ → Value → Oidc (Unit {0})
unfolding less
check_iat now (num t) =
    if truthy (num t) && less (timestamp (now + 300 * second)) t
    then oidc_error iat_in_future
    else ok tt
check_iat now (bool b) =
    if b && less (timestamp (now + 300 * second)) (number b)
    then oidc_error iat_in_future
    else ok tt
check_iat now v = if truthy v then crash type_error else ok tt

unfoldable pub is_text : String → Value → Bool
is_text s (str t) = t == s
is_text s _ = false

unfoldable pub lists_text : String → Items → Bool
unfolding is_text
lists_text s nil = false
lists_text s (cons v vs) = is_text s v || lists_text s vs

unfoldable pub check_iss : String → Value → Oidc (Unit {0})
unfolding is_text
check_iss issuer v = if is_text issuer v then ok tt else oidc_error issuer_mismatch

unfoldable pub is_audience : String → Value → Bool
unfolding is_text lists_text
is_audience client_id (arr vs) = lists_text client_id vs
is_audience client_id v = is_text client_id v

unfoldable pub check_aud : String → Value → Oidc (Unit {0})
unfolding is_audience
check_aud client_id v = if is_audience client_id v then ok tt else oidc_error audience_mismatch

unfoldable pub check_nonce : String → Value → Oidc (Unit {0})
unfolding is_text
check_nonce nonce v = if is_text nonce v then ok tt else oidc_error nonce_mismatch

-- The checks that both functions make.
unfoldable pub check_claims : ℕ → String → String → Fields → Oidc Fields
unfolding check_iss check_aud
check_claims now issuer client_id claims = bind (check_exp now (get claims "exp")) λ _.
    bind (check_iat now (get claims "iat")) λ _.
      bind (check_iss issuer (get_or claims "iss" (str "")))
        λ _. bind (check_aud client_id (get claims "aud")) λ _. ok claims

unfoldable pub keys_of : Value → Oidc Value
unfolding as_dict
keys_of jwks = bind (as_dict jwks) λ d.
    if truthy (get_or d "keys" (arr nil))
    then ok (get_or d "keys" (arr nil))
    else oidc_error no_keys

unfoldable pub require_issuer : Fields → Oidc String
unfolding as_url
require_issuer metadata =
    if truthy (get_or metadata "issuer" (str ""))
    then as_url (get_or metadata "issuer" (str ""))
    else oidc_error missing_issuer

unfoldable pub with_clock : {A : Type 0} → (ℕ → Oidc A) → Action A
with_clock f w = (f w.now, w)

unfoldable pub verify_id_token_no_nonce : Network → Jose → String → Fields → String → Action Fields
unfolding keys_of require_issuer with_clock
verify_id_token_no_nonce net jose id_token metadata client_id = do
  issuer ← lift (require_issuer metadata)
  jwks ← get_jwks net issuer
  keys ← lift (keys_of jwks)
  claims ← lift (decode_with_keys jose id_token keys)
  with_clock (λ now. check_claims now issuer client_id claims)

unfoldable pub verify_id_token : Network → Jose → String → Fields → String → String → Action Fields
unfolding keys_of require_issuer with_clock check_nonce
verify_id_token net jose id_token metadata client_id nonce = do
  issuer ← lift (require_issuer metadata)
  jwks ← get_jwks net issuer
  keys ← lift (keys_of jwks)
  claims ← lift (decode_with_keys jose id_token keys)
  checked ← with_clock (λ now. check_claims now issuer client_id claims)
  lift (bind (check_nonce nonce (get_or checked "nonce" (str ""))) λ _. ok checked)
