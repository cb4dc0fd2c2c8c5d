-- ===== src/Auth/Oidc/Discovery.antt =====
-- Discovery, keys and token exchange of backend/app/api/oidc.py, with their caches.
pub mod Laws
use Prim.Native.Char.{code}
use finna_app.Prelude.{
  ℕ, ◌-◌, not, String, ◌++ₛ◌, Bool, true, false, ◌&&◌, Option, none, some, List, [], ◌∷◌, ◌==◌, ltb,
  leb, eqb, if◌then◌else◌,
}
use finna_app.Prelude.Dict.{Dict, lookup, insert}
use finna_app.Python.Value.{
  Value, null, bool, num, str, arr, obj, Items, Fields, end, field, get?, get_or, truthy,
}
use finna_app.Python.Try.{Exc, attribute_error, type_error, value_error}
use finna_app.Auth.Oidc.{
  Oidc, ok, oidc_error, crash, OidcError, discovery_failed, missing_endpoints, no_jwks_uri,
  jwks_failed, no_token_endpoint, exchange_failed, discovery_cache_ttl, jwks_cache_ttl,
}

-- A request fails, or a response has a status and a body, which may be no JSON.
pub data HttpReply : Type 0 where
  request_error : HttpReply
  response : ℕ → Option Value → HttpReply

-- The network: a reply to a request made at a time, and the time when it is there.
pub record Network : Type 0 where
  pub get_url : ℕ → String → HttpReply × ℕ
  pub post_form : ℕ → String → Fields → HttpReply × ℕ

-- The clock, `_discovery_cache` and `_jwks_cache`.
pub record World : Type 0 where
  pub now : ℕ
  pub discovery : Dict (Fields × ℕ)
  pub jwks : Dict (Value × ℕ)

abbrev pub Action : Type 0 → Type 0
Action A = World → Oidc A × World

abbrev pub continue : {A B : Type 0} → Oidc A → (A → Action B) → Action B
continue (ok a) f w = f a w
continue (oidc_error e) f w = (oidc_error e, w)
continue (crash e) f w = (crash e, w)

infixl 5 ◌>>=◌
abbrev pub ◌>>=◌ : {A B : Type 0} → Action A → (A → Action B) → Action B
◌>>=◌ m f w = let (r, w') = m w in continue r f w'

abbrev pub lift : {A : Type 0} → Oidc A → Action A
lift r w = (r, w)

-- `response.raise_for_status()`, `response.json()`
unfoldable pub json_body : OidcError → HttpReply → Oidc Value
json_body e request_error = oidc_error e
json_body e (response status body) =
    if leb 200 status && ltb status 300
    then elim body [ none ↦ crash value_error | some v ↦ ok v ]
    else oidc_error e

unfoldable pub as_dict : Value → Oidc Fields
as_dict (obj d) = ok d
as_dict _ = crash attribute_error

-- A URL that is no string cannot be requested.
unfoldable pub as_url : Value → Oidc String
as_url (str s) = ok s
as_url _ = crash type_error

-- `issuer.rstrip("/")`
unfoldable pub rstrip_slash : String → String
rstrip_slash String.[] = ""
rstrip_slash (String.◌∷◌ c s) =
    let rest = rstrip_slash s in if rest == "" && eqb (code c) b'/' then "" else String.◌∷◌ c rest

abbrev has : Fields → String → Bool
has d k = elim (get? d k) [ none ↦ false | some v ↦ true ]

-- The keys without which discovery fails.
unfoldable pub has_endpoints : Fields → Bool
has_endpoints d = has d "authorization_endpoint" && has d "token_endpoint" && has d "jwks_uri"

require_endpoints : Fields → Oidc Fields
require_endpoints metadata =
    if has_endpoints metadata then ok metadata else oidc_error missing_endpoints

unfoldable pub get_json : Network → OidcError → String → Action Value
unfolding json_body
get_json net e url w =
    let (reply, later) = net.get_url w.now url in (json_body e reply, record w { now = later })

unfoldable pub post_json : Network → OidcError → String → Fields → Action Value
unfolding json_body
post_json net e url form w =
    let (reply, later) = net.post_form w.now url form in
    (json_body e reply, record w { now = later })

remember_metadata : String → Fields → Action Fields
remember_metadata issuer metadata w =
    (ok metadata, record w { discovery = insert issuer (metadata, w.now) w.discovery })

unfoldable pub fetch_metadata : Network → String → Action Fields
unfolding get_json as_dict require_endpoints remember_metadata
fetch_metadata net issuer = do
  body ← get_json net discovery_failed (issuer ++ₛ "/.well-known/openid-configuration")
  metadata ← lift (as_dict body)
  checked ← lift (require_endpoints metadata)
  remember_metadata issuer checked

-- A cached entry that is younger than `ttl`, or the other action.
abbrev fresh_or : {A : Type 0} → ℕ → Option (A × ℕ) → Action A → Action A
fresh_or ttl none fetch w = fetch w
fresh_or ttl (some (a, cached_at)) fetch w =
    if ltb (w.now - cached_at) ttl then (ok a, w) else fetch w

unfoldable pub discover_provider : Network → String → Action Fields
unfolding rstrip_slash
discover_provider net issuer w =
    let stripped = rstrip_slash issuer in
    fresh_or discovery_cache_ttl (lookup stripped w.discovery) (fetch_metadata net stripped) w

remember_jwks : String → Value → Action Value
remember_jwks uri jwks w = (ok jwks, record w { jwks = insert uri (jwks, w.now) w.jwks })

unfoldable pub fetch_jwks : Network → String → Action Value
unfolding get_json remember_jwks
fetch_jwks net uri = do jwks ← get_json net jwks_failed uri; remember_jwks uri jwks

cached_jwks : Network → String → Action Value
cached_jwks net uri w = fresh_or jwks_cache_ttl (lookup uri w.jwks) (fetch_jwks net uri) w

unfoldable pub get_jwks : Network → String → Action Value
unfolding cached_jwks as_url
get_jwks net issuer = do
  metadata ← discover_provider net issuer
  if not (truthy (get_or metadata "jwks_uri" (str "")))
      then lift (oidc_error no_jwks_uri)
      else do uri ← lift (as_url (get_or metadata "jwks_uri" (str ""))); cached_jwks net uri

code_form : String → String → String → String → String → Fields
code_form client_id client_secret authorization_code code_verifier redirect_uri =
    field "grant_type" (str "authorization_code") (
      field "client_id" (str client_id) (
        field "client_secret" (str client_secret) (
          field "code" (str authorization_code) (
            field "redirect_uri" (str redirect_uri)
              (field "code_verifier" (str code_verifier) end)))))

-- `exchange_code`
unfoldable pub exchange_code :
    Network → Fields → String → String → String → String → String → Action Value
unfolding post_json as_url code_form
exchange_code net metadata client_id client_secret authorization_code code_verifier redirect_uri =
    if not (truthy (get_or metadata "token_endpoint" (str "")))
    then lift (oidc_error no_token_endpoint)
    else do
      url ← lift (as_url (get_or metadata "token_endpoint" (str "")))
      post_json net exchange_failed url
          (code_form client_id client_secret authorization_code code_verifier redirect_uri)
