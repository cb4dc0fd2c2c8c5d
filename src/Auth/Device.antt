-- ===== src/Auth/Device.antt =====
-- backend/app/api/routes/oidc_device_auth.py with the requests of the device flow in backend/app/api/oidc.py.
-- An interval or a life time that is no number, and a reply that is no object, are taken as failing at once.
pub mod Start
pub mod Poll
pub mod Laws
mod Tests
use finna_app.Prelude.{
  ℕ, ◌+◌, ◌*◌, String, ◌++ₛ◌, Bool, true, false, not, ◌&&◌, ◌||◌, Option, none, some, List, [], ◌∷◌,
  ◌==◌, if◌then◌else◌, leb, ltb, eqb,
}
use finna_app.Prelude.Dict.{Dict}
use finna_app.Python.Decimal.{truncate, of_nat}
use finna_app.Python.Value.{
  Value, bool, null, num, str, arr, obj, Items, nil, cons, Fields, end, field, get?, get, get_or,
  truthy, or_else, Builtins, to_str,
}
use finna_app.Python.Try.{
  Try, ok, raise, Exc, attribute_error, type_error, value_error, runtime_error,
}
use finna_app.Web.{Response, body, http_error, crash}
use finna_app.Auth.Oidc.{
  Oidc, OidcError, no_id_token, no_token_endpoint, no_device_endpoint, device_request_failed,
  device_data_missing, provider_error, exchange_failed, second, StoredDevice,
}
use finna_app.Auth.Oidc.Devices.{Devices, store_device_code, get_and_consume_device_code}
use finna_app.Auth.Oidc.Discovery.{
  Network, HttpReply, request_error, response, World, Action, continue, ◌>>=◌, lift, as_dict,
  as_url, post_json, discover_provider,
}
use finna_app.Auth.Oidc.Verify.{Jose, verify_id_token_no_nonce}
use finna_app.Auth.RateLimit.{check_rate_limit}
use finna_app.Auth.Users.{RowId, text_id, id_text}
use finna_app.Auth.Login.{
  Provider, Server, find_provider, setting, caught, Urls, default_scopes, config_of, of_try,
}
use finna_app.Auth.Login.Callback.{LoginReply, Issuer, with_claims, token_of}

abbrev pub has : Fields → String → Bool
has d k = elim (get? d k) [ none ↦ false | some v ↦ true ]

scope_form : Urls → String → Value → Oidc Fields
scope_form urls client_id scopes =
    if truthy scopes
    then elim (urls.join_words scopes) [
      | none ↦ Oidc.crash type_error
      | some scope ↦ Oidc.ok (field "client_id" (str client_id) (field "scope" (str scope) end))
    ]
    else Oidc.ok (field "client_id" (str client_id) end)

require_device : Fields → Oidc Fields
require_device d =
    if has d "device_code" && has d "user_code" && has d "verification_uri"
    then Oidc.ok d
    else Oidc.oidc_error device_data_missing

-- `request_device_code`
unfoldable pub request_device_code : Urls → Network → Fields → String → Value → Action Fields
unfolding as_url scope_form post_json as_dict require_device
request_device_code urls net metadata client_id scopes =
    if not (truthy (get_or metadata "device_authorization_endpoint" (str "")))
    then lift (Oidc.oidc_error no_device_endpoint)
    else do
      url ← lift (as_url (get_or metadata "device_authorization_endpoint" (str "")))
      form ← lift (scope_form urls client_id scopes)
      reply ← post_json net device_request_failed url form
      data_dict ← lift (as_dict reply)
      lift (require_device data_dict)

abbrev or_no_json : Option Value → Oidc Value
or_no_json none = Oidc.crash value_error
or_no_json (some v) = Oidc.ok v

-- A reply with status 400 is read like one of success; the error of another status is not caught.
unfoldable pub device_body : HttpReply → Oidc Value
device_body request_error = Oidc.oidc_error exchange_failed
device_body (response status reply) =
    if eqb status 400 || (leb 200 status && ltb status 300)
    then or_no_json reply
    else Oidc.crash runtime_error

device_form : String → String → String → Fields
device_form client_id client_secret device_code =
    field "grant_type" (str "urn:ietf:params:oauth:grant-type:device_code") (
      field "client_id" (str client_id) (
        field "device_code" (str device_code)
          (if client_secret == "" then end else field "client_secret" (str client_secret) end)))

post_device : Network → String → Fields → Action Value
unfolding device_body
post_device net url form w =
    let (reply, later) = net.post_form w.now url form in
    (device_body reply, record w { now = later })

-- `exchange_device_code`
unfoldable pub exchange_device_code : Network → Fields → String → String → String → Action Fields
unfolding as_url post_device device_form as_dict
exchange_device_code net metadata client_id client_secret device_code =
    if not (truthy (get_or metadata "token_endpoint" (str "")))
    then lift (Oidc.oidc_error no_token_endpoint)
    else do
      url ← lift (as_url (get_or metadata "token_endpoint" (str "")))
      reply ← post_device net url (device_form client_id client_secret device_code)
      lift (as_dict reply)

pub record DeviceServer : Type 0 where
  pub server : Server
  pub devices : Devices
  pub start_attempts : Dict (List ℕ)
  pub poll_attempts : Dict (List ℕ)

pub record StartReply : Type 0 where
  pub device_code : String
  pub user_code : Value
  pub verification_uri : Value
  pub verification_uri_complete : Value
  pub expires_in : ℕ
  pub interval : ℕ

-- A number of seconds.
abbrev pub seconds_of : Value → Oidc ℕ
seconds_of (num n) = Oidc.ok (truncate n)
seconds_of _ = Oidc.crash type_error

unfoldable pub text_of : Value → Oidc String
text_of (str s) = Oidc.ok s
text_of _ = Oidc.crash type_error

-- The outcomes of a poll; a login that is completed has a token.
pub data PollReply : Type 0 where
  pending expired denied : PollReply
  completed : LoginReply → PollReply
