-- ===== src/Auth/Login.antt =====
-- backend/app/api/routes/oidc_auth.py: the handler of the login, and what it shares with the callback. A text of the
-- configuration (issuer, client id, secret, redirect URI) that is no string is taken as failing at once.
pub mod Callback
pub mod Laws
mod Tests
use finna_app.Prelude.{
  ℕ, ◌+◌, ◌*◌, String, ◌++ₛ◌, Bool, true, false, not, ◌&&◌, Option, none, some, List, [], ◌∷◌, ◌==◌,
  if◌then◌else◌, length,
}
use finna_app.Prelude.Dict.{Dict}
use finna_app.Python.Value.{
  Value, bool, null, str, arr, obj, Items, nil, cons, Fields, end, field, get_or, truthy, or_else,
  Builtins, to_str,
}
use finna_app.Python.Try.{Try, ok, raise, Exc, attribute_error, type_error, db_error}
use finna_app.Web.{Response, body, http_error, crash}
use finna_app.Auth.Oidc.{Oidc, OidcError, no_id_token, provider_mismatch, second}
use finna_app.Auth.Oidc.States.{States, store_state, validate_and_consume_state}
use finna_app.Auth.Oidc.Discovery.{
  Network, World, Action, continue, ◌>>=◌, lift, as_dict, discover_provider, exchange_code,
}
use finna_app.Auth.Oidc.Verify.{Jose, verify_id_token}
use finna_app.Auth.RateLimit.{check_rate_limit}
use finna_app.Auth.Claims.{Judged, refused_400, refused_403, welcome, judge_claims}
use finna_app.Auth.Users.{
  RowId, id_text, as_uuid, equals_id, User, subject_param, find_user, insert_user, update_admin,
}

-- A row of `auth_providers`, with the configuration that `decrypt_config` makes of it.
pub record Provider : Type 0 where
  pub id : RowId
  pub enabled : Bool
  pub kind : String
  pub config : Value

-- What the handlers change: the caches, the login states, the users and the two logs of attempts.
pub record Server : Type 0 where
  pub world : World
  pub states : States
  pub users : List User
  pub login_attempts : Dict (List ℕ)
  pub callback_attempts : Dict (List ℕ)

-- SELECT … FROM auth_providers WHERE id = %s AND enabled = true AND kind = 'oidc'
unfoldable pub find_provider : String → List Provider → Option Provider
find_provider id [] = none
find_provider id (p ∷ providers) =
    if id_text p.id == id && p.enabled && p.kind == "oidc"
    then some p
    else find_provider id providers

-- `config.get(k, "")` as a string
unfoldable pub setting : Fields → String → Oidc String
setting config k = elim (get_or config k (str "")) [
  | str s ↦ Oidc.ok s
  | _ ↦ Oidc.crash attribute_error
]

abbrev pub of_try {ℓ} : {A : Type ℓ} → Try A → Oidc A
of_try (ok a) = Oidc.ok a
of_try (raise e) = Oidc.crash e

-- The `except` clauses of a handler around what its `try` block comes to.
abbrev pub caught {ℓ} : {A : Type ℓ} → Oidc (Response A) → Response A
caught (Oidc.ok r) = r
caught (Oidc.oidc_error e) = http_error 400
caught (Oidc.crash e) = http_error 500

-- `urlencode` and `" ".join`
pub record Urls : Type 0 where
  pub urlencode : Fields → String
  pub join_words : Value → Option String

-- What `secrets` draws for a login: the PKCE pair, the state and the nonce.
pub record Drawn : Type 0 where
  pub code_verifier : String
  pub code_challenge : String
  pub state : String
  pub nonce : String

abbrev pub default_scopes : Value
default_scopes = arr (cons (str "openid") (cons (str "profile") (cons (str "email") nil)))

abbrev or_type_error : Option String → Oidc String
or_type_error none = Oidc.crash type_error
or_type_error (some s) = Oidc.ok s

abbrev with_scopes : Builtins → Urls → Fields → String → String → Drawn → Oidc String → Oidc String
with_scopes py urls metadata client_id redirect_uri drawn (Oidc.ok scope) = Oidc.ok (
    to_str py (get_or metadata "authorization_endpoint" (str ""))
    ++ₛ "?"
    ++ₛ urls.urlencode (
        field "client_id" (str client_id) (
          field "redirect_uri" (str redirect_uri) (
            field "response_type" (str "code") (
              field "scope" (str scope) (
                field "state" (str drawn.state) (
                  field "nonce" (str drawn.nonce) (
                    field "code_challenge" (str drawn.code_challenge)
                      (field "code_challenge_method" (str "S256") end)))))))))
with_scopes py urls metadata client_id redirect_uri drawn (Oidc.oidc_error e) = Oidc.oidc_error e
with_scopes py urls metadata client_id redirect_uri drawn (Oidc.crash e) = Oidc.crash e

-- `build_authorization_url`
unfoldable pub build_authorization_url :
    Builtins → Urls → Fields → String → String → Drawn → Value → Oidc String
build_authorization_url py urls metadata client_id redirect_uri drawn scopes =
    with_scopes py urls metadata client_id redirect_uri drawn
      (or_type_error (urls.join_words (or_else scopes default_scopes)))

-- A dict; anything else has no `get`.
abbrev pub config_of : Value → Try Fields
config_of (obj d) = ok d
config_of _ = raise attribute_error

-- The log of attempts of an address: five in a minute of the monotonic clock.
abbrev pub attempts_limit : ℕ
attempts_limit = 5

module _ (py : Builtins) (urls : Urls) (net : Network) (providers : List Provider) where
  unfoldable pub authorization_url : Fields → Fields → Drawn → Oidc String
  unfolding setting build_authorization_url
  authorization_url config metadata drawn = elim (setting config "client_id") [
    | Oidc.oidc_error e ↦ Oidc.oidc_error e
    | Oidc.crash e ↦ Oidc.crash e
    | Oidc.ok client_id ↦ elim (setting config "redirect_uri") [
      | Oidc.oidc_error e ↦ Oidc.oidc_error e
      | Oidc.crash e ↦ Oidc.crash e
      | Oidc.ok redirect_uri ↦
          build_authorization_url py urls metadata client_id redirect_uri drawn
            (get_or config "scopes" default_scopes)
    ]
  ]

  abbrev pub replied : Drawn → Oidc String → Oidc (Response (String × String))
  replied drawn (Oidc.ok url) = Oidc.ok (body (url, drawn.state))
  replied drawn (Oidc.oidc_error e) = Oidc.oidc_error e
  replied drawn (Oidc.crash e) = Oidc.crash e

  -- From the metadata on: the state is stored with `str(UUID(provider["id"]))`.
  abbrev pub with_uuid :
      Fields → Drawn → Try String → Fields → Server → Oidc (Response (String × String)) × Server
  with_uuid config drawn (raise e) metadata s = (Oidc.crash e, s)
  with_uuid config drawn (ok uuid) metadata s = (
    replied drawn (authorization_url config metadata drawn),
    record s {
      states = store_state s.world.now drawn.state uuid drawn.nonce drawn.code_verifier s.states;
    },
  )

  abbrev pub with_metadata :
      RowId → Fields → Drawn → Oidc Fields → Server → Oidc (Response (String × String)) × Server
  with_metadata id config drawn (Oidc.oidc_error e) s = (Oidc.oidc_error e, s)
  with_metadata id config drawn (Oidc.crash e) s = (Oidc.crash e, s)
  with_metadata id config drawn (Oidc.ok metadata) s =
      with_uuid config drawn (as_uuid id) metadata s

  unfoldable pub issuer_metadata : Fields → Action Fields
  unfolding setting discover_provider
  issuer_metadata config = do issuer ← lift (setting config "issuer"); discover_provider net issuer

  -- The `try` block of `oidc_login`.
  unfoldable pub login_body :
      RowId → Fields → Drawn → Server → Oidc (Response (String × String)) × Server
  unfolding issuer_metadata authorization_url as_uuid
  login_body id config drawn s =
      let (metadata, world) = issuer_metadata config s.world in
      with_metadata id config drawn metadata (record s { world = world })

  abbrev pub finish_login :
      Oidc (Response (String × String)) × Server → Response (String × String) × Server
  finish_login (r, s) = (caught r, s)

  abbrev pub login_with : RowId → Drawn → Try Fields → Server → Response (String × String) × Server
  login_with id drawn (raise e) s = (crash e, s)
  login_with id drawn (ok config) s = finish_login (login_body id config drawn s)

  abbrev pub login_at : Drawn → Option Provider → Server → Response (String × String) × Server
  login_at drawn none s = (http_error 404, s)
  login_at drawn (some p) s = login_with p.id drawn (config_of p.config) s

  -- `oidc_login` from an address, at a time of the monotonic clock: the authorization URL and the state.
  unfoldable pub oidc_login :
      String → ℕ → String → Drawn → Server → Response (String × String) × Server
  unfolding login_body find_provider check_rate_limit
  oidc_login ip clock provider_id drawn s =
      let (limited, attempts) =
        check_rate_limit ip s.login_attempts attempts_limit (60 * second) clock in
      let counted = record s { login_attempts = attempts } in
      if limited
      then (http_error 429, counted)
      else login_at drawn (find_provider provider_id providers) counted
