-- ===== src/Auth/Login/Callback.antt =====
-- backend/app/api/routes/oidc_auth.py: the handler of the callback, from the state to the token of the user.
use finna_app.Prelude.{
  ℕ, ◌*◌, String, Bool, true, false, Option, none, some, List, ◌==◌, if◌then◌else◌,
}
use finna_app.Python.Value.{Value, bool, str, arr, obj, nil, Fields, end, get_or, truthy}
use finna_app.Python.Try.{Try, ok, raise, attribute_error, db_error}
use finna_app.Web.{Response, body, http_error, crash}
use finna_app.Auth.Oidc.{Oidc, no_id_token, provider_mismatch, second}
use finna_app.Auth.Oidc.States.{validate_and_consume_state}
use finna_app.Auth.Oidc.Discovery.{
  Network, World, Action, ◌>>=◌, lift, as_dict, discover_provider, exchange_code,
}
use finna_app.Auth.Oidc.Verify.{Jose, verify_id_token}
use finna_app.Auth.RateLimit.{check_rate_limit}
use finna_app.Auth.Claims.{Judged, refused_400, refused_403, welcome, judge_claims}
use finna_app.Auth.Users.{
  RowId, id_text, equals_id, User, subject_param, find_user, insert_user, update_admin,
}
use finna_app.Auth.Login.{
  Provider, Server, find_provider, setting, caught, config_of, attempts_limit,
}

-- The token and the user that a login comes to.
pub record LoginReply : Type 0 where
  pub token : String
  pub user_id : ℕ
  pub username : String

-- `create_access_token`, of a name and the admin flag at a time; and the next number of the users' sequence.
pub record Issuer : Type 0 where
  pub sign : String → Bool → ℕ → String
  pub next_id : ℕ
  pub password_required : Bool

module _ (net : Network) (jose : Jose) (issue : Issuer) (providers : List Provider) where
  abbrev pub Outcome : Type 0
  Outcome = Oidc (Response LoginReply) × Server

  unfoldable pub logged_in : ℕ → String → Bool → Server → Outcome
  logged_in id username is_admin s = (
    Oidc.ok (
        body (record {
          token = issue.sign username is_admin s.world.now;
          user_id = id;
          username = username;
        })),
    s,
  )

  abbrev pub provisioned : User → Try (List User) → Server → Outcome
  provisioned new (raise e) s = (Oidc.crash e, s)
  provisioned new (ok users) s =
      logged_in new.id new.username new.is_admin (record s { users = users })

  abbrev pub new_user : RowId → Option String → String → String → Bool → User
  new_user id subject username email is_admin = record {
    id = issue.next_id;
    username = username;
    email = email;
    is_active = true;
    is_admin = is_admin;
    provider_id = some (id_text id);
    subject = subject;
  }

  -- A name that is no string is refused by the column.
  unfoldable pub provision : RowId → Option String → Value → String → Bool → Server → Outcome
  unfolding insert_user logged_in
  provision id subject (str username) email is_admin s =
      let new = new_user id subject username email is_admin in
      provisioned new (insert_user issue.password_required new s.users) s
  provision id subject username email is_admin s = (Oidc.crash db_error, s)

  -- The user that was found, or a new one where the provider provisions users.
  unfoldable pub with_user :
      RowId → Fields → Option String → Value → String → Bool → Option User → Server → Outcome
  unfolding provision update_admin logged_in
  with_user id config subject username email is_admin none s =
      if truthy (get_or config "auto_provision" (bool false))
      then provision id subject username email is_admin s
      else (Oidc.ok (http_error 403), s)
  with_user id config subject username email is_admin (some u) s =
      logged_in u.id u.username is_admin (record s { users = update_admin u.id is_admin s.users })

  abbrev pub with_subject :
      RowId → Fields → Value → String → Bool → Try (Option String) → Server → Outcome
  with_subject id config username email is_admin (raise e) s = (Oidc.crash e, s)
  with_subject id config username email is_admin (ok subject) s =
      with_user id config subject username email is_admin (find_user (id_text id) subject s.users) s

  abbrev pub with_judged : RowId → Fields → Fields → Try Judged → Server → Outcome
  with_judged id config claims (raise e) s = (Oidc.crash e, s)
  with_judged id config claims (ok refused_400) s = (Oidc.ok (http_error 400), s)
  with_judged id config claims (ok refused_403) s = (Oidc.ok (http_error 403), s)
  with_judged id config claims (ok (welcome username email is_admin)) s =
      with_subject id config username email is_admin (subject_param (get_or claims "sub" (str "")))
        s

  abbrev pub as_mappings : Value → Try Fields
  as_mappings (obj d) = ok d
  as_mappings _ = raise attribute_error

  abbrev pub judged : Fields → Fields → Try Fields → Try Judged
  judged config claims (ok mappings) =
      judge_claims claims mappings (get_or config "allowed_email_domains" (arr nil))
  judged config claims (raise e) = raise e

  abbrev pub with_claims : RowId → Fields → Oidc Fields → Server → Outcome
  with_claims id config (Oidc.oidc_error e) s = (Oidc.oidc_error e, s)
  with_claims id config (Oidc.crash e) s = (Oidc.crash e, s)
  with_claims id config (Oidc.ok claims) s =
      with_judged id config claims
        (judged config claims (as_mappings (get_or config "claim_mappings" (obj end)))) s

  -- A token that is no string has no `get_unverified_header`.
  unfoldable pub token_of : Value → Oidc String
  token_of (str t) = if t == "" then Oidc.oidc_error no_id_token else Oidc.ok t
  token_of v = if truthy v then Oidc.crash attribute_error else Oidc.oidc_error no_id_token

  -- From the code to the claims of the verified token.
  unfoldable pub claims_of_code : Fields → String → String → String → Action Fields
  unfolding setting discover_provider exchange_code as_dict token_of verify_id_token
  claims_of_code config authorization_code code_verifier nonce = do
    issuer ← lift (setting config "issuer")
    metadata ← discover_provider net issuer
    client_id ← lift (setting config "client_id")
    client_secret ← lift (setting config "client_secret")
    redirect_uri ← lift (setting config "redirect_uri")
    reply ←
        exchange_code net metadata client_id client_secret authorization_code code_verifier
          redirect_uri
    tokens ← lift (as_dict reply)
    id_token ← lift (token_of (get_or tokens "id_token" (str "")))
    verify_id_token net jose id_token metadata client_id nonce

  abbrev pub with_code : RowId → Fields → Oidc Fields × World → Server → Outcome
  with_code id config (claims, world) s = with_claims id config claims (record s { world = world })

  abbrev pub with_state :
      RowId → Fields → String → Oidc (String × String × String) → Server → Outcome
  with_state id config authorization_code (Oidc.oidc_error e) s = (Oidc.oidc_error e, s)
  with_state id config authorization_code (Oidc.crash e) s = (Oidc.crash e, s)
  with_state id config authorization_code (Oidc.ok (provider_id, nonce, code_verifier)) s =
      if equals_id provider_id id
      then with_code id config
          (claims_of_code config authorization_code code_verifier nonce s.world) s
      else (Oidc.oidc_error provider_mismatch, s)

  -- The `try` block of `oidc_callback`.
  unfoldable pub callback_body : RowId → Fields → String → String → Server → Outcome
  unfolding with_user claims_of_code validate_and_consume_state equals_id
  callback_body id config authorization_code state s =
      let (stored, states) = validate_and_consume_state s.world.now state s.states in
      with_state id config authorization_code stored (record s { states = states })

  abbrev pub finish_callback : Outcome → Response LoginReply × Server
  finish_callback (r, s) = (caught r, s)

  abbrev pub callback_with :
      RowId → String → String → Try Fields → Server → Response LoginReply × Server
  callback_with id authorization_code state (raise e) s = (crash e, s)
  callback_with id authorization_code state (ok config) s =
      finish_callback (callback_body id config authorization_code state s)

  abbrev pub callback_at : String → String → Option Provider → Server → Response LoginReply × Server
  callback_at authorization_code state none s = (http_error 404, s)
  callback_at authorization_code state (some p) s =
      callback_with p.id authorization_code state (config_of p.config) s

  -- `oidc_callback`
  unfoldable pub oidc_callback :
      String → ℕ → String → String → String → Server → Response LoginReply × Server
  unfolding callback_body find_provider check_rate_limit
  oidc_callback ip clock provider_id authorization_code state s =
      let (limited, attempts) =
        check_rate_limit ip s.callback_attempts attempts_limit (60 * second) clock in
      let counted = record s { callback_attempts = attempts } in
      if limited
      then (http_error 429, counted)
      else callback_at authorization_code state (find_provider provider_id providers) counted
