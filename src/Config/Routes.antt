-- ===== src/Config/Routes.antt =====
-- backend/app/api/routes/config.py: the handlers of /config. Each begins behind `require_auth`, which is
-- no part of them, and the check of a reply against its model is the framework's.
use finna_app.Prelude.{
  ℕ, String, Bool, true, false, ◌||◌, Option, none, some, List, [], ◌∷◌, ◌==◌, if◌then◌else◌,
}
use finna_app.Python.Value.{Value, null, str, arr, obj, Items, nil, cons, Fields, get?, get}
use finna_app.Python.Dicts.{set_field}
use finna_app.Python.Try.{Try, ok, raise, type_error, attribute_error, ◌>>=◌}
use finna_app.Web.{Response, body, http_error, crash, respond}
use finna_app.Database.{Session, query}
use finna_app.Config.Encryption.{Codecs, Keys, encrypt_config, decrypt_config}
use finna_app.Config.Store.{
  ConfigRow, Configs, cell, json_cell, fetch_config, change_config, store_row, remove_config,
}

-- `if field in masked: masked[field] = "***REDACTED***"`
unfoldable pub mask_field : String → Fields → Fields
unfolding set_field get?
mask_field name d = elim (get? d name) [
  | none ↦ d
  | some _ ↦ set_field name (str "***REDACTED***") d
]

unfoldable pub has_text : String → Items → Bool
has_text s nil = false
has_text s (cons (str t) vs) = if t == s then true else has_text s vs
has_text s (cons _ vs) = has_text s vs

-- `_mask_secrets`: a list can be copied, and what it contains be looked for.
unfoldable pub mask_secrets : Value → Try Value
unfolding mask_field has_text
mask_secrets (obj d) = ok (obj (mask_field "key_file_content" (mask_field "client_secret" d)))
mask_secrets (arr vs) =
    if has_text "client_secret" vs || has_text "key_file_content" vs
    then raise type_error
    else ok (arr vs)
mask_secrets _ = raise attribute_error

-- `cfg.get(k)`
abbrev pub member : String → Value → Try Value
member k (obj d) = ok (get d k)
member k _ = raise attribute_error

pub record ConfigReply : Type 0 where
  pub id : Value
  pub provider : Value
  pub name : Value
  pub credential_type : Value
  pub config : Value
  pub created_at : ℕ
  pub updated_at : ℕ
  pub last_test : Option String
  pub last_test_at : Option ℕ
  pub err : Option String
  pub tenant_id : Value
  pub subscription_id : Value
  pub project_id : Value

-- The body of a reply from a row and what stands for its configuration.
unfoldable pub base_reply : (String → Value) → ConfigRow → Value → ConfigReply
base_reply show r masked = record {
  id = show r.id;
  provider = show r.provider;
  name = show r.name;
  credential_type = show r.credential_type;
  config = masked;
  created_at = r.created_at;
  updated_at = r.updated_at;
  last_test = r.last_test;
  last_test_at = r.last_test_at;
  err = r.err;
  tenant_id = null;
  subscription_id = null;
  project_id = null;
}

-- The reply of `get_config` and `update_config`.
unfoldable pub full_reply : Codecs → ConfigRow → Value → Try ConfigReply
unfolding cell base_reply mask_secrets
full_reply io r cfg = do
  masked ← mask_secrets cfg
  tenant_id ← member "tenant_id" cfg
  subscription_id ← member "subscription_id" cfg
  project_id ← member "project_id" cfg
  ok (record (base_reply (cell io) r masked) {
    tenant_id = tenant_id;
    subscription_id = subscription_id;
    project_id = project_id;
  })

-- A row as an INSERT of seven columns makes it.
abbrev pub new_config : String → String → String → String → Value → ℕ → ConfigRow
new_config id provider name credential_type config now = record {
  id = id;
  provider = provider;
  name = name;
  credential_type = credential_type;
  config = config;
  created_at = now;
  updated_at = now;
  last_test = none;
  last_test_at = none;
  err = none;
}

unfoldable pub set_name : Option String → ConfigRow → ConfigRow
set_name none r = r
set_name (some name) r = record r { name = name }

unfoldable pub set_type : Option String → ConfigRow → ConfigRow
set_type none r = r
set_type (some credential_type) r = record r { credential_type = credential_type }

unfoldable pub set_config : Option Value → ConfigRow → ConfigRow
set_config none r = r
set_config (some config) r = record r { config = config }

-- What the SET clause makes of a row.
unfoldable pub updated : Option String → Option String → Option Value → ℕ → ConfigRow → ConfigRow
unfolding set_name set_type set_config
updated name credential_type config now r =
    record (set_config config (set_type credential_type (set_name name r))) { updated_at = now }

abbrev pub nothing_given : Option String → Option String → Option Fields → Bool
nothing_given none none none = true
nothing_given _ _ _ = false

abbrev pub done : Try {0} Unit × Session Configs → Response {0} Unit × Session Configs
done (ok tt, c) = (body tt, c)
done (raise e, c) = (crash e, c)

module _ (keys : Keys) (env_key : Option String) (io : Codecs)
    (putconn : Session Configs → Session Configs) where
  -- One row of the reply of `list_configs`.
  unfoldable pub list_entry : ConfigRow → Try ConfigReply
  unfolding cell base_reply mask_secrets json_cell
  list_entry r = do
    masked ← mask_secrets (decrypt_config keys env_key io (json_cell io r.config))
    ok (base_reply (cell io) r masked)

  unfoldable pub list_entries : Configs → Try (List ConfigReply)
  unfolding list_entry
  list_entries [] = ok []
  list_entries (r ∷ rows) = do
    reply ← list_entry r
    replies ← list_entries rows
    ok (reply ∷ replies)

  then_entries : Try Configs × Session Configs → Response (List ConfigReply) × Session Configs
  unfolding list_entries
  then_entries (ok rows, c) = (respond (list_entries rows), c)
  then_entries (raise e, c) = (crash e, c)

  -- `ordered` is the server's ORDER BY provider, name.
  unfoldable pub list_configs :
      (Configs → Configs) → Session Configs → Response (List ConfigReply) × Session Configs
  unfolding then_entries query
  list_configs ordered c = then_entries (query putconn (λ rows. ok (ordered rows, rows)) c)

  unfoldable pub or_missing :
      Try (Option ConfigRow) × Session Configs → Response ConfigReply × Session Configs
  unfolding full_reply json_cell
  or_missing (ok none, c) = (http_error 404, c)
  or_missing (ok (some r), c) =
      (respond (full_reply io r (decrypt_config keys env_key io (json_cell io r.config))), c)
  or_missing (raise e, c) = (crash e, c)

  unfoldable pub get_config : String → Session Configs → Response ConfigReply × Session Configs
  unfolding or_missing fetch_config
  get_config config_id c = or_missing (fetch_config putconn config_id c)

  unfoldable pub create_reply : ConfigRow → Value → Try ConfigReply
  unfolding base_reply mask_secrets
  create_reply row config = do masked ← mask_secrets config; ok (base_reply str row masked)

  -- The reply of a handler that stored a row.
  unfoldable pub added :
      Try String × Session Configs → Try ConfigReply → Response ConfigReply × Session Configs
  added (ok id, c) reply = (respond reply, c)
  added (raise e, c) reply = (crash e, c)

  -- `row` has the new UUID, the provider, the name, the credential type and the configuration of the
  -- request, and the current time.
  unfoldable pub create_config :
      String
      → String
      → String
      → String
      → Fields
      → ℕ
      → Session Configs
      → Response ConfigReply × Session Configs
  unfolding create_reply store_row added
  create_config id provider name credential_type config now c =
      let row = new_config id provider name credential_type (obj config) now in
      added (store_row putconn row (encrypt_config keys env_key io (obj config)) c)
        (create_reply row (obj config))

  -- `encrypt_config(data.config)` where there is one
  unfoldable pub sealed_config : Option Fields → Try (Option Value)
  sealed_config none = ok none
  sealed_config (some config) = do
    stored ← encrypt_config keys env_key io (obj config)
    ok (some stored)

  unfoldable pub update_with :
      String
      → Option String
      → Option String
      → ℕ
      → Try (Option Value)
      → Session Configs
      → Response ConfigReply × Session Configs
  unfolding updated or_missing change_config
  update_with config_id name credential_type now (raise e) c = (crash e, c)
  update_with config_id name credential_type now (ok config) c =
      or_missing (change_config putconn config_id (updated name credential_type config now) c)

  unfoldable pub update_config :
      String
      → Option String
      → Option String
      → Option Fields
      → ℕ
      → Session Configs
      → Response ConfigReply × Session Configs
  unfolding update_with sealed_config
  update_config config_id name credential_type config now c =
      if nothing_given name credential_type config
      then (http_error 400, c)
      else update_with config_id name credential_type now (sealed_config config) c

  unfoldable pub delete_config : String → Session Configs → Response {0} Unit × Session Configs
  unfolding remove_config
  delete_config config_id c = done (remove_config putconn config_id c)
