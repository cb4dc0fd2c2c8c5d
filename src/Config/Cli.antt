-- ===== src/Config/Cli.antt =====
-- backend/app/api/routes/config.py: the deprecated handlers of /configs for the command line, and the
-- registration of credentials in backend/app/api/routes/auth.py.
use finna_app.Prelude.{
  ℕ, String, ◌++ₛ◌, Option, none, some, List, [], ◌∷◌, ◌==◌, if◌then◌else◌, ltb, size, first_chars,
}
use finna_app.Python.Value.{Value, null, str, obj, Fields, end, field, get_or, truthy}
use finna_app.Python.Dicts.{set_field}
use finna_app.Python.Try.{Try, ok, raise, type_error, attribute_error, db_error, ◌>>=◌}
use finna_app.Web.{Response, body, http_error, crash, respond}
use finna_app.Database.{Session, query}
use finna_app.Config.Encryption.{Codecs, Keys, encrypt_config, decrypt_config}
use finna_app.Config.Store.{
  ConfigRow, Configs, cell, json_cell, fetch_config, write_config, store_row, remove_config,
}
use finna_app.Config.Routes.{new_config}

-- `_ConfigCreate`: an empty text counts as none.
pub record ConfigCreate : Type 0 where
  pub provider : String
  pub cloud_config : Option String
  pub service_category : Option String
  pub region : Option String

-- `if text: cfg[k] = text`
unfoldable pub set_text : String → Option String → Fields → Fields
unfolding set_field
set_text k none d = d
set_text k (some text) d = if text == "" then d else set_field k (str text) d

-- The three assignments to the configuration.
unfoldable pub with_request : ConfigCreate → Fields → Fields
unfolding set_text
with_request request d =
    set_text "cloud_config" request.cloud_config
      (set_text "service_category" request.service_category (set_text "region" request.region d))

abbrev pub text_or : String → Option String → String
text_or default none = default
text_or default (some text) = if text == "" then default else text

pub record CliReply : Type 0 where
  pub id : String
  pub provider : String
  pub service_category : String
  pub region : String
  pub last_updated : ℕ

abbrev pub cli_reply : String → ConfigCreate → ℕ → CliReply
cli_reply id request now = record {
  id = id;
  provider = request.provider;
  service_category = text_or "" request.service_category;
  region = text_or "" request.region;
  last_updated = now;
}

-- A dict as a parameter of `execute` for the JSON column; other values are refused there, except that
-- a text is read as JSON.
unfoldable pub json_param : Codecs → Value → Try Value
json_param io (obj d) = ok (obj d)
json_param io (str text) = elim (io.loads text) [ none ↦ raise db_error | some v ↦ ok v ]
json_param io _ = raise db_error

-- The assignments where the configuration may be no dict.
abbrev pub request_in : ConfigCreate → Value → Try Value
request_in request (obj d) = ok (obj (with_request request d))
request_in request v = elim (with_request request end) [
  | end ↦ ok v
  | field _ _ _ ↦ raise type_error
]

abbrev pub azure_name : String → String
azure_name tenant_id =
    if ltb 8 (size tenant_id)
    then "Azure SP (" ++ₛ first_chars 8 tenant_id ++ₛ "...)"
    else "Azure SP (" ++ₛ tenant_id ++ₛ ")"

-- The configuration of `register_azure_service_account`
unfoldable pub azure_config : String → String → Option String → Option String → Fields
unfolding set_text
azure_config tenant_id client_id client_secret subscription_id =
    set_text "subscription_id" subscription_id (
      set_text "client_secret" client_secret (
        field "tenant_id" (str tenant_id)
          (field "client_id" (str client_id) (field "auth_method" (str "service_account") end))))

-- The reply of `cli_config_get`; `service_category` is the credential type once more.
pub record CliConfig : Type 0 where
  pub id : Value
  pub provider : Value
  pub name : Value
  pub credential_type : Value
  pub region : Value
  pub last_test : Option String
  pub last_test_at : Option ℕ
  pub err : Option String
  pub last_updated : ℕ
  pub tenant_id : Value
  pub subscription_id : Value
  pub project_id : Value

module _ (keys : Keys) (env_key : Option String) (io : Codecs)
    (putconn : Session Configs → Session Configs) where
  abbrev pub answered {ℓ} :
      {A : Type ℓ} → A → Try String × Session Configs → Response A × Session Configs
  answered reply (ok id, c) = (body reply, c)
  answered reply (raise e, c) = (crash e, c)

  unfoldable pub cli_configs_create :
      String → ConfigCreate → ℕ → Session Configs → Response CliReply × Session Configs
  unfolding store_row with_request
  cli_configs_create cfg_id request now c =
      let cfg = obj (with_request request (field "provider" (str request.provider) end)) in
      answered (cli_reply cfg_id request now) (
        store_row putconn
          (new_config cfg_id request.provider (request.provider ++ₛ " config")
            (text_or "unknown" request.service_category) cfg now)
          (encrypt_config keys env_key io cfg) c)

  -- `decrypt_config(row["config"]) if row and row.get("config") else {}`
  unfoldable pub current_config : Option ConfigRow → Value
  unfolding json_cell
  current_config none = obj end
  current_config (some r) =
      let v = json_cell io r.config in
      if truthy v then decrypt_config keys env_key io v else obj end

  -- The configuration that `cli_configs_update` writes.
  unfoldable pub rewritten : ConfigCreate → Value → Try Value
  unfolding with_request json_param
  rewritten request cfg = do
    changed ← request_in request cfg
    stored ← encrypt_config keys env_key io changed
    json_param io stored

  abbrev pub stored_as : ConfigCreate → Value → ℕ → ConfigRow → ConfigRow
  stored_as request stored now r = record r {
    provider = request.provider;
    config = stored;
    updated_at = now;
  }

  abbrev pub updated_reply {ℓ} :
      {A : Type ℓ} → A → Try {0} Unit × Session Configs → Response A × Session Configs
  updated_reply reply (ok tt, c) = (body reply, c)
  updated_reply reply (raise e, c) = (crash e, c)

  unfoldable pub write_rewritten :
      String → ConfigCreate → ℕ → Try Value → Session Configs → Response CliReply × Session Configs
  unfolding write_config
  write_rewritten config_id request now (raise e) c = (crash e, c)
  write_rewritten config_id request now (ok stored) c =
      updated_reply (cli_reply config_id request now)
        (write_config putconn config_id (stored_as request stored now) c)

  unfoldable pub after_second :
      String
      → ConfigCreate
      → ℕ
      → Try (Option ConfigRow) × Session Configs
      → Response CliReply × Session Configs
  unfolding write_rewritten rewritten current_config
  after_second config_id request now (raise e, c) = (crash e, c)
  after_second config_id request now (ok row, c) =
      write_rewritten config_id request now (rewritten request (current_config row)) c

  unfoldable pub after_first :
      String
      → ConfigCreate
      → ℕ
      → Try (Option ConfigRow) × Session Configs
      → Response CliReply × Session Configs
  unfolding after_second fetch_config
  after_first config_id request now (raise e, c) = (crash e, c)
  after_first config_id request now (ok none, c) = (http_error 404, c)
  after_first config_id request now (ok (some r), c) =
      after_second config_id request now (fetch_config putconn config_id c)

  unfoldable pub cli_configs_update :
      String → ConfigCreate → ℕ → Session Configs → Response CliReply × Session Configs
  unfolding after_first
  cli_configs_update config_id request now c =
      after_first config_id request now (fetch_config putconn config_id c)

  abbrev pub deleted : Try {0} Unit × Session Configs → Response {0} Unit × Session Configs
  deleted (ok tt, c) = (body tt, c)
  deleted (raise e, c) = (crash e, c)

  unfoldable pub delete_found :
      String → Try (Option ConfigRow) × Session Configs → Response {0} Unit × Session Configs
  unfolding remove_config
  delete_found config_id (raise e, c) = (crash e, c)
  delete_found config_id (ok none, c) = (http_error 404, c)
  delete_found config_id (ok (some r), c) = deleted (remove_config putconn config_id c)

  unfoldable pub cli_configs_delete : String → Session Configs → Response {0} Unit × Session Configs
  unfolding delete_found fetch_config
  cli_configs_delete config_id c = delete_found config_id (fetch_config putconn config_id c)

  unfoldable pub gcp_config : String → Option String → Try Value
  gcp_config project_id none = ok (obj (field "project_id" (str project_id) end))
  gcp_config project_id (some content) =
      if content == ""
      then ok (obj (field "project_id" (str project_id) end))
      else encrypt_config keys env_key io
          (obj (field "project_id" (str project_id) (field "key_file_content" (str content) end)))

  -- The reply is the id of the configuration, and the project.
  unfoldable pub register_gcp :
      String
      → String
      → Option String
      → ℕ
      → Session Configs
      → Response (String × String) × Session Configs
  unfolding store_row gcp_config
  register_gcp config_id project_id key_file_content now c =
      answered (config_id, project_id)
        (store_row putconn
          (new_config config_id "gcp" ("GCP " ++ₛ project_id) "service_account" null now)
          (gcp_config project_id key_file_content) c)

  unfoldable pub register_azure_service_account :
      String
      → String
      → String
      → Option String
      → Option String
      → ℕ
      → Session Configs
      → Response String × Session Configs
  unfolding store_row azure_config
  register_azure_service_account config_id tenant_id client_id client_secret subscription_id now c =
      let config = obj (azure_config tenant_id client_id client_secret subscription_id) in
      answered config_id (
        store_row putconn
          (new_config config_id "azure" (azure_name tenant_id) "service_account" config now)
          (ok config) c)

  member_or : String → Value → Value → Try Value
  member_or k default (obj d) = ok (get_or d k default)
  member_or k default _ = raise attribute_error

  -- One row of `cli_config_list`, which has the fields of `cli_config_get` but the last three.
  unfoldable pub cli_entry : ConfigRow → Try CliConfig
  unfolding current_config member_or cell
  cli_entry r = do
    region ← member_or "region" (str "") (current_config (some r))
    ok (record {
      id = cell io r.id;
      provider = cell io r.provider;
      name = cell io r.name;
      credential_type = cell io r.credential_type;
      region = region;
      last_test = r.last_test;
      last_test_at = r.last_test_at;
      err = r.err;
      last_updated = r.updated_at;
      tenant_id = null;
      subscription_id = null;
      project_id = null;
    })

  unfoldable pub cli_full : ConfigRow → Try CliConfig
  unfolding cli_entry member_or current_config
  cli_full r = do
    entry ← cli_entry r
    tenant_id ← member_or "tenant_id" null (current_config (some r))
    subscription_id ← member_or "subscription_id" null (current_config (some r))
    project_id ← member_or "project_id" null (current_config (some r))
    ok (record entry {
      tenant_id = tenant_id;
      subscription_id = subscription_id;
      project_id = project_id;
    })

  unfoldable pub cli_entries : Configs → Try (List CliConfig)
  unfolding cli_entry
  cli_entries [] = ok []
  cli_entries (r ∷ rows) = do entry ← cli_entry r; entries ← cli_entries rows; ok (entry ∷ entries)

  cli_listed : Try Configs × Session Configs → Response (List CliConfig) × Session Configs
  unfolding cli_entries
  cli_listed (ok rows, c) = (respond (cli_entries rows), c)
  cli_listed (raise e, c) = (crash e, c)

  -- `ordered` is the server's ORDER BY provider, name.
  unfoldable pub cli_config_list :
      (Configs → Configs) → Session Configs → Response (List CliConfig) × Session Configs
  unfolding cli_listed query
  cli_config_list ordered c = cli_listed (query putconn (λ rows. ok (ordered rows, rows)) c)

  cli_found : Try (Option ConfigRow) × Session Configs → Response CliConfig × Session Configs
  unfolding cli_full
  cli_found (ok none, c) = (http_error 404, c)
  cli_found (ok (some r), c) = (respond (cli_full r), c)
  cli_found (raise e, c) = (crash e, c)

  unfoldable pub cli_config_get : String → Session Configs → Response CliConfig × Session Configs
  unfolding cli_found fetch_config
  cli_config_get config_id c = cli_found (fetch_config putconn config_id c)
