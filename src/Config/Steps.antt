-- ===== src/Config/Steps.antt =====
-- The requests that the API serves, in any order, over the table of configurations.
use finna_app.Prelude.{List, ◌∷◌, arith, eq_refl, ℕ, ◌≡◌, sym, subst, String, true, Option, []}
use finna_app.Python.Value.{Fields}
use finna_app.Database.{Session, connected}
use finna_app.Database.Laws.{RollsBack}
use finna_app.Config.Encryption.{Codecs, Keys, is_sensitive_field}
use finna_app.Config.Store.{Configs}
use finna_app.Config.Routes.{create_config, update_config, delete_config}
use finna_app.Config.Cli.{
  ConfigCreate, cli_configs_create, cli_configs_update, cli_configs_delete, register_gcp,
  register_azure_service_account,
}
use finna_app.Config.Hidden.{AllHidden, later-AllHidden}
use finna_app.Config.Hidden.Handlers.{
  create_config-AllHidden, delete_config-AllHidden, update_config-session,
  cli_configs_create-AllHidden, cli_configs_delete-AllHidden,
}
use finna_app.Config.Hidden.Registered.{register_gcp-AllHidden, register_azure-AllHidden}
use finna_app.Config.Hidden.Rewritten.{cli_configs_update-AllHidden}

module _ (putconn : Session Configs → Session Configs) (keys : Keys) (env_key : Option String)
    (io : Codecs) where
  -- A request, with a connection of its own: what it leaves committed, and the ids under which Azure service
  -- accounts have been registered.
  pub data Step (ids : List String) (rows : Configs) : List String → Configs → Type 0 where
    create :
        (id provider name credential_type : String) (config : Fields) (now : ℕ)
        → Step ids rows ids
            (create_config keys env_key io putconn id provider name credential_type config now
              (connected rows)).1.committed
    update :
        (id : String) (name credential_type : Option String) (config : Option Fields) (now : ℕ)
        → Step ids rows ids
            (update_config keys env_key io putconn id name credential_type config now
              (connected rows)).1.committed
    delete :
        (id : String)
        → Step ids rows ids (delete_config keys env_key io putconn id (connected rows)).1.committed
    cli_create :
        (id : String) (request : ConfigCreate) (now : ℕ)
        → Step ids rows ids
            (cli_configs_create keys env_key io putconn id request now (connected rows)).1.committed
    cli_update :
        (id : String) (request : ConfigCreate) (now : ℕ)
        → Step ids rows ids
            (cli_configs_update keys env_key io putconn id request now (connected rows)).1.committed
    cli_delete :
        (id : String)
        → Step ids rows ids
            (cli_configs_delete keys env_key io putconn id (connected rows)).1.committed
    gcp :
        (id project_id : String) (key_file_content : Option String) (now : ℕ)
        → Step ids rows ids
            (register_gcp keys env_key io putconn id project_id key_file_content now
              (connected rows)).1.committed
    azure :
        (id tenant_id client_id : String) (client_secret subscription_id : Option String) (now : ℕ)
        → Step ids rows
            (id ∷ ids)
            (register_azure_service_account keys env_key io putconn id tenant_id client_id
              client_secret subscription_id now
              (connected rows)).1.committed

  -- From no configurations.
  pub data Steps : List String → Configs → Type 0 where
    stay : Steps [] []
    then_step :
        {ids later_ids : List String} {rows later : Configs}
        → Steps ids rows
        → Step ids rows later_ids later
        → Steps later_ids later

module _ (putconn : Session Configs → Session Configs) (pool : RollsBack Configs putconn)
    (keys : Keys) (env_key : Option String) (io : Codecs) (k : String)
    (sensitive : is_sensitive_field k ≡ true) where
  Step-AllHidden :
      (ids later_ids : List String) (rows after : Configs)
      → AllHidden ids k rows
      → Step putconn keys env_key io ids rows later_ids after
      → AllHidden later_ids k after
  Step-AllHidden ids _ rows _ h (create id provider name credential_type config now) =
      create_config-AllHidden putconn pool keys env_key io ids k sensitive id provider name
        credential_type config now rows h
  Step-AllHidden ids _ rows _ h (update id name credential_type config now) =
      subst (λ (c : Session Configs). AllHidden ids k c.committed)
        (sym (
          update_config-session putconn pool keys env_key io ids k sensitive id name credential_type
            config now rows))
        h
  Step-AllHidden ids _ rows _ h (delete id) =
      delete_config-AllHidden putconn pool keys env_key io ids k sensitive id rows h
  Step-AllHidden ids _ rows _ h (cli_create id request now) =
      cli_configs_create-AllHidden putconn pool keys env_key io ids k sensitive id request now rows
        h
  Step-AllHidden ids _ rows _ h (cli_update id request now) =
      cli_configs_update-AllHidden putconn pool keys env_key io ids k sensitive id request now rows
        h
  Step-AllHidden ids _ rows _ h (cli_delete id) =
      cli_configs_delete-AllHidden putconn pool keys env_key io ids k sensitive id rows h
  Step-AllHidden ids _ rows _ h (gcp id project_id content now) =
      register_gcp-AllHidden putconn pool keys env_key io ids k sensitive id project_id content now
        rows h
  Step-AllHidden ids _ rows _ h (azure id tenant_id client_id client_secret subscription_id now) =
      register_azure-AllHidden putconn pool keys env_key io (id ∷ ids) k sensitive id tenant_id
        client_id client_secret subscription_id now rows (ground (arith, eq_refl id))
        (later-AllHidden id k ids rows h)

  -- Whatever requests create, change, register and delete configurations, in a table that was empty at
  -- first and with a pool that rolls back: no stored configuration holds a sensitive key in the clear,
  -- but that a row with the id of an Azure registration may hold its client secret.
  pub Steps-AllHidden :
      (ids : List String) (rows : Configs)
      → Steps putconn keys env_key io ids rows
      → AllHidden ids k rows
  Steps-AllHidden _ _ stay = tt
  Steps-AllHidden later_ids later (then_step {ids = ids} {rows = rows} before step) =
      Step-AllHidden ids later_ids rows later (Steps-AllHidden ids rows before) step
