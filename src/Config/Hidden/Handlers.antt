-- ===== src/Config/Hidden/Handlers.antt =====
-- The handlers that create, change or delete a configuration keep what the table hides.
use finna_app.Prelude.{
  ◌++ₛ◌, subst, ℕ, ◌≡◌, refl, sym, ◌∙◌, String, true, Option, none, some, arith,
}
use finna_app.Python.Value.{Value, str, obj, Fields, end, field}
use finna_app.Python.Try.{Try, ok, raise}
use finna_app.Database.{Session, connected}
use finna_app.Database.Laws.{RollsBack, query-committed}
use finna_app.Config.Encryption.{Codecs, Keys, is_sensitive_field, encrypt_config}
use finna_app.Config.Store.{
  store_row, ConfigRow, Configs, select_config, update_row, change_config, remove_config,
}
use finna_app.Config.Routes.{
  ConfigReply, create_reply, done, updated, sealed_config, new_config, added, or_missing,
  update_with, create_config, update_config, delete_config,
}
use finna_app.Config.Cli.{
  answered, cli_reply, text_or, ConfigCreate, cli_configs_create, cli_configs_delete, with_request,
  deleted, delete_found,
}
use finna_app.Config.Hidden.{
  List, fetch_config-connected, IsHidden, AllHidden, encrypt_config-IsHidden, store_row-AllHidden,
  remove_config-AllHidden,
}

module _ (putconn : Session Configs → Session Configs) (pool : RollsBack Configs putconn)
    (keys : Keys) (env_key : Option String) (io : Codecs) (ids : List String) (k : String)
    (sensitive : is_sensitive_field k ≡ true) where
  added-session :
      (m : Try String × Session Configs) (reply : Try ConfigReply)
      → (added keys env_key io putconn m reply).1 ≡ m.1
  unfolding added
  added-session (ok id, c) reply = refl
  added-session (raise e, c) reply = refl

  pub or_missing-session :
      (m : Try (Option ConfigRow) × Session Configs)
      → (or_missing keys env_key io putconn m).1 ≡ m.1
  unfolding or_missing
  or_missing-session (ok none, c) = refl
  or_missing-session (ok (some r), c) = refl
  or_missing-session (raise e, c) = refl

  pub create_config-AllHidden :
      (id provider name credential_type : String) (config : Fields) (now : ℕ) (rows : Configs)
      → AllHidden ids k rows
      → AllHidden ids k
          (create_config keys env_key io putconn id provider name credential_type config now
            (connected rows)).1.committed
  unfolding create_config
  create_config-AllHidden id provider name credential_type config now rows h =
      let row = new_config id provider name credential_type (obj config) now in
      subst (λ (c : Session Configs). AllHidden ids k c.committed)
        (sym (
          added-session
            (store_row putconn row (encrypt_config keys env_key io (obj config)) (connected rows))
            (create_reply keys env_key io putconn row (obj config))))
        (store_row-AllHidden ids k putconn pool row (encrypt_config keys env_key io (obj config))
          rows h
          (λ (v : Value) (e : encrypt_config keys env_key io (obj config) ≡ ok v).
            encrypt_config-IsHidden keys env_key io config ids k id v e sensitive))

  delete_config-session : (m : Try {0} Unit × Session Configs) → (done m).1 ≡ m.1
  delete_config-session (ok tt, c) = refl
  delete_config-session (raise e, c) = refl

  pub delete_config-AllHidden :
      (id : String) (rows : Configs)
      → AllHidden ids k rows
      → AllHidden ids k (delete_config keys env_key io putconn id (connected rows)).1.committed
  unfolding delete_config
  delete_config-AllHidden id rows h =
      subst (λ (c : Session Configs). AllHidden ids k c.committed)
        (sym (delete_config-session (remove_config putconn id (connected rows))))
        (remove_config-AllHidden ids k putconn pool id rows h)

  -- `update_config` leaves the table as it was.
  update_with-session :
      (id : String) (name credential_type : Option String) (now : ℕ) (config : Try (Option Value))
      (rows : Configs)
      → (update_with keys env_key io putconn id name credential_type now config (connected rows)).1
        ≡ connected rows
  unfolding update_with change_config
  update_with-session id name credential_type now (raise e) rows = refl
  update_with-session id name credential_type now (ok config) rows =
      or_missing-session
        (change_config putconn id (updated name credential_type config now) (connected rows))
      ∙ query-committed putconn
          (λ (old : Configs). ok (
            select_config id (update_row id (updated name credential_type config now) old),
            update_row id (updated name credential_type config now) old,
          ))
          pool rows

  pub update_config-session :
      (id : String) (name credential_type : Option String) (config : Option Fields) (now : ℕ)
      (rows : Configs)
      → (update_config keys env_key io putconn id name credential_type config now
          (connected rows)).1
        ≡ connected rows
  unfolding update_config
  update_config-session id name credential_type config now rows = ground (
    arith,
    update_with-session id name credential_type now (sealed_config keys env_key io putconn config)
        rows,
  )

  answered-session :
      {A : Type 0} (reply : A) (m : Try String × Session Configs)
      → (answered keys env_key io putconn reply m).1 ≡ m.1
  answered-session reply (ok id, c) = refl
  answered-session reply (raise e, c) = refl

  pub answered-AllHidden :
      {A : Type 0} (reply : A) (row : ConfigRow) (stored : Try Value) (rows : Configs)
      → AllHidden ids k rows
      → ((v : Value) → stored ≡ ok v → IsHidden ids k row.id v)
      → AllHidden ids k
          (answered keys env_key io putconn reply
            (store_row putconn row stored (connected rows))).1.committed
  answered-AllHidden reply row stored rows h p =
      subst (λ (c : Session Configs). AllHidden ids k c.committed)
        (sym (answered-session reply (store_row putconn row stored (connected rows))))
        (store_row-AllHidden ids k putconn pool row stored rows h p)

  pub sealed-AllHidden :
      (id : String) (config : Fields) (v : Value)
      → encrypt_config keys env_key io (obj config) ≡ ok v
      → IsHidden ids k id v
  sealed-AllHidden id config v e =
      encrypt_config-IsHidden keys env_key io config ids k id v e sensitive

  pub cli_configs_create-AllHidden :
      (id : String) (request : ConfigCreate) (now : ℕ) (rows : Configs)
      → AllHidden ids k rows
      → AllHidden ids k
          (cli_configs_create keys env_key io putconn id request now (connected rows)).1.committed
  unfolding cli_configs_create
  cli_configs_create-AllHidden id request now rows h =
      let config = with_request request (field "provider" (str request.provider) end) in
      answered-AllHidden (cli_reply id request now)
        (new_config id request.provider (request.provider ++ₛ " config")
          (text_or "unknown" request.service_category) (obj config) now)
        (encrypt_config keys env_key io (obj config)) rows h (sealed-AllHidden id config)

  deleted-session :
      (m : Try {0} Unit × Session Configs) → (deleted keys env_key io putconn m).1 ≡ m.1
  deleted-session (ok tt, c) = refl
  deleted-session (raise e, c) = refl

  delete_found-AllHidden :
      (id : String) (row : Option ConfigRow) (rows : Configs)
      → AllHidden ids k rows
      → AllHidden ids k
          (delete_found keys env_key io putconn id (ok row, connected rows)).1.committed
  unfolding delete_found
  delete_found-AllHidden id none rows h = h
  delete_found-AllHidden id (some r) rows h =
      subst (λ (c : Session Configs). AllHidden ids k c.committed)
        (sym (deleted-session (remove_config putconn id (connected rows))))
        (remove_config-AllHidden ids k putconn pool id rows h)

  pub cli_configs_delete-AllHidden :
      (id : String) (rows : Configs)
      → AllHidden ids k rows
      → AllHidden ids k (cli_configs_delete keys env_key io putconn id (connected rows)).1.committed
  unfolding cli_configs_delete
  cli_configs_delete-AllHidden id rows h =
      subst
        (λ (m : Try (Option ConfigRow) × Session Configs).
          AllHidden ids k (delete_found keys env_key io putconn id m).1.committed)
        (sym (fetch_config-connected putconn pool id rows))
        (delete_found-AllHidden id (select_config id rows) rows h)
