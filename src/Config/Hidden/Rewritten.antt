-- ===== src/Config/Hidden/Rewritten.antt =====
-- The update of the deprecated route keeps what the table hides.
use finna_app.Prelude.{
  subst, ℕ, ◌≡◌, refl, sym, ap, ◌∙◌, inl, inr, String, true, Option, none, some, arith,
  if◌then◌else◌, Bool-cases,
}
use finna_app.Python.Value.{Value, obj, Fields, end, get, truthy}
use finna_app.Python.Try.{Try, ok, raise, >>=-eq-ok}
use finna_app.Database.{Session, connected}
use finna_app.Database.Laws.{RollsBack}
use finna_app.Config.Encryption.{
  Codecs, Keys, is_sensitive_field, encrypt_config, decrypt_config, get_encryption_key, is_true,
  unseal,
}
use finna_app.Config.Store.{ConfigRow, Configs, json_cell, select_config, write_config}
use finna_app.Config.Cli.{
  cli_reply, ConfigCreate, cli_configs_update, with_request, rewritten, current_config, json_param,
  updated_reply, stored_as, write_rewritten, after_second, after_first,
}
use finna_app.Config.Hidden.{
  List, fetch_config-connected, IsHidden, AllHidden, FoundHidden, select-AllHidden,
  write_config-AllHidden,
}
use finna_app.Config.Hidden.Handlers.{sealed-AllHidden}
use finna_app.Config.Hidden.Registered.{returned-IsHidden}

module _ (putconn : Session Configs → Session Configs) (pool : RollsBack Configs putconn)
    (keys : Keys) (env_key : Option String) (io : Codecs) (ids : List String) (k : String)
    (sensitive : is_sensitive_field k ≡ true) where
  decrypt_config-IsObject :
      (d : Fields) → (e : Fields) × (decrypt_config keys env_key io (obj d) ≡ obj e)
  unfolding decrypt_config
  decrypt_config-IsObject d = elim (Bool-cases (is_true (get d "__enc__"))) [
    | inl h ↦ (unseal io (get_encryption_key keys env_key) d, ground arith)
    | inr h ↦ (d, ground arith)
  ]

  hidden-IsObject :
      (provider : String) (v : Value) → IsHidden ids k provider v → (d : Fields) × (v ≡ obj d)
  hidden-IsObject provider (obj d) h = (d, refl)
  hidden-IsObject provider _ h = elim h [ ]

  current_config-IsObject :
      (row : Option ConfigRow)
      → FoundHidden ids k row
      → (d : Fields) × (current_config keys env_key io putconn row ≡ obj d)
  unfolding current_config
  current_config-IsObject none h = (end, refl)
  current_config-IsObject (some r) h =
      let (d, e) = hidden-IsObject r.id r.config h in
      let (f, q) = decrypt_config-IsObject d in
      elim (Bool-cases (truthy (obj d))) [
        | inl t ↦ (
          f,
          ap
                (λ (v : Value).
                  if truthy (json_cell io v)
                  then decrypt_config keys env_key io (json_cell io v)
                  else obj end)
                e
              ∙ ground arith,
        )
        | inr t ↦ (
          end,
          ap
                (λ (v : Value).
                  if truthy (json_cell io v)
                  then decrypt_config keys env_key io (json_cell io v)
                  else obj end)
                e
              ∙ ground arith,
        )
      ]

  param-IsHidden :
      (provider : String) (w v : Value)
      → IsHidden ids k provider w
      → json_param io w ≡ ok v
      → IsHidden ids k provider v
  unfolding json_param
  param-IsHidden provider (obj d) v h e =
      returned-IsHidden putconn pool keys env_key io ids k sensitive provider (obj d) v e h
  param-IsHidden provider _ v h e = elim h [ ]

  rewritten-IsHidden :
      (request : ConfigCreate) (provider : String) (cfg v : Value) (d : Fields)
      → cfg ≡ obj d
      → rewritten keys env_key io putconn request cfg ≡ ok v
      → IsHidden ids k provider v
  unfolding rewritten
  rewritten-IsHidden request provider (obj cfg) v d q e =
      let (w, p, r) =
        >>=-eq-ok (encrypt_config keys env_key io (obj (with_request request cfg))) (json_param io)
          e in
      param-IsHidden provider w v
        (sealed-AllHidden putconn pool keys env_key io ids k sensitive provider
          (with_request request cfg) w p)
        r
  rewritten-IsHidden request provider _ v d q e = cc

  updated_reply-session :
      {A : Type 0} (reply : A) (m : Try {0} Unit × Session Configs)
      → (updated_reply keys env_key io putconn reply m).1 ≡ m.1
  updated_reply-session reply (ok tt, c) = refl
  updated_reply-session reply (raise e, c) = refl

  write_rewritten-AllHidden :
      (id : String) (request : ConfigCreate) (now : ℕ) (stored : Try Value) (rows : Configs)
      → AllHidden ids k rows
      → ((id : String) (v : Value) → stored ≡ ok v → IsHidden ids k id v)
      → AllHidden ids k
          (write_rewritten keys env_key io putconn id request now stored
            (connected rows)).1.committed
  unfolding write_rewritten
  write_rewritten-AllHidden id request now (raise e) rows h p = h
  write_rewritten-AllHidden id request now (ok v) rows h p =
      subst (λ (c : Session Configs). AllHidden ids k c.committed)
        (sym (
          updated_reply-session (cli_reply id request now) (
            write_config putconn id (stored_as keys env_key io putconn request v now)
              (connected rows))))
        (write_config-AllHidden ids k putconn pool id
          (stored_as keys env_key io putconn request v now) rows (λ (r : ConfigRow). p r.id v refl)
          h)

  after_second-AllHidden :
      (id : String) (request : ConfigCreate) (now : ℕ) (row : Option ConfigRow) (rows : Configs)
      → AllHidden ids k rows
      → FoundHidden ids k row
      → AllHidden ids k
          (after_second keys env_key io putconn id request now (ok row, connected rows)).1.committed
  unfolding after_second
  after_second-AllHidden id request now row rows h found =
      let (d, e) = current_config-IsObject row found in
      write_rewritten-AllHidden id request now
        (rewritten keys env_key io putconn request (current_config keys env_key io putconn row))
        rows h
        (λ (tag : String) (v : Value)
            (q : rewritten keys env_key io putconn request
                (current_config keys env_key io putconn row)
              ≡ ok v).
          rewritten-IsHidden request tag (current_config keys env_key io putconn row) v d e q)

  after_first-AllHidden :
      (id : String) (request : ConfigCreate) (now : ℕ) (row : Option ConfigRow) (rows : Configs)
      → AllHidden ids k rows
      → AllHidden ids k
          (after_first keys env_key io putconn id request now (ok row, connected rows)).1.committed
  unfolding after_first
  after_first-AllHidden id request now none rows h = h
  after_first-AllHidden id request now (some r) rows h =
      subst
        (λ (m : Try (Option ConfigRow) × Session Configs).
          AllHidden ids k (after_second keys env_key io putconn id request now m).1.committed)
        (sym (fetch_config-connected putconn pool id rows))
        (after_second-AllHidden id request now (select_config id rows) rows h
          (select-AllHidden ids k id rows h))

  pub cli_configs_update-AllHidden :
      (id : String) (request : ConfigCreate) (now : ℕ) (rows : Configs)
      → AllHidden ids k rows
      → AllHidden ids k
          (cli_configs_update keys env_key io putconn id request now (connected rows)).1.committed
  unfolding cli_configs_update
  cli_configs_update-AllHidden id request now rows h =
      subst
        (λ (m : Try (Option ConfigRow) × Session Configs).
          AllHidden ids k (after_first keys env_key io putconn id request now m).1.committed)
        (sym (fetch_config-connected putconn pool id rows))
        (after_first-AllHidden id request now (select_config id rows) rows h)
