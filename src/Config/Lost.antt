-- ===== src/Config/Lost.antt =====
-- What the two handlers that change a configuration leave in the table: `update_config` runs its UPDATE
-- by a helper that does not commit, and `cli_configs_update` writes back what it could decrypt.
use finna_app.Prelude.{
  codes, lower, is_infix, ℕ, ◌≡◌, refl, ap, ◌∙◌, String, Bool, true, false, Option, none, some, [],
  ◌∷◌, arith, if◌then◌else◌, Bool-cases, inl, inr,
}
use finna_app.Python.Value.{Value, bool, arr, str, obj, Fields, end, field, get?, truthy}
use finna_app.Python.Dicts.{set_field, keep_keys, some_key, some_key-example}
use finna_app.Python.Try.{Try, ok, ◌>>=◌}
use finna_app.Web.{http_error, Response, body, respond}
use finna_app.Database.{Session, connected}
use finna_app.Database.Laws.{RollsBack, execute-committed}
use finna_app.Config.Encryption.{
  is_listed, looks_sensitive, Crypto, Codecs, Keys, is_sensitive_field, get_encryption_key,
  encrypt_config, decrypt_config, sealed, is_own_key, open_text, plain, secret, key_names,
}
use finna_app.Config.Encryption.Laws.{look, read-sealed, read-unmarked, get?-plain-kept}
use finna_app.Config.Store.{
  write_config, change_config, ConfigRow, Configs, json_cell, select_config, update_row,
}
use finna_app.Config.Routes.{
  set_config, set_type, set_name, ConfigReply, full_reply, nothing_given, sealed_config, updated,
  update_with, update_config, or_missing,
}
use finna_app.Config.Cli.{
  CliReply, cli_reply, stored_as, after_first, after_second, write_rewritten, updated_reply,
  current_config, with_request, set_text, rewritten, json_param, ConfigCreate, cli_configs_update,
}
use finna_app.Config.Hidden.{get?-set_text, fetch_config-connected}
use finna_app.Config.Hidden.Registered.{clear-differs}

select-update_row :
    (id : String) (change : ConfigRow → ConfigRow) (rows : Configs) (r : ConfigRow)
    → ((q : ConfigRow) → (change q).id ≡ q.id)
    → select_config id rows ≡ some r
    → select_config id (update_row id change rows) ≡ some (change r)
unfolding select_config update_row
select-update_row id change [] r keeps found = cc
select-update_row id change (q ∷ rows) r keeps found =
    ground (arith, keeps q, select-update_row id change rows r keeps)

updated-id :
    (name credential_type : Option String) (config : Option Value) (now : ℕ) (r : ConfigRow)
    → (updated name credential_type config now r).id ≡ r.id
unfolding updated set_config set_type set_name
updated-id none none none now r = refl
updated-id none none (some c) now r = refl
updated-id none (some t) none now r = refl
updated-id none (some t) (some c) now r = refl
updated-id (some n) none none now r = refl
updated-id (some n) none (some c) now r = refl
updated-id (some n) (some t) none now r = refl
updated-id (some n) (some t) (some c) now r = refl

-- The reply on a row.
abbrev pub read_row : Keys → Option String → Codecs → ConfigRow → Try ConfigReply
read_row keys env_key io r =
    full_reply io r (decrypt_config keys env_key io (json_cell io r.config))

module _ (putconn : Session Configs → Session Configs) (pool : RollsBack Configs putconn)
    (keys : Keys) (env_key : Option String) (io : Codecs) where
  change_config-connected :
      (id : String) (change : ConfigRow → ConfigRow) (rows : Configs)
      → change_config putconn id change (connected rows)
        ≡ (ok (select_config id (update_row id change rows)), connected rows)
  unfolding change_config
  change_config-connected id change rows =
      rw (pool (record { committed = rows; working = update_row id change rows })) refl

  -- `update_config` answers with the row that its UPDATE returns, and the table stays as it was: the
  -- change that it reports is never committed. Here something is given to change, the encryption
  -- succeeds, the row exists, and the pool rolls back.
  pub update_config_lost :
      (id : String) (name credential_type : Option String) (config : Option Fields) (now : ℕ)
      (rows : Configs) (r : ConfigRow) (stored : Option Value)
      → nothing_given name credential_type config ≡ false
      → sealed_config keys env_key io putconn config ≡ ok stored
      → select_config id rows ≡ some r
      → update_config keys env_key io putconn id name credential_type config now (connected rows)
        ≡ (
          respond (read_row keys env_key io (updated name credential_type stored now r)),
          connected rows,
        )
  unfolding update_config update_with or_missing
  update_config_lost id name credential_type config now rows r stored given sealed found =
      let change = updated name credential_type stored now in
      ap
        (λ (b : Bool).
          if b
          then (http_error 400, connected rows)
          else update_with keys env_key io putconn id name credential_type now
              (sealed_config keys env_key io putconn config) (connected rows))
        given
      ∙ ap
          (λ (s : Try (Option Value)).
            update_with keys env_key io putconn id name credential_type now s (connected rows))
          sealed
      ∙ ap (or_missing keys env_key io putconn) (change_config-connected id change rows)
      ∙ ap (λ (o : Option ConfigRow). or_missing keys env_key io putconn (ok o, connected rows))
          (select-update_row id change rows r (updated-id name credential_type stored now) found)

truthy-set_field : (k : String) (v : Value) (d : Fields) → truthy (obj (set_field k v d)) ≡ true
unfolding truthy set_field
truthy-set_field k v end = refl
truthy-set_field k v (field j w d) = ground arith

-- A dict without secrets is stored as it is.
encrypt_config-clear :
    (keys : Keys) (env_key : Option String) (io : Codecs) (d : Fields)
    → ((k : String) → is_sensitive_field k ≡ true → get? d k ≡ none)
    → encrypt_config keys env_key io (obj d) ≡ ok (obj d)
unfolding encrypt_config
encrypt_config-clear keys env_key io d clear = elim (Bool-cases (some_key is_sensitive_field d)) [
  | inl h ↦
      let (k, p, v, e) = some_key-example is_sensitive_field d h in let absent = clear k p in cc
  | inr h ↦ ground arith
]

cloud_config-clear : is_sensitive_field "cloud_config" ≡ false
unfolding is_sensitive_field is_listed looks_sensitive codes lower is_infix
cloud_config-clear = refl

service_category-clear : is_sensitive_field "service_category" ≡ false
unfolding is_sensitive_field is_listed looks_sensitive codes lower is_infix
service_category-clear = refl

region-clear : is_sensitive_field "region" ≡ false
unfolding is_sensitive_field is_listed looks_sensitive codes lower is_infix
region-clear = refl

-- What `cli_configs_update` reads of a row that was sealed with another key.
truthy-sealed :
    (io : Codecs) (crypto : Crypto) (config : Fields)
    → truthy (obj (sealed io crypto config)) ≡ true
unfolding sealed
truthy-sealed io crypto config =
    truthy-set_field "__fields__" (arr (key_names is_sensitive_field config)) (
      set_field "__data__" (str (crypto.encrypt (io.dumps (secret config))))
        (set_field "__enc__" (bool true) (plain config)))

module _ (keys : Keys) (env_key : Option String) (io : Codecs) (made other : Crypto)
    (config : Fields) (has_key : get_encryption_key keys env_key ≡ ok other)
    (fails : (text : String) → other.decrypt (made.encrypt text) ≡ none) where
  abbrev remains : Fields
  remains = keep_keys is_own_key (sealed io made config)

  read-other : decrypt_config keys env_key io (obj (sealed io made config)) ≡ obj remains
  read-other =
      read-sealed keys env_key io config made other has_key
      ∙ ap (λ (o : Option String). obj (open_text io (sealed io made config) o))
          (fails (io.dumps (secret config)))

  current-other :
      (putconn : Session Configs → Session Configs) (r : ConfigRow)
      → r.config ≡ obj (sealed io made config)
      → current_config keys env_key io putconn (some r) ≡ obj remains
  unfolding current_config
  current-other putconn r e =
      ap
        (λ (v : Value).
          if truthy (json_cell io v)
          then decrypt_config keys env_key io (json_cell io v)
          else obj end)
        e
      ∙ ground (arith, read-other, truthy-sealed io made config)

  remains-clear : (k : String) → is_sensitive_field k ≡ true → get? remains k ≡ none
  remains-clear k h = ground (arith, get?-plain-kept io made config k)

  remains-own : (k : String) → is_own_key k ≡ false → get? remains k ≡ none
  remains-own k h = ground (arith, get?-plain-kept io made config k)

  module _ (putconn : Session Configs → Session Configs) (pool : RollsBack Configs putconn) where
    request_in-clear :
        (request : ConfigCreate) (d : Fields) (k : String)
        → is_sensitive_field k ≡ true
        → get? d k ≡ none
        → get? (with_request request d) k ≡ none
    unfolding with_request
    request_in-clear request d k sensitive absent = ground (
      arith,
      get?-set_text k "cloud_config" request.cloud_config
          (set_text "service_category" request.service_category
            (set_text "region" request.region d))
          (clear-differs putconn pool keys env_key io [] k sensitive "cloud_config"
            cloud_config-clear),
      get?-set_text k "service_category" request.service_category
          (set_text "region" request.region d)
          (clear-differs putconn pool keys env_key io [] k sensitive "service_category"
            service_category-clear),
      get?-set_text k "region" request.region d
          (clear-differs putconn pool keys env_key io [] k sensitive "region" region-clear),
    )

    request_in-mark :
        (request : ConfigCreate) (d : Fields)
        → get? d "__enc__" ≡ none
        → get? (with_request request d) "__enc__" ≡ none
    unfolding with_request
    request_in-mark request d absent = ground (
      arith,
      get?-set_text "__enc__" "cloud_config" request.cloud_config
          (set_text "service_category" request.service_category
            (set_text "region" request.region d))
          refl,
      get?-set_text "__enc__" "service_category" request.service_category
          (set_text "region" request.region d) refl,
      get?-set_text "__enc__" "region" request.region d refl,
    )

    rewritten-other :
        (request : ConfigCreate)
        → rewritten keys env_key io putconn request (obj remains)
          ≡ ok (obj (with_request request remains))
    unfolding rewritten json_param
    rewritten-other request =
        ap (λ (s : Try Value). s >>= json_param io)
          (encrypt_config-clear keys env_key io (with_request request remains)
            (λ (k : String) (h : is_sensitive_field k ≡ true).
              request_in-clear request remains k h (remains-clear k h)))

    cli_configs_update-eq :
        (id : String) (request : ConfigCreate) (now : ℕ) (rows : Configs) (r : ConfigRow)
        → select_config id rows ≡ some r
        → r.config ≡ obj (sealed io made config)
        → cli_configs_update keys env_key io putconn id request now (connected rows) ≡ (
          body (cli_reply id request now),
          connected (
              update_row id
                (stored_as keys env_key io putconn request (obj (with_request request remains)) now)
                rows),
        )
    unfolding cli_configs_update after_first after_second write_rewritten write_config
    cli_configs_update-eq id request now rows r found e =
        let change =
          stored_as keys env_key io putconn request (obj (with_request request remains)) now in
        ap (after_first keys env_key io putconn id request now)
          (fetch_config-connected putconn pool id rows)
        ∙ ap
            (λ (o : Option ConfigRow).
              after_first keys env_key io putconn id request now (ok o, connected rows))
            found
        ∙ ap (after_second keys env_key io putconn id request now)
            (fetch_config-connected putconn pool id rows)
        ∙ ap
            (λ (o : Option ConfigRow).
              after_second keys env_key io putconn id request now (ok o, connected rows))
            found
        ∙ ap
            (λ (v : Value).
              write_rewritten keys env_key io putconn id request now
                (rewritten keys env_key io putconn request v) (connected rows))
            (current-other putconn r e)
        ∙ ap
            (λ (v : Try Value).
              write_rewritten keys env_key io putconn id request now v (connected rows))
            (rewritten-other request)
        ∙ ap (updated_reply keys env_key io putconn (cli_reply id request now)) (
            execute-committed putconn (λ (old : Configs). ok (tt, update_row id change old)) pool
              rows (update_row id change rows) tt refl)

    -- A row that was sealed with another key than the present one, which does not open it:
    -- `cli_configs_update` reports success, and what it leaves in the row gives none of the secrets to
    -- anyone, not even under the key that they were sealed with.
    pub cli_configs_update_loses_secrets :
        (id : String) (request : ConfigCreate) (now : ℕ) (rows : Configs) (r : ConfigRow)
        (reader : Keys) (reader_key : Option String) (k : String)
        → select_config id rows ≡ some r
        → r.config ≡ obj (sealed io made config)
        → is_sensitive_field k ≡ true
        → ((cli_configs_update keys env_key io putconn id request now (connected rows)).0
            ≡ body (cli_reply id request now))
          × (q : ConfigRow) × (select_config id
                (cli_configs_update keys env_key io putconn id request now
                  (connected rows)).1.committed
              ≡ some q)
          × (look (decrypt_config reader reader_key io q.config) k ≡ none)
    unfolding is_own_key
    cli_configs_update_loses_secrets id request now rows r reader reader_key k found e sensitive =
        let change =
          stored_as keys env_key io putconn request (obj (with_request request remains)) now in
        let same = cli_configs_update-eq id request now rows r found e in
        (
          ap (λ (m : Response CliReply × Session Configs). m.0) same,
          change r,
          ap (λ (m : Response CliReply × Session Configs). select_config id m.1.committed) same
              ∙ select-update_row id change rows r (λ (q : ConfigRow). refl) found,
          ap (λ (v : Value). look v k)
                (read-unmarked reader reader_key io (with_request request remains)
                  (request_in-mark request remains (remains-own "__enc__" refl)))
              ∙ request_in-clear request remains k sensitive (remains-clear k sensitive),
        )
