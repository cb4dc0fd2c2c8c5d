-- ===== src/Config/Hidden.antt =====
-- What the table of configurations holds in the clear, whatever requests are served.
pub mod Handlers
pub mod Registered
pub mod Rewritten
use finna_app.Prelude.{
  subst, ℕ, ◌≡◌, refl, sym, ap, ◌∙◌, ◌⊎◌, inl, inr, String, Bool, true, false, Option, none, some,
  List, [], ◌∷◌, ◌++◌, map, arith, ◌==◌, eq_iff, if◌then◌else◌, Bool-cases, exists,
}
use finna_app.Python.Value.{
  Value, null, bool, num, str, arr, obj, Fields, end, field, get?, get, truthy,
}
use finna_app.Python.Dicts.{some_key, set_field, get?-set_field}
use finna_app.Python.Try.{Try, ok, raise, Exc, >>=-eq-ok, Try-cases}
use finna_app.Database.{Session, connected}
use finna_app.Database.Laws.{
  RollsBack, query-committed, execute-committed, execute-raised, execute-keeps,
}
use finna_app.Config.Encryption.{
  Crypto, sealed, Codecs, Keys, is_sensitive_field, encrypt_config, decrypt_config,
  get_encryption_key, seal, is_true, unseal,
}
use finna_app.Config.Encryption.Laws.{look, encrypt_config-hides}
use finna_app.Config.Store.{
  store_row, ConfigRow, Configs, json_cell, insert_config, select_config, delete_row, update_row,
  fetch_config, change_config, write_config, add_config, remove_config,
}
use finna_app.Config.Routes.{
  ConfigReply, create_reply, done, updated, nothing_given, sealed_config, new_config, added,
  or_missing, update_with, create_config, update_config, delete_config,
}
use finna_app.Config.Cli.{
  ConfigCreate, cli_configs_create, cli_configs_update, cli_configs_delete, register_gcp,
  register_azure_service_account, azure_config, with_request, set_text, rewritten, current_config,
}

pub fetch_config-connected :
    (putconn : Session Configs → Session Configs) (pool : RollsBack Configs putconn) (id : String)
    (rows : Configs)
    → fetch_config putconn id (connected rows) ≡ (ok (select_config id rows), connected rows)
unfolding fetch_config
fetch_config-connected putconn pool id rows = rw (pool (connected rows)) refl

pub get?-set_text :
    (k j : String) (text : Option String) (d : Fields)
    → (j == k) ≡ false
    → get? (set_text j text d) k ≡ get? d k
unfolding set_text
get?-set_text k j none d h = refl
get?-set_text k j (some text) d h = ground (arith, get?-set_field j k (str text) d)

-- A stored configuration is an object without the key `k`; where its id is one of `ids`, those of the Azure
-- registrations, it may hold the client secret.
abbrev pub IsHidden : List String → String → String → Value → Type 0
IsHidden ids k id (obj d) =
    (get? d k ≡ none) ⊎ ((exists (λ j. j == id) ids ≡ true) × ((k == "client_secret") ≡ true))
IsHidden ids k id _ = ⊥

abbrev pub AllHidden : List String → String → Configs → Type 0
AllHidden ids k [] = Unit
AllHidden ids k (r ∷ rows) = IsHidden ids k r.id r.config × AllHidden ids k rows

sealed-IsObject :
    (io : Codecs) (config : Fields) (key : Try Crypto) (stored : Value)
    → seal io config key ≡ ok stored
    → (d : Fields) × (stored ≡ obj d)
unfolding sealed
sealed-IsObject io config (raise e) stored returned = cc
sealed-IsObject io config (ok crypto) stored returned = (sealed io crypto config, cc)

pub encrypt_config-IsObject :
    (keys : Keys) (env_key : Option String) (io : Codecs) (config : Fields) (stored : Value)
    → encrypt_config keys env_key io (obj config) ≡ ok stored
    → (d : Fields) × (stored ≡ obj d)
unfolding encrypt_config
encrypt_config-IsObject keys env_key io config stored returned =
    elim (Bool-cases (some_key is_sensitive_field config)) [
      | inl h ↦ sealed-IsObject io config (get_encryption_key keys env_key) stored (ground arith)
      | inr h ↦ (config, ground arith)
    ]

pub look-IsHidden :
    (ids : List String) (k id : String) (v : Value)
    → (d : Fields) × (v ≡ obj d)
    → look v k ≡ none
    → IsHidden ids k id v
look-IsHidden ids k id v (d, e) h = rw e (inl (ap (λ (w : Value). look w k) (sym e) ∙ h))

pub encrypt_config-IsHidden :
    (keys : Keys) (env_key : Option String) (io : Codecs) (config : Fields) (ids : List String)
    (k id : String) (stored : Value)
    → encrypt_config keys env_key io (obj config) ≡ ok stored
    → is_sensitive_field k ≡ true
    → IsHidden ids k id stored
encrypt_config-IsHidden keys env_key io config ids k id stored returned sensitive =
    look-IsHidden ids k id stored (encrypt_config-IsObject keys env_key io config stored returned)
      (encrypt_config-hides keys env_key io config stored k returned sensitive)

module _ (ids : List String) (k : String) where
  pub append-AllHidden :
      (rows : Configs) (r : ConfigRow)
      → AllHidden ids k rows
      → IsHidden ids k r.id r.config
      → AllHidden ids k (rows ++ (r ∷ []))
  append-AllHidden [] r h p = (p, tt)
  append-AllHidden (q ∷ rows) r h p = (h.0, append-AllHidden rows r h.1 p)

  pub delete-AllHidden :
      (id : String) (rows : Configs) → AllHidden ids k rows → AllHidden ids k (delete_row id rows)
  unfolding delete_row
  delete-AllHidden id [] h = tt
  delete-AllHidden id (r ∷ rows) h = ground (arith, delete-AllHidden id rows h.1)

  pub update-AllHidden :
      (id : String) (change : ConfigRow → ConfigRow) (rows : Configs)
      → ((r : ConfigRow) → IsHidden ids k (change r).id (change r).config)
      → AllHidden ids k rows
      → AllHidden ids k (update_row id change rows)
  unfolding update_row
  update-AllHidden id change [] p h = tt
  update-AllHidden id change (r ∷ rows) p h =
      ground (arith, p r, update-AllHidden id change rows p h.1)

  abbrev pub FoundHidden : Option ConfigRow → Type 0
  FoundHidden none = Unit
  FoundHidden (some r) = IsHidden ids k r.id r.config

  pub select-AllHidden :
      (id : String) (rows : Configs) → AllHidden ids k rows → FoundHidden (select_config id rows)
  unfolding select_config
  select-AllHidden id [] h = tt
  select-AllHidden id (q ∷ rows) h = ground (arith, select-AllHidden id rows h.1)

  module _ (putconn : Session Configs → Session Configs) (pool : RollsBack Configs putconn) where
    inserted :
        (row : ConfigRow) (rows : Configs) (id : String) (t : Configs)
        → AllHidden ids k rows
        → IsHidden ids k row.id row.config
        → insert_config row rows ≡ ok (id, t)
        → AllHidden ids k t
    unfolding insert_config
    inserted row rows id t h p e = ground (
      arith,
      append-AllHidden rows row h p,
      Bool-cases (exists (λ (r : ConfigRow). r.id == row.id) rows),
    )

    pub add_config-AllHidden :
        (row : ConfigRow) (rows : Configs)
        → AllHidden ids k rows
        → IsHidden ids k row.id row.config
        → AllHidden ids k (add_config putconn row (connected rows)).1.committed
    unfolding add_config
    add_config-AllHidden row rows h p =
        execute-keeps putconn (insert_config row) pool (AllHidden ids k) rows h
          (λ (id : String) (t : Configs) (e : insert_config row rows ≡ ok (id, t)).
            inserted row rows id t h p e)

    pub store_row-AllHidden :
        (row : ConfigRow) (stored : Try Value) (rows : Configs)
        → AllHidden ids k rows
        → ((v : Value) → stored ≡ ok v → IsHidden ids k row.id v)
        → AllHidden ids k (store_row putconn row stored (connected rows)).1.committed
    unfolding store_row
    store_row-AllHidden row (raise e) rows h p = h
    store_row-AllHidden row (ok v) rows h p =
        add_config-AllHidden (record row { config = v }) rows h (p v refl)

    pub remove_config-AllHidden :
        (id : String) (rows : Configs)
        → AllHidden ids k rows
        → AllHidden ids k (remove_config putconn id (connected rows)).1.committed
    unfolding remove_config
    remove_config-AllHidden id rows h =
        execute-keeps putconn (λ (old : Configs). ok (tt, delete_row id old)) pool (AllHidden ids k)
          rows h
          (λ (u : Unit) (t : Configs) (e : ok (tt, delete_row id rows) ≡ ok (u, t)).
            ground (arith, delete-AllHidden id rows h))

    pub write_config-AllHidden :
        (id : String) (change : ConfigRow → ConfigRow) (rows : Configs)
        → ((r : ConfigRow) → IsHidden ids k (change r).id (change r).config)
        → AllHidden ids k rows
        → AllHidden ids k (write_config putconn id change (connected rows)).1.committed
    unfolding write_config
    write_config-AllHidden id change rows p h =
        execute-keeps putconn (λ (old : Configs). ok (tt, update_row id change old)) pool
          (AllHidden ids k) rows h
          (λ (u : Unit) (t : Configs) (e : ok (tt, update_row id change rows) ≡ ok (u, t)).
            ground (arith, update-AllHidden id change rows p h))

-- What is hidden but for some registrations is so but for one more.
later-IsHidden :
    (new k id : String) (ids : List String) (v : Value)
    → IsHidden ids k id v
    → IsHidden (new ∷ ids) k id v
later-IsHidden new k id ids (obj d) (inl h) = inl h
later-IsHidden new k id ids (obj d) (inr (h, s)) = inr (ground (arith, h), s)
later-IsHidden new k id ids _ h = elim h [ ]

pub later-AllHidden :
    (new k : String) (ids : List String) (rows : Configs)
    → AllHidden ids k rows
    → AllHidden (new ∷ ids) k rows
later-AllHidden new k ids [] h = tt
later-AllHidden new k ids (r ∷ rows) h =
    (later-IsHidden new k r.id ids r.config h.0, later-AllHidden new k ids rows h.1)
