-- ===== src/Config/Store.antt =====
-- The table `cloud_config` and the statements that backend/app/api/routes/config.py and
-- backend/app/api/routes/auth.py run on it, through the helpers of backend/app/api/db.py. The column
-- `config` is JSON.
use finna_app.Prelude.{
  ℕ, String, ◌&&◌, Option, none, some, List, [], ◌∷◌, ◌++◌, map, ◌==◌, if◌then◌else◌, codes,
  is_prefix, is_infix, exists,
}
use finna_app.Python.Value.{Value, str}
use finna_app.Python.Try.{Try, ok, raise, db_error}
use finna_app.Database.{Session, Statement, query, execute}
use finna_app.Config.Encryption.{Codecs}

pub record ConfigRow : Type 0 where
  pub id : String
  pub provider : String
  pub name : String
  pub credential_type : String
  pub config : Value
  pub created_at : ℕ
  pub updated_at : ℕ
  pub last_test : Option String
  pub last_test_at : Option ℕ
  pub err : Option String

abbrev pub Configs : Type 0
Configs = List ConfigRow

abbrev or_text : String → Option Value → Value
or_text text none = str text
or_text text (some v) = v

-- What `query_one` and `query_all` make of a text: one that looks like an object is read as JSON.
unfoldable pub cell : Codecs → String → Value
cell io text =
    if is_prefix (codes "{") (codes text) && is_infix (codes ":") (codes text)
    then or_text text (io.loads text)
    else str text

-- The same of a JSON column.
unfoldable pub json_cell : Codecs → Value → Value
unfolding cell
json_cell io (str text) = cell io text
json_cell io v = v

-- INSERT INTO cloud_config: the id is the primary key.
unfoldable pub insert_config : ConfigRow → Statement Configs String
insert_config row rows =
    if exists (λ r. r.id == row.id) rows then raise db_error else ok (row.id, rows ++ (row ∷ []))

unfoldable pub select_config : String → Configs → Option ConfigRow
select_config id [] = none
select_config id (r ∷ rows) = if r.id == id then some r else select_config id rows

-- DELETE FROM cloud_config WHERE id = %s
unfoldable pub delete_row : String → Configs → Configs
delete_row id [] = []
delete_row id (r ∷ rows) = if r.id == id then delete_row id rows else r ∷ delete_row id rows

-- UPDATE cloud_config SET … WHERE id = %s
unfoldable pub update_row : String → (ConfigRow → ConfigRow) → Configs → Configs
update_row id change rows = map (λ r. if r.id == id then change r else r) rows

module _ (putconn : Session Configs → Session Configs) where
  -- `query_one` of a SELECT by id
  unfoldable pub fetch_config : String → Session Configs → Try (Option ConfigRow) × Session Configs
  unfolding query select_config
  fetch_config id = query putconn (λ rows. ok (select_config id rows, rows))

  -- `query_one` of the UPDATE … RETURNING of `update_config`
  unfoldable pub change_config :
      String → (ConfigRow → ConfigRow) → Session Configs → Try (Option ConfigRow) × Session Configs
  unfolding query select_config update_row
  change_config id change =
      query putconn
        (λ rows. ok (select_config id (update_row id change rows), update_row id change rows))

  -- `execute` of the UPDATE of `cli_configs_update`
  unfoldable pub write_config :
      String → (ConfigRow → ConfigRow) → Session Configs → Try {0} Unit × Session Configs
  unfolding execute update_row
  write_config id change = execute putconn (λ rows. ok (tt, update_row id change rows))

  -- `insert_and_return` of an INSERT
  unfoldable pub add_config : ConfigRow → Session Configs → Try String × Session Configs
  unfolding execute insert_config
  add_config row = execute putconn (insert_config row)

  -- `execute` of the DELETE
  unfoldable pub remove_config : String → Session Configs → Try {0} Unit × Session Configs
  unfolding execute delete_row
  remove_config id = execute putconn (λ rows. ok (tt, delete_row id rows))

  -- The same where the configuration has to be encrypted first.
  unfoldable pub store_row : ConfigRow → Try Value → Session Configs → Try String × Session Configs
  unfolding add_config
  store_row row (ok stored) c = add_config (record row { config = stored }) c
  store_row row (raise e) c = (raise e, c)
