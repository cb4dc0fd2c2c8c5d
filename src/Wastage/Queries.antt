-- ===== src/Wastage/Queries.antt =====
-- backend/app/api/queries/wastage_queries.py: the statements over the findings, and the helpers that
-- run them.
use finna_app.Prelude.{ℕ, String, Bool, Option, none, some, map, ◌==◌, if◌then◌else◌, exists}
use finna_app.Python.Value.{Value, arr, obj, Items, nil, cons, Fields, end, field}
use finna_app.Python.Dicts.{update}
use finna_app.Python.Try.{Try, ok, raise}
use finna_app.Database.{Session, Statement, query, execute}
use finna_app.Wastage.Tables.{WastageRow, WastageStatus, Db, insert_run}

as_items : Value → Items
as_items (arr vs) = vs
as_items v = cons v nil

append_items : Items → Items → Items
append_items nil vs = vs
append_items (cons u us) vs = cons u (append_items us vs)

-- `jsonb || jsonb`: two objects are merged, the right one wins; else both are joined as arrays.
unfoldable pub jsonb_concat : Value → Value → Value
unfolding update as_items append_items
jsonb_concat (obj d) (obj e) = obj (update d e)
jsonb_concat v w = arr (append_items (as_items v) (as_items w))

unfoldable pub tags_with : Value → Option Fields → Value
unfolding jsonb_concat
tags_with tags none = tags
tags_with tags (some end) = tags
tags_with tags (some (field k v d)) = jsonb_concat tags (obj (field k v d))

-- The UPDATE of `set_finding_status` on one row.
unfoldable pub restatus : String → WastageStatus → Option Fields → ℕ → WastageRow → WastageRow
unfolding tags_with
restatus finding_id status extra_tags now r =
    if r.finding_id == finding_id
    then (record r { status = status; tags = tags_with r.tags extra_tags; last_seen_at = now })
    else r

-- UPDATE ... RETURNING finding_id: whether a row came back.
unfoldable pub update_status : String → WastageStatus → Option Fields → ℕ → Statement Db Bool
unfolding restatus
update_status finding_id status extra_tags now db = ok (
  exists (λ r. r.finding_id == finding_id) db.findings,
  record db { findings = map (restatus finding_id status extra_tags now) db.findings },
)

module _ (putconn : Session Db → Session Db) where
  -- `set_finding_status`, by `query_one`
  unfoldable pub set_finding_status :
      String → WastageStatus → Option Fields → ℕ → Session Db → Try Bool × Session Db
  unfolding update_status query
  set_finding_status finding_id status extra_tags now =
      query putconn (update_status finding_id status extra_tags now)

  -- `create_scan_run`, by `insert_and_return`
  unfoldable pub create_scan_run : String → String → ℕ → Session Db → Try String × Session Db
  unfolding insert_run execute
  create_scan_run provider run_id now = execute putconn (λ db.
      elim (insert_run run_id provider now db.runs) [
        | ok runs ↦ ok (run_id, record db { runs = runs })
        | raise e ↦ raise e
      ])
