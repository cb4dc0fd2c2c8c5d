-- ===== src/Wastage/Routes/Laws.antt =====
-- What the handlers reply, and what they leave in the table.
use finna_app.Prelude.{ℕ, ◌≡◌, String, Bool, Option, none, arith, ◌==◌, if◌then◌else◌, exists}
use finna_app.Python.Value.{Fields}
use finna_app.Python.Try.{ok}
use finna_app.Database.{Session, connected}
use finna_app.Database.Laws.{RollsBack, query-committed}
use finna_app.Wastage.Tables.{WastageStatus, acked, resolved, ignored, Db}
use finna_app.Wastage.Queries.{set_finding_status, update_status}
use finna_app.Wastage.Routes.{
  body, http_error, ack_finding, resolve_finding, ignore_finding, ignore_tags,
}

abbrev pub known : String → Db → Bool
known finding_id db = exists (λ r. r.finding_id == finding_id) db.findings

module _ (putconn : Session Db → Session Db) (pool : RollsBack Db putconn) where
  set_finding_status-lost :
      (finding_id : String) (status : WastageStatus) (extra : Option Fields) (now : ℕ) (db : Db)
      → set_finding_status putconn finding_id status extra now (connected db)
        ≡ (ok (known finding_id db), connected db)
  unfolding set_finding_status
  set_finding_status-lost finding_id status extra now db =
      let lost = query-committed putconn (update_status finding_id status extra now) pool db in
      ground (arith, lost)

  -- With a pool that rolls a returned connection back, the handlers that acknowledge, resolve and
  -- ignore a finding reply with the new status if the finding exists and with 404 if not, and in
  -- either case leave the database as it was: the update is never committed.
  pub status_changes_lost :
      (finding_id reason : String) (now : ℕ) (db : Db)
      → (ack_finding putconn finding_id now (connected db) ≡ (
        (if known finding_id db then body (finding_id, acked) else http_error 404),
        connected db,
      ))
        × (resolve_finding putconn finding_id now (connected db) ≡ (
          (if known finding_id db then body (finding_id, resolved) else http_error 404),
          connected db,
        ))
        × (ignore_finding putconn finding_id reason now (connected db) ≡ (
          (if known finding_id db then body (finding_id, ignored, reason) else http_error 404),
          connected db,
        ))
  unfolding ack_finding resolve_finding ignore_finding
  status_changes_lost finding_id reason now db = (
    ground (arith, set_finding_status-lost finding_id acked none now db),
    ground (arith, set_finding_status-lost finding_id resolved none now db),
    ground (arith, set_finding_status-lost finding_id ignored (ignore_tags putconn reason) now db),
  )
