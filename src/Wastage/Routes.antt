-- ===== src/Wastage/Routes.antt =====
-- backend/app/api/routes/wastage.py: the handlers that change a finding or start a scan. Each begins
-- behind `require_auth`, which is no part of them.
pub mod Laws
use finna_app.Prelude.{ℕ, String, Bool, true, false, Option, none, some, ◌==◌, if◌then◌else◌}
use finna_app.Python.Value.{str, Fields, end, field}
use finna_app.Python.Try.{Try, ok, raise}
use finna_app.Web.{Response, body, http_error, crash}
use finna_app.Database.{Session}
use finna_app.Wastage.Tables.{WastageStatus, acked, resolved, ignored, Db}
use finna_app.Wastage.Queries.{set_finding_status, create_scan_run}

abbrev or_404 : {A : Type 0} → A → Try Bool × Session Db → Response A × Session Db
or_404 reply (ok true, c) = (body reply, c)
or_404 reply (ok false, c) = (http_error 404, c)
or_404 reply (raise e, c) = (crash e, c)

module _ (putconn : Session Db → Session Db) where
  unfoldable pub ack_finding :
      String → ℕ → Session Db → Response (String × WastageStatus) × Session Db
  ack_finding finding_id now c =
      or_404 (finding_id, acked) (set_finding_status putconn finding_id acked none now c)

  unfoldable pub resolve_finding :
      String → ℕ → Session Db → Response (String × WastageStatus) × Session Db
  resolve_finding finding_id now c =
      or_404 (finding_id, resolved) (set_finding_status putconn finding_id resolved none now c)

  ignore_tags : String → Option Fields
  ignore_tags reason = if reason == "" then none else some (field "ignore_reason" (str reason) end)

  unfoldable pub ignore_finding :
      String → String → ℕ → Session Db → Response (String × WastageStatus × String) × Session Db
  unfolding ignore_tags
  ignore_finding finding_id reason now c =
      or_404 (finding_id, ignored, reason)
        (set_finding_status putconn finding_id ignored (ignore_tags reason) now c)

  -- The record may fail to be made; the reply is the same. `run_id` is the new UUID.
  unfoldable pub trigger_scan :
      Bool → String → String → ℕ → Session Db → Response (String × String) × Session Db
  unfolding create_scan_run
  trigger_scan runner_available provider run_id now c =
      if runner_available
      then (body (run_id, provider), (create_scan_run putconn provider run_id now c).1)
      else (http_error 503, c)
