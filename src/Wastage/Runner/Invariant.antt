-- ===== src/Wastage/Runner/Invariant.antt =====
-- An invariant of the upsert and of the resolving update is an invariant of the whole scan, on every
-- path through it.
use finna_app.Prelude.{ℕ, ◌≡◌, refl, String, Option, none, some, List, map, Bool-cases, inl, inr}
use finna_app.Python.Value.{Builtins}
use finna_app.Python.Try.{Try, ok, raise}
use finna_app.Wastage.Finding.{Finding, Registry, PriceLookup}
use finna_app.Wastage.Tables.{
  WastageRow, ScanRun, Db, upsert, new_row, resolve_row, insert_run, cutoff_run,
}
use finna_app.Wastage.Runner.{
  Inventory, Faults, connected, Conn, Progress, commit, rollback, update_findings, scan_rows,
  written, resolve_before, or_rollback, auto_resolve_stale, commit_scan, scan_body, finish, create,
  started, run_scan, provider_rules,
}
use finna_app.Wastage.Runner.Loop.{scan_rows_inv}

-- Both views of a connection satisfy the predicate.
record Holds (P : List WastageRow → Type 0) (c : Conn) : Type 0 where
  committed : P c.committed.findings
  working : P c.working.findings

module _ (P : List WastageRow → Type 0)
    (resolve_step : (provider : String) (cutoff : ℕ) (rows : List WastageRow)
      → P rows
      → P (map (resolve_row provider cutoff) rows)) where
  resolve_before-Holds :
      (faults : Faults) (provider : String) (cutoff : Option ℕ) (c : Conn)
      → Holds P c
      → Holds P (resolve_before faults provider cutoff c)
  unfolding resolve_before
  resolve_before-Holds faults provider none c h = h
  resolve_before-Holds faults provider (some t) c h =
      let k = resolve_step provider t c.working.findings h.working in
      elim (Bool-cases faults.auto_resolve) [
        | inl e ↦ rw e (record { committed = h.committed; working = h.committed })
        | inr e ↦ rw e (record { committed = k; working = k })
      ]

  or_rollback-Holds :
      (faults : Faults) (provider : String) (t : Try (Option ℕ)) (c : Conn)
      → Holds P c
      → Holds P (or_rollback (resolve_before faults provider) t c)
  unfolding or_rollback rollback
  or_rollback-Holds faults provider (ok cutoff) c h =
      resolve_before-Holds faults provider cutoff c h
  or_rollback-Holds faults provider (raise x) c h = record {
    committed = h.committed;
    working = h.committed;
  }

  auto_resolve_stale-Holds :
      (faults : Faults) (provider : String) (threshold : ℕ) (c : Conn)
      → Holds P c
      → Holds P (auto_resolve_stale faults provider threshold c)
  unfolding auto_resolve_stale
  auto_resolve_stale-Holds faults provider threshold c h =
      let rest =
        or_rollback-Holds faults provider (cutoff_run provider threshold c.working.runs) c h in
      elim (Bool-cases faults.read_cutoff) [
        | inl e ↦ rw e (record { committed = h.committed; working = h.committed })
        | inr e ↦ rw e rest
      ]

  module _ (py : Builtins) (faults : Faults) (registry : Registry) (pricing : PriceLookup)
      (provider : String) (threshold : ℕ) (run_id : String) (now finished_at : ℕ)
      (upsert_step : (f : Finding) (new : WastageRow) (xs ys : List WastageRow) (k : ℕ)
        → new_row py now f ≡ ok new
        → upsert new xs ≡ ok ys
        → P xs
        → P ys) where
    -- A body that returns leaves both views well, one that raises what is committed.
    abbrev Leaves : Try ℕ × Conn → Type 0
    Leaves (ok count, c) = Holds P c
    Leaves (raise e, c) = P c.committed.findings

    commit_scan-Leaves :
        (t : Try Progress) (last : Progress) (c : Conn)
        → Holds P c
        → ((p : Progress) → t ≡ ok p → P p.0)
        → Leaves (
            commit_scan py faults registry pricing provider threshold run_id now finished_at t last
              c)
    unfolding commit_scan
    commit_scan-Leaves (raise e) (table, count) c before h = before.committed
    commit_scan-Leaves (ok (table, count)) last c before h =
        let stored = commit (update_findings (λ _. table) c) in
        let k = h (table, count) refl in
        let rest =
          auto_resolve_stale-Holds faults provider threshold stored
            (record { committed = k; working = k }) in
        elim (Bool-cases faults.commit_findings) [
          | inl f ↦ rw f (before.committed)
          | inr f ↦ rw f rest
        ]

    scan_body-Leaves :
        (inventory : Inventory) (c : Conn)
        → Holds P c
        → Leaves (
            scan_body py faults registry pricing provider threshold run_id now finished_at inventory
              c)
    unfolding scan_body
    scan_body-Leaves inventory c h =
        let rules = provider_rules provider registry in
        commit_scan-Leaves (scan_rows py faults pricing now rules inventory (c.working.findings, 0))
          (written py faults pricing now rules inventory (c.working.findings, 0)) c h
          (λ p e.
            scan_rows_inv (λ q. P q.0) py faults pricing now upsert_step rules inventory
              (c.working.findings, 0) p e h.working)

    finish-Holds :
        (t : Try ℕ × Conn)
        → Leaves t
        → P
            (finish py faults registry pricing provider threshold run_id now finished_at
              t).1.committed.findings
    unfolding finish
    finish-Holds (ok count, c) h = elim (Bool-cases faults.close_run) [
      | inl e ↦ rw e (h.committed)
      | inr e ↦ rw e (h.working)
    ]
    finish-Holds (raise x, c) h = elim (Bool-cases faults.close_run) [
      | inl e ↦ rw e h
      | inr e ↦ rw e h
    ]

    started-Holds :
        (inventory : Inventory) (c : Conn) (t : Try (List ScanRun))
        → Holds P c
        → P
            (started py faults registry pricing provider threshold run_id now finished_at inventory
              c
              (create py faults registry pricing provider threshold run_id now finished_at t
                c)).1.committed.findings
    unfolding started create
    started-Holds inventory c (ok runs) h =
        let c' : Conn = record {
          committed = record (c.working) { runs = runs };
          working = record (c.working) { runs = runs };
        } in
        let h' : Holds P c' = record { committed = h.working; working = h.working } in
        finish-Holds
          (scan_body py faults registry pricing provider threshold run_id now finished_at inventory
            c')
          (scan_body-Leaves inventory c' h')
    started-Holds inventory c (raise x) h = h.committed

    pub run_scan_inv :
        (inventory : Inventory) (db : Db)
        → P db.findings
        → P
            (run_scan py faults registry pricing provider threshold run_id now finished_at inventory
              (connected db)).1.committed.findings
    unfolding run_scan
    run_scan_inv inventory db h =
        let rest =
          started-Holds inventory (connected db) (insert_run run_id provider now db.runs)
            (record { committed = h; working = h }) in
        elim (Bool-cases faults.create_run) [ inl e ↦ simp e h | inr e ↦ simp e rest ]
