-- ===== src/Wastage/Runner/Outcome.antt =====
-- How a scan ends: the run record, the count of findings, and the rollback of a failed scan.
use finna_app.Prelude.{
  ℕ, ◌+◌, ◌≡◌, refl, ap, ◌∙◌, String, false, Option, none, some, List, [], ◌∷◌, ◌++◌, map, arith,
  ◌==◌, eq_refl, exists, if◌then◌else◌, Bool-cases, inl, inr,
}
use finna_app.Python.Value.{Fields, Builtins}
use finna_app.Python.Try.{Try, ok, raise, Exc, >>=-eq-ok, Try-cases}
use finna_app.Wastage.Finding.{Finding, Registry, PriceLookup}
use finna_app.Wastage.Tables.{
  ScanRun, RunStatus, running, done, failed, Db, upsert, new_row, cutoff_run, close_row,
}
use finna_app.Wastage.Runner.{
  Inventory, finished, broken, resource, Faults, connected, Conn, Progress, commit, update_findings,
  write_finding, apply_rule, apply_rules, scan_rows, written, resolve_before, auto_resolve_stale,
  commit_scan, scan_body, finish, run_scan, provider_rules,
}

-- How many of the rules flag the row, and how many findings the inventory gives.
abbrev count_finding : Try (Option Finding) → ℕ → ℕ
count_finding (ok (some f)) n = n + 1
count_finding (ok none) n = n
count_finding (raise e) n = n

pub flagging_rules : PriceLookup → Registry → Fields → ℕ
flagging_rules pricing [] row = 0
flagging_rules pricing ((id, r) ∷ rules) row =
    count_finding (r.fn pricing row) (flagging_rules pricing rules row)

pub total_findings : PriceLookup → Registry → Inventory → ℕ
total_findings pricing rules finished = 0
total_findings pricing rules (broken e) = 0
total_findings pricing rules (resource row rest) =
    flagging_rules pricing rules row + total_findings pricing rules rest

module _ (py : Builtins) (faults : Faults) (pricing : PriceLookup) (now : ℕ) where
  write_finding-count :
      (f : Finding) (p q : Progress)
      → write_finding py faults pricing now f p ≡ ok q
      → q.1 ≡ p.1 + 1
  unfolding write_finding
  write_finding-count f (xs, k) q h = elim (Bool-cases (faults.upsert_at k)) [
    | inl e ↦ cc (rw e at h)
    | inr e ↦
        let (new, en, h1) = >>=-eq-ok (new_row py now f) _ (rw e at h) in
        let (ys, ey, h2) = >>=-eq-ok (upsert new xs) _ h1 in
        let eq : q ≡ (ys, k + 1) = cc (h2) in rw eq
  ]

  apply_rules-count :
      (row : Fields) (rules : Registry) (p q : Progress)
      → apply_rules py faults pricing now row rules p ≡ ok q
      → q.1 ≡ p.1 + flagging_rules pricing rules row
  unfolding apply_rules apply_rule flagging_rules
  apply_rules-count row [] p q h = ground arith
  apply_rules-count row ((id, r) ∷ rules) p q h =
      let (m, em, h1) = >>=-eq-ok (apply_rule py faults pricing now row r p) _ h in
      let rest = apply_rules-count row rules m q h1 in
      elim (Try-cases (r.fn pricing row)) [
        | inl (none, e) ↦ ground arith
        | inl (some f, e) ↦ ground (arith, write_finding-count f p m)
        | inr (x, e) ↦ ground arith
      ]

  -- A loop that ends has counted every finding of every rule on every row, and none twice.
  pub scan_rows-count :
      (rules : Registry) (inventory : Inventory) (p q : Progress)
      → scan_rows py faults pricing now rules inventory p ≡ ok q
      → q.1 ≡ p.1 + total_findings pricing rules inventory
  unfolding scan_rows total_findings
  scan_rows-count rules finished p q h = ground arith
  scan_rows-count rules (broken e) p q h = cc (h)
  scan_rows-count rules (resource row rest) p q h =
      let (m, em, h1) = >>=-eq-ok (apply_rules py faults pricing now row rules p) _ h in
      omega (arith, apply_rules-count row rules p m em, scan_rows-count rules rest m q h1)

-- The run record with an id: the first with it.
pub find_run : String → List ScanRun → Option ScanRun
find_run id [] = none
find_run id (r ∷ rs) = if r.id == id then some r else find_run id rs

find_run-closed :
    (id : String) (status : RunStatus) (t count : ℕ) (error : Option Exc) (new : ScanRun)
    (runs : List ScanRun)
    → exists (λ r. r.id == id) runs ≡ false
    → new.id ≡ id
    → find_run id (map (close_row id status t count error) (runs ++ new ∷ []))
      ≡ some (close_row id status t count error new)
unfolding find_run close_row
find_run-closed id status t count error new [] h e = ground (arith, eq_refl id)
find_run-closed id status t count error new (r ∷ rs) h e =
    ground (arith, find_run-closed id status t count error new rs)

-- How the run record ends.
abbrev pub closed_as : String → String → ℕ → ℕ → ℕ → Try String → ScanRun
closed_as run_id provider now finished_at count (ok id) = record {
  id = run_id;
  provider = provider;
  started_at = now;
  finished_at = some finished_at;
  status = done;
  findings_count = some count;
  error = none;
}
closed_as run_id provider now finished_at count (raise e) = record {
  id = run_id;
  provider = provider;
  started_at = now;
  finished_at = some finished_at;
  status = failed;
  findings_count = some 0;
  error = some e;
}

resolve_before-runs :
    (faults : Faults) (provider : String) (cutoff : Option ℕ) (c : Conn)
    → c.committed.runs ≡ c.working.runs
    → (resolve_before faults provider cutoff c).working.runs ≡ c.working.runs
unfolding resolve_before
resolve_before-runs faults provider none c h = refl
resolve_before-runs faults provider (some t) c h = ground arith

auto_resolve_stale-runs :
    (faults : Faults) (provider : String) (threshold : ℕ) (c : Conn)
    → c.committed.runs ≡ c.working.runs
    → (auto_resolve_stale faults provider threshold c).working.runs ≡ c.working.runs
unfolding auto_resolve_stale
auto_resolve_stale-runs faults provider threshold c h =
    elim (Try-cases (cutoff_run provider threshold c.working.runs)) [
      | inl (cutoff, e) ↦ ground (arith, resolve_before-runs faults provider cutoff c h)
      | inr (x, e) ↦ ground arith
    ]

module _ (py : Builtins) (faults : Faults) (registry : Registry) (pricing : PriceLookup)
    (provider : String) (threshold : ℕ) (run_id : String) (now finished_at : ℕ) where
  -- A body that returns has the count and keeps the records; one that raises leaves what was committed.
  abbrev Ends : ℕ → Conn → Try ℕ × Conn → Type 0
  Ends n c (ok k, d) = (k ≡ n) × (d.working.runs ≡ c.working.runs)
  Ends n c (raise e, d) = d.committed ≡ c.committed

  commit_scan-Ends :
      (t : Try Progress) (last : Progress) (c : Conn) (n : ℕ)
      → ((p : Progress) → t ≡ ok p → p.1 ≡ n)
      → Ends n c (
          commit_scan py faults registry pricing provider threshold run_id now finished_at t last c)
  unfolding commit_scan
  commit_scan-Ends (raise e) (table, count) c n h = refl
  commit_scan-Ends (ok (table, count)) last c n h =
      let stored = commit (update_findings (λ _. table) c) in
      let same = auto_resolve_stale-runs faults provider threshold stored refl in
      elim (Bool-cases faults.commit_findings) [
        | inl f ↦ rw f refl
        | inr f ↦ rw f (h (table, count) refl, same)
      ]

  scan_body-Ends :
      (inventory : Inventory) (c : Conn)
      → Ends (total_findings pricing (provider_rules provider registry) inventory) c (
          scan_body py faults registry pricing provider threshold run_id now finished_at inventory
            c)
  unfolding scan_body
  scan_body-Ends inventory c =
      let rules = provider_rules provider registry in
      commit_scan-Ends (scan_rows py faults pricing now rules inventory (c.working.findings, 0))
        (written py faults pricing now rules inventory (c.working.findings, 0)) c
        (total_findings pricing rules inventory)
        (λ p e. omega (
          arith,
          scan_rows-count py faults pricing now rules inventory (c.working.findings, 0) p e,
        ))

  abbrev total : Inventory → ℕ
  total inventory = total_findings pricing (provider_rules provider registry) inventory

  abbrev new_run : ScanRun
  new_run = record {
    id = run_id;
    provider = provider;
    started_at = now;
    finished_at = none;
    status = running;
    findings_count = none;
    error = none;
  }

  abbrev finished_with : Try ℕ × Conn → Try String × Conn
  finished_with t = finish py faults registry pricing provider threshold run_id now finished_at t

  finish-record :
      (runs : List ScanRun) (n : ℕ) (c : Conn) (t : Try ℕ × Conn)
      → faults.close_run ≡ false
      → exists (λ r. r.id == run_id) runs ≡ false
      → c.committed.runs ≡ (runs ++ new_run ∷ [])
      → c.working.runs ≡ (runs ++ new_run ∷ [])
      → Ends n c t
      → find_run run_id (finished_with t).1.committed.runs
        ≡ some (closed_as run_id provider now finished_at n (finished_with t).0)
  unfolding finish close_row
  finish-record runs n c (ok k, d) e fresh rc rw' h = ground (
    arith,
    eq_refl run_id,
    find_run-closed run_id done finished_at k none new_run runs fresh refl,
  )
  finish-record runs n c (raise x, d) e fresh rc rw' h =
      let same : d.committed.runs ≡ (runs ++ new_run ∷ []) = ap (λ (db : Db). db.runs) h ∙ rc in
      ground (
        arith,
        eq_refl run_id,
        find_run-closed run_id failed finished_at 0 (some x) new_run runs fresh refl,
      )

  abbrev scan : Inventory → Db → Try String × Conn
  scan inventory db =
      run_scan py faults registry pricing provider threshold run_id now finished_at inventory
        (connected db)

  abbrev with_run : Db → Conn
  with_run db = connected (record { runs = db.runs ++ new_run ∷ []; findings = db.findings })

  scan-eq :
      (inventory : Inventory) (db : Db)
      → faults.create_run ≡ false
      → exists (λ r. r.id == run_id) db.runs ≡ false
      → scan inventory db
        ≡ finished_with (
            scan_body py faults registry pricing provider threshold run_id now finished_at inventory
              (with_run db))
  unfolding run_scan
  scan-eq inventory db p fresh = simp (p, fresh)

  -- A scan whose record can be created, under a new id, and closed leaves that record closed: 'done'
  -- with the number of findings that the provider's rules have on the inventory if it returns, and
  -- 'error' with no findings and the exception if it raises.
  pub run_scan_record :
      (inventory : Inventory) (db : Db)
      → faults.create_run ≡ false
      → faults.close_run ≡ false
      → exists (λ r. r.id == run_id) db.runs ≡ false
      → find_run run_id (scan inventory db).1.committed.runs
        ≡ some (closed_as run_id provider now finished_at (total inventory) (scan inventory db).0)
  run_scan_record inventory db p q fresh = rw (scan-eq inventory db p fresh) (
      finish-record db.runs (total inventory) (with_run db) _ q fresh refl refl
        (scan_body-Ends inventory (with_run db)))

  finish-failure :
      (n : ℕ) (c : Conn) (t : Try ℕ × Conn) (e : Exc)
      → Ends n c t
      → (finished_with t).0 ≡ raise e
      → (finished_with t).1.committed.findings ≡ c.committed.findings
  unfolding finish
  finish-failure n c (ok k, d) e h f = cc (f)
  finish-failure n c (raise x, d) e h f =
      let same : d.committed.findings ≡ c.committed.findings = ap (λ (db : Db). db.findings) h in
      ground arith

  -- A scan that raises has written no finding and resolved none: the table is as it was before.
  pub run_scan_failure :
      (inventory : Inventory) (db : Db) (e : Exc)
      → (scan inventory db).0 ≡ raise e
      → (scan inventory db).1.committed.findings ≡ db.findings
  run_scan_failure inventory db e h = elim (Bool-cases faults.create_run) [
    | inl p ↦ unfold run_scan in simp p
    | inr p ↦ elim (Bool-cases (exists (λ r. r.id == run_id) db.runs)) [
      | inl old ↦ unfold run_scan in simp (p, old)
      | inr fresh ↦
          let eq = scan-eq inventory db p fresh in
          rw eq (
            finish-failure (total inventory) (with_run db) _ e
              (scan_body-Ends inventory (with_run db)) (rw eq at h))
    ]
  ]
