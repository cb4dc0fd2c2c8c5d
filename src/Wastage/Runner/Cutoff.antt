-- ===== src/Wastage/Runner/Cutoff.antt =====
-- Which findings `_auto_resolve_stale` resolves, told by the runs that missed them.
use finna_app.Prelude.{
  ℕ, zero, suc, ◌≤◌, ◌≡◌, refl, ap, String, Bool, false, ◌&&◌, Option, none, some, List, [], ◌∷◌,
  map, arith, ◌==◌, ltb, leb, if◌then◌else◌, length, keep, get_elem?, All, Bool-cases, Option-cases,
  inl, inr,
}
use mathlib.Core.Path.{fun_ext}
use finna_app.Wastage.Tables.{
  WastageRow, resolved, ScanRun, Db, is_open, resolve_row, insert_desc, done_starts,
}
use finna_app.Wastage.Runner.{Faults, connected, auto_resolve_stale}

-- The number of times that lie after `t`.
abbrev later_than : ℕ → List ℕ → ℕ
later_than t ts = length (keep (λ u. ltb t u) ts)

abbrev IsDesc : List ℕ → Type 0
IsDesc [] = Unit
IsDesc (t ∷ ts) = All (λ u. u ≤ t) ts × IsDesc ts

All-insert_desc :
    (b t : ℕ) (ts : List ℕ) → t ≤ b → All (λ u. u ≤ b) ts → All (λ u. u ≤ b) (insert_desc t ts)
unfolding insert_desc
All-insert_desc b t [] h a = (h, tt)
All-insert_desc b t (u ∷ us) h a = ground (arith, All-insert_desc b t us h a.1)

All-le_trans : (a b : ℕ) (ts : List ℕ) → a ≤ b → All (λ u. u ≤ a) ts → All (λ u. u ≤ b) ts
All-le_trans a b [] h k = tt
All-le_trans a b (t ∷ ts) h k = (omega (arith, k.0), All-le_trans a b ts h k.1)

insert_desc-IsDesc : (t : ℕ) (ts : List ℕ) → IsDesc ts → IsDesc (insert_desc t ts)
unfolding insert_desc
insert_desc-IsDesc t [] h = (tt, tt)
insert_desc-IsDesc t (u ∷ us) h = elim (Bool-cases (leb u t)) [
  | inl e ↦ rw e ((ground arith, All-le_trans u t us (ground arith) h.0), h)
  | inr e ↦ rw e (All-insert_desc u t us (ground arith) h.0, insert_desc-IsDesc t us h.1)
]

done_starts-IsDesc : (provider : String) (runs : List ScanRun) → IsDesc (done_starts provider runs)
unfolding done_starts
done_starts-IsDesc provider [] = tt
done_starts-IsDesc provider (r ∷ rs) = ground (
  arith,
  done_starts-IsDesc provider rs,
  insert_desc-IsDesc r.started_at (done_starts provider rs),
)

none_later : (t u : ℕ) (ts : List ℕ) → u ≤ t → All (λ v. v ≤ u) ts → later_than t ts ≡ 0
none_later t u [] h a = refl
none_later t u (v ∷ vs) h a = ground (arith, none_later t u vs h a.1)

abbrev exceeded_by : ℕ → Option ℕ → Bool
exceeded_by t none = false
exceeded_by t (some cutoff) = ltb t cutoff

-- The n-th latest time lies after `t` exactly if more than n times do.
exceeded_by-get_elem? :
    (t n : ℕ) (ts : List ℕ)
    → IsDesc ts
    → exceeded_by t (get_elem? ts n) ≡ leb (suc n) (later_than t ts)
exceeded_by-get_elem? t n [] h = ground arith
exceeded_by-get_elem? t zero (u ∷ us) h = ground (arith, none_later t u us)
exceeded_by-get_elem? t (suc n) (u ∷ us) h =
    ground (arith, none_later t u us, exceeded_by-get_elem? t n us h.1)

-- How many finished scans of the provider began after the finding was last seen.
abbrev pub misses : String → List ScanRun → WastageRow → ℕ
misses provider runs r = later_than r.last_seen_at (done_starts provider runs)

-- The rule: an open finding of the provider that `threshold` finished scans have missed is resolved.
abbrev pub resolve_missed : String → ℕ → List ScanRun → WastageRow → WastageRow
resolve_missed provider threshold runs r =
    if r.provider == provider && is_open r.status && leb threshold (misses provider runs r)
    then (record r { status = resolved })
    else r

abbrev resolve_at : String → Option ℕ → WastageRow → WastageRow
resolve_at provider none r = r
resolve_at provider (some cutoff) r = resolve_row provider cutoff r

resolve_at-eq :
    (provider : String) (n : ℕ) (runs : List ScanRun) (r : WastageRow)
    → resolve_at provider (get_elem? (done_starts provider runs) n) r
      ≡ resolve_missed provider (suc n) runs r
unfolding resolve_row
resolve_at-eq provider n runs r = ground (
  arith,
  exceeded_by-get_elem? r.last_seen_at n (done_starts provider runs)
      (done_starts-IsDesc provider runs),
  Option-cases (get_elem? (done_starts provider runs) n),
)

map_id : (rows : List WastageRow) → map (λ r. r) rows ≡ rows
map_id [] = refl
map_id (r ∷ rs) = ap (λ (l : List WastageRow). r ∷ l) (map_id rs)

auto_resolve-eq :
    (faults : Faults) (provider : String) (n : ℕ) (db : Db)
    → faults.read_cutoff ≡ false
    → faults.auto_resolve ≡ false
    → auto_resolve_stale faults provider (suc n) (connected db)
      ≡ connected (record db {
        findings =
            map (resolve_at provider (get_elem? (done_starts provider db.runs) n)) db.findings;
      })
unfolding auto_resolve_stale
auto_resolve-eq faults provider n db p q =
    elim (Option-cases (get_elem? (done_starts provider db.runs) n)) [
      | inl e ↦ rw (p, e) (ground (arith, map_id db.findings))
      | inr (cutoff, e) ↦ rw (p, e) (ground arith)
    ]

-- With a threshold of at least one and no database error, `_auto_resolve_stale` commits the table
-- in which exactly the open findings of the provider that `threshold` finished scans have missed
-- are resolved, and changes nothing else.
pub auto_resolve_exact :
    (faults : Faults) (provider : String) (n : ℕ) (db : Db)
    → faults.read_cutoff ≡ false
    → faults.auto_resolve ≡ false
    → auto_resolve_stale faults provider (suc n) (connected db)
      ≡ connected
          (record db { findings = map (resolve_missed provider (suc n) db.runs) db.findings })
auto_resolve_exact faults provider n db p q =
    rw (← fun_ext (resolve_at-eq provider n db.runs)) (auto_resolve-eq faults provider n db p q)
