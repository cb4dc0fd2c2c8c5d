-- ===== src/Wastage/Runner/Kept.antt =====
-- What a scan leaves of the findings that were there: no row goes, and a status changes only from
-- open to resolved.
use finna_app.Prelude.{ℕ, ◌≡◌, String, ◌⊎◌, List, [], ◌∷◌, ◌++◌, map, arith}
use finna_app.Python.Value.{Builtins}
use finna_app.Python.Try.{ok}
use finna_app.Wastage.Finding.{Registry, PriceLookup}
use finna_app.Wastage.Tables.{WastageRow, opened, resolved, Db, upsert, refresh, resolve_row}
use finna_app.Wastage.Runner.{Inventory, Faults, connected, run_scan}
use finna_app.Wastage.Runner.Invariant.{run_scan_inv}

-- One row before and after: the same finding, first seen at the same time.
pub record RowKept (a b : WastageRow) : Type 0 where
  pub finding_id : b.finding_id ≡ a.finding_id
  pub provider : b.provider ≡ a.provider
  pub account_id : b.account_id ≡ a.account_id
  pub resource_id : b.resource_id ≡ a.resource_id
  pub rule_id : b.rule_id ≡ a.rule_id
  pub severity : b.severity ≡ a.severity
  pub category : b.category ≡ a.category
  pub first_seen_at : b.first_seen_at ≡ a.first_seen_at
  pub status : (b.status ≡ a.status) ⊎ ((a.status ≡ opened) × (b.status ≡ resolved))

-- The old rows stand in their places, and new ones behind them.
abbrev pub Kept : List WastageRow → List WastageRow → Type 0
Kept [] ys = Unit
Kept (x ∷ xs) [] = ⊥
Kept (x ∷ xs) (y ∷ ys) = RowKept x y × Kept xs ys

RowKept-refl : (a : WastageRow) → RowKept a a
RowKept-refl a = ground arith

RowKept-trans : (a b c : WastageRow) → RowKept a b → RowKept b c → RowKept a c
RowKept-trans a b c h k = ground arith

pub Kept-refl : (xs : List WastageRow) → Kept xs xs
Kept-refl [] = tt
Kept-refl (x ∷ xs) = (RowKept-refl x, Kept-refl xs)

pub Kept-trans : (xs ys zs : List WastageRow) → Kept xs ys → Kept ys zs → Kept xs zs
Kept-trans [] ys zs h k = tt
Kept-trans (x ∷ xs) [] zs h k = absurd h
Kept-trans (x ∷ xs) (y ∷ ys) [] h k = absurd k
Kept-trans (x ∷ xs) (y ∷ ys) (z ∷ zs) h k =
    (RowKept-trans x y z h.0 k.0, Kept-trans xs ys zs h.1 k.1)

Kept-append : (xs zs : List WastageRow) → Kept xs (xs ++ zs)
Kept-append [] zs = tt
Kept-append (x ∷ xs) zs = (RowKept-refl x, Kept-append xs zs)

Kept-map :
    (f : WastageRow → WastageRow) (xs : List WastageRow)
    → ((r : WastageRow) → RowKept r (f r))
    → Kept xs (map f xs)
Kept-map f [] h = tt
Kept-map f (x ∷ xs) h = (h x, Kept-map f xs h)

refresh-RowKept : (new r : WastageRow) → RowKept r (refresh new r)
unfolding refresh
refresh-RowKept new r = ground arith

resolve_row-RowKept :
    (provider : String) (cutoff : ℕ) (r : WastageRow) → RowKept r (resolve_row provider cutoff r)
unfolding resolve_row
resolve_row-RowKept provider cutoff r = ground arith

pub upsert-Kept : (new : WastageRow) (xs ys : List WastageRow) → upsert new xs ≡ ok ys → Kept xs ys
unfolding upsert
upsert-Kept new xs ys h =
    ground (arith, Kept-map (refresh new) xs (refresh-RowKept new), Kept-append xs (new ∷ []))

-- Whatever the scan meets, the rules, the inventory and the database raising or not, every finding
-- that was in the table is still there, with its identity, severity, category and first sighting;
-- its status is what it was, or was open and is resolved.
pub run_scan-Kept :
    (py : Builtins) (faults : Faults) (registry : Registry) (pricing : PriceLookup)
    (provider : String) (threshold : ℕ) (run_id : String) (now finished_at : ℕ)
    (inventory : Inventory) (db : Db)
    → Kept db.findings
        (run_scan py faults registry pricing provider threshold run_id now finished_at inventory
          (connected db)).1.committed.findings
run_scan-Kept py faults registry pricing provider threshold run_id now finished_at inventory db =
    run_scan_inv (Kept db.findings)
      (λ p cutoff rows h.
        Kept-trans db.findings rows (map (resolve_row p cutoff) rows) h
          (Kept-map (resolve_row p cutoff) rows (resolve_row-RowKept p cutoff)))
      py faults registry pricing provider threshold run_id now finished_at
      (λ f new xs ys k e u h. Kept-trans db.findings xs ys h (upsert-Kept new xs ys u)) inventory db
      (Kept-refl db.findings)
