-- ===== src/Wastage/Runner/Keys.antt =====
-- The table has at most one finding for each provider, resource and rule.
use finna_app.Prelude.{
  ℕ, ◌≡◌, refl, ◌∙◌, String, Bool, false, List, [], ◌∷◌, ◌++◌, map, arith, eq_iff, exists,
  Bool-cases, inl, inr,
}
use finna_app.Python.Value.{Builtins}
use finna_app.Python.Try.{ok}
use finna_app.Wastage.Finding.{Registry, PriceLookup}
use finna_app.Wastage.Tables.{WastageRow, Db, same_key, refresh, upsert, resolve_row}
use finna_app.Wastage.Runner.{Inventory, Faults, connected, run_scan}
use finna_app.Wastage.Runner.Invariant.{run_scan_inv}

abbrev pub HasDistinctKeys : List WastageRow → Type 0
HasDistinctKeys [] = Unit
HasDistinctKeys (x ∷ xs) = (exists (same_key x) xs ≡ false) × HasDistinctKeys xs

same_key_comm : (a b : WastageRow) → same_key a b ≡ same_key b a
unfolding same_key
same_key_comm a b = ground (
  arith,
  eq_iff a.provider b.provider,
  eq_iff b.provider a.provider,
  eq_iff a.resource_id b.resource_id,
  eq_iff b.resource_id a.resource_id,
  eq_iff a.rule_id b.rule_id,
  eq_iff b.rule_id a.rule_id,
)

-- The update leaves the key.
abbrev KeepsKey : (WastageRow → WastageRow) → Type 0
KeepsKey f =
    (r : WastageRow)
    → ((f r).provider ≡ r.provider)
      × ((f r).resource_id ≡ r.resource_id)
      × ((f r).rule_id ≡ r.rule_id)

same_key-map :
    (f : WastageRow → WastageRow) (a b : WastageRow)
    → KeepsKey f
    → same_key (f a) (f b) ≡ same_key a b
unfolding same_key
same_key-map f a b h = cc ((h a).0, (h a).1, (h a).2, (h b).0, (h b).1, (h b).2)

exists-map :
    (f : WastageRow → WastageRow) (a : WastageRow) (xs : List WastageRow)
    → KeepsKey f
    → exists (same_key (f a)) (map f xs) ≡ exists (same_key a) xs
exists-map f a [] h = refl
exists-map f a (x ∷ xs) h = cc (same_key-map f a x h, exists-map f a xs h)

map-HasDistinctKeys :
    (f : WastageRow → WastageRow) (xs : List WastageRow)
    → KeepsKey f
    → HasDistinctKeys xs
    → HasDistinctKeys (map f xs)
map-HasDistinctKeys f [] h d = tt
map-HasDistinctKeys f (x ∷ xs) h d = (exists-map f x xs h ∙ d.0, map-HasDistinctKeys f xs h d.1)

exists-append :
    (p : WastageRow → Bool) (xs : List WastageRow) (y : WastageRow)
    → exists p xs ≡ false
    → p y ≡ false
    → exists p (xs ++ y ∷ []) ≡ false
exists-append p [] y h k = rw k
exists-append p (x ∷ xs) y h k = ground (arith, exists-append p xs y)

append-HasDistinctKeys :
    (xs : List WastageRow) (y : WastageRow)
    → exists (same_key y) xs ≡ false
    → HasDistinctKeys xs
    → HasDistinctKeys (xs ++ y ∷ [])
append-HasDistinctKeys [] y h d = (refl, tt)
append-HasDistinctKeys (x ∷ xs) y h d = (
  exists-append (same_key x) xs y d.0 (ground (arith, same_key_comm x y)),
  append-HasDistinctKeys xs y (ground arith) d.1,
)

refresh-KeepsKey : (new : WastageRow) → KeepsKey (refresh new)
unfolding refresh
refresh-KeepsKey new r = ground arith

resolve_row-KeepsKey : (provider : String) (cutoff : ℕ) → KeepsKey (resolve_row provider cutoff)
unfolding resolve_row
resolve_row-KeepsKey provider cutoff r = ground arith

upsert-HasDistinctKeys :
    (new : WastageRow) (xs ys : List WastageRow)
    → upsert new xs ≡ ok ys
    → HasDistinctKeys xs
    → HasDistinctKeys ys
unfolding upsert
upsert-HasDistinctKeys new xs ys h d = elim (Bool-cases (exists (same_key new) xs)) [
  | inl e ↦ ground (arith, map-HasDistinctKeys (refresh new) xs (refresh-KeepsKey new) d)
  | inr e ↦ ground (arith, append-HasDistinctKeys xs new e d)
]

-- A scan, with whatever faults, leaves no two findings for one provider, resource and rule in the
-- table, if there were none before.
pub run_scan-HasDistinctKeys :
    (py : Builtins) (faults : Faults) (registry : Registry) (pricing : PriceLookup)
    (provider : String) (threshold : ℕ) (run_id : String) (now finished_at : ℕ)
    (inventory : Inventory) (db : Db)
    → HasDistinctKeys db.findings
    → HasDistinctKeys
        (run_scan py faults registry pricing provider threshold run_id now finished_at inventory
          (connected db)).1.committed.findings
run_scan-HasDistinctKeys py faults registry pricing provider threshold run_id now finished_at
      inventory db d =
    run_scan_inv HasDistinctKeys
      (λ p cutoff rows h.
        map-HasDistinctKeys (resolve_row p cutoff) rows (resolve_row-KeepsKey p cutoff) h)
      py faults registry pricing provider threshold run_id now finished_at
      (λ f new xs ys k e u h. upsert-HasDistinctKeys new xs ys u h) inventory db d
