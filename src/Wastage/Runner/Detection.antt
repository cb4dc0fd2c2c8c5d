-- ===== src/Wastage/Runner/Detection.antt =====
-- Everything that a rule flags is in the table at the end of the scan loop, seen now.
use finna_app.Prelude.{
  ℕ, ◌≡◌, Bool, true, ◌&&◌, some, List, [], ◌∷◌, ◌++◌, map, arith, String, eqb, eqb_iff, eq_refl,
  exists, Bool-cases, inl, inr,
}
use finna_app.Python.Value.{Fields, Builtins}
use finna_app.Python.Try.{ok, >>=-eq-ok}
use finna_app.Wastage.Finding.{Finding, Rule, Registry, PriceLookup}
use finna_app.Wastage.Tables.{WastageRow, new_row, same_key, refresh, upsert}
use finna_app.Wastage.Runner.{
  Inventory, finished, broken, resource, Faults, Progress, write_finding, apply_rule, apply_rules,
  scan_rows,
}
use finna_app.Wastage.Runner.Loop.{apply_rules_inv, scan_rows_inv}

-- One of the rules gives the finding on the row.
pub data Fires (pricing : PriceLookup) (f : Finding) (row : Fields) : Registry → Type 0 where
  fires_here :
      {id : String} {r : Rule} {rules : Registry}
      → r.fn pricing row ≡ ok (some f)
      → Fires pricing f row ((id, r) ∷ rules)
  fires_later :
      {entry : String × Rule} {rules : Registry}
      → Fires pricing f row rules
      → Fires pricing f row (entry ∷ rules)

-- One of the rows of the inventory does.
pub data Yields (pricing : PriceLookup) (f : Finding) (rules : Registry) : Inventory → Type 0 where
  yields_here :
      {row : Fields} {rest : Inventory}
      → Fires pricing f row rules
      → Yields pricing f rules (resource row rest)
  yields_later :
      {row : Fields} {rest : Inventory}
      → Yields pricing f rules rest
      → Yields pricing f rules (resource row rest)

-- The row has the key of `new` and was seen at `now`.
abbrev seen_at : WastageRow → ℕ → WastageRow → Bool
seen_at new now r = same_key new r && eqb r.last_seen_at now

abbrev pub Seen : WastageRow → ℕ → List WastageRow → Type 0
Seen new now rows = exists (seen_at new now) rows ≡ true

new_row-last_seen :
    (py : Builtins) (now : ℕ) (f : Finding) (new : WastageRow)
    → new_row py now f ≡ ok new
    → new.last_seen_at ≡ now
unfolding new_row
new_row-last_seen py now f new h = ground arith

same_key_self : (r : WastageRow) → same_key r r ≡ true
unfolding same_key
same_key_self r = ground (arith, eq_refl r.provider, eq_refl r.resource_id, eq_refl r.rule_id)

seen_at-refresh :
    (new other r : WastageRow) (now : ℕ)
    → other.last_seen_at ≡ now
    → seen_at new now r ≡ true
    → seen_at new now (refresh other r) ≡ true
unfolding refresh same_key
seen_at-refresh new other r now h k = ground arith

Seen-map :
    (new other : WastageRow) (now : ℕ) (rows : List WastageRow)
    → other.last_seen_at ≡ now
    → Seen new now rows
    → Seen new now (map (refresh other) rows)
Seen-map new other now [] h k = k
Seen-map new other now (r ∷ rs) h k = elim (Bool-cases (seen_at new now r)) [
  | inl e ↦ rw (seen_at-refresh new other r now h e)
  | inr e ↦ ground (arith, Seen-map new other now rs h)
]

Seen-append :
    (new : WastageRow) (now : ℕ) (rows others : List WastageRow)
    → Seen new now rows
    → Seen new now (rows ++ others)
Seen-append new now [] others h = cc (h)
Seen-append new now (r ∷ rs) others h = ground (arith, Seen-append new now rs others)

upsert-Seen :
    (new other : WastageRow) (now : ℕ) (xs ys : List WastageRow)
    → other.last_seen_at ≡ now
    → upsert other xs ≡ ok ys
    → Seen new now xs
    → Seen new now ys
unfolding upsert
upsert-Seen new other now xs ys h u k =
    ground (arith, Seen-map new other now xs h k, Seen-append new now xs (other ∷ []) k)

Seen-map_self :
    (new : WastageRow) (rows : List WastageRow)
    → exists (same_key new) rows ≡ true
    → Seen new new.last_seen_at (map (refresh new) rows)
unfolding refresh same_key
Seen-map_self new [] h = cc (h)
Seen-map_self new (r ∷ rs) h =
    ground (arith, Seen-map_self new rs, eqb_iff new.last_seen_at new.last_seen_at)

Seen-append_self :
    (new : WastageRow) (rows : List WastageRow) → Seen new new.last_seen_at (rows ++ new ∷ [])
Seen-append_self new [] =
    ground (arith, same_key_self new, eqb_iff new.last_seen_at new.last_seen_at)
Seen-append_self new (r ∷ rs) = ground (arith, Seen-append_self new rs)

upsert-Seen_self :
    (new : WastageRow) (xs ys : List WastageRow)
    → upsert new xs ≡ ok ys
    → Seen new new.last_seen_at ys
unfolding upsert
upsert-Seen_self new xs ys u = ground (arith, Seen-map_self new xs, Seen-append_self new xs)

module _ (py : Builtins) (faults : Faults) (pricing : PriceLookup) (now : ℕ) (f : Finding)
    (new : WastageRow) (offered : new_row py now f ≡ ok new) where
  kept :
      (g : Finding) (other : WastageRow) (xs ys : List WastageRow) (k : ℕ)
      → new_row py now g ≡ ok other
      → upsert other xs ≡ ok ys
      → Seen new now xs
      → Seen new now ys
  kept g other xs ys k e u h =
      upsert-Seen new other now xs ys (new_row-last_seen py now g other e) u h

  write_finding-Seen :
      (p q : Progress) → write_finding py faults pricing now f p ≡ ok q → Seen new now q.0
  unfolding write_finding
  write_finding-Seen (xs, k) q h = elim (Bool-cases (faults.upsert_at k)) [
    | inl e ↦ cc (rw e at h)
    | inr e ↦
        let (new', en, h1) = >>=-eq-ok (new_row py now f) _ (rw e at h) in
        let (ys, ey, h2) = >>=-eq-ok (upsert new' xs) _ h1 in
        let eq : q.0 ≡ ys = cc (h2) in
        let same : new' ≡ new = cc (en, offered) in
        let fresh : new.last_seen_at ≡ now = new_row-last_seen py now f new offered in
        rw (eq, ← fresh) (upsert-Seen_self new xs ys (cc (ey, same)))
  ]

  apply_rules-Seen :
      (row : Fields) (rules : Registry) (p q : Progress)
      → Fires pricing f row rules
      → apply_rules py faults pricing now row rules p ≡ ok q
      → Seen new now q.0
  unfolding apply_rules apply_rule
  apply_rules-Seen row [] p q w h = elim w [ ]
  apply_rules-Seen row ((id, r) ∷ rules) p q (fires_here e) h =
      let (m, em, h1) = >>=-eq-ok (apply_rule py faults pricing now row r p) _ h in
      apply_rules_inv (λ s. Seen new now s.0) py faults pricing now kept row rules m q h1
        (write_finding-Seen p m (rw (e, apply_rule) at em))
  apply_rules-Seen row (entry ∷ rules) p q (fires_later w) h =
      let (m, em, h1) = >>=-eq-ok (apply_rule py faults pricing now row entry.1 p) _ h in
      apply_rules-Seen row rules m q w h1

  -- If the loop ends, then whatever a rule flags on a row of the inventory stands in the table,
  -- under its provider, resource and rule, as seen now.
  pub scan_rows-Seen :
      (rules : Registry) (inventory : Inventory) (p q : Progress)
      → Yields pricing f rules inventory
      → scan_rows py faults pricing now rules inventory p ≡ ok q
      → Seen new now q.0
  unfolding scan_rows
  scan_rows-Seen rules finished p q w h = elim w [ ]
  scan_rows-Seen rules (broken e) p q w h = elim w [ ]
  scan_rows-Seen rules (resource row rest) p q (yields_here w) h =
      let (m, em, h1) = >>=-eq-ok (apply_rules py faults pricing now row rules p) _ h in
      scan_rows_inv (λ s. Seen new now s.0) py faults pricing now kept rules rest m q h1
        (apply_rules-Seen row rules p m w em)
  scan_rows-Seen rules (resource row rest) p q (yields_later w) h =
      let (m, em, h1) = >>=-eq-ok (apply_rules py faults pricing now row rules p) _ h in
      scan_rows-Seen rules rest m q w h1
