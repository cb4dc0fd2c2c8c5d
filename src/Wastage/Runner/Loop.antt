-- ===== src/Wastage/Runner/Loop.antt =====
-- An invariant of the upsert is an invariant of the whole scan loop.
use finna_app.Prelude.{ℕ, ◌+◌, ◌≡◌, none, some, List, [], ◌∷◌, Bool-cases, inl, inr}
use finna_app.Python.Value.{Fields, Builtins}
use finna_app.Python.Try.{ok, >>=-eq-ok, Try-cases}
use finna_app.Wastage.Finding.{Finding, Rule, Registry, PriceLookup}
use finna_app.Wastage.Tables.{WastageRow, upsert, new_row}
use finna_app.Wastage.Runner.{
  Inventory, finished, broken, resource, Faults, Progress, write_finding, apply_rule, apply_rules,
  scan_rows,
}

module _ (P : Progress → Type 0) (py : Builtins) (faults : Faults) (pricing : PriceLookup) (now : ℕ)
    (step : (f : Finding) (new : WastageRow) (xs ys : List WastageRow) (k : ℕ)
      → new_row py now f ≡ ok new
      → upsert new xs ≡ ok ys
      → P (xs, k)
      → P (ys, k + 1)) where
  pub write_finding_inv :
      (f : Finding) (p q : Progress) → write_finding py faults pricing now f p ≡ ok q → P p → P q
  unfolding write_finding
  write_finding_inv f (xs, k) q h a = elim (Bool-cases (faults.upsert_at k)) [
    | inl e ↦ cc (rw e at h)
    | inr e ↦
        let (new, en, h1) = >>=-eq-ok (new_row py now f) _ (rw e at h) in
        let (ys, ey, h2) = >>=-eq-ok (upsert new xs) _ h1 in
        let eq : q ≡ (ys, k + 1) = cc (h2) in rw eq (step f new xs ys k en ey a)
  ]

  pub apply_rule_inv :
      (row : Fields) (r : Rule) (p q : Progress)
      → apply_rule py faults pricing now row r p ≡ ok q
      → P p
      → P q
  unfolding apply_rule
  apply_rule_inv row r p q h a = elim (Try-cases (r.fn pricing row)) [
    | inl (none, e) ↦ let eq : q ≡ p = cc (rw (e, apply_rule) at h) in rw eq a
    | inl (some f, e) ↦ write_finding_inv f p q (rw (e, apply_rule) at h) a
    | inr (x, e) ↦ let eq : q ≡ p = cc (rw (e, apply_rule) at h) in rw eq a
  ]

  pub apply_rules_inv :
      (row : Fields) (rules : Registry) (p q : Progress)
      → apply_rules py faults pricing now row rules p ≡ ok q
      → P p
      → P q
  unfolding apply_rules
  apply_rules_inv row [] p q h a = let eq : q ≡ p = cc (h) in rw eq a
  apply_rules_inv row ((id, r) ∷ rules) p q h a =
      let (m, em, h1) = >>=-eq-ok (apply_rule py faults pricing now row r p) _ h in
      apply_rules_inv row rules m q h1 (apply_rule_inv row r p m em a)

  pub scan_rows_inv :
      (rules : Registry) (inventory : Inventory) (p q : Progress)
      → scan_rows py faults pricing now rules inventory p ≡ ok q
      → P p
      → P q
  unfolding scan_rows
  scan_rows_inv rules finished p q h a = let eq : q ≡ p = cc (h) in rw eq a
  scan_rows_inv rules (broken e) p q h a = cc (h)
  scan_rows_inv rules (resource row rest) p q h a =
      let (m, em, h1) = >>=-eq-ok (apply_rules py faults pricing now row rules p) _ h in
      scan_rows_inv rules rest m q h1 (apply_rules_inv row rules p m em a)
