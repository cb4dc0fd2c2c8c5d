-- ===== src/Costs/Record/Laws.antt =====
-- Insertion that skips what is there: repeating it changes nothing.
use finna_app.Prelude.{
  ◌≡◌, refl, sym, ap, ◌∙◌, String, true, ◌||◌, List, [], ◌∷◌, ◌++◌, arith, ◌==◌, eq_iff, eq_refl,
  Bool-cases,
}
use finna_app.Costs.Record.{CostRecord, CostTable, holds, insert_record, insert_many}

holds-append : (id : String) (t u : CostTable) → holds id (t ++ u) ≡ (holds id t || holds id u)
unfolding holds
holds-append id [] u = refl
holds-append id (q ∷ t) u = ground (arith, holds-append id t u)

holds-one : (id : String) (r : CostRecord) → holds id (r ∷ []) ≡ (r.record_id == id)
unfolding holds
holds-one id r = ground arith

pub holds-insert_record :
    (id : String) (r : CostRecord) (t : CostTable)
    → holds id (insert_record r t) ≡ (holds id t || (r.record_id == id))
unfolding insert_record
holds-insert_record id r t = ground (
  arith,
  holds-append id t (r ∷ []),
  holds-one id r,
  eq_iff r.record_id id,
  Bool-cases (holds r.record_id t),
)

pub insert_many-append :
    (rs qs : List CostRecord) (t : CostTable)
    → insert_many (rs ++ qs) t ≡ insert_many qs (insert_many rs t)
unfolding insert_many
insert_many-append [] qs t = refl
insert_many-append (r ∷ rs) qs t = insert_many-append rs qs (insert_record r t)

-- Every record of the list stands in the table under its id.
abbrev pub AllHeld : List CostRecord → CostTable → Type 0
AllHeld [] t = Unit
AllHeld (r ∷ rs) t = (holds r.record_id t ≡ true) × AllHeld rs t

insert_record-held :
    (r : CostRecord) (t : CostTable) → holds r.record_id t ≡ true → insert_record r t ≡ t
unfolding insert_record
insert_record-held r t h = ground arith

pub insert_many-held : (rs : List CostRecord) (t : CostTable) → AllHeld rs t → insert_many rs t ≡ t
unfolding insert_many
insert_many-held [] t h = refl
insert_many-held (r ∷ rs) t h =
    ap (insert_many rs) (insert_record-held r t h.0) ∙ insert_many-held rs t h.1

holds-insert_many :
    (id : String) (rs : List CostRecord) (t : CostTable)
    → holds id t ≡ true
    → holds id (insert_many rs t) ≡ true
unfolding insert_many
holds-insert_many id [] t h = h
holds-insert_many id (r ∷ rs) t h =
    holds-insert_many id rs (insert_record r t) (ground (arith, holds-insert_record id r t))

pub insert_many-AllHeld : (rs : List CostRecord) (t : CostTable) → AllHeld rs (insert_many rs t)
unfolding insert_many
insert_many-AllHeld [] t = tt
insert_many-AllHeld (r ∷ rs) t = (
  holds-insert_many r.record_id rs (insert_record r t)
      (ground (arith, holds-insert_record r.record_id r t, eq_refl r.record_id)),
  insert_many-AllHeld rs (insert_record r t),
)

AllHeld-append :
    (rs qs : List CostRecord) (t : CostTable) → AllHeld (rs ++ qs) t → AllHeld rs t × AllHeld qs t
AllHeld-append [] qs t h = (tt, h)
AllHeld-append (r ∷ rs) qs t h = let (p, q) = AllHeld-append rs qs t h.1 in ((h.0, p), q)

-- An insertion that broke off after the first records `rs`, and was then run again from the start,
-- gives the table of one run.
pub insert_many-resumed :
    (rs qs : List CostRecord) (t : CostTable)
    → insert_many (rs ++ qs) (insert_many rs t) ≡ insert_many (rs ++ qs) t
insert_many-resumed rs qs t =
    insert_many-append rs qs (insert_many rs t)
    ∙ ap (insert_many qs) (insert_many-held rs (insert_many rs t) (insert_many-AllHeld rs t))
    ∙ sym (insert_many-append rs qs t)
