-- ===== src/Costs/Llm/Insert/Laws.antt =====
-- The batches together are one insertion of all records, and can be run again.
use finna_app.Prelude.{
  ℕ, zero, suc, ◌+◌, ◌≤◌, ◌≡◌, refl, sym, ap, ◌∙◌, Bool, true, false, List, [], ◌∷◌, ◌++◌, arith,
  if◌then◌else◌, length, take, drop, eqb,
}
use finna_app.Python.Try.{Try, ok, raise, value_error}
use finna_app.Costs.Record.{CostRecord, CostTable, insert_many}
use finna_app.Costs.Record.Laws.{insert_many-append, insert_many-resumed}
use finna_app.Costs.Llm.Insert.{then_next, Accepts, insert_batch, insert_batches, insert_records}

take-drop : (n : ℕ) (rs : List CostRecord) → take n rs ++ drop n rs ≡ rs
take-drop zero rs = refl
take-drop (suc n) [] = refl
take-drop (suc n) (r ∷ rs) = ap (λ (q : List CostRecord). r ∷ q) (take-drop n rs)

length-take-drop :
    (n : ℕ) (rs : List CostRecord) → length (take n rs) + length (drop n rs) ≡ length rs
length-take-drop zero rs = omega arith
length-take-drop (suc n) [] = omega arith
length-take-drop (suc n) (r ∷ rs) = omega (arith, length-take-drop n rs)

insert_batch-accepted :
    (b : Bool) (rs : List CostRecord) (t : CostTable)
    → b ≡ true
    → insert_batch b rs t ≡ (ok (length rs), insert_many rs t)
unfolding insert_batch insert_many
insert_batch-accepted b [] t h = refl
insert_batch-accepted b (r ∷ rs) t h = rw h refl

lengths-agree :
    (total n : ℕ) (records : List CostRecord)
    → (total + suc (length (take n records))) + length (drop n records)
      ≡ total + suc (length records)
lengths-agree total n records = omega (arith, length-take-drop n records)

append_assoc : (rs qs us : List CostRecord) → (rs ++ qs) ++ us ≡ rs ++ (qs ++ us)
append_assoc [] qs us = refl
append_assoc (r ∷ rs) qs us = ap (λ (q : List CostRecord). r ∷ q) (append_assoc rs qs us)

-- After one batch, of which the database takes all or nothing, and some of the rest.
then_next-prefix :
    (b : Bool) (batch rest : List CostRecord) (table : CostTable)
    (next : ℕ → CostTable → Try ℕ × CostTable)
    → ((inserted : ℕ) (after : CostTable)
        → (rs : List CostRecord) × (qs : List CostRecord) × (rs ++ qs ≡ rest)
          × ((next inserted after).1 ≡ insert_many rs after))
    → (rs : List CostRecord) × (qs : List CostRecord) × (rs ++ qs ≡ batch ++ rest)
      × ((then_next (insert_batch b batch table) next).1 ≡ insert_many rs table)
unfolding insert_batch insert_many
then_next-prefix b [] rest table next later = later 0 table
then_next-prefix false (r ∷ batch) rest table next later = ([], (r ∷ batch) ++ rest, refl, refl)
then_next-prefix true (r ∷ batch) rest table next later =
    let (rs, qs, e, h) = later (length (r ∷ batch)) (insert_many (r ∷ batch) table) in
    (
      (r ∷ batch) ++ rs,
      qs,
      append_assoc (r ∷ batch) rs qs ∙ ap (λ (q : List CostRecord). (r ∷ batch) ++ q) e,
      h ∙ sym (insert_many-append (r ∷ batch) rs table),
    )

module _ (accepts : Accepts) where
  insert_batches-accepted :
      (fuel batch_size i : ℕ) (records : List CostRecord) (total : ℕ) (table : CostTable)
      → ((j : ℕ) → accepts j ≡ true)
      → length records ≤ fuel
      → insert_batches accepts fuel (suc batch_size) i records total table
        ≡ (ok (total + length records), insert_many records table)
  unfolding insert_batches insert_many
  insert_batches-accepted fuel batch_size i [] total table all enough = ground arith
  insert_batches-accepted zero batch_size i (r ∷ records) total table all enough =
      let absurd : ⊥ = omega (arith, enough) in elim absurd [ ]
  insert_batches-accepted (suc fuel) batch_size i (r ∷ records) total table all enough =
      let batch = take (suc batch_size) (r ∷ records) in
      let rest = drop batch_size records in
      ap
        (λ (m : Try ℕ × CostTable). then_next m (λ (inserted : ℕ) (after : CostTable).
          insert_batches accepts fuel (suc batch_size) (suc i) rest (total + inserted) after))
        (insert_batch-accepted (accepts i) batch table (all i))
      ∙ insert_batches-accepted fuel batch_size (suc i) rest (total + length batch)
          (insert_many batch table) all (omega (arith, enough, length-take-drop batch_size records))
      ∙ ap (λ (n : ℕ). (ok n, insert_many rest (insert_many batch table)))
          (lengths-agree total batch_size records)
      ∙ ap (λ (t : CostTable). (ok (total + suc (length records)), t))
          (sym (insert_many-append batch rest table)
            ∙ ap (λ (q : List CostRecord). insert_many (r ∷ q) table)
                (take-drop batch_size records))

  insert_batches-prefix :
      (fuel batch_size i : ℕ) (records : List CostRecord) (total : ℕ) (table : CostTable)
      → (rs : List CostRecord) × (qs : List CostRecord) × (rs ++ qs ≡ records)
        × ((insert_batches accepts fuel batch_size i records total table).1 ≡ insert_many rs table)
  unfolding insert_batches insert_many
  insert_batches-prefix fuel batch_size i [] total table = ([], [], refl, refl)
  insert_batches-prefix zero batch_size i (r ∷ records) total table = ([], r ∷ records, refl, refl)
  insert_batches-prefix (suc fuel) batch_size i (r ∷ records) total table =
      let (rs, qs, e, h) =
        then_next-prefix (accepts i) (take batch_size (r ∷ records)) (drop batch_size (r ∷ records))
          table
          (λ (inserted : ℕ) (after : CostTable).
            insert_batches accepts fuel batch_size (suc i) (drop batch_size (r ∷ records))
              (total + inserted) after)
          (λ (inserted : ℕ) (after : CostTable).
            insert_batches-prefix fuel batch_size (suc i) (drop batch_size (r ∷ records))
              (total + inserted) after) in
      (rs, qs, e ∙ take-drop batch_size (r ∷ records), h)

  insert_records-suc :
      (records : List CostRecord) (batch_size : ℕ) (table : CostTable)
      → insert_records accepts records (suc batch_size) table
        ≡ insert_batches accepts (length records) (suc batch_size) 0 records 0 table
  unfolding insert_records
  insert_records-suc records batch_size table =
      let positive : eqb (suc batch_size) 0 ≡ false = ground arith in
      ap
        (λ (b : Bool).
          if b
          then (raise value_error, table)
          else insert_batches accepts (length records) (suc batch_size) 0 records 0 table)
        positive

  insert_records-prefix :
      (records : List CostRecord) (batch_size : ℕ) (table : CostTable)
      → (rs : List CostRecord) × (qs : List CostRecord) × (rs ++ qs ≡ records)
        × ((insert_records accepts records batch_size table).1 ≡ insert_many rs table)
  unfolding insert_records insert_many
  insert_records-prefix records zero table = ([], records, refl, refl)
  insert_records-prefix records (suc batch_size) table =
      let (rs, qs, e, h) =
        insert_batches-prefix (length records) (suc batch_size) 0 records 0 table in
      (
        rs,
        qs,
        e,
        ap (λ (m : Try ℕ × CostTable). m.1) (insert_records-suc records batch_size table) ∙ h,
      )

  -- Where the database takes every batch, the batches of any positive size are one insertion of all the
  -- records, and the number that is returned is the number of records, whether they were inserted or
  -- stood in the table before.
  pub insert_records-accepted :
      (records : List CostRecord) (batch_size : ℕ) (table : CostTable)
      → ((j : ℕ) → accepts j ≡ true)
      → insert_records accepts records (suc batch_size) table
        ≡ (ok (length records), insert_many records table)
  insert_records-accepted records batch_size table all =
      insert_records-suc records batch_size table
      ∙ insert_batches-accepted (length records) batch_size 0 records 0 table all (omega arith)
      ∙ ap (λ (n : ℕ). (ok n, insert_many records table)) (omega arith)

-- Whatever batches a first run lost, a second run over the same records that the database takes leaves
-- the table of one undisturbed run, under any positive batch sizes.
pub insert_records-retried :
    (accepts again : Accepts) (records : List CostRecord) (batch_size batch_size_again : ℕ)
    (table : CostTable)
    → ((j : ℕ) → again j ≡ true)
    → insert_records again records
        (suc batch_size_again)
        (insert_records accepts records batch_size table).1
      ≡ (ok (length records), insert_many records table)
insert_records-retried accepts again records batch_size batch_size_again table all =
    let (rs, qs, e, h) = insert_records-prefix accepts records batch_size table in
    insert_records-accepted again records batch_size_again
      (insert_records accepts records batch_size table).1 all
    ∙ ap (λ (t : CostTable). (ok (length records), t))
        (ap (insert_many records) h
          ∙ ap (λ (all_records : List CostRecord). insert_many all_records (insert_many rs table))
              (sym e)
          ∙ insert_many-resumed rs qs table
          ∙ ap (λ (all_records : List CostRecord). insert_many all_records table) e)
