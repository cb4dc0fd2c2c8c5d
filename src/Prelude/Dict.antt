-- ===== src/Prelude/Dict.antt =====
-- A Python dict with string keys, in insertion order: `d[k] = v` overwrites in place or appends.
use Prim.Native.String.{String}
use mathlib.Core.Path.{◌≡◌, refl, sym, ◌∙◌}
use mathlib.Core.Bool.{Bool, true, false}
use mathlib.Core.Option.{Option, none, some}
use mathlib.Core.List.{List, [], ◌∷◌}
use native.Mathlib.Omega.{arith}
use text.Mathlib.Text.{◌==◌}
use text.Mathlib.TextEquality.{eq_iff}
use finna_app.Prelude.Tests.{if◌then◌else◌}

-- A text is equal to one of two different texts at most.
pub ==_exclusive : (s a b : String) → (a == b) ≡ false → (s == a) ≡ true → (s == b) ≡ true → ⊥
==_exclusive s a b ne p q = cc (ne, (eq_iff a b).1 (sym ((eq_iff s a).0 p) ∙ (eq_iff s b).0 q))

abbrev pub Dict {ℓ} : Type ℓ → Type ℓ
Dict V = List (String × V)

module _ {ℓ} {V : Type ℓ} where
  -- `d.get(k)`
  unfoldable pub lookup : String → Dict V → Option V
  lookup k [] = none
  lookup k ((j, v) ∷ d) = if j == k then some v else lookup k d

  -- `k in d`
  unfoldable pub contains : String → Dict V → Bool
  contains k [] = false
  contains k ((j, v) ∷ d) = if j == k then true else contains k d

  -- `d[k] = v`
  unfoldable pub insert : String → V → Dict V → Dict V
  insert k v [] = (k, v) ∷ []
  insert k v ((j, w) ∷ d) = if j == k then (k, v) ∷ d else (j, w) ∷ insert k v d

  -- `d.pop(k, None)`
  unfoldable pub erase : String → Dict V → Dict V
  erase k [] = []
  erase k ((j, v) ∷ d) = if j == k then erase k d else (j, v) ∷ erase k d

  -- `{k: v for k, v in d.items() if p(k, v)}`
  unfoldable pub keep_items : (String → V → Bool) → Dict V → Dict V
  keep_items p [] = []
  keep_items p ((j, v) ∷ d) = if p j v then (j, v) ∷ keep_items p d else keep_items p d

  pub lookup-insert :
      (k j : String) (v : V) (d : Dict V)
      → lookup j (insert k v d) ≡ (if k == j then some v else lookup j d)
  unfolding lookup insert
  lookup-insert k j v [] = refl
  lookup-insert k j v ((i, w) ∷ d) =
      ground (arith, eq_iff k j, eq_iff i k, eq_iff i j, lookup-insert k j v d)

  pub lookup-erase :
      (k j : String) (d : Dict V) → lookup j (erase k d) ≡ (if k == j then none else lookup j d)
  unfolding lookup erase
  lookup-erase k j [] = ground arith
  lookup-erase k j ((i, w) ∷ d) =
      ground (arith, eq_iff k j, eq_iff i k, eq_iff i j, lookup-erase k j d)

  pub contains-eq-lookup :
      (k : String) (d : Dict V) → contains k d ≡ elim (lookup k d) [ none ↦ false | some _ ↦ true ]
  unfolding lookup contains
  contains-eq-lookup k [] = refl
  contains-eq-lookup k ((i, w) ∷ d) = ground (arith, contains-eq-lookup k d)

  -- No key stands twice; every dict is like this.
  abbrev pub HasDistinctKeys : Dict V → Type 0
  HasDistinctKeys [] = Unit
  HasDistinctKeys ((k, v) ∷ d) = (contains k d ≡ false) × HasDistinctKeys d

  contains-insert :
      (k j : String) (v : V) (d : Dict V)
      → contains j (insert k v d) ≡ (if k == j then true else contains j d)
  unfolding contains insert
  contains-insert k j v [] = refl
  contains-insert k j v ((i, w) ∷ d) =
      ground (arith, eq_iff k j, eq_iff i k, eq_iff i j, contains-insert k j v d)

  contains-erase :
      (k j : String) (d : Dict V) → contains j d ≡ false → contains j (erase k d) ≡ false
  unfolding contains erase
  contains-erase k j [] h = h
  contains-erase k j ((i, w) ∷ d) h = ground (arith, contains-erase k j d)

  contains-keep_items :
      (p : String → V → Bool) (j : String) (d : Dict V)
      → contains j d ≡ false
      → contains j (keep_items p d) ≡ false
  unfolding contains keep_items
  contains-keep_items p j [] h = h
  contains-keep_items p j ((i, w) ∷ d) h = ground (arith, contains-keep_items p j d)

  pub insert-HasDistinctKeys :
      (k : String) (v : V) (d : Dict V) → HasDistinctKeys d → HasDistinctKeys (insert k v d)
  unfolding insert contains
  insert-HasDistinctKeys k v [] h = (refl, tt)
  insert-HasDistinctKeys k v ((i, w) ∷ d) h =
      ground
        (arith, insert-HasDistinctKeys k v d h.1, contains-insert k i v d, eq_iff i k, eq_iff k i)

  pub erase-HasDistinctKeys :
      (k : String) (d : Dict V) → HasDistinctKeys d → HasDistinctKeys (erase k d)
  unfolding erase
  erase-HasDistinctKeys k [] h = tt
  erase-HasDistinctKeys k ((i, w) ∷ d) h =
      ground (arith, erase-HasDistinctKeys k d h.1, contains-erase k i d h.0)

  pub keep_items-HasDistinctKeys :
      (p : String → V → Bool) (d : Dict V) → HasDistinctKeys d → HasDistinctKeys (keep_items p d)
  unfolding keep_items
  keep_items-HasDistinctKeys p [] h = tt
  keep_items-HasDistinctKeys p ((i, w) ∷ d) h =
      ground (arith, keep_items-HasDistinctKeys p d h.1, contains-keep_items p i d h.0)

  abbrev pub keep_value : (String → V → Bool) → String → Option V → Option V
  keep_value p k none = none
  keep_value p k (some v) = if p k v then some v else none

  pub lookup-contains : (k : String) (d : Dict V) → contains k d ≡ false → lookup k d ≡ none
  unfolding lookup contains
  lookup-contains k [] h = refl
  lookup-contains k ((i, w) ∷ d) h = ground (arith, lookup-contains k d)

  pub lookup-keep_items :
      (p : String → V → Bool) (k : String) (d : Dict V)
      → HasDistinctKeys d
      → lookup k (keep_items p d) ≡ keep_value p k (lookup k d)
  unfolding lookup keep_items
  lookup-keep_items p k [] h = refl
  lookup-keep_items p k ((i, w) ∷ d) h = ground (
    arith,
    lookup-keep_items p k d h.1,
    lookup-contains k d,
    lookup-contains k (keep_items p d),
    contains-keep_items p k d,
    eq_iff i k,
  )
