-- ===== src/Prelude/Sorted.antt =====
-- `sorted(d.items())` of a dict with string keys: by key, as no key stands twice.
use Prim.Native.String.{String, compare}
use mathlib.Core.Path.{◌≡◌, refl, ◌∙◌}
use mathlib.Core.Bool.{true, false}
use mathlib.Core.Option.{some}
use mathlib.Core.List.{[], ◌∷◌}
use native.Mathlib.Omega.{arith}
use text.Mathlib.Text.{◌==◌, is_lt}
use text.Mathlib.TextEquality.{eq_iff}
use finna_app.Prelude.Tests.{if◌then◌else◌}
use finna_app.Prelude.Dict.{Dict, lookup, contains, HasDistinctKeys}

module _ {ℓ} {V : Type ℓ} where
  unfoldable pub place : String → V → Dict V → Dict V
  place k v [] = (k, v) ∷ []
  place k v ((j, w) ∷ d) = if is_lt (compare j k) then (j, w) ∷ place k v d else (k, v) ∷ (j, w) ∷ d

  unfoldable pub sorted_items : Dict V → Dict V
  unfolding place
  sorted_items [] = []
  sorted_items ((k, v) ∷ d) = place k v (sorted_items d)

  contains-place :
      (k j : String) (v : V) (d : Dict V)
      → contains j (place k v d) ≡ (if k == j then true else contains j d)
  unfolding place contains
  contains-place k j v [] = refl
  contains-place k j v ((i, w) ∷ d) = ground (arith, contains-place k j v d)

  lookup-place :
      (k j : String) (v : V) (d : Dict V)
      → contains k d ≡ false
      → lookup j (place k v d) ≡ (if k == j then some v else lookup j d)
  unfolding place lookup contains
  lookup-place k j v [] h = refl
  lookup-place k j v ((i, w) ∷ d) h =
      ground (arith, eq_iff k j, eq_iff i j, eq_iff i k, lookup-place k j v d)

  place-HasDistinctKeys :
      (k : String) (v : V) (d : Dict V)
      → contains k d ≡ false
      → HasDistinctKeys d
      → HasDistinctKeys (place k v d)
  unfolding place contains
  place-HasDistinctKeys k v [] h distinct = (refl, tt)
  place-HasDistinctKeys k v ((i, w) ∷ d) h distinct =
      ground (arith, eq_iff k i, eq_iff i k, contains-place k i v d, place-HasDistinctKeys k v d)

  contains-sorted_items : (j : String) (d : Dict V) → contains j (sorted_items d) ≡ contains j d
  unfolding sorted_items contains
  contains-sorted_items j [] = refl
  contains-sorted_items j ((k, v) ∷ d) =
      ground (arith, contains-place k j v (sorted_items d), contains-sorted_items j d)

  pub sorted_items-HasDistinctKeys :
      (d : Dict V) → HasDistinctKeys d → HasDistinctKeys (sorted_items d)
  unfolding sorted_items
  sorted_items-HasDistinctKeys [] h = tt
  sorted_items-HasDistinctKeys ((k, v) ∷ d) h =
      place-HasDistinctKeys k v (sorted_items d) (contains-sorted_items k d ∙ h.0)
        (sorted_items-HasDistinctKeys d h.1)

  pub lookup-sorted_items :
      (j : String) (d : Dict V) → HasDistinctKeys d → lookup j (sorted_items d) ≡ lookup j d
  unfolding sorted_items lookup
  lookup-sorted_items j [] h = refl
  lookup-sorted_items j ((k, v) ∷ d) h = ground (
    arith,
    contains-sorted_items k d,
    lookup-place k j v (sorted_items d),
    lookup-sorted_items j d h.1,
  )
