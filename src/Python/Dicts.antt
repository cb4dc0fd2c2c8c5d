-- ===== src/Python/Dicts.antt =====
-- Dicts of JSON values: assignment, `update`, a comprehension that keeps some keys, and what a look-up
-- sees of them.
use finna_app.Prelude.{
  ◌≡◌, refl, String, Bool, true, false, Option, none, some, arith, ◌==◌, eq_iff, if◌then◌else◌,
  Bool-cases, inl, inr, eq_refl,
}
use finna_app.Python.Value.{Value, Fields, end, field, get?}

-- `d[k] = v`
unfoldable pub set_field : String → Value → Fields → Fields
set_field k v end = field k v end
set_field k v (field j w d) = if j == k then field k v d else field j w (set_field k v d)

-- `d.update(e)`
unfoldable pub update : Fields → Fields → Fields
update d end = d
update d (field k v e) = update (set_field k v d) e

-- `{k: v for k, v in d.items() if p(k)}`
unfoldable pub keep_keys : (String → Bool) → Fields → Fields
keep_keys p end = end
keep_keys p (field k v d) = if p k then field k v (keep_keys p d) else keep_keys p d

-- `any(p(k) for k in d)`
unfoldable pub some_key : (String → Bool) → Fields → Bool
some_key p end = false
some_key p (field k v d) = if p k then true else some_key p d

-- No key stands twice, as in every dict.
abbrev pub IsDict : Fields → Type 0
IsDict end = Unit
IsDict (field k v d) = (get? d k ≡ none) × IsDict d

pub get?-set_field :
    (k j : String) (v : Value) (d : Fields)
    → get? (set_field k v d) j ≡ (if k == j then some v else get? d j)
unfolding get? set_field
get?-set_field k j v end = refl
get?-set_field k j v (field i w d) =
    ground (arith, eq_iff k j, eq_iff i k, eq_iff i j, get?-set_field k j v d)

pub get?-keep_keys :
    (p : String → Bool) (j : String) (d : Fields)
    → get? (keep_keys p d) j ≡ (if p j then get? d j else none)
unfolding get? keep_keys
get?-keep_keys p j end = ground arith
get?-keep_keys p j (field k v d) = ground (arith, eq_iff k j, get?-keep_keys p j d)

abbrev pub or_old : Option Value → Option Value → Option Value
or_old (some v) old = some v
or_old none old = old

pub get?-update :
    (d e : Fields) (j : String) → IsDict e → get? (update d e) j ≡ or_old (get? e j) (get? d j)
unfolding get? update
get?-update d end j h = refl
get?-update d (field k v e) j h =
    ground (arith, eq_iff k j, get?-update (set_field k v d) e j h.1, get?-set_field k j v d)

pub keep_keys-IsDict : (p : String → Bool) (d : Fields) → IsDict d → IsDict (keep_keys p d)
unfolding keep_keys
keep_keys-IsDict p end h = tt
keep_keys-IsDict p (field k v d) h = ground (arith, keep_keys-IsDict p d h.1, get?-keep_keys p k d)

pub some_key-get? :
    (p : String → Bool) (d : Fields) (k : String)
    → some_key p d ≡ false
    → p k ≡ true
    → get? d k ≡ none
unfolding some_key get?
some_key-get? p end k h q = refl
some_key-get? p (field j v d) k h q = ground (arith, eq_iff j k, some_key-get? p d k)

-- `any` has an example.
pub some_key-example :
    (p : String → Bool) (d : Fields)
    → some_key p d ≡ true
    → (k : String) × (p k ≡ true) × (v : Value) × (get? d k ≡ some v)
unfolding some_key get?
some_key-example p end h = cc
some_key-example p (field j v d) h = elim (Bool-cases (p j)) [
  | inl q ↦ (j, q, v, ground (arith, eq_refl j))
  | inr q ↦
      let (k, r, w, e) = some_key-example p d (ground arith) in
      elim (Bool-cases (j == k)) [
        | inl s ↦ (k, r, v, ground arith)
        | inr s ↦ (k, r, w, ground arith)
      ]
]
