-- ===== src/Auth/Oidc/Verify/Keys.antt =====
-- The key that `verify_id_token` finds is one of those that the issuer publishes.
use mathlib.Core.Path.{ap, subst, sym, ◌∙◌}
use finna_app.Prelude.{
  if◌then◌else◌, ◌⊎◌, ◌≡◌, inl, inr, refl, Option, none, some, arith, Bool-cases,
}
use finna_app.Python.Value.{Value, arr, obj, Items, nil, cons, Fields, get}
use finna_app.Auth.Oidc.{Oidc, ok, oidc_error, crash}
use finna_app.Auth.Oidc.Discovery.{as_dict}
use finna_app.Auth.Oidc.Verify.{
  find_key, find_in, as_keys, key_by_kid, asymmetric_key, or_no_key, usable, same_kid, bind,
}

-- Inversion of a bind that returned.
pub bind-eq-ok {ℓ κ} :
    {A : Type ℓ} {B : Type κ} {result : B} (action : Oidc A) (rest : A → Oidc B)
    → bind action rest ≡ ok result
    → (value : A) × (action ≡ ok value) × (rest value ≡ ok result)
bind-eq-ok (oidc_error e) rest returned = cc
bind-eq-ok (crash e) rest returned = cc
bind-eq-ok (ok value) rest returned = (value, refl, returned)

-- The value stands in the list.
pub data In (v : Value) : Items → Type 0 where
  here : {vs : Items} → In v (cons v vs)
  there : {w : Value} {vs : Items} → In v vs → In v (cons w vs)

usable-In :
    (found : Option Fields) (keys : Items)
    → ((k : Fields) → found ≡ some k → In (obj k) keys)
    → (key : Fields) → or_no_key found ≡ ok key
    → In (obj key) keys
usable-In none keys h key e = cc
usable-In (some k) keys h key e =
    let same : k ≡ key = ground arith in subst (λ u. In (obj u) keys) same (h k refl)

key_by_kid-In :
    (kid : Value) (keys : Items) (k : Fields) → key_by_kid kid keys ≡ ok (some k) → In (obj k) keys
unfolding key_by_kid as_dict
key_by_kid-In kid nil k h = cc
key_by_kid-In kid (cons (obj d) vs) k h = elim (Bool-cases (same_kid (get d "kid") kid)) [
  | inl p ↦
      let same : d ≡ k = ground arith in subst (λ u. In (obj k) (cons (obj u) vs)) (sym same) here
  | inr p ↦ there (key_by_kid-In kid vs k (ground arith))
]
key_by_kid-In kid (cons v vs) k h = cc

asymmetric_key-cons :
    (d : Fields) (vs : Items) (k : Fields)
    → asymmetric_key (cons (obj d) vs) ≡ ok (some k)
    → (d ≡ k) ⊎ (asymmetric_key vs ≡ ok (some k))
unfolding asymmetric_key as_dict
asymmetric_key-cons d vs k h = ground arith

asymmetric_key-In :
    (keys : Items) (k : Fields) → asymmetric_key keys ≡ ok (some k) → In (obj k) keys
unfolding asymmetric_key as_dict
asymmetric_key-In nil k h = cc
asymmetric_key-In (cons (obj d) vs) k h = elim (asymmetric_key-cons d vs k h) [
  | inl same ↦ subst (λ u. In (obj k) (cons (obj u) vs)) (sym same) here
  | inr rest ↦ there (asymmetric_key-In vs k rest)
]
asymmetric_key-In (cons v vs) k h = cc

find_in-In :
    (kid : Value) (keys : Items) (key : Fields) → find_in kid keys ≡ ok key → In (obj key) keys
find_in-In kid keys key h =
    let (found, e, h1) =
      bind-eq-ok (key_by_kid kid keys)
        (λ o. if usable o then or_no_key o else bind (asymmetric_key keys) or_no_key) h in
    elim (Bool-cases (usable found)) [
      | inl p ↦
          usable-In found keys
            (λ k same. key_by_kid-In kid keys k (e ∙ ap (λ (o : Option Fields). ok o) same)) key
            (ground arith)
      | inr p ↦
          let (other, f, h2) = bind-eq-ok (asymmetric_key keys) or_no_key (ground arith) in
          usable-In other keys
            (λ k same. asymmetric_key-In keys k (f ∙ ap (λ (o : Option Fields). ok o) same)) key h2
    ]

as_keys-eq-ok : (v : Value) {items : Items} → as_keys v ≡ ok items → v ≡ arr items
unfolding as_keys
as_keys-eq-ok (arr vs) h = ground arith
as_keys-eq-ok v h = cc

pub find_key-In :
    (kid keys : Value) (key : Fields)
    → find_key kid keys ≡ ok key
    → (items : Items) × (keys ≡ arr items) × In (obj key) items
unfolding find_key
find_key-In kid keys key h =
    let (items, e, h1) = bind-eq-ok (as_keys keys) (find_in kid) h in
    (items, as_keys-eq-ok keys e, find_in-In kid items key h1)
