-- ===== src/Auth/Claims/Laws.antt =====
-- Who becomes an admin, and whose address passes the filter.
use Prim.Native.Char.{code, char}
use mathlib.Core.Path.{ap, subst, sym}
use text.Mathlib.TextLemmas.{cons-append, nil-append}
use finna_app.Auth.Oidc.Verify.Laws.{Names, first, later}
use finna_app.Prelude.{
  ◌≡◌, refl, String, ◌++ₛ◌, Bool, true, false, not, ◌&&◌, none, some, arith, eq_iff, eqb,
  if◌then◌else◌, Option, is_infix, codes, Bool-cases, ◌⊎◌, ◌↔◌, ◌∙◌, inl, inr,
}
use finna_app.Python.Value.{
  Value, null, bool, num, str, arr, obj, Items, nil, cons, Fields, end, get, get_or, truthy,
}
use finna_app.Python.Equality.{equals, equals-text}
use finna_app.Python.Try.{ok, >>=-eq-ok, Try-cases}
use finna_app.Auth.Claims.{
  get?, get_claim, lists_value, claim_matches, admin_by_rule, Mapped, apply_claim_mappings, cut,
  email_domain, map_ok, welcome, judge_claims, judge_mapped, as_string, judge_domain, domain_listed,
}

-- There is no "@" in the text.
unfoldable pub at_free : String → Bool
at_free String.[] = true
at_free (String.◌∷◌ c s) = not (eqb (code c) b'@') && at_free s

cut-at_free : (s : String) → at_free s ≡ true → cut s ≡ none
unfolding cut at_free
cut-at_free String.[] h = refl
cut-at_free (String.◌∷◌ c s) h = ground (arith, cut-at_free s)

cut-at : (t : String) → cut ("@" ++ₛ t) ≡ some ("", t)
unfolding cut
cut-at t = rw (cons-append (char 64 tt) "" t, nil-append t) refl

cut-append : (s t : String) → at_free s ≡ true → cut (s ++ₛ "@" ++ₛ t) ≡ some (s, t)
unfolding cut at_free
cut-append String.[] t h = rw (nil-append ("@" ++ₛ t)) (cut-at t)
cut-append (String.◌∷◌ c s) t h = rw (cons-append c s ("@" ++ₛ t)) (ground (arith, cut-append s t))

-- The domain of an address is what stands behind its first "@", up to the second where there is one:
-- what follows a second "@" does not count.
pub email_domain-eq :
    (local domain more : String)
    → at_free local ≡ true
    → at_free domain ≡ true
    → (email_domain (local ++ₛ "@" ++ₛ domain) ≡ domain)
      × (email_domain (local ++ₛ "@" ++ₛ domain ++ₛ "@" ++ₛ more) ≡ domain)
unfolding email_domain
email_domain-eq local domain more h k = (
  rw (cut-append local domain h, cut-at_free domain k) refl,
  rw (cut-append local (domain ++ₛ "@" ++ₛ more) h, cut-append domain more k) refl,
)

-- A value of the list is equal to the one wanted, as Python compares.
pub data Lists (wanted : Value) : Items → Type 0 where
  found : {v : Value} {vs : Items} → equals v wanted ≡ true → Lists wanted (cons v vs)
  further : {v : Value} {vs : Items} → Lists wanted vs → Lists wanted (cons v vs)

lists_value-Lists : (v : Value) (ws : Items) → lists_value v ws ≡ true → Lists v ws
unfolding lists_value
lists_value-Lists v nil h = cc
lists_value-Lists v (cons w ws) h = elim (Bool-cases (equals w v)) [
  | inl p ↦ found p
  | inr p ↦
      further (
        lists_value-Lists v ws
          (ap (λ (b : Bool). if b then true else lists_value v ws) (sym p) ∙ h))
]

Lists-Names : (s : String) (ws : Items) → Lists (str s) ws → Names s (arr ws)
Lists-Names s nil h = elim h [ ]
Lists-Names s (cons w ws) (found e) =
    subst (λ u. Names s (arr (cons u ws))) (sym (equals-text w s e)) first
Lists-Names s (cons w ws) (further h) = later (Lists-Names s ws h)

-- A claim that is a list has the value wanted, or one that is a text is equal to it.
abbrev pub Grants : Value → Value → Type 0
Grants wanted (arr vs) = Lists wanted vs
Grants wanted (str s) = equals (str s) wanted ≡ true
Grants wanted _ = ⊥

claim_matches-Grants :
    (claim wanted : Value) → claim_matches claim wanted ≡ true → Grants wanted claim
unfolding claim_matches
claim_matches-Grants (arr vs) wanted h = lists_value-Lists wanted vs h
claim_matches-Grants (str t) wanted h = h
claim_matches-Grants null wanted h = cc
claim_matches-Grants (bool b) wanted h = cc
claim_matches-Grants (num n) wanted h = cc
claim_matches-Grants (obj d) wanted h = cc

-- The claim that a rule names has the value that the rule asks for, or lists it.
pub record GrantsAdmin (claims : Fields) (admin_rule : Value) : Type 0 where
  pub rule : Fields
  pub name : String
  pub is_rule : admin_rule ≡ obj rule
  pub names_claim : get rule "claim" ≡ str name
  pub has_value : truthy (get rule "match") ≡ true
  pub granted : Grants (get rule "match") (get claims name)

matched-GrantsAdmin :
    (claims rule : Fields) (name : Value)
    → get rule "claim" ≡ name
    → truthy (get rule "match") ≡ true
    → map_ok (λ claim. claim_matches claim (get rule "match")) (get_claim claims name null)
      ≡ ok true
    → GrantsAdmin claims (obj rule)
unfolding get_claim
matched-GrantsAdmin claims rule (str name) e t h = record {
  rule = rule;
  name = name;
  is_rule = refl;
  names_claim = e;
  has_value = t;
  granted = claim_matches-Grants (get claims name) (get rule "match") (ground arith);
}
matched-GrantsAdmin claims rule null e t h =
    elim (claim_matches-Grants null (get rule "match") (ground arith)) [ ]
matched-GrantsAdmin claims rule (bool b) e t h =
    elim (claim_matches-Grants null (get rule "match") (ground arith)) [ ]
matched-GrantsAdmin claims rule (num m) e t h =
    elim (claim_matches-Grants null (get rule "match") (ground arith)) [ ]
matched-GrantsAdmin claims rule (arr vs) e t h = cc
matched-GrantsAdmin claims rule (obj d) e t h = cc

admin_by_rule-GrantsAdmin :
    (claims : Fields) (admin_rule : Value)
    → admin_by_rule claims admin_rule ≡ ok true
    → GrantsAdmin claims admin_rule
unfolding admin_by_rule
admin_by_rule-GrantsAdmin claims (obj rule) h =
    matched-GrantsAdmin claims rule (get rule "claim") refl (ground arith) (ground arith)
admin_by_rule-GrantsAdmin claims v h = ground arith

-- The mapped claims make an admin only of a user whose token has the claim that the provider's rule
-- names: a text that is equal, or a list with a value that is equal, to the value that the rule asks for.
pub apply_claim_mappings-GrantsAdmin :
    (claims mappings : Fields) (mapped : Mapped)
    → apply_claim_mappings claims mappings ≡ ok mapped
    → mapped.is_admin ≡ true
    → GrantsAdmin claims (get_or mappings "is_admin" (obj end))
unfolding apply_claim_mappings
apply_claim_mappings-GrantsAdmin claims mappings mapped h a =
    let (u, e, h1) =
      >>=-eq-ok (get_claim claims (get_or mappings "username" (str "preferred_username")) (str ""))
        _ h in
    let (m, f, h2) =
      >>=-eq-ok (get_claim claims (get_or mappings "email" (str "email")) (str "")) _ h1 in
    let (b, g, h3) = >>=-eq-ok (admin_by_rule claims (get_or mappings "is_admin" (obj end))) _ h2 in
    let granted : b ≡ true = ground arith in
    admin_by_rule-GrantsAdmin claims (get_or mappings "is_admin" (obj end))
      (g ∙ ap (λ (c : Bool). ok c) granted)

judge_mapped_iff :
    (allowed_domains username : Value) (email : String) (is_admin : Bool) (mapped : Mapped)
    → (judge_mapped allowed_domains mapped ≡ ok (welcome username email is_admin)) ↔ (
        (mapped ≡ record { username = username; email = str email; is_admin = is_admin })
        × (truthy username && truthy (str email) ≡ true)
        × ((truthy allowed_domains ≡ false)
            ⊎ (domain_listed (email_domain email) allowed_domains ≡ ok true)))
unfolding judge_mapped judge_domain as_string
judge_mapped_iff allowed_domains username email is_admin mapped = ground arith

judge_claims_iff :
    (claims mappings : Fields) (allowed_domains username : Value) (email : String) (is_admin : Bool)
    → (judge_claims claims mappings allowed_domains ≡ ok (welcome username email is_admin)) ↔ (
        (apply_claim_mappings claims mappings
          ≡ ok (record { username = username; email = str email; is_admin = is_admin }))
        × (truthy username && truthy (str email) ≡ true)
        × ((truthy allowed_domains ≡ false)
            ⊎ (domain_listed (email_domain email) allowed_domains ≡ ok true)))
unfolding judge_claims
judge_claims_iff claims mappings allowed_domains username email is_admin =
    elim (Try-cases (apply_claim_mappings claims mappings)) [
      | inl (mapped, e) ↦
          ground (arith, judge_mapped_iff allowed_domains username email is_admin mapped)
      | inr (x, e) ↦ ground arith
    ]

-- `claims.get(name, "")`; a name that is no text names no claim.
abbrev pub ClaimOf : Fields → Value → Value → Type 0
ClaimOf claims (str name) v = v ≡ get_or claims name (str "")
ClaimOf claims _ v = v ≡ str ""

-- No domains are listed, or the domain is in the list; a dict lists its keys, a text its parts.
abbrev pub Allows : String → Value → Type 0
Allows domain (arr nil) = Unit
Allows domain (arr vs) = Names domain (arr vs)
Allows domain (str s) = (s ≡ "") ⊎ (is_infix (codes domain) (codes s) ≡ true)
Allows domain (obj d) = (truthy (obj d) ≡ false) ⊎ ((v : Value) × (get? d domain ≡ some v))
Allows domain v = truthy v ≡ false

-- The user that the claims of a token stand for, by the mappings and the domains of the provider.
pub record IsAccepted (claims mappings : Fields) (allowed_domains username : Value) (email : String)
    (is_admin : Bool) : Type 0 where
  pub has_name : truthy username ≡ true
  pub has_email : truthy (str email) ≡ true
  pub is_name : ClaimOf claims (get_or mappings "username" (str "preferred_username")) username
  pub is_email : ClaimOf claims (get_or mappings "email" (str "email")) (str email)
  pub is_allowed : Allows (email_domain email) allowed_domains
  pub may_be_admin : (is_admin ≡ false) ⊎ GrantsAdmin claims (get_or mappings "is_admin" (obj end))

get_claim-ClaimOf :
    (claims : Fields) (name v : Value)
    → get_claim claims name (str "") ≡ ok v
    → ClaimOf claims name v
unfolding get_claim
get_claim-ClaimOf claims (str name) v h = cc (h)
get_claim-ClaimOf claims null v h = cc (h)
get_claim-ClaimOf claims (bool b) v h = cc (h)
get_claim-ClaimOf claims (num n) v h = cc (h)
get_claim-ClaimOf claims (arr vs) v h = cc
get_claim-ClaimOf claims (obj d) v h = cc

unlisted-Allows : (domain : String) (v : Value) → truthy v ≡ false → Allows domain v
unfolding truthy
unlisted-Allows domain (arr nil) h = tt
unlisted-Allows domain (arr (cons v vs)) h = cc
unlisted-Allows domain (str s) h = inl (ground (arith, eq_iff s ""))
unlisted-Allows domain (obj d) h = inl h
unlisted-Allows domain null h = refl
unlisted-Allows domain (bool b) h = h
unlisted-Allows domain (num n) h = h

key_found :
    (o : Option Value) → elim o [ none ↦ false | some v ↦ true ] ≡ true → (v : Value) × (o ≡ some v)
key_found none h = cc
key_found (some v) h = (v, refl)

listed-Allows : (domain : String) (v : Value) → domain_listed domain v ≡ ok true → Allows domain v
unfolding domain_listed
listed-Allows domain (arr nil) h = tt
listed-Allows domain (arr (cons v vs)) h =
    Lists-Names domain (cons v vs) (lists_value-Lists (str domain) (cons v vs) (ground arith))
listed-Allows domain (str s) h = inr (ground arith)
listed-Allows domain (obj d) h = inr (key_found (get? d domain) (ground arith))
listed-Allows domain null h = cc
listed-Allows domain (bool b) h = cc
listed-Allows domain (num n) h = cc

domains-Allows :
    (domain : String) (v : Value)
    → (truthy v ≡ false) ⊎ (domain_listed domain v ≡ ok true)
    → Allows domain v
domains-Allows domain v (inl h) = unlisted-Allows domain v h
domains-Allows domain v (inr h) = listed-Allows domain v h

-- Whom the callback goes on with: a user whose name and address are the claims that the provider maps to
-- them, both there, whose domain the provider lists if it lists any, and who is an admin only by the rule of
-- the provider.
pub judge_claims-IsAccepted :
    (claims mappings : Fields) (allowed_domains username : Value) (email : String) (is_admin : Bool)
    → judge_claims claims mappings allowed_domains ≡ ok (welcome username email is_admin)
    → IsAccepted claims mappings allowed_domains username email is_admin
unfolding apply_claim_mappings
judge_claims-IsAccepted claims mappings allowed_domains username email is_admin h =
    let (mapped, named, domains) =
      (judge_claims_iff claims mappings allowed_domains username email is_admin).0 h in
    let (u, e, h1) =
      >>=-eq-ok (get_claim claims (get_or mappings "username" (str "preferred_username")) (str ""))
        _ mapped in
    let (m, f, h2) =
      >>=-eq-ok (get_claim claims (get_or mappings "email" (str "email")) (str "")) _ h1 in
    let (b, g, h3) = >>=-eq-ok (admin_by_rule claims (get_or mappings "is_admin" (obj end))) _ h2 in
    let same_name : u ≡ username = cc (h3) in
    let same_email : m ≡ str email = cc (h3) in
    record {
      has_name = ground arith;
      has_email = ground arith;
      is_name = get_claim-ClaimOf claims _ username (e ∙ ap (λ (v : Value). ok v) same_name);
      is_email = get_claim-ClaimOf claims _ (str email) (f ∙ ap (λ (v : Value). ok v) same_email);
      is_allowed = domains-Allows (email_domain email) allowed_domains domains;
      may_be_admin = elim (Bool-cases is_admin) [
        | inr plain ↦ inl plain
        | inl granted ↦ inr (apply_claim_mappings-GrantsAdmin claims mappings _ mapped granted)
      ];
    }
