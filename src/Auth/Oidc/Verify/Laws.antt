-- ===== src/Auth/Oidc/Verify/Laws.antt =====
-- What a token has that `verify_id_token` accepts.
use text.Mathlib.Text.{starts_with}
use mathlib.Core.Path.{ap, subst, sym, ◌∙◌}
use finna_app.Prelude.{
  ℕ, ◌+◌, ◌*◌, ◌≡◌, ◌↔◌, inl, inr, refl, String, true, false, ◌&&◌, Option, none, some, arith, ◌==◌,
  eq_iff, eq_refl, Bool-cases,
}
use finna_app.Python.Decimal.{less}
use finna_app.Python.Value.{
  Value, null, bool, num, str, arr, obj, Items, nil, cons, Fields, get, get_or, truthy,
}
use finna_app.Auth.Oidc.{Oidc, ok, oidc_error, crash, second}
use finna_app.Auth.Oidc.Discovery.{Network, World, Action, continue, ◌>>=◌, lift, get_jwks}
use finna_app.Auth.Oidc.Verify.{
  Jose, Decoded, claims_of, insecure, find_key, decode_as, decode_under, decode_with_keys, bind,
  timestamp, number, check_exp, check_iat, check_iss, check_aud, check_nonce, is_text, lists_text,
  is_audience, check_claims, from_decoded, require_header, as_alg, keys_of, require_issuer,
  with_clock, verify_id_token, verify_id_token_no_nonce,
}
use finna_app.Auth.Oidc.Verify.Keys.{bind-eq-ok, In, find_key-In}

continue-eq-ok :
    {A B : Type 0} (r : Oidc A) (f : A → Action B) (w : World) {b : B}
    → (continue r f w).0 ≡ ok b
    → (a : A) × (r ≡ ok a) × ((f a w).0 ≡ ok b) × ((continue r f w).1 ≡ (f a w).1)
continue-eq-ok (ok a) f w h = (a, refl, h, refl)
continue-eq-ok (oidc_error e) f w h = cc
continue-eq-ok (crash e) f w h = cc

is_text_iff : (s : String) (v : Value) → is_text s v ≡ true → v ≡ str s
unfolding is_text
is_text_iff s (str t) h = ap str ((eq_iff t s).0 h)
is_text_iff s null h = cc
is_text_iff s (bool b) h = cc
is_text_iff s (num n) h = cc
is_text_iff s (arr vs) h = cc
is_text_iff s (obj d) h = cc

is_text_refl : (s : String) → is_text s (str s) ≡ true
unfolding is_text
is_text_refl s = eq_refl s

-- The client id is the audience or stands in the list of audiences.
pub data Names (s : String) : Value → Type 0 where
  alone : Names s (str s)
  first : {vs : Items} → Names s (arr (cons (str s) vs))
  later : {v : Value} {vs : Items} → Names s (arr vs) → Names s (arr (cons v vs))

-- `exp` is a number that is not in the past.
abbrev pub Unexpired : ℕ → Value → Type 0
Unexpired now (num t) = (truthy (num t) ≡ true) × (less t (timestamp now) ≡ false)
Unexpired now (bool b) = (b ≡ true) × (less (number b) (timestamp now) ≡ false)
Unexpired now _ = ⊥

-- `iat`, where there is one, is at most 300 seconds ahead.
abbrev pub NotAhead : ℕ → Value → Type 0
NotAhead now (num t) = (truthy (num t) && less (timestamp (now + 300 * second)) t) ≡ false
NotAhead now (bool b) = (b && less (timestamp (now + 300 * second)) (number b)) ≡ false
NotAhead now v = truthy v ≡ false

check_exp-ok : (now : ℕ) (v : Value) → check_exp now v ≡ ok tt → Unexpired now v
unfolding check_exp
check_exp-ok now (num t) h = ground arith
check_exp-ok now null h = ground arith
check_exp-ok now (bool b) h = ground arith
check_exp-ok now (str s) h = ground arith
check_exp-ok now (arr vs) h = ground arith
check_exp-ok now (obj d) h = ground arith

check_iat-ok : (now : ℕ) (v : Value) → check_iat now v ≡ ok tt → NotAhead now v
unfolding check_iat
check_iat-ok now (num t) h = ground arith
check_iat-ok now null h = ground arith
check_iat-ok now (bool b) h = ground arith
check_iat-ok now (str s) h = ground arith
check_iat-ok now (arr vs) h = ground arith
check_iat-ok now (obj d) h = ground arith

lists_text-Names : (s : String) (vs : Items) → lists_text s vs ≡ true → Names s (arr vs)
unfolding lists_text
lists_text-Names s nil h = cc
lists_text-Names s (cons v vs) h = elim (Bool-cases (is_text s v)) [
  | inl p ↦ subst (λ u. Names s (arr (cons u vs))) (sym (is_text_iff s v p)) first
  | inr p ↦ later (lists_text-Names s vs (ground arith))
]

is_audience-Names : (s : String) (v : Value) → is_audience s v ≡ true → Names s v
unfolding is_audience is_text
is_audience-Names s (arr vs) h = lists_text-Names s vs h
is_audience-Names s (str t) h = subst (λ u. Names s u) (sym (is_text_iff s (str t) h)) alone
is_audience-Names s null h = cc
is_audience-Names s (bool b) h = cc
is_audience-Names s (num n) h = cc
is_audience-Names s (obj d) h = cc

-- What the two functions establish of a token: it is signed, under an algorithm that is neither
-- "none" nor a shared-secret one, by a key that the issuer publishes; it is from the issuer, for the
-- client, not expired and not from the future.
pub record Trusted (net : Network) (jose : Jose) (id_token issuer client_id : String)
    (asked checked : World) (claims : Fields) : Type 0 where
  pub jwks : Value
  pub keys : Items
  pub header : Fields
  pub alg : String
  pub key : Fields
  pub published : (get_jwks net issuer asked).0 ≡ ok jwks
  pub listed : keys_of jwks ≡ ok (arr keys)
  pub has_header : jose.unverified_header id_token ≡ some header
  pub has_alg : get_or header "alg" (str "") ≡ str alg
  pub not_none : (alg == "none") ≡ false
  pub not_shared : starts_with alg "HS" ≡ false
  pub found : In (obj key) keys
  pub signed : jose.decode id_token key alg ≡ claims_of claims
  pub unexpired : Unexpired checked.now (get claims "exp")
  pub not_ahead : NotAhead checked.now (get claims "iat")
  pub from_issuer : get_or claims "iss" (str "") ≡ str issuer
  pub for_client : Names client_id (get claims "aud")

require_header-eq-ok :
    (o : Option Fields) {header : Fields} → require_header o ≡ ok header → o ≡ some header
unfolding require_header
require_header-eq-ok none h = cc
require_header-eq-ok (some d) h = ground arith

as_alg-eq-ok : (v : Value) {alg : String} → as_alg v ≡ ok alg → v ≡ str alg
unfolding as_alg
as_alg-eq-ok (str s) h = ground arith
as_alg-eq-ok null h = cc
as_alg-eq-ok (bool b) h = cc
as_alg-eq-ok (num n) h = cc
as_alg-eq-ok (arr vs) h = cc
as_alg-eq-ok (obj d) h = cc

from_decoded-eq-ok :
    (d : Decoded) {claims : Fields} → from_decoded d ≡ ok claims → d ≡ claims_of claims
unfolding from_decoded
from_decoded-eq-ok d h = ground arith

-- The claims checked by `check_claims`, one by one.
check_claims-eq-ok :
    (now : ℕ) (issuer client_id : String) (claims checked : Fields)
    → check_claims now issuer client_id claims ≡ ok checked
    → (claims ≡ checked)
      × (check_exp now (get checked "exp") ≡ ok tt)
      × (check_iat now (get checked "iat") ≡ ok tt)
      × (is_text issuer (get_or checked "iss" (str "")) ≡ true)
      × (is_audience client_id (get checked "aud") ≡ true)
unfolding check_claims check_iss check_aud
check_claims-eq-ok now issuer client_id claims checked h = ground arith

insecure-false :
    (alg : String)
    → insecure alg ≡ false
    → ((alg == "none") ≡ false) × (starts_with alg "HS" ≡ false)
unfolding insecure
insecure-false alg h = ground arith

decode_as-is_secure :
    (jose : Jose) (id_token : String) (keys : Value) (header : Fields) (alg : String)
    {claims : Fields}
    → decode_as jose id_token keys header alg ≡ ok claims
    → (insecure alg ≡ false)
      × (bind
            (find_key (get header "kid") keys)
            (λ key. from_decoded (jose.decode id_token key alg))
          ≡ ok claims)
decode_as-is_secure jose id_token keys header alg h = ground arith

decode_with_keys-eq-ok :
    (jose : Jose) (id_token : String) (keys : Value) {claims : Fields}
    → decode_with_keys jose id_token keys ≡ ok claims
    → (header : Fields) × (alg : String) × (key : Fields) × (jose.unverified_header id_token
        ≡ some header)
      × (get_or header "alg" (str "") ≡ str alg)
      × (insecure alg ≡ false)
      × (find_key (get header "kid") keys ≡ ok key)
      × (jose.decode id_token key alg ≡ claims_of claims)
unfolding decode_with_keys
decode_with_keys-eq-ok jose id_token keys h =
    let (header, p, h1) =
      bind-eq-ok (require_header (jose.unverified_header id_token))
        (decode_under jose id_token keys) h in
    let (alg, q, h2) =
      bind-eq-ok (as_alg (get_or header "alg" (str ""))) (decode_as jose id_token keys header) h1 in
    let (is_secure, h3) = decode_as-is_secure jose id_token keys header alg h2 in
    let (key, r, h4) =
      bind-eq-ok (find_key (get header "kid") keys)
        (λ key. from_decoded (jose.decode id_token key alg)) h3 in
    (
      header,
      alg,
      key,
      require_header-eq-ok _ p,
      as_alg-eq-ok _ q,
      is_secure,
      r,
      from_decoded-eq-ok _ h4,
    )

module _ (net : Network) (jose : Jose) (id_token : String) (metadata : Fields)
    (client_id : String) where
  checked_claims : String → Fields → Action Fields
  checked_claims issuer claims = with_clock (λ now. check_claims now issuer client_id claims)

  from_keys : String → Value → Action Fields
  from_keys issuer keys = lift (decode_with_keys jose id_token keys) >>= checked_claims issuer

  from_jwks : String → Value → Action Fields
  from_jwks issuer jwks = lift (keys_of jwks) >>= from_keys issuer

  from_issuer_keys : String → Action Fields
  from_issuer_keys issuer = get_jwks net issuer >>= from_jwks issuer

  abbrev Verdict : World → World → Fields → Type 0
  Verdict w after claims =
      (issuer : String) × (require_issuer metadata ≡ ok issuer)
      × Trusted net jose id_token issuer client_id w after claims

  -- `verify_id_token_no_nonce` returns no claims but those that the JWT library decodes from the token
  -- under an algorithm that is neither "none" nor HS*, with a key from the list that the issuer of the
  -- metadata publishes, and that name this issuer, name the client as the audience, and are neither
  -- expired nor issued more than 300 seconds ahead when the keys are there.
  pub verify_id_token_no_nonce-Trusted :
      (w : World) (claims : Fields)
      → (verify_id_token_no_nonce net jose id_token metadata client_id w).0 ≡ ok claims
      → Verdict w (verify_id_token_no_nonce net jose id_token metadata client_id w).1 claims
  unfolding verify_id_token_no_nonce from_issuer_keys from_jwks from_keys checked_claims with_clock
  verify_id_token_no_nonce-Trusted w claims h =
      let (issuer, p, h1, e1) = continue-eq-ok (require_issuer metadata) from_issuer_keys w h in
      let (jwks, q, h2, e2) =
        continue-eq-ok (get_jwks net issuer w).0 (from_jwks issuer) (get_jwks net issuer w).1 h1 in
      let (keys, r, h3, e3) =
        continue-eq-ok (keys_of jwks) (from_keys issuer) (get_jwks net issuer w).1 h2 in
      let (decoded, s, h4, e4) =
        continue-eq-ok (decode_with_keys jose id_token keys) (checked_claims issuer)
          (get_jwks net issuer w).1 h3 in
      let (header, alg, key, a, b, c, d, f) = decode_with_keys-eq-ok jose id_token keys s in
      let (items, is_list, among) = find_key-In (get header "kid") keys key d in
      let (i, j, k, l, m) =
        check_claims-eq-ok (get_jwks net issuer w).1.now issuer client_id decoded claims h4 in
      let after = sym e4 ∙ sym e3 ∙ sym e2 ∙ sym e1 in
      (
        issuer,
        p,
        subst (λ u. Trusted net jose id_token issuer client_id w u claims) after
            (record {
              jwks = jwks;
              keys = items;
              header = header;
              alg = alg;
              key = key;
              published = q;
              listed = r ∙ ap (λ (v : Value). ok v) is_list;
              has_header = a;
              has_alg = b;
              not_none = (insecure-false alg c).0;
              not_shared = (insecure-false alg c).1;
              found = among;
              signed = f ∙ ap claims_of i;
              unexpired = check_exp-ok (get_jwks net issuer w).1.now (get claims "exp") j;
              not_ahead = check_iat-ok (get_jwks net issuer w).1.now (get claims "iat") k;
              from_issuer = is_text_iff issuer (get_or claims "iss" (str "")) l;
              for_client = is_audience-Names client_id (get claims "aud") m;
            }),
      )

  after_nonce : String → Fields → Action Fields
  after_nonce nonce checked =
      lift (bind (check_nonce nonce (get_or checked "nonce" (str ""))) λ _. ok checked)

  -- The nonce check, made of what `verify_id_token_no_nonce` returns, is `verify_id_token`.
  verify_id_token-eq :
      (nonce : String) (w : World)
      → (verify_id_token net jose id_token metadata client_id nonce w).0
        ≡ (continue
            (verify_id_token_no_nonce net jose id_token metadata client_id w).0
            (after_nonce nonce)
            (verify_id_token_no_nonce net jose id_token metadata client_id w).1).0
  unfolding verify_id_token verify_id_token_no_nonce after_nonce with_clock
  verify_id_token-eq nonce w = ground arith

  after_nonce_iff :
      (nonce : String) (r : Oidc Fields) (w : World) (claims : Fields)
      → ((continue r (after_nonce nonce) w).0 ≡ ok claims)
        ↔ ((r ≡ ok claims) × (is_text nonce (get_or claims "nonce" (str "")) ≡ true))
  unfolding after_nonce check_nonce
  after_nonce_iff nonce r w claims = ground arith

  -- `verify_id_token` accepts a token exactly where `verify_id_token_no_nonce` does and the claim
  -- "nonce" is the nonce.
  pub verify_id_token_iff :
      (nonce : String) (w : World) (claims : Fields)
      → ((verify_id_token net jose id_token metadata client_id nonce w).0 ≡ ok claims) ↔ (
          ((verify_id_token_no_nonce net jose id_token metadata client_id w).0 ≡ ok claims)
          × (get_or claims "nonce" (str "") ≡ str nonce))
  verify_id_token_iff nonce w claims =
      let judged =
        after_nonce_iff nonce (verify_id_token_no_nonce net jose id_token metadata client_id w).0
          (verify_id_token_no_nonce net jose id_token metadata client_id w).1 claims in
      (
        λ h.
            let (p, q) = judged.0 (sym (verify_id_token-eq nonce w) ∙ h) in
            (p, is_text_iff nonce (get_or claims "nonce" (str "")) q),
        λ pq.
            verify_id_token-eq nonce w
            ∙ judged.1 (pq.0, ap (is_text nonce) pq.1 ∙ is_text_refl nonce),
      )
