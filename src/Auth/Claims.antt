-- ===== src/Auth/Claims.antt =====
-- What the callback of backend/app/api/routes/oidc_auth.py reads from the claims of a token: the user
-- name, the address and the admin flag by the mappings of the provider, and the filter on the domain of
-- the address. A claim name that is no string names no claim.
pub mod Laws
mod Tests
use Prim.Native.Char.{code}
use finna_app.Prelude.{
  String, Bool, true, false, not, ◌&&◌, Option, none, some, ◌==◌, eqb, if◌then◌else◌, codes,
  is_infix,
}
use finna_app.Python.Value.{
  Value, null, bool, num, str, arr, obj, Items, nil, cons, Fields, end, get?, get, get_or, truthy,
}
use finna_app.Python.Equality.{equals}
use finna_app.Python.Try.{Try, ok, raise, type_error, attribute_error, ◌>>=◌}

abbrev pub map_ok : {A B : Type 0} → (A → B) → Try A → Try B
map_ok f (ok a) = ok (f a)
map_ok f (raise e) = raise e

-- `claims.get(name, default)`; a list or a dict is no key.
unfoldable pub get_claim : Fields → Value → Value → Try Value
get_claim claims (str name) default = ok (get_or claims name default)
get_claim claims (arr vs) default = raise type_error
get_claim claims (obj d) default = raise type_error
get_claim claims null default = ok default
get_claim claims (bool b) default = ok default
get_claim claims (num n) default = ok default

-- `v in ws`
unfoldable pub lists_value : Value → Items → Bool
unfolding equals
lists_value v nil = false
lists_value v (cons w ws) = if equals w v then true else lists_value v ws

-- The claim against the value of the rule: a list contains it, or a string is it.
unfoldable pub claim_matches : Value → Value → Bool
unfolding lists_value equals
claim_matches (arr vs) rule_match = lists_value rule_match vs
claim_matches (str s) rule_match = equals (str s) rule_match
claim_matches _ rule_match = false

unfoldable pub admin_by_rule : Fields → Value → Try Bool
unfolding get_claim claim_matches
admin_by_rule claims (obj admin_rule) =
    let rule_claim = get admin_rule "claim" in
    let rule_match = get admin_rule "match" in
    if truthy rule_claim && truthy rule_match
    then map_ok (λ claim_value. claim_matches claim_value rule_match)
        (get_claim claims rule_claim null)
    else ok false
admin_by_rule claims _ = ok false

pub record Mapped : Type 0 where
  pub username : Value
  pub email : Value
  pub is_admin : Bool

-- `_apply_claim_mappings`
unfoldable pub apply_claim_mappings : Fields → Fields → Try Mapped
unfolding get_claim admin_by_rule
apply_claim_mappings claims mappings = do
  username ← get_claim claims (get_or mappings "username" (str "preferred_username")) (str "")
  email ← get_claim claims (get_or mappings "email" (str "email")) (str "")
  is_admin ← admin_by_rule claims (get_or mappings "is_admin" (obj end))
  ok (record { username = username; email = email; is_admin = is_admin })

-- The text before the first "@" and the text behind it.
unfoldable pub cut : String → Option (String × String)
cut String.[] = none
cut (String.◌∷◌ c s) =
    let rest = cut s in
    if eqb (code c) b'@'
    then some ("", s)
    else elim rest [ none ↦ none | some (a, b) ↦ some (String.◌∷◌ c a, b) ]

abbrev second_piece : Option (String × String) → String → String
second_piece none rest = rest
second_piece (some (domain, more)) rest = domain

abbrev pub domain_in : Option (String × String) → String
domain_in none = ""
domain_in (some (local, rest)) = second_piece (cut rest) rest

-- `email.split("@")[1] if "@" in email else ""`
unfoldable pub email_domain : String → String
unfolding cut
email_domain email = domain_in (cut email)

-- `email_domain not in allowed_domains`, over a list, the keys of a dict, or the parts of a string
unfoldable pub domain_listed : String → Value → Try Bool
unfolding lists_value get?
domain_listed domain (arr vs) = ok (lists_value (str domain) vs)
domain_listed domain (obj d) = ok (elim (get? d domain) [ none ↦ false | some v ↦ true ])
domain_listed domain (str s) = ok (is_infix (codes domain) (codes s))
domain_listed domain _ = raise type_error

unfoldable pub as_string : Value → Try String
as_string (str s) = ok s
as_string _ = raise type_error

-- What the callback makes of the mapped claims: the HTTP status of a refusal, or the user name, the
-- address and the flag.
pub data Judged : Type 0 where
  refused_400 refused_403 : Judged
  welcome : Value → String → Bool → Judged

unfoldable pub judge_domain : Value → String → Bool → Value → Try Judged
unfolding domain_listed email_domain
judge_domain username email is_admin allowed_domains =
    if truthy allowed_domains
    then map_ok (λ listed. if listed then welcome username email is_admin else refused_403)
        (domain_listed (email_domain email) allowed_domains)
    else ok (welcome username email is_admin)

unfoldable pub judge_mapped : Value → Mapped → Try Judged
unfolding judge_domain as_string
judge_mapped allowed_domains mapped =
    if not (truthy mapped.username && truthy mapped.email) then ok refused_400 else do
      email ← as_string mapped.email
      judge_domain mapped.username email mapped.is_admin allowed_domains

-- The checks of `oidc_callback` on the claims, up to the look-up of the user.
unfoldable pub judge_claims : Fields → Fields → Value → Try Judged
unfolding apply_claim_mappings
judge_claims claims mappings allowed_domains = do
  mapped ← apply_claim_mappings claims mappings
  judge_mapped allowed_domains mapped
