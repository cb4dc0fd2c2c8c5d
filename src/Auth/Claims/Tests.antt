-- ===== src/Auth/Claims/Tests.antt =====
-- The theorems on claims at concrete inputs: a user of the group "admins".
use finna_app.Prelude.{◌≡◌, refl, true}
use finna_app.Python.Value.{Value, str, arr, obj, Fields, end, field, nil, cons, get_or, truthy}
use finna_app.Python.Try.{ok}
use finna_app.Auth.Claims.{
  Mapped, apply_claim_mappings, email_domain, welcome, judge_claims, judge_mapped,
}
use finna_app.Auth.Claims.Laws.{
  GrantsAdmin, at_free, email_domain-eq, apply_claim_mappings-GrantsAdmin, IsAccepted,
  judge_claims-IsAccepted,
}

local_free : at_free "ann" ≡ true
unfolding at_free
local_free = refl

domain_free : at_free "good.org" ≡ true
unfolding at_free
domain_free = refl

email_domain-eq_example :
    (email_domain "ann@good.org" ≡ "good.org") × (email_domain "ann@good.org@evil.org" ≡ "good.org")
email_domain-eq_example = email_domain-eq "ann" "good.org" "evil.org" local_free domain_free

abbrev claims : Fields
claims =
    field "preferred_username" (str "ann")
      (field "email" (str "ann@good.org") (field "groups" (arr (cons (str "admins") nil)) end))

abbrev rule : Value
rule = obj (field "claim" (str "groups") (field "match" (str "admins") end))

abbrev mappings : Fields
mappings = field "is_admin" rule end

abbrev ann : Mapped
ann = record { username = str "ann"; email = str "ann@good.org"; is_admin = true }

ann_mapped : apply_claim_mappings claims mappings ≡ ok ann
unfolding apply_claim_mappings get_or truthy
ann_mapped = refl

apply_claim_mappings-GrantsAdmin_example : GrantsAdmin claims rule
unfolding get_or
apply_claim_mappings-GrantsAdmin_example =
    apply_claim_mappings-GrantsAdmin claims mappings ann ann_mapped refl

abbrev domains : Value
domains = arr (cons (str "good.org") nil)

ann_welcome : judge_claims claims mappings domains ≡ ok (welcome (str "ann") "ann@good.org" true)
unfolding judge_claims judge_mapped get_or truthy
ann_welcome = refl

judge_claims-IsAccepted_example : IsAccepted claims mappings domains (str "ann") "ann@good.org" true
judge_claims-IsAccepted_example =
    judge_claims-IsAccepted claims mappings domains (str "ann") "ann@good.org" true ann_welcome
