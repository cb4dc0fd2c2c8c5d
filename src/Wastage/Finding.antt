-- ===== src/Wastage/Finding.antt =====
-- The `Finding` dataclass, the rule registry and its decorator (backend/app/wastage/rules/__init__.py).
use finna_app.Prelude.{String, ◌++ₛ◌, Option, ◌==◌, if◌then◌else◌}
use finna_app.Prelude.Dict.{Dict, insert}
use finna_app.Python.Decimal.{Decimal}
use finna_app.Python.Value.{Value, Fields, Builtins, to_str}
use finna_app.Python.Try.{Try}

-- A field that a rule fills with `row[...]` or `row.get(...)` holds whatever the row held.
pub record Finding : Type 0 where
  pub provider : String
  pub account_id : Value
  pub resource_id : Value
  pub resource_type : String
  pub rule_id : String
  pub severity : String
  pub category : String
  pub remediation : String
  pub resource_group : Value
  pub region : Value
  pub estimated_monthly_usd : Decimal
  pub evidence : Fields
  pub tags : Value
  pub finding_id : String

-- The key on which the runner upserts, hashed.
unfoldable pub derive_finding_id : Builtins → String → Value → String → String
unfolding to_str
derive_finding_id py provider resource_id rule_id =
    py.sha256 (provider ++ₛ ":" ++ₛ to_str py resource_id ++ₛ ":" ++ₛ rule_id)

-- `__post_init__`
unfoldable pub post_init : Builtins → Finding → Finding
post_init py f =
    if f.finding_id == ""
    then record f { finding_id = derive_finding_id py f.provider f.resource_id f.rule_id }
    else f

-- `pricing.lookup(provider, sku, region)`, as the rules call it.
abbrev pub PriceLookup : Type 0
PriceLookup = String → String → Value → Try Decimal

abbrev pub RuleFn : Type 0
RuleFn = PriceLookup → Fields → Try (Option Finding)

pub record Rule : Type 0 where
  pub id : String
  pub severity : String
  pub category : String
  pub description : String
  pub fn : RuleFn

abbrev pub Registry : Type 0
Registry = Dict Rule

-- The `@rule(...)` decorator: an id that is registered already is overwritten.
unfoldable pub register : Rule → Registry → Registry
unfolding insert
register r registry = insert r.id r registry
