-- ===== src/Wastage/Pricing.antt =====
-- The price catalogue: backend/app/wastage/pricing.py. `files` is what reading and parsing
-- `data/prices/<provider>_list_prices.json` comes to: `none` where there is no such file, an `OSError` or a
-- `ValueError` (of the JSON parser or the decoder) where it cannot be read, or any JSON value.
pub mod Laws
use Prim.Native.Char.{code}
use finna_app.Prelude.{String, Bool, true, false, not, Option, none, some, [], eqb, if◌then◌else◌}
use finna_app.Prelude.Dict.{Dict, lookup, insert}
use finna_app.Python.Decimal.{Decimal, zero_decimal}
use finna_app.Python.Value.{
  Value, null, bool, num, str, arr, obj, Fields, end, field, get?, get, truthy, Builtins, to_str,
}
use finna_app.Python.Try.{
  Try, ok, raise, Exc, attribute_error, key_error, type_error, value_error, invalid_operation,
  ◌>>=◌,
}

abbrev pub Files : Type 0
Files = String → Try (Option Value)

-- `_CATALOGS`
abbrev pub Catalogs : Type 0
Catalogs = Dict Value

-- A provider with no file has an empty catalogue.
abbrev pub catalog_of : Try (Option Value) → Try Value
catalog_of (ok none) = ok (obj end)
catalog_of (ok (some catalog)) = ok catalog
catalog_of (raise e) = raise e

abbrev pub store_catalog : String → Try Value → Catalogs → Try Value × Catalogs
store_catalog provider (ok catalog) cache = (ok catalog, insert provider catalog cache)
store_catalog provider (raise e) cache = (raise e, cache)

-- `_load_catalog`: what cannot be read is not cached.
unfoldable pub load_catalog : Files → String → Catalogs → Try Value × Catalogs
unfolding lookup insert
load_catalog files provider cache = elim (lookup provider cache) [
  | some catalog ↦ (ok catalog, cache)
  | none ↦ store_catalog provider (catalog_of (files provider)) cache
]

-- `sku.split("/", 1)`, with `none` where there is no slash
unfoldable pub split_slash : String → Option (String × String)
split_slash String.[] = none
split_slash (String.◌∷◌ c s) =
    let rest = split_slash s in
    if eqb (code c) b'/'
    then some ("", s)
    else elim rest [ none ↦ none | some (a, b) ↦ some (String.◌∷◌ c a, b) ]

-- `v.get(k)`; only a dict has the method.
unfoldable pub as_dict : Value → Try Fields
as_dict (obj d) = ok d
as_dict _ = raise attribute_error

-- A region that is no string is no key of a JSON object; a list or a dict cannot be looked up.
unfoldable pub get_region : Fields → Value → Try Value
get_region d (str region) = ok (get d region)
get_region d (arr vs) = raise type_error
get_region d (obj e) = raise type_error
get_region d null = ok null
get_region d (bool b) = ok null
get_region d (num n) = ok null

-- `Decimal(str(price))`
unfoldable pub to_decimal : Builtins → Value → Try Decimal
to_decimal py (num n) = ok n
to_decimal py v = elim (py.parse_float (to_str py v)) [
  | none ↦ raise invalid_operation
  | some n ↦ ok n
]

unfoldable pub price_in : Builtins → Fields → String → Try Decimal
unfolding to_decimal
price_in py region_data sku_name = elim (get? region_data sku_name) [
  | none ↦ ok zero_decimal
  | some null ↦ ok zero_decimal
  | some price ↦ to_decimal py price
]

unfoldable pub in_region : Builtins → Value → String → Try Decimal
unfolding as_dict
in_region py region_data sku_name =
    if not (truthy region_data)
    then ok zero_decimal
    else do skus ← as_dict region_data; price_in py skus sku_name

unfoldable pub in_category : Builtins → Value → Value → String → Try Decimal
unfolding as_dict get_region
in_category py category_data region sku_name =
    if not (truthy category_data) then ok zero_decimal else do
      prices ← as_dict category_data
      region_data ← get_region prices region
      in_region py region_data sku_name

unfoldable pub in_catalog : Builtins → Value → Option (String × String) → Value → Try Decimal
unfolding as_dict in_category
in_catalog py catalog none region = ok zero_decimal
in_catalog py catalog (some (category, sku_name)) region = do
  categories ← as_dict catalog
  in_category py (get categories category) region sku_name

-- The body of the `try` block, after the catalogue is there.
unfoldable pub find_price : Builtins → Value → String → Value → Try Decimal
unfolding in_catalog
find_price py catalog sku region =
    if not (truthy catalog) then ok zero_decimal else in_catalog py catalog (split_slash sku) region

-- `except (InvalidOperation, TypeError, KeyError, ValueError)`
unfoldable pub caught : Exc → Bool
caught invalid_operation = true
caught type_error = true
caught key_error = true
caught value_error = true
caught _ = false

unfoldable pub zero_if_caught : Try Decimal → Try Decimal
unfolding caught
zero_if_caught (ok price) = ok price
zero_if_caught (raise e) = if caught e then ok zero_decimal else raise e

-- `pricing.lookup`, with the cache that it leaves
unfoldable pub price_lookup :
    Builtins → Files → String → String → Value → Catalogs → Try Decimal × Catalogs
unfolding zero_if_caught
price_lookup py files provider sku region cache =
    let (catalog, cache') = load_catalog files provider cache in
    (zero_if_caught (catalog >>= λ c. find_price py c sku region), cache')

-- `reload`
unfoldable pub reload : Catalogs → Catalogs
reload cache = []
