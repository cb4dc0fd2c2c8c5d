-- ===== src/Wastage/Pricing/Laws.antt =====
-- The cache of catalogues changes no price, and what a lookup can raise.
use finna_app.Prelude.{
  ◌≡◌, refl, sym, ◌∙◌, String, not, ◌&&◌, ◌||◌, Bool, true, false, inl, inr, Option, none, some, [],
  arith, eq_iff, if◌then◌else◌, Option-cases,
}
use finna_app.Prelude.Dict.{lookup, lookup-insert}
use finna_app.Python.Decimal.{Decimal}
use finna_app.Python.Value.{Value, null, str, obj, Fields, get, truthy, Builtins}
use finna_app.Python.Try.{Try, ok, raise, Exc, attribute_error, ◌>>=◌}
use finna_app.Wastage.Pricing.{
  Files, Catalogs, caught, catalog_of, store_catalog, load_catalog, find_price, zero_if_caught,
  price_lookup, split_slash, price_in, in_region, in_category, in_catalog,
}

-- Each cached catalogue is what the file holds.
pub record IsCoherent (files : Files) (cache : Catalogs) : Type 0 where
  pub at_provider :
      (p : String) (catalog : Value)
      → lookup p cache ≡ some catalog
      → catalog_of (files p) ≡ ok catalog

module _ (files : Files) (provider : String) (cache : Catalogs) (h : IsCoherent files cache) where
  store_catalog-fst : (m : Try Value) → (store_catalog provider m cache).0 ≡ m
  store_catalog-fst (ok catalog) = refl
  store_catalog-fst (raise e) = refl

  load_catalog-fst : (load_catalog files provider cache).0 ≡ catalog_of (files provider)
  unfolding load_catalog
  load_catalog-fst = elim (Option-cases (lookup provider cache)) [
    | inl e ↦ rw (e, load_catalog) (store_catalog-fst (catalog_of (files provider)))
    | inr (catalog, e) ↦ rw (e, load_catalog) (sym (h.at_provider provider catalog e))
  ]

  store_catalog-IsCoherent :
      (m : Try Value)
      → catalog_of (files provider) ≡ m
      → IsCoherent files (store_catalog provider m cache).1
  store_catalog-IsCoherent (raise e) same = h
  store_catalog-IsCoherent (ok new) same = record {
    at_provider = λ p catalog e.
        ground
          (arith, lookup-insert provider p new cache, eq_iff provider p, h.at_provider p catalog);
  }

  load_catalog-IsCoherent : IsCoherent files (load_catalog files provider cache).1
  unfolding load_catalog
  load_catalog-IsCoherent = elim (Option-cases (lookup provider cache)) [
    | inl e ↦ rw (e, load_catalog) (store_catalog-IsCoherent (catalog_of (files provider)) refl)
    | inr (catalog, e) ↦ rw (e, load_catalog) h
  ]

nothing-IsCoherent : (files : Files) → IsCoherent files []
unfolding lookup
nothing-IsCoherent files = record { at_provider = λ p catalog e. cc (e) }

abbrev is_dict : Value → Bool
is_dict (obj d) = true
is_dict _ = false

-- Where the category, or the region in it, is there and is no dict.
abbrev misshapen_region : Value → Value → Bool
misshapen_region (obj prices) (str region) =
    truthy (get prices region) && not (is_dict (get prices region))
misshapen_region (obj prices) _ = false
misshapen_region _ _ = false

abbrev misshapen_in : Fields → Option (String × String) → Value → Bool
misshapen_in catalog none region = false
misshapen_in catalog (some (category, sku_name)) region =
    truthy (get catalog category)
    && (not (is_dict (get catalog category)) || misshapen_region (get catalog category) region)

abbrev misshapen_at : Value → Option (String × String) → Value → Bool
misshapen_at catalog none region = false
misshapen_at (obj catalog) parts region = misshapen_in catalog parts region
misshapen_at _ parts region = true

abbrev pub misshapen : Value → String → Value → Bool
misshapen catalog sku region = truthy catalog && misshapen_at catalog (split_slash sku) region

-- What a lookup raises, by what reading the catalogue comes to.
abbrev pub raised : Try Value → String → Value → Option Exc
raised (raise e) sku region = if caught e then none else some e
raised (ok catalog) sku region = if misshapen catalog sku region then some attribute_error else none

abbrev pub outcome : Try Decimal → Option Exc
outcome (ok price) = none
outcome (raise e) = some e

module _ (py : Builtins) (files : Files) where
  price_lookup-fst :
      (provider sku : String) (region : Value) (cache : Catalogs)
      → IsCoherent files cache
      → (price_lookup py files provider sku region cache).0
        ≡ zero_if_caught (catalog_of (files provider) >>= λ c. find_price py c sku region)
  unfolding price_lookup
  price_lookup-fst provider sku region cache h = rw (load_catalog-fst files provider cache h)

  -- From a cache that holds what the files hold, a lookup gives the price that it gives from no
  -- cache at all, and leaves such a cache.
  pub price_lookup-cache :
      (provider sku : String) (region : Value) (cache : Catalogs)
      → IsCoherent files cache
      → ((price_lookup py files provider sku region cache).0
          ≡ (price_lookup py files provider sku region []).0)
        × IsCoherent files (price_lookup py files provider sku region cache).1
  unfolding price_lookup
  price_lookup-cache provider sku region cache h = (
    price_lookup-fst provider sku region cache h
        ∙ sym (price_lookup-fst provider sku region [] (nothing-IsCoherent files)),
    load_catalog-IsCoherent files provider cache h,
  )

  price_in-outcome :
      (skus : Fields) (sku_name : String)
      → outcome (zero_if_caught (price_in py skus sku_name)) ≡ none
  unfolding price_in zero_if_caught
  price_in-outcome skus sku_name = ground arith

  in_region-outcome :
      (v : Value) (sku_name : String)
      → outcome (zero_if_caught (in_region py v sku_name))
        ≡ (if truthy v && not (is_dict v) then some attribute_error else none)
  unfolding in_region zero_if_caught
  in_region-outcome (obj d) sku_name = ground (arith, price_in-outcome d sku_name)
  in_region-outcome v sku_name = ground arith

  in_category-outcome :
      (v region : Value) (sku_name : String)
      → outcome (zero_if_caught (in_category py v region sku_name)) ≡ (
          if truthy v && (not (is_dict v) || misshapen_region v region)
          then some attribute_error
          else none)
  unfolding in_category zero_if_caught truthy
  in_category-outcome (obj d) (str s) sku_name =
      ground (arith, in_region-outcome (get d (s)) sku_name)
  in_category-outcome (obj d) region sku_name = ground (arith, in_region-outcome null sku_name)
  in_category-outcome v region sku_name = ground arith

  in_catalog-outcome :
      (catalog : Value) (parts : Option (String × String)) (region : Value)
      → outcome (zero_if_caught (in_catalog py catalog parts region))
        ≡ (if misshapen_at catalog parts region then some attribute_error else none)
  unfolding in_catalog zero_if_caught
  in_catalog-outcome catalog none region = refl
  in_catalog-outcome (obj catalog) (some (category, sku_name)) region =
      in_category-outcome (get catalog category) region sku_name
  in_catalog-outcome catalog (some (category, sku_name)) region = refl

  find_price-outcome :
      (catalog : Value) (sku : String) (region : Value)
      → outcome (zero_if_caught (find_price py catalog sku region))
        ≡ (if misshapen catalog sku region then some attribute_error else none)
  unfolding find_price zero_if_caught
  find_price-outcome catalog sku region =
      ground (arith, in_catalog-outcome catalog (split_slash sku) region)

  loaded-outcome :
      (m : Try Value) (sku : String) (region : Value)
      → outcome (zero_if_caught (m >>= λ c. find_price py c sku region)) ≡ raised m sku region
  unfolding zero_if_caught
  loaded-outcome (raise e) sku region = ground arith
  loaded-outcome (ok catalog) sku region = find_price-outcome catalog sku region

  -- A lookup raises exactly what reading the file of the catalogue raises, other than the exceptions that it
  -- catches (an OSError escapes), and an AttributeError where the catalogue, its category or the region in
  -- it is something other than a dict.
  pub price_lookup-outcome :
      (provider sku : String) (region : Value) (cache : Catalogs)
      → IsCoherent files cache
      → outcome (price_lookup py files provider sku region cache).0
        ≡ raised (catalog_of (files provider)) sku region
  price_lookup-outcome provider sku region cache h =
      rw (price_lookup-fst provider sku region cache h)
        (loaded-outcome (catalog_of (files provider)) sku region)
