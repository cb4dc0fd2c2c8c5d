-- ===== src/Auth/Oidc/Discovery/Laws.antt =====
-- What the caches of discovery and of keys give back.
use finna_app.Prelude.{ℕ, ◌+◌, ◌<◌, ◌≡◌, String, true, Option, some, [], ◌∷◌, arith, eq_refl, ◌++ₛ◌}
use finna_app.Prelude.Dict.{Dict, lookup, lookup-insert}
use finna_app.Python.Value.{Value, null, bool, num, str, arr, obj, Fields}
use finna_app.Auth.Oidc.{Oidc, ok, oidc_error, crash, discovery_failed, discovery_cache_ttl}
use finna_app.Auth.Oidc.Discovery.{
  Network, World, Action, continue, ◌>>=◌, lift, has_endpoints, require_endpoints,
  remember_metadata, fetch_metadata, discover_provider, fresh_or, rstrip_slash, as_dict, get_json,
}

-- Every metadata in the cache has the endpoints.
abbrev pub Complete : Dict (Fields × ℕ) → Type 0
Complete [] = Unit
Complete ((k, (m, t)) ∷ d) = (has_endpoints m ≡ true) × Complete d

-- What a call that returns leaves: a complete cache, and a complete metadata.
abbrev pub ReturnsComplete : Oidc Fields × World → Type 0
ReturnsComplete (ok metadata, w) = (has_endpoints metadata ≡ true) × Complete w.discovery
ReturnsComplete (oidc_error e, w) = Complete w.discovery
ReturnsComplete (crash e, w) = Complete w.discovery

remember_checked : String → Fields → Action Fields
remember_checked issuer metadata = lift (require_endpoints metadata) >>= remember_metadata issuer

remember_body : String → Value → Action Fields
remember_body issuer body = lift (as_dict body) >>= remember_checked issuer

-- What a call that returns has remembered.
abbrev pub Remembers : String → Oidc Fields × World → Type 0
Remembers issuer (ok metadata, w) = lookup issuer w.discovery ≡ some (metadata, w.now)
Remembers issuer (oidc_error e, w) = Unit
Remembers issuer (crash e, w) = Unit

remember_checked-Remembers :
    (issuer : String) (metadata : Fields) (w : World)
    → Remembers issuer (remember_checked issuer metadata w)
unfolding remember_checked require_endpoints remember_metadata
remember_checked-Remembers issuer metadata w =
    ground (arith, lookup-insert issuer issuer (metadata, w.now) w.discovery, eq_refl issuer)

remember_body-Remembers :
    (issuer : String) (r : Oidc Value) (w : World)
    → Remembers issuer (continue r (remember_body issuer) w)
unfolding remember_body as_dict
remember_body-Remembers issuer (ok (obj d)) w = remember_checked-Remembers issuer d w
remember_body-Remembers issuer (ok null) w = tt
remember_body-Remembers issuer (ok (bool b)) w = tt
remember_body-Remembers issuer (ok (num n)) w = tt
remember_body-Remembers issuer (ok (str s)) w = tt
remember_body-Remembers issuer (ok (arr vs)) w = tt
remember_body-Remembers issuer (oidc_error e) w = tt
remember_body-Remembers issuer (crash e) w = tt

fetch_metadata-Remembers :
    (net : Network) (issuer : String) (w : World) → Remembers issuer (fetch_metadata net issuer w)
unfolding fetch_metadata get_json remember_body remember_checked
fetch_metadata-Remembers net issuer w =
    let fetched =
      get_json net discovery_failed (issuer ++ₛ "/.well-known/openid-configuration") w in
    remember_body-Remembers issuer fetched.0 fetched.1

remembered :
    (issuer : String) (r : Oidc Fields) (w : World) {metadata : Fields}
    → Remembers issuer (r, w)
    → r ≡ ok metadata
    → lookup issuer w.discovery ≡ some (metadata, w.now)
remembered issuer r w m h = ground arith

fresh_or-fresh :
    (o : Option (Fields × ℕ)) (fetch : Action Fields) (w : World) (metadata : Fields) (t : ℕ)
    → o ≡ some (metadata, t)
    → w.now < t + discovery_cache_ttl
    → fresh_or discovery_cache_ttl o fetch w ≡ (ok metadata, w)
fresh_or-fresh o fetch w metadata t e l = ground arith

-- Within the hour after a fetch that returned, the same issuer is answered from the cache, with the
-- same metadata and without the network, whatever is done to the clock.
pub discover_provider-fresh :
    (net net' : Network) (issuer : String) (w : World) (metadata : Fields) (later : ℕ)
    → (fetch_metadata net (rstrip_slash issuer) w).0 ≡ ok metadata
    → later < (fetch_metadata net (rstrip_slash issuer) w).1.now + discovery_cache_ttl
    → discover_provider net' issuer
        (record (fetch_metadata net (rstrip_slash issuer) w).1 { now = later })
      ≡ (ok metadata, record (fetch_metadata net (rstrip_slash issuer) w).1 { now = later })
unfolding discover_provider
discover_provider-fresh net net' issuer w metadata later h l =
    let (result, after) = fetch_metadata net (rstrip_slash issuer) w in
    fresh_or-fresh (lookup (rstrip_slash issuer) after.discovery)
      (fetch_metadata net' (rstrip_slash issuer)) (record after { now = later }) metadata after.now
      (remembered (rstrip_slash issuer) result after
        (fetch_metadata-Remembers net (rstrip_slash issuer) w) h)
      l
