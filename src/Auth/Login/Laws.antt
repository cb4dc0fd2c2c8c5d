-- ===== src/Auth/Login/Laws.antt =====
-- The login and the callback together: what the one stores and the other expects.
use finna_app.Prelude.{◌≡◌, String, Option, none, some, List}
use finna_app.Prelude.Dict.{erase}
use finna_app.Python.Value.{Fields, Builtins}
use finna_app.Python.Try.{Try, ok}
use finna_app.Auth.Oidc.{Oidc}
use finna_app.Auth.Oidc.States.{States, store_state}
use finna_app.Auth.Oidc.Discovery.{Network}
use finna_app.Auth.Oidc.Verify.{Jose}
use finna_app.Auth.Users.{text_id}
use finna_app.Auth.Login.{Provider, Server, Urls, Drawn, config_of}
use finna_app.Auth.Login.Callback.{claims_of_code, with_code, Issuer, callback_body}

module _ (py : Builtins) (urls : Urls) (net : Network) (providers : List Provider)
    (drawn : Drawn) where
  -- The server holds the state of a login that was drawn for the provider, beside those it held before.
  abbrev Holds : String → States → Server → Type 0
  Holds t before after =
      after.states
      ≡ store_state after.world.now drawn.state t drawn.nonce drawn.code_verifier before

  -- What an answered login was: of a provider with a text for its id.
  abbrev Pending : Option Provider → States → Server → Type 0
  Pending none before after = ⊥
  Pending (some p) before after =
      (t : String) × (config : Fields) × (p.id ≡ text_id t)
      × (config_of p.config ≡ ok config)
      × Holds t before after

  module _ (jose : Jose) (issue : Issuer) where
    -- The callback that goes on to the exchange of the code, with the verifier and the nonce of the login.
    abbrev pub Resumes : String → Provider → Fields → Server → Type 0
    Resumes authorization_code p config s =
        callback_body net jose issue providers p.id config authorization_code drawn.state s
        ≡ with_code net jose issue providers p.id config
            (claims_of_code net jose issue providers config authorization_code drawn.code_verifier
              drawn.nonce s.world)
            (record s { states = erase drawn.state s.states })
