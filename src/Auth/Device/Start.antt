-- ===== src/Auth/Device/Start.antt =====
-- backend/app/api/routes/oidc_device_auth.py: the handler that starts a login by a device.
use finna_app.Prelude.{ℕ, ◌*◌, String, Option, none, some, List, ◌==◌, if◌then◌else◌}
use finna_app.Python.Decimal.{of_nat}
use finna_app.Python.Value.{num, Fields, get, get_or}
use finna_app.Python.Try.{Try, ok, raise, attribute_error}
use finna_app.Web.{Response, body, http_error, crash}
use finna_app.Auth.Oidc.{Oidc, second}
use finna_app.Auth.Oidc.Devices.{store_device_code}
use finna_app.Auth.Oidc.Discovery.{Network, World, Action, ◌>>=◌, lift, discover_provider}
use finna_app.Auth.RateLimit.{check_rate_limit}
use finna_app.Auth.Users.{RowId, id_text}
use finna_app.Auth.Login.{Provider, find_provider, setting, Urls, default_scopes, config_of}
use finna_app.Auth.Device.{request_device_code, DeviceServer, StartReply, seconds_of, text_of}

module _ (urls : Urls) (net : Network) (providers : List Provider) where
  -- The request of `oidc_device_start` and what it reads of the reply.
  unfoldable pub start_data : Fields → String → Action StartReply
  unfolding setting discover_provider request_device_code text_of
  start_data config client_id = do
    issuer ← lift (setting config "issuer")
    metadata ← discover_provider net issuer
    reply ← request_device_code urls net metadata client_id (get_or config "scopes" default_scopes)
    device_code ← lift (text_of (get reply "device_code"))
    expires_in ← lift (seconds_of (get_or reply "expires_in" (num (of_nat 600))))
    interval ← lift (seconds_of (get_or reply "interval" (num (of_nat 5))))
    lift (
        Oidc.ok (record {
          device_code = device_code;
          user_code = get reply "user_code";
          verification_uri = get reply "verification_uri";
          verification_uri_complete = get reply "verification_uri_complete";
          expires_in = expires_in;
          interval = interval;
        }))

  abbrev pub at_world : DeviceServer → World → DeviceServer
  at_world s w = record s { server = record (s.server) { world = w } }

  abbrev pub started :
      RowId
      → String
      → String
      → Oidc StartReply × World
      → DeviceServer
      → Response StartReply × DeviceServer
  started id client_id client_secret (Oidc.ok r, w) s = (
    body r,
    record (at_world s w) {
      devices =
          store_device_code w.now r.device_code (id_text id) client_id client_secret r.interval
            (r.expires_in * second) s.devices;
    },
  )
  started id client_id client_secret (Oidc.oidc_error e, w) s = (http_error 400, at_world s w)
  started id client_id client_secret (Oidc.crash e, w) s = (http_error 500, at_world s w)

  -- Outside the `try` block an exception is the framework's.
  abbrev pub start_with :
      RowId → Fields → Oidc String → Oidc String → DeviceServer → Response StartReply × DeviceServer
  start_with id config (Oidc.ok client_id) (Oidc.ok client_secret) s =
      if client_id == ""
      then (http_error 400, s)
      else started id client_id client_secret (start_data config client_id s.server.world) s
  start_with id config _ _ s = (crash attribute_error, s)

  abbrev pub start_config : RowId → Try Fields → DeviceServer → Response StartReply × DeviceServer
  start_config id (raise e) s = (crash e, s)
  start_config id (ok config) s =
      start_with id config (setting config "client_id") (setting config "client_secret") s

  abbrev pub start_at : Option Provider → DeviceServer → Response StartReply × DeviceServer
  start_at none s = (http_error 404, s)
  start_at (some p) s = start_config p.id (config_of p.config) s

  -- `oidc_device_start`
  unfoldable pub oidc_device_start :
      String → ℕ → String → DeviceServer → Response StartReply × DeviceServer
  unfolding start_data store_device_code find_provider check_rate_limit setting
  oidc_device_start ip clock provider_id s =
      let (limited, attempts) = check_rate_limit ip s.start_attempts 5 (60 * second) clock in
      let counted = record s { start_attempts = attempts } in
      if limited
      then (http_error 429, counted)
      else start_at (find_provider provider_id providers) counted
