-- ===== src/Auth/Device/Poll.antt =====
-- backend/app/api/routes/oidc_device_auth.py: the handler that a device polls.
use finna_app.Prelude.{
  ℕ, ◌*◌, String, Bool, false, ◌||◌, Option, none, some, List, ◌==◌, if◌then◌else◌,
}
use finna_app.Python.Decimal.{of_nat}
use finna_app.Python.Value.{Value, num, str, Fields, get, get_or}
use finna_app.Python.Try.{Try, ok, raise}
use finna_app.Web.{Response, body, http_error, crash}
use finna_app.Auth.Oidc.{Oidc, provider_error, second, StoredDevice}
use finna_app.Auth.Oidc.Devices.{store_device_code, get_and_consume_device_code}
use finna_app.Auth.Oidc.Discovery.{Network, World, Action, ◌>>=◌, lift, discover_provider}
use finna_app.Auth.Oidc.Verify.{Jose, verify_id_token_no_nonce}
use finna_app.Auth.RateLimit.{check_rate_limit}
use finna_app.Auth.Users.{text_id}
use finna_app.Auth.Login.{Provider, Server, find_provider, setting, config_of}
use finna_app.Auth.Login.Callback.{LoginReply, Issuer, with_claims, token_of}
use finna_app.Auth.Device.{
  has, exchange_device_code, DeviceServer, seconds_of, PollReply, pending, expired, denied,
  completed,
}

abbrev pub is_word : Value → String → Bool
is_word (str s) t = s == t
is_word _ t = false

abbrev pub word_of : Value → String
word_of (str s) = s
word_of _ = ""

-- An error that ends the polling.
unfoldable pub verdict : Value → Oidc (Response PollReply)
verdict error =
    if is_word error "expired_token"
    then Oidc.ok (body expired)
    else if is_word error "access_denied"
    then Oidc.ok (body denied)
    else Oidc.oidc_error (provider_error (word_of error))

module _ (net : Network) (jose : Jose) (issue : Issuer) (providers : List Provider) where
  -- The tokens of a poll, with the metadata that the verification needs.
  unfoldable pub poll_tokens : Fields → StoredDevice → String → Action (Fields × Fields)
  unfolding setting discover_provider exchange_device_code
  poll_tokens config d device_code = do
    issuer ← lift (setting config "issuer")
    metadata ← discover_provider net issuer
    tokens ← exchange_device_code net metadata d.client_id d.client_secret device_code
    lift (Oidc.ok (metadata, tokens))

  -- `oidc.store_device_code` with a life time of so many seconds from now on
  unfoldable pub store_again : String → StoredDevice → ℕ → DeviceServer → DeviceServer
  store_again device_code d expires_in s = record s {
    devices =
        store_device_code s.server.world.now device_code d.provider_id d.client_id d.client_secret
          d.interval (expires_in * second) s.devices;
  }

  abbrev pub PollOutcome : Type 0
  PollOutcome = Oidc (Response PollReply) × DeviceServer

  abbrev pub still_pending : String → StoredDevice → Oidc ℕ → DeviceServer → PollOutcome
  still_pending device_code d (Oidc.ok expires_in) s =
      (Oidc.ok (body pending), store_again device_code d expires_in s)
  still_pending device_code d (Oidc.oidc_error e) s = (Oidc.oidc_error e, s)
  still_pending device_code d (Oidc.crash e) s = (Oidc.crash e, s)

  -- A reply with an error of the provider.
  unfoldable pub poll_error : String → StoredDevice → Value → Fields → DeviceServer → PollOutcome
  unfolding store_again verdict
  poll_error device_code d error tokens s =
      if is_word error "authorization_pending" || is_word error "slow_down"
      then still_pending device_code d (seconds_of (get_or tokens "expires_in" (num (of_nat 300))))
          s
      else (verdict error, s)

  unfoldable pub poll_claims : Fields → Fields → String → Action Fields
  unfolding token_of verify_id_token_no_nonce
  poll_claims metadata tokens client_id = do
    id_token ← lift (token_of net jose issue providers (get_or tokens "id_token" (str "")))
    verify_id_token_no_nonce net jose id_token metadata client_id

  abbrev pub as_completed : Response LoginReply → Response PollReply
  as_completed (body r) = body (completed r)
  as_completed (http_error n) = http_error n
  as_completed (crash e) = crash e

  abbrev pub completed_with : Oidc (Response LoginReply) × Server → DeviceServer → PollOutcome
  completed_with (Oidc.ok r, server) s = (Oidc.ok (as_completed r), record s { server = server })
  completed_with (Oidc.oidc_error e, server) s = (Oidc.oidc_error e, record s { server = server })
  completed_with (Oidc.crash e, server) s = (Oidc.crash e, record s { server = server })

  abbrev pub poll_verified :
      StoredDevice → Fields → Oidc Fields × World → DeviceServer → PollOutcome
  poll_verified d config (claims, w) s =
      completed_with
        (with_claims net jose issue providers (text_id d.provider_id) config claims
          (record (s.server) { world = w }))
        s

  abbrev pub polled :
      String → StoredDevice → Fields → Oidc (Fields × Fields) → DeviceServer → PollOutcome
  polled device_code d config (Oidc.oidc_error e) s = (Oidc.oidc_error e, s)
  polled device_code d config (Oidc.crash e) s = (Oidc.crash e, s)
  polled device_code d config (Oidc.ok (metadata, tokens)) s =
      if has tokens "error"
      then poll_error device_code d (get tokens "error") tokens s
      else poll_verified d config (poll_claims metadata tokens d.client_id s.server.world) s

  -- The `try` block of `oidc_device_callback`.
  unfoldable pub poll_body : String → StoredDevice → Fields → DeviceServer → PollOutcome
  unfolding poll_tokens poll_error poll_claims
  poll_body device_code d config s =
      let (tokens, w) = poll_tokens config d device_code s.server.world in
      polled device_code d config tokens (record s { server = record (s.server) { world = w } })

  -- The `except` clauses: an `OIDCError` stores the code again.
  unfoldable pub poll_end : String → StoredDevice → PollOutcome → Response PollReply × DeviceServer
  unfolding store_again
  poll_end device_code d (Oidc.ok r, s) = (r, s)
  poll_end device_code d (Oidc.oidc_error e, s) = (http_error 400, store_again device_code d 300 s)
  poll_end device_code d (Oidc.crash e, s) = (http_error 500, s)

  abbrev pub poll_config :
      String → StoredDevice → Try Fields → DeviceServer → Response PollReply × DeviceServer
  poll_config device_code d (raise e) s = (crash e, s)
  poll_config device_code d (ok config) s =
      poll_end device_code d (poll_body device_code d config s)

  abbrev pub poll_provider :
      String → StoredDevice → Option Provider → DeviceServer → Response PollReply × DeviceServer
  poll_provider device_code d none s = (http_error 404, s)
  poll_provider device_code d (some p) s = poll_config device_code d (config_of p.config) s

  abbrev pub poll_stored :
      String → Option StoredDevice → DeviceServer → Response PollReply × DeviceServer
  poll_stored device_code none s = (http_error 404, s)
  poll_stored device_code (some d) s =
      poll_provider device_code d (find_provider d.provider_id providers) s

  unfoldable pub poll_at : String → DeviceServer → Response PollReply × DeviceServer
  unfolding get_and_consume_device_code poll_body poll_end find_provider
  poll_at device_code s =
      let (stored, devices) =
        get_and_consume_device_code s.server.world.now device_code s.devices in
      poll_stored device_code stored (record s { devices = devices })

  -- `oidc_device_callback`
  unfoldable pub oidc_device_callback :
      String → ℕ → String → DeviceServer → Response PollReply × DeviceServer
  unfolding poll_at check_rate_limit
  oidc_device_callback ip clock device_code s =
      let (limited, attempts) = check_rate_limit ip s.poll_attempts 30 (60 * second) clock in
      let counted = record s { poll_attempts = attempts } in
      if limited then (http_error 429, counted) else poll_at device_code counted
