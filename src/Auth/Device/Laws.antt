-- ===== src/Auth/Device/Laws.antt =====
-- A device code is good for one login.
use finna_app.Prelude.{
  ◌||◌, ℕ, ◌*◌, ◌≡◌, String, Bool, true, false, Option, none, some, List, if◌then◌else◌, eq_refl,
  arith,
}
use finna_app.Prelude.Dict.{lookup, erase, lookup-erase}
use finna_app.Python.Value.{Value, Fields}
use finna_app.Python.Try.{Try, ok, raise}
use finna_app.Web.{Response, body, http_error, crash}
use finna_app.Auth.Oidc.{Oidc, StoredDevice, second}
use finna_app.Auth.Oidc.Devices.{Devices, get_and_consume_device_code}
use finna_app.Auth.Oidc.Discovery.{Network, World}
use finna_app.Auth.Oidc.Verify.{Jose}
use finna_app.Auth.RateLimit.{check_rate_limit}
use finna_app.Auth.Login.{Provider, Server, find_provider, config_of}
use finna_app.Auth.Login.Callback.{LoginReply, Issuer}
use finna_app.Auth.Device.{
  pending, expired, denied, provider_error, of_nat, get, num, has, get_or, text_id, seconds_of,
  with_claims, completed, PollReply, DeviceServer,
}
use finna_app.Auth.Device.Poll.{
  word_of, is_word, poll_tokens, poll_claims, verdict, poll_stored, poll_provider, poll_config,
  polled, still_pending, poll_verified, completed_with, oidc_device_callback, poll_at, poll_body,
  poll_error, poll_end,
}

module _ (net : Network) (jose : Jose) (issue : Issuer) (providers : List Provider)
    (device_code : String) where
  abbrev pub Absent : DeviceServer → Type 0
  Absent s = lookup device_code s.devices ≡ none

  -- Where a login is completed, the code is gone.
  abbrev Spent : Response PollReply × DeviceServer → Type 0
  Spent (body (completed r), s) = Absent s
  Spent _ = Unit

  abbrev SpentIn : Oidc (Response PollReply) × DeviceServer → Type 0
  SpentIn (Oidc.ok r, s) = Spent (r, s)
  SpentIn _ = Unit

  poll_end-Spent :
      (d : StoredDevice) (m : Oidc (Response PollReply) × DeviceServer)
      → SpentIn m
      → Spent (poll_end net jose issue providers device_code d m)
  unfolding poll_end
  poll_end-Spent d (Oidc.ok r, s) h = h
  poll_end-Spent d (Oidc.oidc_error e, s) h = tt
  poll_end-Spent d (Oidc.crash e, s) h = tt

  completed_with-SpentIn :
      (m : Oidc (Response LoginReply) × Server) (s : DeviceServer)
      → Absent s
      → SpentIn (completed_with net jose issue providers m s)
  completed_with-SpentIn (Oidc.ok (body r), server) s absent = absent
  completed_with-SpentIn (Oidc.ok (http_error n), server) s absent = tt
  completed_with-SpentIn (Oidc.ok (crash e), server) s absent = tt
  completed_with-SpentIn (Oidc.oidc_error e, server) s absent = tt
  completed_with-SpentIn (Oidc.crash e, server) s absent = tt

  poll_verified-SpentIn :
      (d : StoredDevice) (config : Fields) (m : Oidc Fields × World) (s : DeviceServer)
      → Absent s
      → SpentIn (poll_verified net jose issue providers d config m s)
  poll_verified-SpentIn d config (claims, w) s absent =
      completed_with-SpentIn
        (with_claims net jose issue providers (text_id d.provider_id) config claims
          (record (s.server) { world = w }))
        s absent

  still_pending-SpentIn :
      (d : StoredDevice) (n : Oidc ℕ) (s : DeviceServer)
      → SpentIn (still_pending net jose issue providers device_code d n s)
  still_pending-SpentIn d (Oidc.ok n) s = tt
  still_pending-SpentIn d (Oidc.oidc_error e) s = tt
  still_pending-SpentIn d (Oidc.crash e) s = tt

  if-SpentIn :
      (b : Bool) (m n : Oidc (Response PollReply) × DeviceServer)
      → SpentIn m
      → SpentIn n
      → SpentIn (if b then m else n)
  if-SpentIn true m n h k = h
  if-SpentIn false m n h k = k

  answer-SpentIn :
      (b : Bool) (x y : Oidc (Response PollReply)) (s : DeviceServer)
      → SpentIn (x, s)
      → SpentIn (y, s)
      → SpentIn ((if b then x else y), s)
  answer-SpentIn true x y s h k = h
  answer-SpentIn false x y s h k = k

  verdict-SpentIn : (error : Value) (s : DeviceServer) → SpentIn (verdict error, s)
  unfolding verdict
  verdict-SpentIn error s =
      answer-SpentIn (is_word error "expired_token") (Oidc.ok (body expired)) _ s tt (
        answer-SpentIn (is_word error "access_denied") (Oidc.ok (body denied))
          (Oidc.oidc_error (provider_error (word_of error))) s tt tt)

  poll_error-SpentIn :
      (d : StoredDevice) (error : Value) (tokens : Fields) (s : DeviceServer)
      → SpentIn (poll_error net jose issue providers device_code d error tokens s)
  unfolding poll_error
  poll_error-SpentIn d error tokens s =
      let life_time = seconds_of (get_or tokens "expires_in" (num (of_nat 300))) in
      if-SpentIn (is_word error "authorization_pending" || is_word error "slow_down")
        (still_pending net jose issue providers device_code d life_time s) (verdict error, s)
        (still_pending-SpentIn d life_time s) (verdict-SpentIn error s)

  polled-SpentIn :
      (d : StoredDevice) (config : Fields) (m : Oidc (Fields × Fields)) (s : DeviceServer)
      → Absent s
      → SpentIn (polled net jose issue providers device_code d config m s)
  polled-SpentIn d config (Oidc.oidc_error e) s absent = tt
  polled-SpentIn d config (Oidc.crash e) s absent = tt
  polled-SpentIn d config (Oidc.ok (metadata, tokens)) s absent =
      let claims =
        poll_claims net jose issue providers metadata tokens d.client_id s.server.world in
      if-SpentIn (has tokens "error")
        (poll_error net jose issue providers device_code d (get tokens "error") tokens s)
        (poll_verified net jose issue providers d config claims s)
        (poll_error-SpentIn d (get tokens "error") tokens s)
        (poll_verified-SpentIn d config claims s absent)

  poll_body-SpentIn :
      (d : StoredDevice) (config : Fields) (s : DeviceServer)
      → Absent s
      → SpentIn (poll_body net jose issue providers device_code d config s)
  unfolding poll_body
  poll_body-SpentIn d config s absent =
      let (tokens, w) = poll_tokens net jose issue providers config d device_code s.server.world in
      polled-SpentIn d config tokens (record s { server = record (s.server) { world = w } }) absent

  poll_config-Spent :
      (d : StoredDevice) (config : Try Fields) (s : DeviceServer)
      → Absent s
      → Spent (poll_config net jose issue providers device_code d config s)
  poll_config-Spent d (raise e) s absent = tt
  poll_config-Spent d (ok config) s absent =
      poll_end-Spent d (poll_body net jose issue providers device_code d config s)
        (poll_body-SpentIn d config s absent)

  poll_provider-Spent :
      (d : StoredDevice) (p : Option Provider) (s : DeviceServer)
      → Absent s
      → Spent (poll_provider net jose issue providers device_code d p s)
  poll_provider-Spent d none s absent = tt
  poll_provider-Spent d (some p) s absent = poll_config-Spent d (config_of p.config) s absent

  poll_stored-Spent :
      (d : Option StoredDevice) (s : DeviceServer)
      → Absent s
      → Spent (poll_stored net jose issue providers device_code d s)
  poll_stored-Spent none s absent = tt
  poll_stored-Spent (some d) s absent =
      poll_provider-Spent d (find_provider d.provider_id providers) s absent

  erased : (devices : Devices) → lookup device_code (erase device_code devices) ≡ none
  erased devices = ground (arith, lookup-erase device_code device_code devices, eq_refl device_code)

  poll_at-Spent : (s : DeviceServer) → Spent (poll_at net jose issue providers device_code s)
  unfolding poll_at get_and_consume_device_code
  poll_at-Spent s =
      poll_stored-Spent (get_and_consume_device_code s.server.world.now device_code s.devices).0
        (record s { devices = erase device_code s.devices }) (erased s.devices)

  spent :
      (limited : Bool) (s : DeviceServer) (m : Response PollReply × DeviceServer)
      (reply : LoginReply)
      → Spent m
      → (if limited then (http_error 429, s) else m).0 ≡ body (completed reply)
      → Absent (if limited then (http_error 429, s) else m).1
  spent true s m reply h answered = cc
  spent false s (body (completed r), t) reply h answered = h
  spent false s (body pending, t) reply h answered = cc
  spent false s (body expired, t) reply h answered = cc
  spent false s (body denied, t) reply h answered = cc
  spent false s (http_error n, t) reply h answered = cc
  spent false s (crash e, t) reply h answered = cc

  -- A poll that is answered with a token leaves its device code out of the store: no later poll finds
  -- it, unless it is stored again.
  pub oidc_device_callback-spends :
      (ip : String) (clock : ℕ) (s : DeviceServer) (reply : LoginReply)
      → (oidc_device_callback net jose issue providers ip clock device_code s).0
        ≡ body (completed reply)
      → lookup device_code
          (oidc_device_callback net jose issue providers ip clock device_code s).1.devices
        ≡ none
  unfolding oidc_device_callback
  oidc_device_callback-spends ip clock s reply answered =
      let (limited, attempts) = check_rate_limit ip s.poll_attempts 30 (60 * second) clock in
      let counted = record s { poll_attempts = attempts } in
      spent limited counted (poll_at net jose issue providers device_code counted) reply
        (poll_at-Spent counted) answered
