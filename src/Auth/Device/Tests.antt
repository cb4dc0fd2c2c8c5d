-- ===== src/Auth/Device/Tests.antt =====
-- A poll that completes the login of a user who is known.
use finna_app.Prelude.{◌≡◌, refl, true, false, none, some, List, [], ◌∷◌}
use finna_app.Prelude.Dict.{lookup, insert}
use finna_app.Python.Decimal.{of_nat}
use finna_app.Python.Value.{truthy, num, str, arr, obj, nil, cons, Fields, end, field, get?, get_or}
use finna_app.Web.{body}
use finna_app.Auth.Oidc.{StoredDevice}
use finna_app.Auth.Oidc.Discovery.{
  fetch_jwks, get_jwks, has_endpoints, fetch_metadata, Network, response,
}
use finna_app.Auth.Oidc.Verify.{
  check_iat, check_exp, check_claims, find_key, decode_with_keys, Jose, claims_of,
}
use finna_app.Auth.Users.{find_user, subject_param, User, text_id}
use finna_app.Auth.Login.{Provider}
use finna_app.Auth.Login.Callback.{LoginReply, Issuer, with_user}
use finna_app.Auth.Device.{DeviceServer, completed}
use finna_app.Auth.Device.Poll.{oidc_device_callback}
use finna_app.Auth.Device.Laws.{oidc_device_callback-spends}
use finna_app.Auth.RateLimit.{admit}
use finna_app.Auth.Claims.{judge_mapped, judge_claims}

abbrev rsa_key : Fields
rsa_key = field "kid" (str "k1") (field "alg" (str "RS256") end)

abbrev published : Fields
published = field "keys" (arr (cons (obj rsa_key) nil)) (
    field "issuer" (str "https://i") (
      field "authorization_endpoint" (str "https://i/a")
        (field "token_endpoint" (str "https://i/t") (field "jwks_uri" (str "https://i/k") end))))

abbrev net : Network
net = record {
  get_url = λ now url. (response 200 (some (obj published)), now);
  post_form = λ now url form. (response 200 (some (obj (field "id_token" (str "token") end))), now);
}

abbrev claims : Fields
claims = field "iss" (str "https://i") (
    field "aud" (str "finna") (
      field "exp" (num (of_nat 100)) (
        field "preferred_username" (str "ada")
          (field "email" (str "ada@lab.org") (field "sub" (str "u1") end)))))

abbrev jose : Jose
jose = record {
  unverified_header = λ token. some rsa_key;
  decode = λ token key alg. claims_of claims;
}

abbrev issue : Issuer
issue = record { sign = λ n a t. n; next_id = 8; password_required = true }

abbrev providers : List Provider
providers =
    record {
      id = text_id "p";
      enabled = true;
      kind = "oidc";
      config = obj (field "issuer" (str "https://i") end);
    }
    ∷ []

abbrev ada : User
ada = record {
  id = 7;
  username = "ada";
  email = "ada@lab.org";
  is_active = false;
  is_admin = true;
  provider_id = some "p";
  subject = some "u1";
}

abbrev code : StoredDevice
code = record {
  provider_id = "p";
  client_id = "finna";
  client_secret = "";
  interval = 5;
  expires_at = 90;
}

abbrev server : DeviceServer
server = record {
  server = record {
    world = record { now = 5; discovery = []; jwks = [] };
    states = [];
    users = ada ∷ [];
    login_attempts = [];
    callback_attempts = [];
  };
  devices = ("dc", code) ∷ [];
  start_attempts = [];
  poll_attempts = [];
}

abbrev reply : LoginReply
reply = record { token = "ada"; user_id = 7; username = "ada" }

completes :
    (oidc_device_callback net jose issue providers "1.2.3.4" 0 "dc" server).0
    ≡ body (completed reply)
unfolding oidc_device_callback admit lookup get_or fetch_metadata has_endpoints truthy get_jwks
    insert fetch_jwks decode_with_keys find_key check_claims check_exp check_iat judge_claims
    judge_mapped subject_param find_user get? with_user
completes = refl

oidc_device_callback-spends_example :
    lookup "dc" (oidc_device_callback net jose issue providers "1.2.3.4" 0 "dc" server).1.devices
    ≡ none
oidc_device_callback-spends_example =
    oidc_device_callback-spends net jose issue providers "dc" "1.2.3.4" 0 server reply completes
