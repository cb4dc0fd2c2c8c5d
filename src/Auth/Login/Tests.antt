-- ===== src/Auth/Login/Tests.antt =====
-- A login at a provider whose discovery succeeds.
use finna_app.Prelude.{true, none, some, List, [], ◌∷◌}
use finna_app.Python.Value.{str, obj, Fields, end, field, Builtins}
use finna_app.Auth.Oidc.Discovery.{Network, response}
use finna_app.Auth.Oidc.Verify.{Jose, invalid_claims}
use finna_app.Auth.Users.{text_id}
use finna_app.Auth.Login.{false, Provider, Server, Urls, Drawn, oidc_login}
use finna_app.Auth.Login.Callback.{Issuer}

abbrev py : Builtins
py = record {
  parse_float = λ s. none;
  parse_int = λ s. none;
  is_negative_int = λ s. false;
  repr = λ v. "?";
  dumps = λ v. "?";
  strptime = λ s t. none;
  sha256 = λ s. s;
}

abbrev urls : Urls
urls = record { urlencode = λ d. "q"; join_words = λ v. some "openid" }

abbrev endpoints : Fields
endpoints =
    field "authorization_endpoint" (str "https://op/a")
      (field "token_endpoint" (str "https://op/t") (field "jwks_uri" (str "https://op/k") end))

abbrev net : Network
net = record {
  get_url = λ now url. (response 200 (some (obj endpoints)), now);
  post_form = λ now url form. (response 500 none, now);
}

abbrev jose : Jose
jose = record { unverified_header = λ t. none; decode = λ t k a. invalid_claims }

abbrev issue : Issuer
issue = record { sign = λ n a t. n; next_id = 1; password_required = true }

abbrev providers : List Provider
providers =
    record {
      id = text_id "p";
      enabled = true;
      kind = "oidc";
      config = obj (field "issuer" (str "https://op") end);
    }
    ∷ []

abbrev server : Server
server = record {
  world = record { now = 0; discovery = []; jwks = [] };
  states = [];
  users = [];
  login_attempts = [];
  callback_attempts = [];
}

abbrev drawn : Drawn
drawn = record { code_verifier = "v"; code_challenge = "c"; state = "s"; nonce = "n" }

abbrev after : Server
after = (oidc_login py urls net providers "1.2.3.4" 0 "p" drawn server).1
