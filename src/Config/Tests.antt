-- ===== src/Config/Tests.antt =====
-- The configurations at concrete inputs: a cipher that marks a text, and a pool that rolls back.
use finna_app.Prelude.{
  ◌==◌, if◌then◌else◌, ◌≡◌, refl, String, true, Option, none, some, [], ◌∷◌, codes, lower, is_infix,
}
use finna_app.Python.Value.{str, obj, Fields, end, field, get?}
use finna_app.Python.Dicts.{IsDict, keep_keys, some_key}
use finna_app.Python.Try.{ok}
use finna_app.Database.{Session, connected}
use finna_app.Config.Encryption.{
  decrypt_config, Crypto, Codecs, Keys, is_listed, looks_sensitive, is_sensitive_field,
  get_encryption_key, encrypt_config, sealed, secret,
}
use finna_app.Config.Encryption.Laws.{
  IsFaithful, IsFree, look, encrypt_config-hides, decrypt_config-encrypt_config,
  decrypt_config-wrong_key,
}
use finna_app.Config.Store.{select_config, ConfigRow, Configs}
use finna_app.Config.Routes.{sealed_config, updated, update_config, create_config, new_config}
use finna_app.Config.Cli.{
  cli_reply, cli_configs_update, CliReply, register_azure_service_account, ConfigCreate,
}
use finna_app.Config.Steps.{Steps-AllHidden, stay, then_step, create, azure}
use finna_app.Config.Lost.{read_row, update_config_lost, cli_configs_update_loses_secrets}
use finna_app.Config.Hidden.{AllHidden}
use finna_app.Web.{body, respond, Response}

abbrev seen : String → Option String
seen String.[] = none
seen (String.◌∷◌ c s) = some s

abbrev first_key : Crypto
first_key = record { encrypt = λ s. String.◌∷◌ "e" s; decrypt = seen }

abbrev second_key : Crypto
second_key = record { encrypt = λ s. s; decrypt = λ s. none }

abbrev keys : Keys
keys = record { fernet = λ s. none; derived = λ s. if s == "one" then first_key else second_key }

abbrev secrets : Fields
secrets = field "client_secret" (str "hush") end

abbrev io : Codecs
io = record { dumps = λ d. "text"; loads = λ s. some (obj secrets); b64decode = λ s. none }

abbrev config : Fields
config = field "tenant_id" (str "t") secrets

abbrev stored : Fields
stored = sealed io first_key config

one-key : get_encryption_key keys (some "one") ≡ ok first_key
unfolding get_encryption_key
one-key = refl

two-key : get_encryption_key keys (some "two") ≡ ok second_key
unfolding get_encryption_key
two-key = refl

encrypted : encrypt_config keys (some "one") io (obj config) ≡ ok (obj stored)
unfolding encrypt_config is_sensitive_field is_listed looks_sensitive codes lower is_infix
    get_encryption_key some_key
encrypted = refl

client_secret-sensitive : is_sensitive_field "client_secret" ≡ true
unfolding is_sensitive_field is_listed looks_sensitive codes lower is_infix
client_secret-sensitive = refl

encrypt_config-hides_example : look (obj stored) "client_secret" ≡ none
encrypt_config-hides_example =
    encrypt_config-hides keys (some "one") io config (obj stored) "client_secret" encrypted
      client_secret-sensitive

faithful : IsFaithful io first_key (secret config)
unfolding is_sensitive_field is_listed looks_sensitive codes lower is_infix keep_keys
faithful = record { opens = refl; reads = refl }

free : IsFree config
unfolding get?
free = (refl, refl, refl)

dict : IsDict config
unfolding get?
dict = (refl, (refl, tt))

decrypt_config-encrypt_config_example :
    look (decrypt_config keys (some "one") io (obj stored)) "client_secret"
    ≡ get? config "client_secret"
decrypt_config-encrypt_config_example =
    decrypt_config-encrypt_config keys (some "one") io config (obj stored) first_key "client_secret"
      dict free faithful one-key encrypted

decrypt_config-wrong_key_example :
    look (decrypt_config keys (some "two") io (obj stored)) "client_secret"
    ≡ (if is_sensitive_field "client_secret" then none else get? config "client_secret")
decrypt_config-wrong_key_example =
    decrypt_config-wrong_key keys (some "one") io config (obj stored) first_key (some "two")
      second_key "client_secret" free one-key two-key (λ (text : String). refl) encrypted

abbrev rolls_back : Session Configs → Session Configs
rolls_back c = connected c.committed

abbrev before : Configs
before =
    (register_azure_service_account keys (some "one") io rolls_back "a" "t" "c" (some "hush") none 5
      (connected [])).1.committed

abbrev after : Configs
after =
    (create_config keys (some "one") io rolls_back "b" "azure" "mine" "service_principal" config 6
      (connected before)).1.committed

Steps-AllHidden_example : AllHidden ("a" ∷ []) "client_secret" after
Steps-AllHidden_example =
    Steps-AllHidden rolls_back (λ (c : Session Configs). refl) keys (some "one") io "client_secret"
      client_secret-sensitive ("a" ∷ []) after
      (then_step (then_step stay (azure "a" "t" "c" (some "hush") none 5))
        (create "b" "azure" "mine" "service_principal" config 6))

abbrev row : ConfigRow
row = new_config "b" "azure" "mine" "service_principal" (obj stored) 6

found : select_config "b" (row ∷ []) ≡ some row
unfolding select_config
found = refl

update_config_lost_example :
    update_config keys
      (some "one")
      io
      rolls_back
      "b"
      (some "yours")
      none
      none
      7
      (connected (row ∷ []))
    ≡ (
      respond (read_row keys (some "one") io (updated (some "yours") none none 7 row)),
      connected (row ∷ []),
    )
unfolding sealed_config
update_config_lost_example =
    update_config_lost rolls_back (λ (c : Session Configs). refl) keys (some "one") io "b"
      (some "yours") none none 7 (row ∷ []) row none refl refl found

abbrev request : ConfigCreate
request = record {
  provider = "azure";
  cloud_config = none;
  service_category = none;
  region = some "eu";
}

abbrev updating : Response CliReply × Session Configs
updating = cli_configs_update keys (some "two") io rolls_back "b" request 8 (connected (row ∷ []))

cli_configs_update_loses_secrets_example :
    (updating.0 ≡ body (cli_reply "b" request 8))
    × (q : ConfigRow) × (select_config "b" updating.1.committed ≡ some q)
    × (look (decrypt_config keys (some "one") io q.config) "client_secret" ≡ none)
cli_configs_update_loses_secrets_example =
    cli_configs_update_loses_secrets keys (some "two") io first_key second_key config two-key
      (λ (text : String). refl) rolls_back (λ (c : Session Configs). refl) "b" request 8 (row ∷ [])
      row keys (some "one") "client_secret" found refl client_secret-sensitive
