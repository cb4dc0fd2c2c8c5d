-- ===== src/Config/Encryption.antt =====
-- utils/encryption.py. `Crypto` is Fernet under one key, with the JSON and base64 codecs; `Keys` is what
-- makes a key of the variable ENCRYPTION_KEY. A configuration is a dict with string keys.
pub mod Laws
use finna_app.Prelude.{
  String, Bool, true, false, not, ◌||◌, ◌&&◌, Option, none, some, ◌==◌, if◌then◌else◌, codes, lower,
  is_infix,
}
use finna_app.Python.Value.{
  Value, null, bool, num, str, arr, obj, Items, nil, cons, Fields, end, field, get?, get, truthy,
}
use finna_app.Python.Dicts.{set_field, update, keep_keys, some_key}
use finna_app.Python.Try.{Try, ok, raise, Exc, value_error, ◌>>=◌}

-- `Fernet(key)`: what it encrypts a text to, and the text of a token that is its own.
pub record Crypto : Type 0 where
  pub encrypt : String → String
  pub decrypt : String → Option String

-- `json.dumps` of a dict and `json.loads`; `base64.b64decode(s.encode()).decode()`.
pub record Codecs : Type 0 where
  pub dumps : Fields → String
  pub loads : String → Option Value
  pub b64decode : String → Option String

-- `Fernet(key)` where the key is one, and the key derived by SHA-256.
pub record Keys : Type 0 where
  pub fernet : String → Option Crypto
  pub derived : String → Crypto

-- `_SENSITIVE_FIELDS`
unfoldable pub is_listed : String → Bool
is_listed name =
    name == "client_secret"
    || name == "key_file_base64"
    || name == "key_file_content"
    || name == "aws_secret_access_key"
    || name == "secret_access_key"
    || name == "session_token"
    || name == "external_id"

-- `_SENSITIVE_FIELD_PATTERN.search`, ignoring the case of ASCII letters
unfoldable pub looks_sensitive : String → Bool
looks_sensitive name =
    let text = codes (lower name) in
    is_infix (codes "secret") text
    || is_infix (codes "password") text
    || is_infix (codes "token") text
    || is_infix (codes "key") text

unfoldable pub is_sensitive_field : String → Bool
unfolding is_listed looks_sensitive
is_sensitive_field name = is_listed name || looks_sensitive name

abbrev or_derived : Keys → String → Option Crypto → Crypto
or_derived keys env_key none = keys.derived env_key
or_derived keys env_key (some crypto) = crypto

-- `get_encryption_key`, with the cipher of the key that it returns
unfoldable pub get_encryption_key : Keys → Option String → Try Crypto
get_encryption_key keys none = raise value_error
get_encryption_key keys (some env_key) =
    if env_key == ""
    then raise value_error
    else if env_key == "demo-key-change-in-production"
    then raise value_error
    else ok (or_derived keys env_key (keys.fernet env_key))

-- The names of the fields that `p` holds of, as a list of strings.
unfoldable pub key_names : (String → Bool) → Fields → Items
key_names p end = nil
key_names p (field k v d) = if p k then cons (str k) (key_names p d) else key_names p d

abbrev pub plain : Fields → Fields
plain config = keep_keys (λ k. not (is_sensitive_field k)) config

abbrev pub secret : Fields → Fields
secret config = keep_keys is_sensitive_field config

unfoldable pub sealed : Codecs → Crypto → Fields → Fields
unfolding set_field key_names
sealed io crypto config = set_field "__fields__" (arr (key_names is_sensitive_field config)) (
    set_field "__data__" (str (crypto.encrypt (io.dumps (secret config))))
      (set_field "__enc__" (bool true) (plain config)))

abbrev pub seal : Codecs → Fields → Try Crypto → Try Value
seal io config (raise e) = raise e
seal io config (ok crypto) = ok (obj (sealed io crypto config))

unfoldable pub encrypt_config : Keys → Option String → Codecs → Value → Try Value
unfolding is_sensitive_field
encrypt_config keys env_key io (obj config) =
    if some_key is_sensitive_field config
    then seal io config (get_encryption_key keys env_key)
    else ok (obj config)
encrypt_config keys env_key io v = ok v

-- `k not in ["__enc__", "__data__", "__fields__"]`
unfoldable pub is_own_key : String → Bool
is_own_key k = not (k == "__enc__" || k == "__data__" || k == "__fields__")

-- `result.update(decrypted_fields)`, for what `encrypt_config` seals: JSON that is no object is not merged.
abbrev pub opened : Fields → Option Value → Fields
opened stored (some (obj d)) = update (keep_keys is_own_key stored) d
opened stored _ = keep_keys is_own_key stored

abbrev pub open_text : Codecs → Fields → Option String → Fields
open_text io stored none = keep_keys is_own_key stored
open_text io stored (some text) = opened stored (io.loads text)

abbrev pub open_data : Codecs → Crypto → Fields → Value → Fields
open_data io crypto stored (str token) = open_text io stored (crypto.decrypt token)
open_data io crypto stored _ = keep_keys is_own_key stored

-- The `try` block of `decrypt_config`: whatever fails leaves the fields that are not sealed.
unfoldable pub unseal : Codecs → Try Crypto → Fields → Fields
unfolding update is_own_key
unseal io (raise e) stored = keep_keys is_own_key stored
unseal io (ok crypto) stored = open_data io crypto stored (get stored "__data__")

abbrev pub is_true : Value → Bool
is_true (bool b) = b
is_true _ = false

abbrev or_loads : Codecs → String → Option Value → Value
or_loads io text (some v) = v
or_loads io text none = elim (io.loads text) [ none ↦ obj end | some v ↦ v ]

-- A string is base64 of JSON, or JSON, or nothing.
abbrev from_text : Codecs → String → Option String → Value
from_text io text none = or_loads io text none
from_text io text (some decoded) = or_loads io text (io.loads decoded)

unfoldable pub decrypt_config : Keys → Option String → Codecs → Value → Value
unfolding unseal get_encryption_key
decrypt_config keys env_key io (obj stored) =
    if is_true (get stored "__enc__")
    then obj (unseal io (get_encryption_key keys env_key) stored)
    else obj stored
decrypt_config keys env_key io (str text) = from_text io text (io.b64decode text)
decrypt_config keys env_key io v = if truthy v then v else obj end
