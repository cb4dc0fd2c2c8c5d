-- ===== src/Config/Encryption/Laws.antt =====
-- Nothing sensitive is stored in the clear, and what is stored comes back.
use finna_app.Prelude.{
  ◌≡◌, refl, ◌∙◌, codes, lower, is_infix, Option-cases, ◌⊎◌, ap, String, true, false, not, Option,
  none, some, arith, ◌==◌, eq_iff, if◌then◌else◌, Bool-cases, inl, inr,
}
use finna_app.Python.Value.{Value, null, bool, str, arr, obj, Fields, get?, get, get_or, or_default}
use finna_app.Python.Dicts.{
  set_field, update, keep_keys, some_key, IsDict, get?-set_field, get?-keep_keys, get?-update,
  keep_keys-IsDict, some_key-get?,
}
use finna_app.Python.Try.{Try, ok, raise}
use finna_app.Config.Encryption.{
  Crypto, Codecs, Keys, is_sensitive_field, is_listed, looks_sensitive, get_encryption_key,
  key_names, plain, secret, sealed, seal, encrypt_config, is_own_key, unseal, opened, open_text,
  open_data, is_true, decrypt_config,
}

-- What the cipher and the codec promise of a dict: the token opens to the text of the dict, and that
-- reads as the dict.
pub record IsFaithful (io : Codecs) (crypto : Crypto) (d : Fields) : Type 0 where
  pub opens : crypto.decrypt (crypto.encrypt (io.dumps d)) ≡ some (io.dumps d)
  pub reads : io.loads (io.dumps d) ≡ some (obj d)

-- No key of the program's own stands in the configuration.
abbrev pub IsFree : Fields → Type 0
IsFree config =
    (get? config "__enc__" ≡ none)
    × (get? config "__data__" ≡ none)
    × (get? config "__fields__" ≡ none)

get?-sealed :
    (io : Codecs) (crypto : Crypto) (config : Fields) (k : String)
    → is_own_key k ≡ true
    → get? (sealed io crypto config) k ≡ (if is_sensitive_field k then none else get? config k)
unfolding sealed is_own_key
get?-sealed io crypto config k h = ground (
  arith,
  eq_iff "__enc__" k,
  eq_iff "__data__" k,
  eq_iff "__fields__" k,
  get?-set_field "__fields__" k (arr (key_names is_sensitive_field config)) (
      set_field "__data__" (str (crypto.encrypt (io.dumps (secret config))))
        (set_field "__enc__" (bool true) (plain config))),
  get?-set_field "__data__" k (str (crypto.encrypt (io.dumps (secret config))))
      (set_field "__enc__" (bool true) (plain config)),
  get?-set_field "__enc__" k (bool true) (plain config),
  get?-keep_keys (λ (j : String). not (is_sensitive_field j)) k config,
)

pub sensitive-differs :
    (j k : String) → is_sensitive_field j ≡ false → is_sensitive_field k ≡ true → (k == j) ≡ false
sensitive-differs j k p q = elim (Bool-cases (k == j)) [
  | inl h ↦ cc (ap is_sensitive_field ((eq_iff k j).0 h))
  | inr h ↦ h
]

enc-clear : is_sensitive_field "__enc__" ≡ false
unfolding is_sensitive_field is_listed looks_sensitive codes lower is_infix
enc-clear = refl

data-clear : is_sensitive_field "__data__" ≡ false
unfolding is_sensitive_field is_listed looks_sensitive codes lower is_infix
data-clear = refl

fields-clear : is_sensitive_field "__fields__" ≡ false
unfolding is_sensitive_field is_listed looks_sensitive codes lower is_infix
fields-clear = refl

-- The keys that the program adds are not sensitive themselves.
pub sensitive-is_own_key : (k : String) → is_sensitive_field k ≡ true → is_own_key k ≡ true
unfolding is_own_key
sensitive-is_own_key k h = ground (
  arith,
  sensitive-differs "__enc__" k enc-clear h,
  sensitive-differs "__data__" k data-clear h,
  sensitive-differs "__fields__" k fields-clear h,
)

-- `v.get(k)` where the value is a dict.
abbrev pub look : Value → String → Option Value
look (obj d) k = get? d k
look _ k = none

sealed-hides :
    (io : Codecs) (crypto : Crypto) (config : Fields) (k : String)
    → is_sensitive_field k ≡ true
    → get? (sealed io crypto config) k ≡ none
sealed-hides io crypto config k sensitive =
    ground (arith, get?-sealed io crypto config k (sensitive-is_own_key k sensitive))

seal-hides :
    (io : Codecs) (key : Try Crypto) (config : Fields) (stored : Value) (k : String)
    → seal io config key ≡ ok stored
    → is_sensitive_field k ≡ true
    → look stored k ≡ none
seal-hides io (raise e) config stored k returned sensitive = cc
seal-hides io (ok crypto) config (obj d) k returned sensitive =
    ground (arith, sealed-hides io crypto config k sensitive)
seal-hides io (ok crypto) config _ k returned sensitive = cc

plain-hides :
    (config : Fields) (stored : Value) (k : String)
    → some_key is_sensitive_field config ≡ false
    → ok (obj config) ≡ ok stored
    → is_sensitive_field k ≡ true
    → look stored k ≡ none
plain-hides config (obj d) k untouched returned sensitive =
    ground (arith, some_key-get? is_sensitive_field config k)
plain-hides config _ k untouched returned sensitive = cc

-- Whatever `encrypt_config` returns for a dict holds no sensitive field in the clear: none of them
-- can be looked up in it.
pub encrypt_config-hides :
    (keys : Keys) (env_key : Option String) (io : Codecs) (config : Fields) (stored : Value)
    (k : String)
    → encrypt_config keys env_key io (obj config) ≡ ok stored
    → is_sensitive_field k ≡ true
    → look stored k ≡ none
unfolding encrypt_config
encrypt_config-hides keys env_key io config stored k returned sensitive =
    elim (Bool-cases (some_key is_sensitive_field config)) [
      | inl h ↦ ground (
        arith,
        plain-hides config stored k,
        seal-hides io (get_encryption_key keys env_key) config stored k,
      )
      | inr h ↦ ground (
        arith,
        plain-hides config stored k,
        seal-hides io (get_encryption_key keys env_key) config stored k,
      )
    ]

sealed-token :
    (io : Codecs) (crypto : Crypto) (config : Fields)
    → get (sealed io crypto config) "__data__" ≡ str (crypto.encrypt (io.dumps (secret config)))
unfolding sealed get_or
sealed-token io crypto config = ground (
  arith,
  get?-set_field "__fields__" "__data__" (arr (key_names is_sensitive_field config)) (
      set_field "__data__" (str (crypto.encrypt (io.dumps (secret config))))
        (set_field "__enc__" (bool true) (plain config))),
  get?-set_field "__data__" "__data__" (str (crypto.encrypt (io.dumps (secret config))))
      (set_field "__enc__" (bool true) (plain config)),
)

pub sealed-mark :
    (io : Codecs) (crypto : Crypto) (config : Fields)
    → get (sealed io crypto config) "__enc__" ≡ bool true
unfolding sealed get_or
sealed-mark io crypto config = ground (
  arith,
  get?-set_field "__fields__" "__enc__" (arr (key_names is_sensitive_field config)) (
      set_field "__data__" (str (crypto.encrypt (io.dumps (secret config))))
        (set_field "__enc__" (bool true) (plain config))),
  get?-set_field "__data__" "__enc__" (str (crypto.encrypt (io.dumps (secret config))))
      (set_field "__enc__" (bool true) (plain config)),
  get?-set_field "__enc__" "__enc__" (bool true) (plain config),
)

-- Reading a dict that is not marked, or one that `encrypt_config` sealed.
pub get?-plain-kept :
    (io : Codecs) (crypto : Crypto) (config : Fields) (k : String)
    → get? (keep_keys is_own_key (sealed io crypto config)) k
      ≡ (if is_own_key k then (if is_sensitive_field k then none else get? config k) else none)
get?-plain-kept io crypto config k =
    ground
      (arith, get?-keep_keys is_own_key k (sealed io crypto config), get?-sealed io crypto config k)

pub own-absent :
    (config : Fields) (k : String) → IsFree config → is_own_key k ≡ false → get? config k ≡ none
unfolding is_own_key
own-absent config k free own =
    ground (arith, eq_iff k "__enc__", eq_iff k "__data__", eq_iff k "__fields__")

-- What `update` with the decrypted fields gives.
reopened :
    (io : Codecs) (crypto : Crypto) (config : Fields) (k : String)
    → IsDict config
    → IsFree config
    → get? (update (keep_keys is_own_key (sealed io crypto config)) (secret config)) k
      ≡ get? config k
reopened io crypto config k dict free = ground (
  arith,
  get?-update (keep_keys is_own_key (sealed io crypto config)) (secret config) k
      (keep_keys-IsDict is_sensitive_field config dict),
  get?-plain-kept io crypto config k,
  get?-keep_keys is_sensitive_field k config,
  own-absent config k free,
  Option-cases (get? config k),
)

open-with-key :
    (io : Codecs) (crypto : Crypto) (config : Fields) (k : String)
    → IsDict config
    → IsFree config
    → IsFaithful io crypto (secret config)
    → get?
        (open_text io
          (sealed io crypto config)
          (crypto.decrypt (crypto.encrypt (io.dumps (secret config)))))
        k
      ≡ get? config k
unfolding update is_own_key
open-with-key io crypto config k dict free faithful =
    ap (λ (o : Option String). get? (open_text io (sealed io crypto config) o) k) faithful.opens
    ∙ ap (λ (o : Option Value). get? (opened (sealed io crypto config) o) k) faithful.reads
    ∙ reopened io crypto config k dict free

read-marked :
    (keys : Keys) (env_key : Option String) (io : Codecs) (stored : Fields) (crypto : Crypto)
    → get stored "__enc__" ≡ bool true
    → get_encryption_key keys env_key ≡ ok crypto
    → decrypt_config keys env_key io (obj stored) ≡ obj (unseal io (ok crypto) stored)
unfolding decrypt_config
read-marked keys env_key io stored crypto marked has_key =
    ground (arith, ap (λ (c : Try Crypto). unseal io c stored) has_key, ap is_true marked)

pub read-unmarked :
    (keys : Keys) (env_key : Option String) (io : Codecs) (stored : Fields)
    → get? stored "__enc__" ≡ none
    → decrypt_config keys env_key io (obj stored) ≡ obj stored
unfolding decrypt_config get_or
read-unmarked keys env_key io stored absent =
    ground (arith, ap (λ (o : Option Value). is_true (or_default o null)) absent)

seal-eq-ok :
    (io : Codecs) (config : Fields) (stored : Value) (crypto : Crypto) (key : Try Crypto)
    → key ≡ ok crypto
    → seal io config key ≡ ok stored
    → stored ≡ obj (sealed io crypto config)
seal-eq-ok io config stored crypto (raise e) has_key returned = cc
seal-eq-ok io config stored crypto (ok c) has_key returned = cc

-- `encrypt_config` seals a dict or returns it as it is.
encrypt_config-cases :
    (keys : Keys) (env_key : Option String) (io : Codecs) (config : Fields) (stored : Value)
    (crypto : Crypto)
    → get_encryption_key keys env_key ≡ ok crypto
    → encrypt_config keys env_key io (obj config) ≡ ok stored
    → ((some_key is_sensitive_field config ≡ true) × (stored ≡ obj (sealed io crypto config)))
      ⊎ ((some_key is_sensitive_field config ≡ false) × (stored ≡ obj config))
unfolding encrypt_config
encrypt_config-cases keys env_key io config stored crypto has_key returned =
    elim (Bool-cases (some_key is_sensitive_field config)) [
      | inl h ↦
          inl (
            h,
            ground (arith, seal-eq-ok io config stored crypto (get_encryption_key keys env_key)),
          )
      | inr h ↦ inr (h, ground arith)
    ]

pub read-sealed :
    (keys : Keys) (env_key : Option String) (io : Codecs) (config : Fields) (made crypto : Crypto)
    → get_encryption_key keys env_key ≡ ok crypto
    → decrypt_config keys env_key io (obj (sealed io made config))
      ≡ obj (
          open_text io
            (sealed io made config)
            (crypto.decrypt (made.encrypt (io.dumps (secret config)))))
unfolding unseal
read-sealed keys env_key io config made crypto has_key =
    read-marked keys env_key io (sealed io made config) crypto (sealed-mark io made config) has_key
    ∙ ap (λ (v : Value). obj (open_data io crypto (sealed io made config) v))
        (sealed-token io made config)

-- What `encrypt_config` makes of a dict without keys of the program's own, `decrypt_config` reads back
-- under the same key: every key of the configuration, sensitive or not, has its value again.
pub decrypt_config-encrypt_config :
    (keys : Keys) (env_key : Option String) (io : Codecs) (config : Fields) (stored : Value)
    (crypto : Crypto) (k : String)
    → IsDict config
    → IsFree config
    → IsFaithful io crypto (secret config)
    → get_encryption_key keys env_key ≡ ok crypto
    → encrypt_config keys env_key io (obj config) ≡ ok stored
    → look (decrypt_config keys env_key io stored) k ≡ get? config k
decrypt_config-encrypt_config keys env_key io config stored crypto k dict free faithful has_key
      returned =
    elim (encrypt_config-cases keys env_key io config stored crypto has_key returned) [
      | inl h ↦
          ap (λ (v : Value). look (decrypt_config keys env_key io v) k) h.1
          ∙ ap (λ (v : Value). look v k) (read-sealed keys env_key io config crypto crypto has_key)
          ∙ open-with-key io crypto config k dict free faithful
      | inr h ↦
          ap (λ (v : Value). look (decrypt_config keys env_key io v) k) h.1
          ∙ ap (λ (v : Value). look v k) (read-unmarked keys env_key io config free.0)
    ]

-- Under another key, which does not open what was sealed, `decrypt_config` does not fail: it gives
-- exactly the fields that are not sensitive.
pub decrypt_config-wrong_key :
    (keys : Keys) (env_key : Option String) (io : Codecs) (config : Fields) (stored : Value)
    (crypto : Crypto) (new_key : Option String) (other : Crypto) (k : String)
    → IsFree config
    → get_encryption_key keys env_key ≡ ok crypto
    → get_encryption_key keys new_key ≡ ok other
    → ((text : String) → other.decrypt (crypto.encrypt text) ≡ none)
    → encrypt_config keys env_key io (obj config) ≡ ok stored
    → look (decrypt_config keys new_key io stored) k
      ≡ (if is_sensitive_field k then none else get? config k)
decrypt_config-wrong_key keys env_key io config stored crypto new_key other k free has_key has_new
      fails returned =
    elim (encrypt_config-cases keys env_key io config stored crypto has_key returned) [
      | inl h ↦
          ap (λ (v : Value). look (decrypt_config keys new_key io v) k) h.1
          ∙ ap (λ (v : Value). look v k) (read-sealed keys new_key io config crypto other has_new)
          ∙ ap (λ (o : Option String). get? (open_text io (sealed io crypto config) o) k)
              (fails (io.dumps (secret config)))
          ∙ ground (
            arith,
            get?-plain-kept io crypto config k,
            own-absent config k free,
            sensitive-is_own_key k,
          )
      | inr h ↦
          ap (λ (v : Value). look (decrypt_config keys new_key io v) k) h.1
          ∙ ap (λ (v : Value). look v k) (read-unmarked keys new_key io config free.0)
          ∙ ground (arith, some_key-get? is_sensitive_field config k)
    ]
