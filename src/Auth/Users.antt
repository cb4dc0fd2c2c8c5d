-- ===== src/Auth/Users.antt =====
-- The table `auth_users` and the statements of the OIDC handlers on it. An id of a provider is a UUID; the
-- driver gives it to the program as a text or as a UUID object.
use finna_app.Prelude.{
  ℕ, String, Bool, false, ◌&&◌, ◌||◌, Option, none, some, List, [], ◌∷◌, ◌++◌, map, ◌==◌,
  if◌then◌else◌, eqb, exists,
}
use finna_app.Python.Value.{Value, null, str}
use finna_app.Python.Try.{Try, ok, raise, attribute_error, db_error}

-- `provider["id"]`
pub data RowId : Type 0 where
  text_id : String → RowId
  uuid_id : String → RowId

abbrev pub id_text : RowId → String
id_text (text_id s) = s
id_text (uuid_id s) = s

-- `str(UUID(v))`: a UUID object has no method `replace`. A text is taken to be as `str` writes a UUID.
unfoldable pub as_uuid : RowId → Try String
as_uuid (text_id s) = ok s
as_uuid (uuid_id s) = raise attribute_error

-- `provider_id == v` for the text of a stored state: no text is equal to a UUID object.
unfoldable pub equals_id : String → RowId → Bool
equals_id provider_id (text_id s) = provider_id == s
equals_id provider_id (uuid_id s) = false

pub record User : Type 0 where
  pub id : ℕ
  pub username : String
  pub email : String
  pub is_active : Bool
  pub is_admin : Bool
  pub provider_id : Option String
  pub subject : Option String

abbrev same_text : Option String → String → Bool
same_text none t = false
same_text (some s) t = s == t

abbrev pub is_user : String → String → User → Bool
is_user provider_id subject u = same_text u.provider_id provider_id && same_text u.subject subject

-- A subject as a parameter; the JWT library refuses one that is no string.
unfoldable pub subject_param : Value → Try (Option String)
subject_param null = ok none
subject_param (str s) = ok (some s)
subject_param _ = raise db_error

unfoldable pub find_user : String → Option String → List User → Option User
find_user provider_id none users = none
find_user provider_id (some subject) [] = none
find_user provider_id (some subject) (u ∷ users) =
    if is_user provider_id subject u then some u else find_user provider_id (some subject) users

-- `oidc_provider_id, oidc_subject` of two rows, where the index has them.
abbrev same_oidc : User → User → Bool
same_oidc new u = elim new.subject [
  | none ↦ false
  | some subject ↦ elim new.provider_id [
    | none ↦ false
    | some provider_id ↦ is_user provider_id subject u
  ]
]

-- INSERT INTO auth_users, with the next number of the sequence: the name, the address, and provider and
-- subject are unique. `password_required` is whether the column `hashed_password`, which the statement
-- leaves out, is NOT NULL.
unfoldable pub insert_user : Bool → User → List User → Try (List User)
insert_user password_required new users =
    if password_required || exists (λ u. u.username == new.username || u.email == new.email) users
    then raise db_error
    else (if exists (same_oidc new) users then raise db_error else ok (users ++ (new ∷ [])))

-- UPDATE auth_users SET is_admin … WHERE id = %s
unfoldable pub update_admin : ℕ → Bool → List User → List User
update_admin id is_admin users =
    map (λ u. if eqb u.id id then (record u { is_admin = is_admin }) else u) users
