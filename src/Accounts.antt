-- ===== src/Accounts.antt =====
-- domain/aggregates/user.py and infrastructure/database/repositories/user_repository.py.
use andruha_identity_service.Prelude.{
  ℕ, String, Bool, true, false, Option, none, some, List, ◌∷◌, str_eq, ◌==◌, if◌then◌else◌,
}
use andruha_identity_service.Errors.{
  Result, ok, raise, raise_if, ◌>>=◌, ◌>>◌, invalid_email, invalid_password_hash, invalid_timestamp,
  persistence_integrity,
}
use andruha_identity_service.Clock.{DateTime, before, require_aware}
use andruha_identity_service.Table.{exists, first}

-- What Pydantic and Python make of a text: `EmailStr`, `str.casefold` and `str.strip`.
pub record Texts : Type 0 where
  pub email_str : String → Option String
  pub casefold : String → String
  pub strip : String → String

-- `NormalizedEmail(value)` of domain/value_objects/email.py
unfoldable pub normalized_email : Texts → String → Result String
normalized_email x value = elim (x.email_str value) [
  | none ↦ raise invalid_email
  | some email ↦ ok (x.casefold email)
]

-- `PasswordHash(value)` of domain/value_objects/password_hash.py
unfoldable pub checked_password_hash : Texts → String → Result String
checked_password_hash x value = do
  raise_if (str_eq (x.strip value) "") invalid_password_hash
  ok value

pub data UserStatus : Type 0 where
  active disabled : UserStatus

pub data UserRole : Type 0 where
  user admin : UserRole

pub record User : Type 0 where
  pub id : ℕ
  pub created_at : DateTime
  pub updated_at : Option DateTime
  pub email : String
  pub password_hash : String
  pub role : UserRole
  pub status : UserStatus

abbrev pub is_active : UserStatus → Bool
is_active active = true
is_active disabled = false

-- `can_authenticate`
abbrev pub can_authenticate : User → Bool
can_authenticate u = is_active u.status

abbrev check_updated : DateTime → Option DateTime → Result (Unit {0})
check_updated created none = ok tt
check_updated created (some t) = do require_aware t; raise_if (before t created) invalid_timestamp

-- `User.model_validate`: the fields, then `validate_created_at`, `validate_updated_at`
unfoldable pub validate_user : Texts → User → Result User
unfolding normalized_email checked_password_hash
validate_user x u = do
  email ← normalized_email x u.email
  password_hash ← checked_password_hash x u.password_hash
  require_aware u.created_at
  check_updated u.created_at u.updated_at
  ok (record u { email = email; password_hash = password_hash })

abbrev last_change : User → DateTime
last_change u = elim u.updated_at [ none ↦ u.created_at | some t ↦ t ]

-- `disable`, with `_change_at`
unfoldable pub disable : Texts → DateTime → User → Result User
unfolding validate_user
disable x now u =
    if is_active u.status
    then (do
      require_aware now
      raise_if (before now (last_change u)) invalid_timestamp
      validate_user x (record u { updated_at = some now; status = disabled }))
    else ok u

abbrev pub has_id : ℕ → User → Bool
has_id id u = u.id == id

abbrev pub has_email : String → User → Bool
has_email email u = str_eq u.email email

-- `get`, `get_for_update`
unfoldable pub get : ℕ → List User → Option User
get id users = first (has_id id) users

-- `get_by_email`
unfoldable pub get_by_email : String → List User → Option User
get_by_email email users = first (has_email email) users

-- `create_if_absent`: a row with the email leaves the table alone, one with the identifier is a
-- violated constraint.
unfoldable pub create_if_absent : User → List User → Result (Option User × List User)
create_if_absent u users =
    if exists (has_email u.email) users
    then ok (none, users)
    else if exists (has_id u.id) users
    then raise persistence_integrity
    else ok (some u, u ∷ users)
