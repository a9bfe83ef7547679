-- ===== src/SessionStore.antt =====
-- infrastructure/database/repositories/base_repository.py, auth_session_repository.py and
-- refresh_token_repository.py, on the tables of users, sessions and tokens. The constraints of a
-- row, those of infrastructure/database/models included, are checked whenever it is written.
pub mod Sound
pub mod Writing
pub mod Reading
use andruha_identity_service.Prelude.{
  ℕ, zero, suc, ◌+◌, ◌-◌, ◌*◌, ◌/◌, ◌%◌, ◌≤◌, ◌<◌, min, max, String, ◌≡◌, refl, sym, ap, ◌∙◌, subst,
  ◌≢◌, ◌↔◌, ◌⊎◌, inl, inr, Bool, true, false, not, ◌&&◌, ◌||◌, Option, none, some, List, [], ◌∷◌,
  ◌++◌, map, arith, str_eq, eq_iff, ltb, leb, ◌==◌, if◌then◌else◌, is_some, holds, Bool-cases,
  Option-cases, ==-refl, ltb-of_lt, leb-of_le, if_ind, if_cases, length, take, length-append, All,
  All-append, All-append_left, All-append_right, All-imp,
}
use andruha_identity_service.Errors.{
  Error, Result, ok, raise, raise_if, ◌>>=◌, ◌>>◌, is_domain_state_error, stored_state,
  entity_not_found, persistence_integrity,
}
use andruha_identity_service.Clock.{DateTime, before, not_after, Bytes, same_bytes}
use andruha_identity_service.Table.{exists, first, update}
use andruha_identity_service.Accounts.{Texts, User, validate_user}
use andruha_identity_service.Session.{RefreshToken, AuthSession, validate_token, validate_session}

-- `AuthSessionORM`
pub record SessionRow : Type 0 where
  pub id : ℕ
  pub created_at : DateTime
  pub user_id : ℕ
  pub idle_expires_at : DateTime
  pub revoked_at : Option DateTime

pub record AuthDatabase : Type 0 where
  pub users : List User
  pub sessions : List SessionRow
  pub tokens : List RefreshToken

abbrev pub has_user : ℕ → User → Bool
has_user id u = u.id == id

abbrev pub has_session : ℕ → SessionRow → Bool
has_session id r = r.id == id

abbrev pub has_token : ℕ → RefreshToken → Bool
has_token id t = t.id == id

abbrev pub has_hash : Bytes → RefreshToken → Bool
has_hash hash t = same_bytes t.token_hash hash

abbrev since : DateTime → Option DateTime → Bool
since created none = true
since created (some t) = not_after created t

-- The foreign key and the checks of a session.
abbrev pub session_allowed : AuthDatabase → SessionRow → Bool
session_allowed db r =
    exists (has_user r.user_id) db.users
    && (before r.created_at r.idle_expires_at && since r.created_at r.revoked_at)

-- The foreign key and the checks of a token; its hash is unique.
abbrev pub token_allowed : AuthDatabase → RefreshToken → Bool
token_allowed db t =
    exists (has_session t.session_id) db.sessions
    && (t.token_hash.size == 32
        && (since t.created_at t.used_at
            && not (exists (λ o. has_hash t.token_hash o && not (has_token t.id o)) db.tokens)))

-- `_to_domain`
abbrev pub to_domain : {A : Type 0} → Result A → Result A
to_domain (ok a) = ok a
to_domain (raise e) = if is_domain_state_error e then raise stored_state else raise e

abbrev pub loaded : {A : Type 0} → (A → Result A) → Option A → Result (Option A)
loaded valid none = ok none
loaded valid (some a) = to_domain (valid a) >>= λ b. ok (some b)

-- `users.get`, `get_for_update`, `get_by_email`
abbrev pub load_user : Texts → (User → Bool) → AuthDatabase → Result (Option User)
load_user x test db = loaded (validate_user x) (first test db.users)

-- `model_dump` of a session; both tokens are excluded.
abbrev pub row_of : AuthSession → SessionRow
row_of s = record {
  id = s.id;
  created_at = s.created_at;
  user_id = s.user_id;
  idle_expires_at = s.idle_expires_at;
  revoked_at = s.revoked_at;
}

-- What `AuthSession.model_validate` reads of a row.
abbrev pub session_of : SessionRow → AuthSession
session_of r = record {
  id = r.id;
  created_at = r.created_at;
  user_id = r.user_id;
  idle_expires_at = r.idle_expires_at;
  revoked_at = r.revoked_at;
  refresh_token = none;
  replacement_token = none;
}

-- `create` of the base repository, for sessions
unfoldable pub create_session : AuthSession → AuthDatabase → Result AuthDatabase
create_session s db = do
  raise_if (exists (has_session s.id) db.sessions) persistence_integrity
  raise_if (not (session_allowed db (row_of s))) persistence_integrity
  valid ← to_domain (validate_session (session_of (row_of s)))
  ok (record db { sessions = row_of s ∷ db.sessions })

-- `create` of the base repository, for tokens
unfoldable pub create_token : RefreshToken → AuthDatabase → Result AuthDatabase
create_token t db = do
  raise_if (exists (has_token t.id) db.tokens) persistence_integrity
  raise_if (not (token_allowed db t)) persistence_integrity
  valid ← to_domain (validate_token t)
  ok (record db { tokens = t ∷ db.tokens })

-- `update` of the base repository, for sessions
unfoldable pub update_session : AuthSession → AuthDatabase → Result AuthDatabase
update_session s db = do
  raise_if (not (exists (has_session s.id) db.sessions)) entity_not_found
  raise_if (not (session_allowed db (row_of s))) persistence_integrity
  valid ← to_domain (validate_session (session_of (row_of s)))
  ok (record db { sessions = update (has_session s.id) (λ r. row_of s) db.sessions })

-- `update` of the base repository, for tokens
unfoldable pub update_token : RefreshToken → AuthDatabase → Result AuthDatabase
update_token t db = do
  raise_if (not (exists (has_token t.id) db.tokens)) entity_not_found
  raise_if (not (token_allowed db t)) persistence_integrity
  valid ← to_domain (validate_token t)
  ok (record db { tokens = update (has_token t.id) (λ r. t) db.tokens })

abbrev pub if_present :
    (RefreshToken → AuthDatabase → Result AuthDatabase)
    → Option RefreshToken
    → AuthDatabase
    → Result AuthDatabase
if_present write none db = ok db
if_present write (some t) db = write t db

-- `AuthSessionRepository.create`
unfoldable pub create : AuthSession → AuthDatabase → Result AuthDatabase
unfolding create_session create_token
create s db = create_session s db >>= if_present create_token s.refresh_token

-- `AuthSessionRepository.save`
unfoldable pub save : AuthSession → AuthDatabase → Result AuthDatabase
unfolding update_session update_token create_token
save s db = do
  after_session ← update_session s db
  after_token ← if_present update_token s.refresh_token after_session
  if_present create_token s.replacement_token after_token

-- `_with_token`
unfoldable pub with_token : Option SessionRow → RefreshToken → Result (Option AuthSession)
with_token none token = ok none
with_token (some row) token =
    to_domain (
      validate_session (session_of row) >>= λ s.
      validate_session (record s { refresh_token = some token }))
    >>= λ s. ok (some s)

unfoldable pub session_of_token : AuthDatabase → Option RefreshToken → Result (Option AuthSession)
unfolding with_token
session_of_token db none = ok none
session_of_token db (some t) = with_token (first (has_session t.session_id) db.sessions) t

-- `get_by_refresh_hash_for_update`, with `get_by_hash_for_update`
unfoldable pub get_by_refresh_hash_for_update : Bytes → AuthDatabase → Result (Option AuthSession)
get_by_refresh_hash_for_update hash db =
    loaded validate_token (first (has_hash hash) db.tokens) >>= session_of_token db

-- `get_by_refresh_id`
unfoldable pub get_by_refresh_id : ℕ → AuthDatabase → Result (Option AuthSession)
get_by_refresh_id id db =
    loaded validate_token (first (has_token id) db.tokens) >>= session_of_token db
