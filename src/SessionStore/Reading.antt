-- ===== src/SessionStore/Reading.antt =====
-- auth_session_repository.py: what `get_by_refresh_id` reads.
use andruha_identity_service.Prelude.{ℕ, ◌≡◌, Option, none, some, arith}
use andruha_identity_service.Errors.{Result, ok}
use andruha_identity_service.Table.{In, first}
use andruha_identity_service.Session.{RefreshToken, AuthSession, validate_token}
use andruha_identity_service.SessionStore.{
  SessionRow, AuthDatabase, has_token, has_session, loaded, session_of_token, get_by_refresh_id,
}
use andruha_identity_service.SessionStore.Writing.{
  first-In, >>=-ok, joined, with_token-joined, loaded-some,
}

-- The session that was read for the identifier of a token, with that token.
pub record Presents (id : ℕ) (db : AuthDatabase) (s : AuthSession) (t : RefreshToken) : Type 0 where
  pub stored : In t db.tokens
  pub named : t.id ≡ id
  pub row : SessionRow
  pub listed : In row db.sessions
  pub owner : row.id ≡ t.session_id
  pub read : s ≡ joined row t

pub get-Presents :
    (id : ℕ) (db : AuthDatabase) (s : AuthSession)
    → get_by_refresh_id id db ≡ ok (some s)
    → (t : RefreshToken) × Presents id db s t
unfolding get_by_refresh_id session_of_token
get-Presents id db s h =
    let tokens = loaded validate_token (first (has_token id) db.tokens) in
    let (o, read, joins) = >>=-ok tokens (session_of_token db) (some s) h in presents o read joins
  where
    not_found : Path (Result (Option AuthSession)) (ok none) (ok (some s)) → ⊥
    not_found e = ground arith

    presents :
        (o : Option RefreshToken)
        → loaded validate_token (first (has_token id) db.tokens) ≡ ok o
        → session_of_token db o ≡ ok (some s)
        → (t : RefreshToken) × Presents id db s t
    presents none read joins = absurd (not_found joins)
    presents (some t) read joins =
        let (row, there, eq, valid) =
          with_token-joined (first (has_session t.session_id) db.sessions) t s joins in
        let (listed, owner) = first-In (has_session t.session_id) row db.sessions there in
        let (stored, named) =
          first-In (has_token id) t db.tokens
            (loaded-some (first (has_token id) db.tokens) t read) in
        (
          t,
          record {
            stored = stored;
            named = ground (arith, named);
            row = row;
            listed = listed;
            owner = ground (arith, owner);
            read = eq;
          },
        )
