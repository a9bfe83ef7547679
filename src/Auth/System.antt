-- ===== src/Auth/System.antt =====
-- The transactions of login, refresh and logout, one after the other: a presented token and its
-- session are locked from the read to the commit. Other parts of the service write accounts only.
use andruha_identity_service.Prelude.{
  ℕ, String, ◌≡◌, refl, ap, ◌∙◌, subst, inl, inr, Option, none, some, List, arith, Option-cases,
}
use andruha_identity_service.Errors.{Result, ok, ◌>>=◌}
use andruha_identity_service.UnitOfWork.{World}
use andruha_identity_service.Clock.{DateTime, ℤ, Bytes}
use andruha_identity_service.Accounts.{User}
use andruha_identity_service.Session.{AuthSession, RefreshToken, start, revoke, validate_session}
use andruha_identity_service.Idempotency.Record.{IdempotencyIdentity, StoredResult}
use andruha_identity_service.SessionStore.{
  AuthDatabase, has_hash, create_session, create_token, if_present, create, save,
  get_by_refresh_hash_for_update,
}
use andruha_identity_service.SessionStore.Sound.{
  Write, Writes, none_written, then_written, Writes-append,
}
use andruha_identity_service.SessionStore.Writing.{
  >>=-ok, get-Found, save-Saved, first-In, create_token-Write,
}
use andruha_identity_service.Auth.Tokens.{TokenPair, Issuer, Hasher}
use andruha_identity_service.Auth.Exchange.{Protector, refresh_operation}
use andruha_identity_service.Auth.Login.{open_session, close_found, close_session}
use andruha_identity_service.Auth.Opening.{open_session-Opened}
use andruha_identity_service.Auth.Presenting.{refresh-Presented}

pub data Step (g : Issuer) (db : AuthDatabase) : AuthDatabase → Type 0 where
  refreshing :
      (p : Protector) (idle_ttl : ℤ) (i : IdempotencyIdentity) (request_hash : Bytes)
      (now : DateTime) (draw token_id : ℕ) (raw_token : String) (r : StoredResult)
      (db' : AuthDatabase)
      → refresh_operation g p idle_ttl i request_hash now draw token_id raw_token db ≡ ok (r, db')
      → Step g db db'
  opening :
      (w : World AuthDatabase) (h : Hasher) (idle_ttl : ℤ) (fresh_session fresh_token : ℕ → ℕ)
      (tick user_id : ℕ) (password_hash : String) (pair : TokenPair) (db' : AuthDatabase)
      → open_session w g h idle_ttl fresh_session fresh_token tick user_id password_hash db
        ≡ ok (pair, db')
      → Step g db db'
  closing :
      (w : World AuthDatabase) (h : Hasher) (idle_ttl : ℤ) (fresh_session fresh_token : ℕ → ℕ)
      (now : DateTime) (raw_token : String) (db' : AuthDatabase)
      → close_session w g h idle_ttl fresh_session fresh_token now raw_token db ≡ ok (tt, db')
      → Step g db db'
  writing_accounts : (users : List User) → Step g db (record db { users = users })

pub data Reach (g : Issuer) (db : AuthDatabase) : AuthDatabase → Type 0 where
  here : Reach g db db
  next : {xs ys : AuthDatabase} → Reach g db xs → Step g xs ys → Reach g db ys

create-Writes :
    (s : AuthSession) (t : RefreshToken) (db db' : AuthDatabase)
    → s.refresh_token ≡ some t
    → create s db ≡ ok db'
    → Writes db.tokens db'.tokens
unfolding create create_session
create-Writes s t db db' presented h =
    let (mid, first_write, second_write) =
      >>=-ok (create_session s db) (if_present create_token s.refresh_token) db' h in
    let second : create_token t mid ≡ ok db' =
      subst (λ o. if_present create_token o mid ≡ ok db') presented second_write in
    let same : mid.tokens ≡ db.tokens = ground (arith, first_write) in
    then_written none_written
      (subst (λ xs. Write xs db'.tokens) same (create_token-Write t mid db' second))

module _ (g : Issuer) (w : World AuthDatabase) (h : Hasher) (idle_ttl : ℤ)
    (fresh_session fresh_token : ℕ → ℕ) where
  abbrev closed : AuthDatabase → Result (Unit {0} × AuthDatabase)
  closed db = ok (tt, db)

  start-presents :
      (session_id token_id user_id : ℕ) (hash : Bytes) (now : DateTime) (s : AuthSession)
      → start session_id token_id user_id hash now idle_ttl ≡ ok s
      → (t : RefreshToken) × (s.refresh_token ≡ some t)
  unfolding start validate_session
  start-presents session_id token_id user_id hash now s e = elim (Option-cases s.refresh_token) [
    | inl n ↦ absurd (ground (arith, e, n))
    | inr (t, p) ↦ (t, p)
  ]

  open-Writes :
      (tick user_id : ℕ) (password_hash : String) (pair : TokenPair) (db db' : AuthDatabase)
      → open_session w g h idle_ttl fresh_session fresh_token tick user_id password_hash db
        ≡ ok (pair, db')
      → Writes db.tokens db'.tokens
  open-Writes tick user_id password_hash pair db db' e =
      let o =
        open_session-Opened w g h idle_ttl fresh_session fresh_token tick user_id password_hash pair
          db db' e in
      let (t, p) =
        start-presents (fresh_session tick) (fresh_token tick) o.account.id o.issued.refresh_digest
          (w.clock tick) o.session o.starts in
      create-Writes o.session t db db' p o.creates

  revoke-kept :
      (now : DateTime) (s s' : AuthSession)
      → revoke now s ≡ ok s'
      → s'.refresh_token ≡ s.refresh_token
  unfolding revoke validate_session
  revoke-kept now s s' e = ground arith

  close_found-Writes :
      (now : DateTime) (hash : Bytes) (o : Option AuthSession) (db db' : AuthDatabase)
      → get_by_refresh_hash_for_update hash db ≡ ok o
      → close_found w g h idle_ttl fresh_session fresh_token now o db ≡ ok db'
      → Writes db.tokens db'.tokens
  unfolding close_found
  close_found-Writes now hash none db db' finds e =
      let same : db ≡ db' = ground (arith, e) in
      subst (λ (d : AuthDatabase). Writes db.tokens d.tokens) same none_written
  close_found-Writes now hash (some s) db db' finds e =
      let f = get-Found hash db s finds in
      let (s', revokes, saves) = >>=-ok (revoke now s) (λ x. save x db) db' e in
      (save-Saved s' f.token f.token db db' saves (revoke-kept now s s' revokes ∙ f.presented)
        (first-In (has_hash hash) f.token db.tokens f.stored).0 refl refl (λ u. u)).writes

  close-Writes :
      (now : DateTime) (raw_token : String) (db db' : AuthDatabase)
      → close_session w g h idle_ttl fresh_session fresh_token now raw_token db ≡ ok (tt, db')
      → Writes db.tokens db'.tokens
  unfolding close_session
  close-Writes now raw_token db db' e =
      let body = λ (o : Option AuthSession).
        close_found w g h idle_ttl fresh_session fresh_token now o db >>= closed in
      let (o, finds, e1) =
        >>=-ok (get_by_refresh_hash_for_update (g.digest raw_token) db) body (tt, db') e in
      let (last, closes, e2) =
        >>=-ok (close_found w g h idle_ttl fresh_session fresh_token now o db) closed (tt, db')
          e1 in
      close_found-Writes now (g.digest raw_token) o db db' finds
        (closes ∙ ap ok (ground (arith, e2)))

pub Step-Writes : (g : Issuer) (db db' : AuthDatabase) → Step g db db' → Writes db.tokens db'.tokens
Step-Writes g db db' (refreshing p idle_ttl i request_hash now draw token_id raw_token r _ e) =
    let seen =
      refresh-Presented g p idle_ttl i request_hash now draw token_id raw_token db db' r e in
    seen.saved.writes
Step-Writes g db db' (opening w h ttl fs ft tick user_id password_hash pair _ e) =
    open-Writes g w h ttl fs ft tick user_id password_hash pair db db' e
Step-Writes g db db' (closing w h ttl fs ft now raw_token _ e) =
    close-Writes g w h ttl fs ft now raw_token db db' e
Step-Writes g db db' (writing_accounts users) = none_written

pub Reach-Writes :
    (g : Issuer) (db db' : AuthDatabase) → Reach g db db' → Writes db.tokens db'.tokens
Reach-Writes g db db' here = none_written
Reach-Writes g db db' (next r s) =
    Writes-append db.tokens _ db'.tokens (Reach-Writes g db _ r) (Step-Writes g _ db' s)
