-- ===== src/Auth/Once.antt =====
-- application/use_cases/refresh/handler.py: a refresh token is exchanged once.
use andruha_identity_service.Prelude.{
  ℕ, String, ◌≡◌, refl, sym, ap, ◌∙◌, subst, inl, inr, true, false, some, List, [], ◌∷◌, arith,
  str_eq, is_some, Bool-cases, Option-cases, All,
}
use andruha_identity_service.Errors.{ok}
use andruha_identity_service.Clock.{DateTime, ℤ, Bytes}
use andruha_identity_service.Table.{first, update, In}
use andruha_identity_service.Table.Laws.{update-In}
use andruha_identity_service.Session.{RefreshToken, is_used}
use andruha_identity_service.Idempotency.Record.{IdempotencyIdentity, StoredResult}
use andruha_identity_service.SessionStore.{
  AuthDatabase, SessionRow, has_session, has_token, has_hash, row_of,
}
use andruha_identity_service.SessionStore.Sound.{
  IsSound, Spent, Spent-Writes, Spent-of_In, All-In, Writes-IsSound,
}
use andruha_identity_service.SessionStore.Writing.{first-In}
use andruha_identity_service.Auth.Tokens.{Issuer}
use andruha_identity_service.Auth.Exchange.{
  Protector, success_type, rejected_result, refresh_operation,
}
use andruha_identity_service.Auth.Presenting.{Presented, refresh-Presented}
use andruha_identity_service.Auth.System.{Reach, Reach-Writes}

-- The session with the identifier is revoked.
abbrev pub RevokedIn : AuthDatabase → ℕ → Type 0
RevokedIn db id = All (λ r. has_session id r ≡ true → is_some r.revoked_at ≡ true) db.sessions

revoked-update :
    (id : ℕ) (row : SessionRow) (rows : List SessionRow)
    → is_some row.revoked_at ≡ true
    → All
        (λ r. has_session id r ≡ true → is_some r.revoked_at ≡ true)
        (update (has_session id) (λ r. row) rows)
revoked-update id row [] h = tt
revoked-update id row (x ∷ rows) h = (
  elim (Bool-cases (has_session id x)) [
    | inl e ↦ rw e (λ _. h)
    | inr e ↦ rw e (λ k. absurd (ground (arith, e, k)))
  ],
  revoked-update id row rows h,
)

-- The token that was written is in the table.
written-In :
    (hash : Bytes) (db db' : AuthDatabase) (r : StoredResult) (seen : Presented hash db r db')
    → In seen.token db'.tokens
written-In hash db db' r seen =
    let old = (first-In (has_hash hash) seen.found.token db.tokens seen.found.stored).0 in
    let there =
      update-In (has_token seen.token.id) (λ _. seen.token) seen.found.token db.tokens old in
    let reached : has_token seen.token.id seen.found.token ≡ true =
      ground (arith, seen.same_token) in
    let now : In seen.token (update (has_token seen.token.id) (λ _. seen.token) db.tokens) =
      subst (λ x. In x (update (has_token seen.token.id) (λ _. seen.token) db.tokens))
        (rw reached refl) there in
    elim (Option-cases seen.written.replacement_token) [
      | inl n ↦ subst (λ xs. In seen.token xs) (sym (seen.saved.tokens.0 n)) now
      | inr (r, s) ↦ subst (λ xs. In seen.token xs) (sym (seen.saved.tokens.1 r s)) (inr now)
    ]

apart : (r : StoredResult) → r ≡ rejected_result → r.result_type ≡ success_type → ⊥
apart r rejected success =
    let same : false ≡ true =
      ap (λ t. str_eq t success_type)
        (sym (ap (λ (x : StoredResult). x.result_type) rejected) ∙ success) in
    cc

exchanged-Spent :
    (hash : Bytes) (db db' : AuthDatabase) (r : StoredResult)
    → Presented hash db r db'
    → IsSound db.tokens
    → r.result_type ≡ success_type
    → Spent hash db'.tokens
exchanged-Spent hash db db' r seen sound success = elim seen.end [
  | inl (rejected, _) ↦ absurd (apart r rejected success)
  | inr (_, _, used) ↦
      Spent-of_In hash seen.token db'.tokens
        (Writes-IsSound db.tokens db'.tokens seen.saved.writes sound)
        (written-In hash db db' r seen)
        (rw (seen.same_hash)
          (first-In (has_hash hash) seen.found.token db.tokens seen.found.stored).1)
        used
]

Spent-rejected :
    (hash : Bytes) (db db' : AuthDatabase) (r : StoredResult)
    → Presented hash db r db'
    → Spent hash db.tokens
    → (r ≡ rejected_result)
      × (t : RefreshToken) × (first (has_hash hash) db.tokens ≡ some t)
      × RevokedIn db' t.session_id
Spent-rejected hash db db' r seen spent =
    let t = seen.found.token in
    let (there, named) = first-In (has_hash hash) t db.tokens seen.found.stored in
    let used =
      All-In (λ r. has_hash hash r ≡ true → is_used r ≡ true) t db.tokens spent.used there named in
    let session : seen.written.id ≡ t.session_id = seen.same_session ∙ seen.found.owned in
    elim seen.end [
      | inl (rejected, revoked) ↦ (
        rejected,
        t,
        seen.found.stored,
        subst (RevokedIn db') session (
            subst
              (λ rows.
                All (λ r. has_session seen.written.id r ≡ true → is_some r.revoked_at ≡ true) rows)
              (sym seen.saved.sessions)
              (revoked-update seen.written.id (row_of seen.written) db.sessions revoked)),
      )
      | inr (_, unused, _) ↦ absurd (ground (arith, used, unused))
    ]

module _ (g : Issuer) (p p' : Protector) (ttl ttl' : ℤ) (i i' : IdempotencyIdentity) (h h' : Bytes)
    (now now' : DateTime) (draw draw' id id' : ℕ) where
  -- In a database that logins, refreshes, logouts and changes of accounts made of one without
  -- tokens, a raw token that was exchanged with success is never exchanged again: whatever of these
  -- follows, a later request with it, under any idempotency key and at any time, that does not
  -- raise is refused, and leaves the session of the token revoked.
  pub exchange_once :
      (raw_token : String) (start db first_end between end : AuthDatabase) (r r' : StoredResult)
      → start.tokens ≡ []
      → Reach g start db
      → refresh_operation g p ttl i h now draw id raw_token db ≡ ok (r, first_end)
      → r.result_type ≡ success_type
      → Reach g first_end between
      → refresh_operation g p' ttl' i' h' now' draw' id' raw_token between ≡ ok (r', end)
      → (r' ≡ rejected_result)
        × (t : RefreshToken) × (first (has_hash (g.digest raw_token)) between.tokens ≡ some t)
        × RevokedIn end t.session_id
  exchange_once raw_token start db first_end between end r r' empty before exchanged success reach
        again =
      let hash = g.digest raw_token in
      let sound =
        Writes-IsSound start.tokens db.tokens (Reach-Writes g start db before)
          (subst IsSound (sym empty) (record { ids = tt; hashes = tt })) in
      let seen = refresh-Presented g p ttl i h now draw id raw_token db first_end r exchanged in
      let spent = exchanged-Spent hash db first_end r seen sound success in
      let still =
        Spent-Writes hash first_end.tokens between.tokens (Reach-Writes g first_end between reach)
          (Writes-IsSound db.tokens first_end.tokens seen.saved.writes sound) spent in
      Spent-rejected hash between end r'
        (refresh-Presented g p' ttl' i' h' now' draw' id' raw_token between end r' again) still
