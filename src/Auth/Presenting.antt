-- ===== src/Auth/Presenting.antt =====
-- application/use_cases/refresh/handler.py: what presenting a refresh token does to the tables, on
-- every path that does not raise.
use andruha_identity_service.Prelude.{
  ℕ, String, ◌≡◌, refl, sym, ap, ◌∙◌, subst, ◌⊎◌, inl, inr, Bool, true, false, Option, none, some,
  arith, if◌then◌else◌, is_some,
}
use andruha_identity_service.Errors.{Result, ok, ◌>>=◌}
use andruha_identity_service.Clock.{DateTime, ℤ, Bytes}
use andruha_identity_service.Accounts.{User}
use andruha_identity_service.Session.{
  RefreshToken, AuthSession, is_used, accepts_refresh, rotate, revoke, validate_session,
}
use andruha_identity_service.Session.Rotation.{rotate-ok}
use andruha_identity_service.Idempotency.Record.{IdempotencyIdentity, StoredResult}
use andruha_identity_service.SessionStore.{
  AuthDatabase, has_hash, has_user, load_user, save, get_by_refresh_hash_for_update,
}
use andruha_identity_service.SessionStore.Writing.{
  >>=-ok, Found, get-Found, Saved, save-Saved, first-In,
}
use andruha_identity_service.Auth.Tokens.{IssuedTokenPair, Issuer, issue}
use andruha_identity_service.Auth.Exchange.{
  Protector, success_type, rejected_result, success_result, may_authenticate, exchange, exchange_by,
  present, present_found, refresh_operation,
}

-- How a session leaves `accepts_refresh`.
pub record Asked (s s' : AuthSession) (accepted : Bool) (t : RefreshToken) : Type 0 where
  pub presented : s'.refresh_token ≡ s.refresh_token
  pub alone : s'.replacement_token ≡ s.replacement_token
  pub same_id : s'.id ≡ s.id
  pub refused : accepted ≡ false → is_some s'.revoked_at ≡ true
  pub unused : accepted ≡ true → is_used t ≡ false

asked :
    (now : DateTime) (able accepted : Bool) (s s' : AuthSession) (t : RefreshToken)
    → s.refresh_token ≡ some t
    → accepts_refresh now able s ≡ ok (accepted, s')
    → Asked s s' accepted t
unfolding accepts_refresh revoke validate_session
asked now able accepted s s' t p h = record {
  presented = ground arith;
  alone = ground arith;
  same_id = ground arith;
  refused = λ e. ground arith;
  unused = λ e. ground arith;
}

-- How a session leaves `rotate`.
pub record Turned (s s' : AuthSession) (t r : RefreshToken) : Type 0 where
  pub used : RefreshToken
  pub presented : s'.refresh_token ≡ some used
  pub replaced : s'.replacement_token ≡ some r
  pub same_id : s'.id ≡ s.id
  pub same_token : used.id ≡ t.id
  pub same_hash : used.token_hash ≡ t.token_hash
  pub spent : is_used used ≡ true

turned :
    (now : DateTime) (ttl : ℤ) (hash : Bytes) (id : ℕ) (s s' : AuthSession) (t r : RefreshToken)
    → s.refresh_token ≡ some t
    → rotate now ttl hash id s ≡ ok (r, s')
    → Turned s s' t r
turned now ttl hash id s s' t r p h =
    let (made, eq) = rotate-ok now ttl hash id t s p r s' h in
    record {
      used = record t { used_at = some now };
      presented = ap (λ (x : AuthSession). x.refresh_token) eq;
      replaced = ap (λ (x : AuthSession). x.replacement_token) eq ∙ ap some (sym made);
      same_id = ap (λ (x : AuthSession). x.id) eq;
      same_token = refl;
      same_hash = refl;
      spent = refl;
    }

-- What presenting a raw token did: the session that was found, the token as it was written back, and
-- either a refusal, which revoked the session, or an exchange of an unused token.
pub record Presented (hash : Bytes) (db : AuthDatabase) (r : StoredResult) (db' : AuthDatabase)
    : Type 0 where
  pub session : AuthSession
  pub found : Found hash db session
  pub written : AuthSession
  pub token : RefreshToken
  pub saved : Saved written token db db'
  pub same_session : written.id ≡ session.id
  pub same_token : token.id ≡ found.token.id
  pub same_hash : token.token_hash ≡ found.token.token_hash
  pub end :
      ((r ≡ rejected_result) × (is_some written.revoked_at ≡ true))
      ⊎ ((r.result_type ≡ success_type) × (is_used found.token ≡ false) × (is_used token ≡ true))

module _ (g : Issuer) (p : Protector) (idle_ttl : ℤ) (i : IdempotencyIdentity)
    (request_hash : Bytes) (now : DateTime) (draw token_id : ℕ) (hash : Bytes) where
  abbrev refused : AuthDatabase → Result (StoredResult × AuthDatabase)
  refused saved = ok (rejected_result, saved)

  abbrev sealed : String → RefreshToken → AuthDatabase → Result (StoredResult × AuthDatabase)
  sealed envelope replacement saved = ok (success_result p envelope replacement, saved)

  exchanged :
      (session s' : AuthSession) (db last db' : AuthDatabase) (r : StoredResult)
      (replacement : RefreshToken) (envelope : String) (f : Found hash db session)
      → Turned session s' f.token replacement
      → is_used f.token ≡ false
      → save s' db ≡ ok last
      → sealed envelope replacement last ≡ ok (r, db')
      → Presented hash db r db'
  exchanged session s' db last db' r replacement envelope f turn unused saves h =
      let same : last ≡ db' = ground (arith, h) in
      let made : r ≡ success_result p envelope replacement = ground (arith, h) in
      record {
        session = session;
        found = f;
        written = s';
        token = turn.used;
        saved = subst (Saved s' turn.used db) same (
            save-Saved s' turn.used f.token db last saves turn.presented
              (first-In (has_hash hash) f.token db.tokens f.stored).0 turn.same_token turn.same_hash
              (λ _. turn.spent));
        same_session = turn.same_id;
        same_token = turn.same_token;
        same_hash = turn.same_hash;
        end = inr (ap (λ (x : StoredResult). x.result_type) made, unused, turn.spent);
      }

  from_asked :
      (session s s' : AuthSession) (t r : RefreshToken)
      → Asked session s true t
      → Turned s s' t r
      → Turned session s' t r
  from_asked session s s' t r a turn = record {
    used = turn.used;
    presented = turn.presented;
    replaced = turn.replaced;
    same_id = turn.same_id ∙ a.same_id;
    same_token = turn.same_token;
    same_hash = turn.same_hash;
    spent = turn.spent;
  }

  exchange-Presented :
      (u : User) (session s : AuthSession) (db db' : AuthDatabase) (r : StoredResult)
      (f : Found hash db session)
      → Asked session s true f.token
      → exchange g p idle_ttl i request_hash now draw token_id u s db ≡ ok (r, db')
      → Presented hash db r db'
  unfolding exchange
  exchange-Presented u session s db db' r f a h =
      let rest = λ (issued : IssuedTokenPair).
        rotate now idle_ttl issued.refresh_digest token_id s >>= λ (replacement, turned).
        save turned db >>= λ saved.
        p.protect (p.dump_pair issued.pair) (p.replay_aad i request_hash success_type 1)
        >>= λ envelope. sealed envelope replacement saved in
      let (issued, _, h1) = >>=-ok (issue g draw u now) rest (r, db') h in
      let stored = λ (x : RefreshToken × AuthSession). save x.1 db >>= λ saved.
      p.protect (p.dump_pair issued.pair) (p.replay_aad i request_hash success_type 1)
      >>= λ envelope. sealed envelope x.0 saved in
      let ((replacement, s'), rotates, h2) =
        >>=-ok (rotate now idle_ttl issued.refresh_digest token_id s) stored (r, db') h1 in
      let protects = λ (saved : AuthDatabase).
        p.protect (p.dump_pair issued.pair) (p.replay_aad i request_hash success_type 1)
        >>= λ envelope. sealed envelope replacement saved in
      let (last, saves, h3) = >>=-ok (save s' db) protects (r, db') h2 in
      let result = λ (envelope : String). sealed envelope replacement last in
      let (envelope, _, h4) =
        >>=-ok (p.protect (p.dump_pair issued.pair) (p.replay_aad i request_hash success_type 1))
          result (r, db') h3 in
      exchanged session s' db last db' r replacement envelope f
        (from_asked session s s' f.token replacement a (
          turned now idle_ttl issued.refresh_digest token_id s s' f.token replacement
            (a.presented ∙ f.presented) rotates))
        (a.unused refl) saves h4

  refuse-Presented :
      (session s : AuthSession) (db db' : AuthDatabase) (r : StoredResult)
      (f : Found hash db session)
      → Asked session s false f.token
      → (save s db >>= refused) ≡ ok (r, db')
      → Presented hash db r db'
  refuse-Presented session s db db' r f a h =
      let (last, saves, h1) = >>=-ok (save s db) refused (r, db') h in
      let same : last ≡ db' = ground (arith, h1) in
      record {
        session = session;
        found = f;
        written = s;
        token = f.token;
        saved = subst (Saved s f.token db) same (
            save-Saved s f.token f.token db last saves (a.presented ∙ f.presented)
              (first-In (has_hash hash) f.token db.tokens f.stored).0 refl refl (λ e. e));
        same_session = a.same_id;
        same_token = refl;
        same_hash = refl;
        end = inl (ground (arith, h1), a.refused refl);
      }

  decide-Presented :
      (user : Option User) (session s : AuthSession) (accepted : Bool) (db db' : AuthDatabase)
      (r : StoredResult) (f : Found hash db session)
      → Asked session s accepted f.token
      → (if accepted
          then exchange_by g p idle_ttl i request_hash now draw token_id user s db
          else save s db >>= refused)
        ≡ ok (r, db')
      → Presented hash db r db'
  unfolding exchange_by
  decide-Presented user session s false db db' r f a h = refuse-Presented session s db db' r f a h
  decide-Presented (some u) session s true db db' r f a h =
      exchange-Presented u session s db db' r f a h
  decide-Presented none session s true db db' r f a h = absurd (ground arith)

  present-Presented :
      (user : Option User) (session : AuthSession) (db db' : AuthDatabase) (r : StoredResult)
      → Found hash db session
      → present g p idle_ttl i request_hash now draw token_id user session db ≡ ok (r, db')
      → Presented hash db r db'
  unfolding present
  present-Presented user session db db' r f h =
      let next = λ (x : Bool × AuthSession).
        if x.0
        then exchange_by g p idle_ttl i request_hash now draw token_id user x.1 db
        else save x.1 db >>= refused in
      let ((accepted, s), asks, rest) =
        >>=-ok (accepts_refresh now (may_authenticate user) session) next (r, db') h in
      decide-Presented user session s accepted db db' r f
        (asked now (may_authenticate user) accepted session s f.token f.presented asks) rest

  found-Presented :
      (o : Option AuthSession) (db db' : AuthDatabase) (r : StoredResult)
      → get_by_refresh_hash_for_update hash db ≡ ok o
      → present_found g p idle_ttl i request_hash now draw token_id o db ≡ ok (r, db')
      → Presented hash db r db'
  unfolding present_found
  found-Presented none db db' r finds h = absurd (ground arith)
  found-Presented (some s) db db' r finds h =
      let next =
        λ (user : Option User). present g p idle_ttl i request_hash now draw token_id user s db in
      let (user, _, rest) = >>=-ok (load_user g.texts (has_user s.user_id) db) next (r, db') h in
      present-Presented user s db db' r (get-Found hash db s finds) rest

module _ (g : Issuer) (p : Protector) (idle_ttl : ℤ) (i : IdempotencyIdentity)
    (request_hash : Bytes) (now : DateTime) (draw token_id : ℕ) where
  pub refresh-Presented :
      (raw_token : String) (db db' : AuthDatabase) (r : StoredResult)
      → refresh_operation g p idle_ttl i request_hash now draw token_id raw_token db ≡ ok (r, db')
      → Presented (g.digest raw_token) db r db'
  unfolding refresh_operation
  refresh-Presented raw_token db db' r h =
      let hash = g.digest raw_token in
      let next = λ (o : Option AuthSession).
        present_found g p idle_ttl i request_hash now draw token_id o db in
      let (o, finds, rest) = >>=-ok (get_by_refresh_hash_for_update hash db) next (r, db') h in
      found-Presented g p idle_ttl i request_hash now draw token_id hash o db db' r finds rest
