-- ===== src/Auth/LoggingIn.antt =====
-- application/use_cases/login/handler.py: who gets a session.
use andruha_identity_service.Prelude.{
  ℕ, ◌+◌, String, ◌≡◌, refl, sym, ap, ◌∙◌, subst, Bool, true, false, Option, none, some, ◌∷◌, arith,
}
use andruha_identity_service.Errors.{Result, ok, raise}
use andruha_identity_service.UnitOfWork.{World, Run, transaction, and_then}
use andruha_identity_service.Clock.{ℤ}
use andruha_identity_service.Table.{In}
use andruha_identity_service.Accounts.{User, can_authenticate, has_email}
use andruha_identity_service.Session.{RefreshToken}
use andruha_identity_service.SessionStore.{AuthDatabase, SessionRow, load_user, row_of}
use andruha_identity_service.SessionStore.Writing.{>>=-ok}
use andruha_identity_service.Auth.Tokens.{TokenPair, Issuer, Hasher, verify_or_dummy}
use andruha_identity_service.Auth.Login.{
  LoginCommand, candidate_hash, open_session, verified, login, read_user,
}
use andruha_identity_service.Auth.Opening.{Opened, open_session-Opened, loaded-In, create-adds}
use andruha_identity_service.Auth.Fresh.{
  transaction-ok, start-Fresh, issue-digest, same_account-able,
}

module _ (w : World AuthDatabase) (g : Issuer) (h : Hasher) (idle_ttl : ℤ)
    (fresh_session fresh_token : ℕ → ℕ) where
  -- What a login that reports a pair has seen and written.
  pub record LoggedIn (command : LoginCommand) (run : Run AuthDatabase) (pair : TokenPair)
      (run' : Run AuthDatabase) : Type 0 where
    pub candidate : User
    pub registered : In candidate (w.others run.tick run.state).users
    pub named : has_email command.email candidate ≡ true
    pub verified : h.verify command.password candidate.password_hash ≡ ok true
    pub db : AuthDatabase
    pub later :
        db
        ≡ w.others
            (run.tick + 1)
            (transaction w
              (read_user w g h idle_ttl fresh_session fresh_token command.email)
              run).1.state
    pub account : User
    pub stored : In account db.users
    pub same : account.id ≡ candidate.id
    pub able : can_authenticate account ≡ true
    pub unchanged : account.password_hash ≡ candidate.password_hash
    pub row : SessionRow
    pub token : RefreshToken
    pub sessions : run'.state.sessions ≡ row ∷ db.sessions
    pub tokens : run'.state.tokens ≡ token ∷ db.tokens
    pub users : run'.state.users ≡ db.users
    pub whose : row.user_id ≡ candidate.id
    pub kept : row.revoked_at ≡ none
    pub unused : token.used_at ≡ none
    pub owned : token.session_id ≡ row.id
    pub hashed : token.token_hash ≡ g.digest pair.refresh_token

  module _ (command : LoginCommand) (run : Run AuthDatabase) (pair : TokenPair)
      (run' : Run AuthDatabase) where
    -- The run after the first transaction
    abbrev Sees : Run AuthDatabase → Type 0
    Sees seen = seen ≡ record {
      state =
          (transaction w (read_user w g h idle_ttl fresh_session fresh_token command.email)
            run).1.state;
      tick = run.tick + 1;
    }

    Opened-LoggedIn :
        (candidate : User) (seen : Run AuthDatabase)
        → Sees seen
        → In candidate (w.others run.tick run.state).users
        → has_email command.email candidate ≡ true
        → h.verify command.password candidate.password_hash ≡ ok true
        → Opened w g h idle_ttl fresh_session fresh_token seen.tick candidate.id
            candidate.password_hash pair
            (w.others seen.tick seen.state)
            run'.state
        → LoggedIn command run pair run'
    Opened-LoggedIn candidate seen sees there named verified o =
        let tick = seen.tick in
        let db = w.others tick seen.state in
        let f =
          start-Fresh (fresh_session tick) (fresh_token tick) o.account.id o.issued.refresh_digest
            (w.clock tick) idle_ttl o.session o.starts in
        let (sessions, tokens, users) =
          create-adds o.session f.token db run'.state f.presents o.creates in
        record {
          candidate = candidate;
          registered = there;
          named = named;
          verified = verified;
          db = db;
          later = ap (λ (r : Run AuthDatabase). w.others r.tick r.state) sees;
          account = o.row;
          stored = o.stored;
          same = o.named;
          able = (same_account-able candidate.password_hash o.row o.same).0;
          unchanged = (same_account-able candidate.password_hash o.row o.same).1;
          row = row_of o.session;
          token = f.token;
          sessions = sessions;
          tokens = tokens;
          users = users;
          whose = f.whose ∙ o.read ∙ o.named;
          kept = f.kept;
          unused = f.unused;
          owned = f.owned;
          hashed =
              f.hashed
              ∙ issue-digest g tick o.account (w.clock tick) o.issued o.issues
              ∙ ap (λ (p : TokenPair). g.digest p.refresh_token) (sym o.answers);
        }

    abbrev found_in : Option User → AuthDatabase → Result (Option User × AuthDatabase)
    found_in found db = ok (found, db)

    abbrev Verified : Option User → Option String → Result Bool → Run AuthDatabase → Type 0
    Verified o hash r seen =
        (u : User) × (k : String) × (o ≡ some u)
        × (hash ≡ some k)
        × (r ≡ ok true)
        × (transaction w (open_session w g h idle_ttl fresh_session fresh_token seen.tick u.id k)
              seen
            ≡ (ok pair, run'))

    verified-Verified :
        (o : Option User) (hash : Option String) (r : Result Bool) (seen : Run AuthDatabase)
        → verified w g h idle_ttl fresh_session fresh_token o hash r seen ≡ (ok pair, run')
        → Verified o hash r seen
    unfolding verified
    verified-Verified o hash (raise f) seen e = absurd (ground arith)
    verified-Verified none none (ok b) seen e = absurd (ground arith)
    verified-Verified none (some k) (ok b) seen e = absurd (ground arith)
    verified-Verified (some u) none (ok b) seen e = absurd (ground arith)
    verified-Verified (some u) (some k) (ok false) seen e = absurd (ground arith)
    verified-Verified (some u) (some k) (ok true) seen e = (u, k, refl, refl, refl, e)

    candidate_hash-same :
        (o : Option User) (u : User) (k : String)
        → o ≡ some u
        → candidate_hash o ≡ some k
        → k ≡ u.password_hash
    candidate_hash-same o u k e f = ground (arith, e, f)

    verified-LoggedIn :
        (candidate : Option User) (seen : Run AuthDatabase)
        → Sees seen
        → load_user g.texts (has_email command.email) (w.others run.tick run.state) ≡ ok candidate
        → verified w g h idle_ttl fresh_session fresh_token candidate
            (candidate_hash candidate)
            (verify_or_dummy h command.password (candidate_hash candidate))
            seen
          ≡ (ok pair, run')
        → LoggedIn command run pair run'
    unfolding verify_or_dummy
    verified-LoggedIn candidate seen sees loads e =
        let hash = candidate_hash candidate in
        let (u, k, some_user, some_hash, accepted, opens) =
          verified-Verified candidate hash (verify_or_dummy h command.password hash) seen e in
        let same = candidate_hash-same candidate u k some_user some_hash in
        let (row, there, named, read) =
          loaded-In g.texts (has_email command.email) (w.others run.tick run.state) u
            (loads ∙ ap ok some_user) in
        let db = w.others seen.tick seen.state in
        let body = open_session w g h idle_ttl fresh_session fresh_token seen.tick u.id k in
        let o =
          open_session-Opened w g h idle_ttl fresh_session fresh_token seen.tick u.id k pair db
            run'.state (transaction-ok w body seen run' pair opens) in
        Opened-LoggedIn row seen sees there named
          (subst (λ (y : User). h.verify command.password y.password_hash ≡ ok true) read
            (subst (λ x. h.verify command.password x ≡ ok true) same
              (subst (λ x. verify_or_dummy h command.password x ≡ ok true) some_hash accepted)))
          (subst
            (λ (y : User).
              Opened w g h idle_ttl fresh_session fresh_token seen.tick y.id y.password_hash pair db
                run'.state)
            read
            (subst
              (λ x.
                Opened w g h idle_ttl fresh_session fresh_token seen.tick u.id x pair db run'.state)
              same o))

    -- A login that answers with a pair has verified the password against the hash of the account
    -- with the email, and found this account, with this hash and allowed to authenticate, still in
    -- the database of its second transaction. It adds to that database one session of the account,
    -- not revoked, and one unused token of the session, whose hash is the digest of the refresh
    -- token of the pair, and nothing else.
    pub login-LoggedIn :
        login w g h idle_ttl fresh_session fresh_token command run ≡ (ok pair, run')
        → LoggedIn command run pair run'
    unfolding login transaction
    login-LoggedIn e =
        after (transaction w (read_user w g h idle_ttl fresh_session fresh_token command.email) run)
          refl e
      where
        after :
            (x : Result (Option User) × Run AuthDatabase)
            → transaction w (read_user w g h idle_ttl fresh_session fresh_token command.email) run
              ≡ x
            → and_then x (λ candidate.
              verified w g h idle_ttl fresh_session fresh_token candidate
                (candidate_hash candidate)
                (verify_or_dummy h command.password (candidate_hash candidate)))
              ≡ (ok pair, run')
            → LoggedIn command run pair run'
        after (raise f, seen) reads e = absurd (ground arith)
        after (ok candidate, seen) reads e =
            let body = read_user w g h idle_ttl fresh_session fresh_token command.email in
            let before = w.others run.tick run.state in
            let (o, loads, same) =
              >>=-ok (load_user g.texts (has_email command.email) before)
                (λ found. found_in found before) (candidate, seen.state)
                (transaction-ok w body run seen candidate reads) in
            verified-LoggedIn candidate seen (sym (ap (λ x. x.1) reads))
              (loads ∙ ap ok (ground (arith, same))) e
