-- ===== src/Auth/Opening.antt =====
-- application/use_cases/login/handler.py: what the transaction that opens a session has done when it
-- does not raise.
use andruha_identity_service.Prelude.{
  ℕ, String, ◌≡◌, refl, sym, ap, ◌∙◌, subst, Bool, true, not, Option, none, some, ◌∷◌, arith,
}
use andruha_identity_service.Errors.{Result, ok, raise_if, ◌>>=◌, invalid_credentials}
use andruha_identity_service.UnitOfWork.{World}
use andruha_identity_service.Clock.{ℤ}
use andruha_identity_service.Table.{In, first}
use andruha_identity_service.Accounts.{Texts, User, validate_user}
use andruha_identity_service.Session.{AuthSession, RefreshToken, start}
use andruha_identity_service.SessionStore.{
  AuthDatabase, has_user, to_domain, loaded, load_user, if_present, row_of, create_session,
  create_token, create,
}
use andruha_identity_service.SessionStore.Writing.{>>=-ok, first-In, to_domain-ok}
use andruha_identity_service.Auth.Tokens.{TokenPair, IssuedTokenPair, Issuer, issue, Hasher}
use andruha_identity_service.Auth.Login.{same_account, open_for, open_session}

validate_user-same :
    (x : Texts) (u v : User) → validate_user x u ≡ ok v → v ≡ record u { email = v.email }
unfolding validate_user
validate_user-same x u v h = ground arith

pub loaded-In :
    (x : Texts) (test : User → Bool) (db : AuthDatabase) (u : User)
    → load_user x test db ≡ ok (some u)
    → (row : User) × In row db.users × (test row ≡ true) × (u ≡ record row { email = u.email })
loaded-In x test db u h = read (first test db.users) refl h
  where
    read :
        (o : Option User)
        → first test db.users ≡ o
        → loaded (validate_user x) o ≡ ok (some u)
        → (row : User) × In row db.users × (test row ≡ true) × (u ≡ record row { email = u.email })
    read none e l = absurd (ground (arith, l))
    read (some v) e l =
        let (y, made, same) =
          >>=-ok (to_domain (validate_user x v)) (λ b. ok (some b)) (some u) l in
        let equal : y ≡ u = ground (arith, same) in
        let (there, named) = first-In test v db.users e in
        (
          v,
          there,
          named,
          subst (λ (z : User). z ≡ record v { email = z.email }) equal
              (validate_user-same x v y (to_domain-ok (validate_user x v) y made)),
        )

module _ (w : World AuthDatabase) (g : Issuer) (h : Hasher) (idle_ttl : ℤ)
    (fresh_session fresh_token : ℕ → ℕ) where
  -- An opened session: whose it is, and how it was made and stored.
  pub record Opened (tick user_id : ℕ) (password_hash : String) (pair : TokenPair)
      (db db' : AuthDatabase) : Type 0 where
    pub row : User
    pub stored : In row db.users
    pub named : row.id ≡ user_id
    pub same : same_account password_hash row ≡ true
    pub account : User
    pub read : account.id ≡ row.id
    pub issued : IssuedTokenPair
    pub issues : issue g tick account (w.clock tick) ≡ ok issued
    pub session : AuthSession
    pub starts :
        start
          (fresh_session tick)
          (fresh_token tick)
          account.id
          issued.refresh_digest
          (w.clock tick)
          idle_ttl
        ≡ ok session
    pub creates : create session db ≡ ok db'
    pub answers : pair ≡ issued.pair

  module _ (tick user_id : ℕ) (password_hash : String) (pair : TokenPair)
      (db db' : AuthDatabase) where
    abbrev answered : IssuedTokenPair → AuthDatabase → Result (TokenPair × AuthDatabase)
    answered issued created = ok (issued.pair, created)

    open_for-Opened :
        (u row : User)
        → In row db.users
        → row.id ≡ user_id
        → u ≡ record row { email = u.email }
        → open_for w g h idle_ttl fresh_session fresh_token tick password_hash (some u) db
          ≡ ok (pair, db')
        → Opened tick user_id password_hash pair db db'
    unfolding open_for
    open_for-Opened u row there named read e =
        let body = λ (x : Unit {0}). issue g tick u (w.clock tick) >>= λ issued.
        start (fresh_session tick) (fresh_token tick) u.id issued.refresh_digest (w.clock tick)
          idle_ttl
        >>= λ s. create s db >>= λ created. answered issued created in
        let (_, tested, e1) =
          >>=-ok (raise_if (not (same_account password_hash u)) invalid_credentials) body
            (pair, db') e in
        let starting = λ (issued : IssuedTokenPair).
          start (fresh_session tick) (fresh_token tick) u.id issued.refresh_digest (w.clock tick)
            idle_ttl
          >>= λ s. create s db >>= λ created. answered issued created in
        let (issued, issues, e2) = >>=-ok (issue g tick u (w.clock tick)) starting (pair, db') e1 in
        let creating = λ (s : AuthSession). create s db >>= λ created. answered issued created in
        let (s, starts, e3) =
          >>=-ok
            (start (fresh_session tick) (fresh_token tick) u.id issued.refresh_digest (w.clock tick)
              idle_ttl)
            creating (pair, db') e2 in
        let (last, creates, e4) = >>=-ok (create s db) (answered issued) (pair, db') e3 in
        record {
          row = row;
          stored = there;
          named = named;
          same = sym (ap (same_account password_hash) read) ∙ ground (arith, tested);
          account = u;
          read = ap (λ (y : User). y.id) read;
          issued = issued;
          issues = issues;
          session = s;
          starts = starts;
          creates = creates ∙ ap ok (ground (arith, e4));
          answers = ground (arith, e4);
        }

    pub open_session-Opened :
        open_session w g h idle_ttl fresh_session fresh_token tick user_id password_hash db
          ≡ ok (pair, db')
        → Opened tick user_id password_hash pair db db'
    unfolding open_session open_for
    open_session-Opened e =
        let body = λ (o : Option User).
          open_for w g h idle_ttl fresh_session fresh_token tick password_hash o db in
        let (o, loads, e1) = >>=-ok (load_user g.texts (has_user user_id) db) body (pair, db') e in
        opened o loads e1
      where
        opened :
            (o : Option User)
            → load_user g.texts (has_user user_id) db ≡ ok o
            → open_for w g h idle_ttl fresh_session fresh_token tick password_hash o db
              ≡ ok (pair, db')
            → Opened tick user_id password_hash pair db db'
        opened none loads e1 = absurd (ground (arith, e1))
        opened (some u) loads e1 =
            let (row, there, named, read) = loaded-In g.texts (has_user user_id) db u loads in
            open_for-Opened u row there (ground (arith, named)) read e1

pub create-adds :
    (s : AuthSession) (t : RefreshToken) (db db' : AuthDatabase)
    → s.refresh_token ≡ some t
    → create s db ≡ ok db'
    → (db'.sessions ≡ row_of s ∷ db.sessions)
      × (db'.tokens ≡ t ∷ db.tokens)
      × (db'.users ≡ db.users)
unfolding create create_session create_token
create-adds s t db db' p h =
    let (mid, first_write, second_write) =
      >>=-ok (create_session s db) (if_present create_token s.refresh_token) db' h in
    let second : create_token t mid ≡ ok db' =
      subst (λ o. if_present create_token o mid ≡ ok db') p second_write in
    let one : mid ≡ record db { sessions = row_of s ∷ db.sessions } = ground (arith, first_write) in
    let two : db' ≡ record mid { tokens = t ∷ mid.tokens } = ground (arith, second) in
    (
      ap (λ (d : AuthDatabase). d.sessions) two ∙ ap (λ (d : AuthDatabase). d.sessions) one,
      ap (λ (d : AuthDatabase). d.tokens) two ∙ ap (λ (d : AuthDatabase). t ∷ d.tokens) one,
      ap (λ (d : AuthDatabase). d.users) two ∙ ap (λ (d : AuthDatabase). d.users) one,
    )
