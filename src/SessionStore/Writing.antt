-- ===== src/SessionStore/Writing.antt =====
-- What the session repository reads, and what its methods leave in the tables.
use andruha_identity_service.Prelude.{
  ◌≡◌, refl, sym, ap, ◌∙◌, subst, inl, inr, Bool, true, false, not, ◌&&◌, Option, none, some, List,
  [], ◌∷◌, arith, Bool-cases,
}
use andruha_identity_service.Errors.{Result, ok, raise, ◌>>=◌}
use andruha_identity_service.Clock.{Bytes}
use andruha_identity_service.Table.{exists, first, update, In}
use andruha_identity_service.Session.{
  RefreshToken, AuthSession, is_used, validate_token, validate_session,
}
use andruha_identity_service.Session.Valid.{IsValid, validate_session_iff, validate_token_iff}
use andruha_identity_service.SessionStore.{
  SessionRow, AuthDatabase, has_token, has_hash, has_session, to_domain, loaded, row_of, session_of,
  create_token, update_session, update_token, if_present, save, with_token, session_of_token,
  get_by_refresh_hash_for_update,
}
use andruha_identity_service.SessionStore.Sound.{
  Write, changed, added, Writes, none_written, then_written,
}

pub first-In :
    {A : Type 0} (p : A → Bool) (a : A) (xs : List A) → first p xs ≡ some a → In a xs × (p a ≡ true)
first-In p a [] h = absurd (ground arith)
first-In p a (x ∷ xs) h = elim (Bool-cases (p x)) [
  | inl e ↦
      let same : x ≡ a = ground (arith, h, e) in (inl (sym same), subst (λ y. p y ≡ true) same e)
  | inr e ↦ let (m, q) = first-In p a xs (ground (arith, h, e)) in (inr m, q)
]

-- A stored session, as it was read for a hash.
pub record Found (hash : Bytes) (db : AuthDatabase) (s : AuthSession) : Type 0 where
  pub token : RefreshToken
  pub stored : first (has_hash hash) db.tokens ≡ some token
  pub presented : s.refresh_token ≡ some token
  pub alone : s.replacement_token ≡ none
  pub owned : s.id ≡ token.session_id
  pub valid : IsValid s

pub >>=-ok :
    {A B : Type 0} (m : Result A) (f : A → Result B) (b : B)
    → m >>= f ≡ ok b
    → (a : A) × (m ≡ ok a) × (f a ≡ ok b)
>>=-ok (ok a) f b h = (a, refl, h)
>>=-ok (raise e) f b h = absurd (ground arith)

pub to_domain-ok : {A : Type 0} (r : Result A) (a : A) → to_domain r ≡ ok a → r ≡ ok a
to_domain-ok (ok b) a h = h
to_domain-ok (raise e) a h = ground (arith, h)

-- The session that is made of a row and a token.
abbrev pub joined : SessionRow → RefreshToken → AuthSession
joined row t = record (session_of row) { refresh_token = some t }

pub with_token-joined :
    (o : Option SessionRow) (t : RefreshToken) (s : AuthSession)
    → with_token o t ≡ ok (some s)
    → (row : SessionRow) × (o ≡ some row) × (s ≡ joined row t) × IsValid s
unfolding with_token
with_token-joined none t s h = absurd (ground arith)
with_token-joined (some row) t s h =
    let valid = λ (x : AuthSession). validate_session (record x { refresh_token = some t }) in
    let both = validate_session (session_of row) >>= valid in
    let (x, read, same) = >>=-ok (to_domain both) (λ x. ok (some x)) (some s) h in
    let (plain, good, fine) =
      >>=-ok (validate_session (session_of row)) valid x (to_domain-ok both x read) in
    let (eq, _) = (validate_session_iff (session_of row) plain).0 good in
    let (eq', v) = (validate_session_iff (record plain { refresh_token = some t }) x).0 fine in
    let same' : x ≡ s = ground (arith, same) in
    let all : s ≡ joined row t =
      sym same' ∙ eq' ∙ ap (λ (y : AuthSession). record y { refresh_token = some t }) eq in
    (row, refl, all, subst IsValid (sym eq' ∙ same') v)

pub loaded-some :
    (o : Option RefreshToken) (t : RefreshToken)
    → loaded validate_token o ≡ ok (some t)
    → o ≡ some t
loaded-some none t read = absurd (ground (arith, read))
loaded-some (some u) t read =
    let (v, made, same) = >>=-ok (to_domain (validate_token u)) (λ b. ok (some b)) (some t) read in
    let (eq, _) = (validate_token_iff u v).0 (to_domain-ok (validate_token u) v made) in
    ap some (sym eq ∙ ground (arith, same))

pub get-Found :
    (hash : Bytes) (db : AuthDatabase) (s : AuthSession)
    → get_by_refresh_hash_for_update hash db ≡ ok (some s)
    → Found hash db s
unfolding get_by_refresh_hash_for_update session_of_token
get-Found hash db s h =
    let tokens = loaded validate_token (first (has_hash hash) db.tokens) in
    let (o, read, joins) = >>=-ok tokens (session_of_token db) (some s) h in found o read joins
  where
    not_found : Path (Result (Option AuthSession)) (ok none) (ok (some s)) → ⊥
    not_found e = ground arith

    found :
        (o : Option RefreshToken)
        → loaded validate_token (first (has_hash hash) db.tokens) ≡ ok o
        → session_of_token db o ≡ ok (some s)
        → Found hash db s
    found none read joins = absurd (not_found joins)
    found (some t) read joins =
        let (row, there, eq, valid) =
          with_token-joined (first (has_session t.session_id) db.sessions) t s joins in
        let (_, named) = first-In (has_session t.session_id) row db.sessions there in
        record {
          token = t;
          stored = loaded-some (first (has_hash hash) db.tokens) t read;
          presented = ap (λ (x : AuthSession). x.refresh_token) eq;
          alone = ap (λ (x : AuthSession). x.replacement_token) eq;
          owned = ap (λ (x : AuthSession). x.id) eq ∙ ground (arith, named);
          valid = valid;
        }

create_token-ok :
    (t : RefreshToken) (db db' : AuthDatabase)
    → create_token t db ≡ ok db'
    → (db' ≡ record db { tokens = t ∷ db.tokens })
      × (exists (has_token t.id) db.tokens ≡ false)
      × (exists (λ o. has_hash t.token_hash o && not (has_token t.id o)) db.tokens ≡ false)
unfolding create_token
create_token-ok t db db' h = (ground arith, ground arith, ground arith)

update_token-ok :
    (t : RefreshToken) (db db' : AuthDatabase)
    → update_token t db ≡ ok db'
    → db' ≡ record db { tokens = update (has_token t.id) (λ r. t) db.tokens }
unfolding update_token
update_token-ok t db db' h = ground arith

update_session-ok :
    (s : AuthSession) (db db' : AuthDatabase)
    → update_session s db ≡ ok db'
    → db' ≡ record db { sessions = update (has_session s.id) (λ r. row_of s) db.sessions }
unfolding update_session
update_session-ok s db db' h = ground arith

update_token-Write :
    (t : RefreshToken) (db db' : AuthDatabase) (old : RefreshToken)
    → update_token t db ≡ ok db'
    → In old db.tokens
    → t.id ≡ old.id
    → t.token_hash ≡ old.token_hash
    → (is_used old ≡ true → is_used t ≡ true)
    → Write db.tokens db'.tokens
update_token-Write t db db' old h there id hash used =
    subst (Write db.tokens) (sym (ap (λ (d : AuthDatabase). d.tokens) (update_token-ok t db db' h)))
      (changed old t there id hash used)

pub create_token-Write :
    (t : RefreshToken) (db db' : AuthDatabase)
    → create_token t db ≡ ok db'
    → Write db.tokens db'.tokens
create_token-Write t db db' h =
    let (eq, ids, hashes) = create_token-ok t db db' h in
    subst (Write db.tokens) (sym (ap (λ (d : AuthDatabase). d.tokens) eq)) (added t ids hashes)

-- What `save` leaves of a session that presents the token `t`, read as `old`.
pub record Saved (s : AuthSession) (t : RefreshToken) (db db' : AuthDatabase) : Type 0 where
  pub writes : Writes db.tokens db'.tokens
  pub sessions : db'.sessions ≡ update (has_session s.id) (λ r. row_of s) db.sessions
  pub users : db'.users ≡ db.users
  pub tokens :
      (s.replacement_token ≡ none → db'.tokens ≡ update (has_token t.id) (λ r. t) db.tokens)
      × ((r : RefreshToken)
          → s.replacement_token ≡ some r
          → db'.tokens ≡ r ∷ update (has_token t.id) (λ r. t) db.tokens)

with_replacement :
    (s : AuthSession) (t : RefreshToken) (db last db' : AuthDatabase) (o : Option RefreshToken)
    → s.replacement_token ≡ o
    → Saved (record s { replacement_token = none }) t db last
    → if_present create_token o last ≡ ok db'
    → Saved s t db db'
with_replacement s t db last db' none e l h =
    let same : last ≡ db' = ground (arith, h) in
    subst (Saved s t db) same (record {
      writes = l.writes;
      sessions = l.sessions;
      users = l.users;
      tokens = (λ _. l.tokens.0 refl, λ r m. absurd (ground (arith, m, e)));
    })
with_replacement s t db last db' (some r) e l h =
    let (eq, _, _) = create_token-ok r last db' h in
    record {
      writes = then_written l.writes (create_token-Write r last db' h);
      sessions = ap (λ (d : AuthDatabase). d.sessions) eq ∙ l.sessions;
      users = ap (λ (d : AuthDatabase). d.users) eq ∙ l.users;
      tokens = (
        (λ m. absurd (ground (arith, m, e))),
        (λ r' m.
            ap (λ (d : AuthDatabase). d.tokens) eq
            ∙ ap (λ xs. r ∷ xs) (l.tokens.0 refl)
            ∙ ap (λ x. x ∷ update (has_token t.id) (λ r. t) db.tokens) (ground (arith, m, e))),
      );
    }

pub save-Saved :
    (s : AuthSession) (t old : RefreshToken) (db db' : AuthDatabase)
    → save s db ≡ ok db'
    → s.refresh_token ≡ some t
    → In old db.tokens
    → t.id ≡ old.id
    → t.token_hash ≡ old.token_hash
    → (is_used old ≡ true → is_used t ≡ true)
    → Saved s t db db'
unfolding save
save-Saved s t old db db' h presented there id hash used =
    let (mid, first_write, rest) =
      >>=-ok (update_session s db)
        (λ d. if_present update_token s.refresh_token d >>= λ e.
          if_present create_token s.replacement_token e)
        db' h in
    let (last, second_write, third) =
      >>=-ok (if_present update_token s.refresh_token mid)
        (λ e. if_present create_token s.replacement_token e) db' rest in
    let second : update_token t mid ≡ ok last =
      subst (λ o. if_present update_token o mid ≡ ok last) presented second_write in
    let one = update_session-ok s db mid first_write in
    let two = update_token-ok t mid last second in
    let tokens_then : last.tokens ≡ update (has_token t.id) (λ r. t) db.tokens =
      ap (λ (d : AuthDatabase). d.tokens) two
      ∙ ap (λ (d : AuthDatabase). update (has_token t.id) (λ r. t) d.tokens) one in
    let w =
      subst (λ xs. Write xs last.tokens) (ap (λ (d : AuthDatabase). d.tokens) one)
        (update_token-Write t mid last old second
          (subst (λ (d : AuthDatabase). In old d.tokens) (sym one) there) id hash used) in
    let wrote : Writes db.tokens last.tokens = then_written none_written w in
    let sessions_then : last.sessions ≡ update (has_session s.id) (λ r. row_of s) db.sessions =
      ap (λ (d : AuthDatabase). d.sessions) two ∙ ap (λ (d : AuthDatabase). d.sessions) one in
    let users_then : last.users ≡ db.users =
      ap (λ (d : AuthDatabase). d.users) two ∙ ap (λ (d : AuthDatabase). d.users) one in
    let last_saved : Saved (record s { replacement_token = none }) t db last = record {
      writes = wrote;
      sessions = sessions_then;
      users = users_then;
      tokens = (λ e. tokens_then, λ r e. absurd (ground (arith, e)));
    } in
    with_replacement s t db last db' s.replacement_token refl last_saved third
