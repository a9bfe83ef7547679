-- ===== src/Registration/Registering.antt =====
-- application/use_cases/register/handler.py: who may resume a registration.
use andruha_identity_service.Prelude.{
  ℕ, String, ◌≡◌, refl, ap, ◌∙◌, ◌⊎◌, inl, inr, Bool, true, false, not, Option, none, some, List,
  arith, str_eq, eq_iff, Option-cases, if_cases,
}
use andruha_identity_service.Errors.{Result, ok, raise}
use andruha_identity_service.Clock.{Bytes, same_bytes}
use andruha_identity_service.Table.{In}
use andruha_identity_service.SessionStore.Writing.{first-In}
use andruha_identity_service.Accounts.{User, has_id, get}
use andruha_identity_service.Registration.Operation.{RegistrationOperation, RegistrationResult}
use andruha_identity_service.Registration.Repository.{get_by_key_hash}
use andruha_identity_service.Registration.Completion.{transaction-ok}
use andruha_identity_service.Registration.Resume.{Database, World, Run, transaction}
use andruha_identity_service.Registration.Register.{
  Registrar, and_then, load_by_key, hash_of, stored_hash, resume_existing, answer, existing_or,
  register,
}

and_then-ok :
    {A B : Type 0} (x : Result A × Run) (rest : A → Run → Result B × Run) (b : B) (after : Run)
    → and_then x rest ≡ (ok b, after)
    → (a : A) × (run : Run) × (x ≡ (ok a, run)) × (rest a run ≡ (ok b, after))
and_then-ok (ok a, run) rest b after h = (a, run, refl, h)
and_then-ok (raise e, run) rest b after h = cc

module _ (w : World) (g : Registrar) (topic : String) (max_attempts : ℕ) where
  accepted :
      (o : RegistrationOperation) (verdict : Result Bool) (r : RegistrationResult) (run after : Run)
      → answer w g topic max_attempts o verdict run ≡ (ok r, after)
      → verdict ≡ ok true
  unfolding answer
  accepted o (raise e) r run after h = cc
  accepted o (ok false) r run after h = cc
  accepted o (ok true) r run after h = refl

  verified :
      (o : RegistrationOperation) (email password : String) (r : RegistrationResult)
      (run after : Run)
      → resume_existing w g topic max_attempts o email password run ≡ (ok r, after)
      → (o.email ≡ email)
        × (hash : String) × (verifying : Run) × (stored_hash w g topic max_attempts o run
            ≡ (ok hash, verifying))
        × (g.verify password hash ≡ ok true)
  unfolding resume_existing
  verified o email password r run after h =
      elim (if_cases (λ (x : Result RegistrationResult × Run). x ≡ (ok r, after))
        (not (str_eq o.email email)) h) [
          | inl (_, k) ↦ absurd (ground (arith, k))
          | inr (same, k) ↦
              let (hash, verifying, e, l) =
                and_then-ok (stored_hash w g topic max_attempts o run)
                  (λ hash. answer w g topic max_attempts o (g.verify password hash)) r after k in
              (
                ground (arith, same, eq_iff o.email email),
                hash,
                verifying,
                e,
                accepted o (g.verify password hash) r verifying after l,
              )
        ]

  -- The operation that has the key, in the database as the handler finds it.
  load-In :
      (key_hash : Bytes) (o : RegistrationOperation) (run loaded : Run)
      → load_by_key w g topic max_attempts key_hash run ≡ (ok (some o), loaded)
      → In o (w.others run.tick run.database).operations × (o.key_hash ≡ key_hash)
  unfolding load_by_key get_by_key_hash
  load-In key_hash o run loaded h =
      let db = w.others run.tick run.database in
      let read =
        transaction-ok w (λ (d : Database). ok (get_by_key_hash key_hash d.operations, d)) run
          loaded (some o) h in
      let (there, named) =
        first-In (λ (x : RegistrationOperation). same_bytes x.key_hash key_hash) o db.operations
          (ground (arith, read)) in
      (there, ground (arith, named))

  -- The hash that a password is verified against: that of the operation or, once it is erased, that
  -- of the user whom the operation has created.
  abbrev pub Remembers : RegistrationOperation → List User → String → Type 0
  Remembers o users hash =
      (o.password_hash ≡ some hash)
      ⊎ (o.password_hash ≡ none)
        × (u : User) × In u users
        × (u.id ≡ o.user_id)
        × (u.password_hash ≡ hash)

  hash_of-user :
      (found : Option User) (hash : String) (run verifying : Run)
      → hash_of w g topic max_attempts found run ≡ (ok hash, verifying)
      → (u : User) × (found ≡ some u) × (u.password_hash ≡ hash)
  hash_of-user none hash run verifying h = cc
  hash_of-user (some u) hash run verifying h = (u, refl, ground arith)

  stored_hash-Remembers :
      (o : RegistrationOperation) (hash : String) (run verifying : Run)
      → stored_hash w g topic max_attempts o run ≡ (ok hash, verifying)
      → Remembers o (w.others run.tick run.database).users hash
  unfolding stored_hash get
  stored_hash-Remembers o hash run verifying h = elim (Option-cases o.password_hash) [
    | inr (kept, e) ↦ inl (e ∙ ap some (ground (arith, h, e)))
    | inl e ↦ inr (
        let body : Database → Result (Option User × Database) =
          λ db. ok (get o.user_id db.users, db) in
        let (found, between, reads, answers) =
          and_then-ok (transaction w body run) (hash_of w g topic max_attempts) hash verifying
            (rw e at h) in
        let (u, is_user, same) = hash_of-user found hash between verifying answers in
        let users = (w.others run.tick run.database).users in
        let read = transaction-ok w body run between found reads in
        let (there, named) = first-In (has_id o.user_id) u users (ground (arith, read, is_user)) in
        (e, u, there, ground (arith, named), same))
  ]

  -- When an operation has the key of a registration, the handler answers only to a command with the
  -- email of that operation and a password that verifies against its hash: the hash that the
  -- operation keeps or, once it is erased, that of the user with its user identifier.
  pub register-known_key :
      (email password : String) (key_hash : Bytes) (o : RegistrationOperation)
      (r : RegistrationResult) (run loaded after : Run)
      → load_by_key w g topic max_attempts key_hash run ≡ (ok (some o), loaded)
      → register w g topic max_attempts email password key_hash run ≡ (ok r, after)
      → In o (w.others run.tick run.database).operations
        × (o.key_hash ≡ key_hash)
        × (o.email ≡ email)
        × (hash : String) × Remembers o (w.others loaded.tick loaded.database).users hash
        × (g.verify password hash ≡ ok true)
  unfolding register existing_or
  register-known_key email password key_hash o r run loaded after found h =
      let (there, named) = load-In key_hash o run loaded found in
      let (same_email, hash, verifying, reads, good) =
        verified o email password r loaded after (rw found at h) in
      (there, named, same_email, hash, stored_hash-Remembers o hash loaded verifying reads, good)
