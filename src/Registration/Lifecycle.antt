-- ===== src/Registration/Lifecycle.antt =====
-- registration.py, registration_operation_repository.py: the lifecycle of an operation.
-- `HasLifecycle` is the constraint ck_registration_operations_lifecycle of
-- infrastructure/database/models/registration_operations.py.
use andruha_identity_service.Prelude.{
  String, ◌≡◌, ◌↔◌, inl, inr, true, false, none, some, arith, is_some, Option-cases,
}
use andruha_identity_service.Errors.{ok}
use andruha_identity_service.Accounts.{Texts, normalized_email}
use andruha_identity_service.Registration.Operation.{
  RegistrationStatus, pending, claimed, completed, blocked, RegistrationOperation,
  validate_operation, naive,
}

abbrev pub LifecycleIn : RegistrationStatus → RegistrationOperation → Type 0
LifecycleIn pending o =
    (is_some o.password_hash ≡ true)
    × (o.claim_token ≡ none)
    × (o.claim_expires_at ≡ none)
    × (o.terminal_at ≡ none)
LifecycleIn claimed o =
    (is_some o.password_hash ≡ true)
    × (is_some o.claim_token ≡ true)
    × (is_some o.claim_expires_at ≡ true)
    × (o.terminal_at ≡ none)
LifecycleIn completed o =
    (o.password_hash ≡ none)
    × (o.claim_token ≡ none)
    × (o.claim_expires_at ≡ none)
    × (is_some o.terminal_at ≡ true)
LifecycleIn blocked o =
    (is_some o.password_hash ≡ true)
    × (o.claim_token ≡ none)
    × (o.claim_expires_at ≡ none)
    × (is_some o.terminal_at ≡ true)

abbrev pub HasLifecycle : RegistrationOperation → Type 0
HasLifecycle o = LifecycleIn o.status o

-- The key hash has 32 bytes, and every time of the operation has an offset.
pub record IsWellFormed (o : RegistrationOperation) : Type 0 where
  pub key_hash : o.key_hash.size ≡ 32
  pub available : o.available_at.aware ≡ true
  pub created : o.created_at.aware ≡ true
  pub expires : naive o.claim_expires_at ≡ false
  pub terminal : naive o.terminal_at ≡ false
  pub updated : naive o.updated_at ≡ false

-- The email in the one form in which emails are compared.
abbrev pub Normalized : Texts → String → String → Type 0
Normalized x text email =
    (valid : String) × (x.email_str text ≡ some valid) × (email ≡ x.casefold valid)

pub normalized_email-Normalized :
    (x : Texts) (text email : String) → normalized_email x text ≡ ok email → Normalized x text email
unfolding normalized_email
normalized_email-Normalized x text email h = elim (Option-cases (x.email_str text)) [
  | inl none_valid ↦ absurd (ground arith)
  | inr (valid, e) ↦ (valid, e, ground arith)
]

Normalized-normalized_email :
    (x : Texts) (text email : String) → Normalized x text email → normalized_email x text ≡ ok email
unfolding normalized_email
Normalized-normalized_email x text email (valid, e, f) = ground arith

-- The validators of `RegistrationOperation` accept exactly the rows whose email is a valid one, that
-- the table's lifecycle constraint allows, whose key hash has 32 bytes and whose times are all
-- aware; they put the casefolded email in its place, and change nothing else.
pub validate_operation_iff :
    (x : Texts) (o n : RegistrationOperation)
    → (validate_operation x o ≡ ok n) ↔ (
        (email : String) × Normalized x o.email email
        × (n ≡ record o { email = email })
        × HasLifecycle o
        × IsWellFormed o)
unfolding validate_operation
validate_operation_iff x o n = (
  λ h. (
    n.email,
    normalized_email-Normalized x o.email n.email (ground arith),
    ground arith,
    ground arith,
    record {
      key_hash = ground arith;
      available = ground arith;
      created = ground arith;
      expires = ground arith;
      terminal = ground arith;
      updated = ground arith;
    },
  ),
  λ (email, v, e, l, a). ground (
    arith,
    Normalized-normalized_email x o.email email v,
    a.key_hash,
    a.available,
    a.created,
    a.expires,
    a.terminal,
    a.updated,
  ),
)
