-- ===== src/Outbox/Message.antt =====
-- application/ports/dto/outbox.py: the rows of the outbox and their order. A JSON payload is its
-- text.
use andruha_identity_service.Prelude.{
  ℕ, String, Bool, true, false, not, ◌&&◌, ◌||◌, Option, none, some, ltb, ◌==◌, if◌then◌else◌,
  is_some,
}
use andruha_identity_service.Errors.{Result, ok, raise_if, ◌>>◌, value_error}
use andruha_identity_service.Clock.{DateTime, before}

pub data OutboxStatus : Type 0 where
  pending claimed success quarantined : OutboxStatus

pub data OutboxKind : Type 0 where
  command event : OutboxKind

pub record OutboxMessage : Type 0 where
  pub id : ℕ
  pub kind : OutboxKind
  pub topic : String
  pub key : String
  pub type : String
  pub payload : String
  pub status : OutboxStatus
  pub attempts : ℕ
  pub last_error_class : Option String
  pub available_at : DateTime
  pub claim_token : Option ℕ
  pub claim_expires_at : Option DateTime
  pub terminal_at : Option DateTime
  pub redrive_count : ℕ
  pub created_at : DateTime
  pub updated_at : Option DateTime

abbrev pub is_pending : OutboxStatus → Bool
is_pending pending = true
is_pending _ = false

abbrev pub is_claimed : OutboxStatus → Bool
is_claimed claimed = true
is_claimed _ = false

abbrev pub is_quarantined : OutboxStatus → Bool
is_quarantined quarantined = true
is_quarantined _ = false

abbrev pub is_nonterminal : OutboxStatus → Bool
is_nonterminal pending = true
is_nonterminal claimed = true
is_nonterminal _ = false

abbrev pub naive : Option DateTime → Bool
naive none = false
naive (some t) = not t.aware

-- `OutboxMessage.model_validate`: `validate_lifecycle`, then `validate_entity_timestamps`
unfoldable pub validate_message : OutboxMessage → Result OutboxMessage
validate_message m =
    let has_claim = is_some m.claim_token in
    let has_terminal = is_some m.terminal_at in
    do
      raise_if (not m.available_at.aware) value_error
      raise_if (naive m.claim_expires_at) value_error
      raise_if (naive m.terminal_at) value_error
      raise_if (if has_claim then not (is_some m.claim_expires_at) else is_some m.claim_expires_at)
          value_error
      raise_if (if is_claimed m.status then not has_claim || has_terminal else has_claim)
          value_error
      raise_if (if is_nonterminal m.status then has_terminal else not has_terminal) value_error
      raise_if (not m.created_at.aware) value_error
      raise_if (naive m.updated_at) value_error
      ok m

-- (created_at, id) of `a` is below that of `b`.
unfoldable pub earlier : OutboxMessage → OutboxMessage → Bool
earlier a b =
    before a.created_at b.created_at
    || (a.created_at.instant == b.created_at.instant && ltb a.id b.id)
