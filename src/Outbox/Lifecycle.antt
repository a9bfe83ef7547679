-- ===== src/Outbox/Lifecycle.antt =====
-- outbox.py, outbox_repository.py: the lifecycle of a message. `HasLifecycle` is the constraint
-- ck_outbox_lifecycle of infrastructure/database/models/outbox.py.
use andruha_identity_service.Prelude.{◌≡◌, ◌↔◌, true, false, none, arith, is_some}
use andruha_identity_service.Errors.{ok}
use andruha_identity_service.Outbox.Message.{
  OutboxStatus, pending, claimed, OutboxMessage, validate_message, naive,
}

abbrev pub LifecycleIn : OutboxStatus → OutboxMessage → Type 0
LifecycleIn pending m =
    (m.claim_token ≡ none) × (m.claim_expires_at ≡ none) × (m.terminal_at ≡ none)
LifecycleIn claimed m =
    (is_some m.claim_token ≡ true) × (is_some m.claim_expires_at ≡ true) × (m.terminal_at ≡ none)
LifecycleIn _ m =
    (m.claim_token ≡ none) × (m.claim_expires_at ≡ none) × (is_some m.terminal_at ≡ true)

abbrev pub HasLifecycle : OutboxMessage → Type 0
HasLifecycle m = LifecycleIn m.status m

-- Every time of the message has an offset.
pub record IsAware (m : OutboxMessage) : Type 0 where
  pub available : m.available_at.aware ≡ true
  pub created : m.created_at.aware ≡ true
  pub expires : naive m.claim_expires_at ≡ false
  pub terminal : naive m.terminal_at ≡ false
  pub updated : naive m.updated_at ≡ false

-- The validators of `OutboxMessage` accept exactly the rows that the table's constraint allows and
-- whose times are all aware, and return them unchanged.
pub validate_message_iff :
    (m n : OutboxMessage) → (validate_message m ≡ ok n) ↔ ((n ≡ m) × HasLifecycle m × IsAware m)
unfolding validate_message
validate_message_iff m n = (
  λ h. (
    ground arith,
    ground arith,
    record {
      available = ground arith;
      created = ground arith;
      expires = ground arith;
      terminal = ground arith;
      updated = ground arith;
    },
  ),
  λ (e, l, a). ground (arith, a.available, a.created, a.expires, a.terminal, a.updated),
)
