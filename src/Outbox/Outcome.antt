-- ===== src/Outbox/Outcome.antt =====
-- infrastructure/database/repositories/outbox_repository.py: every method but `claim_batch`. Each is
-- one SQL statement on the table; `stamp` is what `func.now()` is in its transaction, the new
-- `updated_at` of each row that an UPDATE writes (models/base.py).
use andruha_identity_service.Prelude.{
  ℕ, ◌+◌, String, Bool, false, not, ◌&&◌, ◌||◌, Option, none, some, List, ◌∷◌, str_eq, ltb, leb,
  ◌==◌, holds, length, take,
}
use andruha_identity_service.Errors.{Result, ok, raise_if, ◌>>◌, value_error}
use andruha_identity_service.Clock.{DateTime, before}
use andruha_identity_service.Table.{exists, select, update, delete, order_by}
use andruha_identity_service.Outbox.Message.{
  pending, success, quarantined, event, OutboxMessage, is_claimed, is_quarantined, is_nonterminal,
  earlier,
}

-- An integration event, as `publish` reads it.
pub record Event : Type 0 where
  pub event_id : ℕ
  pub partition_key : String
  pub event_type : String
  pub envelope : String
  pub occurred_at : DateTime

-- `publish`
unfoldable pub publish : String → Event → List OutboxMessage → List OutboxMessage
publish topic e rows =
    record {
      id = e.event_id;
      kind = event;
      topic = topic;
      key = e.partition_key;
      type = e.event_type;
      payload = e.envelope;
      status = pending;
      attempts = 0;
      last_error_class = none;
      available_at = e.occurred_at;
      claim_token = none;
      claim_expires_at = none;
      terminal_at = none;
      redrive_count = 0;
      created_at = e.occurred_at;
      updated_at = none;
    }
    ∷ rows

-- The WHERE clause of the three outcomes: the row is still claimed by the owner.
unfoldable pub owned : ℕ → ℕ → OutboxMessage → Bool
owned id owner m = m.id == id && (is_claimed m.status && holds m.claim_token owner)

abbrev pub finalized : DateTime → DateTime → OutboxMessage → OutboxMessage
finalized stamp at m = record m {
  status = success;
  attempts = m.attempts + 1;
  last_error_class = none;
  claim_token = none;
  claim_expires_at = none;
  terminal_at = some at;
  updated_at = some stamp;
}

-- `finalize_published`
unfoldable pub finalize_published :
    DateTime → ℕ → ℕ → DateTime → List OutboxMessage → Bool × List OutboxMessage
finalize_published stamp id owner at rows =
    (exists (owned id owner) rows, update (owned id owner) (finalized stamp at) rows)

abbrev pub rescheduled : DateTime → DateTime → String → OutboxMessage → OutboxMessage
rescheduled stamp available_at error_class m = record m {
  status = pending;
  attempts = m.attempts + 1;
  last_error_class = some error_class;
  available_at = available_at;
  claim_token = none;
  claim_expires_at = none;
  terminal_at = none;
  updated_at = some stamp;
}

-- `schedule_retry`
unfoldable pub schedule_retry :
    DateTime → ℕ → ℕ → DateTime → String → List OutboxMessage → Bool × List OutboxMessage
schedule_retry stamp id owner available_at error_class rows = (
  exists (owned id owner) rows,
  update (owned id owner) (rescheduled stamp available_at error_class) rows,
)

abbrev pub isolated : DateTime → DateTime → String → OutboxMessage → OutboxMessage
isolated stamp at error_class m = record m {
  status = quarantined;
  attempts = m.attempts + 1;
  last_error_class = some error_class;
  claim_token = none;
  claim_expires_at = none;
  terminal_at = some at;
  updated_at = some stamp;
}

-- `quarantine`
unfoldable pub quarantine :
    DateTime → ℕ → ℕ → DateTime → String → List OutboxMessage → Bool × List OutboxMessage
quarantine stamp id owner at error_class rows =
    (exists (owned id owner) rows, update (owned id owner) (isolated stamp at error_class) rows)

-- `later_exists` of `redrive_quarantined`
unfoldable pub later_exists : ℕ → List OutboxMessage → Bool
unfolding earlier
later_exists id rows =
    exists
      (λ target.
        target.id == id
        && exists (λ later. str_eq later.key target.key && earlier target later) rows)
      rows

unfoldable pub redrivable : ℕ → List OutboxMessage → OutboxMessage → Bool
unfolding later_exists
redrivable id rows m = m.id == id && (is_quarantined m.status && not (later_exists id rows))

abbrev pub redriven : DateTime → DateTime → OutboxMessage → OutboxMessage
redriven stamp available_at m = record m {
  status = pending;
  attempts = 0;
  last_error_class = none;
  available_at = available_at;
  claim_token = none;
  claim_expires_at = none;
  terminal_at = none;
  redrive_count = m.redrive_count + 1;
  updated_at = some stamp;
}

-- `redrive_quarantined`
unfoldable pub redrive_quarantined :
    DateTime → ℕ → DateTime → List OutboxMessage → Bool × List OutboxMessage
unfolding redrivable
redrive_quarantined stamp id available_at rows = (
  exists (redrivable id rows) rows,
  update (redrivable id rows) (redriven stamp available_at) rows,
)

abbrev terminal_before : DateTime → Option DateTime → Bool
terminal_before cutoff none = false
terminal_before cutoff (some t) = before t cutoff

abbrev terminal_key : Option DateTime → ℕ
terminal_key none = 0
terminal_key (some t) = t.instant

-- ORDER BY terminal_at, created_at, id
abbrev terminal_order : OutboxMessage → OutboxMessage → Bool
unfolding earlier
terminal_order a b =
    ltb (terminal_key a.terminal_at) (terminal_key b.terminal_at)
    || (terminal_key a.terminal_at == terminal_key b.terminal_at && earlier a b)

unfoldable pub expired_terminal : DateTime → (ℕ → Bool) → OutboxMessage → Bool
expired_terminal cutoff locked m =
    not (is_nonterminal m.status) && (terminal_before cutoff m.terminal_at && not (locked m.id))

unfoldable pub removable : DateTime → ℕ → (ℕ → Bool) → List OutboxMessage → OutboxMessage → Bool
unfolding terminal_order expired_terminal earlier
removable cutoff limit locked rows m =
    exists (λ c. c.id == m.id)
      (take limit (order_by terminal_order (select (expired_terminal cutoff locked) rows)))

-- `delete_terminal_before`: how many rows were deleted, and the table
unfoldable pub delete_terminal_before :
    DateTime → ℕ → (ℕ → Bool) → List OutboxMessage → Result (ℕ × List OutboxMessage)
unfolding removable
delete_terminal_before cutoff limit locked rows = do
  raise_if (leb limit 0) value_error
  ok (
    length (select (removable cutoff limit locked rows) rows),
    delete (removable cutoff limit locked rows) rows,
  )
