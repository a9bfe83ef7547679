-- ===== src/Outbox/System.antt =====
-- outbox_repository.py: the statements of any number of workers, one after the other.
use andruha_identity_service.Prelude.{ℕ, String, ◌≡◌, Bool, false, ◌&&◌, List, [], str_eq, ◌==◌}
use andruha_identity_service.Errors.{ok}
use andruha_identity_service.Clock.{DateTime}
use andruha_identity_service.Table.{In, exists}
use andruha_identity_service.Outbox.Message.{OutboxMessage, earlier}
use andruha_identity_service.Outbox.Claim.{claim_batch}
use andruha_identity_service.Outbox.Outcome.{
  Event, publish, finalize_published, schedule_retry, quarantine, redrive_quarantined,
  delete_terminal_before,
}

-- `e` has the key of `c` and stands before it.
abbrev pub precedes : OutboxMessage → OutboxMessage → Bool
precedes e c = str_eq e.key c.key && earlier e c

-- The message that `publish` writes.
abbrev pub written : String → Event → List OutboxMessage
written topic e = publish topic e []

-- One committed statement. An event has an identifier of its own, and no message with its key is
-- to stand after it.
pub data Step (rows : List OutboxMessage) : List OutboxMessage → Type 0 where
  publishing :
      (topic : String) (e : Event)
      → exists (λ m. m.id == e.event_id) rows ≡ false
      → ((m n : OutboxMessage) → In m rows → In n (written topic e) → precedes n m ≡ false)
      → Step rows (publish topic e rows)
  claiming :
      (stamp : DateTime) (owner : ℕ) (at expires : DateTime) (limit : ℕ) (locked : ℕ → Bool)
      (batch rows' : List OutboxMessage)
      → claim_batch stamp owner at expires limit locked rows ≡ ok (batch, rows')
      → Step rows rows'
  finalizing :
      (stamp : DateTime) (id owner : ℕ) (at : DateTime)
      → Step rows (finalize_published stamp id owner at rows).1
  retrying :
      (stamp : DateTime) (id owner : ℕ) (at : DateTime) (error_class : String)
      → Step rows (schedule_retry stamp id owner at error_class rows).1
  isolating :
      (stamp : DateTime) (id owner : ℕ) (at : DateTime) (error_class : String)
      → Step rows (quarantine stamp id owner at error_class rows).1
  redriving :
      (stamp : DateTime) (id : ℕ) (at : DateTime)
      → Step rows (redrive_quarantined stamp id at rows).1
  deleting :
      (cutoff : DateTime) (limit : ℕ) (locked : ℕ → Bool) (count : ℕ) (rows' : List OutboxMessage)
      → delete_terminal_before cutoff limit locked rows ≡ ok (count, rows')
      → Step rows rows'

pub data Reach (rows : List OutboxMessage) : List OutboxMessage → Type 0 where
  here : Reach rows rows
  next : {xs ys : List OutboxMessage} → Reach rows xs → Step xs ys → Reach rows ys
