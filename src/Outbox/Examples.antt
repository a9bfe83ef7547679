-- ===== src/Outbox/Examples.antt =====
-- Two messages of one key and one of another, claimed by worker 7 at time 10.
use andruha_identity_service.Prelude.{
  ℕ, ◌≤◌, String, ◌≡◌, refl, ◌↔◌, ◌⊎◌, inl, Bool, true, false, none, some, List, [], ◌∷◌, arith,
  length,
}
use andruha_identity_service.Errors.{ok}
use andruha_identity_service.Clock.{DateTime}
use andruha_identity_service.Table.{In, Unique}
use andruha_identity_service.Outbox.Message.{
  pending, claimed, event, OutboxMessage, is_nonterminal, validate_message,
}
use andruha_identity_service.Outbox.Claim.{claim, claim_batch}
use andruha_identity_service.Outbox.Outcome.{Event, publish}
use andruha_identity_service.Outbox.Lifecycle.{HasLifecycle, IsAware, validate_message_iff}
use andruha_identity_service.Outbox.System.{precedes, publishing, claiming, here, next}
use andruha_identity_service.Outbox.Sound.{IsSound, Reach-IsSound}
use andruha_identity_service.Outbox.Batch.{
  IsDue, HasLapsed, claim_batch-eligible, claim_batch-one_per_key, claim_batch-le_limit,
  claim_batch-keeps,
}
use andruha_identity_service.Outbox.Fencing.{settle, settle_once, settle_stale, published, retry}

abbrev pub at : ℕ → DateTime
at t = record { aware = true; instant = t }

abbrev pub free : ℕ → Bool
free id = false

abbrev pub message : ℕ → String → OutboxMessage
message id key = record {
  id = id;
  kind = event;
  topic = "identity";
  key = key;
  type = "identity.user_registered.v1";
  payload = "{}";
  status = pending;
  attempts = 0;
  last_error_class = none;
  available_at = at id;
  claim_token = none;
  claim_expires_at = none;
  terminal_at = none;
  redrive_count = 0;
  created_at = at id;
  updated_at = none;
}

abbrev pub waiting : List OutboxMessage
waiting = message 1 "a" ∷ message 2 "a" ∷ message 3 "b" ∷ []

abbrev pub batch : List OutboxMessage
batch = claim (at 11) 7 (at 40) (message 1 "a") ∷ claim (at 11) 7 (at 40) (message 3 "b") ∷ []

abbrev pub held : List OutboxMessage
held =
    claim (at 11) 7 (at 40) (message 1 "a")
    ∷ message 2 "a"
    ∷ claim (at 11) 7 (at 40) (message 3 "b")
    ∷ []

pub waiting-claim_batch : claim_batch (at 11) 7 (at 10) (at 40) 5 free waiting ≡ ok (batch, held)
unfolding claim_batch
waiting-claim_batch = refl

waiting-Unique : Unique (λ (m : OutboxMessage). m.id) waiting
waiting-Unique = (refl, (refl, (refl, tt)))

-- One message, published and claimed from an empty outbox.
abbrev pub registered : Event
registered = record {
  event_id = 1;
  partition_key = "a";
  event_type = "identity.user_registered.v1";
  envelope = "{}";
  occurred_at = at 1;
}

one-claim_batch :
    claim_batch (at 11) 7 (at 10) (at 40) 5 free (publish "identity" registered [])
    ≡ ok
        (claim (at 11) 7 (at 40) (message 1 "a") ∷ [], claim (at 11) 7 (at 40) (message 1 "a") ∷ [])
unfolding claim_batch publish
one-claim_batch = refl

validate_message_iff_example :
    (validate_message (message 1 "a") ≡ ok (message 1 "a"))
    ↔ ((message 1 "a" ≡ message 1 "a") × HasLifecycle (message 1 "a") × IsAware (message 1 "a"))
validate_message_iff_example = validate_message_iff (message 1 "a") (message 1 "a")

Reach-IsSound_example : IsSound (claim (at 11) 7 (at 40) (message 1 "a") ∷ [])
Reach-IsSound_example = Reach-IsSound (claim (at 11) 7 (at 40) (message 1 "a") ∷ []) (
    next (next here (publishing "identity" registered refl (λ m n i j. absurd i))) (
      claiming (at 11) 7 (at 10) (at 40) 5 free (claim (at 11) 7 (at 40) (message 1 "a") ∷ [])
        (claim (at 11) 7 (at 40) (message 1 "a") ∷ []) one-claim_batch))

claim_batch-eligible_example :
    (r : OutboxMessage) × In r waiting
    × (claim (at 11) 7 (at 40) (message 1 "a") ≡ record r {
      status = claimed;
      claim_token = some 7;
      claim_expires_at = some (at 40);
      terminal_at = none;
      updated_at = some (at 11);
    })
    × (IsDue (at 10) r ⊎ HasLapsed (at 10) r)
    × (free r.id ≡ false)
    × ((e : OutboxMessage) → In e waiting → is_nonterminal e.status ≡ true → precedes e r ≡ false)
claim_batch-eligible_example =
    claim_batch-eligible (at 11) 7 (at 10) (at 40) 5 free waiting batch held waiting-Unique
      waiting-claim_batch (claim (at 11) 7 (at 40) (message 1 "a")) (inl refl)

claim_batch-one_per_key_example :
    claim (at 11) 7 (at 40) (message 1 "a") ≡ claim (at 11) 7 (at 40) (message 1 "a")
claim_batch-one_per_key_example =
    claim_batch-one_per_key (at 11) 7 (at 10) (at 40) 5 free waiting batch held waiting-Unique
      waiting-claim_batch (claim (at 11) 7 (at 40) (message 1 "a"))
      (claim (at 11) 7 (at 40) (message 1 "a")) (inl refl) (inl refl) refl

claim_batch-le_limit_example : length batch ≤ 5
claim_batch-le_limit_example =
    claim_batch-le_limit (at 11) 7 (at 10) (at 40) 5 free waiting batch held waiting-Unique
      waiting-claim_batch

again-claim_batch : claim_batch (at 21) 9 (at 20) (at 50) 5 free held ≡ ok ([], held)
unfolding claim_batch
again-claim_batch = refl

held-live : HasLapsed (at 20) (claim (at 11) 7 (at 40) (message 1 "a")) → ⊥
held-live (claimed_now, until, e, late) = ground (arith, e, late)

held-not_due : IsDue (at 20) (claim (at 11) 7 (at 40) (message 1 "a")) → ⊥
held-not_due (waits, due) = cc

claim_batch-keeps_example : In (claim (at 11) 7 (at 40) (message 1 "a")) held
claim_batch-keeps_example =
    claim_batch-keeps (at 21) 9 (at 20) (at 50) 5 free held [] held (refl, (refl, (refl, tt)))
      again-claim_batch (claim (at 11) 7 (at 40) (message 1 "a")) (inl refl) held-not_due held-live

settle_once_example :
    settle
      (at 31)
      1
      7
      (retry (at 30) "TransientPublishError")
      (settle (at 13) 1 7 (published (at 12)) held).1
    ≡ (false, (settle (at 13) 1 7 (published (at 12)) held).1)
settle_once_example =
    settle_once (at 13) (at 31) 1 7 (published (at 12)) (retry (at 30) "TransientPublishError") held

settle_stale_example : settle (at 13) 1 5 (published (at 12)) held ≡ (false, held)
settle_stale_example =
    settle_stale (at 11) 7 (at 10) (at 40) 5 free waiting batch held waiting-Unique
      waiting-claim_batch (at 13) 5 (claim (at 11) 7 (at 40) (message 1 "a")) (published (at 12))
      (inl refl) (omega arith)
