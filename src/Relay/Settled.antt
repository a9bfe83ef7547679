-- ===== src/Relay/Settled.antt =====
-- relay.py: how a message is to stand after the worker has published it, said by the broker's answer.
use andruha_identity_service.Prelude.{
  ℕ, ◌+◌, ◌≤◌, ◌<◌, ◌≡◌, refl, ◌⊎◌, inl, inr, true, false, none, some, arith, leb, if_ind,
}
use andruha_identity_service.Errors.{
  Error, ok, raise, permanent_publish, retry_exhausted, class_name, is_permanent_publish_error,
  Result-cases,
}
use andruha_identity_service.Clock.{◌+ℤ◌}
use andruha_identity_service.Outbox.Message.{OutboxMessage, pending, success, quarantined}
use andruha_identity_service.Outbox.Fencing.{Settlement, settled}
use andruha_identity_service.Relay.{World}
use andruha_identity_service.Relay.Settling.{settlement}

-- The broker refuses the message for good.
abbrev pub IsPermanent : Error → Type 0
IsPermanent e = (e ≡ permanent_publish) ⊎ (e ≡ retry_exhausted)

-- The row of `m` when it was settled at the `n`th reading of the clock.
pub data Settled (w : World) (max_attempts n : ℕ) (m row : OutboxMessage) : Type 0 where
  delivered :
      w.publish m ≡ ok tt
      → row ≡ record m {
        status = success;
        attempts = m.attempts + 1;
        last_error_class = none;
        claim_token = none;
        claim_expires_at = none;
        terminal_at = some (w.clock n);
        updated_at = some (w.database_now n);
      }
      → Settled w max_attempts n m row
  refused :
      (e : Error)
      → w.publish m ≡ raise e
      → IsPermanent e
      → row ≡ record m {
        status = quarantined;
        attempts = m.attempts + 1;
        last_error_class = some (class_name e);
        claim_token = none;
        claim_expires_at = none;
        terminal_at = some (w.clock n);
        updated_at = some (w.database_now n);
      }
      → Settled w max_attempts n m row
  exhausted :
      (e : Error)
      → w.publish m ≡ raise e
      → (IsPermanent e → ⊥)
      → max_attempts ≤ m.attempts + 1
      → row ≡ record m {
        status = quarantined;
        attempts = m.attempts + 1;
        last_error_class = some "RetryExhaustedError";
        claim_token = none;
        claim_expires_at = none;
        terminal_at = some (w.clock n);
        updated_at = some (w.database_now n);
      }
      → Settled w max_attempts n m row
  deferred :
      (e : Error)
      → w.publish m ≡ raise e
      → (IsPermanent e → ⊥)
      → m.attempts + 1 < max_attempts
      → row ≡ record m {
        status = pending;
        attempts = m.attempts + 1;
        last_error_class = some (class_name e);
        available_at = w.clock n +ℤ w.delay n (m.attempts + 1);
        claim_token = none;
        claim_expires_at = none;
        terminal_at = none;
        updated_at = some (w.database_now n);
      }
      → Settled w max_attempts n m row

is_permanent_publish_error-IsPermanent :
    (e : Error) → is_permanent_publish_error e ≡ true → IsPermanent e
unfolding is_permanent_publish_error
is_permanent_publish_error-IsPermanent permanent_publish h = inl refl
is_permanent_publish_error-IsPermanent retry_exhausted h = inr refl
is_permanent_publish_error-IsPermanent _ h = cc

not_permanent : (e : Error) → is_permanent_publish_error e ≡ false → IsPermanent e → ⊥
unfolding is_permanent_publish_error
not_permanent e h (inl p) = ground (arith, h, p)
not_permanent e h (inr p) = ground (arith, h, p)

module _ (w : World) (max_attempts n : ℕ) (m : OutboxMessage) where
  abbrev Settles : Settlement → Type 0
  Settles s = Settled w max_attempts n m (settled (w.database_now n) s m)

  pub settlement-Settled : Settles (settlement w max_attempts n m)
  unfolding settlement class_name
  settlement-Settled = elim (Result-cases (w.publish m)) [
    | inl (_, e) ↦ rw (settlement, e) (delivered e refl)
    | inr (f, e) ↦
        rw (settlement, e)
          (if_ind Settles (is_permanent_publish_error f)
            (λ p. refused f e (is_permanent_publish_error-IsPermanent f p) refl)
            (λ p.
              if_ind Settles (leb max_attempts (m.attempts + 1))
                (λ q. exhausted f e (not_permanent f p) (ground (arith, q)) refl)
                (λ q. deferred f e (not_permanent f p) (ground (arith, q)) refl)))
  ]
