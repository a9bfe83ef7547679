-- ===== src/Profiles.antt =====
-- infrastructure/http/profile_provisioner.py, on the circuit breaker of Breaker. The answers of the
-- HTTP client, the clock and what other calls do to the breaker come from a `World`; floats are a
-- parameter with their `<`, of which nothing is assumed here, and the reader of a header.
pub mod Attempts
pub mod Answers
pub mod Examples
use andruha_identity_service.Prelude.{
  ℕ, zero, suc, ◌+◌, ◌-◌, ◌*◌, ◌/◌, ◌%◌, ◌≤◌, ◌<◌, min, max, String, ◌≡◌, refl, sym, ap, ◌∙◌, subst,
  ◌≢◌, ◌↔◌, ◌⊎◌, inl, inr, Bool, true, false, not, ◌&&◌, ◌||◌, Option, none, some, List, [], ◌∷◌,
  ◌++◌, map, arith, str_eq, eq_iff, ltb, leb, ◌==◌, if◌then◌else◌, is_some, holds, Bool-cases,
  Option-cases, ==-refl, ltb-of_lt, leb-of_le, if_ind, if_cases, length, take, length-append, All,
  All-append, All-append_left, All-append_right, All-imp,
}
use andruha_identity_service.Errors.{
  Error, Result, ok, raise, provisioning_unavailable, provisioning_rejected,
}
use andruha_identity_service.Breaker.{
  Breaker, Ticket, Admission, rejected, admitted, admit, finish, Outcome, returned, failure,
  refusal,
}

-- What `client.put` ends with: a `TransportError`, another exception, or a response with its status
-- and its `Retry-After`.
pub data Reply : Type 0 where
  transport_error : Reply
  client_error : Error → Reply
  response : (status_code : ℕ) → (retry_after : Option String) → Reply

-- The end of `_put_profile`: it returns, raises a `_ProfileCallError`, or raises another exception.
pub data PutResult (Double : Type 0) : Type 0 where
  stored : PutResult Double
  call_error : (retryable : Bool) → (retry_after_seconds : Option Double) → PutResult Double
  broken : Error → PutResult Double

pub record World : Type 0 where
  pub reply : ℕ → Reply
  pub begun : ℕ → ℕ
  pub ended : ℕ → ℕ
  pub others : ℕ → Breaker → Breaker

-- The breaker, how many requests were sent, and the delays slept, the last one first.
pub record Line (Double : Type 0) : Type 0 where
  pub breaker : Breaker
  pub sent : ℕ
  pub slept : List Double

abbrev is_locked : ℕ → Bool
is_locked code = code == 423 || code == 429

abbrev pub is_retryable : ℕ → Bool
is_retryable code = is_locked code || (code == 500 || (code == 502 || (code == 503 || code == 504)))

-- `_is_profile_dependency_failure`, on the end of a call
abbrev pub call_outcome : {Double : Type 0} → PutResult Double → Outcome
call_outcome stored = returned
call_outcome (call_error true r) = failure
call_outcome (call_error false r) = refusal
call_outcome (broken e) = refusal

module _ {Double : Type 0} (lt : Double → Double → Bool) (zero_seconds : Double)
    (read : String → Option Double) where
  -- Python's `max` and `min`
  abbrev pub max_of : Double → Double → Double
  max_of a b = if lt a b then b else a

  abbrev pub min_of : Double → Double → Double
  min_of a b = if lt b a then b else a

  abbrev read_header : Option String → Option Double
  read_header none = none
  read_header (some text) = elim (read text) [ none ↦ none | some x ↦ some (max_of x zero_seconds) ]

  -- `_put_profile`
  unfoldable pub put_profile : Reply → PutResult Double
  put_profile transport_error = call_error true none
  put_profile (client_error e) = broken e
  put_profile (response code header) =
      if code == 204
      then stored
      else call_error (is_retryable code) (if is_locked code then read_header header else none)

  -- The delay before the second attempt; `x or 0.0` of a float is its value or zero.
  unfoldable pub retry_wait : (delay bound : Double) → Option Double → Double
  retry_wait delay bound none = min_of (max_of delay zero_seconds) bound
  retry_wait delay bound (some x) = min_of (max_of delay x) bound

  module _ (w : World) (delay bound : Double) where
    -- `circuit_breaker.call(self._put_profile, ...)`; `none` is `CircuitBreakerError`.
    abbrev pub admitted_call :
        Line Double → Admission × Breaker → Option (PutResult Double) × Line Double
    admitted_call line (rejected, b) = (none, record line { breaker = b })
    admitted_call line (admitted t, b) =
        let n = line.sent in
        let result = put_profile (w.reply n) in
        (
          some result,
          record line {
            breaker = finish (w.ended n) t (call_outcome result) (w.others n b);
            sent = n + 1;
          },
        )

    unfoldable pub call_put : Line Double → Option (PutResult Double) × Line Double
    unfolding admit finish put_profile
    call_put line = admitted_call line (admit (w.begun line.sent) line.breaker)

    -- What an attempt leads to; `rest` is the next attempt.
    unfoldable pub after_put :
        (last : Bool)
        → (Line Double → Result (Unit {0}) × Line Double)
        → Option (PutResult Double) × Line Double
        → Result (Unit {0}) × Line Double
    unfolding retry_wait
    after_put last rest (none, line) = (raise provisioning_unavailable, line)
    after_put last rest (some stored, line) = (ok tt, line)
    after_put last rest (some (broken e), line) = (raise e, line)
    after_put last rest (some (call_error false r), line) = (raise provisioning_rejected, line)
    after_put true rest (some (call_error true r), line) = (raise provisioning_unavailable, line)
    after_put false rest (some (call_error true r), line) =
        rest (record line { slept = retry_wait delay bound r ∷ line.slept })

    abbrev is_zero : ℕ → Bool
    is_zero zero = true
    is_zero (suc n) = false

    -- The `for` loop of `create_profile`
    unfoldable pub attempts : ℕ → Line Double → Result (Unit {0}) × Line Double
    unfolding call_put after_put
    attempts zero line = (raise provisioning_unavailable, line)
    attempts (suc left) line = after_put (is_zero left) (attempts left) (call_put line)

    -- `create_profile`
    unfoldable pub create_profile :
        (configured : Bool) → Line Double → Result (Unit {0}) × Line Double
    unfolding attempts
    create_profile configured line =
        if not configured then (raise provisioning_unavailable, line) else attempts 2 line
