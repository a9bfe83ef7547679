-- ===== src/Breaker/Behaviour.antt =====
-- circuit_breaker.py: when the circuit opens, refuses, recovers, and which results it ignores.
use andruha_identity_service.Prelude.{
  ℕ, ◌+◌, ◌≤◌, ◌<◌, ◌≡◌, refl, ◌≢◌, ◌⊎◌, true, false, none, some, List, [], ◌∷◌, ◌++◌, arith,
  length,
}
use andruha_identity_service.Breaker.{
  closed, opened, half_open, Breaker, Ticket, rejected, admitted, Outcome, returned, failure,
  refusal, cancelled, admit, finish, call_alone,
}

-- Calls one after the other, each with the times at which it begins and ends, that all fail.
pub failing_calls : List (ℕ × ℕ) → Breaker → Breaker
failing_calls [] b = b
failing_calls ((begun, ended) ∷ times) b = failing_calls times (call_alone begun ended failure b)

call_alone-failure_closed :
    (begun ended : ℕ) (b : Breaker)
    → b.state ≡ closed
    → b.failure_count + 1 < b.fail_max
    → call_alone begun ended failure b ≡ record b { failure_count = b.failure_count + 1 }
unfolding call_alone
call_alone-failure_closed begun ended b st h = ground arith

call_alone-failure_trips :
    (begun ended : ℕ) (b : Breaker)
    → b.state ≡ closed
    → b.failure_count + 1 ≡ b.fail_max
    → ((call_alone begun ended failure b).state ≡ opened)
      × ((call_alone begun ended failure b).opened_at ≡ some ended)
unfolding call_alone
call_alone-failure_trips begun ended b st h = ground arith

failing_calls-closed :
    (times : List (ℕ × ℕ)) (b : Breaker)
    → b.state ≡ closed
    → b.failure_count + length times < b.fail_max
    → failing_calls times b ≡ record b { failure_count = b.failure_count + length times }
unfolding failing_calls
failing_calls-closed [] b st h = ground arith
failing_calls-closed ((begun, ended) ∷ times) b st h =
    rw (call_alone-failure_closed begun ended b st (omega arith)) (
      ground (arith, failing_calls-closed times (record b { failure_count = b.failure_count + 1 })))

failing_calls-snoc :
    (times : List (ℕ × ℕ)) (begun ended : ℕ) (b : Breaker)
    → failing_calls (times ++ (begun, ended) ∷ []) b
      ≡ call_alone begun ended failure (failing_calls times b)
unfolding failing_calls
failing_calls-snoc [] begun ended b = refl
failing_calls-snoc ((x, y) ∷ times) begun ended b =
    failing_calls-snoc times begun ended (call_alone x y failure b)

-- When a closed circuit has `n` failures left before the last one that it bears, and calls fail in
-- a row, at whatever times: after `n` of them it is closed, with the failures counted, and the
-- next one opens it, at the time at which that call ends.
pub failing_calls_trip :
    (times : List (ℕ × ℕ)) (begun ended : ℕ) (b : Breaker)
    → b.state ≡ closed
    → b.failure_count + length times + 1 ≡ b.fail_max
    → (failing_calls times b ≡ record b { failure_count = b.failure_count + length times })
      × ((failing_calls (times ++ (begun, ended) ∷ []) b).state ≡ opened)
      × ((failing_calls (times ++ (begun, ended) ∷ []) b).opened_at ≡ some ended)
failing_calls_trip times begun ended b st h =
    let after = failing_calls-closed times b st (omega arith) in
    let last =
      call_alone-failure_trips begun ended
        (record b { failure_count = b.failure_count + length times }) st (omega arith) in
    (
      after,
      rw (failing_calls-snoc times begun ended b) (rw after last.0),
      rw (failing_calls-snoc times begun ended b) (rw after last.1),
    )

-- The probe of a half-open circuit: every other call is refused, and its end decides. If it returns,
-- or raises an error that does not count as a failure, the circuit is closed with no failures; if
-- it fails, the circuit is open from that time on; if it is cancelled, the next call is let in as
-- another probe.
pub record Decides (t : Ticket) (c : Breaker) : Type 0 where
  pub alone : (later : ℕ) → admit later c ≡ (rejected, c)
  pub returns :
      (end : ℕ)
      → ((finish end t returned c).state ≡ closed) × ((finish end t returned c).failure_count ≡ 0)
  pub refuses :
      (end : ℕ)
      → ((finish end t refusal c).state ≡ closed) × ((finish end t refusal c).failure_count ≡ 0)
  pub fails :
      (end : ℕ)
      → ((finish end t failure c).state ≡ opened) × ((finish end t failure c).opened_at ≡ some end)
  pub cancels :
      (end later : ℕ)
      → (next : Ticket) × (d : Breaker) × (admit later (finish end t cancelled c)
          ≡ (admitted next, d))
        × (next.probe_token ≢ t.probe_token)
        × ((again : ℕ) → admit again d ≡ (rejected, d))

abbrev the_probe : Breaker → Ticket
the_probe b = record { generation = b.generation; probe_token = some b.next_token }

abbrev with_probe : Breaker → Breaker
with_probe b = record b {
  state = half_open;
  probe_in_progress = true;
  probe_token = some b.next_token;
  next_token = b.next_token + 1;
}

with_probe-Decides : (b : Breaker) → Decides (the_probe b) (with_probe b)
unfolding admit finish
with_probe-Decides b = record {
  alone = λ later. ground arith;
  returns = λ end. ground arith;
  refuses = λ end. ground arith;
  fails = λ end. ground arith;
  cancels = λ end later. (
    record { generation = b.generation; probe_token = some (b.next_token + 1) },
    record (with_probe b) { probe_token = some (b.next_token + 1); next_token = b.next_token + 2 },
    ground arith,
    λ e. ground (arith, e),
    λ again. ground arith,
  );
}

-- An open circuit refuses every call before its cooldown is over, and nothing changes. After it,
-- the first call is let in as the probe: every other call is refused until it ends, and its end
-- closes the circuit, opens it again, or, if it is cancelled, leaves it to another probe.
pub opened_then_probe :
    (now at : ℕ) (b : Breaker)
    → b.state ≡ opened
    → b.opened_at ≡ some at
    → b.probe_in_progress ≡ false
    → (now < at + b.recovery_timeout → admit now b ≡ (rejected, b))
      × (at + b.recovery_timeout ≤ now
          → (t : Ticket) × (c : Breaker) × (admit now b ≡ (admitted t, c)) × Decides t c)
unfolding admit
opened_then_probe now at b st op free =
    (λ early. ground arith, λ late. (the_probe b, with_probe b, ground arith, with_probe-Decides b))

-- A late result is ignored: a plain call from another generation of the circuit, and a probe
-- whose token is no longer the current one, change nothing however they end.
pub finish_stale :
    (now : ℕ) (t : Ticket) (o : Outcome) (b : Breaker)
    → ((t.probe_token ≡ none) × (t.generation ≢ b.generation)
        ⊎ (k : ℕ) × (t.probe_token ≡ some k) × (b.probe_token ≢ some k))
    → finish now t o b ≡ b
unfolding finish
finish_stale now t returned b h = ground arith
finish_stale now t failure b h = ground arith
finish_stale now t refusal b h = ground arith
finish_stale now t cancelled b h = ground arith
