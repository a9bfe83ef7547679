-- ===== src/Breaker.antt =====
-- infrastructure/resilience/circuit_breaker.py: `CircuitBreaker`. What runs under the lock is one
-- function on the breaker. `time.monotonic()` is an argument, counted in ticks; an `object()` is
-- the next number that has not been given out. Logging and the breaker's name are left out.
pub mod System
pub mod Invariant
pub mod Behaviour
pub mod Examples
use andruha_identity_service.Prelude.{
  ℕ, ◌+◌, Bool, true, false, not, ◌&&◌, Option, none, some, leb, ◌==◌, is_some, holds,
  if◌then◌else◌,
}

pub data CircuitState : Type 0 where
  closed opened half_open : CircuitState

pub record Breaker : Type 0 where
  pub fail_max : ℕ
  pub recovery_timeout : ℕ
  pub state : CircuitState
  pub failure_count : ℕ
  pub opened_at : Option ℕ
  pub probe_in_progress : Bool
  pub probe_token : Option ℕ
  pub generation : ℕ
  pub next_token : ℕ

abbrev pub is_closed : CircuitState → Bool
is_closed closed = true
is_closed _ = false

abbrev pub is_half_open : CircuitState → Bool
is_half_open half_open = true
is_half_open _ = false

-- `__init__`; `none` is its `ValueError`.
unfoldable pub create : ℕ → ℕ → Option Breaker
create fail_max recovery_timeout =
    if leb fail_max 0
    then none
    else if leb recovery_timeout 0
    then none
    else some (record {
      fail_max = fail_max;
      recovery_timeout = recovery_timeout;
      state = closed;
      failure_count = 0;
      opened_at = none;
      probe_in_progress = false;
      probe_token = none;
      generation = 0;
      next_token = 0;
    })

abbrev cooled : ℕ → ℕ → Option ℕ → Bool
cooled now timeout none = false
cooled now timeout (some at) = leb (at + timeout) now

abbrev check_in : CircuitState → ℕ → Breaker → Breaker
check_in opened now b =
    if cooled now b.recovery_timeout b.opened_at then record b { state = half_open } else b
check_in _ now b = b

-- `_check_state`
unfoldable pub check_state : ℕ → Breaker → Breaker
check_state now b = check_in b.state now b

-- `_trip`
unfoldable pub trip : ℕ → Breaker → Breaker
trip now b = record b {
  state = opened;
  opened_at = some now;
  probe_in_progress = false;
  probe_token = none;
  generation = b.generation + 1;
}

-- What a call keeps between its prologue and its epilogue.
pub record Ticket : Type 0 where
  pub generation : ℕ
  pub probe_token : Option ℕ

-- `self._probe_token is probe_token`, where the latter is not None
abbrev pub same_token : Option ℕ → Option ℕ → Bool
same_token current none = false
same_token current (some k) = holds current k

unfoldable pub is_current_probe : Ticket → Breaker → Bool
is_current_probe t b = is_half_open b.state && same_token b.probe_token t.probe_token

unfoldable pub is_current_closed_call : Ticket → Breaker → Bool
is_current_closed_call t b =
    not (is_some t.probe_token) && (is_closed b.state && b.generation == t.generation)

-- `_handle_success`
unfoldable pub handle_success : Ticket → Breaker → Breaker
unfolding is_current_probe is_current_closed_call
handle_success t b =
    if is_current_probe t b
    then record b {
      state = closed;
      failure_count = 0;
      opened_at = none;
      probe_in_progress = false;
      probe_token = none;
      generation = b.generation + 1;
    }
    else if is_current_closed_call t b
    then record b { failure_count = 0 }
    else b

abbrev count_failure : Breaker → Breaker
count_failure b = record b { failure_count = b.failure_count + 1 }

-- `_handle_failure`
unfoldable pub handle_failure : ℕ → Ticket → Breaker → Breaker
unfolding is_current_probe is_current_closed_call trip
handle_failure now t b =
    if not (is_current_probe t b) && not (is_current_closed_call t b)
    then b
    else if is_current_closed_call t b
    then (if leb b.fail_max (b.failure_count + 1)
        then trip now (count_failure b)
        else count_failure b)
    else if is_current_probe t b
    then trip now (count_failure b)
    else count_failure b

-- `_release_probe`
unfoldable pub release_probe : Ticket → Breaker → Breaker
release_probe t b =
    if is_half_open b.state && same_token b.probe_token t.probe_token
    then record b { probe_in_progress = false; probe_token = none }
    else b

pub data Admission : Type 0 where
  rejected : Admission
  admitted : Ticket → Admission

abbrev admit_in : CircuitState → Breaker → Admission × Breaker
admit_in opened b = (rejected, b)
admit_in half_open b = if b.probe_in_progress then (rejected, b) else (
  admitted (record { generation = b.generation; probe_token = some b.next_token }),
  record b {
    probe_in_progress = true;
    probe_token = some b.next_token;
    next_token = b.next_token + 1;
  },
)
admit_in closed b = (admitted (record { generation = b.generation; probe_token = none }), b)

-- The first locked block of `call`: `rejected` is its `CircuitBreakerError`.
unfoldable pub admit : ℕ → Breaker → Admission × Breaker
unfolding check_state
admit now b = let c = check_state now b in admit_in c.state c

-- How the awaited function ends: it returns, raises an error that `is_failure` counts or one that
-- it does not count, or is cancelled (also: `is_failure` itself raises).
pub data Outcome : Type 0 where
  returned failure refusal cancelled : Outcome

-- The rest of `call`, at the time `now`.
unfoldable pub finish : ℕ → Ticket → Outcome → Breaker → Breaker
unfolding handle_success handle_failure release_probe
finish now t returned b = handle_success t b
finish now t failure b = handle_failure now t b
finish now t refusal b = handle_success t b
finish now t cancelled b = release_probe t b

abbrev finish_admitted : ℕ → Outcome → Admission × Breaker → Breaker
finish_admitted now o (rejected, b) = b
finish_admitted now o (admitted t, b) = finish now t o b

-- `call`, where no other call overlaps, from its start to the end of the awaited function.
unfoldable pub call_alone : (begun ended : ℕ) → Outcome → Breaker → Breaker
unfolding admit finish
call_alone begun ended o b = finish_admitted ended o (admit begun b)
