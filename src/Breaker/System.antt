-- ===== src/Breaker/System.antt =====
-- circuit_breaker.py: calls that overlap in time. A breaker is shared by the calls in flight, and
-- each locked block of `call` is one step.
use andruha_identity_service.Prelude.{
  ℕ, ◌+◌, ◌<◌, ◌≡◌, true, false, Option, none, some, List, [], ◌∷◌, ◌++◌, is_some, if◌then◌else◌,
}
use andruha_identity_service.Breaker.{
  CircuitState, closed, opened, half_open, Breaker, Ticket, same_token, rejected, admitted, Outcome,
  admit, finish,
}

pub record System : Type 0 where
  pub breaker : Breaker
  pub calls : List Ticket

-- A call is turned away, a call is let in, or one of the calls in flight ends.
pub data Step : System → System → Type 0 where
  turn_away :
      (s : System) (now : ℕ) (b : Breaker)
      → admit now s.breaker ≡ (rejected, b)
      → Step s (record { breaker = b; calls = s.calls })
  let_in :
      (s : System) (now : ℕ) (t : Ticket) (b : Breaker)
      → admit now s.breaker ≡ (admitted t, b)
      → Step s (record { breaker = b; calls = t ∷ s.calls })
  leave :
      (b : Breaker) (before after : List Ticket) (t : Ticket) (now : ℕ) (o : Outcome)
      → Step
          (record { breaker = b; calls = before ++ t ∷ after })
          (record { breaker = finish now t o b; calls = before ++ after })

pub data Reach (s : System) : System → Type 0 where
  here : Reach s s
  next : {t u : System} → Reach s t → Step t u → Reach s u

-- How many of the calls in flight hold the token.
abbrev pub holders : Option ℕ → List Ticket → ℕ
holders token [] = 0
holders token (t ∷ ts) = (if same_token token t.probe_token then 1 else 0) + holders token ts

-- The fields that belong to each state of the circuit.
abbrev pub ShapeIn : CircuitState → Breaker → Type 0
ShapeIn closed b =
    (b.failure_count < b.fail_max)
    × (b.opened_at ≡ none)
    × (b.probe_in_progress ≡ false)
    × (b.probe_token ≡ none)
ShapeIn opened b =
    (is_some b.opened_at ≡ true) × (b.probe_in_progress ≡ false) × (b.probe_token ≡ none)
ShapeIn half_open b = (is_some b.opened_at ≡ true) × (b.probe_in_progress ≡ is_some b.probe_token)

abbrev pub Shape : Breaker → Type 0
Shape b = ShapeIn b.state b

-- The token of the ticket was given out before `n`.
abbrev pub TokenBelow : ℕ → Option ℕ → Type 0
TokenBelow n none = Unit
TokenBelow n (some k) = k < n
