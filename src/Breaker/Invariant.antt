-- ===== src/Breaker/Invariant.antt =====
-- circuit_breaker.py: the invariant of a breaker with overlapping calls.
use andruha_identity_service.Prelude.{
  ℕ, ◌+◌, ◌<◌, ◌≡◌, refl, sym, subst, ◌⊎◌, inl, inr, true, false, Option, none, some, List, [], ◌∷◌,
  ◌++◌, arith, if◌then◌else◌, All, All-append, All-append_left, All-append_right, All-imp,
}
use andruha_identity_service.Breaker.{
  Breaker, Ticket, same_token, Admission, rejected, admitted, Outcome, returned, failure, refusal,
  cancelled, create, admit, finish,
}
use andruha_identity_service.Breaker.System.{
  System, Step, turn_away, let_in, leave, Reach, here, next, holders, Shape, TokenBelow,
}

Shape-admit :
    (now : ℕ) (b c : Breaker) {a : Admission}
    → admit now b ≡ (a, c)
    → 0 < b.fail_max
    → 0 < b.recovery_timeout
    → Shape b
    → (0 < c.fail_max) × (0 < c.recovery_timeout) × Shape c
unfolding admit
Shape-admit now b c e positive patient h = ground arith

Shape-finish :
    (now : ℕ) (t : Ticket) (o : Outcome) (b : Breaker)
    → 0 < b.fail_max
    → Shape b
    → Shape (finish now t o b)
unfolding finish
Shape-finish now t returned b pos h = ground arith
Shape-finish now t failure b pos h = ground arith
Shape-finish now t refusal b pos h = ground arith
Shape-finish now t cancelled b pos h = ground arith

holders-append :
    (token : Option ℕ) (xs ys : List Ticket)
    → holders token (xs ++ ys) ≡ holders token xs + holders token ys
holders-append token [] ys = omega arith
holders-append token (x ∷ xs) ys = omega (arith, holders-append token xs ys)

holders-none : (xs : List Ticket) → holders none xs ≡ 0
holders-none [] = refl
holders-none (x ∷ xs) = ground (arith, holders-none xs)

-- A token that has not been given out has no holder.
holders-fresh :
    (n : ℕ) (xs : List Ticket) → All (λ t. TokenBelow n t.probe_token) xs → holders (some n) xs ≡ 0
holders-fresh n [] h = refl
holders-fresh n (x ∷ xs) h = ground (arith, holders-fresh n xs h.1)

TokenBelow-suc : (n : ℕ) (token : Option ℕ) → TokenBelow n token → TokenBelow (n + 1) token
TokenBelow-suc n none h = tt
TokenBelow-suc n (some k) h = omega arith

abbrev BelowAll : ℕ → List Ticket → Type 0
BelowAll n ts = All (λ t. TokenBelow n t.probe_token) ts

BelowAll-suc : (n : ℕ) (ts : List Ticket) → BelowAll n ts → BelowAll (n + 1) ts
BelowAll-suc n ts h =
    All-imp (λ t. TokenBelow n t.probe_token) (λ t. TokenBelow (n + 1) t.probe_token) ts
      (λ t. TokenBelow-suc n t.probe_token) h

pub record IsConsistent (s : System) : Type 0 where
  pub positive : 0 < s.breaker.fail_max
  pub patient : 0 < s.breaker.recovery_timeout
  pub shape : Shape s.breaker
  pub given_out : All (λ t. TokenBelow s.breaker.next_token t.probe_token) s.calls
  pub probes :
      holders s.breaker.probe_token s.calls ≡ (if s.breaker.probe_in_progress then 1 else 0)

finish-limits :
    (now : ℕ) (t : Ticket) (o : Outcome) (b : Breaker)
    → ((finish now t o b).fail_max ≡ b.fail_max)
      × ((finish now t o b).recovery_timeout ≡ b.recovery_timeout)
      × ((finish now t o b).next_token ≡ b.next_token)
unfolding finish
finish-limits now t returned b = ground arith
finish-limits now t failure b = ground arith
finish-limits now t refusal b = ground arith
finish-limits now t cancelled b = ground arith

-- A refused call gives out no token and leaves the probe as it is.
reject-probe :
    (now : ℕ) (b c : Breaker)
    → admit now b ≡ (rejected, c)
    → (c.next_token ≡ b.next_token)
      × (c.probe_token ≡ b.probe_token)
      × (c.probe_in_progress ≡ b.probe_in_progress)
unfolding admit
reject-probe now b c h = ground arith

-- An admitted call either is a plain call or holds the token that is new.
admit-probe :
    (now : ℕ) (b c : Breaker) (t : Ticket)
    → Shape b
    → admit now b ≡ (admitted t, c)
    → (t.probe_token ≡ none)
        × (c.next_token ≡ b.next_token)
        × (c.probe_token ≡ b.probe_token)
        × (c.probe_in_progress ≡ b.probe_in_progress)
      ⊎ (t.probe_token ≡ some b.next_token)
        × (c.next_token ≡ b.next_token + 1)
        × (c.probe_token ≡ some b.next_token)
        × (c.probe_in_progress ≡ true)
unfolding admit
admit-probe now b c t sh h = ground arith

-- The end of a call frees the probe exactly if the call held it.
finish-probe :
    (now : ℕ) (t : Ticket) (o : Outcome) (b : Breaker)
    → Shape b
    → (same_token b.probe_token t.probe_token ≡ true)
        × ((finish now t o b).probe_token ≡ none)
        × ((finish now t o b).probe_in_progress ≡ false)
      ⊎ (same_token b.probe_token t.probe_token ≡ false)
        × ((finish now t o b).probe_token ≡ b.probe_token)
        × ((finish now t o b).probe_in_progress ≡ b.probe_in_progress)
unfolding finish
finish-probe now t returned b h = ground arith
finish-probe now t failure b h = ground arith
finish-probe now t refusal b h = ground arith
finish-probe now t cancelled b h = ground arith

let_in-holders :
    (now : ℕ) (s : System) (t : Ticket) (b : Breaker)
    → IsConsistent s
    → admit now s.breaker ≡ (admitted t, b)
    → BelowAll b.next_token (t ∷ s.calls)
      × (holders b.probe_token (t ∷ s.calls) ≡ (if b.probe_in_progress then 1 else 0))
let_in-holders now s t b v e = elim (admit-probe now s.breaker b t v.shape e) [
  | inl plain ↦ (
    (rw plain.0 tt, subst (λ n. BelowAll n s.calls) (sym plain.1) v.given_out),
    ground (arith, plain),
  )
  | inr probe ↦ (
    (
      rw (probe.0, probe.1) (omega arith),
      subst (λ n. BelowAll n s.calls) (sym probe.1)
          (BelowAll-suc s.breaker.next_token s.calls v.given_out),
    ),
    ground (arith, probe, holders-fresh s.breaker.next_token s.calls v.given_out),
  )
]

leave-holders :
    (now : ℕ) (o : Outcome) (b : Breaker) (before after : List Ticket) (t : Ticket)
    → IsConsistent (record { breaker = b; calls = before ++ t ∷ after })
    → holders (finish now t o b).probe_token (before ++ after)
      ≡ (if (finish now t o b).probe_in_progress then 1 else 0)
leave-holders now o b before after t v = elim (finish-probe now t o b v.shape) [
  | inl (held, token, busy) ↦ rw (token, busy) (holders-none (before ++ after))
  | inr (other, token, busy) ↦
      rw (token, busy)
        (ground (
          arith,
          v.probes,
          holders-append b.probe_token before (t ∷ after),
          holders-append b.probe_token before after,
        ))
]

pub Step-IsConsistent : {s u : System} → Step s u → IsConsistent s → IsConsistent u
Step-IsConsistent (turn_away s now b e) v =
    let (positive, patient, shape) = Shape-admit now s.breaker b e v.positive v.patient v.shape in
    let (given, token, busy) = reject-probe now s.breaker b e in
    record {
      positive = positive;
      patient = patient;
      shape = shape;
      given_out = rw given v.given_out;
      probes = rw token (rw busy v.probes);
    }
Step-IsConsistent (let_in s now t b e) v =
    let (positive, patient, shape) = Shape-admit now s.breaker b e v.positive v.patient v.shape in
    let (given_out, probes) = let_in-holders now s t b v e in
    record {
      positive = positive;
      patient = patient;
      shape = shape;
      given_out = given_out;
      probes = probes;
    }
Step-IsConsistent (leave b before after t now o) v =
    let (fail_max, timeout, given) = finish-limits now t o b in
    let old = v.given_out in
    record {
      positive = rw fail_max v.positive;
      patient = rw timeout v.patient;
      shape = Shape-finish now t o b v.positive v.shape;
      given_out = rw given (
          All-append (λ u. TokenBelow b.next_token u.probe_token) before after
            (All-append_left (λ u. TokenBelow b.next_token u.probe_token) before (t ∷ after) old)
            (All-append_right (λ u. TokenBelow b.next_token u.probe_token) before (t ∷ after)
              old).1);
      probes = leave-holders now o b before after t v;
    }

pub create-IsConsistent :
    (fail_max recovery_timeout : ℕ) (b : Breaker)
    → create fail_max recovery_timeout ≡ some b
    → IsConsistent (record { breaker = b; calls = [] })
unfolding create
create-IsConsistent fail_max recovery_timeout b e = record {
  positive = ground arith;
  patient = ground arith;
  shape = ground arith;
  given_out = tt;
  probes = ground arith;
}

pub Reach-IsConsistent : {s u : System} → IsConsistent s → Reach s u → IsConsistent u
Reach-IsConsistent v here = v
Reach-IsConsistent v (next r st) = Step-IsConsistent st (Reach-IsConsistent v r)

-- From a new breaker, whatever calls overlap and however they end: one call in flight holds the
-- probe while `probe_in_progress` is set, and none does otherwise; a closed circuit has fewer
-- failures than `fail_max` and no probe; an open one has an opening time and no probe; a
-- half-open one has an opening time.
pub Reach-one_probe :
    (fail_max recovery_timeout : ℕ) (b : Breaker) {s : System}
    → create fail_max recovery_timeout ≡ some b
    → Reach (record { breaker = b; calls = [] }) s
    → (holders s.breaker.probe_token s.calls ≡ (if s.breaker.probe_in_progress then 1 else 0))
      × Shape s.breaker
Reach-one_probe fail_max recovery_timeout b e r =
    let v = Reach-IsConsistent (create-IsConsistent fail_max recovery_timeout b e) r in
    (v.probes, v.shape)
