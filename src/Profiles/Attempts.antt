-- ===== src/Profiles/Attempts.antt =====
-- profile_provisioner.py: what `create_profile` reports of the requests that it sends.
use andruha_identity_service.Prelude.{
  ℕ, zero, suc, ◌+◌, ◌≤◌, ◌<◌, String, ◌≡◌, refl, sym, ap, ◌∙◌, subst, ◌⊎◌, inl, inr, Bool, true,
  false, Option, none, some, List, ◌∷◌, arith, leb, Bool-cases, if_ind, All,
}
use andruha_identity_service.Errors.{
  Error, Result, ok, raise, provisioning_unavailable, provisioning_rejected,
}
use andruha_identity_service.Breaker.{Breaker, Admission, rejected, admitted, admit}
use andruha_identity_service.Profiles.{
  PutResult, stored, call_error, broken, World, Line, put_profile, retry_wait, max_of, min_of,
  admitted_call, call_put, after_put, attempts,
}

le_cases : (n m : ℕ) → n ≤ m → (m ≡ n) ⊎ (n + 1 ≤ m)
le_cases n m h = elim (Bool-cases (leb m n)) [
  | inl e ↦ inl (ground (arith, e, h))
  | inr e ↦ inr (ground (arith, e, h))
]

module _ {Double : Type 0} (lt : Double → Double → Bool) (zero_seconds : Double)
    (read : String → Option Double) (w : World) (delay bound : Double)
    (irreflexive : (x : Double) → lt x x ≡ false)
    (asymmetric : (x y : Double) → lt x y ≡ true → lt y x ≡ false)
    (checked : lt bound delay ≡ false) where
  -- A delay between the least and the greatest one.
  abbrev pub Paced : Double → Type 0
  Paced d = (lt bound d ≡ false) × (lt d delay ≡ false)

  not_below : (y : Double) → lt (max_of lt zero_seconds read delay y) delay ≡ false
  not_below y =
      if_ind (λ d. lt d delay ≡ false) (lt delay y) (asymmetric delay y) (λ _. irreflexive delay)

  min-Paced :
      (y : Double) → Paced (min_of lt zero_seconds read (max_of lt zero_seconds read delay y) bound)
  min-Paced y =
      if_ind Paced (lt bound (max_of lt zero_seconds read delay y))
        (λ _. (irreflexive bound, checked)) (λ e. (e, not_below y))

  retry_wait-Paced : (x : Option Double) → Paced (retry_wait lt zero_seconds read delay bound x)
  unfolding retry_wait
  retry_wait-Paced none = min-Paced zero_seconds
  retry_wait-Paced (some x) = min-Paced x

  -- The end of the request with the number.
  abbrev pub put : ℕ → PutResult Double
  put n = put_profile lt zero_seconds read (w.reply n)

  -- What a run that starts with the number `from` of the next request and may send `left` of them
  -- reports.
  pub record Reported (from left : ℕ) (before : List Double) (r : Result (Unit {0}))
      (line : Line Double) : Type 0 where
    pub paced : All Paced before → All Paced line.slept
    pub few : line.sent ≤ from + left
    pub forward : from ≤ line.sent
    pub success : r ≡ ok tt → (n : ℕ) × (from ≤ n) × (n < line.sent) × (put n ≡ stored)
    pub missed : (n : ℕ) → from ≤ n → n < line.sent → put n ≡ stored → r ≡ ok tt
    pub refused :
        (n : ℕ) (x : Option Double)
        → from ≤ n
        → n < line.sent
        → put n ≡ call_error false x
        → r ≡ raise provisioning_rejected
    pub retried :
        (n : ℕ) → from ≤ n → n + 1 < line.sent → (x : Option Double) × (put n ≡ call_error true x)

  unsent :
      (r : Result (Unit {0})) (e : Error) (line : Line Double) (left : ℕ)
      → r ≡ raise e
      → Reported line.sent left line.slept r line
  unsent r e line left failed = record {
    paced = λ h. h;
    few = omega arith;
    forward = omega arith;
    success = λ good. absurd (ground (arith, failed, good));
    missed = λ n low high. absurd (omega arith);
    refused = λ n x low high. absurd (omega arith);
    retried = λ n low high. absurd (omega arith);
  }

  -- An attempt that is the last one.
  ended :
      (n left : ℕ) (before : List Double) (r : Result (Unit {0})) (line : Line Double)
      → line.sent ≡ n + 1
      → line.slept ≡ before
      → (r ≡ ok tt → put n ≡ stored)
      → (put n ≡ stored → r ≡ ok tt)
      → ((x : Option Double) → put n ≡ call_error false x → r ≡ raise provisioning_rejected)
      → Reported n (suc left) before r line
  ended n left before r line sent slept good found refused = record {
    paced = λ h. subst (All Paced) (sym slept) h;
    few = omega (arith, sent);
    forward = omega (arith, sent);
    success = λ e. (n, omega arith, omega (arith, sent), good e);
    missed = λ m low high p. found (subst (λ k. put k ≡ stored) (only m low high) p);
    refused =
        λ m x low high p. refused x (subst (λ k. put k ≡ call_error false x) (only m low high) p);
    retried = λ m low high. absurd (omega (arith, sent));
  }
    where
      only : (m : ℕ) → n ≤ m → m < line.sent → m ≡ n
      only m low high = omega (arith, sent)

  -- An attempt with a retryable failure, before the others.
  preceded :
      (n left : ℕ) (before between : List Double) (r : Result (Unit {0})) (line : Line Double)
      (x : Option Double)
      → put n ≡ call_error true x
      → (All Paced before → All Paced between)
      → Reported (n + 1) left between r line
      → Reported n (suc left) before r line
  preceded n left before between r line x again slow o = record {
    paced = λ h. o.paced (slow h);
    few = omega (arith, o.few);
    forward = omega (arith, o.forward);
    success = λ e. let (m, low, high, p) = o.success e in (m, omega arith, high, p);
    missed = λ m low high p. elim (le_cases n m low) [
      | inl same ↦ absurd (apart_stored m same p)
      | inr later ↦ o.missed m later high p
    ];
    refused = λ m y low high p. elim (le_cases n m low) [
      | inl same ↦ absurd (apart_refused m y same p)
      | inr later ↦ o.refused m y later high p
    ];
    retried = λ m low high. elim (le_cases n m low) [
      | inl same ↦ (x, ap put same ∙ again)
      | inr later ↦ o.retried m later high
    ];
  }
    where
      apart_stored : (m : ℕ) → m ≡ n → put m ≡ stored → ⊥
      apart_stored m same p =
          let q : put n ≡ stored = ap put (sym same) ∙ p in ground (arith, q, again)

      apart_refused : (m : ℕ) (y : Option Double) → m ≡ n → put m ≡ call_error false y → ⊥
      apart_refused m y same p =
          let q : put n ≡ call_error false y = ap put (sym same) ∙ p in ground (arith, q, again)

  -- What a call has done to the line.
  abbrev Called : ℕ → List Double → Option (PutResult Double) × Line Double → Type 0
  Called n before (none, line) = (line.sent ≡ n) × (line.slept ≡ before)
  Called n before (some q, line) = (put n ≡ q) × (line.sent ≡ n + 1) × (line.slept ≡ before)

  admitted-Called :
      (line : Line Double) (x : Admission × Breaker)
      → Called line.sent line.slept (admitted_call lt zero_seconds read w delay bound line x)
  admitted-Called line (rejected, b) = (refl, refl)
  admitted-Called line (admitted t, b) = (refl, refl, refl)

  call-Called :
      (line : Line Double)
      → Called line.sent line.slept (call_put lt zero_seconds read w delay bound line)
  unfolding call_put
  call-Called line = admitted-Called line (admit (w.begun line.sent) line.breaker)

  after_put-Reported :
      (n left : ℕ) (before : List Double) (last : Bool)
      (rest : Line Double → Result (Unit {0}) × Line Double)
      (x : Option (PutResult Double) × Line Double)
      → Called n before x
      → ((line : Line Double)
          → line.sent ≡ n + 1
          → Reported (n + 1) left line.slept (rest line).0 (rest line).1)
      → let y = after_put lt zero_seconds read w delay bound last rest x in
        Reported n (suc left) before y.0 y.1
  unfolding after_put
  after_put-Reported n left before last rest (none, line) (same, slept) again =
      subst (λ k. Reported k (suc left) before (raise provisioning_unavailable) line) same
        (subst (λ ds. Reported line.sent (suc left) ds (raise provisioning_unavailable) line) slept
          (unsent (raise provisioning_unavailable) provisioning_unavailable line (suc left) refl))
  after_put-Reported n left before last rest (some stored, line) (q, sent, slept) again =
      ended n left before (ok tt) line sent slept (λ _. q) (λ _. refl)
        (λ x p. absurd (ground (arith, q, p)))
  after_put-Reported n left before last rest (some (broken e), line) (q, sent, slept) again =
      ended n left before (raise e) line sent slept (λ g. absurd (ground (arith, g)))
        (λ p. absurd (ground (arith, q, p))) (λ x p. absurd (ground (arith, q, p)))
  after_put-Reported n left before last rest (some (call_error false r), line) (q, sent, slept)
        again =
      ended n left before (raise provisioning_rejected) line sent slept
        (λ g. absurd (ground (arith, g))) (λ p. absurd (ground (arith, q, p))) (λ x p. refl)
  after_put-Reported n left before true rest (some (call_error true r), line) (q, sent, slept)
        again =
      ended n left before (raise provisioning_unavailable) line sent slept
        (λ g. absurd (ground (arith, g))) (λ p. absurd (ground (arith, q, p)))
        (λ x p. absurd (ground (arith, q, p)))
  after_put-Reported n left before false rest (some (call_error true r), line) (q, sent, slept)
        again =
      let line' = record line {
        slept = retry_wait lt zero_seconds read delay bound r ∷ line.slept;
      } in
      preceded n left before line'.slept (rest line').0 (rest line').1 r q
        (λ h. (retry_wait-Paced r, subst (All Paced) (sym slept) h)) (again line' sent)

  pub attempts-Reported :
      (left : ℕ) (line : Line Double)
      → let y = attempts lt zero_seconds read w delay bound left line in
        Reported line.sent left line.slept y.0 y.1
  unfolding attempts
  attempts-Reported zero line =
      unsent (raise provisioning_unavailable) provisioning_unavailable line zero refl
  attempts-Reported (suc left) line =
      after_put-Reported line.sent left line.slept _
        (attempts lt zero_seconds read w delay bound left)
        (call_put lt zero_seconds read w delay bound line) (call-Called line)
        (λ next e.
          let y = attempts lt zero_seconds read w delay bound left next in
          subst (λ k. Reported k left next.slept y.0 y.1) e (attempts-Reported left next))
