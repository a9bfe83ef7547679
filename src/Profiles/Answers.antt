-- ===== src/Profiles/Answers.antt =====
-- profile_provisioner.py: what `create_profile` reports, said by the answers of the server.
use andruha_identity_service.Prelude.{
  ℕ, ◌+◌, ◌≤◌, ◌<◌, String, ◌≡◌, refl, ◌≢◌, ◌⊎◌, inl, inr, Bool, true, false, Option, none, List,
  arith, All, Bool-cases,
}
use andruha_identity_service.Errors.{Result, ok, raise, provisioning_rejected}
use andruha_identity_service.Profiles.{
  PutResult, stored, call_error, Reply, transport_error, client_error, response, World, Line,
  is_retryable, put_profile, create_profile,
}
use andruha_identity_service.Profiles.Attempts.{Reported, attempts-Reported}

-- The statuses after which the request may be sent again.
abbrev pub Retryable : ℕ → Type 0
Retryable code =
    (code ≡ 423) ⊎ (code ≡ 429) ⊎ (code ≡ 500) ⊎ (code ≡ 502) ⊎ (code ≡ 503) ⊎ (code ≡ 504)

is_retryable-Retryable : (code : ℕ) → is_retryable code ≡ true → Retryable code
is_retryable-Retryable code h = ground arith

Retryable-is_retryable : (code : ℕ) → Retryable code → is_retryable code ≡ true
Retryable-is_retryable code h = ground arith

module _ {Double : Type 0} (lt : Double → Double → Bool) (zero_seconds : Double)
    (read : String → Option Double) where
  abbrev end : Reply → PutResult Double
  end = put_profile lt zero_seconds read

  put-204 : (header : Option String) → end (response 204 header) ≡ stored
  unfolding put_profile
  put-204 header = refl

  put-stored : (r : Reply) → end r ≡ stored → (header : Option String) × (r ≡ response 204 header)
  unfolding put_profile
  put-stored transport_error h = absurd (ground arith)
  put-stored (client_error e) h = absurd (ground arith)
  put-stored (response code header) h = (header, ground arith)

  put-refused :
      (code : ℕ) (header : Option String)
      → code ≢ 204
      → (Retryable code → ⊥)
      → (x : Option Double) × (end (response code header) ≡ call_error false x)
  unfolding put_profile
  put-refused code header other final = elim (Bool-cases (is_retryable code)) [
    | inl again ↦ absurd (final (is_retryable-Retryable code again))
    | inr done ↦ (none, ground (arith, done))
  ]

  put-retried :
      (r : Reply) (x : Option Double)
      → end r ≡ call_error true x
      → (r ≡ transport_error)
        ⊎ (code : ℕ) × (header : Option String) × (r ≡ response code header) × Retryable code
  unfolding put_profile
  put-retried transport_error x h = inl refl
  put-retried (client_error e) x h = absurd (ground arith)
  put-retried (response code header) x h =
      inr (code, header, refl, is_retryable-Retryable code (ground arith))

  module _ (w : World) (delay bound : Double) (irreflexive : (x : Double) → lt x x ≡ false)
      (asymmetric : (x y : Double) → lt x y ≡ true → lt y x ≡ false)
      (checked : lt bound delay ≡ false) where
    -- What `create_profile` has reported of the requests from the number `from` on.
    pub record Answered (from : ℕ) (before : List Double) (r : Result (Unit {0}))
        (line : Line Double) : Type 0 where
      pub few : line.sent ≤ from + 2
      pub success :
          r ≡ ok tt
          → (n : ℕ) × (header : Option String) × (from ≤ n)
            × (n < line.sent)
            × (w.reply n ≡ response 204 header)
      pub missed :
          (n : ℕ) (header : Option String)
          → from ≤ n
          → n < line.sent
          → w.reply n ≡ response 204 header
          → r ≡ ok tt
      pub refused :
          (n code : ℕ) (header : Option String)
          → from ≤ n
          → n < line.sent
          → w.reply n ≡ response code header
          → code ≢ 204
          → (Retryable code → ⊥)
          → r ≡ raise provisioning_rejected
      pub retried :
          (n : ℕ)
          → from ≤ n
          → n + 1 < line.sent
          → (w.reply n ≡ transport_error)
            ⊎ (code : ℕ) × (header : Option String) × (w.reply n ≡ response code header)
              × Retryable code
      pub paced :
          All (λ d. (lt bound d ≡ false) × (lt d delay ≡ false)) before
          → All (λ d. (lt bound d ≡ false) × (lt d delay ≡ false)) line.slept

    Reported-Answered :
        (from : ℕ) (before : List Double) (r : Result (Unit {0})) (line : Line Double)
        → Reported lt zero_seconds read w delay bound irreflexive asymmetric checked from 2 before r
            line
        → Answered from before r line
    Reported-Answered from before r line o = record {
      few = o.few;
      success = λ h.
          let (n, low, high, q) = o.success h in
          let (header, e) = put-stored (w.reply n) q in (n, header, low, high, e);
      missed = λ n header low high e. o.missed n low high (rw e (put-204 header));
      refused = λ n code header low high e other final.
          let (x, q) = put-refused code header other final in o.refused n x low high (rw e q);
      retried = λ n low high. let (x, q) = o.retried n low high in put-retried (w.reply n) x q;
      paced = o.paced;
    }

    -- With a `<` on floats that is irreflexive and asymmetric, and the delays that the constructor
    -- accepts, a configured provisioner sends at most two requests. It reports success if, and only
    -- if, one of them was answered by 204. It raises `ProfileProvisioningRejectedError` on an answer
    -- other than 204, 423, 429, 500, 502, 503 and 504. It sends another request only after a
    -- transport error or one of the latter six. The delay that it sleeps before that is neither
    -- below the least nor above the greatest one.
    pub create_profile-Answered :
        (line : Line Double)
        → let y = create_profile lt zero_seconds read w delay bound true line in
          Answered line.sent line.slept y.0 y.1
    unfolding create_profile
    create_profile-Answered line =
        let y = create_profile lt zero_seconds read w delay bound true line in
        Reported-Answered line.sent line.slept y.0 y.1 (
          attempts-Reported lt zero_seconds read w delay bound irreflexive asymmetric checked 2
            line)
