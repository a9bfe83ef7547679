-- ===== src/Relay/Stopping.antt =====
-- application/outbox/relay.py: the worker stops when it is told to, and leaves a sound outbox.
use andruha_identity_service.Prelude.{
  ℕ, zero, suc, ◌+◌, ◌≤◌, ◌<◌, String, ◌≡◌, refl, inl, inr, Bool, true, false, some, List, [], ◌∷◌,
  arith, leb, Bool-cases, if_ind, length,
}
use andruha_identity_service.Errors.{
  Result, Error, ok, raise, class_name, retry_exhausted, is_permanent_publish_error, Result-cases,
}
use andruha_identity_service.Clock.{DateTime, ℤ, checked_add}
use andruha_identity_service.UnitOfWork.{Commit-cases}
use andruha_identity_service.Outbox.Message.{OutboxMessage}
use andruha_identity_service.Outbox.Claim.{claim_batch}
use andruha_identity_service.Outbox.Outcome.{finalize_published, schedule_retry, quarantine}
use andruha_identity_service.Outbox.System.{claiming, finalizing, retrying, isolating}
use andruha_identity_service.Outbox.Sound.{IsSound, Step-IsSound}
use andruha_identity_service.Relay.{
  World, Note, batch_claimed, message_finalized, message_quarantined, message_retry_scheduled, Run,
  transaction, quarantine_claimed, retry_claimed, publish_claimed, process_key_stream,
  process_streams, by_key, is_empty, claim_messages, claimed_round, run_once,
}
use andruha_identity_service.Relay.Loop.{after_round, iteration, poll}

-- A later run: time has not gone back, and a sound outbox is still sound.
pub record Later (a b : Run) : Type 0 where
  pub sound : IsSound a.rows → IsSound b.rows
  pub tick : a.tick ≤ b.tick

Later-refl : (a : Run) → Later a a
Later-refl a = record { sound = λ s. s; tick = omega arith }

Later-trans : (a b c : Run) → Later a b → Later b c → Later a c
Later-trans a b c x y = record {
  sound = λ s. y.sound (x.sound s);
  tick = omega (arith, x.tick, y.tick);
}

module _ (w : World)
    (others : (n : ℕ) (rows : List OutboxMessage) → IsSound rows → IsSound (w.others n rows)) where
  transaction-Later :
      (statement : List OutboxMessage → Bool × List OutboxMessage) (note : Note) (run : Run)
      → ((rows : List OutboxMessage) → IsSound rows → IsSound (statement rows).1)
      → Later run (transaction w statement note run).1
  unfolding transaction
  transaction-Later statement note run keeps = elim (Commit-cases (w.commit run.tick)) [
    | inl e ↦
        rw (transaction, e)
          (record { sound = λ s. keeps _ (others run.tick run.rows s); tick = omega arith })
    | inr (inl (f, e)) ↦
        rw (transaction, e) (record { sound = λ s. others run.tick run.rows s; tick = omega arith })
    | inr (inr (f, e)) ↦
        rw (transaction, e)
          (record { sound = λ s. keeps _ (others run.tick run.rows s); tick = omega arith })
  ]

  module _ (max_attempts owner : ℕ) where
    retry-Later :
        (m : OutboxMessage) (f : Error) (run : Run)
        → Later run (retry_claimed w max_attempts owner m f run).1
    unfolding retry_claimed
    retry-Later m f run =
        let stamp = w.database_now run.tick in
        elim (Result-cases (checked_add (w.clock run.tick) (w.delay run.tick (m.attempts + 1)))) [
          | inl (at, e) ↦
              rw (retry_claimed, e)
                (transaction-Later (schedule_retry stamp m.id owner at (class_name f))
                  (message_retry_scheduled m.id (m.attempts + 1)) run
                  (λ rows. Step-IsSound (retrying stamp m.id owner at (class_name f))))
          | inr (_, e) ↦ rw (retry_claimed, e) (record { sound = λ s. s; tick = omega arith })
        ]

    publish-Later :
        (m : OutboxMessage) (run : Run) → Later run (publish_claimed w max_attempts owner m run).1
    unfolding publish_claimed quarantine_claimed
    publish-Later m run =
        let stamp = w.database_now run.tick in
        elim (Result-cases (w.publish m)) [
          | inl (_, e) ↦
              rw (publish_claimed, e)
                (transaction-Later (finalize_published stamp m.id owner (w.clock run.tick))
                  (message_finalized m.id) run
                  (λ rows. Step-IsSound (finalizing stamp m.id owner (w.clock run.tick))))
          | inr (f, e) ↦
              let P = λ (x : Result (Unit {0}) × Run). Later run x.1 in
              let isolates = λ (c : String).
                transaction-Later (quarantine stamp m.id owner (w.clock run.tick) c)
                  (message_quarantined m.id c) run
                  (λ rows. Step-IsSound (isolating stamp m.id owner (w.clock run.tick) c)) in
              rw (publish_claimed, e)
                (if_ind P (is_permanent_publish_error f) (λ _. isolates (class_name f))
                  (λ _.
                    if_ind P (leb max_attempts (m.attempts + 1))
                      (λ _. isolates (class_name retry_exhausted)) (λ _. retry-Later m f run)))
        ]

    stream-Later :
        (ms : List OutboxMessage) (run : Run)
        → Later run (process_key_stream w max_attempts owner ms run)
    unfolding process_key_stream
    stream-Later [] run = Later-refl run
    stream-Later (m ∷ ms) run =
        let (result, after) = publish_claimed w max_attempts owner m run in
        let first = publish-Later m run in
        let rest = stream-Later ms after in
        if_ind (Later run) (w.is_set run.tick) (λ _. Later-refl run)
          (λ _. ended result after first (Later-trans run after _ first rest))
      where
        ended :
            (result : Result (Unit {0})) (after : Run)
            → Later run after
            → Later run (process_key_stream w max_attempts owner ms after)
            → Later run (elim result [
              | ok _ ↦ process_key_stream w max_attempts owner ms after
              | raise _ ↦ after
            ])
        ended (ok u) after a b = b
        ended (raise e) after a b = a

    streams-Later :
        (streams : List (String × List OutboxMessage)) (run : Run)
        → Later run (process_streams w max_attempts owner streams run)
    unfolding process_streams
    streams-Later [] run = Later-refl run
    streams-Later ((key, ms) ∷ streams) run =
        let after = process_key_stream w max_attempts owner ms run in
        Later-trans run after _ (stream-Later ms run) (streams-Later streams after)

  -- A later run, and time has passed.
  abbrev After : Run → Run → Type 0
  After a b = (a.tick < b.tick) × (IsSound a.rows → IsSound b.rows)

  module _ (max_attempts owner : ℕ) (at expires : DateTime) (locked : ℕ → Bool) (batch_size : ℕ)
      (run : Run) where
    claim-After : After run (claim_messages w owner at expires locked batch_size run).1
    unfolding claim_messages
    claim-After =
        let stamp = w.database_now run.tick in
        let seen = w.others run.tick run.rows in
        let stays = others run.tick run.rows in
        elim (Result-cases (claim_batch stamp owner at expires batch_size locked seen)) [
          | inr (e, bad) ↦ rw (claim_messages, bad) (omega arith, stays)
          | inl ((messages, rows), good) ↦
              let claims = λ (s : IsSound run.rows).
                Step-IsSound (claiming stamp owner at expires batch_size locked messages rows good)
                  (stays s) in
              elim (Commit-cases (w.commit run.tick)) [
                | inl e ↦ rw (claim_messages, good, e) (omega arith, claims)
                | inr (inl (f, e)) ↦ rw (claim_messages, good, e) (omega arith, stays)
                | inr (inr (f, e)) ↦ rw (claim_messages, good, e) (omega arith, claims)
              ]
        ]

    claimed_round-After :
        (x : Result (List OutboxMessage) × Run)
        → After run x.1
        → After run (claimed_round w max_attempts owner x).1
    unfolding claimed_round
    claimed_round-After (raise e, after) a = a
    claimed_round-After (ok messages, after) a =
        if_ind (λ (x : Result ℕ × Run). After run x.1) (is_empty messages) (λ _. a)
          (λ _.
            let noted = record after { notes = batch_claimed (length messages) ∷ after.notes } in
            let l = streams-Later max_attempts owner (by_key [] messages) noted in
            (omega (arith, a.0, l.tick), λ s. l.sound (a.1 s)))

  after_round-After : (run : Run) (x : Result ℕ × Run) → After run x.1 → After run (after_round x)
  after_round-After run (ok n, after) a = a
  after_round-After run (raise e, after) a = (omega (arith, a.0), a.1)

  module _ (max_attempts : ℕ) (owner : ℕ → ℕ) (lease : ℤ) (locked : ℕ → ℕ → Bool)
      (batch_size : ℕ) where
    iteration-After :
        (run : Run) → After run (iteration w max_attempts owner lease locked batch_size run)
    unfolding iteration run_once
    iteration-After run =
        let o = owner run.tick in
        let hidden = locked run.tick in
        let at = w.clock run.tick in
        if_ind (λ (x : Result ℕ × Run). After run (after_round x)) (leb batch_size 0)
          (λ _. (omega arith, λ s. s))
          (λ _. elim (Result-cases (checked_add at lease)) [
            | inr (e, late) ↦ rw late (omega arith, λ s. s)
            | inl (expires, fits) ↦
                let claims = claim_messages w o at expires hidden batch_size run in
                rw fits (
                  after_round-After run (claimed_round w max_attempts o claims) (
                    claimed_round-After max_attempts o at expires hidden batch_size run claims
                      (claim-After max_attempts o at expires hidden batch_size run)))
          ])

    poll-stops :
        (stop fuel : ℕ) (run : Run)
        → ((n : ℕ) → stop ≤ n → w.is_set n ≡ true)
        → 0 < fuel
        → stop < fuel + run.tick
        → IsSound run.rows
        → (after : Run) × (poll w max_attempts owner lease locked batch_size fuel run ≡ some after)
          × (w.is_set after.tick ≡ true)
          × IsSound after.rows
    unfolding poll
    poll-stops stop zero run set some_fuel enough s = absurd (omega arith)
    poll-stops stop (suc fuel) run set some_fuel enough s = elim (Bool-cases (w.is_set run.tick)) [
      | inl e ↦ (run, rw (poll, e) refl, e, s)
      | inr e ↦
          let before_stop = early run.tick e in
          let once = iteration w max_attempts owner lease locked batch_size run in
          let (later, keeps) = iteration-After run in
          let (after, stopped, is_set, sound) =
            poll-stops stop fuel once set (omega arith) (omega arith) (keeps s) in
          (after, rw (poll, e) stopped, is_set, sound)
    ]
      where
        early : (n : ℕ) → w.is_set n ≡ false → n < stop
        early n e = elim (Bool-cases (leb stop n)) [
          | inl b ↦ absurd (ground (arith, e, set n (ground (arith, b))))
          | inr b ↦ ground (arith, b)
        ]

    -- When the stop signal is set from some time on, and what other workers commit keeps the
    -- outbox sound, the polling loop returns, whether its rounds succeed or raise: each round
    -- advances the time, so more rounds of fuel than the time of the signal are enough. It then
    -- leaves a sound outbox as a sound outbox, and it has seen the signal.
    pub poll-returns :
        (stop fuel : ℕ) (run : Run)
        → ((n : ℕ) → stop ≤ n → w.is_set n ≡ true)
        → stop < fuel
        → IsSound run.rows
        → (after : Run) × (poll w max_attempts owner lease locked batch_size fuel run ≡ some after)
          × (w.is_set after.tick ≡ true)
          × IsSound after.rows
    poll-returns stop fuel run set enough s =
        poll-stops stop fuel run set (omega arith) (omega arith) s
