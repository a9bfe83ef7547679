-- ===== src/Relay/Settling.antt =====
-- relay.py: a round settles every message that it claimed, as the broker's answer asks.
use andruha_identity_service.Prelude.{
  ℕ, ◌+◌, String, ◌≡◌, refl, sym, ap, ◌∙◌, subst, ◌⊎◌, inl, inr, Bool, true, false, List, [], ◌∷◌,
  arith, leb, ◌==◌, if◌then◌else◌, Bool-cases,
}
use andruha_identity_service.Errors.{
  ok, raise, class_name, retry_exhausted, is_permanent_publish_error,
}
use andruha_identity_service.Clock.{◌+ℤ◌, Fits, checked_add-Fits}
use andruha_identity_service.UnitOfWork.{committed}
use andruha_identity_service.Table.{In}
use andruha_identity_service.Table.Laws.{updated, update-In}
use andruha_identity_service.Outbox.Message.{OutboxMessage}
use andruha_identity_service.Outbox.Outcome.{owned}
use andruha_identity_service.Outbox.Fencing.{
  Settlement, published, retry, poisoned, settle, settled, settle-eq, not-owned-settled,
}
use andruha_identity_service.Relay.{
  World, Run, publish_claimed, process_key_stream, process_streams,
}
use andruha_identity_service.Relay.Streams.{Listed}

-- How the message is to be settled, at the `n`th reading of the clock: published; quarantined, if
-- the broker refuses it for good or the attempts are used up; or retried later.
unfoldable pub settlement : World → ℕ → ℕ → OutboxMessage → Settlement
settlement w max_attempts n m = elim (w.publish m) [
  | ok _ ↦ published (w.clock n)
  | raise e ↦
      if is_permanent_publish_error e
      then poisoned (w.clock n) (class_name e)
      else if leb max_attempts (m.attempts + 1)
      then poisoned (w.clock n) (class_name retry_exhausted)
      else retry (w.clock n +ℤ w.delay n (m.attempts + 1)) (class_name e)
]

-- No other worker writes, every transaction commits, a delay leads to a time that a `datetime` can
-- be, and nobody asks the worker to stop.
pub record IsQuiet (w : World) : Type 0 where
  pub alone : (n : ℕ) (rows : List OutboxMessage) → w.others n rows ≡ rows
  pub commits : (n : ℕ) → w.commit n ≡ committed
  pub fits : (n attempt : ℕ) → Fits (w.clock n) (w.delay n attempt)
  pub goes_on : (n : ℕ) → w.is_set n ≡ false

module _ (w : World) (max_attempts owner : ℕ) (quiet : IsQuiet w) where
  publish_claimed-settle :
      (m : OutboxMessage) (run : Run)
      → ((publish_claimed w max_attempts owner m run).0 ≡ ok tt)
        × ((publish_claimed w max_attempts owner m run).1.rows
            ≡ (settle
                (w.database_now run.tick)
                m.id
                owner
                (settlement w max_attempts run.tick m)
                run.rows).1)
  unfolding publish_claimed settle settlement
  publish_claimed-settle m run = ground (
    arith,
    quiet.alone run.tick run.rows,
    quiet.commits run.tick,
    checked_add-Fits (w.clock run.tick) (w.delay run.tick (m.attempts + 1))
        (quiet.fits run.tick (m.attempts + 1)),
  )

  process-cons :
      (m : OutboxMessage) (ms : List OutboxMessage) (run : Run)
      → process_key_stream w max_attempts owner (m ∷ ms) run
        ≡ process_key_stream w max_attempts owner ms (publish_claimed w max_attempts owner m run).1
  unfolding process_key_stream
  process-cons m ms run = ground (arith, quiet.goes_on run.tick, (publish_claimed-settle m run).0)

  abbrev pub Pending : OutboxMessage → Run → Type 0
  Pending m run = In m run.rows × (owned m.id owner m ≡ true)

  -- The row of the message is as its settlement leaves it.
  abbrev pub Done : OutboxMessage → Run → Type 0
  Done m run = (n : ℕ) × In (settled (w.database_now n) (settlement w max_attempts n m) m) run.rows

  module _ (x : OutboxMessage) (run : Run) where
    after :
        (m : OutboxMessage)
        → In m run.rows
        → In
            (updated
              (owned x.id owner)
              (settled (w.database_now run.tick) (settlement w max_attempts run.tick x))
              m)
            (publish_claimed w max_attempts owner x run).1.rows
    after m i =
        subst
          (In (
            updated (owned x.id owner)
              (settled (w.database_now run.tick) (settlement w max_attempts run.tick x)) m))
          (sym (
            (publish_claimed-settle x run).1
            ∙ ap (λ (p : Bool × List OutboxMessage). p.1)
                (settle-eq (w.database_now run.tick) x.id owner
                  (settlement w max_attempts run.tick x) run.rows)))
          (update-In (owned x.id owner)
            (settled (w.database_now run.tick) (settlement w max_attempts run.tick x)) m run.rows i)

    stays :
        (m : OutboxMessage)
        → owned x.id owner m ≡ false
        → In m run.rows
        → In m (publish_claimed w max_attempts owner x run).1.rows
    stays m h i =
        subst (λ y. In y (publish_claimed w max_attempts owner x run).1.rows)
          (unmoved (settled (w.database_now run.tick) (settlement w max_attempts run.tick x)))
          (after m i)
      where
        unmoved : (f : OutboxMessage → OutboxMessage) → updated (owned x.id owner) f m ≡ m
        unmoved f = rw h

    publish-Done :
        (m : OutboxMessage) → Done m run → Done m (publish_claimed w max_attempts owner x run).1
    publish-Done m (n, i) = (
      n,
      stays (settled (w.database_now n) (settlement w max_attempts n m) m)
          (not-owned-settled (w.database_now n) x.id owner (settlement w max_attempts n m) m) i,
    )

    publish-settles : Pending x run → Done x (publish_claimed w max_attempts owner x run).1
    publish-settles (i, h) = (
      run.tick,
      subst (λ y. In y (publish_claimed w max_attempts owner x run).1.rows)
          (moved (settled (w.database_now run.tick) (settlement w max_attempts run.tick x)))
          (after x i),
    )
      where
        moved : (f : OutboxMessage → OutboxMessage) → updated (owned x.id owner) f x ≡ f x
        moved f = rw h

  -- `batch` determines a message by its identifier.
  abbrev pub Distinct : List OutboxMessage → Type 0
  Distinct batch = (a b : OutboxMessage) → In a batch → In b batch → a.id ≡ b.id → a ≡ b

  owned_other :
      (a b m : OutboxMessage) → (a.id == b.id) ≡ false → m ≡ b → owned a.id owner m ≡ false
  unfolding owned
  owned_other a b m h e = rw e (ground arith)

  module _ (batch : List OutboxMessage) (distinct : Distinct batch) where
    abbrev pub State : OutboxMessage → Run → Type 0
    State m run = Pending m run ⊎ Done m run

    publish-State :
        (x m : OutboxMessage) (run : Run)
        → In x batch
        → In m batch
        → State m run
        → State m (publish_claimed w max_attempts owner x run).1
    publish-State x m run ix im (inr d) = inr (publish-Done x run m d)
    publish-State x m run ix im (inl p) = elim (Bool-cases (x.id == m.id)) [
      | inl same ↦
          let e = distinct x m ix im (ground arith) in
          inr (
            subst (λ y. Done y (publish_claimed w max_attempts owner x run).1) e
              (publish-settles x run (subst (λ y. Pending y run) (sym e) p)))
      | inr other ↦ inl (stays x run m (owned_other x m m other refl) p.0, p.1)
    ]

    self-Done :
        (m : OutboxMessage) (run : Run)
        → State m run
        → Done m (publish_claimed w max_attempts owner m run).1
    self-Done m run (inl p) = publish-settles m run p
    self-Done m run (inr d) = publish-Done m run m d

    stream-State :
        (m : OutboxMessage) (ms : List OutboxMessage) (run : Run)
        → In m batch
        → ((x : OutboxMessage) → In x ms → In x batch)
        → State m run
        → State m (process_key_stream w max_attempts owner ms run)
    stream-State m [] run im sub s = unfold process_key_stream in s
    stream-State m (x ∷ ms) run im sub s = subst (State m) (sym (process-cons x ms run)) (
        stream-State m ms (publish_claimed w max_attempts owner x run).1 im (λ y i. sub y (inr i))
          (publish-State x m run (sub x (inl refl)) im s))

    stream-Done :
        (m : OutboxMessage) (ms : List OutboxMessage) (run : Run)
        → ((x : OutboxMessage) → In x ms → In x batch)
        → Done m run
        → Done m (process_key_stream w max_attempts owner ms run)
    stream-Done m [] run sub d = unfold process_key_stream in d
    stream-Done m (x ∷ ms) run sub d = subst (Done m) (sym (process-cons x ms run)) (
        stream-Done m ms (publish_claimed w max_attempts owner x run).1 (λ y i. sub y (inr i))
          (publish-Done x run m d))

    stream-settles :
        (m : OutboxMessage) (ms : List OutboxMessage) (run : Run)
        → In m ms
        → ((x : OutboxMessage) → In x ms → In x batch)
        → State m run
        → Done m (process_key_stream w max_attempts owner ms run)
    stream-settles m [] run i sub s = absurd i
    stream-settles m (x ∷ ms) run (inl e) sub s = subst (Done m) (sym (process-cons x ms run)) (
        stream-Done m ms (publish_claimed w max_attempts owner x run).1 (λ y i. sub y (inr i))
          (subst (λ y. Done m (publish_claimed w max_attempts owner y run).1) e
            (self-Done m run s)))
    stream-settles m (x ∷ ms) run (inr i) sub s = subst (Done m) (sym (process-cons x ms run)) (
        stream-settles m ms (publish_claimed w max_attempts owner x run).1 i (λ y j. sub y (inr j))
          (publish-State x m run (sub x (inl refl)) (sub m (inr i)) s))

    streams-Done :
        (m : OutboxMessage) (streams : List (String × List OutboxMessage)) (run : Run)
        → ((x : OutboxMessage) → Listed x streams → In x batch)
        → Done m run
        → Done m (process_streams w max_attempts owner streams run)
    unfolding process_streams
    streams-Done m [] run sub d = d
    streams-Done m ((key, ms) ∷ streams) run sub d =
        streams-Done m streams (process_key_stream w max_attempts owner ms run)
          (λ x l. sub x (inr l)) (stream-Done m ms run (λ x i. sub x (inl i)) d)

    pub streams-settle :
        (m : OutboxMessage) (streams : List (String × List OutboxMessage)) (run : Run)
        → Listed m streams
        → ((x : OutboxMessage) → Listed x streams → In x batch)
        → State m run
        → Done m (process_streams w max_attempts owner streams run)
    unfolding process_streams
    streams-settle m [] run l sub s = absurd l
    streams-settle m ((key, ms) ∷ streams) run (inl i) sub s =
        streams-Done m streams (process_key_stream w max_attempts owner ms run)
          (λ x l. sub x (inr l)) (stream-settles m ms run i (λ x j. sub x (inl j)) s)
    streams-settle m ((key, ms) ∷ streams) run (inr l) sub s =
        streams-settle m streams (process_key_stream w max_attempts owner ms run) l
          (λ x k. sub x (inr k)) (stream-State m ms run (sub m (inr l)) (λ x i. sub x (inl i)) s)
