-- ===== src/Relay/Round.antt =====
-- relay.py: `run_once` as a whole.
use andruha_identity_service.Prelude.{
  ℕ, ◌+◌, ◌≡◌, refl, sym, ap, ◌∙◌, subst, ◌⊎◌, inl, inr, Bool, true, List, [], ◌∷◌, arith,
  Bool-cases, length,
}
use andruha_identity_service.Errors.{Result, ok, raise}
use andruha_identity_service.Clock.{DateTime, ℤ, ◌+ℤ◌}
use andruha_identity_service.Table.{In, Unique, update}
use andruha_identity_service.Table.Laws.{updated, update-In, Unique-In}
use andruha_identity_service.Outbox.Message.{OutboxMessage}
use andruha_identity_service.Outbox.Claim.{claim, claim_batch, chosen}
use andruha_identity_service.Outbox.Batch.{batch-Source, rows-eq}
use andruha_identity_service.Outbox.Outcome.{owned}
use andruha_identity_service.Outbox.Fencing.{settled}
use andruha_identity_service.Relay.{
  World, Run, process_streams, by_key, run_once, is_empty, Note, batch_claimed,
}
use andruha_identity_service.Relay.Streams.{Listed-iff}
use andruha_identity_service.Relay.Settled.{Settled, settlement-Settled}
use andruha_identity_service.Relay.Settling.{settlement, IsQuiet, Done, streams-settle}

module _ (w : World) (max_attempts owner : ℕ) (lease : ℤ) (locked : ℕ → Bool) (batch_size : ℕ)
    (run run' : Run) (n : ℕ) (quiet : IsQuiet w) (unique : Unique (λ m. m.id) run.rows)
    (round : run_once w max_attempts owner lease locked batch_size run ≡ (ok n, run')) where
  abbrev at : DateTime
  at = w.clock run.tick

  abbrev stamp : DateTime
  stamp = w.database_now run.tick

  -- What a successful round went through.
  record Claims : Type 0 where
    batch : List OutboxMessage
    rows : List OutboxMessage
    claims : claim_batch stamp owner at (at +ℤ lease) batch_size locked run.rows ≡ ok (batch, rows)
    count : n ≡ length batch
    ends :
        (is_empty batch ≡ true)
        ⊎ (notes : List Note) × (run'
            ≡ process_streams w max_attempts owner
                (by_key [] batch)
                (record { rows = rows; tick = run.tick + 1; notes = notes }))

  round-Claims : Claims
  unfolding run_once
  round-Claims =
      at_result (claim_batch stamp owner at (at +ℤ lease) batch_size locked run.rows) refl
    where
      at_result :
          (r : Result (List OutboxMessage × List OutboxMessage))
          → claim_batch stamp owner at (at +ℤ lease) batch_size locked run.rows ≡ r
          → Claims
      at_result (raise e) h =
          absurd (ground (arith, h, round, quiet.alone run.tick run.rows, quiet.commits run.tick))
      at_result (ok (batch, rows)) h = record {
        batch = batch;
        rows = rows;
        claims = h;
        count = ground (arith, h, round, quiet.alone run.tick run.rows, quiet.commits run.tick);
        ends = elim (Bool-cases (is_empty batch)) [
          | inl e ↦ inl e
          | inr some_claimed ↦ inr (
            batch_claimed (length batch) ∷ run.notes,
            ground (
              arith,
              h,
              round,
              some_claimed,
              quiet.alone run.tick run.rows,
              quiet.commits run.tick,
            ),
          )
        ];
      }

  own-claim :
      (r : OutboxMessage)
      → owned (claim stamp owner (at +ℤ lease) r).id owner (claim stamp owner (at +ℤ lease) r)
        ≡ true
  unfolding owned
  own-claim r = ground arith

  module _ (c : Claims) where
    claimed-row : (m : OutboxMessage) → In m c.batch → In m c.rows × (owned m.id owner m ≡ true)
    claimed-row m i =
        let src =
          batch-Source stamp owner at (at +ℤ lease) batch_size locked run.rows c.batch c.rows unique
            c.claims m i in
        let eq =
          rows-eq stamp owner at (at +ℤ lease) batch_size locked run.rows c.batch c.rows unique
            c.claims in
        let hit = chosen at locked batch_size run.rows in
        let moved : updated hit (claim stamp owner (at +ℤ lease)) src.row ≡ m =
          rw src.picked (sym src.same) in
        (
          subst (In m) (sym eq) (
              subst (λ y. In y (update hit (claim stamp owner (at +ℤ lease)) run.rows)) moved
                (update-In hit (claim stamp owner (at +ℤ lease)) src.row run.rows src.listed)),
          subst (λ y. owned y.id owner y ≡ true) (sym src.same) (own-claim src.row),
        )

    batch-distinct : (a b : OutboxMessage) → In a c.batch → In b c.batch → a.id ≡ b.id → a ≡ b
    batch-distinct a b i j e =
        let s =
          batch-Source stamp owner at (at +ℤ lease) batch_size locked run.rows c.batch c.rows unique
            c.claims a i in
        let t =
          batch-Source stamp owner at (at +ℤ lease) batch_size locked run.rows c.batch c.rows unique
            c.claims b j in
        let ids =
          sym (ap (λ (m : OutboxMessage). m.id) s.same)
          ∙ e
          ∙ ap (λ (m : OutboxMessage). m.id) t.same in
        s.same
        ∙ ap (claim stamp owner (at +ℤ lease))
            (Unique-In (λ m. m.id) s.row t.row run.rows unique s.listed t.listed ids)
        ∙ sym t.same

    settles : (m : OutboxMessage) → In m c.batch → Done w max_attempts owner quiet m run'
    settles m i = elim c.ends [
      | inl none_claimed ↦ absurd (empty c.batch none_claimed i)
      | inr (notes, e) ↦ subst (Done w max_attempts owner quiet m) (sym e) (
          streams-settle w max_attempts owner quiet c.batch batch-distinct m (by_key [] c.batch)
            (record { rows = c.rows; tick = run.tick + 1; notes = notes })
            ((Listed-iff m c.batch).1 i) (λ x l. (Listed-iff x c.batch).0 l)
            (inl (claimed-row m i)))
    ]
      where
        empty : (ms : List OutboxMessage) → is_empty ms ≡ true → In m ms → ⊥
        empty [] h j = j
        empty (x ∷ ms) h j = cc

  -- A round that ends, with no other worker writing, no commit that fails, no stop signal and no
  -- delay that leads past the times that a `datetime` can be, returns the number of messages that
  -- it claimed, and leaves each of them settled as the broker's answer asks, at some reading of the
  -- clock: successful if the broker took it; quarantined, with the error's name, if it was refused
  -- for good or its attempts are used up; and otherwise pending until its next attempt. Each has
  -- one more attempt and no claim.
  pub run_once-settles :
      (batch : List OutboxMessage) × (rows : List OutboxMessage) × (claim_batch stamp owner at
          (at +ℤ lease)
          batch_size
          locked
          run.rows
        ≡ ok (batch, rows))
      × (n ≡ length batch)
      × ((m : OutboxMessage)
          → In m batch
          → (tick : ℕ) × (row : OutboxMessage) × In row run'.rows
            × Settled w max_attempts tick m row)
  run_once-settles =
      let c = round-Claims in
      (
        c.batch,
        c.rows,
        c.claims,
        c.count,
        λ m i.
            let (tick, there) = settles c m i in
            (
              tick,
              settled (w.database_now tick) (settlement w max_attempts tick m) m,
              there,
              settlement-Settled w max_attempts tick m,
            ),
      )
