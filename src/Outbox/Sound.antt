-- ===== src/Outbox/Sound.antt =====
-- outbox_repository.py: what every sequence of statements keeps true of the outbox.
use andruha_identity_service.Prelude.{
  ℕ, String, ◌≡◌, refl, sym, ◌∙◌, subst, inl, inr, Bool, true, false, not, ◌&&◌, List, [], arith,
  str_eq, eq_iff, ◌==◌, Bool-cases, if_ind,
}
use andruha_identity_service.Errors.{ok}
use andruha_identity_service.Clock.{DateTime}
use andruha_identity_service.Table.{In, Unique, exists, update, delete}
use andruha_identity_service.Table.Laws.{
  In-update, updated, Unique-update, Unique-select, exists-false_In, In-select,
}
use andruha_identity_service.Outbox.Message.{OutboxMessage, is_claimed, is_nonterminal, earlier}
use andruha_identity_service.Outbox.Claim.{claim, claim_batch, chosen}
use andruha_identity_service.Outbox.Batch.{
  chosen-claimable, claimable-first, claimable_cases, eligible-is_nonterminal,
}
use andruha_identity_service.Outbox.Outcome.{
  Event, publish, owned, finalized, rescheduled, isolated, redriven, redrivable, finalize_published,
  schedule_retry, quarantine, redrive_quarantined, delete_terminal_before, removable,
}
use andruha_identity_service.Outbox.Lifecycle.{HasLifecycle}
use andruha_identity_service.Outbox.System.{
  precedes, written, Step, publishing, claiming, finalizing, retrying, isolating, redriving,
  deleting, Reach, here, next,
}

pub record IsSound (rows : List OutboxMessage) : Type 0 where
  pub unique : Unique (λ m. m.id) rows
  pub lifecycle : (m : OutboxMessage) → In m rows → HasLifecycle m
  pub fifo :
      (c e : OutboxMessage)
      → In c rows
      → In e rows
      → is_claimed c.status ≡ true
      → is_nonterminal e.status ≡ true
      → precedes e c ≡ false

-- The fields that place a message among those of its key.
pub record SamePlace (f : OutboxMessage → OutboxMessage) : Type 0 where
  pub id : (m : OutboxMessage) → (f m).id ≡ m.id
  pub key : (m : OutboxMessage) → (f m).key ≡ m.key
  pub created : (m : OutboxMessage) → (f m).created_at ≡ m.created_at

precedes-cong :
    (a b c d : OutboxMessage)
    → a.id ≡ b.id
    → a.key ≡ b.key
    → a.created_at ≡ b.created_at
    → c.id ≡ d.id
    → c.key ≡ d.key
    → c.created_at ≡ d.created_at
    → precedes a c ≡ precedes b d
unfolding earlier
precedes-cong a b c d i k t j l u = rw (i, k, t, j, l, u)

module _ (p : OutboxMessage → Bool) (f : OutboxMessage → OutboxMessage) (same : SamePlace f) where
  updated-SamePlace : SamePlace (updated p f)
  updated-SamePlace = record {
    id = λ m. ground (arith, same.id m);
    key = λ m. ground (arith, same.key m);
    created = λ m. ground (arith, same.created m);
  }

  precedes-updated : (e c : OutboxMessage) → precedes (updated p f e) (updated p f c) ≡ precedes e c
  precedes-updated e c =
      let s = updated-SamePlace in
      precedes-cong (updated p f e) e (updated p f c) c (s.id e) (s.key e) (s.created e) (s.id c)
        (s.key c) (s.created c)

  -- What an UPDATE of `f` has to keep: the lifecycle; what it claims has no unfinished
  -- predecessor, and what it makes unfinished again has no successor.
  record Keeps (rows : List OutboxMessage) : Type 0 where
    life : (m : OutboxMessage) → p m ≡ true → HasLifecycle m → HasLifecycle (f m)
    claims :
        (c e : OutboxMessage)
        → In c rows
        → In e rows
        → p c ≡ true
        → is_claimed (f c).status ≡ true
        → is_nonterminal e.status ≡ true
        → precedes e c ≡ false
    revives :
        (c e : OutboxMessage)
        → In c rows
        → In e rows
        → p e ≡ true
        → is_nonterminal (f e).status ≡ true
        → is_nonterminal e.status ≡ false
        → precedes e c ≡ false

  module _ (rows : List OutboxMessage) (s : IsSound rows) (k : Keeps rows) where
    updated-fifo :
        (c e : OutboxMessage)
        → In c rows
        → In e rows
        → is_claimed (updated p f c).status ≡ true
        → is_nonterminal (updated p f e).status ≡ true
        → precedes e c ≡ false
    updated-fifo c e i j cl nt = elim (Bool-cases (is_nonterminal e.status)) [
      | inl unfinished ↦ elim (Bool-cases (p c)) [
        | inl hit ↦ k.claims c e i j hit (rw hit at cl) unfinished
        | inr miss ↦ s.fifo c e i j (rw miss at cl) unfinished
      ]
      | inr finished ↦ elim (Bool-cases (p e)) [
        | inl hit ↦ k.revives c e i j hit (rw hit at nt) finished
        | inr miss ↦ absurd (ground (arith, finished, nt))
      ]
    ]

    updated-lifecycle : (m : OutboxMessage) → In m rows → HasLifecycle (updated p f m)
    updated-lifecycle m i =
        if_ind HasLifecycle (p m) (λ hit. k.life m hit (s.lifecycle m i)) (λ _. s.lifecycle m i)

    update-IsSound : IsSound (update p f rows)
    update-IsSound = record {
      unique = Unique-update p f (λ m. m.id) same.id rows s.unique;
      lifecycle = λ m i.
          let (x, ix, e) = In-update p f m rows i in
          subst HasLifecycle (sym e) (updated-lifecycle x ix);
      fifo = λ c e i j cl nt.
          let (c0, ic, ec) = In-update p f c rows i in
          let (e0, ie, ee) = In-update p f e rows j in
          subst (λ x. precedes x c ≡ false) (sym ee)
            (subst (λ y. precedes (updated p f e0) y ≡ false) (sym ec)
              (precedes-updated e0 c0
                ∙ updated-fifo c0 e0 ic ie (subst (λ y. is_claimed y.status ≡ true) ec cl)
                    (subst (λ y. is_nonterminal y.status ≡ true) ee nt)));
    }

claim-Keeps :
    (stamp : DateTime) (owner : ℕ) (at expires : DateTime) (limit : ℕ) (locked : ℕ → Bool)
    (rows : List OutboxMessage)
    → IsSound rows
    → Keeps
        (chosen at locked limit rows)
        (claim stamp owner expires)
        (record { id = λ m. refl; key = λ m. refl; created = λ m. refl })
        rows
claim-Keeps stamp owner at expires limit locked rows s = record {
  life = λ m h l. (refl, refl, refl);
  claims = λ c e i j h cl nt.
      claimable-first at locked rows c e (chosen-claimable at locked rows limit c s.unique i h) j
        nt;
  revives = λ c e i j h nt fin. cc (
    fin,
    eligible-is_nonterminal at locked rows e
        (claimable_cases at locked rows e (chosen-claimable at locked rows limit e s.unique j h)).0,
  );
}

module _ (stamp : DateTime) (id owner : ℕ) (rows : List OutboxMessage) where
  owned-is_nonterminal :
      (m : OutboxMessage) → owned id owner m ≡ true → is_nonterminal m.status ≡ true
  unfolding owned
  owned-is_nonterminal m h = ground arith

  finalize-IsSound :
      (at : DateTime) → IsSound rows → IsSound (finalize_published stamp id owner at rows).1
  unfolding finalize_published
  finalize-IsSound at s =
      update-IsSound (owned id owner) (finalized stamp at)
        (record { id = λ m. refl; key = λ m. refl; created = λ m. refl }) rows s
        (record {
          life = λ m h l. (refl, refl, refl);
          claims = λ c e i j h cl nt. cc;
          revives = λ c e i j h nt fin. cc;
        })

  quarantine-IsSound :
      (at : DateTime) (error_class : String)
      → IsSound rows
      → IsSound (quarantine stamp id owner at error_class rows).1
  unfolding quarantine
  quarantine-IsSound at error_class s =
      update-IsSound (owned id owner) (isolated stamp at error_class)
        (record { id = λ m. refl; key = λ m. refl; created = λ m. refl }) rows s
        (record {
          life = λ m h l. (refl, refl, refl);
          claims = λ c e i j h cl nt. cc;
          revives = λ c e i j h nt fin. cc;
        })

  retry-IsSound :
      (at : DateTime) (error_class : String)
      → IsSound rows
      → IsSound (schedule_retry stamp id owner at error_class rows).1
  unfolding schedule_retry
  retry-IsSound at error_class s =
      update-IsSound (owned id owner) (rescheduled stamp at error_class)
        (record { id = λ m. refl; key = λ m. refl; created = λ m. refl }) rows s
        (record {
          life = λ m h l. (refl, refl, refl);
          claims = λ c e i j h cl nt. cc;
          revives = λ c e i j h nt fin. cc (fin, owned-is_nonterminal e h);
        })

-- A message that may be redriven has no successor with its key.
redrivable-last :
    (id : ℕ) (rows : List OutboxMessage) (c e : OutboxMessage)
    → In c rows
    → In e rows
    → redrivable id rows e ≡ true
    → precedes e c ≡ false
unfolding redrivable
redrivable-last id rows c e i j h = ground (
  arith,
  exists-false_In (λ t. t.id == id && exists (λ m. str_eq m.key t.key && earlier t m) rows) e rows,
  exists-false_In (λ m. str_eq m.key e.key && earlier e m) c rows,
  eq_iff e.key c.key,
  eq_iff c.key e.key,
  i,
  j,
)

redrive-IsSound :
    (stamp : DateTime) (id : ℕ) (at : DateTime) (rows : List OutboxMessage)
    → IsSound rows
    → IsSound (redrive_quarantined stamp id at rows).1
unfolding redrive_quarantined
redrive-IsSound stamp id at rows s =
    update-IsSound (redrivable id rows) (redriven stamp at)
      (record { id = λ m. refl; key = λ m. refl; created = λ m. refl }) rows s
      (record {
        life = λ m h l. (refl, refl, refl);
        claims = λ c e i j h cl nt. cc;
        revives = λ c e i j h nt fin. redrivable-last id rows c e i j h;
      })

publish-IsSound :
    (topic : String) (e : Event) (rows : List OutboxMessage)
    → exists (λ m. m.id == e.event_id) rows ≡ false
    → ((m n : OutboxMessage) → In m rows → In n (written topic e) → precedes n m ≡ false)
    → IsSound rows
    → IsSound (publish topic e rows)
unfolding publish
publish-IsSound topic e rows new last s = record {
  unique = (new, s.unique);
  lifecycle = λ m i. elim i [
    | inl q ↦ subst HasLifecycle (sym q) (refl, refl, refl)
    | inr j ↦ s.lifecycle m j
  ];
  fifo = λ c m i j cl nt. elim i [
    | inl q ↦ absurd (fresh (subst (λ x. is_claimed x.status ≡ true) q cl))
    | inr ic ↦ elim j [ inl q ↦ last c m ic (inl q) | inr jm ↦ s.fifo c m ic jm cl nt ]
  ];
}
  where
    fresh : false ≡ true → ⊥
    fresh h = cc

delete-IsSound :
    (p : OutboxMessage → Bool) (rows : List OutboxMessage) → IsSound rows → IsSound (delete p rows)
delete-IsSound p rows s =
    let kept = λ (m : OutboxMessage). not (p m) in
    record {
      unique = Unique-select (λ m. m.id) kept rows s.unique;
      lifecycle = λ m i. s.lifecycle m (In-select kept m rows i).0;
      fifo = λ c e i j. s.fifo c e (In-select kept c rows i).0 (In-select kept e rows j).0;
    }

claim_batch-rows :
    (stamp : DateTime) (owner : ℕ) (at expires : DateTime) (limit : ℕ) (locked : ℕ → Bool)
    (rows batch rows' : List OutboxMessage)
    → claim_batch stamp owner at expires limit locked rows ≡ ok (batch, rows')
    → rows' ≡ update (chosen at locked limit rows) (claim stamp owner expires) rows
unfolding claim_batch
claim_batch-rows stamp owner at expires limit locked rows batch rows' h = ground arith

delete-rows :
    (cutoff : DateTime) (limit : ℕ) (locked : ℕ → Bool) (count : ℕ)
    (rows rows' : List OutboxMessage)
    → delete_terminal_before cutoff limit locked rows ≡ ok (count, rows')
    → rows' ≡ delete (removable cutoff limit locked rows) rows
unfolding delete_terminal_before
delete-rows cutoff limit locked count rows rows' h = ground arith

pub Step-IsSound : {xs ys : List OutboxMessage} → Step xs ys → IsSound xs → IsSound ys
Step-IsSound {xs} (publishing topic e new last) s = publish-IsSound topic e xs new last s
Step-IsSound {xs} {ys} (claiming stamp owner at expires limit locked batch rows' h) s =
    subst IsSound (sym (claim_batch-rows stamp owner at expires limit locked xs batch ys h)) (
      update-IsSound (chosen at locked limit xs) (claim stamp owner expires)
        (record { id = λ m. refl; key = λ m. refl; created = λ m. refl }) xs s
        (claim-Keeps stamp owner at expires limit locked xs s))
Step-IsSound {xs} (finalizing stamp id owner at) s = finalize-IsSound stamp id owner xs at s
Step-IsSound {xs} (retrying stamp id owner at c) s = retry-IsSound stamp id owner xs at c s
Step-IsSound {xs} (isolating stamp id owner at c) s = quarantine-IsSound stamp id owner xs at c s
Step-IsSound {xs} (redriving stamp id at) s = redrive-IsSound stamp id at xs s
Step-IsSound {xs} {ys} (deleting cutoff limit locked count rows' h) s =
    subst IsSound (sym (delete-rows cutoff limit locked count xs ys h))
      (delete-IsSound (removable cutoff limit locked xs) xs s)

IsSound-nil : IsSound []
IsSound-nil = record { unique = tt; lifecycle = λ m i. absurd i; fifo = λ c e i. absurd i }

Reach-keeps-IsSound : {xs ys : List OutboxMessage} → Reach xs ys → IsSound xs → IsSound ys
Reach-keeps-IsSound here s = s
Reach-keeps-IsSound (next r st) s = Step-IsSound st (Reach-keeps-IsSound r s)

-- From an empty outbox, after any statements of any number of workers, as long as an event comes
-- with a new identifier and not before a stored message of its key: identifiers are unique, every
-- message satisfies the lifecycle constraint of the table, and no unfinished message stands before
-- a claimed one of the same key.
pub Reach-IsSound : (rows : List OutboxMessage) → Reach [] rows → IsSound rows
Reach-IsSound rows r = Reach-keeps-IsSound r IsSound-nil
