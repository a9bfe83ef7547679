-- ===== src/Outbox/Fencing.antt =====
-- outbox_repository.py: only the owner of a claim settles a message, and once.
use andruha_identity_service.Prelude.{
  ℕ, String, ◌≡◌, refl, sym, ap, ◌∙◌, subst, ◌≢◌, inl, inr, Bool, true, false, some, List, [], ◌∷◌,
  arith, holds, Bool-cases,
}
use andruha_identity_service.Errors.{ok}
use andruha_identity_service.Clock.{DateTime}
use andruha_identity_service.Table.{In, Unique, exists, update}
use andruha_identity_service.Table.Laws.{In-update, updated, exists-In, Unique-In, update-none}
use andruha_identity_service.Outbox.Message.{OutboxMessage}
use andruha_identity_service.Outbox.Claim.{claim, claim_batch, chosen}
use andruha_identity_service.Outbox.Batch.{batch-Source, rows-eq}
use andruha_identity_service.Outbox.Outcome.{
  owned, finalized, rescheduled, isolated, finalize_published, schedule_retry, quarantine,
}

-- The three ways to settle a claimed message.
pub data Settlement : Type 0 where
  published : DateTime → Settlement
  retry : DateTime → String → Settlement
  poisoned : DateTime → String → Settlement

unfoldable pub settle :
    DateTime → ℕ → ℕ → Settlement → List OutboxMessage → Bool × List OutboxMessage
unfolding finalize_published schedule_retry quarantine
settle stamp id owner (published at) rows = finalize_published stamp id owner at rows
settle stamp id owner (retry at error_class) rows =
    schedule_retry stamp id owner at error_class rows
settle stamp id owner (poisoned at error_class) rows = quarantine stamp id owner at error_class rows

abbrev pub settled : DateTime → Settlement → OutboxMessage → OutboxMessage
settled stamp (published at) = finalized stamp at
settled stamp (retry at error_class) = rescheduled stamp at error_class
settled stamp (poisoned at error_class) = isolated stamp at error_class

pub settle-eq :
    (stamp : DateTime) (id owner : ℕ) (s : Settlement) (rows : List OutboxMessage)
    → settle stamp id owner s rows
      ≡ (exists (owned id owner) rows, update (owned id owner) (settled stamp s) rows)
unfolding settle
settle-eq stamp id owner (published at) rows = refl
settle-eq stamp id owner (retry at error_class) rows = refl
settle-eq stamp id owner (poisoned at error_class) rows = refl

pub not-owned-settled :
    (stamp : DateTime) (id owner : ℕ) (s : Settlement) (m : OutboxMessage)
    → owned id owner (settled stamp s m) ≡ false
unfolding owned
not-owned-settled stamp id owner (published at) m = ground arith
not-owned-settled stamp id owner (retry at error_class) m = ground arith
not-owned-settled stamp id owner (poisoned at error_class) m = ground arith

exists-owned-settled :
    (stamp : DateTime) (id owner : ℕ) (s : Settlement) (rows : List OutboxMessage)
    → exists (owned id owner) (update (owned id owner) (settled stamp s) rows) ≡ false
exists-owned-settled stamp id owner s [] = refl
exists-owned-settled stamp id owner s (m ∷ rows) =
    ground (arith, not-owned-settled stamp id owner s m, exists-owned-settled stamp id owner s rows)

settle-unowned :
    (stamp : DateTime) (id owner : ℕ) (s : Settlement) (rows : List OutboxMessage)
    → exists (owned id owner) rows ≡ false
    → settle stamp id owner s rows ≡ (false, rows)
settle-unowned stamp id owner s rows h =
    rw (settle-eq stamp id owner s rows, update-none (owned id owner) (settled stamp s) rows h, h)

-- A claim is settled at most once: after its owner has settled a message, in whichever way and
-- with whichever result, every further attempt by the same owner reports failure and changes no
-- row.
pub settle_once :
    (stamp later : DateTime) (id owner : ℕ) (s t : Settlement) (rows : List OutboxMessage)
    → settle later id owner t (settle stamp id owner s rows).1
      ≡ (false, (settle stamp id owner s rows).1)
settle_once stamp later id owner s t rows = rw (settle-eq stamp id owner s rows) (
    settle-unowned later id owner t (update (owned id owner) (settled stamp s) rows)
      (exists-owned-settled stamp id owner s rows))

module _ (stamp : DateTime) (owner : ℕ) (at expires : DateTime) (limit : ℕ) (locked : ℕ → Bool)
    (rows batch rows' : List OutboxMessage) (unique : Unique (λ m. m.id) rows)
    (claims : claim_batch stamp owner at expires limit locked rows ≡ ok (batch, rows')) where
  owned_cases :
      (id old : ℕ) (m : OutboxMessage)
      → owned id old m ≡ true
      → (m.id ≡ id) × (holds m.claim_token old ≡ true)
  unfolding owned
  owned_cases id old m h = (ground arith, ground arith)

  abbrev after_claim : OutboxMessage → OutboxMessage
  after_claim = updated (chosen at locked limit rows) (claim stamp owner expires)

  id-after_claim : (x : OutboxMessage) → (after_claim x).id ≡ x.id
  id-after_claim x = ground arith

  token-after_claim :
      (x : OutboxMessage)
      → chosen at locked limit rows x ≡ true
      → (after_claim x).claim_token ≡ some owner
  token-after_claim x h = rw h

  not_owned :
      (old : ℕ) (m : OutboxMessage)
      → In m batch
      → old ≢ owner
      → exists (owned m.id old) rows' ≡ false
  not_owned old m i other = elim (Bool-cases (exists (owned m.id old) rows')) [
    | inr none_left ↦ none_left
    | inl some_left ↦
        let (a, ia, h) = exists-In (owned m.id old) rows' some_left in
        let src =
          batch-Source stamp owner at expires limit locked rows batch rows' unique claims m i in
        let eq = rows-eq stamp owner at expires limit locked rows batch rows' unique claims in
        let (x, ix, e) =
          In-update (chosen at locked limit rows) (claim stamp owner expires) a rows
            (subst (In a) eq ia) in
        let (same_id, token) = owned_cases m.id old a h in
        let x_id =
          sym (id-after_claim x)
          ∙ sym (ap (λ (y : OutboxMessage). y.id) e)
          ∙ same_id
          ∙ ap (λ (y : OutboxMessage). y.id) src.same in
        let same = Unique-In (λ y. y.id) x src.row rows unique ix src.listed x_id in
        let held =
          ap (λ (y : OutboxMessage). y.claim_token) e
          ∙ token-after_claim x
              (subst (λ y. chosen at locked limit rows y ≡ true) (sym same) src.picked) in
        absurd (other (ground (arith, held, token)))
  ]

  -- Once a worker has claimed a message, no other can settle it, a former owner included: the
  -- attempt reports failure and changes no row.
  pub settle_stale :
      (later : DateTime) (old : ℕ) (m : OutboxMessage) (s : Settlement)
      → In m batch
      → old ≢ owner
      → settle later m.id old s rows' ≡ (false, rows')
  settle_stale later old m s i other =
      settle-unowned later m.id old s rows' (not_owned old m i other)
