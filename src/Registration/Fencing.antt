-- ===== src/Registration/Fencing.antt =====
-- registration_operation_repository.py: a claim of an operation is settled at most once, and only
-- while it is live.
use andruha_identity_service.Prelude.{
  ℕ, ◌≤◌, String, ◌≡◌, refl, sym, ap, ◌∙◌, subst, ◌≢◌, inl, inr, Bool, true, false, some, List,
  arith, Bool-cases, Option-cases, if_ind,
}
use andruha_identity_service.Clock.{DateTime}
use andruha_identity_service.Table.{In, Unique, exists, update}
use andruha_identity_service.Table.Laws.{In-update, updated, exists-In, Unique-In, update-none}
use andruha_identity_service.Registration.Operation.{RegistrationOperation}
use andruha_identity_service.Registration.Repository.{
  owned, done, complete, rescheduled, schedule_retry, stopped, block,
}

-- The three ways to end a claim.
pub data Ending : Type 0 where
  completion : DateTime → Ending
  retry : (failed_at available_at : DateTime) → String → Ending
  stop : DateTime → String → Ending

unfoldable pub end_claim :
    DateTime
    → (id owner : ℕ) → Ending
    → List RegistrationOperation
    → Bool × List RegistrationOperation
unfolding complete schedule_retry block
end_claim stamp id owner (completion at) rows = complete stamp id owner at rows
end_claim stamp id owner (retry at later error_class) rows =
    schedule_retry stamp id owner at later error_class rows
end_claim stamp id owner (stop at error_class) rows = block stamp id owner at error_class rows

abbrev pub time : Ending → DateTime
time (completion at) = at
time (retry at later error_class) = at
time (stop at error_class) = at

abbrev ended : DateTime → Ending → RegistrationOperation → RegistrationOperation
ended stamp (completion at) = done stamp at
ended stamp (retry at later error_class) = rescheduled stamp later error_class
ended stamp (stop at error_class) = stopped stamp at error_class

end_claim-eq :
    (stamp : DateTime) (id owner : ℕ) (s : Ending) (rows : List RegistrationOperation)
    → end_claim stamp id owner s rows ≡ (
      exists (owned id owner (time s)) rows,
      update (owned id owner (time s)) (ended stamp s) rows,
    )
unfolding end_claim
end_claim-eq stamp id owner (completion at) rows = refl
end_claim-eq stamp id owner (retry at later error_class) rows = refl
end_claim-eq stamp id owner (stop at error_class) rows = refl

end_claim-unowned :
    (stamp : DateTime) (id owner : ℕ) (s : Ending) (rows : List RegistrationOperation)
    → exists (owned id owner (time s)) rows ≡ false
    → end_claim stamp id owner s rows ≡ (false, rows)
end_claim-unowned stamp id owner s rows h = rw (
  end_claim-eq stamp id owner s rows,
  update-none (owned id owner (time s)) (ended stamp s) rows h,
  h,
)

not-owned-ended :
    (stamp : DateTime) (id owner : ℕ) (s : Ending) (at : DateTime) (o : RegistrationOperation)
    → owned id owner at (ended stamp s o) ≡ false
unfolding owned
not-owned-ended stamp id owner (completion _) at o = ground arith
not-owned-ended stamp id owner (retry _ _ _) at o = ground arith
not-owned-ended stamp id owner (stop _ _) at o = ground arith

id-ended : (stamp : DateTime) (s : Ending) (o : RegistrationOperation) → (ended stamp s o).id ≡ o.id
id-ended stamp (completion _) o = refl
id-ended stamp (retry _ _ _) o = refl
id-ended stamp (stop _ _) o = refl

owned-id :
    (id owner : ℕ) (at : DateTime) (o : RegistrationOperation)
    → owned id owner at o ≡ true
    → o.id ≡ id
unfolding owned
owned-id id owner at o h = ground arith

id-updated :
    (stamp : DateTime) (p : RegistrationOperation → Bool) (s : Ending) (o : RegistrationOperation)
    → (updated p (ended stamp s) o).id ≡ o.id
id-updated stamp p s o =
    if_ind (λ (x : RegistrationOperation). x.id ≡ o.id) (p o) (λ _. id-ended stamp s o) (λ _. refl)

module _ (stamp later : DateTime) (id owner : ℕ) (s t : Ending) (rows : List RegistrationOperation)
    (unique : Unique (λ o. o.id) rows) (won : (end_claim stamp id owner s rows).0 ≡ true) where
  abbrev mine : RegistrationOperation → Bool
  mine = owned id owner (time s)

  none_left : exists (owned id owner (time t)) (update mine (ended stamp s) rows) ≡ false
  none_left =
      elim (Bool-cases (exists (owned id owner (time t)) (update mine (ended stamp s) rows))) [
        | inr free ↦ free
        | inl held ↦
            let first_held = ap (λ x. x.0) (sym (end_claim-eq stamp id owner s rows)) ∙ won in
            let (y, iy, y_mine) = exists-In mine rows first_held in
            let (a, ia, a_mine) =
              exists-In (owned id owner (time t)) (update mine (ended stamp s) rows) held in
            let (x, ix, e) = In-update mine (ended stamp s) a rows ia in
            let x_id =
              sym (id-updated stamp mine s x)
              ∙ sym (ap (λ (o : RegistrationOperation). o.id) e)
              ∙ owned-id id owner (time t) a a_mine in
            let same =
              Unique-In (λ (o : RegistrationOperation). o.id) x y rows unique ix iy
                (x_id ∙ sym (owned-id id owner (time s) y y_mine)) in
            let hit : updated mine (ended stamp s) x ≡ ended stamp s x =
              is_hit x (subst (λ o. mine o ≡ true) (sym same) y_mine) in
            absurd (
              false_true (
                sym (not-owned-ended stamp id owner s (time t) x)
                ∙ ap (owned id owner (time t)) (sym (e ∙ hit))
                ∙ a_mine))
      ]
    where
      is_hit :
          (o : RegistrationOperation)
          → mine o ≡ true
          → updated mine (ended stamp s) o ≡ ended stamp s o
      is_hit o h = rw h refl

      false_true : false ≢ true
      false_true p = cc

  -- Of several attempts to end the same claim, by completion, retry or block, at any times, one
  -- succeeds: after it, every other reports that the claim is lost and changes no row.
  pub end_claim_once :
      end_claim later id owner t (end_claim stamp id owner s rows).1
      ≡ (false, (end_claim stamp id owner s rows).1)
  end_claim_once =
      rw (end_claim-eq stamp id owner s rows)
        (end_claim-unowned later id owner t (update mine (ended stamp s) rows) none_left)

not-owned_expired :
    (id owner : ℕ) (at : DateTime) (rows : List RegistrationOperation)
    → ((o : RegistrationOperation) (until : DateTime)
        → In o rows
        → o.id ≡ id
        → o.claim_expires_at ≡ some until
        → until.instant ≤ at.instant)
    → exists (owned id owner at) rows ≡ false
unfolding owned
not-owned_expired id owner at rows late = elim (Bool-cases (exists (owned id owner at) rows)) [
  | inr free ↦ free
  | inl held ↦
      let (o, i, h) = exists-In (owned id owner at) rows held in
      elim (Option-cases o.claim_expires_at) [
        | inl missing ↦ absurd (ground (arith, missing, h))
        | inr (until, e) ↦ absurd (ground (arith, e, h, late o until i (ground (arith, h)) e))
      ]
]

-- Once the lease of a claim is over, its owner can no longer complete, retry or block the
-- operation: the attempt reports failure and changes no row.
pub end_claim_expired :
    (stamp : DateTime) (id owner : ℕ) (s : Ending) (rows : List RegistrationOperation)
    → ((o : RegistrationOperation) (until : DateTime)
        → In o rows
        → o.id ≡ id
        → o.claim_expires_at ≡ some until
        → until.instant ≤ (time s).instant)
    → end_claim stamp id owner s rows ≡ (false, rows)
end_claim_expired stamp id owner s rows late =
    end_claim-unowned stamp id owner s rows (not-owned_expired id owner (time s) rows late)
