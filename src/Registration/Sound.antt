-- ===== src/Registration/Sound.antt =====
-- registration_operation_repository.py: what every sequence of statements keeps true of the
-- operations.
use andruha_identity_service.Prelude.{
  ℕ, String, ◌≢◌, eq_iff, ◌≡◌, refl, sym, subst, inl, inr, Bool, true, false, not, ◌&&◌, Option,
  List, [], ◌∷◌, arith, ◌==◌, is_some, Bool-cases, if_ind, take,
}
use andruha_identity_service.Errors.{ok}
use andruha_identity_service.Clock.{DateTime, Bytes}
use andruha_identity_service.Table.{In, Unique, exists, select, update, order_by}
use andruha_identity_service.Table.Laws.{
  In-update, updated, exists-In, In-take, In-order_by, In-select, Unique-In,
}
use andruha_identity_service.Registration.Operation.{RegistrationOperation}
use andruha_identity_service.Registration.Repository.{
  conflicts, try_create, eligible, claim, claimable_by_key, claim_by_key_hash, chosen, claim_batch,
  owned, done, complete, rescheduled, schedule_retry, sooner, stopped, block, redrivable, redriven,
  redrive_blocked,
}
use andruha_identity_service.Registration.Lifecycle.{HasLifecycle}

-- A step: one statement of the repository, run by any worker at any time.
pub data Step : List RegistrationOperation → List RegistrationOperation → Type 0 where
  creating :
      {rows : List RegistrationOperation} (o : RegistrationOperation)
      → HasLifecycle o
      → Step rows (try_create o rows).1
  claiming_key :
      {rows : List RegistrationOperation} (stamp : DateTime) (key_hash : Bytes) (owner : ℕ)
      (at expires : DateTime) (taken : Option RegistrationOperation)
      (rows' : List RegistrationOperation)
      → claim_by_key_hash stamp key_hash owner at expires rows ≡ ok (taken, rows')
      → Step rows rows'
  claiming :
      {rows : List RegistrationOperation} (stamp : DateTime) (owner : ℕ) (at expires : DateTime)
      (limit : ℕ) (locked : ℕ → Bool) (batch rows' : List RegistrationOperation)
      → claim_batch stamp owner at expires limit locked rows ≡ ok (batch, rows')
      → Step rows rows'
  completing :
      {rows : List RegistrationOperation} (stamp : DateTime) (id owner : ℕ) (at : DateTime)
      → Step rows (complete stamp id owner at rows).1
  retrying :
      {rows : List RegistrationOperation} (stamp : DateTime) (id owner : ℕ)
      (at available_at : DateTime) (error_class : String)
      → Step rows (schedule_retry stamp id owner at available_at error_class rows).1
  blocking :
      {rows : List RegistrationOperation} (stamp : DateTime) (id owner : ℕ) (at : DateTime)
      (error_class : String)
      → Step rows (block stamp id owner at error_class rows).1
  redriving :
      {rows : List RegistrationOperation} (stamp : DateTime) (id : ℕ) (available_at : DateTime)
      → Step rows (redrive_blocked stamp id available_at rows).1

pub data Reach : List RegistrationOperation → List RegistrationOperation → Type 0 where
  here : {rows : List RegistrationOperation} → Reach rows rows
  next :
      {rows between rows' : List RegistrationOperation}
      → Reach rows between
      → Step between rows'
      → Reach rows rows'

-- No two rows have the same identifier, user, email or key hash.
abbrev pub Apart : RegistrationOperation → RegistrationOperation → Type 0
Apart o x =
    (o.id ≢ x.id) × (o.user_id ≢ x.user_id) × (o.email ≢ x.email) × (o.key_hash ≢ x.key_hash)

abbrev pub ApartFrom : RegistrationOperation → List RegistrationOperation → Type 0
ApartFrom o [] = Unit
ApartFrom o (x ∷ xs) = Apart o x × ApartFrom o xs

abbrev pub Distinct : List RegistrationOperation → Type 0
Distinct [] = Unit
Distinct (x ∷ xs) = ApartFrom x xs × Distinct xs

conflicts-Apart : (o x : RegistrationOperation) → conflicts o x ≡ false → Apart o x
conflicts-Apart o x h = (
  λ e. ground (arith, e, h),
  λ e. ground (arith, e, h),
  λ e. ground (arith, e, h, eq_iff x.email o.email),
  λ e. ground (arith, e, h),
)

conflicts-ApartFrom :
    (o : RegistrationOperation) (xs : List RegistrationOperation)
    → exists (conflicts o) xs ≡ false
    → ApartFrom o xs
conflicts-ApartFrom o [] h = tt
conflicts-ApartFrom o (x ∷ xs) h =
    (conflicts-Apart o x (ground arith), conflicts-ApartFrom o xs (ground arith))

-- No two operations have the same identifier, user, email or key hash, and each satisfies the
-- lifecycle constraint.
pub record IsConsistent (rows : List RegistrationOperation) : Type 0 where
  pub unique : Distinct rows
  pub lifecycle : (o : RegistrationOperation) → In o rows → HasLifecycle o

exists-id :
    (o : RegistrationOperation) (xs : List RegistrationOperation)
    → ApartFrom o xs
    → exists (λ x. x.id == o.id) xs ≡ false
exists-id o [] h = refl
exists-id o (x ∷ xs) h = ground (arith, exists-id o xs h.1, h.0.0)

Distinct-Unique : (xs : List RegistrationOperation) → Distinct xs → Unique (λ o. o.id) xs
Distinct-Unique [] d = tt
Distinct-Unique (x ∷ xs) d = (exists-id x xs d.0, Distinct-Unique xs d.1)

module _ (p : RegistrationOperation → Bool) (f : RegistrationOperation → RegistrationOperation)
    (same : (o x : RegistrationOperation)
      → (Apart o x → Apart (f o) x) × (Apart o x → Apart o (f x))) where
  Apart-updated : (o x : RegistrationOperation) → Apart o x → Apart (updated p f o) (updated p f x)
  Apart-updated o x d =
      if_ind (λ y. Apart y (updated p f x)) (p o) (λ _. (same o (updated p f x)).0 right)
        (λ _. right)
    where
      right : Apart o (updated p f x)
      right = if_ind (λ y. Apart o y) (p x) (λ _. (same o x).1 d) (λ _. d)

  ApartFrom-updated :
      (o : RegistrationOperation) (xs : List RegistrationOperation)
      → ApartFrom o xs
      → ApartFrom (updated p f o) (update p f xs)
  ApartFrom-updated o [] d = tt
  ApartFrom-updated o (x ∷ xs) d = (Apart-updated o x d.0, ApartFrom-updated o xs d.1)

  Distinct-update : (xs : List RegistrationOperation) → Distinct xs → Distinct (update p f xs)
  Distinct-update [] d = tt
  Distinct-update (x ∷ xs) d = (ApartFrom-updated x xs d.0, Distinct-update xs d.1)

  update-IsConsistent :
      (rows : List RegistrationOperation)
      → ((o : RegistrationOperation) → In o rows → p o ≡ true → HasLifecycle o → HasLifecycle (f o))
      → IsConsistent rows
      → IsConsistent (update p f rows)
  update-IsConsistent rows life s = record {
    unique = Distinct-update rows s.unique;
    lifecycle = λ o i.
        let (x, ix, e) = In-update p f o rows i in
        subst HasLifecycle (sym e)
          (if_ind HasLifecycle (p x) (λ h. life x ix h (s.lifecycle x ix)) (λ _. s.lifecycle x ix));
  }

-- A claim keeps the lifecycle of an eligible row, and the other updates that of any row.
claim-HasLifecycle :
    (stamp at : DateTime) (owner : ℕ) (expires : DateTime) (o : RegistrationOperation)
    → eligible at o ≡ true
    → HasLifecycle o
    → HasLifecycle (claim stamp owner expires o)
unfolding eligible
claim-HasLifecycle stamp at owner expires o h l = ground arith

owned-HasLifecycle :
    (id owner : ℕ) (at : DateTime) (o : RegistrationOperation)
    → owned id owner at o ≡ true
    → HasLifecycle o
    → is_some o.password_hash ≡ true
unfolding owned
owned-HasLifecycle id owner at o h l = ground arith

redrivable-HasLifecycle :
    (id : ℕ) (o : RegistrationOperation)
    → redrivable id o ≡ true
    → HasLifecycle o
    → is_some o.password_hash ≡ true
unfolding redrivable
redrivable-HasLifecycle id o h l = ground arith

pub chosen-eligible :
    (at : DateTime) (locked : ℕ → Bool) (limit : ℕ) (rows : List RegistrationOperation)
    (o : RegistrationOperation)
    → Unique (λ x. x.id) rows
    → In o rows
    → chosen at locked limit rows o ≡ true
    → (eligible at o ≡ true) × (locked o.id ≡ false)
unfolding chosen
chosen-eligible at locked limit rows o u i h =
    let p = λ (r : RegistrationOperation). eligible at r && not (locked r.id) in
    let (c, ic, e) =
      exists-In (λ c. c.id == o.id) (take limit (order_by sooner (select p rows))) h in
    let (jc, k) = In-select p c rows (
      In-order_by sooner c (select p rows)
        (In-take limit c (order_by sooner (select p rows)) ic)) in
    let same =
      Unique-In (λ (x : RegistrationOperation). x.id) c o rows u jc i (ground (arith, e)) in
    let k' = subst (λ y. (eligible at y && not (locked y.id)) ≡ true) same k in
    (ground (arith, k'), ground (arith, k'))

create-IsConsistent :
    (o : RegistrationOperation) (rows : List RegistrationOperation)
    → HasLifecycle o
    → IsConsistent rows
    → IsConsistent (try_create o rows).1
unfolding try_create
create-IsConsistent o rows l s = elim (Bool-cases (exists (conflicts o) rows)) [
  | inl taken ↦ rw taken s
  | inr fresh ↦ rw fresh (record {
    unique = (conflicts-ApartFrom o rows fresh, s.unique);
    lifecycle = λ x i. elim i [ inl e ↦ subst HasLifecycle (sym e) l | inr j ↦ s.lifecycle x j ];
  })
]

claim_key-IsConsistent :
    (stamp : DateTime) (key_hash : Bytes) (owner : ℕ) (at expires : DateTime)
    (rows : List RegistrationOperation)
    → IsConsistent rows
    → IsConsistent (update (claimable_by_key key_hash at) (claim stamp owner expires) rows)
unfolding claimable_by_key
claim_key-IsConsistent stamp key_hash owner at expires rows s =
    update-IsConsistent (claimable_by_key key_hash at) (claim stamp owner expires)
      (λ o x. (λ d. d, λ d. d)) rows
      (λ o i h l. claim-HasLifecycle stamp at owner expires o (ground arith) l) s

claim_key-rows :
    (stamp : DateTime) (key_hash : Bytes) (owner : ℕ) (at expires : DateTime)
    (rows : List RegistrationOperation) (taken : Option RegistrationOperation)
    (rows' : List RegistrationOperation)
    → claim_by_key_hash stamp key_hash owner at expires rows ≡ ok (taken, rows')
    → rows' ≡ update (claimable_by_key key_hash at) (claim stamp owner expires) rows
unfolding claim_by_key_hash
claim_key-rows stamp key_hash owner at expires rows taken rows' h = ground arith

claim_batch-rows :
    (stamp : DateTime) (owner : ℕ) (at expires : DateTime) (limit : ℕ) (locked : ℕ → Bool)
    (rows batch rows' : List RegistrationOperation)
    → claim_batch stamp owner at expires limit locked rows ≡ ok (batch, rows')
    → rows' ≡ update (chosen at locked limit rows) (claim stamp owner expires) rows
unfolding claim_batch
claim_batch-rows stamp owner at expires limit locked rows batch rows' h = ground arith

pub Step-IsConsistent :
    {xs ys : List RegistrationOperation} → Step xs ys → IsConsistent xs → IsConsistent ys
unfolding complete schedule_retry block redrive_blocked
Step-IsConsistent {xs} (creating o l) s = create-IsConsistent o xs l s
Step-IsConsistent {xs} {ys} (claiming_key stamp key_hash owner at expires taken rows' h) s =
    subst IsConsistent (sym (claim_key-rows stamp key_hash owner at expires xs taken ys h))
      (claim_key-IsConsistent stamp key_hash owner at expires xs s)
Step-IsConsistent {xs} {ys} (claiming stamp owner at expires limit locked batch rows' h) s =
    subst IsConsistent (sym (claim_batch-rows stamp owner at expires limit locked xs batch ys h)) (
      update-IsConsistent (chosen at locked limit xs) (claim stamp owner expires)
        (λ o x. (λ d. d, λ d. d)) xs
        (λ o i p l.
          claim-HasLifecycle stamp at owner expires o
            (chosen-eligible at locked limit xs o (Distinct-Unique xs s.unique) i p).0 l)
        s)
Step-IsConsistent {xs} (completing stamp id owner at) s =
    update-IsConsistent (owned id owner at) (done stamp at) (λ o x. (λ d. d, λ d. d)) xs
      (λ o i h l. (refl, refl, refl, refl)) s
Step-IsConsistent {xs} (retrying stamp id owner at later c) s =
    update-IsConsistent (owned id owner at) (rescheduled stamp later c) (λ o x. (λ d. d, λ d. d)) xs
      (λ o i h l. (owned-HasLifecycle id owner at o h l, refl, refl, refl)) s
Step-IsConsistent {xs} (blocking stamp id owner at c) s =
    update-IsConsistent (owned id owner at) (stopped stamp at c) (λ o x. (λ d. d, λ d. d)) xs
      (λ o i h l. (owned-HasLifecycle id owner at o h l, refl, refl, refl)) s
Step-IsConsistent {xs} (redriving stamp id at) s =
    update-IsConsistent (redrivable id) (redriven stamp at) (λ o x. (λ d. d, λ d. d)) xs
      (λ o i h l. (redrivable-HasLifecycle id o h l, refl, refl, refl)) s

Reach-keeps-IsConsistent :
    {xs ys : List RegistrationOperation} → Reach xs ys → IsConsistent xs → IsConsistent ys
Reach-keeps-IsConsistent here s = s
Reach-keeps-IsConsistent (next r st) s = Step-IsConsistent st (Reach-keeps-IsConsistent r s)

-- From an empty table, after any statements of any number of workers, as long as a created row
-- satisfies the lifecycle constraint: no two operations have the same identifier, user, email or
-- key hash, and every operation satisfies the lifecycle constraint of the table, so that only a
-- completed one has lost its password hash.
pub Reach-IsConsistent : (rows : List RegistrationOperation) → Reach [] rows → IsConsistent rows
Reach-IsConsistent rows r =
    Reach-keeps-IsConsistent r (record { unique = tt; lifecycle = λ o i. absurd i })
