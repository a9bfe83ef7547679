-- ===== src/Outbox/Batch.antt =====
-- outbox_repository.py: what `claim_batch` returns and what it leaves alone.
use andruha_identity_service.Prelude.{
  ℕ, ◌≤◌, ◌≡◌, refl, sym, ap, ◌∙◌, subst, ◌⊎◌, inl, inr, Bool, true, false, some, none, List, map,
  arith, str_eq, eq_iff, ◌==◌, Bool-cases, Option-cases, length, take,
}
use andruha_identity_service.Errors.{ok}
use andruha_identity_service.Clock.{DateTime}
use andruha_identity_service.Table.{In, Unique, exists, select, update, order_by}
use andruha_identity_service.Table.Count.{length-order_by, length-map, length-select_in}
use andruha_identity_service.Table.Laws.{
  In-map, updated, update-In, exists-In, exists-false_In, In-select, In-order_by, In-take,
  Unique-In, length-take_le,
}
use andruha_identity_service.Outbox.Message.{
  OutboxStatus, pending, claimed, success, quarantined, OutboxMessage, is_pending, is_claimed,
  is_nonterminal, earlier,
}
use andruha_identity_service.Outbox.Claim.{
  claim, claim_batch, chosen, claimable, candidates, eligible, blocks, returned,
}
use andruha_identity_service.Outbox.System.{precedes}

-- The message waits for a delivery that is due at the time.
abbrev pub IsDue : DateTime → OutboxMessage → Type 0
IsDue at m = (m.status ≡ pending) × (m.available_at.instant ≤ at.instant)

-- The message is claimed, and the lease has run out at the time.
abbrev pub HasLapsed : DateTime → OutboxMessage → Type 0
HasLapsed at m =
    (m.status ≡ claimed)
    × (until : DateTime) × (m.claim_expires_at ≡ some until)
    × (until.instant ≤ at.instant)

pending-is_pending : (s : OutboxStatus) → is_pending s ≡ true → s ≡ pending
pending-is_pending pending h = refl
pending-is_pending claimed h = cc
pending-is_pending success h = cc
pending-is_pending quarantined h = cc

claimed-is_claimed : (s : OutboxStatus) → is_claimed s ≡ true → s ≡ claimed
claimed-is_claimed pending h = cc
claimed-is_claimed claimed h = refl
claimed-is_claimed success h = cc
claimed-is_claimed quarantined h = cc

eligible-lapsed :
    (at : DateTime) (m : OutboxMessage)
    → eligible at m ≡ true
    → is_pending m.status ≡ false
    → HasLapsed at m
unfolding eligible
eligible-lapsed at m h p = elim (Option-cases m.claim_expires_at) [
  | inl missing ↦ absurd (ground (arith, missing))
  | inr (until, e) ↦ (claimed-is_claimed m.status (ground (arith, e)), until, e, ground (arith, e))
]

eligible-cases :
    (at : DateTime) (m : OutboxMessage) → eligible at m ≡ true → IsDue at m ⊎ HasLapsed at m
unfolding eligible
eligible-cases at m h = elim (Bool-cases (is_pending m.status)) [
  | inl p ↦ inl (pending-is_pending m.status p, ground (arith, p))
  | inr p ↦ inr (eligible-lapsed at m h p)
]

module _ (at : DateTime) (locked : ℕ → Bool) (rows : List OutboxMessage) where
  candidates-claimable :
      (limit : ℕ) (c : OutboxMessage)
      → In c (candidates at locked limit rows)
      → In c rows × (claimable at locked rows c ≡ true)
  unfolding candidates
  candidates-claimable limit c i = In-select (claimable at locked rows) c rows (
      In-order_by earlier c (select (claimable at locked rows) rows)
        (In-take limit c (order_by earlier (select (claimable at locked rows) rows)) i))

  pub chosen-claimable :
      (limit : ℕ) (m : OutboxMessage)
      → Unique (λ x. x.id) rows
      → In m rows
      → chosen at locked limit rows m ≡ true
      → claimable at locked rows m ≡ true
  unfolding chosen
  chosen-claimable limit m u i h =
      let (c, ic, e) = exists-In (λ x. x.id == m.id) (candidates at locked limit rows) h in
      let (jc, k) = candidates-claimable limit c ic in
      subst (λ x. claimable at locked rows x ≡ true)
        (Unique-In (λ x. x.id) c m rows u jc i (ground arith)) k

  pub claimable_cases :
      (m : OutboxMessage)
      → claimable at locked rows m ≡ true
      → (eligible at m ≡ true) × (exists (blocks m) rows ≡ false) × (locked m.id ≡ false)
  unfolding claimable
  claimable_cases m h = ground arith

  pub eligible-is_nonterminal :
      (m : OutboxMessage) → eligible at m ≡ true → is_nonterminal m.status ≡ true
  unfolding eligible
  eligible-is_nonterminal m h = ground arith

  blocks-precedes :
      (c e : OutboxMessage)
      → blocks c e ≡ false
      → is_nonterminal e.status ≡ true
      → precedes e c ≡ false
  unfolding blocks
  blocks-precedes c e h n = ground arith

  -- No unfinished message of the key stands before one that can be claimed.
  pub claimable-first :
      (c e : OutboxMessage)
      → claimable at locked rows c ≡ true
      → In e rows
      → is_nonterminal e.status ≡ true
      → precedes e c ≡ false
  claimable-first c e h i n =
      blocks-precedes c e (exists-false_In (blocks c) e rows (claimable_cases c h).1 i) n

-- Of two messages one is the earlier, unless their identifiers are equal.
earlier_total : (a b : OutboxMessage) → earlier a b ≡ false → earlier b a ≡ false → a.id ≡ b.id
unfolding earlier
earlier_total a b h k = ground arith

module _ (stamp : DateTime) (owner : ℕ) (at expires : DateTime) (limit : ℕ) (locked : ℕ → Bool)
    (rows batch rows' : List OutboxMessage) (unique : Unique (λ m. m.id) rows)
    (claims : claim_batch stamp owner at expires limit locked rows ≡ ok (batch, rows')) where
  batch-eq : batch ≡ returned stamp owner at expires locked limit rows
  unfolding claim_batch
  batch-eq = ground arith

  pub rows-eq : rows' ≡ update (chosen at locked limit rows) (claim stamp owner expires) rows
  unfolding claim_batch
  rows-eq = ground arith

  -- What was a row before it was claimed.
  pub record Source (m : OutboxMessage) : Type 0 where
    pub row : OutboxMessage
    pub listed : In row rows
    pub picked : chosen at locked limit rows row ≡ true
    pub same : m ≡ claim stamp owner expires row

  pub batch-Source : (m : OutboxMessage) → In m batch → Source m
  unfolding returned
  batch-Source m i =
      let picked = select (chosen at locked limit rows) rows in
      let (r, ir, e) = In-map (claim stamp owner expires) m picked (
        In-order_by earlier m (map (claim stamp owner expires) picked) (subst (In m) batch-eq i)) in
      let (jr, h) = In-select (chosen at locked limit rows) r rows ir in
      record { row = r; listed = jr; picked = h; same = e }

  -- Each returned message was a row that no other transaction held, either pending and due or
  -- claimed with a lease that has run out, with no unfinished message of its key before it. It is
  -- claimed by the owner until `expires`, its `updated_at` is the time of the transaction, and
  -- nothing else of it has changed.
  pub claim_batch-eligible :
      (m : OutboxMessage)
      → In m batch
      → (r : OutboxMessage) × In r rows
        × (m ≡ record r {
          status = claimed;
          claim_token = some owner;
          claim_expires_at = some expires;
          terminal_at = none;
          updated_at = some stamp;
        })
        × (IsDue at r ⊎ HasLapsed at r)
        × (locked r.id ≡ false)
        × ((e : OutboxMessage) → In e rows → is_nonterminal e.status ≡ true → precedes e r ≡ false)
  claim_batch-eligible m i =
      let s = batch-Source m i in
      let k = chosen-claimable at locked rows limit s.row unique s.listed s.picked in
      let (el, none_before, free) = claimable_cases at locked rows s.row k in
      (
        s.row,
        s.listed,
        s.same,
        eligible-cases at s.row el,
        free,
        λ e ie n. claimable-first at locked rows s.row e k ie n,
      )

  claimable_same_key :
      (r t : OutboxMessage)
      → In r rows
      → In t rows
      → claimable at locked rows r ≡ true
      → claimable at locked rows t ≡ true
      → str_eq r.key t.key ≡ true
      → r ≡ t
  claimable_same_key r t i j h k e =
      let live_r =
        eligible-is_nonterminal at locked rows r (claimable_cases at locked rows r h).0 in
      let live_t =
        eligible-is_nonterminal at locked rows t (claimable_cases at locked rows t k).0 in
      let no_r = claimable-first at locked rows t r k i live_r in
      let no_t = claimable-first at locked rows r t h j live_t in
      Unique-In (λ m. m.id) r t rows unique i j
        (earlier_total r t (ground arith) (ground (arith, eq_iff r.key t.key, eq_iff t.key r.key)))

  -- Two returned messages have different keys, or are the same message.
  pub claim_batch-one_per_key :
      (a b : OutboxMessage) → In a batch → In b batch → str_eq a.key b.key ≡ true → a ≡ b
  claim_batch-one_per_key a b i j h =
      let s = batch-Source a i in
      let t = batch-Source b j in
      s.same
      ∙ ap (claim stamp owner expires) (
          claimable_same_key s.row t.row s.listed t.listed
            (chosen-claimable at locked rows limit s.row unique s.listed s.picked)
            (chosen-claimable at locked rows limit t.row unique t.listed t.picked)
            (subst (λ k. str_eq k t.row.key ≡ true) (ap (λ (m : OutboxMessage). m.key) s.same)
              (subst (λ k. str_eq a.key k ≡ true) (ap (λ (m : OutboxMessage). m.key) t.same) h)))
      ∙ sym t.same

  -- At most `limit` messages are returned.
  pub claim_batch-le_limit : length batch ≤ limit
  unfolding returned chosen candidates
  claim_batch-le_limit =
      let free = select (claimable at locked rows) rows in
      let picked = select (chosen at locked limit rows) rows in
      omega (
        arith,
        ap (λ (l : List OutboxMessage). length l) batch-eq,
        length-order_by earlier (map (claim stamp owner expires) picked),
        length-map (claim stamp owner expires) picked,
        length-select_in (λ m. m.id) (take limit (order_by earlier free)) rows unique,
        length-take_le limit (order_by earlier free),
      )

  -- A row that is neither pending and due nor claimed with a lease that has run out is left as it
  -- is: a finished message, one that is not due yet, and one with a live lease.
  pub claim_batch-keeps :
      (r : OutboxMessage) → In r rows → (IsDue at r → ⊥) → (HasLapsed at r → ⊥) → In r rows'
  claim_batch-keeps r i not_due live = subst (In r) (sym rows-eq) (
      subst (λ m. In m (update (chosen at locked limit rows) (claim stamp owner expires) rows))
        stays (update-In (chosen at locked limit rows) (claim stamp owner expires) r rows i))
    where
      unpicked : chosen at locked limit rows r ≡ false
      unpicked = elim (Bool-cases (chosen at locked limit rows r)) [
        | inl hit ↦
            elim (eligible-cases at r
              (claimable_cases at locked rows r
                (chosen-claimable at locked rows limit r unique i hit)).0) [
                  | inl due_now ↦ absurd (not_due due_now)
                  | inr lapsed ↦ absurd (live lapsed)
                ]
        | inr miss ↦ miss
      ]

      stays : updated (chosen at locked limit rows) (claim stamp owner expires) r ≡ r
      stays = rw unpicked
