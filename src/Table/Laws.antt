-- ===== src/Table/Laws.antt =====
-- Laws of the table operations.
use mathlib.Core.List.{map}
use andruha_identity_service.Prelude.{
  ℕ, zero, suc, ◌≤◌, ◌≡◌, refl, sym, ap, ◌∙◌, subst, ◌⊎◌, inl, inr, Bool, true, false, List, [],
  ◌∷◌, arith, ◌==◌, if◌then◌else◌, Bool-cases, if_cases, if_ind, length, take,
}
use andruha_identity_service.Table.{exists, select, update, insert_by, order_by, In, Unique}

module _ {A : Type 0} where
  pub exists-of_In :
      (p : A → Bool) (a : A) (xs : List A) → In a xs → p a ≡ true → exists p xs ≡ true
  exists-of_In p a [] m h = absurd m
  exists-of_In p a (x ∷ xs) (inl e) h = rw (← e) (rw h refl)
  exists-of_In p a (x ∷ xs) (inr m) h = ground (arith, exists-of_In p a xs m h)

  pub exists-In :
      (p : A → Bool) (xs : List A) → exists p xs ≡ true → (a : A) × In a xs × (p a ≡ true)
  exists-In p [] h = cc
  exists-In p (x ∷ xs) h = elim (Bool-cases (p x)) [
    | inl now ↦ (x, inl refl, now)
    | inr later ↦ let (a, m, k) = exists-In p xs (ground arith) in (a, inr m, k)
  ]

  pub exists-false_In :
      (p : A → Bool) (a : A) (xs : List A) → exists p xs ≡ false → In a xs → p a ≡ false
  exists-false_In p a [] h m = absurd m
  exists-false_In p a (x ∷ xs) h (inl e) = rw e (ground arith)
  exists-false_In p a (x ∷ xs) h (inr m) = exists-false_In p a xs (ground arith) m

  pub In-select : (p : A → Bool) (a : A) (xs : List A) → In a (select p xs) → In a xs × (p a ≡ true)
  In-select p a [] m = absurd m
  In-select p a (x ∷ xs) m =
      let split = if_cases (In a) (p x) m in
      elim split [
        | inl (h, inl e) ↦ (inl e, rw e h)
        | inl (h, inr k) ↦ let (m', h') = In-select p a xs k in (inr m', h')
        | inr (h, k) ↦ let (m', h') = In-select p a xs k in (inr m', h')
      ]

  pub In-insert_by :
      (lt : A → A → Bool) (b a : A) (xs : List A) → In a (insert_by lt b xs) → (a ≡ b) ⊎ In a xs
  In-insert_by lt b a [] (inl e) = inl e
  In-insert_by lt b a [] (inr m) = absurd m
  In-insert_by lt b a (x ∷ xs) m = elim (if_cases (In a) (lt x b) m) [
    | inl (h, inl e) ↦ inr (inl e)
    | inl (h, inr k) ↦ elim (In-insert_by lt b a xs k) [ inl e ↦ inl e | inr k' ↦ inr (inr k') ]
    | inr (h, inl e) ↦ inl e
    | inr (h, inr k) ↦ inr k
  ]

  pub In-order_by : (lt : A → A → Bool) (a : A) (xs : List A) → In a (order_by lt xs) → In a xs
  In-order_by lt a [] m = absurd m
  In-order_by lt a (x ∷ xs) m = elim (In-insert_by lt x a (order_by lt xs) m) [
    | inl e ↦ inl e
    | inr k ↦ inr (In-order_by lt a xs k)
  ]

  pub In-take : (n : ℕ) (a : A) (xs : List A) → In a (take n xs) → In a xs
  In-take zero a xs m = absurd m
  In-take (suc n) a [] m = absurd m
  In-take (suc n) a (x ∷ xs) (inl e) = inl e
  In-take (suc n) a (x ∷ xs) (inr m) = inr (In-take n a xs m)

  pub length-take_le : (n : ℕ) (xs : List A) → length (take n xs) ≤ n
  length-take_le zero xs = omega arith
  length-take_le (suc n) [] = omega arith
  length-take_le (suc n) (x ∷ xs) = omega (arith, length-take_le n xs)

pub In-map :
    {A B : Type 0} (f : A → B) (y : B) (xs : List A)
    → In y (map f xs)
    → (x : A) × In x xs × (y ≡ f x)
In-map f y [] m = absurd m
In-map f y (x ∷ xs) (inl e) = (x, inl refl, e)
In-map f y (x ∷ xs) (inr m) = let (x', m', e) = In-map f y xs m in (x', inr m', e)

module _ {A : Type 0} (p : A → Bool) (f : A → A) where
  abbrev pub updated : A → A
  updated x = if p x then f x else x

  -- A row after an UPDATE comes from a row before it.
  pub In-update : (y : A) (xs : List A) → In y (update p f xs) → (x : A) × In x xs × (y ≡ updated x)
  In-update y [] m = absurd m
  In-update y (x ∷ xs) (inl e) = (x, inl refl, e)
  In-update y (x ∷ xs) (inr m) = let (x', m', e) = In-update y xs m in (x', inr m', e)

  pub update-In : (x : A) (xs : List A) → In x xs → In (updated x) (update p f xs)
  update-In x [] m = absurd m
  update-In x (y ∷ ys) (inl e) = inl (ap updated e)
  update-In x (y ∷ ys) (inr m) = inr (update-In x ys m)

  pub update-none : (xs : List A) → exists p xs ≡ false → update p f xs ≡ xs
  update-none [] h = refl
  update-none (x ∷ xs) h = ground (arith, update-none xs)

  pub exists-update :
      (q : A → Bool)
      → ((x : A) → q (f x) ≡ q x)
      → (xs : List A) → exists q (update p f xs) ≡ exists q xs
  exists-update q same [] = refl
  exists-update q same (x ∷ xs) = ground (arith, same x, exists-update q same xs)

  -- An UPDATE that does not write a unique column keeps it unique.
  pub Unique-update :
      (column : A → ℕ)
      → ((x : A) → column (f x) ≡ column x)
      → (xs : List A) → Unique column xs
      → Unique column (update p f xs)
  Unique-update column same [] u = tt
  Unique-update column same (x ∷ xs) u = (
    subst (λ k. exists (λ y. column y == k) (update p f xs) ≡ false) (sym (same_column x))
        (exists-update (λ y. column y == column x) (λ y. ap (λ k. k == column x) (same y)) xs
          ∙ u.0),
    Unique-update column same xs u.1,
  )
    where
      same_column : (y : A) → column (updated y) ≡ column y
      same_column y = ground (arith, same y)

module _ {A : Type 0} (column : A → ℕ) where
  -- The value of a unique column determines its row.
  pub Unique-In :
      (a b : A) (xs : List A) → Unique column xs → In a xs → In b xs → column a ≡ column b → a ≡ b
  Unique-In a b [] u m n e = absurd m
  Unique-In a b (x ∷ xs) u (inl p) (inl q) e = p ∙ sym q
  Unique-In a b (x ∷ xs) u (inl p) (inr n) e =
      ground (arith, exists-false_In (λ y. column y == column x) b xs u.0 n, ap column p)
  Unique-In a b (x ∷ xs) u (inr m) (inl q) e =
      ground (arith, exists-false_In (λ y. column y == column x) a xs u.0 m, ap column q)
  Unique-In a b (x ∷ xs) u (inr m) (inr n) e = Unique-In a b xs u.1 m n e

  exists-select :
      (q p : A → Bool) (xs : List A) → exists q xs ≡ false → exists q (select p xs) ≡ false
  exists-select q p [] h = refl
  exists-select q p (x ∷ xs) h = ground (arith, exists-select q p xs)

  -- A DELETE keeps a unique column unique.
  pub Unique-select : (p : A → Bool) (xs : List A) → Unique column xs → Unique column (select p xs)
  Unique-select p [] u = tt
  Unique-select p (x ∷ xs) u =
      if_ind (Unique column) (p x)
        (λ _. (exists-select (λ y. column y == column x) p xs u.0, Unique-select p xs u.1))
        (λ _. Unique-select p xs u.1)
