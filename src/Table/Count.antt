-- ===== src/Table/Count.antt =====
-- How many rows a statement touches.
use andruha_identity_service.Prelude.{
  ℕ, suc, ◌+◌, ◌≤◌, ◌≡◌, refl, ap, ◌∙◌, Bool, false, ◌||◌, List, [], ◌∷◌, map, arith, ◌==◌, length,
}
use andruha_identity_service.Table.{exists, select, insert_by, order_by, Unique}

module _ {A : Type 0} where
  length-select_or :
      (p q : A → Bool) (xs : List A)
      → length (select (λ x. p x || q x) xs) ≤ length (select p xs) + length (select q xs)
  length-select_or p q [] = omega arith
  length-select_or p q (x ∷ xs) = ground (arith, length-select_or p q xs)

  length-select-false :
      (p : A → Bool) (xs : List A) → exists p xs ≡ false → length (select p xs) ≡ 0
  length-select-false p [] h = refl
  length-select-false p (x ∷ xs) h = ground (arith, length-select-false p xs)

  length-insert_by :
      (lt : A → A → Bool) (a : A) (xs : List A) → length (insert_by lt a xs) ≡ suc (length xs)
  length-insert_by lt a [] = refl
  length-insert_by lt a (x ∷ xs) = ground (arith, length-insert_by lt a xs)

  pub length-order_by : (lt : A → A → Bool) (xs : List A) → length (order_by lt xs) ≡ length xs
  length-order_by lt [] = refl
  length-order_by lt (x ∷ xs) =
      length-insert_by lt x (order_by lt xs) ∙ ap suc (length-order_by lt xs)

  pub length-map {κ} : {B : Type κ} (f : A → B) (xs : List A) → length (map f xs) ≡ length xs
  length-map f [] = refl
  length-map f (x ∷ xs) = ap suc (length-map f xs)

module _ {A : Type 0} (column : A → ℕ) where
  exists_comm :
      (k : ℕ) (xs : List A) → exists (λ y. column y == k) xs ≡ exists (λ y. k == column y) xs
  exists_comm k [] = refl
  exists_comm k (x ∷ xs) = ground (arith, exists_comm k xs)

  select_nothing : (xs : List A) → length (select (λ _. false) xs) ≡ 0
  select_nothing [] = refl
  select_nothing (x ∷ xs) = select_nothing xs

  -- A value of a unique column selects at most one row.
  length-select-Unique :
      (k : ℕ) (xs : List A) → Unique column xs → length (select (λ x. k == column x) xs) ≤ 1
  length-select-Unique k [] u = omega arith
  length-select-Unique k (x ∷ xs) u = ground (
    arith,
    length-select-Unique k xs u.1,
    exists_comm (column x) xs,
    u.0,
    length-select-false (λ y. column x == column y) xs,
  )

  -- `WHERE column IN (…)` selects at most as many rows as there are values.
  pub length-select_in :
      (values xs : List A)
      → Unique column xs
      → length (select (λ x. exists (λ c. column c == column x) values) xs) ≤ length values
  length-select_in [] xs u = omega (arith, select_nothing xs)
  length-select_in (c ∷ cs) xs u = omega (
    arith,
    length-select_or (λ x. column c == column x) (λ x. exists (λ d. column d == column x) cs) xs,
    length-select-Unique (column c) xs u,
    length-select_in cs xs u,
  )
