-- ===== src/Table.antt =====
-- Database tables as lists of rows, and the SQL that the repositories use on them: UPDATE with a
-- WHERE clause and RETURNING, EXISTS, SELECT with ORDER BY and LIMIT, INSERT and DELETE.
pub mod Laws
pub mod Count
use andruha_identity_service.Prelude.{
  ℕ, zero, suc, ◌+◌, ◌-◌, ◌*◌, ◌/◌, ◌%◌, ◌≤◌, ◌<◌, min, max, String, ◌≡◌, refl, sym, ap, ◌∙◌, subst,
  ◌≢◌, ◌↔◌, ◌⊎◌, inl, inr, Bool, true, false, not, ◌&&◌, ◌||◌, Option, none, some, List, [], ◌∷◌,
  ◌++◌, map, arith, str_eq, eq_iff, ltb, leb, ◌==◌, if◌then◌else◌, is_some, holds, Bool-cases,
  Option-cases, ==-refl, ltb-of_lt, leb-of_le, if_ind, length, take, length-append, All, All-append,
  All-append_left, All-append_right, All-imp,
}

module _ {A : Type 0} where
  -- EXISTS (SELECT … WHERE p); of an UPDATE … RETURNING, whether a row came back
  abbrev pub exists : (A → Bool) → List A → Bool
  exists p [] = false
  exists p (x ∷ xs) = p x || exists p xs

  -- SELECT … WHERE p
  abbrev pub select : (A → Bool) → List A → List A
  select p [] = []
  select p (x ∷ xs) = let rest = select p xs in if p x then x ∷ rest else rest

  -- the row of a SELECT that finds at most one
  abbrev pub first : (A → Bool) → List A → Option A
  first p [] = none
  first p (x ∷ xs) = if p x then some x else first p xs

  -- UPDATE … SET f WHERE p
  abbrev pub update : (A → Bool) → (A → A) → List A → List A
  update p f [] = []
  update p f (x ∷ xs) = (if p x then f x else x) ∷ update p f xs

  -- DELETE … WHERE p
  abbrev pub delete : (A → Bool) → List A → List A
  delete p xs = select (λ x. not (p x)) xs

  abbrev pub insert_by : (A → A → Bool) → A → List A → List A
  insert_by lt a [] = a ∷ []
  insert_by lt a (x ∷ xs) = if lt x a then x ∷ insert_by lt a xs else a ∷ x ∷ xs

  -- ORDER BY
  abbrev pub order_by : (A → A → Bool) → List A → List A
  order_by lt [] = []
  order_by lt (x ∷ xs) = insert_by lt x (order_by lt xs)

  -- x is a row of the table.
  abbrev pub In : A → List A → Type 0
  In x [] = ⊥
  In x (y ∷ ys) = (x ≡ y) ⊎ In x ys

  -- A column with a UNIQUE constraint: no two rows have the same value.
  abbrev pub Unique : (A → ℕ) → List A → Type 0
  Unique column [] = Unit
  Unique column (x ∷ xs) = (exists (λ y. column y == column x) xs ≡ false) × Unique column xs
