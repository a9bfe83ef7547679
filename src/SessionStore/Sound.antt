-- ===== src/SessionStore/Sound.antt =====
-- What the repositories write into the table of tokens: rows keep their identifier and their hash, a
-- used token stays used, and a new row has an identifier and a hash of its own.
use andruha_identity_service.Prelude.{
  ℕ, ◌≡◌, refl, sym, ap, ◌∙◌, subst, inl, inr, true, false, not, ◌&&◌, List, [], ◌∷◌, arith,
  Bool-cases, if_ind, All,
}
use andruha_identity_service.Clock.{Bytes, same_bytes}
use andruha_identity_service.Table.{exists, update, In, Unique}
use andruha_identity_service.Table.Laws.{exists-of_In, exists-false_In, Unique-In}
use andruha_identity_service.Session.{RefreshToken, is_used}
use andruha_identity_service.SessionStore.{has_token, has_hash}

-- One written row.
pub data Write (rows : List RefreshToken) : List RefreshToken → Type 0 where
  changed :
      (t u : RefreshToken)
      → In t rows
      → u.id ≡ t.id
      → u.token_hash ≡ t.token_hash
      → (is_used t ≡ true → is_used u ≡ true)
      → Write rows (update (has_token u.id) (λ r. u) rows)
  added :
      (t : RefreshToken)
      → exists (has_token t.id) rows ≡ false
      → exists (λ o. has_hash t.token_hash o && not (has_token t.id o)) rows ≡ false
      → Write rows (t ∷ rows)

pub data Writes (rows : List RefreshToken) : List RefreshToken → Type 0 where
  none_written : Writes rows rows
  then_written : {xs ys : List RefreshToken} → Writes rows xs → Write xs ys → Writes rows ys

pub Writes-append : (xs ys zs : List RefreshToken) → Writes xs ys → Writes ys zs → Writes xs zs
Writes-append xs ys zs a none_written = a
Writes-append xs ys zs a (then_written b last) = then_written (Writes-append xs ys _ a b) last

-- A column of hashes without duplicates.
abbrev pub Distinct : List RefreshToken → Type 0
Distinct [] = Unit
Distinct (t ∷ ts) = (exists (has_hash t.token_hash) ts ≡ false) × Distinct ts

pub record IsSound (rows : List RefreshToken) : Type 0 where
  pub ids : Unique (λ t. t.id) rows
  pub hashes : Distinct rows

-- Every row with the hash is used, and there is one.
pub record Spent (hash : Bytes) (rows : List RefreshToken) : Type 0 where
  pub known : exists (has_hash hash) rows ≡ true
  pub used : All (λ t. has_hash hash t ≡ true → is_used t ≡ true) rows

bytes-eq : (a b : Bytes) → same_bytes a b ≡ true → a ≡ b
bytes-eq a b e = ground arith

-- With unique identifiers, the rows that a change of `t` reaches have the hash of `t`.
abbrev Same : RefreshToken → RefreshToken → Type 0
Same u x = has_token u.id x ≡ true → u.token_hash ≡ x.token_hash

reached :
    (t u : RefreshToken) (rows all : List RefreshToken)
    → Unique (λ t. t.id) all
    → In t all
    → u.id ≡ t.id
    → u.token_hash ≡ t.token_hash
    → ((x : RefreshToken) → In x rows → In x all)
    → All (Same u) rows
reached t u [] all ids there id hash sub = tt
reached t u (x ∷ rows) all ids there id hash sub = (
  (λ e.
      hash
      ∙ ap (λ (r : RefreshToken). r.token_hash)
          (Unique-In (λ (r : RefreshToken). r.id) t x all ids there (sub x (inl refl))
            (ground (arith, id, e)))),
  reached t u rows all ids there id hash (λ y m. sub y (inr m)),
)

exists-changed :
    (hash : Bytes) (u : RefreshToken) (rows : List RefreshToken)
    → All (Same u) rows
    → exists (has_hash hash) (update (has_token u.id) (λ r. u) rows) ≡ exists (has_hash hash) rows
exists-changed hash u [] same = refl
exists-changed hash u (x ∷ rows) same =
    let rest = exists-changed hash u rows same.1 in
    elim (Bool-cases (has_token u.id x)) [
      | inl e ↦ rw (e, same.0 e, rest) refl
      | inr e ↦ rw (e, rest) refl
    ]

Distinct-changed :
    (u : RefreshToken) (rows : List RefreshToken)
    → All (Same u) rows
    → Distinct rows
    → Distinct (update (has_token u.id) (λ r. u) rows)
Distinct-changed u [] same d = tt
Distinct-changed u (x ∷ rows) same d = (
  elim (Bool-cases (has_token u.id x)) [
    | inl e ↦ rw (e, exists-changed u.token_hash u rows same.1, same.0 e) d.0
    | inr e ↦ rw (e, exists-changed x.token_hash u rows same.1) d.0
  ],
  Distinct-changed u rows same.1 d.1,
)

exists_id-changed :
    (k : ℕ) (u : RefreshToken) (rows : List RefreshToken)
    → exists (has_token k) (update (has_token u.id) (λ r. u) rows) ≡ exists (has_token k) rows
exists_id-changed k u [] = refl
exists_id-changed k u (x ∷ rows) = ground (arith, exists_id-changed k u rows)

Unique-changed :
    (u : RefreshToken) (rows : List RefreshToken)
    → Unique (λ t. t.id) rows
    → Unique (λ t. t.id) (update (has_token u.id) (λ r. u) rows)
Unique-changed u [] ids = tt
Unique-changed u (x ∷ rows) ids = (
  elim (Bool-cases (has_token u.id x)) [
    | inl e ↦
        let same : u.id ≡ x.id = ground arith in rw (e, exists_id-changed u.id u rows, same) ids.0
    | inr e ↦ rw (e, exists_id-changed x.id u rows) ids.0
  ],
  Unique-changed u rows ids.1,
)

fresh_hash :
    (t : RefreshToken) (rows : List RefreshToken)
    → exists (has_token t.id) rows ≡ false
    → exists (λ o. has_hash t.token_hash o && not (has_token t.id o)) rows ≡ false
    → exists (has_hash t.token_hash) rows ≡ false
fresh_hash t [] ids hashes = refl
fresh_hash t (x ∷ rows) ids hashes = ground (arith, fresh_hash t rows)

pub Write-IsSound : (xs ys : List RefreshToken) → Write xs ys → IsSound xs → IsSound ys
Write-IsSound xs ys (changed t u there id hash used) s = record {
  ids = Unique-changed u xs s.ids;
  hashes = Distinct-changed u xs (reached t u xs xs s.ids there id hash (λ x m. m)) s.hashes;
}
Write-IsSound xs ys (added t ids hashes) s = record {
  ids = (ids, s.ids);
  hashes = (fresh_hash t xs ids hashes, s.hashes);
}

pub Writes-IsSound : (xs ys : List RefreshToken) → Writes xs ys → IsSound xs → IsSound ys
Writes-IsSound xs ys none_written s = s
Writes-IsSound xs ys (then_written ws w) s = Write-IsSound _ ys w (Writes-IsSound xs _ ws s)

used-changed :
    (hash : Bytes) (t u : RefreshToken) (rows : List RefreshToken)
    → (has_hash hash u ≡ true → is_used u ≡ true)
    → All (λ r. has_hash hash r ≡ true → is_used r ≡ true) rows
    → All (λ r. has_hash hash r ≡ true → is_used r ≡ true) (update (has_token u.id) (λ r. u) rows)
used-changed hash t u [] now h = tt
used-changed hash t u (x ∷ rows) now h = (
  if_ind (λ (r : RefreshToken). has_hash hash r ≡ true → is_used r ≡ true) (has_token u.id x)
      (λ _. now) (λ _. h.0),
  used-changed hash t u rows now h.1,
)

pub All-In :
    (P : RefreshToken → Type 0) (t : RefreshToken) (rows : List RefreshToken)
    → All P rows
    → In t rows
    → P t
All-In P t [] h m = absurd m
All-In P t (x ∷ rows) h (inl e) = subst P (sym e) h.0
All-In P t (x ∷ rows) h (inr m) = All-In P t rows h.1 m

Spent-Write :
    (hash : Bytes) (xs ys : List RefreshToken)
    → Write xs ys
    → IsSound xs
    → Spent hash xs
    → Spent hash ys
Spent-Write hash xs ys (changed t u there id same used) s h = record {
  known = exists-changed hash u xs (reached t u xs xs s.ids there id same (λ x m. m)) ∙ h.known;
  used =
      used-changed hash t u xs
        (λ e. used (
          All-In (λ r. has_hash hash r ≡ true → is_used r ≡ true) t xs h.used there
            (rw (sym same) e)))
        h.used;
}
Spent-Write hash xs ys (added t ids hashes) s h = record {
  known = ground (arith, h.known);
  used = (λ e. absurd (ground (arith, rehashed e)), h.used);
}
  where
    rehashed : has_hash hash t ≡ true → false ≡ true
    rehashed e =
        sym (fresh_hash t xs ids hashes)
        ∙ ap (λ k. exists (has_hash k) xs) (bytes-eq t.token_hash hash e)
        ∙ h.known

pub Spent-Writes :
    (hash : Bytes) (xs ys : List RefreshToken)
    → Writes xs ys
    → IsSound xs
    → Spent hash xs
    → Spent hash ys
Spent-Writes hash xs ys none_written s h = h
Spent-Writes hash xs ys (then_written ws w) s h =
    Spent-Write hash _ ys w (Writes-IsSound xs _ ws s) (Spent-Writes hash xs _ ws s h)

-- A used token spends its hash, if no other token has it.
pub Spent-of_In :
    (hash : Bytes) (t : RefreshToken) (rows : List RefreshToken)
    → IsSound rows
    → In t rows
    → has_hash hash t ≡ true
    → is_used t ≡ true
    → Spent hash rows
Spent-of_In hash t rows s there named used = record {
  known = exists-of_In (has_hash hash) t rows there named;
  used = only rows s.hashes there;
}
  where
    others :
        (xs : List RefreshToken)
        → exists (has_hash t.token_hash) xs ≡ false
        → All (λ r. has_hash hash r ≡ true → is_used r ≡ true) xs
    others [] e = tt
    others (x ∷ xs) e = ((λ h. absurd (ground (arith, e, h, named))), others xs (ground (arith, e)))

    only :
        (xs : List RefreshToken)
        → Distinct xs
        → In t xs
        → All (λ r. has_hash hash r ≡ true → is_used r ≡ true) xs
    only [] d m = absurd m
    only (x ∷ xs) d (inl e) = (
      (λ _. subst (λ y. is_used y ≡ true) e used),
      others xs
          (subst (λ (y : RefreshToken). exists (has_hash y.token_hash) xs ≡ false) (sym e) d.0),
    )
    only (x ∷ xs) d (inr m) = (
      (λ h. absurd (ground (arith, h, named, exists-false_In (has_hash x.token_hash) t xs d.0 m))),
      only xs d.1 m,
    )
