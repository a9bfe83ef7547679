-- ===== src/AccessTokens/Ring.antt =====
-- access_token_verifier.py: the key ring of a verifier that was constructed.
use andruha_identity_service.Prelude.{
  ◌≤◌, String, ◌≡◌, refl, subst, ◌⊎◌, inl, inr, ◌||◌, some, List, [], ◌∷◌, arith, str_eq, eq_iff,
  ltb, is_some, Bool-cases, if_cases, All,
}
use andruha_identity_service.Clock.{ℤ}
use andruha_identity_service.Table.{In}
use andruha_identity_service.AccessTokens.{
  TokenError, PublicKey, Jwt, Verifier, min_key_bits, ◌then_try◌, lookup, normalize_keys,
  new_verifier, is_negative, no_keys,
}

-- A step before another one that succeeds has succeeded.
pub then_try-inr :
    {A B : Type 0} (x : TokenError ⊎ A) (f : A → TokenError ⊎ B) (b : B)
    → x then_try f ≡ inr b
    → (a : A) × (x ≡ inr a) × (f a ≡ inr b)
then_try-inr (inr a) f b h = (a, refl, h)
then_try-inr (inl e) f b h = absurd (ground arith)

module _ (j : Jwt) (keys : List (String × PublicKey)) where
  -- A key of the ring comes from the configuration, and is long enough.
  pub record Configured (id : String) (key : PublicKey) : Type 0 where
    pub name : String
    pub listed : In (name, key) keys
    pub same : j.strip name ≡ id
    pub long : min_key_bits ≤ key.key_size

  abbrev pub AllConfigured : List (String × PublicKey) → Type 0
  AllConfigured ring = All (λ ((id, key) : String × PublicKey). Configured id key) ring

  normalize-Configured :
      (rest ring ring' : List (String × PublicKey))
      → ((x : String × PublicKey) → In x rest → In x keys)
      → AllConfigured ring
      → normalize_keys j rest ring ≡ inr ring'
      → AllConfigured ring'
  unfolding normalize_keys
  normalize-Configured [] ring ring' sub good h =
      let same : ring ≡ ring' = ground (arith, h) in subst AllConfigured same good
  normalize-Configured ((k, key) ∷ rest) ring ring' sub good h =
      let P = λ (x : TokenError ⊎ List (String × PublicKey)). x ≡ inr ring' in
      elim (if_cases P (str_eq (j.strip k) "") h) [
        | inl (_, m) ↦ absurd (ground (arith, m))
        | inr (_, m) ↦ elim (if_cases P (is_some (lookup (j.strip k) ring)) m) [
          | inl (_, n) ↦ absurd (ground (arith, n))
          | inr (_, n) ↦ elim (if_cases P (ltb key.key_size min_key_bits) n) [
            | inl (_, o) ↦ absurd (ground (arith, o))
            | inr (e, o) ↦
                normalize-Configured rest ((j.strip k, key) ∷ ring) ring' (λ x i. sub x (inr i))
                  (
                    record {
                      name = k;
                      listed = sub (k, key) (inl refl);
                      same = refl;
                      long = ground (arith, e);
                    },
                    good,
                  )
                  o
          ]
        ]
      ]

  pub lookup-Configured :
      (id : String) (key : PublicKey) (ring : List (String × PublicKey))
      → AllConfigured ring
      → lookup id ring ≡ some key
      → Configured id key
  lookup-Configured id key [] good h = absurd (ground arith)
  lookup-Configured id key ((k, other) ∷ ring) good h = elim (Bool-cases (str_eq k id)) [
    | inl e ↦
        let same : other ≡ key = ground (arith, e, h) in
        subst (λ x. Configured x key) (ground (arith, e, eq_iff k id))
          (subst (Configured k) same good.0)
    | inr e ↦ lookup-Configured id key ring good.1 (ground (arith, e, h))
  ]

  abbrev with_ring : String → String → ℤ → List (String × PublicKey) → TokenError ⊎ Verifier
  with_ring issuer audience leeway ring = inr (record {
    public_keys = ring;
    issuer = j.strip issuer;
    audience = j.strip audience;
    leeway = leeway;
  })

  with_ring-fields :
      (issuer audience : String) (leeway : ℤ) (ring : List (String × PublicKey)) (v : Verifier)
      → with_ring issuer audience leeway ring ≡ inr v
      → AllConfigured ring
      → AllConfigured v.public_keys
        × (v.issuer ≡ j.strip issuer)
        × (v.audience ≡ j.strip audience)
        × (v.leeway ≡ leeway)
  with_ring-fields issuer audience leeway ring v h good =
      let rings : ring ≡ v.public_keys = ground (arith, h) in
      (subst AllConfigured rings good, ground (arith, h), ground (arith, h), ground (arith, h))

  pub new-ring :
      (issuer audience : String) (leeway : ℤ) (v : Verifier)
      → new_verifier j keys issuer audience leeway ≡ inr v
      → AllConfigured v.public_keys
        × (v.issuer ≡ j.strip issuer)
        × (v.audience ≡ j.strip audience)
        × (v.leeway ≡ leeway)
  unfolding new_verifier
  new-ring issuer audience leeway v h =
      let P = λ (x : TokenError ⊎ Verifier). x ≡ inr v in
      elim (if_cases P (str_eq (j.strip issuer) "" || str_eq (j.strip audience) "") h) [
        | inl (_, m) ↦ absurd (ground (arith, m))
        | inr (_, m) ↦ elim (if_cases P (is_negative leeway) m) [
          | inl (_, n) ↦ absurd (ground (arith, n))
          | inr (_, n) ↦ elim (if_cases P (no_keys j keys) n) [
            | inl (_, o) ↦ absurd (ground (arith, o))
            | inr (_, o) ↦
                let (ring, built, made) =
                  then_try-inr (normalize_keys j keys []) (with_ring issuer audience leeway) v o in
                with_ring-fields issuer audience leeway ring v made
                  (normalize-Configured keys [] ring (λ x i. i) tt built)
          ]
        ]
      ]
