-- ===== src/AccessTokens/Trust.antt =====
-- access_token_verifier.py: which tokens are accepted, by a verifier that was constructed.
use andruha_identity_service.Prelude.{
  ◌<◌, String, ◌≡◌, refl, ap, subst, ◌⊎◌, inl, inr, true, not, Option, none, some, List, arith,
  str_eq, eq_iff, if_cases,
}
use andruha_identity_service.Clock.{DateTime, ℤ}
use andruha_identity_service.AccessTokens.{
  TokenError, Header, PublicKey, Payload, Decoded, expired, failed, decoded, Jwt, AccessTokenClaims,
  Verifier, ◌then_try◌, lookup, new_verifier, nonblank, normalize_audiences, validate_numeric_date,
  trusted, is_text, key_named, checked_window, key_of_header, select_public_key, validate_claims,
  claims_of, verify,
}
use andruha_identity_service.AccessTokens.Ring.{
  then_try-inr, Configured, lookup-Configured, new-ring,
}

module _ (j : Jwt) (keys : List (String × PublicKey)) where
  -- What is known of a token whose claims were accepted.
  pub record Trusted (issuer audience : String) (leeway : ℤ) (token : String)
      (claims : AccessTokenClaims) : Type 0 where
    pub header : Header
    pub read : j.get_unverified_header token ≡ some header
    pub algorithm : header.alg ≡ some "RS256"
    pub typed : header.typ ≡ some "at+jwt"
    pub id : String
    pub named : header.kid ≡ some id
    pub key : PublicKey
    pub configured : Configured j keys id key
    pub payload : Option Payload
    pub verified : j.decode token key (j.strip issuer) (j.strip audience) leeway ≡ decoded payload
    pub validated : validate_claims j payload ≡ inr claims
    pub window : claims.issued_at.instant < claims.expires_at.instant

  record Selected (v : Verifier) (token : String) (key : PublicKey) : Type 0 where
    pub header : Header
    pub read : j.get_unverified_header token ≡ some header
    pub algorithm : header.alg ≡ some "RS256"
    pub typed : header.typ ≡ some "at+jwt"
    pub id : String
    pub named : header.kid ≡ some id
    pub found : lookup id v.public_keys ≡ some key

  text-eq : (o : Option String) (t : String) → is_text j o t ≡ true → o ≡ some t
  text-eq none t h = absurd (ground arith)
  text-eq (some s) t h = ap some (ground (arith, h, eq_iff s t))

  trusted-eq : (o : Option PublicKey) (key : PublicKey) → trusted j o ≡ inr key → o ≡ some key
  trusted-eq none key h = absurd (ground arith)
  trusted-eq (some k) key h = ap some (ground (arith, h))

  named-key :
      (o : Option String) (ring : List (String × PublicKey)) (key : PublicKey)
      → key_named j o ring ≡ inr key
      → (id : String) × (o ≡ some id) × (lookup id ring ≡ some key)
  named-key none ring key h = absurd (ground arith)
  named-key (some id) ring key h = (id, refl, trusted-eq (lookup id ring) key h)

  header-Selected :
      (v : Verifier) (token : String) (key : PublicKey) (o : Option Header)
      → j.get_unverified_header token ≡ o
      → key_of_header j o v.public_keys ≡ inr key
      → Selected v token key
  header-Selected v token key none read h = absurd (ground (arith, h))
  header-Selected v token key (some header) read h =
      let P = λ (x : TokenError ⊎ PublicKey). x ≡ inr key in
      elim (if_cases P (not (is_text j header.alg "RS256")) h) [
        | inl (_, m) ↦ absurd (ground (arith, m))
        | inr (a, m) ↦ elim (if_cases P (not (is_text j header.typ "at+jwt")) m) [
          | inl (_, n) ↦ absurd (ground (arith, n))
          | inr (t, n) ↦
              let (id, named, found) = named-key header.kid v.public_keys key n in
              record {
                header = header;
                read = read;
                algorithm = text-eq header.alg "RS256" (ground (arith, a));
                typed = text-eq header.typ "at+jwt" (ground (arith, t));
                id = id;
                named = named;
                found = found;
              }
        ]
      ]

  select-Selected :
      (v : Verifier) (token : String) (key : PublicKey)
      → select_public_key j v token ≡ inr key
      → Selected v token key
  unfolding select_public_key
  select-Selected v token key h =
      let P = λ (x : TokenError ⊎ PublicKey). x ≡ inr key in
      elim (if_cases P (str_eq token "") h) [
        | inl (_, m) ↦ absurd (ground (arith, m))
        | inr (_, m) ↦ header-Selected v token key (j.get_unverified_header token) refl m
      ]

  decoded-payload :
      (d : Decoded) (c : AccessTokenClaims)
      → claims_of j d ≡ inr c
      → (p : Option Payload) × (d ≡ decoded p) × (validate_claims j p ≡ inr c)
  decoded-payload expired c h = absurd (ground (arith, h))
  decoded-payload failed c h = absurd (ground (arith, h))
  decoded-payload (decoded p) c h = (p, refl, h)

  checked-window :
      (d c : AccessTokenClaims)
      → checked_window j d ≡ inr c
      → c.issued_at.instant < c.expires_at.instant
  checked-window d c h = ground (arith, h)

  validated-window :
      (p : Option Payload) (c : AccessTokenClaims)
      → validate_claims j p ≡ inr c
      → c.issued_at.instant < c.expires_at.instant
  unfolding validate_claims
  validated-window none c h = absurd (ground arith)
  validated-window (some p) c h =
      let with_times = λ (issuer : String) (audiences : List String) (issued expires : DateTime).
        checked_window j (record {
          issuer = issuer;
          user_id = p.user_id;
          audiences = audiences;
          issued_at = issued;
          expires_at = expires;
          token_id = p.token_id;
          role = p.role;
        }) in
      let with_issued = λ (issuer : String) (audiences : List String) (issued : DateTime).
        validate_numeric_date j p.expires_at then_try with_times issuer audiences issued in
      let with_audiences = λ (issuer : String) (audiences : List String).
        validate_numeric_date j p.issued_at then_try with_issued issuer audiences in
      let with_issuer =
        λ (issuer : String). normalize_audiences j p.audiences then_try with_audiences issuer in
      let (issuer, _, h1) = then_try-inr (nonblank j p.issuer) with_issuer c h in
      let (audiences, _, h2) =
        then_try-inr (normalize_audiences j p.audiences) (with_audiences issuer) c h1 in
      let (issued, _, h3) =
        then_try-inr (validate_numeric_date j p.issued_at) (with_issued issuer audiences) c h2 in
      let (expires, _, h4) =
        then_try-inr (validate_numeric_date j p.expires_at) (with_times issuer audiences issued) c
          h3 in
      checked-window
        (record {
          issuer = issuer;
          user_id = p.user_id;
          audiences = audiences;
          issued_at = issued;
          expires_at = expires;
          token_id = p.token_id;
          role = p.role;
        })
        c h4

  -- A verifier that was constructed accepts a token only if the token's header names the algorithm,
  -- the type and a configured key of at least 2048 bits, the library verified the token by that
  -- key with the configured issuer, audience and leeway, and the claims are those of the verified
  -- payload, with an expiry after the time of issue.
  pub verify-Trusted :
      (issuer audience : String) (leeway : ℤ) (v : Verifier) (token : String)
      (claims : AccessTokenClaims)
      → new_verifier j keys issuer audience leeway ≡ inr v
      → verify j v token ≡ inr claims
      → Trusted issuer audience leeway token claims
  unfolding verify
  verify-Trusted issuer audience leeway v token claims made accepted =
      let (ring, i, a, l) = new-ring j keys issuer audience leeway v made in
      let (key, selects, rest) =
        then_try-inr (select_public_key j v token)
          (λ key. claims_of j (j.decode token key v.issuer v.audience v.leeway)) claims accepted in
      let s = select-Selected v token key selects in
      let (p, d, c) =
        decoded-payload (j.decode token key v.issuer v.audience v.leeway) claims rest in
      record {
        header = s.header;
        read = s.read;
        algorithm = s.algorithm;
        typed = s.typed;
        id = s.id;
        named = s.named;
        key = key;
        configured = lookup-Configured j keys s.id key v.public_keys ring s.found;
        payload = p;
        verified =
            subst (λ x. j.decode token key x (j.strip audience) leeway ≡ decoded p) i
              (subst (λ x. j.decode token key v.issuer x leeway ≡ decoded p) a
                (subst (λ x. j.decode token key v.issuer v.audience x ≡ decoded p) l d));
        validated = c;
        window = validated-window p claims c;
      }
