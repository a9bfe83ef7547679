-- ===== src/AccessTokens.antt =====
-- infrastructure/security/access_token_verifier.py, and `AccessTokenClaims` of
-- application/ports/dto/security.py. PyJWT, `str.strip` and the parsing of single claims come from a
-- `Jwt`; a failure is a `TokenError`, on the left of a sum.
pub mod Ring
pub mod Trust
pub mod Examples
use andruha_identity_service.Prelude.{
  ℕ, zero, suc, ◌+◌, ◌-◌, ◌*◌, ◌/◌, ◌%◌, ◌≤◌, ◌<◌, min, max, String, ◌≡◌, refl, sym, ap, ◌∙◌, subst,
  ◌≢◌, ◌↔◌, ◌⊎◌, inl, inr, Bool, true, false, not, ◌&&◌, ◌||◌, Option, none, some, List, [], ◌∷◌,
  ◌++◌, map, arith, str_eq, eq_iff, ltb, leb, ◌==◌, if◌then◌else◌, is_some, holds, Bool-cases,
  Option-cases, ==-refl, ltb-of_lt, leb-of_le, if_ind, if_cases, length, take, length-append, All,
  All-append, All-append_left, All-append_right, All-imp,
}
use andruha_identity_service.Clock.{DateTime, ℤ, before}
use andruha_identity_service.Accounts.{UserRole}

-- application/exceptions/security.py
pub data TokenError : Type 0 where
  invalid_token_configuration invalid_token_signing_key : TokenError
  token_malformed token_expired invalid_token_data : TokenError

-- The parts of an unverified header, where they are texts.
pub record Header : Type 0 where
  pub alg : Option String
  pub typ : Option String
  pub kid : Option String

pub record PublicKey : Type 0 where
  pub key_id : ℕ
  pub key_size : ℕ

-- The `aud` claim: a text, a collection of texts, or something else.
pub data RawAudience : Type 0 where
  one : String → RawAudience
  many : List String → RawAudience
  unreadable : RawAudience

-- A time claim: a `datetime`, a number, which pydantic reads as a time, or something else.
pub data RawDate : Type 0 where
  datetime : DateTime → RawDate
  number : DateTime → RawDate
  not_numeric : RawDate

-- A payload whose other claims are of their types; a set of audiences is the list of its members.
pub record Payload : Type 0 where
  pub issuer : String
  pub user_id : ℕ
  pub audiences : RawAudience
  pub issued_at : RawDate
  pub expires_at : RawDate
  pub token_id : ℕ
  pub role : UserRole

-- `jwt.decode`: an expired signature, any other failure, or a payload; `none` has a missing or
-- ill-typed claim.
pub data Decoded : Type 0 where
  expired failed : Decoded
  decoded : Option Payload → Decoded

pub record Jwt : Type 0 where
  pub strip : String → String
  pub get_unverified_header : String → Option Header
  pub decode : String → PublicKey → (issuer audience : String) → (leeway : ℤ) → Decoded

pub record AccessTokenClaims : Type 0 where
  pub issuer : String
  pub user_id : ℕ
  pub audiences : List String
  pub issued_at : DateTime
  pub expires_at : DateTime
  pub token_id : ℕ
  pub role : UserRole

pub record Verifier : Type 0 where
  pub public_keys : List (String × PublicKey)
  pub issuer : String
  pub audience : String
  pub leeway : ℤ

abbrev pub min_key_bits : ℕ
min_key_bits = 2048

infixl 5 ◌then_try◌
abbrev pub ◌then_try◌ : {A B : Type 0} → TokenError ⊎ A → (A → TokenError ⊎ B) → TokenError ⊎ B
inl e then_try f = inl e
inr a then_try f = f a

abbrev pub is_negative : ℤ → Bool
is_negative (ℤ.pos n) = false
is_negative (ℤ.negsuc n) = true

-- `mapping.get(key_id)`
abbrev pub lookup : String → List (String × PublicKey) → Option PublicKey
lookup id [] = none
lookup id ((k, key) ∷ keys) = if str_eq k id then some key else lookup id keys

module _ (j : Jwt) where
  -- The loop of `__init__` over the keys; `ring` is what it has built so far.
  unfoldable pub normalize_keys :
      List (String × PublicKey)
      → (ring : List (String × PublicKey)) → TokenError ⊎ List (String × PublicKey)
  normalize_keys [] ring = inr ring
  normalize_keys ((k, key) ∷ keys) ring =
      let rest = normalize_keys keys ((j.strip k, key) ∷ ring) in
      if str_eq (j.strip k) ""
      then inl invalid_token_configuration
      else if is_some (lookup (j.strip k) ring)
      then inl invalid_token_configuration
      else if ltb key.key_size min_key_bits
      then inl invalid_token_signing_key
      else rest

  abbrev pub no_keys : List (String × PublicKey) → Bool
  no_keys [] = true
  no_keys (k ∷ keys) = false

  -- `__init__`
  unfoldable pub new_verifier :
      List (String × PublicKey) → (issuer audience : String) → (leeway : ℤ) → TokenError ⊎ Verifier
  unfolding normalize_keys
  new_verifier keys issuer audience leeway =
      if str_eq (j.strip issuer) "" || str_eq (j.strip audience) ""
      then inl invalid_token_configuration
      else if is_negative leeway
      then inl invalid_token_configuration
      else if no_keys keys
      then inl invalid_token_configuration
      else normalize_keys keys [] then_try λ ring. inr (record {
        public_keys = ring;
        issuer = j.strip issuer;
        audience = j.strip audience;
        leeway = leeway;
      })

  abbrev pub is_text : Option String → String → Bool
  is_text none text = false
  is_text (some t) text = str_eq t text

  abbrev pub trusted : Option PublicKey → TokenError ⊎ PublicKey
  trusted none = inl token_malformed
  trusted (some key) = inr key

  abbrev pub key_named : Option String → List (String × PublicKey) → TokenError ⊎ PublicKey
  key_named none ring = inl token_malformed
  key_named (some id) ring = trusted (lookup id ring)

  abbrev pub key_of_header : Option Header → List (String × PublicKey) → TokenError ⊎ PublicKey
  key_of_header none ring = inl token_malformed
  key_of_header (some h) ring =
      if not (is_text h.alg "RS256")
      then inl token_malformed
      else if not (is_text h.typ "at+jwt")
      then inl token_malformed
      else key_named h.kid ring

  -- `_select_public_key`
  unfoldable pub select_public_key : Verifier → String → TokenError ⊎ PublicKey
  select_public_key v token =
      if str_eq token ""
      then inl token_malformed
      else key_of_header (j.get_unverified_header token) v.public_keys

  -- `normalize_audiences` with the constraint of a claim: stripped, and not empty
  abbrev stripped : List String → TokenError ⊎ List String
  stripped [] = inr []
  stripped (a ∷ rest_of) =
      let rest = stripped rest_of in
      if str_eq (j.strip a) ""
      then inl invalid_token_data
      else rest then_try λ texts. inr (j.strip a ∷ texts)

  abbrev present : List String → TokenError ⊎ List String
  present [] = inl invalid_token_data
  present (a ∷ others) = inr (a ∷ others)

  unfoldable pub normalize_audiences : RawAudience → TokenError ⊎ List String
  normalize_audiences (one a) = stripped (a ∷ [])
  normalize_audiences (many texts) = stripped texts then_try present
  normalize_audiences unreadable = inl invalid_token_data

  -- `validate_numeric_date`
  unfoldable pub validate_numeric_date : RawDate → TokenError ⊎ DateTime
  validate_numeric_date (datetime t) = if t.aware then inr t else inl invalid_token_data
  validate_numeric_date (number t) = inr t
  validate_numeric_date not_numeric = inl invalid_token_data

  abbrev pub checked_window : AccessTokenClaims → TokenError ⊎ AccessTokenClaims
  checked_window c = if before c.issued_at c.expires_at then inr c else inl invalid_token_data

  abbrev pub nonblank : String → TokenError ⊎ String
  nonblank text = if str_eq (j.strip text) "" then inl invalid_token_data else inr (j.strip text)

  -- `AccessTokenClaims.model_validate`
  unfoldable pub validate_claims : Option Payload → TokenError ⊎ AccessTokenClaims
  unfolding normalize_audiences validate_numeric_date
  validate_claims none = inl invalid_token_data
  validate_claims (some p) = nonblank p.issuer then_try λ issuer.
      normalize_audiences p.audiences then_try λ audiences.
      validate_numeric_date p.issued_at then_try λ issued.
      validate_numeric_date p.expires_at then_try λ expires. checked_window (record {
        issuer = issuer;
        user_id = p.user_id;
        audiences = audiences;
        issued_at = issued;
        expires_at = expires;
        token_id = p.token_id;
        role = p.role;
      })

  abbrev pub claims_of : Decoded → TokenError ⊎ AccessTokenClaims
  claims_of expired = inl token_expired
  claims_of failed = inl token_malformed
  claims_of (decoded p) = validate_claims p

  -- `verify`
  unfoldable pub verify : Verifier → String → TokenError ⊎ AccessTokenClaims
  unfolding select_public_key validate_claims
  verify v token = select_public_key v token then_try λ key.
      claims_of (j.decode token key v.issuer v.audience v.leeway)
