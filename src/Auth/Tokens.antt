-- ===== src/Auth/Tokens.antt =====
-- application/tokens.py, application/dto/token_pair.py, `IssuedRefreshToken` of
-- application/ports/dto/security.py, and `verify_or_dummy` of
-- infrastructure/security/password_hasher.py. The signer of access tokens, the source of opaque
-- tokens, their digest and the hash function come from an `Issuer` and a `Hasher`.
use andruha_identity_service.Prelude.{ℕ, String, Bool, false, not, Option, none, some, str_eq, ◌==◌}
use andruha_identity_service.Errors.{Result, ok, raise_if, ◌>>=◌, ◌>>◌, token_issuance}
use andruha_identity_service.Clock.{DateTime, Bytes}
use andruha_identity_service.Accounts.{Texts, User, UserRole}

pub record TokenPair : Type 0 where
  pub access_token : String
  pub refresh_token : String
  pub token_type : String

pub record IssuedTokenPair : Type 0 where
  pub pair : TokenPair
  pub refresh_digest : Bytes

pub record IssuedRefreshToken : Type 0 where
  pub value : String
  pub digest : Bytes

-- `AccessTokenIssuerProtocol` and `OpaqueRefreshTokenCodecProtocol`; `draw` counts the tokens drawn.
-- `texts` is what the validation of a loaded account takes from Pydantic.
pub record Issuer : Type 0 where
  pub access : (user_id : ℕ) → UserRole → DateTime → Result String
  pub random_token : (draw : ℕ) → String
  pub digest : String → Bytes
  pub texts : Texts

-- `IssuedRefreshToken(...)`: `__post_init__`
unfoldable pub issued_refresh_token : String → Bytes → Result IssuedRefreshToken
issued_refresh_token value digest = do
  raise_if (str_eq value "") token_issuance
  raise_if (not (digest.size == 32)) token_issuance
  ok (record { value = value; digest = digest })

-- `SHA256OpaqueRefreshTokenCodec.issue`
unfoldable pub issue_refresh : Issuer → ℕ → Result IssuedRefreshToken
unfolding issued_refresh_token
issue_refresh g draw = issued_refresh_token (g.random_token draw) (g.digest (g.random_token draw))

-- `TokenPairIssuer.issue`
unfoldable pub issue : Issuer → ℕ → User → DateTime → Result IssuedTokenPair
unfolding issue_refresh
issue g draw u now = do
  access ← g.access u.id u.role now
  refresh ← issue_refresh g draw
  ok (record {
    pair = record { access_token = access; refresh_token = refresh.value; token_type = "bearer" };
    refresh_digest = refresh.digest;
  })

pub record Hasher : Type 0 where
  pub hash : String → Result String
  pub verify : String → String → Result Bool

-- `verify_or_dummy`
unfoldable pub verify_or_dummy : Hasher → String → Option String → Result Bool
verify_or_dummy h password none = do discarded ← h.hash password; ok false
verify_or_dummy h password (some password_hash) = h.verify password password_hash
