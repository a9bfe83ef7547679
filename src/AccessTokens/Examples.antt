-- ===== src/AccessTokens/Examples.antt =====
-- A verifier with one key, and a token that it accepts.
use andruha_identity_service.Prelude.{
  ℕ, ◌≡◌, refl, inl, inr, true, none, some, [], ◌∷◌, str_eq, if◌then◌else◌,
}
use andruha_identity_service.Clock.{DateTime, pos}
use andruha_identity_service.Accounts.{user}
use andruha_identity_service.AccessTokens.{
  Header, PublicKey, Payload, one, number, decoded, Jwt, AccessTokenClaims, Verifier, new_verifier,
  verify, token_malformed,
}
use andruha_identity_service.AccessTokens.Trust.{Trusted, verify-Trusted}

abbrev at : ℕ → DateTime
at t = record { aware = true; instant = t }

abbrev key : PublicKey
key = record { key_id = 1; key_size = 2048 }

abbrev header : Header
header = record { alg = some "RS256"; typ = some "at+jwt"; kid = some "main" }

abbrev payload : Payload
payload = record {
  issuer = "identity";
  user_id = 3;
  audiences = one "api";
  issued_at = number (at 100);
  expires_at = number (at 200);
  token_id = 9;
  role = user;
}

abbrev jwt : Jwt
jwt = record {
  strip = λ text. text;
  get_unverified_header = λ text. if str_eq text "token" then some header else none;
  decode = λ text k issuer audience leeway. decoded (some payload);
}

abbrev verifier : Verifier
verifier = record {
  public_keys = ("main", key) ∷ [];
  issuer = "identity";
  audience = "api";
  leeway = pos 0;
}

abbrev claims : AccessTokenClaims
claims = record {
  issuer = "identity";
  user_id = 3;
  audiences = "api" ∷ [];
  issued_at = at 100;
  expires_at = at 200;
  token_id = 9;
  role = user;
}

constructed : new_verifier jwt (("main", key) ∷ []) "identity" "api" (pos 0) ≡ inr verifier
unfolding new_verifier
constructed = refl

accepted : verify jwt verifier "token" ≡ inr claims
unfolding verify
accepted = refl

refused : verify jwt verifier "forged" ≡ inl token_malformed
unfolding verify
refused = refl

verify-Trusted_example : Trusted jwt (("main", key) ∷ []) "identity" "api" (pos 0) "token" claims
verify-Trusted_example =
    verify-Trusted jwt (("main", key) ∷ []) "identity" "api" (pos 0) verifier "token" claims
      constructed accepted
