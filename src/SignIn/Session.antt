-- ===== src/SignIn/Session.antt =====
-- src/modules/auth/authenticate.ts. The library for tokens is a parameter.
pub mod Revoked
use novatip_backend.Prelude.{
  ℕ, ◌+◌, ◌/◌, ◌≤◌, ◌<◌, ◌≡◌, String, Bool, true, false, Option, none, some, is_some, if◌then◌else◌,
  Result, ok, err, Exec,
}
use novatip_backend.Redis.{Kv}
use novatip_backend.Creator.Table.{PublicCreator, Site, Env}
use novatip_backend.Creator.Service.{are_creator_tokens_revoked}
use novatip_backend.SignIn.Challenge.{SessionClaims}

-- `request.user`
pub record User : Type 0 where
  pub sub : String
  pub wallet : String
  pub slug : String
  pub purpose : Option String

-- @fastify/jwt: `sign` at a time, and `verify` at a time, none if it throws. A token carries its time
-- of issue in whole seconds, and is refused from the end of its lifetime on.
pub record Jwt : Type 1 where
  -- the texts of the tokens
  pub Token : Type 0
  pub lifetime_seconds : ℕ
  pub sign : ℕ → SessionClaims → Token
  pub verify : ℕ → Token → Option User
  pub verify-sign :
      (issued now : ℕ) (claims : SessionClaims)
      → issued ≤ now
      → now / 1000 < issued / 1000 + lifetime_seconds
      → verify now (sign issued claims)
        ≡ some (record {
          sub = claims.sub;
          wallet = claims.wallet;
          slug = claims.slug;
          purpose = none;
        })
  pub verify-expired :
      (issued now : ℕ) (claims : SessionClaims)
      → issued / 1000 + lifetime_seconds ≤ now / 1000
      → verify now (sign issued claims) ≡ none

module _ (jwt : Jwt) (profiles : Kv PublicCreator) (revocations : Kv String) where
  -- the answer of Redis; a failed command is thrown on
  abbrev pub after_revocation : User → Result Bool → Result (Option User)
  after_revocation user (ok true) = ok none
  after_revocation user (ok false) = ok (some user)
  after_revocation user (err e) = err e

  abbrev pub after_verify :
      Env → Option User → Site profiles.Keys revocations.Keys → Result (Option User)
  after_verify env none s = ok none
  after_verify env (some user) s =
      if is_some user.purpose
      then ok none
      else after_revocation user (are_creator_tokens_revoked profiles revocations env user.sub s).0

  -- the user whose request goes on; none if it was answered by 401
  unfoldable pub authenticate :
      Env → jwt.Token → Site profiles.Keys revocations.Keys → Result (Option User)
  unfolding are_creator_tokens_revoked
  authenticate env token s = after_verify env (jwt.verify env.now token) s
