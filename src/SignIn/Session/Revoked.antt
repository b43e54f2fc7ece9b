-- ===== src/SignIn/Session/Revoked.antt =====
-- The tokens of a deleted creator.
use novatip_backend.Prelude.{
  ℕ, ◌+◌, ◌*◌, ◌/◌, ◌≤◌, ◌<◌, ◌≡◌, refl, ap, ◌∙◌, String, true, none, some, ltb, is_some,
  Bool-cases, ltb→lt, continue, inl, inr, arith, eq_refl, Result, ok, err,
}
use novatip_backend.Redis.{Kv}
use novatip_backend.Creator.Table.{PublicCreator, Site, Env}
use novatip_backend.Creator.Service.{
  revoked_key, revoke_creator_tokens, are_creator_tokens_revoked, delete_in_db, delete_creator,
  cache_invalidate, profile_key,
}
use novatip_backend.SignIn.Challenge.{SessionClaims}
use novatip_backend.SignIn.Session.{User, Jwt, after_verify, authenticate}

-- the time at which a request comes, with the rest of what it finds unchanged
abbrev pub at_time : Env → ℕ → Env
at_time env t = record env { now = t }

module _ (jwt : Jwt) (profiles : Kv PublicCreator) (revocations : Kv String) where
  -- what follows the transaction of the deletion
  abbrev after_delete :
      Env
      → String
      → Result String
      → Site profiles.Keys revocations.Keys
      → Result (Unit {0}) × Site profiles.Keys revocations.Keys
  after_delete env id r = continue r (λ slug s.
      continue (revoke_creator_tokens profiles revocations env id s).0
        (λ _. cache_invalidate profiles revocations env (profile_key slug))
        (revoke_creator_tokens profiles revocations env id s).1)

  marked :
      (env : Env) (id : String) (r : Result String) (s : Site profiles.Keys revocations.Keys)
      → (after_delete env id r s).0 ≡ ok tt
      → (after_delete env id r s).1.revoked
        ≡ revocations.set env.now (revoked_key id) "1" env.jwt_expires_in_seconds s.revoked
  unfolding revoke_creator_tokens cache_invalidate
  marked env id (err e) s h = cc
  marked env id (ok slug) s h = ground (arith, h)

  -- a deletion that ends well has set the mark
  deleted_mark :
      (env : Env) (id : String) (s : Site profiles.Keys revocations.Keys)
      → (delete_creator profiles revocations env id s).0 ≡ ok tt
      → (delete_creator profiles revocations env id s).1.revoked
        ≡ revocations.set env.now (revoked_key id) "1" env.jwt_expires_in_seconds s.revoked
  unfolding delete_creator
  deleted_mark env id s h =
      marked env id (delete_in_db env.now id s.db).0
        (record s { db = (delete_in_db env.now id s.db).1 }) h

  revoked_user :
      (env : Env) (t : ℕ) (user : User) (s s' : Site profiles.Keys revocations.Keys)
      → s'.revoked
        ≡ revocations.set env.now (revoked_key user.sub) "1" env.jwt_expires_in_seconds s.revoked
      → env.redis_up ≡ true
      → env.now ≤ t
      → t < env.now + env.jwt_expires_in_seconds * 1000
      → after_verify jwt profiles revocations (at_time env t) (some user) s' ≡ ok none
  unfolding are_creator_tokens_revoked
  revoked_user env t user s s' e up le lt =
      let mark : revocations.get t (revoked_key user.sub) s'.revoked ≡ some "1" =
        ap (revocations.get t (revoked_key user.sub)) e
        ∙ revocations.get-set t env.now (revoked_key user.sub) (revoked_key user.sub) "1"
            env.jwt_expires_in_seconds s.revoked le
        ∙ ground (arith, eq_refl (revoked_key user.sub), lt) in
      elim (Bool-cases (is_some user.purpose)) [
        | inl other ↦ rw other refl
        | inr session ↦ rw (session, up, mark) refl
      ]

  -- If the lifetime of a token is that of the configuration, Redis answers and the deletion of a
  -- creator succeeded: a token that was signed for the creator until then is refused with 401 at any
  -- later time, by the mark while it could be valid, and as expired from then on.
  pub delete_creator-authenticate :
      (env : Env) (s : Site profiles.Keys revocations.Keys) (claims : SessionClaims) (issued t : ℕ)
      → jwt.lifetime_seconds ≡ env.jwt_expires_in_seconds
      → env.redis_up ≡ true
      → (delete_creator profiles revocations env claims.sub s).0 ≡ ok tt
      → issued ≤ env.now
      → env.now ≤ t
      → authenticate jwt profiles revocations
          (at_time env t)
          (jwt.sign issued claims)
          (delete_creator profiles revocations env claims.sub s).1
        ≡ ok none
  unfolding authenticate
  delete_creator-authenticate env s claims issued t lifetime up deleted before after =
      let gone = (delete_creator profiles revocations env claims.sub s).1 in
      let mark = deleted_mark env claims.sub s deleted in
      elim (Bool-cases (ltb (t / 1000) (issued / 1000 + jwt.lifetime_seconds))) [
        | inr expired ↦
            ap (λ u. after_verify jwt profiles revocations (at_time env t) u gone)
              (jwt.verify-expired issued t claims (ground (arith, expired)))
        | inl valid ↦
            ap (λ u. after_verify jwt profiles revocations (at_time env t) u gone)
              (jwt.verify-sign issued t claims (omega arith) (ground (arith, valid)))
            ∙ revoked_user env t
                (record {
                  sub = claims.sub;
                  wallet = claims.wallet;
                  slug = claims.slug;
                  purpose = none;
                })
                s gone mark up after (omega (arith, ltb→lt _ _ valid, lifetime))
      ]
