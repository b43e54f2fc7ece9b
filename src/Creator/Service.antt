-- ===== src/Creator/Service.antt =====
-- The functions of src/modules/creator/creator.service.ts with their effects on the database and on
-- the profile cache, whose three helpers stand in src/redis.ts. A cached value that is no JSON, which
-- `cacheGet` evicts, does not occur, since values are typed here.
use Prim.Native.String
use novatip_backend.Prelude.{
  ℕ, String, Bool, true, false, ◌&&◌, not, Option, none, some, List, map, str_eq, opt_is, is_some,
  if◌then◌else◌, filter, any, update_where, thrown, fault, ok, err, Exec, ◌>>=◌, ◌>>◌, lift, pure,
}
use novatip_backend.Store.{Creator, Split, splits_json, Db}
use novatip_backend.Redis.{Kv}
use novatip_backend.Creator.Table.{
  PublicCreator, Site, Env, creator_by_id, creator_by_slug, update_creator,
}
use novatip_backend.Creator.Hold.{record_slug_release}
use novatip_backend.Creator.Claim.{
  ClaimSlugInput, RenameSlugInput, claim_in_db, rename_checks, rename_writes,
}

-- the key `creator:${slug}` behind the prefix of `cacheSet`
unfoldable pub profile_key : String → String
profile_key slug = String.◌++◌ "cache:creator:" slug

abbrev pub profile_cache_ttl : ℕ
profile_cache_ttl = 60

-- the columns that the `select` of `getCreatorBySlug` allows
unfoldable pub public_view : Creator → PublicCreator
public_view c = record {
  id = c.id;
  slug = c.slug;
  display_name = c.display_name;
  bio = c.bio;
  avatar_url = c.avatar_url;
  jar_id = c.jar_id;
  splits = c.splits;
  created_at = c.created_at;
}

-- an optional field of a PATCH that may be null: undefined, or the new value
abbrev pub Patch : Type 0
Patch = Option (Option String)

abbrev patched : Patch → Option String → Option String
patched none old = old
patched (some new) old = new

pub record UpdateProfileInput : Type 0 where
  pub creator_id : String
  pub display_name : Patch
  pub bio : Patch
  pub avatar_url : Patch
  pub email : Patch

-- `input.email !== current?.email`
abbrev same_text : Option String → Option String → Bool
same_text none none = true
same_text none (some t) = false
same_text (some s) none = false
same_text (some s) (some t) = str_eq s t

-- `emailVerifiedAt: null` if the address changes
abbrev verified_after : Patch → Option String → Option ℕ → Option ℕ
verified_after none old verified = verified
verified_after (some new) old verified = if same_text new old then verified else none

unfoldable pub patched_row : UpdateProfileInput → Creator → Creator
patched_row input c = record c {
  display_name = patched input.display_name c.display_name;
  bio = patched input.bio c.bio;
  avatar_url = patched input.avatar_url c.avatar_url;
  email = patched input.email c.email;
  email_verified_at = verified_after input.email c.email c.email_verified_at;
}

-- The writes of the transaction of `deleteCreator`. The deletion of the row sets the references to it
-- in tips and in released slugs to null, as the schema says.
unfoldable pub delete_account : ℕ → String → String → Db → Db
delete_account now creator_id slug db =
    let webhook_ids = map (λ w. w.id) (filter (λ w. str_eq w.creator_id creator_id) db.webhooks) in
    let released = record_slug_release now slug none db in
    record released {
      notifications = filter (λ n. not (str_eq n.creator_id creator_id)) db.notifications;
      webhook_deliveries =
          filter (λ d. not (any (λ id. str_eq id d.webhook_id) webhook_ids)) db.webhook_deliveries;
      webhooks = filter (λ w. not (str_eq w.creator_id creator_id)) db.webhooks;
      released_slugs =
          update_where (λ r. opt_is r.previous_owner_id creator_id)
            (λ r. record r { previous_owner_id = none }) released.released_slugs;
      tips =
          update_where (λ t. opt_is t.creator_id creator_id) (λ t. record t { creator_id = none })
            db.tips;
      creators = filter (λ c. not (str_eq c.id creator_id)) db.creators;
    }

-- the transaction, which leaves nothing written if it throws
unfoldable pub delete_in_db : ℕ → String → Exec Db String
delete_in_db now creator_id db = elim (creator_by_id creator_id db) [
  | none ↦ (err (thrown 404 ""), db)
  | some creator ↦ (ok creator.slug, delete_account now creator_id creator.slug db)
]

-- the key of `revokeCreatorTokens`
unfoldable pub revoked_key : String → String
revoked_key creator_id = String.◌++◌ "auth:revoked:" creator_id

module _ (profiles : Kv PublicCreator) (revocations : Kv String) where
  open profiles use {Keys, get, set, del}

  -- run on the database alone
  abbrev on_db : {A : Type 0} → Exec Db A → Exec (Site Keys revocations.Keys) A
  on_db m s = let (r, db) = m s.db in (r, record s { db = db })

  -- a failed command is logged and swallowed
  unfoldable pub cache_invalidate : Env → String → Exec (Site Keys revocations.Keys) (Unit {0})
  cache_invalidate env key s =
      (ok tt, if env.redis_up then record s { cache = del key s.cache } else s)

  unfoldable pub cache_get : Env → String → Site Keys revocations.Keys → Option PublicCreator
  cache_get env key s = if env.redis_up then get env.now key s.cache else none

  unfoldable pub cache_set :
      Env → String → PublicCreator → ℕ → Exec (Site Keys revocations.Keys) (Unit {0})
  cache_set env key value ttl s =
      (ok tt, if env.redis_up then record s { cache = set env.now key value ttl s.cache } else s)

  unfoldable pub claim_slug : Env → ClaimSlugInput → Exec (Site Keys revocations.Keys) Creator
  unfolding cache_invalidate
  claim_slug env input s =
      (do
        creator ← on_db (claim_in_db env input)
        cache_invalidate env (profile_key input.slug)
        pure creator)
        s

  unfoldable pub rename_slug : Env → RenameSlugInput → Exec (Site Keys revocations.Keys) Creator
  unfolding cache_invalidate
  rename_slug env input s =
      (do
        old_slug ← on_db (λ db. lift (rename_checks env input db) db)
        creator ← on_db (rename_writes env input old_slug)
        cache_invalidate env (profile_key old_slug)
        (if str_eq input.slug old_slug
            then pure tt
            else cache_invalidate env (profile_key input.slug))
        pure creator)
        s

  -- src/redis.ts; a failed command is thrown on
  unfoldable pub revoke_creator_tokens : Env → String → Exec (Site Keys revocations.Keys) (Unit {0})
  unfolding revoked_key
  revoke_creator_tokens env creator_id s =
      if env.redis_up
      then (
        ok tt,
        record s {
          revoked =
              revocations.set env.now (revoked_key creator_id) "1" env.jwt_expires_in_seconds
                s.revoked;
        },
      )
      else (err (fault "redis"), s)

  -- src/redis.ts
  unfoldable pub are_creator_tokens_revoked : Env → String → Exec (Site Keys revocations.Keys) Bool
  unfolding revoked_key
  are_creator_tokens_revoked env creator_id s =
      if env.redis_up
      then (ok (is_some (revocations.get env.now (revoked_key creator_id) s.revoked)), s)
      else (err (fault "redis"), s)

  unfoldable pub delete_creator : Env → String → Exec (Site Keys revocations.Keys) (Unit {0})
  unfolding cache_invalidate revoke_creator_tokens
  delete_creator env creator_id s =
      (do
        slug ← on_db (delete_in_db env.now creator_id)
        revoke_creator_tokens env creator_id
        cache_invalidate env (profile_key slug))
        s

  unfoldable pub get_creator_by_slug :
      Env → String → Exec (Site Keys revocations.Keys) PublicCreator
  unfolding cache_get cache_set public_view
  get_creator_by_slug env slug s = elim (cache_get env (profile_key slug) s) [
    | some cached ↦ (ok cached, s)
    | none ↦ elim (creator_by_slug slug s.db) [
      | none ↦ (err (thrown 404 ""), s)
      | some creator ↦
          (do
            cache_set env (profile_key slug) (public_view creator) profile_cache_ttl
            pure (public_view creator))
            s
    ]
  ]

  unfoldable pub update_profile :
      Env → UpdateProfileInput → Exec (Site Keys revocations.Keys) Creator
  unfolding update_creator patched_row cache_invalidate
  update_profile env input s =
      if is_some input.email && not (is_some (creator_by_id input.creator_id s.db))
      then (err (thrown 404 ""), s)
      else (do
        creator ← on_db (update_creator input.creator_id (patched_row input))
        cache_invalidate env (profile_key creator.slug)
        pure creator)
          s

  unfoldable pub update_creator_splits :
      Env → String → List Split → Exec (Site Keys revocations.Keys) Creator
  unfolding update_creator cache_invalidate
  update_creator_splits env creator_id splits s =
      (do
        creator ← on_db (update_creator creator_id (λ c. record c { splits = splits_json splits }))
        cache_invalidate env (profile_key creator.slug)
        pure creator)
        s
