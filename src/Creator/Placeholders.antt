-- ===== src/Creator/Placeholders.antt =====
-- src/modules/creator/placeholder-retention.ts: the sweep of accounts that never claimed a slug. The
-- timer is not modelled.
pub mod Sweep
pub mod Claimed
use novatip_backend.Prelude.{
  ℕ, zero, suc, ◌+◌, ◌-◌, ◌*◌, ◌≡◌, String, Bool, true, false, ◌&&◌, not, Option, none, some, List,
  [], ◌∷◌, map, filter, any, count_where, length, get_last?, ltb, ◌==◌, str_eq, opt_is, codes,
  if◌then◌else◌, In,
}
use mathlib.Core.Option
use novatip_backend.Store.{Creator, Db}
use novatip_backend.Creator.Slug.{is_placeholder_slug}

abbrev pub ms_per_day : ℕ
ms_per_day = 24 * 60 * 60 * 1000

abbrev pub max_batches_per_run : ℕ
max_batches_per_run = 50

-- a date before 1970 is 0: no row is older than either
abbrev pub cutoff_for : ℕ → ℕ → ℕ
cutoff_for days now = now - days * ms_per_day

-- no tips, webhooks, notifications or released slugs
abbrev pub is_inert : Db → Creator → Bool
is_inert db c =
    not (any (λ t. opt_is t.creator_id c.id) db.tips)
    && not (any (λ w. str_eq w.creator_id c.id) db.webhooks)
    && not (any (λ n. str_eq n.creator_id c.id) db.notifications)
    && not (any (λ r. opt_is r.previous_owner_id c.id) db.released_slugs)

-- `startsWith`
abbrev pub starts_with : List ℕ → List ℕ → Bool
starts_with [] s = true
starts_with (c ∷ pre) [] = false
starts_with (c ∷ pre) (d ∷ s) = c == d && starts_with pre s

-- the rows that the scan selects
abbrev pub is_candidate : ℕ → Db → Creator → Bool
is_candidate cutoff db c =
    starts_with (codes "user_") (codes c.slug) && ltb c.created_at cutoff && is_inert db c

-- What Prisma makes of ORDER BY id, a cursor and a take: some of the rows that the scan selects.
pub record Paging : Type 0 where
  pub page : ℕ → Option String → List Creator → List Creator
  pub In-page :
      (take : ℕ) (cursor : Option String) (rows : List Creator) (c : Creator)
      → In c (page take cursor rows)
      → In c rows

pub record Swept : Type 0 where
  pub deleted : ℕ
  pub done : Bool
  pub db : Db

-- the ids of the candidates that have the exact pattern
abbrev pub eligible_ids : List Creator → List String
eligible_ids candidates = map (λ c. c.id) (filter (λ c. is_placeholder_slug c.slug) candidates)

-- `id: { in: ids }, ...isInert`
abbrev pub is_doomed : List String → Db → Creator → Bool
is_doomed ids db c = any (λ id. str_eq id c.id) ids && is_inert db c

abbrev pub delete_many : List String → Db → Db
delete_many ids db = record db { creators = filter (λ c. not (is_doomed ids db c)) db.creators }

module _ (paging : Paging) (cutoff batch_size : ℕ) where
  abbrev pub candidates_of : Option String → Db → List Creator
  candidates_of cursor db =
      paging.page batch_size cursor (filter (is_candidate cutoff db) db.creators)

  -- the loop, with the batches that are left; without eligible ids nothing is deleted
  unfoldable pub prune_batch : ℕ → Option String → Db → Swept
  unfolding is_placeholder_slug
  prune_batch zero cursor db = record { deleted = 0; done = false; db = db }
  prune_batch (suc batches) cursor db =
      let candidates = candidates_of cursor db in
      let ids = eligible_ids candidates in
      let count = count_where (is_doomed ids db) db.creators in
      let left = delete_many ids db in
      let rest =
        prune_batch batches (Option.map (λ (c : Creator). c.id) (get_last? candidates)) left in
      if length candidates == 0
      then record { deleted = 0; done = true; db = db }
      else if ltb (length candidates) batch_size
      then record { deleted = count; done = true; db = left }
      else record { deleted = count + rest.deleted; done = rest.done; db = rest.db }

-- `config.creators`
pub record PlaceholderConfig : Type 0 where
  pub retention_days : ℕ
  pub batch_size : ℕ

pub record PlaceholderPruneResult : Type 0 where
  pub deleted : ℕ
  pub truncated : Bool

abbrev pub placeholder_retention_enabled : PlaceholderConfig → Bool
placeholder_retention_enabled c = ltb 0 c.retention_days

unfoldable pub prune_placeholder_creators :
    Paging → PlaceholderConfig → ℕ → Db → PlaceholderPruneResult × Db
unfolding prune_batch
prune_placeholder_creators paging c now db =
    if not (placeholder_retention_enabled c)
    then (record { deleted = 0; truncated = false }, db)
    else (let swept =
          prune_batch paging (cutoff_for c.retention_days now) c.batch_size max_batches_per_run none
            db in
        (record { deleted = swept.deleted; truncated = not swept.done }, swept.db))
