-- ===== src/Feeds/Tips.antt =====
-- The feeds of tips in src/modules/analytics/analytics.service.ts and the hiding of messages in
-- src/modules/creator/messages.service.ts. An ISO text in a response stands here as its time. Each of
-- the caches is a key space of its own, since the keys have different prefixes.
use Prim.Native.String
use novatip_backend.Prelude.{
  ℕ, String, Bool, ◌&&◌, Option, none, some, str_eq, opt_is, or_else, if◌then◌else◌, find?,
  update_where, count_where, ◌==◌, Result, ok, err,
}
use novatip_backend.Store.{Tip, Db}
use novatip_backend.Redis.{Kv}
use novatip_backend.Creator.Table.{PublicCreator, creator_by_id}
use novatip_backend.Feeds.Cursor.{KeyOrder, Platform}
use novatip_backend.Feeds.Select.{page_size, FeedPage, read_feed, decode_if_given}

pub record RecentTip : Type 0 where
  pub id : String
  pub tx_hash : String
  pub from_address : String
  pub amount : ℕ
  pub message : String
  pub message_hidden : Bool
  pub ledger_at : ℕ

pub record PublicTip : Type 0 where
  pub tx_hash : String
  pub from_address : String
  pub amount : ℕ
  pub message : String
  pub ledger_at : ℕ

abbrev pub recent_tip : Tip → RecentTip
recent_tip t = record {
  id = t.id;
  tx_hash = t.tx_hash;
  from_address = t.from_address;
  amount = t.amount;
  message = t.message;
  message_hidden = t.message_hidden;
  ledger_at = t.ledger_at;
}

abbrev pub public_tip : Tip → PublicTip
public_tip t = record {
  tx_hash = t.tx_hash;
  from_address = t.from_address;
  amount = t.amount;
  message = if t.message_hidden then "" else t.message;
  ledger_at = t.ledger_at;
}

abbrev pub recent_tips_max_limit : ℕ
recent_tips_max_limit = 100

abbrev pub public_tips_max_limit : ℕ
public_tips_max_limit = 50

-- the tips that are attributed to a creator
abbrev pub is_tip_of : String → Tip → Bool
is_tip_of creator_id t = opt_is t.creator_id creator_id

module _ (p : Platform) (o : KeyOrder) where
  -- `getRecentTips` past the cache
  unfoldable pub recent_tips : String → ℕ → Option String → Db → Result (FeedPage RecentTip)
  recent_tips creator_id limit cursor db =
      read_feed p o (λ t. t.ledger_at) (λ t. t.id) recent_tip (is_tip_of creator_id)
        (page_size recent_tips_max_limit limit) cursor db.tips

  -- `getPublicRecentTips` past the cache, once the creator was found
  unfoldable pub public_recent_tips : String → ℕ → Option String → Db → Result (FeedPage PublicTip)
  public_recent_tips creator_id limit cursor db =
      read_feed p o (λ t. t.ledger_at) (λ t. t.tx_hash) public_tip (is_tip_of creator_id)
        (page_size public_tips_max_limit limit) cursor db.tips

  -- `analytics:…:${…}:${take}:${cursor ?? "head"}`, behind the prefix of `cacheSet`
  abbrev feed_key : (ℕ → String) → String → String → ℕ → Option String → String
  feed_key show kind owner size cursor = String.◌++◌ "cache:analytics:" (
      String.◌++◌ kind (
        String.◌++◌ owner
          (String.◌++◌ ":" (String.◌++◌ (show size) (String.◌++◌ ":" (or_else cursor "head"))))))

  module _ (show : ℕ → String) (now : ℕ) where
    -- a malformed cursor is refused before the cache is read; a page is cached for 30 seconds
    unfoldable pub get_recent_tips :
        (pages : Kv (FeedPage RecentTip))
        → String
        → ℕ
        → Option String
        → Db
        → pages.Keys
        → Result (FeedPage RecentTip) × pages.Keys
    unfolding recent_tips
    get_recent_tips pages creator_id limit cursor db cache =
        let key =
          feed_key show "recent:" creator_id (page_size recent_tips_max_limit limit) cursor in
        elim (decode_if_given p cursor) [
          | err e ↦ (err e, cache)
          | ok _ ↦ (elim (pages.get now key cache) [
            | some cached ↦ (ok cached, cache)
            | none ↦ (elim (recent_tips creator_id limit cursor db) [
              | err e ↦ (err e, cache)
              | ok page ↦ (ok page, pages.set now key page 30 cache)
            ])
          ])
        ]

    -- `creator` is what `getCreatorBySlug` returns or throws, if it is called; a page is cached for 15
    -- seconds
    unfoldable pub get_public_recent_tips :
        (pages : Kv (FeedPage PublicTip))
        → String
        → ℕ
        → Option String
        → Result PublicCreator
        → Db
        → pages.Keys
        → Result (FeedPage PublicTip) × pages.Keys
    unfolding public_recent_tips
    get_public_recent_tips pages slug limit cursor creator db cache =
        let key =
          feed_key show "public-recent:" slug (page_size public_tips_max_limit limit) cursor in
        elim (decode_if_given p cursor) [
          | err e ↦ (err e, cache)
          | ok _ ↦ (elim (pages.get now key cache) [
            | some cached ↦ (ok cached, cache)
            | none ↦ (elim creator [
              | err e ↦ (err e, cache)
              | ok found ↦ (elim (public_recent_tips found.id limit cursor db) [
                | err e ↦ (err e, cache)
                | ok page ↦ (ok page, pages.set now key page 15 cache)
              ])
            ])
          ])
        ]

    -- the two pages that `invalidatePublicFeedCache` deletes
    unfoldable pub invalidate_public_feed_cache :
        (pages : Kv (FeedPage PublicTip)) → String → pages.Keys → pages.Keys
    invalidate_public_feed_cache pages slug cache =
        pages.del (feed_key show "public-recent:" slug 50 none)
          (pages.del (feed_key show "public-recent:" slug 20 none) cache)

    -- `setTipMessageHidden`; null if the creator has no such tip
    unfoldable pub set_tip_message_hidden :
        (pages : Kv (FeedPage PublicTip))
        → String
        → String
        → Bool
        → Db
        → pages.Keys
        → Option (String × Bool) × Db × pages.Keys
    unfolding invalidate_public_feed_cache
    set_tip_message_hidden pages creator_id tip_id hidden db cache =
        let owned = λ (t : Tip). str_eq t.id tip_id && is_tip_of creator_id t in
        let after = record db {
          tips = update_where owned (λ t. record t { message_hidden = hidden }) db.tips;
        } in
        let found = find? (λ t. str_eq t.id tip_id) after.tips in
        let answer : Option (String × Bool) = elim found [
          | none ↦ none
          | some t ↦ some (t.id, t.message_hidden)
        ] in
        let fresh : pages.Keys = elim (creator_by_id creator_id after) [
          | none ↦ cache
          | some creator ↦ invalidate_public_feed_cache pages creator.slug cache
        ] in
        if count_where owned db.tips == 0 then (none, after, cache) else (answer, after, fresh)
