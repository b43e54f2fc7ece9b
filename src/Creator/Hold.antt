-- ===== src/Creator/Hold.antt =====
-- The holds on released slugs, in src/modules/creator/creator.service.ts.
use novatip_backend.Prelude.{
  ℕ, ◌+◌, ◌*◌, String, Bool, true, Option, none, some, [], ◌∷◌, ◌++◌, leb, str_eq, opt_is, is_some,
  if◌then◌else◌, find?, update_where, Error, thrown,
}
use novatip_backend.Store.{ReleasedSlug, Db}
use novatip_backend.Creator.Table.{Env}

abbrev pub millis_per_day : ℕ
millis_per_day = 86400000

unfoldable pub held_until : Env → ReleasedSlug → ℕ
held_until env release = release.released_at + env.slug_hold_days * millis_per_day

abbrev pub release_of : String → Db → Option ReleasedSlug
release_of slug db = find? (λ r. str_eq r.slug slug) db.released_slugs

unfoldable pub active_slug_hold : Env → String → Db → Option ReleasedSlug
unfolding held_until
active_slug_hold env slug db = elim (release_of slug db) [
  | none ↦ none
  | some released ↦ if leb (held_until env released) env.now then none else some released
]

-- `!hold || hold.previousOwnerId === requesterId`
abbrev pub hold_admits : Option ReleasedSlug → String → Bool
hold_admits none requester_id = true
hold_admits (some hold) requester_id = opt_is hold.previous_owner_id requester_id

abbrev pub slug_taken : Error
slug_taken = thrown 409 "SLUG_TAKEN"

-- whether `assertSlugHoldFree` returns, and not throws SLUG_TAKEN
unfoldable pub slug_hold_free : Env → String → String → Db → Bool
slug_hold_free env slug requester_id db = hold_admits (active_slug_hold env slug db) requester_id

-- the upsert on the slug
unfoldable pub record_slug_release : ℕ → String → Option String → Db → Db
record_slug_release now slug previous_owner_id db =
    let row : ReleasedSlug = record {
      slug = slug;
      previous_owner_id = previous_owner_id;
      released_at = now;
    } in
    record db {
      released_slugs =
          if is_some (release_of slug db)
          then update_where (λ r. str_eq r.slug slug) (λ _. row) db.released_slugs
          else db.released_slugs ++ row ∷ [];
    }
