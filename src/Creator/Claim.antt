-- ===== src/Creator/Claim.antt =====
-- claimSlug, renameSlug and isSlugAvailable of src/modules/creator/creator.service.ts.
use novatip_backend.Prelude.{
  ℕ, String, Bool, true, false, ◌&&◌, not, Option, none, some, List, [], str_eq, opt_is, is_some,
  or_else, if◌then◌else◌, update_where, any, Error, thrown, unique_violation, Result, ok, err, Exec,
  ◌>>=◌, ◌>>◌, lift, modify, pure,
}
use novatip_backend.Store.{Creator, ReleasedSlug, Split, splits_json, Tip, Db}
use novatip_backend.Creator.Slug.{
  is_creator_slug, is_placeholder_slug, is_reserved_slug, resolve_jar_id, jar_id_for_slug,
}
use novatip_backend.Creator.Table.{
  Env, creator_by_id, creator_by_slug, creator_by_jar, update_creator,
}
use novatip_backend.Creator.Hold.{slug_taken, slug_hold_free, active_slug_hold, record_slug_release}

pub record ClaimSlugInput : Type 0 where
  pub creator_id : String
  pub slug : String
  pub jar_id : Option String
  pub display_name : Option String
  pub bio : Option String
  pub splits : Option (List Split)

-- a P2002 becomes the conflict that names its column; anything else is thrown on
unfoldable pub to_claim_conflict : Error → Error
to_claim_conflict (unique_violation target) =
    if any (λ column. str_eq column "jarId") target then thrown 409 "JARID_TAKEN" else slug_taken
to_claim_conflict e = e

-- `existing && existing.id !== creatorId`
abbrev pub held_by_other : String → Option Creator → Bool
held_by_other creator_id none = false
held_by_other creator_id (some c) = not (str_eq c.id creator_id)

-- `current && !PLACEHOLDER_SLUG_REGEX.test(current.slug)`
abbrev pub has_claimed : Option Creator → Bool
has_claimed none = false
has_claimed (some c) = not (is_placeholder_slug c.slug)

-- a field that the spread adds only if it is not undefined
abbrev pub or_keep : Option String → Option String → Option String
or_keep none old = old
or_keep (some new) old = some new

abbrev pub claimed_row : ClaimSlugInput → String → Creator → Creator
claimed_row input jar_id c = record c {
  slug = input.slug;
  jar_id = jar_id;
  splits = splits_json (or_else input.splits []);
  display_name = or_keep input.display_name c.display_name;
  bio = or_keep input.bio c.bio;
}

-- a tip of the jar that nobody owns
abbrev pub is_unowned_of : String → Tip → Bool
is_unowned_of jar_id t = opt_is t.jar_id jar_id && not (is_some t.creator_id)

unfoldable pub attach_tips : String → String → Db → Db
attach_tips jar_id creator_id db = record db {
  tips =
      update_where (is_unowned_of jar_id) (λ t. record t { creator_id = some creator_id }) db.tips;
}

-- the checks of `claimSlug`, in their order, with the row of the claimant
unfoldable pub claim_checks : Env → ClaimSlugInput → Db → Result (Option Creator × String)
claim_checks env input db =
    if not (is_creator_slug input.slug)
    then err (thrown 400 "")
    else if is_reserved_slug input.slug
    then err (thrown 400 "")
    else elim (resolve_jar_id input.slug input.jar_id) [
      | err e ↦ err e
      | ok jar_id ↦
          let current = creator_by_id input.creator_id db in
          if held_by_other input.creator_id (creator_by_slug input.slug db)
          then err slug_taken
          else if not (slug_hold_free env input.slug input.creator_id db)
          then err slug_taken
          else if has_claimed current
          then err (thrown 409 "ALREADY_CLAIMED")
          else ok (current, jar_id)
    ]

-- `current && current.slug !== slug`: the slug left behind is released
abbrev pub release_left : ℕ → Option Creator → String → String → Db → Db
release_left now none slug owner_id db = db
release_left now (some c) slug owner_id db =
    if str_eq c.slug slug then db else record_slug_release now c.slug (some owner_id) db

-- what follows the update of the creator's row in `claimSlug`
unfoldable pub claim_rest :
    Env → ClaimSlugInput → Option Creator → String → Result Creator × Db → Result Creator × Db
unfolding to_claim_conflict
claim_rest env input current jar_id (err e, db) = (err (to_claim_conflict e), db)
claim_rest env input current jar_id (ok creator, db) =
    (do
      modify (attach_tips jar_id creator.id)
      modify (release_left env.now current input.slug input.creator_id)
      pure creator)
      db

-- the writes that follow the checks; the state may have changed since they were made
unfoldable pub claim_writes : Env → ClaimSlugInput → Option Creator × String → Exec Db Creator
claim_writes env input (current, jar_id) db =
    claim_rest env input current jar_id
      (update_creator input.creator_id (claimed_row input jar_id) db)

-- `claimSlug` without the invalidation of the cache, when no other request comes between its checks
-- and its writes
unfoldable pub claim_in_db : Env → ClaimSlugInput → Exec Db Creator
claim_in_db env input db =
    (do found ← lift (claim_checks env input db); claim_writes env input found) db

pub record RenameSlugInput : Type 0 where
  pub creator_id : String
  pub slug : String

-- the checks of `renameSlug`, with the slug that the creator has
unfoldable pub rename_checks : Env → RenameSlugInput → Db → Result String
rename_checks env input db =
    if not (is_creator_slug input.slug)
    then err (thrown 400 "")
    else if is_reserved_slug input.slug
    then err (thrown 400 "")
    else elim (creator_by_id input.creator_id db) [
      | none ↦ err (thrown 404 "")
      | some current ↦
          if held_by_other input.creator_id (creator_by_slug input.slug db)
          then err slug_taken
          else if not (slug_hold_free env input.slug input.creator_id db)
          then err slug_taken
          else ok current.slug
    ]

-- what follows the update of the creator's row in `renameSlug`
unfoldable pub rename_rest :
    Env → RenameSlugInput → String → Result Creator × Db → Result Creator × Db
unfolding to_claim_conflict
rename_rest env input old_slug (err e, db) = (err (to_claim_conflict e), db)
rename_rest env input old_slug (ok creator, db) = (
  ok creator,
  if str_eq input.slug old_slug
      then db
      else record_slug_release env.now old_slug (some input.creator_id) db,
)

unfoldable pub rename_writes : Env → RenameSlugInput → String → Exec Db Creator
rename_writes env input old_slug db =
    rename_rest env input old_slug
      (update_creator input.creator_id (λ c. record c { slug = input.slug }) db)

unfoldable pub rename_in_db : Env → RenameSlugInput → Exec Db Creator
rename_in_db env input db =
    (do old_slug ← lift (rename_checks env input db); rename_writes env input old_slug) db

-- `viewerId` may be undefined; a previous owner that is null equals no viewer
abbrev pub viewer_is : Option String → Option String → Bool
viewer_is none viewer_id = false
viewer_is (some owner) viewer_id = opt_is viewer_id owner

-- `hold && hold.previousOwnerId !== viewerId`, negated
abbrev pub hold_open_to : Option String → Option ReleasedSlug → Bool
hold_open_to viewer_id none = true
hold_open_to viewer_id (some hold) = viewer_is hold.previous_owner_id viewer_id

-- `jarOwner && jarOwner.id !== viewerId`, negated
abbrev pub jar_open_to : Option String → Option Creator → Bool
jar_open_to viewer_id none = true
jar_open_to viewer_id (some owner) = opt_is viewer_id owner.id

unfoldable pub is_slug_available : Env → String → Option String → Db → Bool
is_slug_available env slug viewer_id db =
    is_creator_slug slug
    && not (is_reserved_slug slug)
    && not (is_some (creator_by_slug slug db))
    && hold_open_to viewer_id (active_slug_hold env slug db)
    && jar_open_to viewer_id (creator_by_jar (jar_id_for_slug slug) db)
