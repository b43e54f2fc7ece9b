-- ===== src/Creator/Lapse.antt =====
-- Whom a slug that was let go of admits, and when.
use novatip_backend.Prelude.{
  ℕ, ◌+◌, ◌*◌, ◌≡◌, ◌≢◌, refl, ◌∙◌, String, false, ◌||◌, none, some, List, [], ◌∷◌, arith, eq_iff,
  eq_refl, leb, str_eq, opt_is, if◌then◌else◌, find?, update_where, Result, ok, err,
}
use mathlib.Core.Option
use novatip_backend.Store.{Creator, ReleasedSlug, Db}
use novatip_backend.Creator.Table.{Env, creator_by_id, update_creator}
use novatip_backend.Creator.Hold.{
  millis_per_day, release_of, record_slug_release, active_slug_hold, slug_hold_free,
}
use novatip_backend.Creator.Claim.{RenameSlugInput, rename_writes, rename_rest}
use novatip_backend.Creator.Service.{delete_account, delete_in_db}
use novatip_backend.Creator.Release.{release_of-record_slug_release}

slug_hold_free_of :
    (later : Env) (slug requester_id : String) (r : ReleasedSlug) (db : Db)
    → release_of slug db ≡ some r
    → slug_hold_free later slug requester_id db ≡ (
        leb (r.released_at + later.slug_hold_days * millis_per_day) later.now
        || opt_is r.previous_owner_id requester_id)
unfolding slug_hold_free active_slug_hold
slug_hold_free_of later slug requester_id r db h = ground (arith, h)

rename_rest-hold :
    (env later : Env) (input : RenameSlugInput) (old_slug requester_id : String) (c : Creator)
    (r : Result Creator) (db : Db)
    → (rename_rest env input old_slug (r, db)).0 ≡ ok c
    → input.slug ≢ old_slug
    → slug_hold_free later old_slug requester_id (rename_rest env input old_slug (r, db)).1 ≡ (
        leb (env.now + later.slug_hold_days * millis_per_day) later.now
        || str_eq input.creator_id requester_id)
rename_rest-hold env later input old_slug requester_id c (ok x) db h moved =
    let recorded = record_slug_release env.now old_slug (some input.creator_id) db in
    let row : ReleasedSlug = record {
      slug = old_slug;
      previous_owner_id = some input.creator_id;
      released_at = env.now;
    } in
    let found : release_of old_slug recorded ≡ some row =
      rw
        (
          release_of-record_slug_release env.now old_slug old_slug (some input.creator_id) db,
          eq_refl,
        )
        refl in
    let other : str_eq input.slug old_slug ≡ false = ground (arith, eq_iff input.slug old_slug) in
    unfold rename_rest in
    rw other (slug_hold_free_of later old_slug requester_id row recorded found)
rename_rest-hold env later input old_slug requester_id c (err e) db h moved =
    unfold rename_rest in cc

-- After a rename that moves a creator off `old_slug`, that slug admits its previous owner at any
-- time, and everybody else exactly from the end of the hold window on.
pub rename_writes-hold :
    (env later : Env) (input : RenameSlugInput) (old_slug requester_id : String) (c : Creator)
    (db : Db)
    → (rename_writes env input old_slug db).0 ≡ ok c
    → input.slug ≢ old_slug
    → slug_hold_free later old_slug requester_id (rename_writes env input old_slug db).1 ≡ (
        leb (env.now + later.slug_hold_days * millis_per_day) later.now
        || str_eq input.creator_id requester_id)
unfolding rename_writes
rename_writes-hold env later input old_slug requester_id c db h moved =
    let (r, d) = update_creator input.creator_id (λ x. record x { slug = input.slug }) db in
    rename_rest-hold env later input old_slug requester_id c r d h moved

abbrev clear_owner : String → ReleasedSlug → ReleasedSlug
clear_owner id r =
    if opt_is r.previous_owner_id id then record r { previous_owner_id = none } else r

find_release-clear :
    (slug id : String) (rows : List ReleasedSlug)
    → find?
        (λ r. str_eq r.slug slug)
        (update_where
          (λ r. opt_is r.previous_owner_id id)
          (λ r. record r { previous_owner_id = none })
          rows)
      ≡ Option.map (clear_owner id) (find? (λ r. str_eq r.slug slug) rows)
find_release-clear slug id [] = refl
find_release-clear slug id (r ∷ rows) = ground (arith, find_release-clear slug id rows)

delete_in_db-found :
    (now : ℕ) (creator_id : String) (c : Creator) (db : Db)
    → creator_by_id creator_id db ≡ some c
    → delete_in_db now creator_id db ≡ (ok c.slug, delete_account now creator_id c.slug db)
unfolding delete_in_db
delete_in_db-found now creator_id c db h = rw (h, delete_in_db)

release_of-delete_account :
    (now : ℕ) (creator_id slug : String) (db : Db)
    → release_of slug (delete_account now creator_id slug db)
      ≡ some (record { slug = slug; previous_owner_id = none; released_at = now })
unfolding delete_account
release_of-delete_account now creator_id slug db =
    rw (find_release-clear slug creator_id (record_slug_release now slug none db).released_slugs)
      (rw (release_of-record_slug_release now slug slug none db, eq_refl) refl)

-- After an account is deleted its slug admits nobody until the window ends, and then everybody.
pub delete_in_db-hold :
    (now : ℕ) (later : Env) (creator_id requester_id : String) (c : Creator) (db : Db)
    → creator_by_id creator_id db ≡ some c
    → slug_hold_free later c.slug requester_id (delete_in_db now creator_id db).1
      ≡ leb (now + later.slug_hold_days * millis_per_day) later.now
delete_in_db-hold now later creator_id requester_id c db h =
    let row : ReleasedSlug = record {
      slug = c.slug;
      previous_owner_id = none;
      released_at = now;
    } in
    let deleted = delete_account now creator_id c.slug db in
    rw (delete_in_db-found now creator_id c db h) (
      slug_hold_free_of later c.slug requester_id row deleted
        (release_of-delete_account now creator_id c.slug db)
      ∙ ground arith)
