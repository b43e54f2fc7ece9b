-- ===== src/Tests/Slugs.antt =====
-- The theorems on slugs and creators at concrete inputs.
use novatip_backend.Prelude.{
  ℕ, ◌+◌, ◌*◌, ◌≡◌, ◌≢◌, refl, String, true, false, ◌||◌, none, some, [], ◌∷◌, leb, str_eq, eq_iff,
  arith, ok, err,
}
use novatip_backend.Store.{Creator, Db}
use novatip_backend.Tests.{empty_db, creator_with}
use novatip_backend.Creator.Slug.{
  is_creator_slug, is_reserved_slug, is_placeholder_slug, resolve_jar_id, jar_id_for_slug,
}
use novatip_backend.Creator.Table.{Env, update_creator, store_row}
use novatip_backend.Creator.Hold.{millis_per_day, slug_hold_free, active_slug_hold, slug_taken}
use novatip_backend.Creator.Claim.{
  ClaimSlugInput, claim_checks, claimed_row, claim_in_db, rename_in_db, rename_writes, rename_rest,
  is_slug_available,
}
use novatip_backend.Creator.Unique.{IsConsistent}
use novatip_backend.Creator.Release.{IsAdmissible, held_slug-refused}
use novatip_backend.Creator.Lapse.{rename_writes-hold}
use novatip_backend.Creator.Placeholders.{
  Paging, PlaceholderConfig, is_doomed, prune_placeholder_creators,
}
use novatip_backend.Creator.Placeholders.Sweep.{IsSwept, prune_placeholder_creators-IsSwept}
use novatip_backend.Creator.Placeholders.Claimed.{claim_in_db-is_doomed}
use novatip_backend.Creator.Availability.{available-claim_succeeds}

abbrev fresh : Creator
fresh = creator_with "c1" "user_0123abcd" "jar-1"

abbrev bob : Creator
bob = creator_with "c2" "bobby" "jar-2"

abbrev two_creators : Db
two_creators = record empty_db { creators = fresh ∷ bob ∷ [] }

-- with a slug that c2 let go of
abbrev with_release : Db
with_release = record two_creators {
  released_slugs =
      record { slug = "alice"; previous_owner_id = some "c2"; released_at = 1000 } ∷ [];
}

abbrev env_at : ℕ → Env
env_at now = record { now = now; redis_up = true; slug_hold_days = 30; jwt_expires_in_seconds = 60 }

abbrev claim_alice : ClaimSlugInput
claim_alice = record {
  creator_id = "c1";
  slug = "alice";
  jar_id = none;
  display_name = none;
  bio = none;
  splits = none;
}

differ : (s t : String) → str_eq s t ≡ false → s ≢ t
differ s t h e = ground (arith, h, e, eq_iff s t)

two_creators-IsConsistent : IsConsistent two_creators
two_creators-IsConsistent = record {
  ids = ((differ "c2" "c1" refl, tt), (tt, tt));
  slugs = ((differ "bobby" "user_0123abcd" refl, tt), (tt, tt));
  jars = ((differ "jar-2" "jar-1" refl, tt), (tt, tt));
}

alice-IsAdmissible : IsAdmissible "alice"
unfolding is_creator_slug is_reserved_slug
alice-IsAdmissible = record { valid = refl; not_reserved = refl }

held_slug-refused_example :
    (claim_in_db (env_at 2000) claim_alice with_release ≡ (err slug_taken, with_release))
    × (rename_in_db (env_at 2000) (record { creator_id = "c1"; slug = "alice" }) with_release
        ≡ (err slug_taken, with_release))
unfolding resolve_jar_id
held_slug-refused_example =
    held_slug-refused (env_at 2000) claim_alice fresh (jar_id_for_slug "alice") with_release
      alice-IsAdmissible refl refl
      (record {
        release = record { slug = "alice"; previous_owner_id = some "c2"; released_at = 1000 };
        found = refl;
        other = refl;
        running = omega arith;
      })

rename_writes-hold_example :
    slug_hold_free
      (env_at 5000)
      "bobby"
      "c1"
      (rename_writes
        (env_at 2000)
        (record { creator_id = "c2"; slug = "alice" })
        "bobby"
        two_creators).1
    ≡ (leb (2000 + 30 * millis_per_day) 5000 || str_eq "c2" "c1")
unfolding rename_writes rename_rest update_creator store_row
rename_writes-hold_example =
    rename_writes-hold (env_at 2000) (env_at 5000) (record { creator_id = "c2"; slug = "alice" })
      "bobby" "c1" (record bob { slug = "alice" }) two_creators refl (differ "alice" "bobby" refl)

available-claim_succeeds_example :
    (claim_in_db (env_at 2000) claim_alice two_creators).0
    ≡ ok (claimed_row claim_alice (jar_id_for_slug "alice") fresh)
unfolding is_slug_available is_creator_slug is_reserved_slug is_placeholder_slug resolve_jar_id
    active_slug_hold jar_id_for_slug
available-claim_succeeds_example =
    available-claim_succeeds (env_at 2000) claim_alice fresh two_creators two_creators-IsConsistent
      refl refl refl refl

-- a page of everything
abbrev whole : Paging
whole = record { page = λ take_ cursor rows. rows; In-page = λ take_ cursor rows c m. m }

abbrev monthly : PlaceholderConfig
monthly = record { retention_days = 30; batch_size = 10 }

prune_placeholder_creators-IsSwept_example :
    let (result, after) = prune_placeholder_creators whole monthly 3000000000 two_creators in
    IsSwept 408000000 two_creators result.deleted after
prune_placeholder_creators-IsSwept_example =
    prune_placeholder_creators-IsSwept whole monthly 3000000000 two_creators refl

-- the placeholder of c1 was found by the scan, and c1 claims before the deletion
claim_in_db-is_doomed_example :
    is_doomed ("c1" ∷ []) (claim_in_db (env_at 2000) claim_alice two_creators).1 fresh ≡ false
unfolding claim_checks is_slug_available is_creator_slug is_reserved_slug is_placeholder_slug
    resolve_jar_id slug_hold_free active_slug_hold jar_id_for_slug
claim_in_db-is_doomed_example =
    claim_in_db-is_doomed (env_at 2000) claim_alice fresh (jar_id_for_slug "alice") two_creators
      (claimed_row claim_alice (jar_id_for_slug "alice") fresh) ("c1" ∷ []) fresh refl refl
      (available-claim_succeeds (env_at 2000) claim_alice fresh two_creators
        two_creators-IsConsistent refl refl refl refl)
      refl
