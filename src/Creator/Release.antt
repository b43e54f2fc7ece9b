-- ===== src/Creator/Release.antt =====
-- What a released slug means for the requests that come after.
use novatip_backend.Prelude.{
  ℕ, ◌+◌, ◌*◌, ◌<◌, ◌≡◌, refl, inl, inr, String, true, false, Option, none, some, List, [], ◌∷◌,
  ◌++◌, arith, eq_iff, str_eq, opt_is, is_some, if◌then◌else◌, Bool-cases, find?, update_where,
  Error, ok, err,
}
use novatip_backend.Store.{Creator, ReleasedSlug, Db}
use novatip_backend.Creator.Slug.{is_creator_slug, is_reserved_slug, resolve_jar_id}
use novatip_backend.Creator.Table.{Env, creator_by_id}
use novatip_backend.Creator.Hold.{
  millis_per_day, release_of, record_slug_release, active_slug_hold, slug_hold_free, slug_taken,
}
use novatip_backend.Creator.Claim.{
  ClaimSlugInput, RenameSlugInput, claim_in_db, claim_checks, rename_in_db, rename_checks,
}

abbrev find_release : String → List ReleasedSlug → Option ReleasedSlug
find_release slug = find? (λ r. str_eq r.slug slug)

find_release-append :
    (slug : String) (rows : List ReleasedSlug) (row : ReleasedSlug)
    → find_release slug (rows ++ row ∷ []) ≡ (
        if is_some (find_release slug rows)
        then find_release slug rows
        else if str_eq row.slug slug
        then some row
        else none)
find_release-append slug [] row = refl
find_release-append slug (r ∷ rows) row = ground (arith, find_release-append slug rows row)

find_release-update :
    (slug : String) (rows : List ReleasedSlug) (row : ReleasedSlug)
    → find_release slug (update_where (λ r. str_eq r.slug row.slug) (λ _. row) rows) ≡ (
        if str_eq row.slug slug
        then (if is_some (find_release slug rows) then some row else none)
        else find_release slug rows)
find_release-update slug [] row = ground arith
find_release-update slug (r ∷ rows) row = ground (
  arith,
  find_release-update slug rows row,
  eq_iff r.slug row.slug,
  eq_iff row.slug slug,
  eq_iff r.slug slug,
)

-- A release is the latest one of its slug, and changes no other slug's.
pub release_of-record_slug_release :
    (now : ℕ) (released slug : String) (owner : Option String) (db : Db)
    → release_of slug (record_slug_release now released owner db) ≡ (
        if str_eq released slug
        then some (record { slug = released; previous_owner_id = owner; released_at = now })
        else release_of slug db)
unfolding record_slug_release
release_of-record_slug_release now released slug owner db =
    let row : ReleasedSlug = record {
      slug = released;
      previous_owner_id = owner;
      released_at = now;
    } in
    elim (Bool-cases (is_some (release_of released db))) [
      | inl h ↦ rw h (
          rw (find_release-update slug db.released_slugs row)
            (ground (arith, h, eq_iff released slug)))
      | inr h ↦ rw h (
          rw (find_release-append slug db.released_slugs row)
            (ground (arith, h, eq_iff released slug)))
    ]

-- An admissible slug, for which a claim or a rename goes on to the availability checks.
pub record IsAdmissible (slug : String) : Type 0 where
  pub valid : is_creator_slug slug ≡ true
  pub not_reserved : is_reserved_slug slug ≡ false

-- a release by somebody else that has not lapsed
pub record IsHeldAgainst (env : Env) (slug requester_id : String) (db : Db) : Type 0 where
  pub release : ReleasedSlug
  pub found : release_of slug db ≡ some release
  pub other : opt_is release.previous_owner_id requester_id ≡ false
  pub running : env.now < release.released_at + env.slug_hold_days * millis_per_day

slug_hold_free-held :
    (env : Env) (slug requester_id : String) (db : Db)
    → IsHeldAgainst env slug requester_id db
    → slug_hold_free env slug requester_id db ≡ false
unfolding slug_hold_free active_slug_hold
slug_hold_free-held env slug requester_id db h = ground (arith, h.found, h.other, h.running)

claim_checks-held :
    (env : Env) (input : ClaimSlugInput) (jar_id : String) (db : Db)
    → IsAdmissible input.slug
    → resolve_jar_id input.slug input.jar_id ≡ ok jar_id
    → IsHeldAgainst env input.slug input.creator_id db
    → claim_checks env input db ≡ err slug_taken
unfolding claim_checks
claim_checks-held env input jar_id db adm jar held =
    let shut = slug_hold_free-held env input.slug input.creator_id db held in
    rw (adm.valid, adm.not_reserved, jar, shut) (ground arith)

rename_checks-held :
    (env : Env) (input : RenameSlugInput) (me : Creator) (db : Db)
    → IsAdmissible input.slug
    → creator_by_id input.creator_id db ≡ some me
    → IsHeldAgainst env input.slug input.creator_id db
    → rename_checks env input db ≡ err slug_taken
unfolding rename_checks
rename_checks-held env input me db adm mine held =
    let shut = slug_hold_free-held env input.slug input.creator_id db held in
    rw (adm.valid, adm.not_reserved, mine, shut) (ground arith)

pub claim_in_db-refused :
    (env : Env) (input : ClaimSlugInput) (e : Error) (db : Db)
    → claim_checks env input db ≡ err e
    → claim_in_db env input db ≡ (err e, db)
unfolding claim_in_db
claim_in_db-refused env input e db h = rw h

rename_in_db-refused :
    (env : Env) (input : RenameSlugInput) (e : Error) (db : Db)
    → rename_checks env input db ≡ err e
    → rename_in_db env input db ≡ (err e, db)
unfolding rename_in_db
rename_in_db-refused env input e db h = rw h

-- A slug that somebody else released and whose hold has not lapsed can neither be claimed nor be
-- renamed to: both requests answer SLUG_TAKEN and write nothing. (A rename presupposes that the
-- requester has a row, and a claim that a given jar id is that of the slug.)
pub held_slug-refused :
    (env : Env) (claim : ClaimSlugInput) (me : Creator) (jar_id : String) (db : Db)
    → IsAdmissible claim.slug
    → resolve_jar_id claim.slug claim.jar_id ≡ ok jar_id
    → creator_by_id claim.creator_id db ≡ some me
    → IsHeldAgainst env claim.slug claim.creator_id db
    → (claim_in_db env claim db ≡ (err slug_taken, db))
      × (rename_in_db env (record { creator_id = claim.creator_id; slug = claim.slug }) db
          ≡ (err slug_taken, db))
held_slug-refused env claim me jar_id db adm jar mine held = (
  claim_in_db-refused env claim slug_taken db (claim_checks-held env claim jar_id db adm jar held),
  rename_in_db-refused env (record { creator_id = claim.creator_id; slug = claim.slug }) slug_taken
      db
      (rename_checks-held env (record { creator_id = claim.creator_id; slug = claim.slug }) me db
        adm mine held),
)
