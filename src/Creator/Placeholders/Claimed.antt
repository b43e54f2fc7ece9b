-- ===== src/Creator/Placeholders/Claimed.antt =====
-- A claim that comes between the scan of the sweep and its deletion.
use novatip_backend.Prelude.{
  ℕ, ◌≡◌, sym, ap, ◌∙◌, String, Bool, true, false, Option, some, List, [], ◌∷◌, ◌++◌, any, find?,
  update_where, str_eq, opt_is, is_some, Bool-cases, inl, inr, arith, eq_refl, Result, ok, err,
  continue,
}
use mathlib.Core.Path.{subst}
use novatip_backend.Store.{Creator, ReleasedSlug, Db}
use novatip_backend.Creator.Table.{Env, update_creator}
use novatip_backend.Creator.Hold.{record_slug_release}
use novatip_backend.Creator.Claim.{
  ClaimSlugInput, attach_tips, claim_checks, claim_rest, claim_writes, claim_in_db, claimed_row,
}
use novatip_backend.Creator.Placeholders.{is_doomed}

-- whether a creator is the previous owner of a released slug
abbrev released_by : String → List ReleasedSlug → Bool
released_by id rows = any (λ r. opt_is r.previous_owner_id id) rows

last-released :
    (id : String) (row : ReleasedSlug) (rows : List ReleasedSlug)
    → opt_is row.previous_owner_id id ≡ true
    → released_by id (rows ++ row ∷ []) ≡ true
last-released id row [] h = ground arith
last-released id row (r ∷ rows) h = ground (arith, last-released id row rows h)

updated-released :
    (id slug : String) (row : ReleasedSlug) (rows : List ReleasedSlug)
    → opt_is row.previous_owner_id id ≡ true
    → is_some (find? (λ r. str_eq r.slug slug) rows) ≡ true
    → released_by id (update_where (λ r. str_eq r.slug slug) (λ _. row) rows) ≡ true
updated-released id slug row [] h k = cc
updated-released id slug row (r ∷ rows) h k = ground (arith, updated-released id slug row rows h)

released-record_slug_release :
    (now : ℕ) (slug id : String) (db : Db)
    → released_by id (record_slug_release now slug (some id) db).released_slugs ≡ true
unfolding record_slug_release
released-record_slug_release now slug id db =
    let row : ReleasedSlug = record {
      slug = slug;
      previous_owner_id = some id;
      released_at = now;
    } in
    elim (Bool-cases (is_some (find? (λ r. str_eq r.slug slug) db.released_slugs))) [
      | inl there ↦ rw there (updated-released id slug row db.released_slugs (eq_refl id) there)
      | inr new ↦ rw new (last-released id row db.released_slugs (eq_refl id))
    ]

released_not_doomed :
    (ids : List String) (db : Db) (c : Creator)
    → released_by c.id db.released_slugs ≡ true
    → is_doomed ids db c ≡ false
released_not_doomed ids db c h = ground (arith, h)

module _ (env : Env) (input : ClaimSlugInput) (current : Creator) (jar_id : String) where
  rest-released :
      (r : Result Creator × Db) (row : Creator)
      → str_eq current.slug input.slug ≡ false
      → (claim_rest env input (some current) jar_id r).0 ≡ ok row
      → released_by input.creator_id (claim_rest env input (some current) jar_id r).1.released_slugs
        ≡ true
  unfolding claim_rest
  rest-released (err e, db) row left h = cc
  rest-released (ok c, db) row left h = rw left (
      released-record_slug_release env.now current.slug input.creator_id
        (attach_tips jar_id c.id db))

  -- A placeholder account that claims another slug between the scan and the deletion is not deleted,
  -- whatever ids the scan found: the release of the placeholder slug, which the claim records, takes
  -- its row out of the deletion.
  pub claim_in_db-is_doomed :
      (db : Db) (row : Creator) (ids : List String) (c : Creator)
      → claim_checks env input db ≡ ok (some current, jar_id)
      → str_eq current.slug input.slug ≡ false
      → (claim_in_db env input db).0 ≡ ok row
      → c.id ≡ input.creator_id
      → is_doomed ids (claim_in_db env input db).1 c ≡ false
  unfolding claim_in_db claim_writes
  claim_in_db-is_doomed db row ids c checked left h same =
      let result =
        λ (r : Result (Option Creator × String)). continue r (claim_writes env input) db in
      let written = update_creator input.creator_id (claimed_row input jar_id) db in
      subst (λ r. (result r).0 ≡ ok row → is_doomed ids (result r).1 c ≡ false) (sym checked)
        (λ e. released_not_doomed ids (claim_rest env input (some current) jar_id written).1 c (
          ap
            (λ id.
              released_by id (claim_rest env input (some current) jar_id written).1.released_slugs)
            same
          ∙ rest-released written row left e))
        h
