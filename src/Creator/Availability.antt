-- ===== src/Creator/Availability.antt =====
-- The public availability check against what a claim then does.
use novatip_backend.Prelude.{
  ◌≡◌, ◌≢◌, refl, sym, inl, inr, ◌∙◌, String, true, false, Option, none, some, List, [], ◌∷◌, arith,
  eq_iff, str_eq, Bool-cases, Option-cases, find?, All, Result, ok, err,
}
use novatip_backend.Store.{Creator, ReleasedSlug, Db}
use novatip_backend.Creator.Slug.{
  is_placeholder_slug, jar_id_for_slug, resolve_jar_id, is_creator_slug, is_reserved_slug,
}
use novatip_backend.Creator.Table.{
  Env, creator_by_id, creator_by_slug, creator_by_jar, clashes, store_row, update_creator,
}
use novatip_backend.Creator.Hold.{hold_admits, active_slug_hold, slug_hold_free}
use novatip_backend.Creator.Claim.{
  ClaimSlugInput, claimed_row, claim_checks, claim_writes, claim_rest, claim_in_db, hold_open_to,
  is_slug_available,
}
use novatip_backend.Creator.Unique.{IsUnique, IsConsistent}

module _ (row : Creator) (column : Creator → String) where
  absent→no_clash :
      (cs : List Creator)
      → find? (λ c. str_eq (column c) (column row)) cs ≡ none
      → clashes column row cs ≡ false
  absent→no_clash [] h = refl
  absent→no_clash (c ∷ cs) h = ground (arith, absent→no_clash cs)

  distinct→no_clash :
      (cs : List Creator) → All (λ d. column d ≢ column row) cs → clashes column row cs ≡ false
  distinct→no_clash [] h = refl
  distinct→no_clash (c ∷ cs) (h, hs) =
      ground (arith, distinct→no_clash cs hs, eq_iff (column c) (column row))

  own→no_clash :
      (cs : List Creator) (owner : Creator)
      → IsUnique column cs
      → find? (λ c. str_eq (column c) (column row)) cs ≡ some owner
      → owner.id ≡ row.id
      → clashes column row cs ≡ false
  own→no_clash [] owner u h e = refl
  own→no_clash (c ∷ cs) owner (u, us) h e = elim (Bool-cases (str_eq (column c) (column row))) [
    | inl same ↦
        let column_is = (eq_iff (column c) (column row)).0 same in
        ground (arith, same, eq_iff c.id row.id, distinct→no_clash cs (rw column_is at u))
    | inr other ↦ ground (arith, other, own→no_clash cs owner us)
  ]

hold_open_to-admits :
    (o : Option ReleasedSlug) (id : String)
    → hold_open_to (some id) o ≡ true
    → hold_admits o id ≡ true
hold_open_to-admits none id h = refl
hold_open_to-admits (some r) id h = elim (Option-cases r.previous_owner_id) [
  | inl missing ↦ absurd (ground (arith, missing))
  | inr (owner, is_owner) ↦ ground (arith, is_owner, eq_iff id owner, eq_iff owner id)
]

-- what a positive answer of the availability check to a signed-in viewer says
record Available (env : Env) (slug id : String) (db : Db) : Type 0 where
  valid : is_creator_slug slug ≡ true
  not_reserved : is_reserved_slug slug ≡ false
  absent : creator_by_slug slug db ≡ none
  hold : slug_hold_free env slug id db ≡ true
  jar : (owner : Creator) → creator_by_jar (jar_id_for_slug slug) db ≡ some owner → owner.id ≡ id

available→parts :
    (env : Env) (slug id : String) (db : Db)
    → is_slug_available env slug (some id) db ≡ true
    → Available env slug id db
unfolding is_slug_available slug_hold_free
available→parts env slug id db h = record {
  valid = ground arith;
  not_reserved = ground arith;
  absent = ground arith;
  hold = hold_open_to-admits (active_slug_hold env slug db) id (ground arith);
  jar = λ owner found. ground (arith, found, eq_iff id owner.id);
}

claim_checks-Available :
    (env : Env) (input : ClaimSlugInput) (me : Creator) (db : Db)
    → Available env input.slug input.creator_id db
    → creator_by_id input.creator_id db ≡ some me
    → is_placeholder_slug me.slug ≡ true
    → resolve_jar_id input.slug input.jar_id ≡ ok (jar_id_for_slug input.slug)
    → claim_checks env input db ≡ ok (some me, jar_id_for_slug input.slug)
unfolding claim_checks
claim_checks-Available env input me db a mine fresh jar =
    rw (a.valid, a.not_reserved, jar, a.absent, a.hold, mine, fresh) refl

store_row-free :
    (row : Creator) (db : Db)
    → clashes (λ c. c.slug) row db.creators ≡ false
    → clashes (λ c. c.jar_id) row db.creators ≡ false
    → (store_row row db).0 ≡ ok row
unfolding store_row
store_row-free row db h k = rw (h, k) refl

creator_by_id-id :
    (id : String) (cs : List Creator) (c : Creator)
    → find? (λ d. str_eq d.id id) cs ≡ some c
    → c.id ≡ id
creator_by_id-id id [] c h = cc
creator_by_id-id id (d ∷ cs) c h = ground (arith, eq_iff d.id id, creator_by_id-id id cs c)

jar_free :
    (env : Env) (slug id : String) (row : Creator) (db : Db)
    → IsConsistent db
    → Available env slug id db
    → row.id ≡ id
    → row.jar_id ≡ jar_id_for_slug slug
    → clashes (λ c. c.jar_id) row db.creators ≡ false
jar_free env slug id row db consistent a own jar =
    elim (Option-cases (creator_by_jar (jar_id_for_slug slug) db)) [
      | inl missing ↦ absent→no_clash row (λ c. c.jar_id) db.creators (rw jar missing)
      | inr (owner, found) ↦
          own→no_clash row (λ c. c.jar_id) db.creators owner consistent.jars (rw jar found)
            (a.jar owner found ∙ sym own)
    ]

update_creator-found :
    (id : String) (change : Creator → Creator) (me : Creator) (db : Db)
    → creator_by_id id db ≡ some me
    → update_creator id change db ≡ store_row (change me) db
unfolding update_creator
update_creator-found id change me db h = rw (h, update_creator)

update_creator-Available :
    (env : Env) (input : ClaimSlugInput) (me : Creator) (db : Db)
    → IsConsistent db
    → Available env input.slug input.creator_id db
    → creator_by_id input.creator_id db ≡ some me
    → (update_creator input.creator_id (claimed_row input (jar_id_for_slug input.slug)) db).0
      ≡ ok (claimed_row input (jar_id_for_slug input.slug) me)
update_creator-Available env input me db consistent a mine =
    let row = claimed_row input (jar_id_for_slug input.slug) me in
    let own = creator_by_id-id input.creator_id db.creators me mine in
    rw
      (update_creator-found input.creator_id (claimed_row input (jar_id_for_slug input.slug)) me db
        mine)
      (store_row-free row db (absent→no_clash row (λ c. c.slug) db.creators a.absent)
        (jar_free env input.slug input.creator_id row db consistent a own refl))

claim_rest-ok :
    (env : Env) (input : ClaimSlugInput) (current : Option Creator) (jar_id : String)
    (row : Creator) (r : Result Creator) (db : Db)
    → r ≡ ok row
    → (claim_rest env input current jar_id (r, db)).0 ≡ ok row
unfolding claim_rest
claim_rest-ok env input current jar_id row (ok c) db h = h
claim_rest-ok env input current jar_id row (err e) db h = cc

-- If the availability check answers yes to a creator who is still on the sign-in placeholder, then a
-- claim of that slug at the same moment succeeds, and gives the creator the slug and its jar id.
pub available-claim_succeeds :
    (env : Env) (input : ClaimSlugInput) (me : Creator) (db : Db)
    → IsConsistent db
    → is_slug_available env input.slug (some input.creator_id) db ≡ true
    → creator_by_id input.creator_id db ≡ some me
    → is_placeholder_slug me.slug ≡ true
    → resolve_jar_id input.slug input.jar_id ≡ ok (jar_id_for_slug input.slug)
    → (claim_in_db env input db).0 ≡ ok (claimed_row input (jar_id_for_slug input.slug) me)
unfolding claim_in_db claim_writes
available-claim_succeeds env input me db consistent yes_ mine fresh jar =
    let a = available→parts env input.slug input.creator_id db yes_ in
    let jar_id = jar_id_for_slug input.slug in
    let (r, d) = update_creator input.creator_id (claimed_row input jar_id) db in
    rw (claim_checks-Available env input me db a mine fresh jar) (
      claim_rest-ok env input (some me) jar_id (claimed_row input jar_id me) r d
        (update_creator-Available env input me db consistent a mine))
