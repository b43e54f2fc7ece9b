-- ===== src/Creator/Placeholders/Sweep.antt =====
-- The sweep deletes no account that is in use.
use novatip_backend.Prelude.{
  ℕ, zero, suc, ◌+◌, ◌≡◌, refl, sym, ap, ◌∙◌, String, Bool, true, ◌&&◌, not, Option, none, List, [],
  ◌∷◌, map, filter, any, count_where, length, get_last?, ltb, ◌==◌, str_eq, In, inl, inr, any-In,
  filter-In, filter-filter, count_where-filter, ids_distinct, ids_distinct-filter, same_row,
  Bool-cases, arith,
}
use mathlib.Core.Path.{subst}
use mathlib.Core.Option
use novatip_backend.Store.{Creator, Db}
use novatip_backend.Creator.Slug.{is_placeholder_slug}
use novatip_backend.Creator.Placeholders.{
  cutoff_for, is_inert, is_candidate, Paging, eligible_ids, is_doomed, delete_many, candidates_of,
  prune_batch, PlaceholderConfig, placeholder_retention_enabled, prune_placeholder_creators,
  max_batches_per_run,
}

-- an account on a placeholder that is older than the cutoff and has nothing
abbrev pub is_abandoned : ℕ → Db → Creator → Bool
is_abandoned cutoff db c = is_placeholder_slug c.slug && ltb c.created_at cutoff && is_inert db c

-- only creators are gone, none of them in use, and as many as were counted
pub record IsSwept (cutoff : ℕ) (db : Db) (deleted : ℕ) (after : Db) : Type 0 where
  pub rest : after ≡ record db { creators = after.creators }
  pub keeps :
      filter (λ c. not (is_abandoned cutoff db c)) after.creators
      ≡ filter (λ c. not (is_abandoned cutoff db c)) db.creators
  pub counts : deleted + length after.creators ≡ length db.creators
  pub distinct : ids_distinct (λ c. c.id) after.creators ≡ true

map-any :
    (q : String → Bool) (cs : List Creator)
    → any q (map (λ c. c.id) cs) ≡ true
    → any (λ c. q c.id) cs ≡ true
map-any q [] h = h
map-any q (c ∷ cs) h = ground (arith, map-any q cs)

abbrev with_creators : List Creator → Db → Db
with_creators creators db = record db { creators = creators }

module _ (paging : Paging) (cutoff batch_size : ℕ) where
  -- a row that is deleted is an abandoned one
  doomed_abandoned :
      (cursor : Option String) (db : Db) (c : Creator)
      → ids_distinct (λ c. c.id) db.creators ≡ true
      → In c db.creators
      → is_doomed (eligible_ids (candidates_of paging cutoff batch_size cursor db)) db c ≡ true
      → is_abandoned cutoff db c ≡ true
  doomed_abandoned cursor db c h m e =
      let candidates = candidates_of paging cutoff batch_size cursor db in
      let placeholders = filter (λ c. is_placeholder_slug c.slug) candidates in
      let (d, in_d, same) =
        any-In (λ d. str_eq d.id c.id) placeholders
          (map-any (λ id. str_eq id c.id) placeholders (ground arith)) in
      let (in_page, named) = filter-In (λ c. is_placeholder_slug c.slug) candidates d in_d in
      let (stored, candidate) = filter-In (is_candidate cutoff db) db.creators d (
        paging.In-page batch_size cursor (filter (is_candidate cutoff db) db.creators) d in_page) in
      let row : d ≡ c = same_row (λ c. c.id) db.creators d c h stored m same in
      let old : is_abandoned cutoff db d ≡ true = ground (arith, named, candidate) in
      subst (λ x. is_abandoned cutoff db x ≡ true) row old

  left-IsSwept :
      (cursor : Option String) (db : Db)
      → ids_distinct (λ c. c.id) db.creators ≡ true
      → let ids = eligible_ids (candidates_of paging cutoff batch_size cursor db) in
        IsSwept cutoff db (count_where (is_doomed ids db) db.creators) (delete_many ids db)
  left-IsSwept cursor db h =
      let ids = eligible_ids (candidates_of paging cutoff batch_size cursor db) in
      record {
        rest = refl;
        keeps =
            filter-filter (is_doomed ids db) (λ c. not (is_abandoned cutoff db c)) db.creators
              (λ c m e. ap not (doomed_abandoned cursor db c h m e));
        counts = count_where-filter (is_doomed ids db) db.creators;
        distinct = ids_distinct-filter (λ c. c.id) (λ c. not (is_doomed ids db c)) db.creators h;
      }

  refl-IsSwept : (db : Db) → ids_distinct (λ c. c.id) db.creators ≡ true → IsSwept cutoff db 0 db
  refl-IsSwept db h = record { rest = refl; keeps = refl; counts = omega arith; distinct = h }

  -- two deletions in a row
  trans-IsSwept :
      (db between after : Db) (n m : ℕ)
      → IsSwept cutoff db n between
      → IsSwept cutoff between m after
      → IsSwept cutoff db (n + m) after
  trans-IsSwept db between after n m s t =
      let other = λ (d : Db) (cs : List Creator). filter (λ c. not (is_abandoned cutoff d c)) cs in
      let same : other between after.creators ≡ other db after.creators =
        ap (λ d. other d after.creators) s.rest in
      let same' : other between between.creators ≡ other db between.creators =
        ap (λ d. other d between.creators) s.rest in
      record {
        rest = t.rest ∙ ap (λ (d : Db). with_creators after.creators d) s.rest;
        keeps = sym same ∙ t.keeps ∙ same' ∙ s.keeps;
        counts = omega (arith, s.counts, t.counts);
        distinct = t.distinct;
      }

  prune_batch-IsSwept :
      (batches : ℕ) (cursor : Option String) (db : Db)
      → ids_distinct (λ c. c.id) db.creators ≡ true
      → let swept = prune_batch paging cutoff batch_size batches cursor db in
        IsSwept cutoff db swept.deleted swept.db
  unfolding prune_batch
  prune_batch-IsSwept zero cursor db h = refl-IsSwept db h
  prune_batch-IsSwept (suc batches) cursor db h =
      let candidates = candidates_of paging cutoff batch_size cursor db in
      let left = delete_many (eligible_ids candidates) db in
      let one = left-IsSwept cursor db h in
      let next = Option.map (λ (c : Creator). c.id) (get_last? candidates) in
      let ih = prune_batch-IsSwept batches next left one.distinct in
      elim (Bool-cases (length candidates == 0)) [
        | inl empty ↦ rw empty (refl-IsSwept db h)
        | inr some_ ↦ elim (Bool-cases (ltb (length candidates) batch_size)) [
          | inl short ↦ rw (some_, short) one
          | inr full ↦
              rw (some_, full)
                (trans-IsSwept db left (prune_batch paging cutoff batch_size batches next left).db _
                  _ one ih)
        ]
      ]

-- If the ids of the creators are distinct: a sweep changes nothing but the table of creators, and keeps
-- there, in order, every creator who has left the placeholder slug, is not older than the window, or
-- has a tip, a webhook, a notification or a released slug; and it reports as many deletions as rows
-- are gone.
pub prune_placeholder_creators-IsSwept :
    (paging : Paging) (config : PlaceholderConfig) (now : ℕ) (db : Db)
    → ids_distinct (λ c. c.id) db.creators ≡ true
    → let (result, after) = prune_placeholder_creators paging config now db in
      IsSwept (cutoff_for config.retention_days now) db result.deleted after
unfolding prune_placeholder_creators
prune_placeholder_creators-IsSwept paging config now db h =
    let cutoff = cutoff_for config.retention_days now in
    elim (Bool-cases (placeholder_retention_enabled config)) [
      | inl on ↦
          rw on (prune_batch-IsSwept paging cutoff config.batch_size max_batches_per_run none db h)
      | inr off ↦ rw off (record { rest = refl; keeps = refl; counts = omega arith; distinct = h })
    ]
