-- ===== src/Webhooks/Registry/Ownership.antt =====
-- A creator reaches no webhook but the creator's own, and not more of them than the cap.
use novatip_backend.Prelude.{
  ℕ, ◌+◌, ◌≤◌, ◌<◌, ◌≡◌, ◌≢◌, refl, ap, inl, inr, ◌∙◌, String, Bool, true, false, ◌&&◌, not, List,
  [], ◌∷◌, ◌++◌, arith, eq_iff, eq_refl, continue-keeps, ◌==◌, str_eq, if◌then◌else◌, Bool-cases,
  filter, any, count_where, update_where, Result, ok,
}
use mathlib.Core.List.{append-nil}
use novatip_backend.Store.{Webhook, Db}
use novatip_backend.Webhooks.Registry.{
  is_owned, of_creator, update_owned, set_webhook_enabled, delete_webhook, insert_webhook,
  create_webhook, rotate_webhook_secret, webhook_limit, assert_webhook_limit, assert_secret_length,
}

-- the webhooks of one creator
abbrev pub webhooks_of : String → Db → List Webhook
webhooks_of creator_id db = filter (of_creator creator_id) db.webhooks

module _ (creator_id webhook_id other : String) (ne : creator_id ≢ other) where
  others-update_where :
      (change : Webhook → Webhook) (ws : List Webhook)
      → ((w : Webhook) → (change w).creator_id ≡ w.creator_id)
      → filter (of_creator other) (update_where (is_owned creator_id webhook_id) change ws)
        ≡ filter (of_creator other) ws
  others-update_where change [] keeps = refl
  others-update_where change (w ∷ ws) keeps = ground (
    arith,
    ne,
    keeps w,
    others-update_where change ws keeps,
    eq_iff w.creator_id creator_id,
    eq_iff w.creator_id other,
    eq_iff (change w).creator_id other,
  )

  others-delete :
      (ws : List Webhook)
      → filter (of_creator other) (filter (λ w. not (is_owned creator_id webhook_id w)) ws)
        ≡ filter (of_creator other) ws
  others-delete [] = refl
  others-delete (w ∷ ws) =
      ground
        (arith, ne, others-delete ws, eq_iff w.creator_id creator_id, eq_iff w.creator_id other)

  -- the two updates and the deletion
  others-update_owned :
      (change : Webhook → Webhook) (db : Db)
      → ((w : Webhook) → (change w).creator_id ≡ w.creator_id)
      → webhooks_of other (update_owned creator_id webhook_id change db).1 ≡ webhooks_of other db
  unfolding update_owned
  others-update_owned change db keeps =
      elim (Bool-cases (count_where (is_owned creator_id webhook_id) db.webhooks == 0)) [
        | inl none_ ↦ rw none_ (others-update_where change db.webhooks keeps)
        | inr some_ ↦ rw some_ (others-update_where change db.webhooks keeps)
      ]

  others-delete_webhook :
      (db : Db)
      → webhooks_of other (delete_webhook creator_id webhook_id db).1 ≡ webhooks_of other db
  unfolding delete_webhook
  others-delete_webhook db =
      elim (Bool-cases (
        any (is_owned creator_id webhook_id) db.webhooks
        && any (λ d. str_eq d.webhook_id webhook_id) db.webhook_deliveries)) [
          | inl held ↦ rw held refl
          | inr free ↦ rw free (others-delete db.webhooks)
        ]

filter-append :
    (p : Webhook → Bool) (ws : List Webhook) (w : Webhook)
    → filter p (ws ++ w ∷ []) ≡ filter p ws ++ (if p w then w ∷ [] else [])
filter-append p [] w = refl
filter-append p (v ∷ ws) w = elim (Bool-cases (p v)) [
  | inl h ↦ rw h (ap (λ xs. v ∷ xs) (filter-append p ws w))
  | inr h ↦ rw h (filter-append p ws w)
]

count_where-append :
    (p : Webhook → Bool) (ws : List Webhook) (w : Webhook)
    → count_where p (ws ++ w ∷ []) ≡ count_where p ws + (if p w then 1 else 0)
count_where-append p [] w = ground arith
count_where-append p (v ∷ ws) w = ground (arith, count_where-append p ws w)

module _ (encrypt : String → String) (url_allowed : String → Result (Unit {0})) where
  -- what an insertion that comes after all checks keeps, a registration keeps
  create_webhook-keeps :
      (P : Db → Type 0) (max_per_creator : ℕ) (id : String) (now : ℕ)
      (creator_id url secret : String) (db : Db)
      → P db
      → (assert_webhook_limit
              (count_where (of_creator creator_id) db.webhooks)
              (webhook_limit max_per_creator)
            ≡ ok tt
          → P (insert_webhook encrypt url_allowed id now creator_id url secret db).1)
      → P (create_webhook encrypt url_allowed max_per_creator id now creator_id url secret db).1
  unfolding create_webhook
  create_webhook-keeps P max_per_creator id now creator_id url secret db h k =
      continue-keeps P (assert_secret_length secret) _ db h λ _ _.
        continue-keeps P (url_allowed url) _ db h λ _ _.
          continue-keeps P
            (assert_webhook_limit (count_where (of_creator creator_id) db.webhooks)
              (webhook_limit max_per_creator))
            _ db h λ _ room. k room

  others-insert :
      (id : String) (now : ℕ) (creator_id url secret other : String) (db : Db)
      → creator_id ≢ other
      → webhooks_of other (insert_webhook encrypt url_allowed id now creator_id url secret db).1
        ≡ webhooks_of other db
  others-insert id now creator_id url secret other db ne =
      let row : Webhook = record {
        id = id;
        creator_id = creator_id;
        url = url;
        secret = encrypt secret;
        enabled = true;
        created_at = now;
      } in
      let differs : str_eq creator_id other ≡ false = ground (arith, eq_iff creator_id other) in
      filter-append (of_creator other) db.webhooks row ∙ rw differs (append-nil _)

  -- Whatever a creator does to webhooks, by whatever id, the webhooks of another creator stay as they
  -- are, in their order: registering, switching, rotating the secret of and deleting one.
  pub requests_keep_others :
      (max_per_creator : ℕ) (id : String) (now : ℕ)
      (creator_id webhook_id url secret other : String) (enabled : Bool) (db : Db)
      → creator_id ≢ other
      → (webhooks_of other
            (create_webhook encrypt url_allowed max_per_creator id now creator_id url secret db).1
          ≡ webhooks_of other db)
        × (webhooks_of other (set_webhook_enabled creator_id webhook_id enabled db).1
            ≡ webhooks_of other db)
        × (webhooks_of other
              (rotate_webhook_secret encrypt url_allowed creator_id webhook_id secret db).1
            ≡ webhooks_of other db)
        × (webhooks_of other (delete_webhook creator_id webhook_id db).1 ≡ webhooks_of other db)
  unfolding set_webhook_enabled rotate_webhook_secret
  requests_keep_others max_per_creator id now creator_id webhook_id url secret other enabled db ne =
      (
        create_webhook-keeps (λ d. webhooks_of other d ≡ webhooks_of other db) max_per_creator id
            now creator_id url secret db refl
            (λ _. others-insert id now creator_id url secret other db ne),
        others-update_owned creator_id webhook_id other ne (λ w. record w { enabled = enabled }) db
            (λ w. refl),
        continue-keeps (λ d. webhooks_of other d ≡ webhooks_of other db)
            (assert_secret_length secret) _ db refl
            (λ _ _.
              others-update_owned creator_id webhook_id other ne
                (λ w. record w { secret = encrypt secret }) db (λ w. refl)),
        others-delete_webhook creator_id webhook_id other ne db,
      )

  assert_webhook_limit-room :
      (n max_per_creator : ℕ)
      → 0 < max_per_creator
      → assert_webhook_limit n (webhook_limit max_per_creator) ≡ ok tt
      → n < max_per_creator
  unfolding assert_webhook_limit webhook_limit
  assert_webhook_limit-room n max_per_creator h e = ground arith

  -- Under a cap, a registration leaves a creator who was within it within it, whatever its result.
  pub create_webhook-within_cap :
      (max_per_creator : ℕ) (id : String) (now : ℕ) (creator_id url secret : String) (db : Db)
      → 0 < max_per_creator
      → count_where (of_creator creator_id) db.webhooks ≤ max_per_creator
      → count_where
          (of_creator creator_id)
          (create_webhook encrypt url_allowed max_per_creator id now creator_id url secret
            db).1.webhooks
        ≤ max_per_creator
  create_webhook-within_cap max_per_creator id now creator_id url secret db cap h =
      create_webhook-keeps (λ d. count_where (of_creator creator_id) d.webhooks ≤ max_per_creator)
        max_per_creator id now creator_id url secret db h
        λ room.
          let row : Webhook = record {
            id = id;
            creator_id = creator_id;
            url = url;
            secret = encrypt secret;
            enabled = true;
            created_at = now;
          } in
          ground (
            arith,
            count_where-append (of_creator creator_id) db.webhooks row,
            eq_refl creator_id,
            assert_webhook_limit-room _ max_per_creator cap room,
          )
