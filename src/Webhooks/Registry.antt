-- ===== src/Webhooks/Registry.antt =====
-- Registration and management of webhooks in src/modules/webhooks/webhooks.service.ts, with
-- src/modules/webhooks/limit.ts. The cipher of secret-crypto.ts and the check of the URL are
-- parameters, as is the id that the database gives to a new row.
pub mod Ownership
use mathlib.Core.Option
use novatip_backend.Prelude.{
  ℕ, ◌+◌, ◌≡◌, String, Bool, true, false, ◌&&◌, not, Option, none, some, List, [], ◌∷◌, ◌++◌, ltb,
  leb, ◌==◌, str_eq, if◌then◌else◌, find?, filter, any, count_where, update_where, length, codes,
  map, min, take, drop, Error, thrown, fault, Result, ok, err, Exec, ◌>>=◌, ◌>>◌, lift, gets,
}
use novatip_backend.Store.{Webhook, WebhookDelivery, Db}

-- `limit > 0 ? limit : null`
unfoldable pub webhook_limit : ℕ → Option ℕ
webhook_limit max_per_creator = if ltb 0 max_per_creator then some max_per_creator else none

unfoldable pub assert_webhook_limit : ℕ → Option ℕ → Result (Unit {0})
assert_webhook_limit existing_count none = ok tt
assert_webhook_limit existing_count (some limit) =
    if ltb existing_count limit then ok tt else err (thrown 409 "WEBHOOK_LIMIT_REACHED")

abbrev pub min_webhook_secret_length : ℕ
min_webhook_secret_length = 16

-- the length of a text is that of its code points; JavaScript counts some of them twice
unfoldable pub assert_secret_length : String → Result (Unit {0})
assert_secret_length secret =
    if leb min_webhook_secret_length (length (codes secret))
    then ok tt
    else err (thrown 400 "WEBHOOK_SECRET_TOO_SHORT")

-- the scope of every statement that takes a creator and a webhook
abbrev pub is_owned : String → String → Webhook → Bool
is_owned creator_id webhook_id w = str_eq w.id webhook_id && str_eq w.creator_id creator_id

abbrev pub of_creator : String → Webhook → Bool
of_creator creator_id w = str_eq w.creator_id creator_id

-- the columns of `webhookSelect` that are modelled
pub record WebhookView : Type 0 where
  pub id : String
  pub url : String
  pub enabled : Bool
  pub created_at : ℕ

abbrev pub select : Webhook → WebhookView
select w = record { id = w.id; url = w.url; enabled = w.enabled; created_at = w.created_at }

-- `updateMany` and then `findUnique`; null if nothing was updated
unfoldable pub update_owned : String → String → (Webhook → Webhook) → Db → Option WebhookView × Db
update_owned creator_id webhook_id change db =
    let webhooks = update_where (is_owned creator_id webhook_id) change db.webhooks in
    if count_where (is_owned creator_id webhook_id) db.webhooks == 0
    then (none, record db { webhooks = webhooks })
    else (
      Option.map select (find? (λ w. str_eq w.id webhook_id) webhooks),
      record db { webhooks = webhooks },
    )

unfoldable pub set_webhook_enabled : String → String → Bool → Db → Option WebhookView × Db
unfolding update_owned
set_webhook_enabled creator_id webhook_id enabled db =
    update_owned creator_id webhook_id (λ w. record w { enabled = enabled }) db

-- The foreign key of WebhookDelivery restricts the deletion of a webhook that has deliveries: the
-- statement then throws and deletes nothing.
unfoldable pub delete_webhook : String → String → Exec Db Bool
delete_webhook creator_id webhook_id db =
    if any (is_owned creator_id webhook_id) db.webhooks
      && any (λ d. str_eq d.webhook_id webhook_id) db.webhook_deliveries
    then (err (fault "P2003"), db)
    else (
      ok (ltb 0 (count_where (is_owned creator_id webhook_id) db.webhooks)),
      record db { webhooks = filter (λ w. not (is_owned creator_id webhook_id w)) db.webhooks },
    )

-- `orderBy: { createdAt: "desc" }`; rows of one time stay in the order of insertion
insert_newest : Webhook → List Webhook → List Webhook
insert_newest w [] = w ∷ []
insert_newest w (v ∷ vs) =
    let rest = insert_newest w vs in if ltb w.created_at v.created_at then v ∷ rest else w ∷ v ∷ vs

newest_first : List Webhook → List Webhook
newest_first [] = []
newest_first (w ∷ ws) = insert_newest w (newest_first ws)

unfoldable pub list_webhooks : String → ℕ → ℕ → Db → List WebhookView
unfolding newest_first insert_newest
list_webhooks creator_id limit offset db =
    map select
      (take limit (drop offset (newest_first (filter (of_creator creator_id) db.webhooks))))

abbrev pub max_delivery_page_size : ℕ
max_delivery_page_size = 100

-- `success` is filtered only if the caller asks for it
abbrev pub in_history : String → Option Bool → WebhookDelivery → Bool
in_history webhook_id none d = str_eq d.webhook_id webhook_id
in_history webhook_id (some true) d = str_eq d.webhook_id webhook_id && d.success
in_history webhook_id (some false) d = str_eq d.webhook_id webhook_id && not d.success

insert_latest : WebhookDelivery → List WebhookDelivery → List WebhookDelivery
insert_latest d [] = d ∷ []
insert_latest d (e ∷ es) =
    let rest = insert_latest d es in
    if ltb d.attempted_at e.attempted_at then e ∷ rest else d ∷ e ∷ es

latest_first : List WebhookDelivery → List WebhookDelivery
latest_first [] = []
latest_first (d ∷ ds) = insert_latest d (latest_first ds)

unfoldable pub list_webhook_deliveries :
    String → String → ℕ → ℕ → Option Bool → Db → Option (List WebhookDelivery)
unfolding latest_first insert_latest
list_webhook_deliveries creator_id webhook_id limit offset success_filter db =
    elim (find? (is_owned creator_id webhook_id) db.webhooks) [
      | none ↦ none
      | some owned ↦ some (
          take (min limit max_delivery_page_size) (
            drop offset
              (latest_first (filter (in_history webhook_id success_filter) db.webhook_deliveries))))
    ]

module _ (encrypt : String → String) (url_allowed : String → Result (Unit {0})) where
  -- the insertion; `enabled` has the default true
  abbrev pub insert_webhook : String → ℕ → String → String → String → Exec Db Webhook
  insert_webhook id now creator_id url secret db =
      let row : Webhook = record {
        id = id;
        creator_id = creator_id;
        url = url;
        secret = encrypt secret;
        enabled = true;
        created_at = now;
      } in
      (ok row, record db { webhooks = db.webhooks ++ row ∷ [] })

  -- `createWebhook` under the configured cap; the count and the insertion are one transaction
  unfoldable pub create_webhook : ℕ → String → ℕ → String → String → String → Exec Db Webhook
  create_webhook max_per_creator id now creator_id url secret db =
      (do
        lift (assert_secret_length secret)
        lift (url_allowed url)
        existing ← gets (λ d. count_where (of_creator creator_id) d.webhooks)
        lift (assert_webhook_limit existing (webhook_limit max_per_creator))
        insert_webhook id now creator_id url secret)
        db

  -- the update, and the secret beside the row
  abbrev pub rotate_owned : String → String → String → Exec Db (Option (WebhookView × String))
  rotate_owned creator_id webhook_id secret db =
      let (found, after) =
        update_owned creator_id webhook_id (λ w. record w { secret = encrypt secret }) db in
      (ok (Option.map (λ v. (v, secret)) found), after)

  unfoldable pub rotate_webhook_secret :
      String → String → String → Exec Db (Option (WebhookView × String))
  rotate_webhook_secret creator_id webhook_id secret db =
      (do lift (assert_secret_length secret); rotate_owned creator_id webhook_id secret) db

  -- the loop of `migrateWebhookSecrets` over the rows that it read; each update compares the secret
  unfoldable pub migrate_rows : List Webhook → List Webhook → ℕ × List Webhook
  migrate_rows [] webhooks = (0, webhooks)
  migrate_rows (row ∷ rows) webhooks =
      let same = λ (w : Webhook). str_eq w.id row.id && str_eq w.secret row.secret in
      let (migrated, after) =
        migrate_rows rows
          (update_where same (λ w. record w { secret = encrypt row.secret }) webhooks) in
      (count_where same webhooks + migrated, after)

  unfoldable pub migrate_webhook_secrets : (String → Bool) → Db → ℕ × Db
  unfolding migrate_rows
  migrate_webhook_secrets is_encrypted db =
      let legacy_rows = filter (λ w. not (is_encrypted w.secret)) db.webhooks in
      let (migrated, webhooks) = migrate_rows legacy_rows db.webhooks in
      (migrated, record db { webhooks = webhooks })
