-- ===== src/Webhooks/Delivery.antt =====
-- The delivery path of src/modules/webhooks/webhooks.service.ts, and the notification of failures in
-- src/modules/notifications/webhook-failure.service.ts. A request to a receiver is a parameter, as
-- are the cipher, the signature, the JSON text of a payload, the text of an error, and the ids that
-- the database gives to new rows. The clock stands still during one delivery. A dispatch queues
-- its deliveries; Webhooks/Queue.antt tells when they run.
pub mod Outcome
pub mod Targets
use novatip_backend.Prelude.{
  ℕ, ◌+◌, ◌-◌, ◌*◌, ◌/◌, String, Bool, true, false, ◌&&◌, not, Option, none, some, List, [], ◌∷◌,
  ◌++◌, ltb, leb, str_eq, if◌then◌else◌, find?, filter, any, Error, Result, ok, err,
}
use novatip_backend.Store.{
  Creator, Webhook, WebhookDelivery, Notification, NotificationKind, tip_received, webhook_failed,
  Db,
}
use novatip_backend.Indexer.Persist.{TipEvent}
use novatip_backend.Webhooks.Registry.{is_owned}
use novatip_backend.Webhooks.Queue.{Queue, queue_delivery}

-- `Response`: the status, and the body as `readResponseBody` gives it
pub record Response : Type 0 where
  pub status : ℕ
  pub body : Result String

-- `res.ok`
abbrev pub is_ok : ℕ → Bool
is_ok status = leb 200 status && leb status 299

pub record DeliveryOutcome : Type 0 where
  pub success : Bool
  pub status_code : Option ℕ
  pub response : Option String
  pub attempted_at : ℕ

abbrev pub suppress_window_ms : ℕ
suppress_window_ms = 60 * 60 * 1000

-- a notification of the creator that says that the webhook fails
abbrev pub is_failure_of : String → String → Notification → Bool
is_failure_of creator_id webhook_id n = elim n.kind [
  | tip_received _ ↦ false
  | webhook_failed w ↦ str_eq n.creator_id creator_id && str_eq w webhook_id
]

-- a cutoff before 1970 is 0: no row is older than either
abbrev pub is_recent_failure : String → String → ℕ → Notification → Bool
is_recent_failure creator_id webhook_id now n =
    is_failure_of creator_id webhook_id n && leb (now - suppress_window_ms) n.created_at

-- whether the creator was told of the webhook within the window
abbrev pub is_already_notified : ℕ → String → String → Db → Bool
is_already_notified now creator_id webhook_id db =
    any (is_recent_failure creator_id webhook_id now) db.notifications

-- `seen` is the state that the query found; other requests may have changed it before the row is
-- stored, and the notifications of concurrent deliveries may so repeat within the window
unfoldable pub notify_webhook_failure : String → ℕ → String → String → Db → Db → Db
notify_webhook_failure id now creator_id webhook_id seen db =
    let row : Notification = record {
      id = id;
      creator_id = creator_id;
      kind = webhook_failed webhook_id;
      sent_at = none;
      read_at = none;
      created_at = now;
    } in
    if is_already_notified now creator_id webhook_id seen
    then db
    else record db { notifications = db.notifications ++ row ∷ [] }

-- what the `try` of `deliver` leaves in `statusCode`, `responseText` and `success`
pub record Answer : Type 0 where
  pub status_code : Option ℕ
  pub response_text : String
  pub success : Bool

-- `db.webhookDelivery.create`: the foreign key wants the webhook, and `can_write` tells whether the
-- database otherwise takes the row; an error is caught
abbrev pub insert_delivery :
    (WebhookDelivery → Bool) → WebhookDelivery → Db → Option WebhookDelivery × Db
insert_delivery can_write row db =
    if can_write row && any (λ w. str_eq w.id row.webhook_id) db.webhooks
    then (some row, record db { webhook_deliveries = db.webhook_deliveries ++ row ∷ [] })
    else (none, db)

-- what `deliver` returns: the stored row's columns, or a failure if there is none
abbrev pub report : Answer → ℕ → Option WebhookDelivery → DeliveryOutcome
report answer now (some stored) = record {
  success = stored.success;
  status_code = stored.status_code;
  response = stored.response;
  attempted_at = stored.attempted_at;
}
report answer now none = record {
  success = false;
  status_code = answer.status_code;
  response = some answer.response_text;
  attempted_at = now;
}

module _ (destination_allowed : String → Result (Unit {0})) (decrypt : String → Result String)
    (sign : String → String → ℕ → String) (post : String → String → ℕ → String → Result Response)
    (describe : Error → String) (can_write : WebhookDelivery → Bool) where
  -- what throws inside the `try` ends it
  abbrev pub attempt {ℓ} : {A : Type ℓ} → Option ℕ → Result A → (A → Answer) → Answer
  attempt status (ok a) rest = rest a
  attempt status (err e) rest = record {
    status_code = status;
    response_text = describe e;
    success = false;
  }

  -- the `try` of `deliver`, at a time in seconds; the status stays if the reading of the body throws
  unfoldable pub send : ℕ → Webhook → String → Answer
  send timestamp webhook body = attempt none (destination_allowed webhook.url) λ _.
      attempt none (decrypt webhook.secret) λ secret.
        attempt none (post webhook.url (sign body secret timestamp) timestamp body) λ res.
          attempt (some res.status) res.body λ text. record {
            status_code = some res.status;
            response_text = text;
            success = is_ok res.status;
          }

  unfoldable pub deliver : String → ℕ → Webhook → String → Db → DeliveryOutcome × Db
  unfolding send
  deliver id now webhook body db =
      let answer = send (now / 1000) webhook body in
      let row : WebhookDelivery = record {
        id = id;
        webhook_id = webhook.id;
        status_code = answer.status_code;
        success = answer.success;
        response = some answer.response_text;
        attempted_at = now;
      } in
      let (attempt, after) = insert_delivery can_write row db in (report answer now attempt, after)

  -- null: the creator has no webhook with that id
  unfoldable pub send_test_ping :
      (Webhook → String) → String → ℕ → String → String → Db → Option DeliveryOutcome × Db
  unfolding deliver
  send_test_ping payload id now creator_id webhook_id db =
      elim (find? (is_owned creator_id webhook_id) db.webhooks) [
        | none ↦ (none, db)
        | some webhook ↦
            let (outcome, after) = deliver id now webhook (payload webhook) db in
            (some outcome, after)
      ]

-- the loop that queues a delivery to each webhook, before any of them is waited for
unfoldable pub queue_all : ℕ → List Webhook → Queue Webhook → Queue Webhook
queue_all concurrency [] q = q
queue_all concurrency (webhook ∷ webhooks) q =
    queue_all concurrency webhooks (queue_delivery concurrency webhook q)

-- `read` is the order in which the database returns the rows of an include
module _ (concurrency : ℕ) (read : List Webhook → List Webhook) where
  -- the rest of `dispatchWebhooks`, once the jar's creator was looked up, as far as the queue
  abbrev pub dispatch_to : Db → Option Creator → Queue Webhook → Queue Webhook
  dispatch_to db none q = q
  dispatch_to db (some creator) q =
      if creator.webhook_enabled
      then queue_all concurrency
          (read (filter (λ w. str_eq w.creator_id creator.id && w.enabled) db.webhooks)) q
      else q

  unfoldable pub dispatch_webhooks : TipEvent → Db → Queue Webhook → Queue Webhook
  unfolding queue_all
  dispatch_webhooks event db q =
      dispatch_to db (find? (λ c. str_eq c.jar_id event.jar_id) db.creators) q
