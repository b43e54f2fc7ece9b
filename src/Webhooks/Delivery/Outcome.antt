-- ===== src/Webhooks/Delivery/Outcome.antt =====
-- What one delivery reports and records.
use novatip_backend.Prelude.{
  ℕ, ◌/◌, ◌≡◌, refl, ◌∙◌, ap, ◌↔◌, String, Bool, true, false, Option, none, some, List, [], ◌∷◌,
  ◌++◌, str_eq, any, Bool-cases, inl, inr, Error, fault, Result, ok, err, arith, eq_refl,
}
use novatip_backend.Store.{Webhook, WebhookDelivery, Db}
use novatip_backend.Webhooks.Registry.{is_owned, delete_webhook}
use novatip_backend.Webhooks.Delivery.{
  Response, is_ok, Answer, insert_delivery, send, deliver, attempt,
}

-- the table has the webhook
abbrev pub is_registered : String → Db → Bool
is_registered webhook_id db = any (λ w. str_eq w.id webhook_id) db.webhooks

insert_delivery-appends :
    (can_write : WebhookDelivery → Bool) (row : WebhookDelivery) (db : Db)
    → can_write row ≡ true
    → any (λ w. str_eq w.id row.webhook_id) db.webhooks ≡ true
    → insert_delivery can_write row db
      ≡ (some row, record db { webhook_deliveries = db.webhook_deliveries ++ row ∷ [] })
insert_delivery-appends can_write row db writes here = rw (writes, here) refl

absurd {ℓ} : {A : Type ℓ} → false ≡ true → A
absurd h = cc

module _ (destination_allowed : String → Result (Unit {0})) (decrypt : String → Result String)
    (sign : String → String → ℕ → String) (post : String → String → ℕ → String → Result Response)
    (describe : Error → String) (can_write : WebhookDelivery → Bool) where
  -- the receiver was allowed, got the signed body and answered with a status of success and a body
  pub record IsAccepted (timestamp : ℕ) (webhook : Webhook) (body : String) : Type 0 where
    pub allowed : destination_allowed webhook.url ≡ ok tt
    pub secret : String
    pub decrypted : decrypt webhook.secret ≡ ok secret
    pub status : ℕ
    pub text : String
    pub answered :
        post webhook.url (sign body secret timestamp) timestamp body
        ≡ ok (record { status = status; body = ok text })
    pub succeeded : is_ok status ≡ true

  abbrev sent : ℕ → Webhook → String → Answer
  sent timestamp webhook body =
      send destination_allowed decrypt sign post describe can_write timestamp webhook body

  attempt-success {ℓ} :
      {A : Type ℓ} (status : Option ℕ) (r : Result A) (rest : A → Answer)
      → (attempt destination_allowed decrypt sign post describe can_write status r rest).success
        ≡ true
      → (a : A) × (r ≡ ok a) × ((rest a).success ≡ true)
  attempt-success status (ok a) rest h = (a, refl, h)
  attempt-success status (err e) rest h = cc

  send-success :
      (timestamp : ℕ) (webhook : Webhook) (body : String)
      → (sent timestamp webhook body).success ≡ true
      → IsAccepted timestamp webhook body
  unfolding send
  send-success timestamp webhook body h =
      let (_, allowed, h1) = attempt-success none (destination_allowed webhook.url) _ h in
      let (secret, decrypted, h2) = attempt-success none (decrypt webhook.secret) _ h1 in
      let (res, answered, h3) =
        attempt-success none (post webhook.url (sign body secret timestamp) timestamp body) _ h2 in
      let (text, read, h4) = attempt-success (some res.status) res.body _ h3 in
      record {
        allowed = allowed;
        secret = secret;
        decrypted = decrypted;
        status = res.status;
        text = text;
        answered = answered ∙ ap (λ b. ok (record { status = res.status; body = b })) read;
        succeeded = h4;
      }

  send-accepted :
      (timestamp : ℕ) (webhook : Webhook) (body : String)
      → IsAccepted timestamp webhook body
      → (sent timestamp webhook body).success ≡ true
  unfolding send
  send-accepted timestamp webhook body a = rw (a.allowed, a.decrypted, a.answered) a.succeeded

  -- the row that a delivery writes
  abbrev pub stored : String → ℕ → Webhook → String → WebhookDelivery
  stored id now webhook body =
      let answer = sent (now / 1000) webhook body in
      record {
        id = id;
        webhook_id = webhook.id;
        status_code = answer.status_code;
        success = answer.success;
        response = some answer.response_text;
        attempted_at = now;
      }

  pub deliver-appends :
      (id : String) (now : ℕ) (webhook : Webhook) (body : String) (db : Db)
      → can_write (stored id now webhook body) ≡ true
      → is_registered webhook.id db ≡ true
      → (deliver destination_allowed decrypt sign post describe can_write id now webhook body db).1
        ≡ record db {
          webhook_deliveries = db.webhook_deliveries ++ stored id now webhook body ∷ [];
        }
  unfolding deliver
  deliver-appends id now webhook body db writes here =
      ap (λ r. r.1) (insert_delivery-appends can_write (stored id now webhook body) db writes here)

  -- A delivery reports success exactly if its row can be written, to a table that still has the webhook,
  -- its destination is allowed, its secret can be decrypted, and the receiver answered the request
  -- that is signed with that secret by a status from 200 to 299 (so by no redirect) and a body that
  -- could be read.
  pub deliver-success_iff :
      (id : String) (now : ℕ) (webhook : Webhook) (body : String) (db : Db)
      → ((deliver destination_allowed decrypt sign post describe can_write id now webhook body
            db).0.success
          ≡ true)
        ↔ ((can_write (stored id now webhook body) ≡ true)
            × (is_registered webhook.id db ≡ true)
            × IsAccepted (now / 1000) webhook body)
  unfolding deliver
  deliver-success_iff id now webhook body db =
      elim (Bool-cases (can_write (stored id now webhook body))) [
        | inr fails ↦ rw (deliver, fails) (λ h. absurd h, λ h. absurd h.0)
        | inl writes ↦ elim (Bool-cases (is_registered webhook.id db)) [
          | inl here ↦
              rw (deliver, writes, here)
                (
                  λ h. (refl, refl, send-success (now / 1000) webhook body h),
                  λ h. send-accepted (now / 1000) webhook body h.2,
                )
          | inr gone ↦ rw (deliver, writes, gone) (λ h. absurd h, λ h. absurd h.1)
        ]
      ]

  any-snoc :
      (ds : List WebhookDelivery) (d : WebhookDelivery)
      → any (λ e. str_eq e.webhook_id d.webhook_id) (ds ++ d ∷ []) ≡ true
  any-snoc [] d = ground (arith, eq_refl d.webhook_id)
  any-snoc (e ∷ ds) d = ground (arith, any-snoc ds d)

  owned_registered :
      (creator_id webhook_id : String) (ws : List Webhook)
      → any (is_owned creator_id webhook_id) ws ≡ true
      → any (λ w. str_eq w.id webhook_id) ws ≡ true
  owned_registered creator_id webhook_id [] h = h
  owned_registered creator_id webhook_id (w ∷ ws) h =
      ground (arith, owned_registered creator_id webhook_id ws)

  held :
      (creator_id : String) (row : WebhookDelivery) (db : Db)
      → any (is_owned creator_id row.webhook_id) db.webhooks ≡ true
      → delete_webhook creator_id row.webhook_id
          (record db { webhook_deliveries = db.webhook_deliveries ++ row ∷ [] })
        ≡ (
          err (fault "P2003"),
          record db { webhook_deliveries = db.webhook_deliveries ++ row ∷ [] },
        )
  unfolding delete_webhook
  held creator_id row db owned = rw (owned, any-snoc db.webhook_deliveries row) refl

  -- Once a delivery to a webhook of a creator was recorded, whether it succeeded or failed, the creator's
  -- request to delete that webhook throws the error of the foreign key and deletes nothing.
  pub deliver-delete_webhook :
      (id : String) (now : ℕ) (webhook : Webhook) (body creator_id : String) (db : Db)
      → can_write (stored id now webhook body) ≡ true
      → any (is_owned creator_id webhook.id) db.webhooks ≡ true
      → delete_webhook creator_id webhook.id
          (deliver destination_allowed decrypt sign post describe can_write id now webhook body
            db).1
        ≡ (
          err (fault "P2003"),
          (deliver destination_allowed decrypt sign post describe can_write id now webhook body
              db).1,
        )
  unfolding deliver delete_webhook
  deliver-delete_webhook id now webhook body creator_id db writes owned =
      let here : is_registered webhook.id db ≡ true =
        owned_registered creator_id webhook.id db.webhooks owned in
      rw (deliver-appends id now webhook body db writes here)
        (held creator_id (stored id now webhook body) db owned)
