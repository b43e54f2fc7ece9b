-- ===== src/Emails/Tip.antt =====
-- sendTipNotification: the email for one tip, under the cap of its creator for the hour.
pub mod Address
pub mod Cap
pub mod Exact
use novatip_backend.Prelude.{
  ℕ, ◌+◌, ◌*◌, ◌/◌, String, Bool, true, false, ◌&&◌, not, Option, none, some, List, [], ◌∷◌, ◌++◌,
  codes, ltb, leb, ◌==◌, str_eq, if◌then◌else◌, is_some, or_else, count_where, update_where,
}
use novatip_backend.Store.{
  Creator, Notification, NotificationKind, tip_received, webhook_failed, Db,
}
use novatip_backend.Indexer.Persist.{TipEvent}
use novatip_backend.Creator.Table.{creator_by_jar}
use novatip_backend.Emails.Html.{escape_html}

abbrev pub hour_ms : ℕ
hour_ms = 60 * 60 * 1000

-- `Math.floor(time / HOUR_MS) * HOUR_MS`
abbrev pub hour_of : ℕ → ℕ
hour_of time = time / hour_ms * hour_ms

-- an email; the sender is a constant of the configuration
pub record Email : Type 0 where
  pub to : String
  pub subject : List ℕ
  pub text : List ℕ
  pub html : List ℕ

-- What the service finds around it: whether Resend has a key, the cap, the links of the texts, and
-- `formatUsdc(amount, 2)` of the SDK.
pub record Mailer : Type 0 where
  pub has_api_key : Bool
  pub max_per_hour : ℕ
  pub app_base_url : String
  pub format_usdc : ℕ → List ℕ

abbrev pub is_tip_kind : NotificationKind → Bool
is_tip_kind (tip_received amount) = true
is_tip_kind (webhook_failed id) = false

-- `join("\n")`
abbrev pub join_lines : List (List ℕ) → List ℕ
join_lines [] = []
join_lines (l ∷ []) = l
join_lines (l ∷ m ∷ lines) = l ++ 10 ∷ join_lines (m ∷ lines)

module _ (mailer : Mailer) where
  abbrev quoted : List ℕ → List ℕ
  quoted message = b'"' ∷ message ++ b'"' ∷ []

  -- the message, quoted, or a fixed text for an empty one
  abbrev shown_message : (List ℕ → List ℕ) → List ℕ → List ℕ
  shown_message encode [] = codes "No message left."
  shown_message encode (c ∷ s) = quoted (encode (c ∷ s))

  abbrev pub dashboard_url : List ℕ
  dashboard_url = codes mailer.app_base_url ++ codes "/dashboard"

  unfoldable pub tip_email : Creator → String → TipEvent → Email
  unfolding escape_html
  tip_email creator email event =
      let amount = mailer.format_usdc event.amount in
      let display_name = codes (or_else creator.display_name creator.slug) in
      let message = codes event.message in
      record {
        to = email;
        subject = codes "💸 You received $" ++ (amount ++ codes " USDC on Novatip!");
        text = join_lines (
            (codes "Hey " ++ (display_name ++ codes "!"))
            ∷ []
            ∷ (codes "Someone just tipped you $" ++ (amount ++ codes " USDC on Novatip."))
            ∷ []
            ∷ shown_message (λ s. s) message
            ∷ []
            ∷ (codes "View your dashboard: " ++ dashboard_url)
            ∷ []);
        html =
            codes "\n      <h2>Hey "
            ++ (escape_html display_name
                ++ (codes "!</h2>\n      <p>\n        Someone just tipped you <strong>$"
                    ++ (escape_html amount
                        ++ (codes " USDC</strong> on Novatip.\n      </p>\n      <p><em>"
                            ++ (shown_message escape_html message
                                ++ (codes "</em></p>\n      <p>\n        <a href=\""
                                    ++ (dashboard_url
                                        ++ codes
                                            "\">View your dashboard →</a>\n      </p>\n    ")))))));
      }

  -- the rows of the creator's tips of an hour whose email was sent
  abbrev pub is_sent_in : String → ℕ → Notification → Bool
  is_sent_in creator_id start n =
      str_eq n.creator_id creator_id
      && is_tip_kind n.kind
      && leb start n.created_at
      && ltb n.created_at (start + hour_ms)
      && is_some n.sent_at

  -- the row that is stored before the email is sent
  abbrev pub tip_notification : String → String → ℕ → TipEvent → Notification
  tip_notification id creator_id created_at event = record {
    id = id;
    creator_id = creator_id;
    kind = tip_received event.amount;
    sent_at = none;
    read_at = none;
    created_at = created_at;
  }

  abbrev pub mark_sent : String → ℕ → Db → Db
  mark_sent id now db = record db {
    notifications =
        update_where (λ n. str_eq n.id id) (λ n. record n { sent_at = some now }) db.notifications;
  }

-- an address that is not null and not empty
abbrev pub usable_email : Option String → Option String
usable_email none = none
usable_email (some email) = if str_eq email "" then none else some email

-- the address, if the creator wants emails and has verified it
unfoldable pub address_of : Creator → Option String
address_of creator =
    if creator.email_enabled && is_some creator.email_verified_at
    then usable_email creator.email
    else none

-- `deliver` is what comes of an email: accepted, rejected, or none if the library throws
module _ (mailer : Mailer) (deliver : Email → Option Bool) where
  abbrev pub after_delivery : String → ℕ → Option Bool → Db → Db
  after_delivery id now (some true) db = mark_sent mailer id now db
  after_delivery id now (some false) db = db
  after_delivery id now none db = db

  -- once the row is stored and the address is known, up to the end; with the email that was handed over
  abbrev pub send_if_under_cap : Creator → String → String → ℕ → TipEvent → Db → Option Email × Db
  send_if_under_cap creator email id now event db =
      let mail = tip_email mailer creator email event in
      if leb mailer.max_per_hour
        (count_where (is_sent_in mailer creator.id (hour_of now)) db.notifications)
      then (none, db)
      else (some mail, after_delivery id now (deliver mail) db)

  abbrev pub with_address : Creator → Option String → String → ℕ → TipEvent → Db → Option Email × Db
  with_address creator none id now event db = (none, db)
  with_address creator (some email) id now event db =
      if mailer.has_api_key then send_if_under_cap creator email id now event db else (none, db)

  -- the row that is stored before the email is sent
  abbrev pub store_notification : String → String → ℕ → TipEvent → Db → Db
  store_notification id creator_id created_at event db = record db {
    notifications = db.notifications ++ tip_notification mailer id creator_id created_at event ∷ [];
  }

  abbrev pub notify_creator : Option Creator → String → ℕ → ℕ → TipEvent → Db → Option Email × Db
  notify_creator none id created_at now event db = (none, db)
  notify_creator (some creator) id created_at now event db =
      with_address creator (address_of creator) id now event
        (store_notification id creator.id created_at event db)

  -- The new row has the time of its insertion; `now` is the time at which the window is computed. An
  -- error is caught, with what was written before it.
  unfoldable pub send_tip_notification : String → ℕ → ℕ → TipEvent → Db → Option Email × Db
  unfolding tip_email address_of
  send_tip_notification id created_at now event db =
      notify_creator (creator_by_jar event.jar_id db) id created_at now event db
