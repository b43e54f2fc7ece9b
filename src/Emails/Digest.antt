-- ===== src/Emails/Digest.antt =====
-- sendPendingTipDigests: one email per creator and hour for the tips whose own email was not sent.
pub mod Groups
pub mod Once
use novatip_backend.Prelude.{
  ℕ, ◌+◌, String, Bool, true, false, ◌&&◌, not, Option, none, some, List, [], ◌∷◌, ◌++◌, map,
  filter, codes, decimal, length, ltb, leb, ◌==◌, str_eq, if◌then◌else◌, is_some, or_else, sum_of,
  update_where,
}
use novatip_backend.Store.{
  Creator, Notification, NotificationKind, tip_received, webhook_failed, Db,
}
use novatip_backend.Creator.Table.{creator_by_id}
use novatip_backend.Emails.Html.{escape_html}
use novatip_backend.Emails.Tip.{
  hour_ms, hour_of, Email, Mailer, is_tip_kind, join_lines, dashboard_url, address_of,
}

-- `${row.creatorId}:${windowStartMs}`
pub record GroupKey : Type 0 where
  pub creator_id : String
  pub window_start : ℕ

abbrev pub key_of : Notification → GroupKey
key_of n = record { creator_id = n.creator_id; window_start = hour_of n.created_at }

abbrev pub same_key : GroupKey → GroupKey → Bool
same_key k j = str_eq k.creator_id j.creator_id && k.window_start == j.window_start

pub record Group : Type 0 where
  pub key : GroupKey
  pub rows : List Notification

-- `groups.set(key, group)` with the row pushed, in the order of the first rows
unfoldable pub add_row : Notification → List Group → List Group
add_row row [] = record { key = key_of row; rows = row ∷ [] } ∷ []
add_row row (g ∷ groups) =
    let later = add_row row groups in
    if same_key g.key (key_of row)
    then record g { rows = g.rows ++ row ∷ [] } ∷ groups
    else g ∷ later

-- the loop over the pending rows
unfoldable pub group_rows : List Group → List Notification → List Group
unfolding add_row
group_rows groups [] = groups
group_rows groups (row ∷ rows) = group_rows (add_row row groups) rows

-- a tip whose email was not sent
abbrev pub is_unsent : Notification → Bool
is_unsent n = is_tip_kind n.kind && not (is_some n.sent_at)

-- such a tip of a closed hour
abbrev pub is_pending : ℕ → Notification → Bool
is_pending now n = is_unsent n && ltb n.created_at (hour_of now)

abbrev amount_in : NotificationKind → ℕ
amount_in (tip_received amount) = amount
amount_in (webhook_failed id) = 0

-- the amount of the payload of a tip
abbrev pub amount_of : Notification → ℕ
amount_of n = amount_in n.kind

-- a digest that was sent, with the rows that it counts
pub record Digest : Type 0 where
  pub key : GroupKey
  pub rows : List Notification
  pub email : Email

module _ (mailer : Mailer) (to_iso : ℕ → String) where
  unfoldable pub digest_email : Creator → String → GroupKey → List Notification → Email
  unfolding escape_html
  digest_email creator email key rows =
      let display_name = codes (or_else creator.display_name creator.slug) in
      let total = mailer.format_usdc (sum_of amount_of rows) in
      let count = decimal (length rows) in
      let window =
        codes "Digest window: "
        ++ (codes (to_iso key.window_start)
            ++ (codes " – " ++ codes (to_iso (key.window_start + hour_ms)))) in
      record {
        to = email;
        subject = codes "💸 You received " ++ (count ++ codes " tips on Novatip!");
        text = join_lines (
            (codes "Hey " ++ (display_name ++ codes "!"))
            ∷ []
            ∷ (codes "You received "
                ++ (count ++ (codes " tips totaling $" ++ (total ++ codes " USDC on Novatip."))))
            ∷ window
            ∷ []
            ∷ (codes "View your dashboard: " ++ dashboard_url mailer)
            ∷ []);
        html =
            codes "\n        <h2>Hey "
            ++ (escape_html display_name
                ++ (codes "!</h2>\n        <p>\n          You received <strong>"
                    ++ (count
                        ++ (codes " tips totaling $"
                            ++ (escape_html total
                                ++ (codes
                                      " USDC</strong>\n          on Novatip.\n        </p>\n        <p>"
                                    ++ (window
                                        ++ (codes "</p>\n        <p>\n          <a href=\""
                                            ++ (dashboard_url mailer
                                                ++ codes
                                                    "\">View your dashboard →</a>\n        </p>\n      ")))))))));
      }

  -- the rows that `updateMany` marks
  abbrev pub is_marked : GroupKey → Notification → Bool
  is_marked key n =
      str_eq n.creator_id key.creator_id
      && leb key.window_start n.created_at
      && ltb n.created_at (key.window_start + hour_ms)
      && is_unsent n

  abbrev pub mark_group : ℕ → GroupKey → Db → Db
  mark_group now key db = record db {
    notifications =
        update_where (is_marked key) (λ n. record n { sent_at = some now }) db.notifications;
  }

  abbrev pub email_at : Option String → Creator → Group → Option Email
  email_at none creator g = none
  email_at (some email) creator g = some (digest_email creator email g.key g.rows)

  -- the email of a group, if its creator is there and can be reached
  abbrev pub group_email : Option Creator → Group → Option Email
  group_email none g = none
  group_email (some creator) g = email_at (address_of creator) creator g

  -- `deliver` is what comes of an email: accepted, rejected, or none if the library throws
  module _ (deliver : Email → Option Bool) (now : ℕ) where
    -- the rest of a round of the loop, with the digests and the state of the later rounds
    abbrev pub after_group :
        Option Email → Option Bool → Group → Db → (Db → List Digest × Db) → List Digest × Db
    after_group (some email) (some true) g db later =
        let (digests, after) = later (mark_group now g.key db) in
        (record { key = g.key; rows = g.rows; email = email } ∷ digests, after)
    after_group _ _ g db later = later db

    abbrev pub outcome_of : Option Email → Option Bool
    outcome_of none = none
    outcome_of (some email) = deliver email

    unfoldable pub send_groups : List Group → Db → List Digest × Db
    unfolding digest_email
    send_groups [] db = ([], db)
    send_groups (g ∷ groups) db =
        let email = group_email (creator_by_id g.key.creator_id db) g in
        after_group email (outcome_of email) g db (send_groups groups)

    -- the digests that were sent, of which the code returns the number
    unfoldable pub send_pending_tip_digests : Db → List Digest × Db
    unfolding send_groups group_rows
    send_pending_tip_digests db =
        if mailer.has_api_key
        then send_groups (group_rows [] (filter (is_pending now) db.notifications)) db
        else ([], db)
