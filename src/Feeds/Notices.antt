-- ===== src/Feeds/Notices.antt =====
-- src/modules/notifications/notifications.service.ts and preferences.service.ts. An ISO text in a
-- response stands here as its time, and the payload of a notification as its kind.
pub mod Unread
use mathlib.Core.Option
use novatip_backend.Prelude.{
  ℕ, suc, ◌+◌, String, Bool, true, false, ◌&&◌, not, Option, none, some, List, map, str_eq, or_else,
  is_some, if◌then◌else◌, any, take, drop, filter, count_where, update_where, Error, thrown, Result,
  ok, err, Exec,
}
use novatip_backend.Store.{Creator, Notification, NotificationKind, Db}
use novatip_backend.Creator.Table.{creator_by_id, update_creator}
use novatip_backend.Feeds.Cursor.{Cursor, KeyOrder, Platform, encode_cursor}
use novatip_backend.Feeds.Select.{Page, page_size, to_page, order_rows, is_after, decode_if_given}

pub record NotificationRecord : Type 0 where
  pub id : String
  pub kind : NotificationKind
  pub sent : Bool
  pub sent_at : Option ℕ
  pub read : Bool
  pub read_at : Option ℕ
  pub created_at : ℕ

pub record NotificationPage : Type 0 where
  pub notifications : List NotificationRecord
  pub unread_count : ℕ
  pub next_cursor : Option String

abbrev pub max_notification_page_size : ℕ
max_notification_page_size = 100

abbrev pub notification_record : Notification → NotificationRecord
notification_record n = record {
  id = n.id;
  kind = n.kind;
  sent = is_some n.sent_at;
  sent_at = n.sent_at;
  read = is_some n.read_at;
  read_at = n.read_at;
  created_at = n.created_at;
}

-- `readAt: null` of a creator
abbrev pub is_unread_of : String → Notification → Bool
is_unread_of creator_id n = str_eq n.creator_id creator_id && not (is_some n.read_at)

abbrev pub unread_count : String → Db → ℕ
unread_count creator_id db = count_where (is_unread_of creator_id) db.notifications

-- the creator's notifications, or only the unread
abbrev pub is_listed : String → Bool → Notification → Bool
is_listed creator_id unread_only n =
    if unread_only then is_unread_of creator_id n else str_eq n.creator_id creator_id

module _ (p : Platform) (o : KeyOrder) where
  -- the offset counts only if there is no cursor
  abbrev pub notification_rows : String → ℕ → ℕ → Bool → Option Cursor → Db → List Notification
  notification_rows creator_id size offset unread_only after db =
      let matching =
        filter
          (λ n.
            is_listed creator_id unread_only n
            && is_after o (λ n. n.created_at) (λ n. n.id) after n)
          db.notifications in
      take (suc size) (
        drop (if is_some after then 0 else offset)
          (order_rows o (λ n. n.created_at) (λ n. n.id) matching))

  unfoldable pub list_notifications :
      String → ℕ → ℕ → Bool → Option String → Db → Result NotificationPage
  unfolding to_page order_rows is_after
  list_notifications creator_id limit offset unread_only cursor db =
      let size = page_size max_notification_page_size limit in
      elim (decode_if_given p cursor) [
        | err e ↦ err e
        | ok after ↦
            let page =
              to_page (notification_rows creator_id size offset unread_only after db) size in
            ok (record {
              notifications = map notification_record page.rows;
              unread_count = unread_count creator_id db;
              next_cursor = Option.map (λ n. encode_cursor p n.created_at n.id) page.next;
            })
      ]

-- `updateMany` on the unread ones, with their number
unfoldable pub mark_where : (Notification → Bool) → ℕ → Db → ℕ × Db
mark_where p now db = (
  count_where p db.notifications,
  record db {
    notifications = update_where p (λ n. record n { read_at = some now }) db.notifications;
  },
)

unfoldable pub mark_notifications_read : String → List String → ℕ → Db → ℕ × Db
unfolding mark_where
mark_notifications_read creator_id ids now db =
    mark_where (λ n. any (λ id. str_eq id n.id) ids && is_unread_of creator_id n) now db

unfoldable pub mark_all_notifications_read : String → ℕ → Db → ℕ × Db
unfolding mark_where
mark_all_notifications_read creator_id now db = mark_where (is_unread_of creator_id) now db

pub record NotificationPreferences : Type 0 where
  pub email_enabled : Bool
  pub webhook_enabled : Bool

abbrev pub preferences_of : Creator → NotificationPreferences
preferences_of c = record { email_enabled = c.email_enabled; webhook_enabled = c.webhook_enabled }

unfoldable pub get_notification_preferences : String → Db → Result NotificationPreferences
get_notification_preferences creator_id db = elim (creator_by_id creator_id db) [
  | none ↦ err (thrown 404 "")
  | some c ↦ ok (preferences_of c)
]

-- a flag that is undefined stays as it is
unfoldable pub update_notification_preferences :
    String → Option Bool → Option Bool → Exec Db NotificationPreferences
unfolding update_creator
update_notification_preferences creator_id email_enabled webhook_enabled db =
    let change : Creator → Creator = λ c. record c {
      email_enabled = or_else email_enabled c.email_enabled;
      webhook_enabled = or_else webhook_enabled c.webhook_enabled;
    } in
    let (stored, after) = update_creator creator_id change db in
    ((elim stored [ ok c ↦ ok (preferences_of c) | err e ↦ err e ]), after)
