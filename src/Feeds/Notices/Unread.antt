-- ===== src/Feeds/Notices/Unread.antt =====
-- Reading notifications.
use novatip_backend.Prelude.{
  ℕ, ◌+◌, ◌≡◌, ◌≢◌, refl, String, Bool, ◌&&◌, some, List, [], ◌∷◌, str_eq, any, filter, count_where,
  update_where, arith, eq_iff,
}
use novatip_backend.Store.{Notification, Db}
use novatip_backend.Feeds.Notices.{is_unread_of, unread_count, mark_where, mark_notifications_read}

module _ (creator_id : String) (now : ℕ) (p : Notification → Bool) where
  abbrev marked : List Notification → List Notification
  marked ns =
      update_where (λ n. p n && is_unread_of creator_id n) (λ n. record n { read_at = some now }) ns

  count-marked :
      (ns : List Notification)
      → count_where (λ n. p n && is_unread_of creator_id n) ns
          + count_where (is_unread_of creator_id) (marked ns)
        ≡ count_where (is_unread_of creator_id) ns
  count-marked [] = omega arith
  count-marked (n ∷ ns) = ground (arith, count-marked ns)

  others-marked :
      (other : String) (ns : List Notification)
      → creator_id ≢ other
      → filter (λ n. str_eq n.creator_id other) (marked ns)
        ≡ filter (λ n. str_eq n.creator_id other) ns
  others-marked other [] ne = refl
  others-marked other (n ∷ ns) ne = ground (
    arith,
    ne,
    others-marked other ns ne,
    eq_iff n.creator_id creator_id,
    eq_iff n.creator_id other,
  )

-- Marking notifications by their ids: the number that is returned is by how much the creator's unread
-- count falls, whatever ids are sent, and the notifications of every other creator stay as they are.
pub mark_notifications_read-lem :
    (creator_id other : String) (ids : List String) (now : ℕ) (db : Db)
    → creator_id ≢ other
    → ((mark_notifications_read creator_id ids now db).0
          + unread_count creator_id (mark_notifications_read creator_id ids now db).1
        ≡ unread_count creator_id db)
      × (filter
            (λ n. str_eq n.creator_id other)
            (mark_notifications_read creator_id ids now db).1.notifications
          ≡ filter (λ n. str_eq n.creator_id other) db.notifications)
unfolding mark_notifications_read mark_where
mark_notifications_read-lem creator_id other ids now db ne = (
  count-marked creator_id now (λ n. any (λ id. str_eq id n.id) ids) db.notifications,
  others-marked creator_id now (λ n. any (λ id. str_eq id n.id) ids) other db.notifications ne,
)
