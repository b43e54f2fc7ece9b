-- ===== src/Emails/Tip/Exact.antt =====
-- What sendTipNotification does for a creator who can be reached.
use novatip_backend.Prelude.{
  ℕ, ◌≡◌, refl, ap, ◌∙◌, String, Bool, true, false, Option, none, some, List, [], ◌∷◌, ◌++◌, ltb,
  leb, str_eq, find?, if◌then◌else◌, any, update_where, Bool-cases, inl, inr, arith, eq_refl,
}
use novatip_backend.Store.{Creator, Notification, tip_received, Db}
use novatip_backend.Indexer.Persist.{TipEvent}
use novatip_backend.Emails.Tip.{
  Email, Mailer, address_of, tip_email, after_delivery, send_if_under_cap, with_address,
  store_notification, notify_creator, send_tip_notification, tip_notification,
}
use novatip_backend.Emails.Tip.Address.{IsReachable}
use novatip_backend.Emails.Tip.Cap.{IsNewId, sent_within, sent_in, sent-stored, count-sent_in}

reached :
    (creator : Creator) (email : String)
    → IsReachable creator email
    → str_eq email "" ≡ false
    → address_of creator ≡ some email
unfolding address_of
reached creator email r full =
    let enabled = r.enabled in
    let verified = r.verified in rw (enabled, verified, r.address, full) refl

module _ (id : String) (now : ℕ) where
  mark-snoc :
      (row : Notification) (rows : List Notification)
      → str_eq row.id id ≡ true
      → any (λ n. str_eq n.id id) rows ≡ false
      → update_where (λ n. str_eq n.id id) (λ n. record n { sent_at = some now }) (rows ++ row ∷ [])
        ≡ rows ++ record row { sent_at = some now } ∷ []
  mark-snoc row [] h fresh = rw h refl
  mark-snoc row (n ∷ rows) h fresh =
      let other : str_eq n.id id ≡ false = ground (arith, fresh) in
      rw other (ap (λ xs. n ∷ xs) (mark-snoc row rows h (ground (arith, fresh))))

  -- the time that is stored for an accepted email
  abbrev pub time_of : Option Bool → Option ℕ
  time_of (some true) = some now
  time_of (some false) = none
  time_of none = none

module _ (mailer : Mailer) (deliver : Email → Option Bool) (id : String) (created_at now : ℕ)
    (event : TipEvent) (db : Db) where
  -- the table with the row of the tip, and the time at which its email was sent
  abbrev pub with_row : String → Option ℕ → Db
  with_row creator_id sent_at = record db {
    notifications =
        db.notifications
        ++ record {
          id = id;
          creator_id = creator_id;
          kind = tip_received event.amount;
          sent_at = sent_at;
          read_at = none;
          created_at = created_at;
        }
          ∷ [];
  }

  delivered :
      (creator_id : String) (outcome : Option Bool)
      → IsNewId mailer deliver id db
      → after_delivery mailer deliver id now outcome
          (store_notification mailer deliver id creator_id created_at event db)
        ≡ with_row creator_id (time_of id now outcome)
  delivered creator_id none fresh = refl
  delivered creator_id (some false) fresh = refl
  delivered creator_id (some true) fresh =
      ap (λ rows. record db { notifications = rows })
        (mark-snoc id now (tip_notification mailer id creator_id created_at event) db.notifications
          (eq_refl id) fresh)

  capped :
      (creator : Creator) (email : String)
      → IsNewId mailer deliver id db
      → send_if_under_cap mailer deliver creator email id now event
          (store_notification mailer deliver id creator.id created_at event db)
        ≡ (if ltb (sent_within mailer deliver creator.id now db) mailer.max_per_hour
            then (
              some (tip_email mailer creator email event),
              with_row creator.id (time_of id now (deliver (tip_email mailer creator email event))),
            )
            else (none, with_row creator.id none))
  capped creator email fresh =
      let stored = store_notification mailer deliver id creator.id created_at event db in
      let mail = tip_email mailer creator email event in
      let choose = λ (b : Bool).
        if◌then◌else◌ {A = Option Email × Db} b (none, stored)
          (some mail, after_delivery mailer deliver id now (deliver mail) stored) in
      let same =
        sent-stored mailer deliver creator.id creator.id id now created_at event db
        ∙ count-sent_in mailer deliver creator.id now db.notifications in
      elim (Bool-cases (ltb (sent_within mailer deliver creator.id now db) mailer.max_per_hour)) [
        | inl free ↦
            let under : leb mailer.max_per_hour (sent_in mailer deliver creator.id now stored)
                ≡ false =
              ground (arith, free, same) in
            rw free (
              ap choose under
              ∙ ap (λ d. (some mail, d)) (delivered creator.id (deliver mail) fresh))
        | inr full ↦
            let over : leb mailer.max_per_hour (sent_in mailer deliver creator.id now stored)
                ≡ true =
              ground (arith, full, same) in
            rw full (ap choose over)
      ]

  -- For a creator of the jar who has emails on and a verified address that is not empty, with a key of
  -- the email service and a new id for the row: if fewer emails than the cap were sent for the
  -- creator's tips of the clock hour, the email of the tip is handed over to that address and its row
  -- is stored, as sent now if the email was accepted and as pending if not; otherwise no email is
  -- handed over and the row is stored as pending. Nothing else changes.
  pub send_tip_notification-exact :
      (creator : Creator) (email : String)
      → find? (λ c. str_eq c.jar_id event.jar_id) db.creators ≡ some creator
      → IsReachable creator email
      → str_eq email "" ≡ false
      → mailer.has_api_key ≡ true
      → IsNewId mailer deliver id db
      → send_tip_notification mailer deliver id created_at now event db ≡ (
          if ltb (sent_within mailer deliver creator.id now db) mailer.max_per_hour
          then (
            some (tip_email mailer creator email event),
            with_row creator.id (time_of id now (deliver (tip_email mailer creator email event))),
          )
          else (none, with_row creator.id none))
  unfolding send_tip_notification
  send_tip_notification-exact creator email found r full key fresh =
      let stored = store_notification mailer deliver id creator.id created_at event db in
      ap (λ o. notify_creator mailer deliver o id created_at now event db) found
      ∙ ap (λ a. with_address mailer deliver creator a id now event stored)
          (reached creator email r full)
      ∙ ap
          (λ b.
            if◌then◌else◌ {A = Option Email × Db} b
              (send_if_under_cap mailer deliver creator email id now event stored) (none, stored))
          key
      ∙ capped creator email fresh
