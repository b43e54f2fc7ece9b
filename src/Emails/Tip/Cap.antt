-- ===== src/Emails/Tip/Cap.antt =====
-- The cap on the emails of an hour.
use novatip_backend.Prelude.{
  ◌/◌, ◌==◌, ◌&&◌, is_some, ℕ, suc, ◌≤◌, ◌<◌, ◌≡◌, refl, sym, ap, String, Bool, true, false, Option,
  none, some, List, [], ◌∷◌, ◌++◌, leb, str_eq, find?, if◌then◌else◌, any, count_where,
  update_where, Bool-cases, inl, inr, arith, eq_refl,
}
use mathlib.Core.Path.{subst}
use mathlib.Core.Option.{some-injective}
use novatip_backend.Store.{Creator, Notification, tip_received, webhook_failed, Db}
use novatip_backend.Indexer.Persist.{TipEvent}
use novatip_backend.Creator.Table.{creator_by_jar}
use novatip_backend.Emails.Tip.Address.{IsReachable, address_of-IsReachable}
use novatip_backend.Emails.Tip.{
  hour_of, Email, Mailer, is_sent_in, tip_notification, tip_email, address_of, after_delivery,
  send_if_under_cap, with_address, store_notification, notify_creator, send_tip_notification,
}

module _ (q : Notification → Bool) (id : String) (now : ℕ) where
  mark : Notification → Notification
  mark n = record n { sent_at = some now }

  count-mark :
      (row : Notification) (rows : List Notification)
      → str_eq row.id id ≡ true
      → q row ≡ false
      → any (λ n. str_eq n.id id) rows ≡ false
      → count_where q (
          update_where
            (λ n. str_eq n.id id)
            (λ n. record n { sent_at = some now })
            (rows ++ row ∷ []))
        ≤ suc (count_where q rows)
  count-mark row [] h k fresh = ground arith
  count-mark row (n ∷ rows) h k fresh = ground (arith, count-mark row rows h k)

  count-snoc :
      (row : Notification) (rows : List Notification)
      → q row ≡ false
      → count_where q (rows ++ row ∷ []) ≡ count_where q rows
  count-snoc row [] h = ground arith
  count-snoc row (n ∷ rows) h = ground (arith, count-snoc row rows h)

module _ (mailer : Mailer) (deliver : Email → Option Bool) where
  -- the rows that the code counts
  abbrev pub sent_in : String → ℕ → Db → ℕ
  sent_in creator_id time db =
      count_where (is_sent_in mailer creator_id (hour_of time)) db.notifications

  -- the rows have other ids than the new one
  abbrev pub IsNewId : String → Db → Type 0
  IsNewId id db = any (λ n. str_eq n.id id) db.notifications ≡ false

  pub sent-stored :
      (creator_id other id : String) (time created_at : ℕ) (event : TipEvent) (db : Db)
      → sent_in creator_id time (store_notification mailer deliver id other created_at event db)
        ≡ sent_in creator_id time db
  sent-stored creator_id other id time created_at event db =
      count-snoc (is_sent_in mailer creator_id (hour_of time)) id time
        (tip_notification mailer id other created_at event) db.notifications (ground arith)

  sent-after_delivery :
      (creator_id other id : String) (now created_at : ℕ) (event : TipEvent) (db : Db)
      (outcome : Option Bool)
      → IsNewId id db
      → sent_in creator_id now (
          after_delivery mailer deliver id now outcome
            (store_notification mailer deliver id other created_at event db))
        ≤ suc (sent_in creator_id now db)
  sent-after_delivery creator_id other id now created_at event db none fresh =
      omega (arith, sent-stored creator_id other id now created_at event db)
  sent-after_delivery creator_id other id now created_at event db (some false) fresh =
      omega (arith, sent-stored creator_id other id now created_at event db)
  sent-after_delivery creator_id other id now created_at event db (some true) fresh =
      count-mark (is_sent_in mailer creator_id (hour_of now)) id now
        (tip_notification mailer id other created_at event) db.notifications (eq_refl id)
        (ground arith) fresh

  -- the creator of the jar wants emails at an address that was verified, and gets this one there
  pub record IsAddressed (event : TipEvent) (db : Db) (mail : Email) (creator : Creator)
      : Type 0 where
    pub found : find? (λ c. str_eq c.jar_id event.jar_id) db.creators ≡ some creator
    pub reachable : IsReachable creator mail.to
    pub content : mail ≡ tip_email mailer creator mail.to event
    pub has_key : mailer.has_api_key ≡ true

  nothing : (mail : Email) → none ≡ some mail → ⊥
  nothing mail h = cc

  never_sent : {b : Bool} → b ≡ true → b ≡ false → ⊥
  never_sent h k = cc

  -- an email that went out passed the test
  picked :
      (b : Bool) (m mail : Email) (s t : Db)
      → (if◌then◌else◌ {A = Option Email × Db} b (none, s) (some m, t)).0 ≡ some mail
      → (b ≡ false) × (m ≡ mail)
  picked true m mail s t h = cc
  picked false m mail s t h = (refl, some-injective _ _ h)

  -- what is shown of an email that goes out
  abbrev IsCapped : TipEvent → ℕ → Db → Option Email × Db → Email → Type 0
  IsCapped event now db result mail =
      (creator : Creator) × IsAddressed event db mail creator
      × (sent_in creator.id now db < mailer.max_per_hour)
      × (sent_in creator.id now result.1 ≤ mailer.max_per_hour)

  under_cap-IsCapped :
      (creator : Creator) (email id : String) (created_at now : ℕ) (event : TipEvent) (db : Db)
      (mail : Email)
      → IsNewId id db
      → creator_by_jar event.jar_id db ≡ some creator
      → address_of creator ≡ some email
      → mailer.has_api_key ≡ true
      → let stored = store_notification mailer deliver id creator.id created_at event db in
        let result = send_if_under_cap mailer deliver creator email id now event stored in
        result.0 ≡ some mail → IsCapped event now db result mail
  unfolding tip_email
  under_cap-IsCapped creator email id created_at now event db mail fresh found address key h =
      let stored = store_notification mailer deliver id creator.id created_at event db in
      let same = sent-stored creator.id creator.id id now created_at event db in
      let outcome = deliver (tip_email mailer creator email event) in
      let more =
        sent-after_delivery creator.id creator.id id now created_at event db outcome fresh in
      elim (Bool-cases (leb mailer.max_per_hour (sent_in creator.id now stored))) [
        | inl full ↦ elim (never_sent full (picked _ _ mail stored _ h).0) [ ]
        | inr free ↦
            let to = (picked _ _ mail stored _ h).1 in
            rw free (
              creator,
              subst (λ m. IsAddressed event db m creator) to
                  (record {
                    found = found;
                    reachable = address_of-IsReachable creator email address;
                    content = refl;
                    has_key = key;
                  }),
              ground (arith, free, same),
              ground (arith, free, same, more),
            )
      ]

  with_address-IsCapped :
      (creator : Creator) (usable : Option String) (id : String) (created_at now : ℕ)
      (event : TipEvent) (db : Db) (mail : Email)
      → IsNewId id db
      → creator_by_jar event.jar_id db ≡ some creator
      → address_of creator ≡ usable
      → let stored = store_notification mailer deliver id creator.id created_at event db in
        let result = with_address mailer deliver creator usable id now event stored in
        result.0 ≡ some mail → IsCapped event now db result mail
  with_address-IsCapped creator none id created_at now event db mail fresh found address h = cc
  with_address-IsCapped creator (some email) id created_at now event db mail fresh found address h =
      let stored = store_notification mailer deliver id creator.id created_at event db in
      let sent = send_if_under_cap mailer deliver creator email id now event stored in
      let choose = λ (b : Bool). if◌then◌else◌ {A = Option Email × Db} b sent (none, stored) in
      let P = λ (r : Option Email × Db). r.0 ≡ some mail → IsCapped event now db r mail in
      elim (Bool-cases mailer.has_api_key) [
        | inl key ↦
            subst P (sym (ap choose key))
              (under_cap-IsCapped creator email id created_at now event db mail fresh found address
                key)
              h
        | inr no_key ↦ subst P (sym (ap choose no_key)) (λ e. elim (nothing mail e) [ ]) h
      ]

  notify_creator-IsCapped :
      (o : Option Creator) (id : String) (created_at now : ℕ) (event : TipEvent) (db : Db)
      (mail : Email)
      → IsNewId id db
      → creator_by_jar event.jar_id db ≡ o
      → let result = notify_creator mailer deliver o id created_at now event db in
        result.0 ≡ some mail → IsCapped event now db result mail
  notify_creator-IsCapped none id created_at now event db mail fresh found h = cc
  notify_creator-IsCapped (some creator) id created_at now event db mail fresh found h =
      with_address-IsCapped creator (address_of creator) id created_at now event db mail fresh found
        refl h

  -- the row is for a tip of the creator that came in the same clock hour, and its email was sent
  abbrev pub is_sent_within : String → ℕ → Notification → Bool
  is_sent_within creator_id time n =
      is_some n.sent_at
      && n.created_at / 3600000 == time / 3600000
      && str_eq n.creator_id creator_id
      && (elim n.kind [ tip_received _ ↦ true | webhook_failed _ ↦ false ])

  is_sent_in-lem :
      (creator_id : String) (time : ℕ) (n : Notification)
      → is_sent_in mailer creator_id (hour_of time) n ≡ is_sent_within creator_id time n
  is_sent_in-lem creator_id time n = ground arith

  pub count-sent_in :
      (creator_id : String) (time : ℕ) (rows : List Notification)
      → count_where (is_sent_in mailer creator_id (hour_of time)) rows
        ≡ count_where (is_sent_within creator_id time) rows
  count-sent_in creator_id time [] = refl
  count-sent_in creator_id time (n ∷ rows) =
      rw (is_sent_in-lem creator_id time n, count-sent_in creator_id time rows) refl

  -- how many emails were sent for the creator's tips of the hour
  abbrev pub sent_within : String → ℕ → Db → ℕ
  sent_within creator_id time db = count_where (is_sent_within creator_id time) db.notifications

  -- If an email is handed over for a tip, and its row has a new id: it is the email of the event to the
  -- verified address of the creator of the jar, who has emails on; before it fewer emails than the cap
  -- were sent for the creator's tips of the hour, and after it no more than the cap.
  pub send_tip_notification-IsCapped :
      (id : String) (created_at now : ℕ) (event : TipEvent) (db : Db) (mail : Email)
      → IsNewId id db
      → (send_tip_notification mailer deliver id created_at now event db).0 ≡ some mail
      → (creator : Creator) × IsAddressed event db mail creator
        × (sent_within creator.id now db < mailer.max_per_hour)
        × (sent_within creator.id now
              (send_tip_notification mailer deliver id created_at now event db).1
            ≤ mailer.max_per_hour)
  unfolding send_tip_notification
  send_tip_notification-IsCapped id created_at now event db mail fresh h =
      let (creator, addressed, before, after) =
        notify_creator-IsCapped (creator_by_jar event.jar_id db) id created_at now event db mail
          fresh refl h in
      (
        creator,
        addressed,
        rw (count-sent_in creator.id now db.notifications) at before,
        rw (count-sent_in creator.id now _) at after,
      )
