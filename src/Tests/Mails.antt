-- ===== src/Tests/Mails.antt =====
-- The theorems on emails at concrete inputs.
use novatip_backend.Prelude.{
  if◌then◌else◌, ltb, none, ◌≡◌, ◌≤◌, ◌<◌, refl, Bool, true, Option, some, [], ◌∷◌, decimal,
}
use novatip_backend.Indexer.Persist.{TipEvent}
use novatip_backend.Store.{Creator, tip_received, Db}
use novatip_backend.Tests.{empty_db, creator_with, event_at, notice_at}
use novatip_backend.Emails.Tip.{Email, Mailer, address_of, tip_email, send_tip_notification}
use novatip_backend.Emails.Tip.Exact.{with_row, send_tip_notification-exact}
use novatip_backend.Emails.Tip.Cap.{IsAddressed, sent_within, send_tip_notification-IsCapped}
use novatip_backend.Emails.Digest.{send_pending_tip_digests}
use novatip_backend.Emails.Digest.Once.{IsRun, send_pending_tip_digests-IsRun}

abbrev mailer : Mailer
mailer = record {
  has_api_key = true;
  max_per_hour = 2;
  app_base_url = "https://a.test";
  format_usdc = decimal;
}

abbrev reachable : Creator
reachable = record (creator_with "c1" "alice" "jar-1") {
  email = some "a@a.test";
  email_verified_at = some 1;
}

abbrev noticed : Db
noticed = record empty_db {
  creators = reachable ∷ [];
  notifications = notice_at "n1" (tip_received 5) 10 ∷ notice_at "n2" (tip_received 6) 3600020 ∷ [];
}

abbrev accepted : Email → Option Bool
accepted email = some true

abbrev mail : Email
mail = tip_email mailer reachable "a@a.test" (event_at "x9" 7)

send_tip_notification-IsCapped_example :
    (creator : Creator) × IsAddressed mailer accepted (event_at "x9" 7) noticed mail creator
    × (sent_within mailer accepted creator.id 3600040 noticed < 2)
    × (sent_within mailer accepted creator.id 3600040
          (send_tip_notification mailer accepted "n3" 3600030 3600040 (event_at "x9" 7) noticed).1
        ≤ 2)
unfolding send_tip_notification address_of tip_email
send_tip_notification-IsCapped_example =
    send_tip_notification-IsCapped mailer accepted "n3" 3600030 3600040 (event_at "x9" 7) noticed
      mail refl refl

send_pending_tip_digests-IsRun_example :
    IsRun mailer
      (λ t. "")
      accepted
      3600040
      noticed
      (send_pending_tip_digests mailer (λ t. "") accepted 3600040 noticed)
send_pending_tip_digests-IsRun_example =
    send_pending_tip_digests-IsRun mailer (λ t. "") accepted 3600040 noticed

abbrev tipped : Creator → TipEvent → Db → Option Email × Db
tipped creator event db =
    if ltb (sent_within mailer accepted creator.id 3600040 db) 2
    then (
      some (tip_email mailer creator "a@a.test" event),
      with_row mailer accepted "n3" 3600030 3600040 event db creator.id (some 3600040),
    )
    else (none, with_row mailer accepted "n3" 3600030 3600040 event db creator.id none)

send_tip_notification-exact_example :
    send_tip_notification mailer accepted "n3" 3600030 3600040 (event_at "x9" 7) noticed
    ≡ tipped reachable (event_at "x9" 7) noticed
send_tip_notification-exact_example =
    send_tip_notification-exact mailer accepted "n3" 3600030 3600040 (event_at "x9" 7) noticed
      reachable "a@a.test" refl (record { enabled = refl; verified = refl; address = refl }) refl
      refl refl
