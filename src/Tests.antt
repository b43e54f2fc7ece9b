-- ===== src/Tests.antt =====
-- Data for the examples that the modules below apply the theorems to.
pub mod Indexing
pub mod Slugs
pub mod Hooks
pub mod Platforms
pub mod Pages
pub mod Reports
pub mod Access
pub mod Mails
use novatip_backend.Prelude.{ℕ, String, Bool, true, false, Option, none, some, List, []}
use novatip_backend.Store.{
  Creator, splits_json, Tip, Webhook, WebhookDelivery, Notification, NotificationKind, tip_received,
  webhook_failed, Db,
}
use novatip_backend.Indexer.Persist.{TipEvent}

abbrev pub empty_db : Db
empty_db = record {
  creators = [];
  released_slugs = [];
  tips = [];
  webhooks = [];
  webhook_deliveries = [];
  notifications = [];
  indexer_cursor = none;
}

abbrev pub creator_with : String → String → String → Creator
creator_with id slug jar_id = record {
  id = id;
  wallet_address = "G";
  slug = slug;
  display_name = none;
  bio = none;
  avatar_url = none;
  email = none;
  email_verified_at = none;
  email_enabled = true;
  webhook_enabled = true;
  jar_id = jar_id;
  splits = splits_json [];
  created_at = 1;
}

abbrev pub event_at : String → ℕ → TipEvent
event_at tx_hash ledger = record {
  tx_hash = tx_hash;
  ledger = ledger;
  timestamp = 1000;
  jar_id = "jar-1";
  from_address = "G1";
  amount = 5;
  message = "hi";
}

abbrev pub tip_with : String → String → ℕ → Bool → Tip
tip_with id tx_hash ledger_at hidden = record {
  id = id;
  tx_hash = tx_hash;
  ledger = 1;
  ledger_at = ledger_at;
  from_address = "G1";
  amount = 5;
  message = "hi";
  message_hidden = hidden;
  jar_id = some "jar-1";
  creator_id = some "c1";
  created_at = 1;
}

abbrev pub webhook_of : String → String → Webhook
webhook_of id creator_id = record {
  id = id;
  creator_id = creator_id;
  url = "https://a.test";
  secret = "s";
  enabled = true;
  created_at = 1;
}

abbrev pub delivery_at : String → Bool → ℕ → WebhookDelivery
delivery_at id success attempted_at = record {
  id = id;
  webhook_id = "w1";
  status_code = none;
  success = success;
  response = none;
  attempted_at = attempted_at;
}

abbrev pub notice_at : String → NotificationKind → ℕ → Notification
notice_at id kind created_at = record {
  id = id;
  creator_id = "c1";
  kind = kind;
  sent_at = none;
  read_at = none;
  created_at = created_at;
}
