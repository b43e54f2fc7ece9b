-- ===== src/Tests/Hooks.antt =====
-- The theorems on webhooks at concrete inputs.
use novatip_backend.Prelude.{
  decimal, ℕ, ◌/◌, ◌≤◌, ◌≡◌, ◌≢◌, ◌↔◌, refl, String, true, false, List, [], ◌∷◌, ◌++◌, filter, Bool,
  inl, inr, if◌then◌else◌, ◌||◌, Option, some, codes, any, all, is_digit, ◌==◌, count_where, arith,
  eq_iff, Error, fault, Result, ok, err,
}
use novatip_backend.Store.{tip_received, webhook_failed, Webhook, WebhookDelivery, Db}
use novatip_backend.Tests.{empty_db, creator_with, event_at, webhook_of, delivery_at, notice_at}
use novatip_backend.Webhooks.Queue.{
  Queue, Reach, here, push, settle, queue_delivery, finish, new_queue, process_queue, start_jobs,
  resolve_idle,
}
use novatip_backend.Webhooks.Queue.Laws.{IsServed, Reach-IsServed}
use novatip_backend.Webhooks.Registry.{
  of_creator, create_webhook, set_webhook_enabled, rotate_webhook_secret, delete_webhook,
}
use novatip_backend.Webhooks.Registry.Ownership.{
  webhooks_of, requests_keep_others, create_webhook-within_cap,
}
use novatip_backend.Webhooks.Retention.{
  RetentionConfig, prune_retained_rows, prune_older_than, prune_notifications_older_than,
  prune_batches, cutoff_for,
}
use novatip_backend.Webhooks.Retention.Runs.{
  delivery_outlives, notification_outlives, prune_retained_rows-keeps, prune_retained_rows-exact,
}
use novatip_backend.Webhooks.Delivery.{Response, deliver, dispatch_webhooks}
use novatip_backend.Webhooks.Delivery.Outcome.{
  IsAccepted, is_registered, stored, deliver-success_iff, deliver-delete_webhook,
}
use novatip_backend.Webhooks.Delivery.Targets.{is_target, dispatch_webhooks-targets}
use novatip_backend.Webhooks.Destination.Address.{is_unsafe_ipv4, join_dots}
use novatip_backend.Webhooks.Destination.Ranges.{number, in_range, reserved}
use novatip_backend.Webhooks.Destination.Dotted.{is_unsafe_ipv4-reserved}
use novatip_backend.Webhooks.Destination.Check.{
  not_public, assert_webhook_url_for_registration, Url, normalized_hostname,
  assert_webhook_destination_allowed,
}
use novatip_backend.Webhooks.Destination.Literal.{reserved_address-refused}
use novatip_backend.Webhooks.Destination.Public.{
  IsReserved, assert_webhook_destination_allowed-refuses,
}

abbrev encrypt : String → String
encrypt secret = secret

abbrev allow : String → Result (Unit {0})
allow url = ok tt

abbrev decrypt : String → Result String
decrypt secret = ok secret

abbrev sign : String → String → ℕ → String
sign body secret timestamp = secret

-- a receiver that answers 200
abbrev post : String → String → ℕ → String → Result Response
post url signature timestamp body = ok (record { status = 200; body = ok "fine" })

abbrev describe : Error → String
describe e = "error"

-- the database takes every row
abbrev writable : WebhookDelivery → Bool
writable row = true

abbrev as_read : List Webhook → List Webhook
as_read rows = rows

abbrev hooks : Db
hooks = record empty_db {
  creators = creator_with "c1" "alice" "jar-1" ∷ creator_with "c2" "bobby" "jar-2" ∷ [];
  webhooks = webhook_of "w1" "c1" ∷ webhook_of "w2" "c2" ∷ [];
  webhook_deliveries = delivery_at "d1" true 10 ∷ delivery_at "d2" false 200000000 ∷ [];
  notifications = notice_at "n1" (webhook_failed "w1") 10 ∷ notice_at "n2" (tip_received 5) 20 ∷ [];
}

c1≢c2 : ◌≢◌ {A = String} "c1" "c2"
c1≢c2 e = ground (arith, e, eq_iff "c1" "c2")

-- two jobs on one slot, after the first has settled
abbrev after_first : Queue ℕ
after_first = finish 1 (queue_delivery 1 8 (queue_delivery 1 7 new_queue))

reaches : Reach 1 after_first (7 ∷ 8 ∷ []) 1
unfolding queue_delivery process_queue start_jobs resolve_idle
reaches = settle (push 8 (push 7 here)) (omega arith)

Reach-IsServed_example : IsServed 1 after_first (7 ∷ 8 ∷ []) 1
Reach-IsServed_example = Reach-IsServed 1 reaches

requests_keep_others_example :
    (webhooks_of "c2"
        (create_webhook encrypt allow 5 "w3" 30 "c1" "https://b.test" "0123456789abcdef" hooks).1
      ≡ webhooks_of "c2" hooks)
    × (webhooks_of "c2" (set_webhook_enabled "c1" "w2" false hooks).1 ≡ webhooks_of "c2" hooks)
    × (webhooks_of "c2" (rotate_webhook_secret encrypt allow "c1" "w2" "0123456789abcdef" hooks).1
        ≡ webhooks_of "c2" hooks)
    × (webhooks_of "c2" (delete_webhook "c1" "w2" hooks).1 ≡ webhooks_of "c2" hooks)
requests_keep_others_example =
    requests_keep_others encrypt allow 5 "w3" 30 "c1" "w2" "https://b.test" "0123456789abcdef" "c2"
      false hooks c1≢c2

create_webhook-within_cap_example :
    count_where
      (of_creator "c1")
      (create_webhook encrypt allow 1 "w3" 30 "c1" "https://b.test" "0123456789abcdef"
        hooks).1.webhooks
    ≤ 1
create_webhook-within_cap_example =
    create_webhook-within_cap encrypt allow 1 "w3" 30 "c1" "https://b.test" "0123456789abcdef" hooks
      (omega arith) (omega arith)

abbrev windows : RetentionConfig
windows = record { success_days = 1; failure_days = 2; notification_days = 1; batch_size = 10 }

prune_retained_rows-keeps_example :
    (filter
        (delivery_outlives windows 200000000)
        (prune_retained_rows windows 200000000 hooks).1.webhook_deliveries
      ≡ filter (delivery_outlives windows 200000000) hooks.webhook_deliveries)
    × (filter
          (notification_outlives windows 200000000)
          (prune_retained_rows windows 200000000 hooks).1.notifications
        ≡ filter (notification_outlives windows 200000000) hooks.notifications)
prune_retained_rows-keeps_example =
    prune_retained_rows-keeps windows 200000000 hooks (omega arith) refl refl

prune_retained_rows-exact_example :
    ((prune_retained_rows windows 200000000 hooks).1.webhook_deliveries
      ≡ filter (delivery_outlives windows 200000000) hooks.webhook_deliveries)
    × ((prune_retained_rows windows 200000000 hooks).1.notifications
        ≡ filter (notification_outlives windows 200000000) hooks.notifications)
unfolding prune_retained_rows prune_older_than prune_notifications_older_than prune_batches
    cutoff_for
prune_retained_rows-exact_example =
    prune_retained_rows-exact windows 200000000 hooks (omega arith) refl refl (omega arith) refl

deliver-success_iff_example :
    ((deliver allow decrypt sign post describe writable "d3" 5000
        (webhook_of "w1" "c1")
        "{}"
        hooks).0.success
      ≡ true)
    ↔ ((writable
            (stored allow decrypt sign post describe writable "d3" 5000 (webhook_of "w1" "c1") "{}")
          ≡ true)
        × (is_registered "w1" hooks ≡ true)
        × IsAccepted allow decrypt sign post describe writable
            (5000 / 1000)
            (webhook_of "w1" "c1")
            "{}")
deliver-success_iff_example =
    deliver-success_iff allow decrypt sign post describe writable "d3" 5000 (webhook_of "w1" "c1")
      "{}" hooks

deliver-delete_webhook_example :
    delete_webhook "c1" "w1"
      (deliver allow decrypt sign post describe writable "d3" 5000
        (webhook_of "w1" "c1")
        "{}"
        hooks).1
    ≡ (
      err (fault "P2003"),
      (deliver allow decrypt sign post describe writable "d3" 5000
          (webhook_of "w1" "c1")
          "{}"
          hooks).1,
    )
deliver-delete_webhook_example =
    deliver-delete_webhook allow decrypt sign post describe writable "d3" 5000
      (webhook_of "w1" "c1") "{}" "c1" hooks refl refl

dispatch_webhooks-targets_example :
    (dispatch_webhooks 1 as_read (event_at "a" 10) hooks new_queue).started
      ++ (dispatch_webhooks 1 as_read (event_at "a" 10) hooks new_queue).waiting
    ≡ as_read (filter (is_target (event_at "a" 10) hooks) hooks.webhooks)
dispatch_webhooks-targets_example =
    dispatch_webhooks-targets 1 as_read refl (event_at "a" 10) hooks new_queue refl

-- texts of digits and dots as addresses
abbrev version_of : List ℕ → ℕ
version_of t = if all (λ c. is_digit c || c == b'.') t then 4 else 0

abbrev hooks_url : String → Option Url
hooks_url raw_url = some (record { protocol = "https:"; hostname = codes "Hooks.Test." })

abbrev resolved_to : List ℕ → Result (List (List ℕ))
resolved_to host = ok (codes "93.184.216.34" ∷ codes "10.0.0.7" ∷ [])

private_host : IsReserved version_of (codes "10.0.0.7")
unfolding decimal
private_host = record {
  a = 10;
  b = 0;
  c = 0;
  d = 7;
  bytes = (omega arith, omega arith, omega arith, omega arith);
  text = refl;
  known = refl;
  reserves = refl;
}

is_unsafe_ipv4-reserved_example :
    is_unsafe_ipv4 (join_dots (198 ∷ 19 ∷ 2 ∷ 3 ∷ [])) ≡ any (in_range (number 198 19 2 3)) reserved
is_unsafe_ipv4-reserved_example =
    is_unsafe_ipv4-reserved 198 19 2 3 (omega arith) (omega arith) (omega arith) (omega arith)

assert_webhook_destination_allowed-refuses_example :
    (e : Error) × (assert_webhook_destination_allowed version_of hooks_url false resolved_to
        "https://h.test/in"
      ≡ err e)
unfolding normalized_hostname
assert_webhook_destination_allowed-refuses_example =
    assert_webhook_destination_allowed-refuses version_of hooks_url resolved_to "https://h.test/in"
      (record { protocol = "https:"; hostname = codes "Hooks.Test." }) (codes "10.0.0.7")
      (codes "93.184.216.34" ∷ codes "10.0.0.7" ∷ []) refl refl refl (inr (inl refl)) private_host

abbrev private_url : String → Option Url
private_url raw_url = some (record { protocol = "https:"; hostname = codes "10.0.0.7" })

reserved_address-refused_example :
    (assert_webhook_destination_allowed version_of private_url false resolved_to "https://10.0.0.7/"
      ≡ err not_public)
    × (assert_webhook_url_for_registration version_of private_url false "https://10.0.0.7/"
        ≡ err not_public)
reserved_address-refused_example =
    reserved_address-refused version_of private_url resolved_to "https://10.0.0.7/"
      (record { protocol = "https:"; hostname = codes "10.0.0.7" }) refl refl private_host
