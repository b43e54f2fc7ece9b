-- ===== src/Webhooks/Retention.antt =====
-- src/modules/webhooks/retention.ts: the deletion of old deliveries and notifications in batches. A
-- page without an order is modelled as the first rows of the table. The timer is not modelled.
pub mod Batches
pub mod Runs
use novatip_backend.Prelude.{
  ℕ, zero, suc, ◌+◌, ◌-◌, ◌*◌, String, Bool, true, false, ◌&&◌, ◌||◌, not, List, any, filter, take,
  length, count_where, ltb, ◌==◌, str_eq, if◌then◌else◌,
}
use novatip_backend.Store.{WebhookDelivery, Notification, Db}

abbrev pub ms_per_day : ℕ
ms_per_day = 24 * 60 * 60 * 1000

abbrev pub max_batches_per_run : ℕ
max_batches_per_run = 50

-- a date before 1970 is 0: no row is older than either
unfoldable pub cutoff_for : ℕ → ℕ → ℕ
cutoff_for days now = now - days * ms_per_day

-- what a loop of deletions did, and the rows that it left
pub record Pruned (A : Type 0) : Type 0 where
  pub deleted : ℕ
  pub batches_used : ℕ
  pub done : Bool
  pub rows : List A

module _ {A : Type 0} (id : A → String) (expired : A → Bool) where
  -- `id: { in: page.map((row) => row.id) }`
  abbrev pub in_page : List A → A → Bool
  in_page page row = any (λ r. str_eq (id r) (id row)) page

  -- the loop of both functions, with the batches that are left
  unfoldable pub prune_batches : ℕ → ℕ → List A → Pruned A
  prune_batches batch_size zero rows = record {
    deleted = 0;
    batches_used = 0;
    done = false;
    rows = rows;
  }
  prune_batches batch_size (suc batches) rows =
      let page = take batch_size (filter expired rows) in
      let count = count_where (in_page page) rows in
      let left = filter (λ row. not (in_page page row)) rows in
      let rest = prune_batches batch_size batches left in
      if length page == 0
      then record { deleted = 0; batches_used = 0; done = true; rows = rows }
      else if ltb (length page) batch_size
      then record { deleted = count; batches_used = 1; done = true; rows = left }
      else record {
        deleted = count + rest.deleted;
        batches_used = suc rest.batches_used;
        done = rest.done;
        rows = rest.rows;
      }

abbrev pub is_old_delivery : Bool → ℕ → WebhookDelivery → Bool
is_old_delivery true cutoff d = d.success && ltb d.attempted_at cutoff
is_old_delivery false cutoff d = not d.success && ltb d.attempted_at cutoff

abbrev pub is_old_notification : ℕ → Notification → Bool
is_old_notification cutoff n = ltb n.created_at cutoff

unfoldable pub prune_older_than : Bool → ℕ → ℕ → ℕ → List WebhookDelivery → Pruned WebhookDelivery
prune_older_than success cutoff batch_size max_batches rows =
    prune_batches (λ d. d.id) (is_old_delivery success cutoff) batch_size max_batches rows

unfoldable pub prune_notifications_older_than : ℕ → ℕ → ℕ → List Notification → Pruned Notification
prune_notifications_older_than cutoff batch_size max_batches rows =
    prune_batches (λ n. n.id) (is_old_notification cutoff) batch_size max_batches rows

-- `config.webhooks.retention` and `config.notifications.retentionDays`
pub record RetentionConfig : Type 0 where
  pub success_days : ℕ
  pub failure_days : ℕ
  pub notification_days : ℕ
  pub batch_size : ℕ

unfoldable pub retention_enabled : RetentionConfig → Bool
retention_enabled c = ltb 0 c.success_days || ltb 0 c.failure_days || ltb 0 c.notification_days

pub record PruneResult : Type 0 where
  pub deleted_successes : ℕ
  pub deleted_failures : ℕ
  pub deleted_notifications : ℕ
  pub truncated : Bool

-- a pass whose window is off, or that has no batch left, does nothing and is not truncated
abbrev pub skipped : {A : Type 0} → List A → Pruned A
skipped rows = record { deleted = 0; batches_used = 0; done = true; rows = rows }

abbrev pub prune_deliveries : Bool → ℕ → ℕ → ℕ → ℕ → List WebhookDelivery → Pruned WebhookDelivery
prune_deliveries success days now batch_size budget rows =
    if ltb 0 days && ltb 0 budget
    then prune_older_than success (cutoff_for days now) batch_size budget rows
    else skipped rows

abbrev pub prune_notifications : ℕ → ℕ → ℕ → ℕ → List Notification → Pruned Notification
prune_notifications days now batch_size budget rows =
    if ltb 0 days
    then prune_notifications_older_than (cutoff_for days now) batch_size budget rows
    else skipped rows

unfoldable pub prune_retained_rows : RetentionConfig → ℕ → Db → PruneResult × Db
prune_retained_rows c now db =
    let successes =
      prune_deliveries true c.success_days now c.batch_size max_batches_per_run
        db.webhook_deliveries in
    let budget = max_batches_per_run - successes.batches_used in
    let failures = prune_deliveries false c.failure_days now c.batch_size budget successes.rows in
    let notifications =
      prune_notifications c.notification_days now c.batch_size max_batches_per_run
        db.notifications in
    (
      record {
        deleted_successes = successes.deleted;
        deleted_failures = failures.deleted;
        deleted_notifications = notifications.deleted;
        truncated = not successes.done || not failures.done || not notifications.done;
      },
      record db { webhook_deliveries = failures.rows; notifications = notifications.rows },
    )
