-- ===== src/Webhooks/Queue.antt =====
-- The delivery queue of src/modules/webhooks/webhooks.service.ts: its module variables are the state,
-- and each function that the event loop calls is a step. A job's promise settles in `finish`, which
-- is the callback that `processDeliveryQueue` puts into `finally`.
pub mod Laws
use novatip_backend.Prelude.{
  ℕ, suc, zero, ◌+◌, ◌-◌, ◌≤◌, ◌<◌, ◌≡◌, Bool, true, false, ◌&&◌, List, [], ◌∷◌, ◌++◌, ltb, ◌==◌,
  if◌then◌else◌, length,
}

pub record Queue (Job : Type 0) : Type 0 where
  -- `deliveryQueue`
  pub waiting : List Job
  pub active_deliveries : ℕ
  pub active_dispatches : ℕ
  -- how many promises of `drainWebhookDeliveries` are in `deliveryQueueIdleWaiters`
  pub idle_waiters : ℕ
  -- the jobs whose `run` was called, oldest first
  pub started : List Job

abbrev pub is_empty {ℓ} : {A : Type ℓ} → List A → Bool
is_empty [] = true
is_empty (_ ∷ _) = false

module _ {Job : Type 0} where
  abbrev pub is_idle : Queue Job → Bool
  is_idle q = q.active_dispatches == 0 && q.active_deliveries == 0 && is_empty q.waiting

  -- `splice(0)` takes all waiters out, and each is resolved
  unfoldable pub resolve_idle : Queue Job → Queue Job
  resolve_idle q = if is_idle q then record q { idle_waiters = 0 } else q

  -- the `while` loop of `processDeliveryQueue`; what it starts is appended to `started`
  unfoldable pub start_jobs : ℕ → List Job → ℕ → List Job → List Job × ℕ × List Job
  start_jobs concurrency [] active started = ([], active, started)
  start_jobs concurrency (job ∷ waiting) active started =
      let rest = start_jobs concurrency waiting (active + 1) (started ++ job ∷ []) in
      if ltb active concurrency then rest else (job ∷ waiting, active, started)

  unfoldable pub process_queue : ℕ → Queue Job → Queue Job
  unfolding start_jobs resolve_idle
  process_queue concurrency q =
      let (waiting, active, started) =
        start_jobs concurrency q.waiting q.active_deliveries q.started in
      resolve_idle (record q { waiting = waiting; active_deliveries = active; started = started })

  unfoldable pub queue_delivery : ℕ → Job → Queue Job → Queue Job
  unfolding process_queue
  queue_delivery concurrency job q =
      process_queue concurrency (record q { waiting = q.waiting ++ job ∷ [] })

  -- the callback when a started job settles
  unfoldable pub finish : ℕ → Queue Job → Queue Job
  unfolding process_queue resolve_idle
  finish concurrency q =
      resolve_idle
        (process_queue concurrency (record q { active_deliveries = q.active_deliveries - 1 }))

  -- `enqueueWebhookDispatch`, up to its first wait, and the callback when the dispatch settles
  unfoldable pub begin_dispatch : Queue Job → Queue Job
  begin_dispatch q = record q { active_dispatches = q.active_dispatches + 1 }

  unfoldable pub end_dispatch : Queue Job → Queue Job
  unfolding resolve_idle
  end_dispatch q = resolve_idle (record q { active_dispatches = q.active_dispatches - 1 })

  -- a drain of an idle queue resolves at once; any other adds a waiter
  unfoldable pub drain : Queue Job → Queue Job
  drain q = if is_idle q then q else record q { idle_waiters = q.idle_waiters + 1 }

  -- what the event loop may do next, besides queueing and settling jobs
  pub data Step : Queue Job → Queue Job → Type 0 where
    dispatched : (q : Queue Job) → Step q (begin_dispatch q)
    dispatch_ended : (q : Queue Job) → 0 < q.active_dispatches → Step q (end_dispatch q)
    drained : (q : Queue Job) → Step q (drain q)

  abbrev pub new_queue : Queue Job
  new_queue = record {
    waiting = [];
    active_deliveries = 0;
    active_dispatches = 0;
    idle_waiters = 0;
    started = [];
  }

  -- The states that a server can get to, with the jobs that were queued on the way, oldest first, and
  -- how many of the jobs that were started have settled. A job settles only if one runs.
  pub data Reach (concurrency : ℕ) : Queue Job → List Job → ℕ → Type 0 where
    here : Reach concurrency new_queue [] 0
    push :
        {q : Queue Job} {jobs : List Job} {settled : ℕ} (job : Job)
        → Reach concurrency q jobs settled
        → Reach concurrency (queue_delivery concurrency job q) (jobs ++ job ∷ []) settled
    settle :
        {q : Queue Job} {jobs : List Job} {settled : ℕ}
        → Reach concurrency q jobs settled
        → settled < length q.started
        → Reach concurrency (finish concurrency q) jobs (suc settled)
    move :
        {q r : Queue Job} {jobs : List Job} {settled : ℕ}
        → Reach concurrency q jobs settled
        → Step q r
        → Reach concurrency r jobs settled
