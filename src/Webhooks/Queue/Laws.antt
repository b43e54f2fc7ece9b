-- ===== src/Webhooks/Queue/Laws.antt =====
-- The bound, the order and the progress of the delivery queue.
use novatip_backend.Prelude.{
  ℕ, ◌+◌, ◌-◌, ◌≤◌, ◌≡◌, refl, sym, ◌∙◌, ap, ◌⊎◌, inl, inr, true, false, List, [], ◌∷◌, ◌++◌, arith,
  ltb, Bool-cases, suc, ◌<◌, false, length, length-append,
}
use mathlib.Core.List.{append_assoc}
use novatip_backend.Webhooks.Queue.{
  Queue, is_empty, is_idle, resolve_idle, start_jobs, process_queue, queue_delivery, finish,
  begin_dispatch, end_dispatch, drain, Step, dispatched, dispatch_ended, drained, Reach, here, push,
  settle, move,
}

module _ {Job : Type 0} (concurrency : ℕ) where
  -- the bound holds, no job waits while there is room, and nobody waits for an idle queue
  pub record IsSound (q : Queue Job) : Type 0 where
    pub bound : q.active_deliveries ≤ concurrency
    pub full_or_empty : (is_empty q.waiting ≡ true) ⊎ (q.active_deliveries ≡ concurrency)
    pub woken : (is_idle q ≡ false) ⊎ (q.idle_waiters ≡ 0)

  start_jobs_lem :
      (waiting : List Job) (active : ℕ) (started : List Job)
      → active ≤ concurrency
      → ((start_jobs concurrency waiting active started).1 ≤ concurrency)
        × ((is_empty (start_jobs concurrency waiting active started).0 ≡ true)
            ⊎ ((start_jobs concurrency waiting active started).1 ≡ concurrency))
  unfolding start_jobs
  start_jobs_lem [] active started h = (h, inl refl)
  start_jobs_lem (job ∷ waiting) active started h = elim (Bool-cases (ltb active concurrency)) [
    | inl room ↦ rw room (start_jobs_lem waiting (active + 1) (started ++ job ∷ []) (ground arith))
    | inr full ↦ rw full (h, inr (ground arith))
  ]

  start_jobs-order :
      (waiting : List Job) (active : ℕ) (started : List Job)
      → (start_jobs concurrency waiting active started).2
          ++ (start_jobs concurrency waiting active started).0
        ≡ started ++ waiting
  unfolding start_jobs
  start_jobs-order [] active started = refl
  start_jobs-order (job ∷ waiting) active started = elim (Bool-cases (ltb active concurrency)) [
    | inl room ↦ rw room (
        start_jobs-order waiting (active + 1) (started ++ job ∷ [])
        ∙ append_assoc started (job ∷ []) waiting)
    | inr full ↦ rw full refl
  ]

  resolve_idle-IsSound :
      (q : Queue Job)
      → q.active_deliveries ≤ concurrency
      → (is_empty q.waiting ≡ true) ⊎ (q.active_deliveries ≡ concurrency)
      → IsSound (resolve_idle q)
  unfolding resolve_idle
  resolve_idle-IsSound q h k = elim (Bool-cases (is_idle q)) [
    | inl idle ↦ rw idle (record { bound = h; full_or_empty = k; woken = inr refl })
    | inr busy ↦ rw busy (record { bound = h; full_or_empty = k; woken = inl busy })
  ]

  process_queue-IsSound :
      (q : Queue Job) → q.active_deliveries ≤ concurrency → IsSound (process_queue concurrency q)
  unfolding process_queue
  process_queue-IsSound q h =
      let (bound, full) = start_jobs_lem q.waiting q.active_deliveries q.started h in
      resolve_idle-IsSound _ bound full

  finish-IsSound : (q : Queue Job) → IsSound q → IsSound (finish concurrency q)
  unfolding finish
  finish-IsSound q s =
      let t =
        process_queue-IsSound (record q { active_deliveries = q.active_deliveries - 1 })
          (omega (arith, s.bound)) in
      resolve_idle-IsSound _ t.bound t.full_or_empty

  Step-IsSound : {q r : Queue Job} → Step q r → IsSound q → IsSound r
  unfolding begin_dispatch end_dispatch drain
  Step-IsSound (dispatched q) s = record {
    bound = s.bound;
    full_or_empty = s.full_or_empty;
    woken = inl (ground arith);
  }
  Step-IsSound (dispatch_ended q h) s = resolve_idle-IsSound _ s.bound s.full_or_empty
  Step-IsSound (drained q) s = elim (Bool-cases (is_idle q)) [
    | inl idle ↦ rw idle s
    | inr busy ↦
        rw busy (record { bound = s.bound; full_or_empty = s.full_or_empty; woken = inl busy })
  ]

  -- the jobs of a queue, in the order in which they start
  abbrev pub jobs_of : Queue Job → List Job
  jobs_of q = q.started ++ q.waiting

  jobs_of-resolve_idle : (q : Queue Job) → jobs_of (resolve_idle q) ≡ jobs_of q
  unfolding resolve_idle
  jobs_of-resolve_idle q = elim (Bool-cases (is_idle q)) [
    | inl idle ↦ rw idle refl
    | inr busy ↦ rw busy refl
  ]

  pub jobs_of-process_queue : (q : Queue Job) → jobs_of (process_queue concurrency q) ≡ jobs_of q
  unfolding process_queue
  jobs_of-process_queue q =
      let (waiting, active, started) =
        start_jobs concurrency q.waiting q.active_deliveries q.started in
      jobs_of-resolve_idle
        (record q { waiting = waiting; active_deliveries = active; started = started })
      ∙ start_jobs-order q.waiting q.active_deliveries q.started

  jobs_of-finish : (q : Queue Job) → jobs_of (finish concurrency q) ≡ jobs_of q
  unfolding finish
  jobs_of-finish q =
      let vacated = record q { active_deliveries = q.active_deliveries - 1 } in
      jobs_of-resolve_idle (process_queue concurrency vacated) ∙ jobs_of-process_queue vacated

  jobs_of-Step : {q r : Queue Job} → Step q r → jobs_of r ≡ jobs_of q
  unfolding begin_dispatch end_dispatch drain
  jobs_of-Step (dispatched q) = refl
  jobs_of-Step (dispatch_ended q h) =
      jobs_of-resolve_idle (record q { active_dispatches = q.active_dispatches - 1 })
  jobs_of-Step (drained q) = elim (Bool-cases (is_idle q)) [
    | inl idle ↦ rw idle refl
    | inr busy ↦ rw busy refl
  ]

  Reach-IsSound :
      {q : Queue Job} {jobs : List Job} {settled : ℕ} → Reach concurrency q jobs settled → IsSound q
  unfolding queue_delivery
  Reach-IsSound here = record { bound = omega arith; full_or_empty = inl refl; woken = inr refl }
  Reach-IsSound (push {q} job r) =
      process_queue-IsSound (record q { waiting = q.waiting ++ job ∷ [] }) (Reach-IsSound r).bound
  Reach-IsSound (settle {q} r h) = finish-IsSound q (Reach-IsSound r)
  Reach-IsSound (move r st) = Step-IsSound st (Reach-IsSound r)

  -- `active_deliveries` is the number of the jobs that run
  Counts : Queue Job → ℕ → Type 0
  Counts q settled = length q.started ≡ settled + q.active_deliveries

  start_jobs-count :
      (waiting : List Job) (active : ℕ) (started : List Job)
      → length (start_jobs concurrency waiting active started).2 + active
        ≡ length started + (start_jobs concurrency waiting active started).1
  unfolding start_jobs
  start_jobs-count [] active started = refl
  start_jobs-count (job ∷ waiting) active started = elim (Bool-cases (ltb active concurrency)) [
    | inl room ↦ rw room (
        omega (
          arith,
          start_jobs-count waiting (active + 1) (started ++ job ∷ []),
          length-append started (job ∷ []),
        ))
    | inr full ↦ rw full refl
  ]

  resolve_idle-Counts :
      (q : Queue Job) (settled : ℕ) → Counts q settled → Counts (resolve_idle q) settled
  unfolding Counts resolve_idle
  resolve_idle-Counts q settled h = elim (Bool-cases (is_idle q)) [
    | inl idle ↦ rw idle h
    | inr busy ↦ rw busy h
  ]

  process_queue-Counts :
      (q : Queue Job) (settled : ℕ)
      → Counts q settled
      → Counts (process_queue concurrency q) settled
  unfolding process_queue Counts
  process_queue-Counts q settled h =
      let (waiting, active, started) =
        start_jobs concurrency q.waiting q.active_deliveries q.started in
      resolve_idle-Counts
        (record q { waiting = waiting; active_deliveries = active; started = started }) settled
        (omega (arith, h, start_jobs-count q.waiting q.active_deliveries q.started))

  finish-Counts :
      (q : Queue Job) (settled : ℕ)
      → settled < length q.started
      → Counts q settled
      → Counts (finish concurrency q) (suc settled)
  unfolding finish Counts
  finish-Counts q settled runs h = resolve_idle-Counts _ (suc settled) (
      process_queue-Counts (record q { active_deliveries = q.active_deliveries - 1 }) (suc settled)
        (omega (arith, h, runs)))

  Step-Counts : {q r : Queue Job} (settled : ℕ) → Step q r → Counts q settled → Counts r settled
  unfolding begin_dispatch end_dispatch drain Counts
  Step-Counts settled (dispatched q) h = h
  Step-Counts settled (dispatch_ended q k) h = resolve_idle-Counts _ settled h
  Step-Counts settled (drained q) h = elim (Bool-cases (is_idle q)) [
    | inl idle ↦ rw idle h
    | inr busy ↦ rw busy h
  ]

  Reach-Counts :
      {q : Queue Job} {jobs : List Job} {settled : ℕ}
      → Reach concurrency q jobs settled
      → Counts q settled
  unfolding queue_delivery Counts
  Reach-Counts here = refl
  Reach-Counts (push {q = q} {settled = settled} job r) =
      process_queue-Counts (record q { waiting = q.waiting ++ job ∷ [] }) settled (Reach-Counts r)
  Reach-Counts (settle {q = q} {settled = settled} r h) = finish-Counts q settled h (Reach-Counts r)
  Reach-Counts (move {settled = settled} r st) = Step-Counts settled st (Reach-Counts r)

  Reach-order :
      {q : Queue Job} {jobs : List Job} {settled : ℕ}
      → Reach concurrency q jobs settled
      → jobs_of q ≡ jobs
  unfolding queue_delivery
  Reach-order here = refl
  Reach-order (push {q} job r) =
      jobs_of-process_queue (record q { waiting = q.waiting ++ job ∷ [] })
      ∙ sym (append_assoc q.started q.waiting (job ∷ []))
      ∙ ap (λ xs. xs ++ job ∷ []) (Reach-order r)
  Reach-order (settle {q} r h) = jobs_of-finish q ∙ Reach-order r
  Reach-order (move r st) = jobs_of-Step st ∙ Reach-order r

  -- what holds of a queue in which so many of the started jobs have settled
  pub record IsServed (q : Queue Job) (jobs : List Job) (settled : ℕ) : Type 0 where
    pub bound : length q.started ≤ settled + concurrency
    pub full_or_empty : (is_empty q.waiting ≡ true) ⊎ (length q.started ≡ settled + concurrency)
    pub woken :
        (0 < q.active_dispatches)
        ⊎ (settled < length q.started)
        ⊎ (is_empty q.waiting ≡ false)
        ⊎ (q.idle_waiters ≡ 0)
    pub order : q.started ++ q.waiting ≡ jobs

  someone_wakes :
      (q : Queue Job) (settled : ℕ)
      → Counts q settled
      → (is_idle q ≡ false) ⊎ (q.idle_waiters ≡ 0)
      → (0 < q.active_dispatches)
        ⊎ (settled < length q.started)
        ⊎ (is_empty q.waiting ≡ false)
        ⊎ (q.idle_waiters ≡ 0)
  unfolding Counts
  someone_wakes q settled h w = ground (arith, h, w)

  -- In every state of the delivery queue: at most the configured number of the jobs that were started
  -- has not settled; a job waits only while that many run; somebody waits for the queue to be idle
  -- only while a dispatch or a job runs or a job waits; and the jobs were started in the order in
  -- which they were queued, those that wait being the last.
  pub Reach-IsServed :
      {q : Queue Job} {jobs : List Job} {settled : ℕ}
      → Reach concurrency q jobs settled
      → IsServed q jobs settled
  unfolding Counts
  Reach-IsServed {q} {jobs} {settled} r =
      let sound = Reach-IsSound r in
      let counts = Reach-Counts r in
      record {
        bound = omega (arith, counts, sound.bound);
        full_or_empty = elim sound.full_or_empty [
          | inl e ↦ inl e
          | inr f ↦ inr (omega (arith, counts, f))
        ];
        woken = someone_wakes q settled counts sound.woken;
        order = Reach-order r;
      }
