-- ===== src/Indexer/Poll/Resume.antt =====
-- The cursor row never runs ahead of the loop, so that a restart skips nothing; and what a run of
-- turns, stopped and restarted, has stored.
use novatip_backend.Prelude.{
  ℕ, ◌-◌, ◌≤◌, ◌<◌, ◌≡◌, refl, ap, ◌∙◌, ◌⊎◌, inl, inr, Option, none, some, List, [], ◌∷◌, arith, In,
}
use novatip_backend.Store.{Db}
use novatip_backend.Indexer.Cursor.{plan_batch, plan_idle_advance}
use novatip_backend.Indexer.Cursor.Batch.{plan_batch-progress}
use novatip_backend.Indexer.Cursor.Idle.{plan_idle_advance_iff}
use novatip_backend.Indexer.Persist.{TipEvent, read_cursor}
use novatip_backend.Indexer.Poll.{
  LoopState, Turn, process, settle, poll, run_turns, run_loop_start, initial_start_ledger,
  advance_idle, process_batch, observed_head, note_idle_check,
}
use novatip_backend.Indexer.Poll.Cover.{Keeps, process_batch-moves, advance_idle-moves}
use novatip_backend.Indexer.Poll.Complete.{
  IsHonest, IsCovered, note_idle_check-frame, settle-frame, poll-IsCovered,
}

-- a restart would begin at or before the ledger from which the loop goes on
abbrev pub IsResumable : ℕ → LoopState → Type 0
IsResumable configured s = initial_start_ledger s.db configured ≤ s.start_ledger

IsResumable-cursor :
    (configured : ℕ) (s t : LoopState)
    → IsResumable configured s
    → s.start_ledger < t.start_ledger
    → (t.db.indexer_cursor ≡ s.db.indexer_cursor)
      ⊎ (t.db.indexer_cursor ≡ some (t.start_ledger - 1))
    → IsResumable configured t
unfolding initial_start_ledger read_cursor
IsResumable-cursor configured s t h lt c = ground arith

Keeps-IsResumable :
    (configured : ℕ) (s t : LoopState)
    → Keeps s t
    → IsResumable configured s
    → IsResumable configured t
unfolding initial_start_ledger read_cursor
Keeps-IsResumable configured s t k h = ground (arith, k.start, k.cursor)

process-IsResumable :
    (turn : Turn) (poll_limit configured : ℕ) (head : Option ℕ) (batch : Option (List TipEvent))
    (s : LoopState)
    → ((events : List TipEvent) (x : TipEvent)
        → batch ≡ some events
        → In x events
        → s.start_ledger ≤ x.ledger)
    → IsResumable configured s
    → IsResumable configured (process turn poll_limit head batch s).1
unfolding process
process-IsResumable turn poll_limit configured head none s from h = h
process-IsResumable turn poll_limit configured head (some []) s from h =
    let plan = plan_idle_advance head s.start_ledger s.persisted_cursor in
    let t = (advance_idle turn plan s).1 in
    elim (advance_idle-moves turn plan s) [
      | inl k ↦ Keeps-IsResumable configured s t k h
      | inr (a, planned, _, start, cursor) ↦
          let (_, from_start, _, next) = (plan_idle_advance_iff head _ _ a).0 planned in
          let at_cursor : a.cursor_ledger ≡ t.start_ledger - 1 = omega arith in
          IsResumable-cursor configured s t h (omega arith) (inr (cursor ∙ ap some at_cursor))
    ]
process-IsResumable turn poll_limit configured head (some (e ∷ events)) s from h =
    let plan = plan_batch (λ (x : TipEvent). x.ledger) (e ∷ events) s.start_ledger poll_limit in
    let t = (process_batch turn plan s).1 in
    let (later, cursor) =
      plan_batch-progress (λ (x : TipEvent). x.ledger) e events s.start_ledger poll_limit
        (λ x m. from (e ∷ events) x refl m) in
    elim (process_batch-moves turn plan s) [
      | inl k ↦ Keeps-IsResumable configured s t k h
      | inr st ↦
          let at_cursor : plan.next_start_ledger - 1 ≡ t.start_ledger - 1 =
            omega (arith, st.start) in
          IsResumable-cursor configured s t h (omega (arith, st.start)) (elim st.cursor [
            | inl same ↦ inl same
            | inr moved ↦ inr (moved ∙ cursor ∙ ap some at_cursor)
          ])
    ]

IsResumable-subst :
    (configured : ℕ) (s t : LoopState)
    → t.db ≡ s.db
    → t.start_ledger ≡ s.start_ledger
    → IsResumable configured s
    → IsResumable configured t
IsResumable-subst configured s t d e h = rw (d, e) h

poll-IsResumable :
    {Emitted : TipEvent → Type 0} {Full : ℕ → Type 0} (turn : Turn)
    (poll_interval_ms poll_limit configured : ℕ) (s : LoopState)
    → IsHonest Emitted Full turn poll_limit s.start_ledger
    → IsResumable configured s
    → IsResumable configured (poll turn poll_interval_ms poll_limit s).0
unfolding poll
poll-IsResumable turn poll_interval_ms poll_limit configured s honest h =
    let noted = note_idle_check turn s in
    let frame = note_idle_check-frame turn s in
    let done =
      process-IsResumable turn poll_limit configured (observed_head turn s) turn.batch noted
        (λ events x b m. rw frame.1 (honest.not_before events x b m))
        (IsResumable-subst configured s noted frame.0 frame.1 h) in
    let (r, t) = process turn poll_limit (observed_head turn s) turn.batch noted in
    let settled = settle-frame turn poll_interval_ms r t in
    IsResumable-subst configured t (settle turn poll_interval_ms (r, t)).0 settled.0 settled.1 done

-- the RPC answers honestly in each turn of a run
abbrev pub IsHonestRun : (TipEvent → Type 0) → (ℕ → Type 0) → ℕ → ℕ → List Turn → LoopState → Type 0
IsHonestRun Emitted Full poll_interval_ms poll_limit [] s = Unit
IsHonestRun Emitted Full poll_interval_ms poll_limit (turn ∷ turns) s =
    IsHonest Emitted Full turn poll_limit s.start_ledger
    × IsHonestRun Emitted Full poll_interval_ms poll_limit turns
        (poll turn poll_interval_ms poll_limit s).0

run_turns-IsCovered :
    {Emitted : TipEvent → Type 0} {Full : ℕ → Type 0} {low : ℕ}
    (poll_interval_ms poll_limit configured : ℕ) (turns : List Turn) (s : LoopState)
    → IsHonestRun Emitted Full poll_interval_ms poll_limit turns s
    → IsCovered Emitted Full low s
    → IsResumable configured s
    → IsCovered Emitted Full low (run_turns poll_interval_ms poll_limit turns s)
      × IsResumable configured (run_turns poll_interval_ms poll_limit turns s)
unfolding run_turns
run_turns-IsCovered poll_interval_ms poll_limit configured [] s honest c r = (c, r)
run_turns-IsCovered poll_interval_ms poll_limit configured (turn ∷ turns) s (honest, more) c r =
    run_turns-IsCovered poll_interval_ms poll_limit configured turns _ more
      (poll-IsCovered turn poll_interval_ms poll_limit s honest c)
      (poll-IsResumable turn poll_interval_ms poll_limit configured s honest r)

-- From a start whose earlier ledgers are covered, after any turns in which the RPC answers honestly,
-- whatever fails in them: the ledgers before the loop's start are covered (every event has its row or lies in
-- a ledger that the loop warned about), and they are so again for
-- a loop that is started anew from the database that the run left, which begins no later than the
-- ledger at which the run stopped.
pub restart-IsCovered :
    {Emitted : TipEvent → Type 0} {Full : ℕ → Type 0} {low : ℕ}
    (poll_interval_ms poll_limit configured : ℕ) (turns : List Turn) (db : Db)
    → IsHonestRun Emitted Full poll_interval_ms poll_limit turns (run_loop_start db configured)
    → IsCovered Emitted Full low (run_loop_start db configured)
    → let s = run_turns poll_interval_ms poll_limit turns (run_loop_start db configured) in
      IsCovered Emitted Full low s
      × IsCovered Emitted Full low (run_loop_start s.db configured)
      × ((run_loop_start s.db configured).start_ledger ≤ s.start_ledger)
unfolding run_loop_start
restart-IsCovered poll_interval_ms poll_limit configured turns db honest c =
    let (covered, resumable) =
      run_turns-IsCovered poll_interval_ms poll_limit configured turns _ honest c (omega arith) in
    (covered, record { stored = λ x em l below. covered.stored x em l (omega arith) }, resumable)
