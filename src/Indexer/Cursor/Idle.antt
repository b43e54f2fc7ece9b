-- ===== src/Indexer/Cursor/Idle.antt =====
-- What the idle advance promises, and how the two plans keep the cursor moving forward.
use novatip_backend.Prelude.{ℕ, ◌+◌, ◌≤◌, ◌<◌, ◌≡◌, ◌↔◌, Option, none, some, arith}
use novatip_backend.Indexer.Cursor.{IdleAdvance, plan_idle_advance}

-- An empty batch moves the cursor exactly when the chain head was read, is not below the start and
-- is past the persisted cursor; the cursor then becomes that head and the next poll starts behind it.
pub plan_idle_advance_iff :
    (head : Option ℕ) (start_ledger persisted_cursor : ℕ) (a : IdleAdvance)
    → (plan_idle_advance head start_ledger persisted_cursor ≡ some a) ↔ (
        (head ≡ some a.cursor_ledger)
        × (start_ledger ≤ a.cursor_ledger)
        × (persisted_cursor < a.cursor_ledger)
        × (a.next_start_ledger ≡ a.cursor_ledger + 1))
unfolding plan_idle_advance
plan_idle_advance_iff none start_ledger persisted_cursor a = ground arith
plan_idle_advance_iff (some h) start_ledger persisted_cursor a = ground arith
