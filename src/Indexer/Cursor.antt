-- ===== src/Indexer/Cursor.antt =====
-- src/indexer/cursor.ts: which events of a batch to process, and where the cursor lands.
-- Ledger numbers and times in milliseconds are natural numbers.
pub mod Batch
pub mod Idle
use novatip_backend.Prelude.{
  ℕ, suc, ◌+◌, ◌-◌, Bool, true, ◌&&◌, Option, none, some, List, [], ◌∷◌, ltb, leb, ◌==◌,
  if◌then◌else◌, length, filter, all,
}

abbrev pub idle_check_interval_ms : ℕ
idle_check_interval_ms = 60000

pub record IdleAdvance : Type 0 where
  pub next_start_ledger : ℕ
  pub cursor_ledger : ℕ

-- the default of `intervalMs` is `idle_check_interval_ms`; a clock that went back gives a negative
-- difference, which is below every interval but 0
unfoldable pub is_idle_check_due : ℕ → Option ℕ → ℕ → Bool
is_idle_check_due now_ms none interval_ms = true
is_idle_check_due now_ms (some last_check_at_ms) interval_ms =
    leb (last_check_at_ms + interval_ms) now_ms

unfoldable pub plan_idle_advance : Option ℕ → ℕ → ℕ → Option IdleAdvance
plan_idle_advance none start_ledger persisted_cursor = none
plan_idle_advance (some observed_head) start_ledger persisted_cursor =
    if ltb observed_head start_ledger
    then none
    else if leb observed_head persisted_cursor
    then none
    else some (record { next_start_ledger = observed_head + 1; cursor_ledger = observed_head })

pub record BatchPlan (E : Type 0) : Type 0 where
  pub to_process : List E
  pub next_start_ledger : ℕ
  pub cursor_ledger : Option ℕ

-- `ledger` is the field that `LedgerBound` asks for.
module _ {E : Type 0} (ledger : E → ℕ) where
  -- the two calls of `reduce`
  unfoldable pub max_ledger : ℕ → List E → ℕ
  max_ledger best [] = best
  max_ledger best (e ∷ events) = max_ledger (if ltb best (ledger e) then ledger e else best) events

  pub min_ledger : ℕ → List E → ℕ
  min_ledger best [] = best
  min_ledger best (e ∷ events) = min_ledger (if ltb (ledger e) best then ledger e else best) events

  -- the plan of a batch that is not empty, from its two bounds
  plan_bounded : List E → ℕ → ℕ → ℕ → BatchPlan E
  plan_bounded events limit max_l min_l =
      if ltb (length events) limit
      then record { to_process = events; next_start_ledger = max_l + 1; cursor_ledger = some max_l }
      else if ltb min_l max_l
      then record {
        to_process = filter (λ e. ltb (ledger e) max_l) events;
        next_start_ledger = max_l;
        cursor_ledger = some (max_l - 1);
      }
      else record { to_process = events; next_start_ledger = max_l + 1; cursor_ledger = some max_l }

  unfoldable pub plan_batch : List E → ℕ → ℕ → BatchPlan E
  unfolding plan_bounded
  plan_batch [] start_ledger limit = record {
    to_process = [];
    next_start_ledger = start_ledger;
    cursor_ledger = none;
  }
  plan_batch (e ∷ events) start_ledger limit =
      plan_bounded (e ∷ events) limit (max_ledger (ledger e) (e ∷ events))
        (min_ledger (ledger e) (e ∷ events))

  unfoldable pub is_saturated_ledger : List E → ℕ → Bool
  is_saturated_ledger [] limit = leb limit 0
  is_saturated_ledger (e ∷ events) limit =
      leb limit (length (e ∷ events)) && all (λ x. ledger x == ledger e) (e ∷ events)
