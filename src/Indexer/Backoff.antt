-- ===== src/Indexer/Backoff.antt =====
-- src/indexer/backoff.ts: how long to wait after consecutive poll errors. `Math.pow` overflows to
-- Infinity, whose minimum with the ceiling is the ceiling, as it is of the exact power.
use novatip_backend.Prelude.{ℕ, suc, ◌-◌, ◌*◌, ◌^◌, ◌≤◌, ◌≡◌, arith, min, leb, if◌then◌else◌}
use native.Mathlib.Nat.{pow-suc}

abbrev pub base_poll_backoff_ms : ℕ
base_poll_backoff_ms = 12000

abbrev pub max_poll_backoff_ms : ℕ
max_poll_backoff_ms = 60000

pub calculate_poll_backoff : ℕ → ℕ → ℕ → ℕ
calculate_poll_backoff consecutive_failures base_ms max_ms =
    if leb consecutive_failures 0 then 0 else min (base_ms * 2 ^ (consecutive_failures - 1)) max_ms

pow-suc_two : (n : ℕ) → 2 ^ suc n ≡ 2 * 2 ^ n
pow-suc_two n = rw pow-suc (omega arith)

calculate_poll_backoff-suc :
    (n base_ms max_ms : ℕ)
    → calculate_poll_backoff (suc n) base_ms max_ms ≡ min (base_ms * 2 ^ n) max_ms
unfolding calculate_poll_backoff
calculate_poll_backoff-suc n base_ms max_ms =
    let e : suc n - 1 ≡ n = omega arith in rw e (ground arith)

min_double : (q max_ms : ℕ) → min (2 * q) max_ms ≡ min (2 * min q max_ms) max_ms
min_double q max_ms = omega arith

mul_pow-suc : (base_ms n : ℕ) → base_ms * 2 ^ suc n ≡ 2 * (base_ms * 2 ^ n)
mul_pow-suc base_ms n = rw pow-suc_two (grind arith)

calculate_poll_backoff-le-max :
    (n base_ms max_ms : ℕ) → calculate_poll_backoff n base_ms max_ms ≤ max_ms
unfolding calculate_poll_backoff
calculate_poll_backoff-le-max n base_ms max_ms = ground arith

-- The first failure waits the base delay or the ceiling; each further failure waits twice as long
-- as the one before, up to the ceiling, so that waits never shrink and never pass the ceiling.
pub backoff_doubling :
    (n base_ms max_ms : ℕ)
    → (calculate_poll_backoff 1 base_ms max_ms ≡ min base_ms max_ms)
      × (calculate_poll_backoff (suc (suc n)) base_ms max_ms
          ≡ min (2 * calculate_poll_backoff (suc n) base_ms max_ms) max_ms)
      × (calculate_poll_backoff (suc n) base_ms max_ms
          ≤ calculate_poll_backoff (suc (suc n)) base_ms max_ms)
      × (calculate_poll_backoff n base_ms max_ms ≤ max_ms)
backoff_doubling n base_ms max_ms = (
  rw calculate_poll_backoff-suc (omega arith),
  rw (calculate_poll_backoff-suc n, calculate_poll_backoff-suc (suc n), mul_pow-suc)
      (min_double (base_ms * 2 ^ n) max_ms),
  rw (calculate_poll_backoff-suc n, calculate_poll_backoff-suc (suc n), mul_pow-suc) (omega arith),
  calculate_poll_backoff-le-max n base_ms max_ms,
)
