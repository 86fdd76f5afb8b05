-- ===== src/DynamicQueue/Minutes.antt =====
-- `Minutes.Duration` of backend/internal/dynamicqueue/slot.go at the edge of int64.
use qlab.Base.{ℕ, ◌-◌, ◌*◌, ◌^◌, ◌≤◌, ◌<◌, ◌≡◌, ◌↔◌, arith, pos, negsuc, wrap64, wrap64_small}
use qlab.DynamicQueue.Slot.{minute, duration_of}
use qlab.DynamicQueue.Greedy.{max_minutes}

-- A non-negative int32 of minutes is converted exactly if and only if it is at most 153722867, some
-- 292 years; from there up to twice as many minutes the Duration is negative.
pub duration_of-exact :
    (n : ℕ)
    → n < 2 ^ 31
    → ((duration_of (pos n) ≡ pos (minute * n)) ↔ (n ≤ max_minutes))
      × (max_minutes < n → n ≤ 2 * max_minutes → (k : ℕ) × (duration_of (pos n) ≡ negsuc k))
unfolding duration_of wrap64
duration_of-exact n h = (
  (λ e. ground arith, λ k. wrap64_small (minute * n) (omega arith)),
  λ k l. (2 ^ 64 - minute * n - 1, ground arith),
)
