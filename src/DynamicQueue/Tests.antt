-- ===== src/DynamicQueue/Tests.antt =====
-- Runs of the engine, and its theorems at a small pool: two hoods, an ACTIVE slot on the first one
-- for an hour, and three SCHEDULED slots.
use mathlib.Core.Bool.{false≢true}
use qlab.Base.{
  Any, str_eq, eq_iff, sym, ◌∙◌, ℕ, ◌+◌, ◌*◌, ◌≡◌, refl, ◌≢◌, ◌↔◌, false, true, List, [], ◌∷◌, none,
  String, pos, arith, All, AllPairs, wrap64, ◌<◌, ◌≤◌, negsuc, lookup, insert,
}
use qlab.DynamicQueue.Slot.{
  zero_time, minute, duration_of, Resource, vent_hood, Slot, scheduled, active, Input, Result,
}
use qlab.DynamicQueue.Greedy.{Greedy, pinned_spans, DistinctIds}
use qlab.DynamicQueue.Greedy.{max_minutes}
use qlab.DynamicQueue.Minutes.{duration_of-exact}
use qlab.DynamicQueue.Reschedule.Total.{reschedule-returns_iff}
use qlab.DynamicQueue.Reschedule.Order.{Ascending, resource_order_lem}
use qlab.DynamicQueue.Validate.Sound.{IsValid, validate_iff}
use qlab.DynamicQueue.Validate.{validate}
use qlab.DynamicQueue.Reschedule.{
  Outcome, open_slots, sort_slots, reschedule, rescheduled, panicked,
}
use qlab.DynamicQueue.Reschedule.Refines.{FitsInput, resource_order}
use qlab.DynamicQueue.Reschedule.Schedule.{IsRoster, IsLine, reschedule-Greedy}
use qlab.DynamicQueue.Reschedule.Disjoint.{
  NoOverlap, KeepsClear, reschedule-NoOverlap, reschedule-KeepsClear,
}

-- Texts that the comparison tells apart.
text_ne : (s t : String) → str_eq s t ≡ false → s ≢ t
text_ne s t h e = false≢true (sym h ∙ (eq_iff s t).1 e)

-- Minutes after the instant that the tests start from.
abbrev at : ℕ → ℕ
at m = zero_time + 60 * minute + m * minute

abbrev hood : String → Resource
hood id = record { id = id; resource_pool_id = "pool"; kind = vent_hood }

-- Priority, desired start, duration, lookahead and committed start.
abbrev waiting : String → ℕ → ℕ → ℕ → ℕ → ℕ → Slot
waiting id priority desired dur look committed = record {
  id = id;
  user_id = "u";
  lab_id = "lab";
  resource_pool_id = "pool";
  slot_priority = pos priority;
  status = scheduled;
  desired_start = at desired;
  lookahead = pos look;
  duration = pos dur;
  committed_start = at committed;
  assigned_resource = "";
  actual_start = zero_time;
  projected_end = zero_time;
  note = "";
}

abbrev running : String → ℕ → String → ℕ → Slot
running id priority resource until = record {
  id = id;
  user_id = "v";
  lab_id = "lab";
  resource_pool_id = "pool";
  slot_priority = pos priority;
  status = active;
  desired_start = at 0;
  lookahead = pos 0;
  duration = pos 60;
  committed_start = at 0;
  assigned_resource = resource;
  actual_start = at 0;
  projected_end = at until;
  note = "";
}

abbrev pool_input : Input
pool_input = record {
  resource_pool_id = "pool";
  slots =
      waiting "c" 3 30 30 30 30
      ∷ running "a" 0 "h1" 60
      ∷ waiting "b" 1 40 60 0 40
      ∷ waiting "d" 4 0 90 0 0
      ∷ [];
  resources = hood "h2" ∷ hood "h1" ∷ [];
  now = at 10;
  grace = pos 5;
}

abbrev schedule_of : Outcome → Result
schedule_of (rescheduled r) = r
schedule_of _ = record { queue = []; trace = [] }

abbrev pool_result : Result
pool_result = schedule_of (reschedule pool_input)

-- b waits for its start on h2, c backfills the gap before it, and d, whose grace has lapsed, takes
-- h1 when it frees up.
pool_queue :
    pool_result.queue
    ≡ (
      "b",
      record {
        actual_start = at 40;
        assigned_resource = "h2";
        recommitted = false;
        reclaimable = false;
      },
    )
      ∷ (
        "c",
        record {
          actual_start = at 10;
          assigned_resource = "h2";
          recommitted = true;
          reclaimable = false;
        },
      )
      ∷ (
        "d",
        record {
          actual_start = at 60;
          assigned_resource = "h1";
          recommitted = true;
          reclaimable = true;
        },
      )
      ∷ []
unfolding reschedule validate insert lookup wrap64 duration_of
pool_queue = refl

pool_returns : reschedule pool_input ≡ rescheduled pool_result
unfolding reschedule validate
pool_returns = refl

pool_fits : FitsInput pool_input
pool_fits = record { grace_fits = omega arith; slots_fit = omega arith }

pool_distinct : DistinctIds pool_input.slots
pool_distinct = (
  (text_ne "c" "a" refl, (text_ne "c" "b" refl, (text_ne "c" "d" refl, tt))),
  ((text_ne "a" "b" refl, (text_ne "a" "d" refl, tt)), ((text_ne "b" "d" refl, tt), (tt, tt))),
)

reschedule-Greedy_example :
    (order : List String) × (line : List Slot) × IsRoster pool_input order
    × IsLine pool_input line
    × Greedy pool_input order (pinned_spans (at 10) pool_input.slots) pool_result.queue line
reschedule-Greedy_example =
    reschedule-Greedy pool_input pool_result pool_fits pool_distinct pool_returns

reschedule-NoOverlap_example :
    AllPairs (NoOverlap pool_result.queue) (sort_slots (open_slots pool_input.slots))
reschedule-NoOverlap_example =
    reschedule-NoOverlap pool_input pool_result pool_fits pool_distinct pool_returns

reschedule-KeepsClear_example :
    All
      (KeepsClear (pinned_spans (at 10) pool_input.slots) pool_result.queue)
      (sort_slots (open_slots pool_input.slots))
reschedule-KeepsClear_example =
    reschedule-KeepsClear pool_input pool_result pool_fits pool_distinct pool_returns

validate_iff_example : (validate pool_input ≡ none) ↔ IsValid pool_input
validate_iff_example = validate_iff pool_input

resource_order_lem_example :
    Ascending (resource_order pool_input)
    × ((k : String)
        → Any (λ j. j ≡ k) (resource_order pool_input) ↔ Any (λ r. r.id ≡ k) pool_input.resources)
resource_order_lem_example = resource_order_lem pool_input

duration_of-exact_example :
    ((duration_of (pos 200000000) ≡ pos (minute * 200000000)) ↔ (200000000 ≤ max_minutes))
    × (max_minutes < 200000000
        → 200000000 ≤ 2 * max_minutes
        → (k : ℕ) × (duration_of (pos 200000000) ≡ negsuc k))
duration_of-exact_example = duration_of-exact 200000000 (omega arith)

reschedule-returns_iff_example :
    (reschedule pool_input ≢ panicked)
    × (((r : Result) × (reschedule pool_input ≡ rescheduled r)) ↔ IsValid pool_input)
reschedule-returns_iff_example = reschedule-returns_iff pool_input
