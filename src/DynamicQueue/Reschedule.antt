-- ===== src/DynamicQueue/Reschedule.antt =====
-- backend/internal/dynamicqueue/basic/reschedule.go and basic.go.
pub mod Sorting
pub mod Refines
pub mod Disjoint
pub mod Order
pub mod Schedule
pub mod Total
use qlab.Base.{
  ℕ, Bool, true, false, not, List, [], ◌∷◌, ◌++◌, Option, none, some, String, ℤ, insert, ltb, ◌==◌,
  ltb_ℤ, if◌then◌else◌, keep, shift,
}
use qlab.DynamicQueue.Slot.{
  zero_time, is_zero, duration_of, Slot, is_open, earliest_start, Input, SlotPosition, Queue, Step,
  seed_resource, flag_reclaimable, place_slot, gap_fill, recommit, free_from_instant, placed,
  start_changed, grace_lapsed, Result,
}
use qlab.DynamicQueue.Validate.{InputError, validate}
use qlab.DynamicQueue.Intervals.{
  Interval, FreeMap, get, later_of, build_free, place, carve, sorted_keys,
}

-- Whether a SCHEDULED slot's clock-in grace has passed.
unfoldable pub lapsed : Slot → ℕ → ℤ → Bool
unfolding is_zero
lapsed s now grace =
    if is_zero s.committed_start
    then false
    else ltb (shift s.committed_start (duration_of grace)) now

-- `sort.Slice` by SlotPriority: Validate makes the priorities distinct, so the order is unique.
unfoldable pub insert_slot : Slot → List Slot → List Slot
insert_slot s [] = s ∷ []
insert_slot s (t ∷ ts) =
    if ltb_ℤ t.slot_priority s.slot_priority then t ∷ insert_slot s ts else s ∷ t ∷ ts

unfoldable pub sort_slots : List Slot → List Slot
unfolding insert_slot
sort_slots [] = []
sort_slots (s ∷ ss) = insert_slot s (sort_slots ss)

abbrev pub open_slots : List Slot → List Slot
open_slots = keep (λ s. is_open s.status)

-- The body of the loop of step 2: `[0]` panics on an empty list.
abbrev pub seed_step : String → List Interval → Option (List Step) → Option (List Step)
seed_step rid (iv ∷ ivs) (some steps) = some (
    record {
      kind = seed_resource;
      slot = "";
      resource = rid;
      at = iv.start;
      detail = free_from_instant iv.start;
    }
    ∷ steps)
seed_step _ _ _ = none

-- The trace of step 2; `none` is a panic.
unfoldable pub seed_steps : FreeMap → List String → Option (List Step)
seed_steps free [] = some []
seed_steps free (rid ∷ order) = seed_step rid (get rid free) (seed_steps free order)

-- The variables of `Reschedule` in its last loop.
pub record Loop : Type 0 where
  pub free : FreeMap
  pub queue : Queue
  pub trace : List Step

-- What the loop body appends to the trace.
unfoldable pub slot_steps : Input → Slot → SlotPosition → Bool → List Step
slot_steps in' s p gap =
    record {
      kind = if gap then gap_fill else place_slot;
      slot = s.id;
      resource = p.assigned_resource;
      at = p.actual_start;
      detail =
          placed p.actual_start (shift p.actual_start (duration_of s.duration)) p.assigned_resource;
    }
      ∷ (if p.recommitted
          then record {
            kind = recommit;
            slot = s.id;
            resource = "";
            at = p.actual_start;
            detail = start_changed s.committed_start p.actual_start;
          }
            ∷ []
          else [])
    ++ (if p.reclaimable
        then record {
          kind = flag_reclaimable;
          slot = s.id;
          resource = "";
          at = in'.now;
          detail = grace_lapsed s.committed_start in'.grace in'.now;
        }
          ∷ []
        else [])

unfoldable pub position_of : Input → Slot → ℕ → String → SlotPosition
unfolding lapsed
position_of in' s start resource = record {
  actual_start = start;
  assigned_resource = resource;
  recommitted = not (start == s.committed_start);
  reclaimable = lapsed s in'.now in'.grace;
}

-- The body of the last loop.
unfoldable pub loop_body : Input → List String → Loop → Slot → Loop
unfolding later_of earliest_start place carve position_of slot_steps
loop_body in' order st s =
    let best = place st.free order (later_of (earliest_start s) in'.now) s.duration in
    let p = position_of in' s best.start best.resource in
    record {
      free = carve st.free best.resource best.start s.duration;
      queue = insert s.id p st.queue;
      trace = st.trace ++ slot_steps in' s p best.gap_fill;
    }

unfoldable pub place_all : Input → List String → Loop → List Slot → Loop
unfolding loop_body
place_all in' order st [] = st
place_all in' order st (s ∷ ss) = place_all in' order (loop_body in' order st s) ss

-- Step 2, on valid input: what it appends to the trace.
unfoldable pub seeds : Input → Option (List Step)
unfolding build_free sorted_keys seed_steps
seeds in' =
    let free = build_free in'.resources in'.slots in'.now in seed_steps free (sorted_keys free)

-- Steps 1 and 3, after the steps that step 2 traced.
unfoldable pub run : Input → List Step → Loop
unfolding build_free sorted_keys sort_slots place_all
run in' steps =
    let free = build_free in'.resources in'.slots in'.now in
    place_all in' (sorted_keys free) (record { free = free; queue = []; trace = steps })
      (sort_slots (open_slots in'.slots))

-- `panicked` is a read out of range.
pub data Outcome : Type 0 where
  rescheduled : Result → Outcome
  refused : InputError → Outcome
  panicked : Outcome

abbrev pub finished : Input → Option (List Step) → Outcome
finished in' none = panicked
finished in' (some steps) =
    rescheduled (record { queue = (run in' steps).queue; trace = (run in' steps).trace })

-- `Engine.Reschedule`.
unfoldable pub reschedule : Input → Outcome
unfolding seeds run
reschedule in' = elim (validate in') [ some e ↦ refused e | none ↦ finished in' (seeds in') ]
