-- ===== src/DynamicQueue/Reschedule/Schedule.antt =====
-- What `Reschedule` of backend/internal/dynamicqueue/basic/reschedule.go returns, in terms of
-- docs/ALGORITHM.md alone: the orders of the resources and of the slots are stated, not computed.
use qlab.Base.{
  ◌≡◌, sym, ◌≢◌, ◌↔◌, List, String, ◌≤ℤ◌, ◌<ℤ◌, arith, All-In, In-All, AllPairs, Any, In, true, [],
  ◌∷◌, AllPairs-keep, In-keep, keep-In, In-AllPairs, All-zip, All-imp, pos, negsuc, ap, ℤ,
}
use qlab.DynamicQueue.Slot.{SlotStatus, Slot, scheduled, is_open, Input, Result}
use qlab.DynamicQueue.Greedy.{Greedy, pinned_spans, DistinctIds}
use qlab.DynamicQueue.Validate.Sound.{IsValid, validate_iff}
use qlab.DynamicQueue.Reschedule.{open_slots, sort_slots, rescheduled, reschedule}
use qlab.DynamicQueue.Reschedule.Sorting.{
  All-sort_slots, sort_slots-pairs, sort_slots-In, sort_slots-Sorted,
}
use qlab.DynamicQueue.Reschedule.Refines.{
  FitsInput, resource_order, reschedule-run, reschedule_result-Greedy,
}
use qlab.DynamicQueue.Reschedule.Order.{Ascending, resource_order_lem}

-- The SCHEDULED slots of the input, each of them once, by strictly rising priority number.
pub record IsLine (in' : Input) (ss : List Slot) : Type 0 where
  pub rising : AllPairs (λ s t. s.slot_priority <ℤ t.slot_priority) ss
  pub holds : (s : Slot) → In s ss ↔ (In s in'.slots × (s.status ≡ scheduled))

-- The ids of the input's resources, in ascending order.
pub record IsRoster (in' : Input) (order : List String) : Type 0 where
  pub ascending : Ascending order
  pub holds : (k : String) → Any (λ j. j ≡ k) order ↔ Any (λ r. r.id ≡ k) in'.resources

strictly_below : (a b : ℤ) → a ≤ℤ b → a ≢ b → a <ℤ b
strictly_below (pos m) (pos n) h ne = ground arith
strictly_below (pos m) (negsuc n) h ne = absurd (omega (arith, h))
strictly_below (negsuc m) (pos n) h ne = omega arith
strictly_below (negsuc m) (negsuc n) h ne = ground arith

rising_lem :
    (ss : List Slot)
    → AllPairs (λ s t. s.slot_priority ≤ℤ t.slot_priority) ss
    → AllPairs (λ s t. s.slot_priority ≢ t.slot_priority) ss
    → AllPairs (λ s t. s.slot_priority <ℤ t.slot_priority) ss
rising_lem [] h k = tt
rising_lem (s ∷ ss) h k = (
  All-imp _ _ ss (λ t (a, b). strictly_below s.slot_priority t.slot_priority a b)
      (All-zip _ _ ss h.0 k.0),
  rising_lem ss h.1 k.1,
)

is_open→ : (x : SlotStatus) → is_open x ≡ true → x ≡ scheduled
is_open→ x h = ground arith

sort_slots-IsLine : (in' : Input) → IsValid in' → IsLine in' (sort_slots (open_slots in'.slots))
sort_slots-IsLine in' v = record {
  rising = rising_lem (sort_slots waiting) (sort_slots-Sorted waiting) (
      sort_slots-pairs (λ s t. s.slot_priority ≢ t.slot_priority) (λ s t ne e. ne (sym e)) waiting
        (AllPairs-keep _ (λ s. is_open s.status) in'.slots
          (In-AllPairs _ _ in'.slots (λ s t i j c. c.priorities) v.compatible)));
  holds = λ s. (
    λ k.
        let (i, o) = keep-In (λ u. is_open u.status) in'.slots s (sorted s k) in
        (i, is_open→ s.status o),
    λ (i, o).
        sort_slots-In waiting s (In-keep (λ u. is_open u.status) in'.slots s i (ap is_open o)),
  );
}
  where
    waiting : List Slot
    waiting = open_slots in'.slots

    sorted : (s : Slot) → In s (sort_slots waiting) → In s waiting
    sorted s k =
        All-In (λ u. In u waiting) (sort_slots waiting) s
          (All-sort_slots (λ u. In u waiting) waiting (In-All _ waiting (λ u i. i))) k

-- Whenever `Reschedule` returns a result, there are an order of the resources, ascending by their ids,
-- and a line of exactly the SCHEDULED slots, by strictly rising priority number, such that the queue
-- is the greedy list schedule of that line, on top of the ACTIVE slots' occupancy: each slot in turn
-- has the earliest vacant start over the resources, not before its earliest start or now, on the first
-- resource in the order that has it, and is flagged re-committed exactly if the start differs from
-- the committed one and reclaimable exactly if its grace has lapsed. The condition is that the ids of
-- the slots are distinct, and that the grace and the durations fit Minutes.Duration.
pub reschedule-Greedy :
    (in' : Input) (r : Result)
    → FitsInput in'
    → DistinctIds in'.slots
    → reschedule in' ≡ rescheduled r
    → (order : List String) × (line : List Slot) × IsRoster in' order
      × IsLine in' line
      × Greedy in' order (pinned_spans in'.now in'.slots) r.queue line
reschedule-Greedy in' r f d h =
    let o = resource_order_lem in' in
    (
      resource_order in',
      sort_slots (open_slots in'.slots),
      record { ascending = o.0; holds = o.1 },
      sort_slots-IsLine in' ((validate_iff in').0 (reschedule-run in' r h).0),
      reschedule_result-Greedy in' r f d h,
    )
