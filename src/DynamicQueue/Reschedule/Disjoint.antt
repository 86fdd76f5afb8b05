-- ===== src/DynamicQueue/Reschedule/Disjoint.antt =====
-- What the greedy schedule gives for any two slots: no resource runs two of them at once.
use qlab.Base.{
  ℕ, ◌+◌, ◌≤◌, ◌≡◌, subst, ◌≢◌, ◌⊎◌, List, [], ◌∷◌, none, some, String, All, AllPairs, All-imp,
  lookup,
}
use qlab.DynamicQueue.Slot.{Slot, SlotPosition, Queue, Input, Result}
use qlab.DynamicQueue.Greedy.{Span, Clear, run_time, occupied_by, Greedy, pinned_spans, DistinctIds}
use qlab.DynamicQueue.Reschedule.{open_slots, sort_slots, run, rescheduled, reschedule}
use qlab.DynamicQueue.Reschedule.Refines.{
  FitsInput, resource_order, reschedule_result-Greedy, reschedule-run, place_all-lookup,
}

-- The position of a slot keeps clear of the occupied spans.
abbrev pub KeepsClear : List Span → Queue → Slot → Type 0
KeepsClear occ q s =
    (p : SlotPosition)
    → lookup s.id q ≡ some p
    → Clear occ p.assigned_resource p.actual_start (p.actual_start + run_time s)

-- The positions of two slots do not overlap on one resource.
abbrev pub NoOverlap : Queue → Slot → Slot → Type 0
NoOverlap q s t =
    (p r : SlotPosition)
    → lookup s.id q ≡ some p
    → lookup t.id q ≡ some r
    → (p.assigned_resource ≢ r.assigned_resource)
      ⊎ (r.actual_start + run_time t ≤ p.actual_start)
      ⊎ (p.actual_start + run_time s ≤ r.actual_start)

module _ (in' : Input) (order : List String) (q : Queue) where
  some_eq :
      (s : Slot) (p r : SlotPosition) → lookup s.id q ≡ some p → lookup s.id q ≡ some r → p ≡ r
  some_eq s p r e f = cc

  Greedy-KeepsClear :
      (base occ : List Span) (ss : List Slot)
      → ((r : String) (s e : ℕ) → Clear occ r s e → Clear base r s e)
      → Greedy in' order occ q ss
      → All (KeepsClear base q) ss
  Greedy-KeepsClear base occ [] up g = tt
  Greedy-KeepsClear base occ (s ∷ ss) up (p, e, w, _, g) = (
    λ r f.
        subst (λ x. Clear base x.assigned_resource x.actual_start (x.actual_start + run_time s))
          (some_eq s p r e f) (up _ _ _ w.feasible.2),
    Greedy-KeepsClear base (occupied_by s p ∷ occ) ss (λ r a b c. up r a b c.1) g,
  )

  Greedy-NoOverlap :
      (occ : List Span) (ss : List Slot) → Greedy in' order occ q ss → AllPairs (NoOverlap q) ss
  Greedy-NoOverlap occ [] g = tt
  Greedy-NoOverlap occ (s ∷ ss) (p, e, _, _, g) = (
    All-imp _ _ ss later (
        Greedy-KeepsClear (occupied_by s p ∷ []) (occupied_by s p ∷ occ) ss (λ r a b c. (c.0, tt))
          g),
    Greedy-NoOverlap (occupied_by s p ∷ occ) ss g,
  )
    where
      later : (t : Slot) → KeepsClear (occupied_by s p ∷ []) q t → NoOverlap q s t
      later t k p' r e' f =
          subst
            (λ x.
              (x.assigned_resource ≢ r.assigned_resource)
              ⊎ (r.actual_start + run_time t ≤ x.actual_start)
              ⊎ (x.actual_start + run_time s ≤ r.actual_start))
            (some_eq s p p' e e') (k r f).0

-- In the queue that `Reschedule` returns no two SCHEDULED slots overlap on a resource, if the ids of
-- the slots are distinct, and the grace and the durations fit Minutes.Duration.
pub reschedule-NoOverlap :
    (in' : Input) (r : Result)
    → FitsInput in'
    → DistinctIds in'.slots
    → reschedule in' ≡ rescheduled r
    → AllPairs (NoOverlap r.queue) (sort_slots (open_slots in'.slots))
reschedule-NoOverlap in' r f d h =
    Greedy-NoOverlap in' (resource_order in') r.queue (pinned_spans in'.now in'.slots) _
      (reschedule_result-Greedy in' r f d h)

-- In the queue that `Reschedule` returns no SCHEDULED slot meets the time, from now to its projected
-- end, of an ACTIVE slot on the same resource, if the ids of the slots are distinct, and the grace
-- and the durations fit Minutes.Duration.
pub reschedule-KeepsClear :
    (in' : Input) (r : Result)
    → FitsInput in'
    → DistinctIds in'.slots
    → reschedule in' ≡ rescheduled r
    → All (KeepsClear (pinned_spans in'.now in'.slots) r.queue) (sort_slots (open_slots in'.slots))
reschedule-KeepsClear in' r f d h =
    Greedy-KeepsClear in' (resource_order in') r.queue (pinned_spans in'.now in'.slots)
      (pinned_spans in'.now in'.slots) _ (λ q a b c. c) (reschedule_result-Greedy in' r f d h)

-- The queue has positions for SCHEDULED slots only: an id that none of them has, such as an ACTIVE
-- slot's, is not in it.
reschedule-only_open :
    (in' : Input) (r : Result) (k : String)
    → All (λ s. k ≢ s.id) (sort_slots (open_slots in'.slots))
    → reschedule in' ≡ rescheduled r
    → lookup k r.queue ≡ none
unfolding run lookup
reschedule-only_open in' r k a h =
    let (_, (_, _, e)) = reschedule-run in' r h in
    rw e (place_all-lookup in' (resource_order in') _ (sort_slots (open_slots in'.slots)) k a)
