-- ===== src/Scheduling/Accepted/Placed.antt =====
-- The engine places every SCHEDULED row of a well-formed pool, so that `placeScheduled` of
-- backend/internal/services/scheduling/v1/convert.go finds what it looks for.
use qlab.Base.{
  ℕ, ◌≡◌, refl, sym, ◌∙◌, subst, ◌≢◌, inl, inr, true, false, List, [], ◌∷◌, ◌++◌, map, Option, some,
  String, ℤ, arith, All, Any, AllPairs, In, All-In, In-All, In-keep, Bool-cases, lookup,
}
use qlab.DynamicQueue.Slot.{Slot as EngineSlot, SlotPosition, Queue, Input, Result, is_open}
use qlab.DynamicQueue.Greedy.{Span, Greedy, FitsInt64, DistinctIds, pinned_spans, occupied_by}
use qlab.DynamicQueue.Reschedule.{reschedule, rescheduled}
use qlab.DynamicQueue.Reschedule.Refines.{FitsInput, resource_order, reschedule_result-Greedy}
use qlab.DynamicQueue.Reschedule.Sorting.{sort_slots-In}
use qlab.DynamicQueue.Reschedule.Order.{resource_order_lem}
use qlab.DynamicQueue.Reschedule.Total.{reschedule-returns_iff}
use qlab.Scheduling.Store.{Resource, Slot, is_live, is_active, is_scheduled}
use qlab.Scheduling.Convert.{waiting_slot, running_slot, to_engine_resource, build_engine_input}
use qlab.Scheduling.Apply.{run_engine}
use qlab.Scheduling.Apply.Writes.{IsPlaced}
use qlab.Scheduling.Accepted.{
  WellFormed, PoolOk, converted, live_converted, All-live_converted, input_of, input_of-IsValid,
  build_engine_input-input_of,
}

-- Ids that differ, durations and a grace that do not overflow, and resources whose ids parse.
pub record Placeable (parse : String → Option String) (working : List Slot)
    (resources : List Resource) (grace : ℤ) : Type 0 where
  pub keys : AllPairs (λ s t. s.id ≢ t.id) working
  pub durations_fit : All (λ s. FitsInt64 s.duration_minutes) working
  pub grace_fits : FitsInt64 grace
  pub ids_parse : All (λ r. (q : String) × (parse r.id ≡ some q)) resources

Greedy-places :
    (in' : Input) (order : List String) (occ : List Span) (q : Queue) (ss : List EngineSlot)
    → Greedy in' order occ q ss
    → All
        (λ s.
          (p : SlotPosition) × (lookup s.id q ≡ some p) × Any (λ j. j ≡ p.assigned_resource) order)
        ss
Greedy-places in' order occ q [] g = tt
Greedy-places in' order occ q (s ∷ ss) (p, e, w, f, g) = (
  (p, e, subst (Any (λ j. j ≡ p.assigned_resource)) (sym w.split) (stands w.before)),
  Greedy-places in' order (occupied_by s p ∷ occ) q ss g,
)
  where
    stands :
        (before : List String)
        → Any (λ j. j ≡ p.assigned_resource) (before ++ p.assigned_resource ∷ w.after)
    stands [] = inl refl
    stands (b ∷ before) = inr (stands before)

converted-id : (s : Slot) (now : ℕ) → (converted s now).id ≡ s.id
unfolding converted running_slot waiting_slot
converted-id s now = ground arith

converted-duration : (s : Slot) (now : ℕ) → (converted s now).duration ≡ s.duration_minutes
unfolding converted running_slot waiting_slot
converted-duration s now = ground arith

live_converted-In :
    (now : ℕ) (ss : List Slot) (s : Slot)
    → is_scheduled s.status ≡ true
    → In s ss
    → In (waiting_slot s) (live_converted ss now)
unfolding live_converted converted
live_converted-In now [] s h k = k
live_converted-In now (t ∷ ss) s h (inl e) = rw (← e) (rw (scheduled_live, not_active) (inl refl))
  where
    scheduled_live : is_live s.status ≡ true
    scheduled_live = ground arith

    not_active : is_active s.status ≡ false
    not_active = ground arith
live_converted-In now (t ∷ ss) s h (inr k) = elim (Bool-cases (is_live t.status)) [
  | inl c ↦ rw c (inr (live_converted-In now ss s h k))
  | inr c ↦ rw c (live_converted-In now ss s h k)
]

live_converted-DistinctIds :
    (now : ℕ) (ss : List Slot)
    → AllPairs (λ s t. s.id ≢ t.id) ss
    → DistinctIds (live_converted ss now)
unfolding live_converted
live_converted-DistinctIds now [] h = tt
live_converted-DistinctIds now (s ∷ ss) h = elim (Bool-cases (is_live s.status)) [
  | inl c ↦ rw c (
    All-live_converted (λ t. s.id ≢ t.id) (λ e. (converted s now).id ≢ e.id) now ss
        (λ t l n e. n (sym (converted-id s now) ∙ e ∙ converted-id t now)) h.0,
    live_converted-DistinctIds now ss h.1,
  )
  | inr c ↦ rw c (live_converted-DistinctIds now ss h.1)
]

-- An id that one of the resources has parses, if all of theirs do.
ids_parse_at :
    (parse : String → Option String) (k : String) (rs : List Resource)
    → All (λ r. (q : String) × (parse r.id ≡ some q)) rs
    → Any (λ r. r.id ≡ k) (map to_engine_resource rs)
    → (q : String) × (parse k ≡ some q)
ids_parse_at parse k [] h a = absurd a
ids_parse_at parse k (r ∷ rs) h (inl e) = subst (λ j. (q : String) × (parse j ≡ some q)) e h.0
ids_parse_at parse k (r ∷ rs) h (inr a) = ids_parse_at parse k rs h.1 a

module _ (parse : String → Option String) (pool : String) (working : List Slot)
    (resources : List Resource) (grace : ℤ) (now : ℕ) (p : PoolOk pool resources grace)
    (w : WellFormed pool working) (f : Placeable parse working resources grace) where
  fits : FitsInput (input_of pool working resources grace now)
  unfolding input_of
  fits = record {
    grace_fits = f.grace_fits;
    slots_fit =
        All-live_converted (λ s. FitsInt64 s.duration_minutes) _ now working
          (λ s l h. subst FitsInt64 (sym (converted-duration s now)) h) f.durations_fit;
  }

  placement_found :
      (r : Result) (s : Slot)
      → reschedule (input_of pool working resources grace now) ≡ rescheduled r
      → In s working
      → IsPlaced parse r.queue s
  unfolding input_of waiting_slot
  placement_found r s e k h =
      let in' = input_of pool working resources grace now in
      let g =
        reschedule_result-Greedy in' r fits (live_converted-DistinctIds now working f.keys) e in
      let waits =
        In-keep (λ t. is_open t.status) (live_converted working now) (waiting_slot s)
          (live_converted-In now working s h k) refl in
      let (q, l, o) =
        All-In _ _ (waiting_slot s)
          (Greedy-places in' (resource_order in') (pinned_spans in'.now in'.slots) r.queue _ g)
          (sort_slots-In _ (waiting_slot s) waits) in
      let (id, m) =
        ids_parse_at parse q.assigned_resource resources f.ids_parse
          (((resource_order_lem in').1 q.assigned_resource).0 o) in
      (q, id, l, m)

  -- The engine returns a queue, and every SCHEDULED row has a position in it.
  pub engine_places :
      (queue : Queue) × (run_engine (build_engine_input pool working resources grace now)
        ≡ some queue)
      × All (IsPlaced parse queue) working
  engine_places =
      let in' = input_of pool working resources grace now in
      let (r, e) =
        (reschedule-returns_iff in').1.1 (input_of-IsValid pool working resources grace now p w) in
      (
        r.queue,
        rw (build_engine_input-input_of pool working resources grace now, e) refl,
        In-All (IsPlaced parse r.queue) working (λ s k. placement_found r s e k),
      )
