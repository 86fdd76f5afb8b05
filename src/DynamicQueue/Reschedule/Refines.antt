-- ===== src/DynamicQueue/Reschedule/Refines.antt =====
-- The engine refines the greedy specification.
use qlab.Base.{
  ℕ, ◌+◌, ◌*◌, ◌<◌, ◌≡◌, refl, sym, ◌∙◌, subst, ◌≢◌, List, [], ◌∷◌, none, some, String, ℤ, pos,
  negsuc, pos_part, ◌<ℤ◌, ◌≤ℤ◌, arith, All, All-imp, All-at, All-zip, All-keep, AllPairs-keep, inl,
  inr, Option-cases, lookup, lookup-insert_self, lookup-insert_ne, wrap64_small,
}
use qlab.DynamicQueue.Slot.{
  minute, duration_of, is_zero, Slot, is_open, Input, earliest_start, Result, Step,
}
use qlab.DynamicQueue.Greedy.{
  Span, Vacant, Wins, run_time, Flagged, occupied_by, Greedy, pinned_spans, FitsInt64, DistinctIds,
}
use qlab.DynamicQueue.Validate.{validate}
use qlab.DynamicQueue.Validate.Sound.{IsValid, SlotOk, validate_iff}
use qlab.DynamicQueue.Intervals.{
  Best, FreeMap, get, later_of, build_free, place, carve, sorted_keys,
}
use qlab.DynamicQueue.Intervals.FirstFit.{first_fit, later_of_lem, later_of_least}
use qlab.DynamicQueue.Intervals.Choice.{Finds, scan-Wins}
use qlab.DynamicQueue.Intervals.Exact.{Exact, ExactAll, carve-ExactAll}
use qlab.DynamicQueue.Intervals.Seed.{build_free-ExactAll, sorted_keys-ne}
use qlab.DynamicQueue.Reschedule.{
  lapsed, position_of, Loop, loop_body, place_all, seeds, run, open_slots, sort_slots, rescheduled,
  reschedule,
}
use qlab.DynamicQueue.Reschedule.Sorting.{All-sort_slots, sort_slots-pairs}

-- A slot whose run time is positive and does not overflow.
pub record IsPlaceable (s : Slot) : Type 0 where
  pub positive : pos 0 <ℤ s.duration
  pub fits_int64 : FitsInt64 s.duration

duration_of-pos : (m : ℤ) → pos 0 ≤ℤ m → FitsInt64 m → duration_of m ≡ pos (minute * pos_part m)
unfolding duration_of
duration_of-pos (pos n) h k = wrap64_small (minute * n) (omega arith)
duration_of-pos (negsuc n) h k = absurd (omega arith)

duration_of-run_time : (s : Slot) → IsPlaceable s → duration_of s.duration ≡ pos (run_time s)
duration_of-run_time s v = duration_of-pos s.duration (omega arith) v.fits_int64

run_time-pos : (s : Slot) → IsPlaceable s → 0 < run_time s
run_time-pos s v = omega arith

position-Flagged :
    (in' : Input) (s : Slot) (t : ℕ) (r : String)
    → pos 0 ≤ℤ in'.grace
    → FitsInt64 in'.grace
    → Flagged in' s (position_of in' s t r)
unfolding position_of lapsed is_zero
position-Flagged in' s t r g f = rw (duration_of-pos in'.grace g f) (record {
  recommitted_iff = (λ h. ground arith, λ h. ground arith);
  reclaimable_iff = (λ h. ground arith, λ h. ground arith);
})

module _ (in' : Input) (occ : List Span) (free : FreeMap) (s : Slot) (v : IsPlaceable s) where
  floor : ℕ
  floor = later_of (earliest_start s) in'.now

  -- On a resource with an exact list the inner loop finds the earliest vacant start.
  finds :
      (q : String) (best : Best)
      → Exact in'.now q occ (get q free)
      → Finds free floor (pos (run_time s)) (Vacant in' occ s) q best
  unfolding floor
  finds q best x =
      let f = first_fit q floor (run_time s) in'.now best (get q free) x.ordered in
      let b = later_of_lem (earliest_start s) in'.now in
      let p = run_time-pos s v in
      record {
        start = f.start;
        interval = f.interval;
        result = f.result;
        feasible = (
          omega (arith, f.not_before),
          omega (arith, f.not_before),
          x.sound f.start (f.start + run_time s) (omega (arith, f.not_before)) (omega arith) f.held,
        );
        least = λ t h.
            f.least t (later_of_least (earliest_start s) in'.now t h.0 h.1)
              (x.complete t (t + run_time s) h.1 (omega arith) h.2);
      }

  place-Wins :
      (order : List String)
      → order ≢ []
      → ExactAll in'.now occ free order
      → let best = place free order floor s.duration in
        Wins (Vacant in' occ s) order best.resource best.start
  unfolding place
  place-Wins [] ne a = absurd (ne refl)
  place-Wins (q ∷ qs) ne a = rw (duration_of-run_time s v) (
      scan-Wins free floor (pos (run_time s)) (Vacant in' occ s) q qs
        (All-imp _ _ (q ∷ qs) (λ p x b. finds p b x) a))

-- The body of the loop: the winner is taken, and its span is cut out of the map.
loop_body-ExactAll :
    (in' : Input) (order : List String) (occ : List Span) (st : Loop) (s : Slot)
    → IsPlaceable s
    → order ≢ []
    → ExactAll in'.now occ st.free order
    → let best = place st.free order (later_of (earliest_start s) in'.now) s.duration in
      Wins (Vacant in' occ s) order best.resource best.start
      × ExactAll in'.now
          (occupied_by s (position_of in' s best.start best.resource) ∷ occ)
          (loop_body in' order st s).free
          order
unfolding loop_body position_of
loop_body-ExactAll in' order occ st s v ne a = (w, kept)
  where
    best : Best
    best = place st.free order (later_of (earliest_start s) in'.now) s.duration

    w : Wins (Vacant in' occ s) order best.resource best.start
    w = unfold floor in place-Wins in' occ st.free s v order ne a

    chosen : Exact in'.now best.resource occ (get best.resource st.free)
    chosen =
        All-at (λ q. Exact in'.now q occ (get q st.free)) w.before best.resource w.after
          (subst (ExactAll in'.now occ st.free) w.split a)

    longer : best.start < best.start + run_time s
    longer = omega (arith, run_time-pos s v)

    kept :
        ExactAll in'.now
          (record { resource = best.resource; start = best.start; end = best.start + run_time s }
            ∷ occ)
          (carve st.free best.resource best.start s.duration)
          order
    kept =
        carve-ExactAll in'.now occ st.free order best.resource best.start (run_time s) s.duration
          (duration_of-run_time s v) longer
          (chosen.complete best.start _ w.feasible.1 longer w.feasible.2) a

-- A position stays in the queue while slots with other ids are placed.
pub place_all-lookup :
    (in' : Input) (order : List String) (st : Loop) (ss : List Slot) (k : String)
    → All (λ s. k ≢ s.id) ss
    → lookup k (place_all in' order st ss).queue ≡ lookup k st.queue
unfolding place_all
place_all-lookup in' order st [] k h = refl
place_all-lookup in' order st (s ∷ ss) k h =
    place_all-lookup in' order (loop_body in' order st s) ss k h.1
    ∙ unfold loop_body in lookup-insert_ne s.id k _ st.queue (λ e. h.0 (sym e))

loop_body-lookup :
    (in' : Input) (order : List String) (st : Loop) (s : Slot)
    → let best = place st.free order (later_of (earliest_start s) in'.now) s.duration in
      lookup s.id (loop_body in' order st s).queue
      ≡ some (position_of in' s best.start best.resource)
unfolding loop_body
loop_body-lookup in' order st s = lookup-insert_self s.id _ st.queue

module _ (in' : Input) (order : List String) (ne : order ≢ []) (g : pos 0 ≤ℤ in'.grace)
    (f : FitsInt64 in'.grace) where
  place_all-Greedy :
      (ss : List Slot) (occ : List Span) (st : Loop)
      → All IsPlaceable ss
      → DistinctIds ss
      → ExactAll in'.now occ st.free order
      → Greedy in' order occ (place_all in' order st ss).queue ss
  unfolding place_all position_of
  place_all-Greedy [] occ st v d a = tt
  place_all-Greedy (s ∷ ss) occ st v d a =
      let best = place st.free order (later_of (earliest_start s) in'.now) s.duration in
      let p = position_of in' s best.start best.resource in
      let (w, kept) = loop_body-ExactAll in' order occ st s v.0 ne a in
      (
        p,
        place_all-lookup in' order (loop_body in' order st s) ss s.id d.0
            ∙ loop_body-lookup in' order st s,
        w,
        position-Flagged in' s best.start best.resource g f,
        place_all-Greedy ss (occupied_by s p ∷ occ) (loop_body in' order st s) v.1 d.1 kept,
      )

-- The resources in the order in which `place` tries them.
abbrev pub resource_order : Input → List String
resource_order in' = sorted_keys (build_free in'.resources in'.slots in'.now)

-- A call that fits int64: the grace and the durations of the SCHEDULED slots.
pub record FitsInput (in' : Input) : Type 0 where
  pub grace_fits : FitsInt64 in'.grace
  pub slots_fit : All (λ s. FitsInt64 s.duration) in'.slots

placeable :
    (in' : Input)
    → IsValid in'
    → FitsInput in'
    → All IsPlaceable (sort_slots (open_slots in'.slots))
placeable in' v f = All-sort_slots IsPlaceable (open_slots in'.slots) (
    All-keep IsPlaceable (λ s. is_open s.status) in'.slots
      (All-imp _ _ in'.slots (λ s h. record { positive = h.0.duration_pos; fits_int64 = h.1 })
        (All-zip (SlotOk in') (λ s. FitsInt64 s.duration) in'.slots v.slots_ok f.slots_fit)))

distinct : (ss : List Slot) → DistinctIds ss → DistinctIds (sort_slots (open_slots ss))
distinct ss d =
    sort_slots-pairs (λ s t. s.id ≢ t.id) (λ s t ne e. ne (sym e)) (open_slots ss)
      (AllPairs-keep _ (λ s. is_open s.status) ss d)

run-Greedy :
    (in' : Input) (steps : List Step)
    → IsValid in'
    → FitsInput in'
    → DistinctIds in'.slots
    → Greedy in'
        (resource_order in')
        (pinned_spans in'.now in'.slots)
        (run in' steps).queue
        (sort_slots (open_slots in'.slots))
unfolding run
run-Greedy in' steps v f d =
    place_all-Greedy in' (resource_order in')
      (sorted_keys-ne in'.resources in'.slots in'.now v.has_resources) v.grace_nonneg f.grace_fits
      (sort_slots (open_slots in'.slots)) (pinned_spans in'.now in'.slots) _ (placeable in' v f)
      (distinct in'.slots d) (build_free-ExactAll in'.resources in'.slots in'.now)

pub reschedule-run :
    (in' : Input) (r : Result)
    → reschedule in' ≡ rescheduled r
    → (validate in' ≡ none)
      × ((steps : List Step) × (seeds in' ≡ some steps) × (r.queue ≡ (run in' steps).queue))
unfolding reschedule
reschedule-run in' r h = elim (Option-cases (validate in')) [
  | inl e ↦ elim (Option-cases (seeds in')) [
    | inl g ↦ absurd (ground arith)
    | inr (steps, g) ↦ (e, (steps, g, ground arith))
  ]
  | inr (x, e) ↦ absurd (ground arith)
]

-- The queue of a returned result, over the loop's own order of the slots.
pub reschedule_result-Greedy :
    (in' : Input) (r : Result)
    → FitsInput in'
    → DistinctIds in'.slots
    → reschedule in' ≡ rescheduled r
    → Greedy in'
        (resource_order in')
        (pinned_spans in'.now in'.slots)
        r.queue
        (sort_slots (open_slots in'.slots))
reschedule_result-Greedy in' r f d h =
    let (e, (steps, _, q)) = reschedule-run in' r h in
    rw q (run-Greedy in' steps ((validate_iff in').0 e) f d)
