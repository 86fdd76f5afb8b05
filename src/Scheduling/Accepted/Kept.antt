-- ===== src/Scheduling/Accepted/Kept.antt =====
-- Every event of backend/internal/services/scheduling/v1/events.go and a pool's rows: they stay
-- well-formed.
use qlab.Base.{
  ℕ, ◌≡◌, refl, subst, inl, inr, Bool, false, List, Option, none, some, String, ℤ, arith,
  Option-cases,
}
use qlab.DynamicQueue.Slot.{Input, Result}
use qlab.DynamicQueue.Reschedule.{reschedule, rescheduled}
use qlab.DynamicQueue.Reschedule.Total.{reschedule-returns_iff}
use qlab.Scheduling.Store.{
  SlotStatus, Resource, Slot, is_live, is_active, complete, cancelled, no_show, nil_uuid,
}
use qlab.Scheduling.Helpers.{find_slot, update_slot}
use qlab.Scheduling.Convert.{build_engine_input}
use qlab.Scheduling.Events.{
  changed, create_slot, pinned_at, resource_for, clock_in_target, clock_user_in, settle_target,
  clock_user_out, cancel_slot, force_target, force_clock_user_out, force_user_no_show,
  is_cancellable, is_overrun, is_lapsed, Event, creates, clocks_in, clocks_out, cancels, forces_out,
  forces_no_show, build,
}
use qlab.Scheduling.Accepted.Writes.{found-All}
use qlab.Scheduling.Accepted.Pins.{settled-WellFormed, pinned-WellFormed, resource_for_lem}
use qlab.Scheduling.Accepted.Bookings.{Bookable, create-WellFormed}
use qlab.Scheduling.Accepted.{RowOk, WellFormed, PoolOk, build_engine_input-IsValid}

-- The outcomes, by whether a slot was found.
module _ (pool caller slot : String) (working after : List Slot) (w : WellFormed pool working) where
  settle-WellFormed :
      (from : SlotStatus → Bool) (to : SlotStatus) (o : Option Slot)
      → is_live to ≡ false
      → find_slot working slot ≡ o
      → settle_target from to o caller slot working ≡ changed after
      → WellFormed pool after
  settle-WellFormed from to none l e h = absurd (cc)
  settle-WellFormed from to (some t) l e h =
      subst (WellFormed pool) (ground arith) (settled-WellFormed pool to slot t working l e w)

  force-WellFormed :
      (may : Slot → Bool) (to : SlotStatus) (exclude : String) (o : Option Slot)
      → is_live to ≡ false
      → find_slot working slot ≡ o
      → force_target may to o exclude caller slot working ≡ changed after
      → WellFormed pool after
  force-WellFormed may to exclude none l e h = absurd (cc)
  force-WellFormed may to exclude (some t) l e h =
      subst (WellFormed pool) (ground arith) (settled-WellFormed pool to slot t working l e w)

  clock_in-WellFormed :
      (resources : List Resource) (grace : ℤ) (now : ℕ) (o : Option Slot)
      → PoolOk pool resources grace
      → find_slot working slot ≡ o
      → clock_in_target o caller slot resources now working ≡ changed after
      → WellFormed pool after
  clock_in-WellFormed resources grace now none p e h = absurd (cc)
  clock_in-WellFormed resources grace now (some t) p e h =
      elim (Option-cases (resource_for resources working t)) [
        | inl n ↦ absurd (no_resource n)
        | inr (r, f) ↦
            let q =
              resource_for_lem resources working t r p.resource_texts
                (found-All slot t (RowOk pool) working e w.rows).resource_text f in
            subst (WellFormed pool) (written r f)
              (pinned-WellFormed pool r now slot t working (ground arith) e q.0 q.1 w)
      ]
    where
      no_resource : resource_for resources working t ≡ none → ⊥
      no_resource n = ground arith

      written :
          (r : String)
          → resource_for resources working t ≡ some r
          → update_slot slot (pinned_at r now) working ≡ after
      written r f = ground arith

-- What an event needs: a booking is to be one of this pool, and well-formed.
abbrev pub Admits : String → Event → List Slot → Type 0
Admits pool (creates id lab caller params) working = Bookable pool params working
Admits pool _ working = Unit

-- An event keeps the rows well-formed.
event-WellFormed :
    (pool : String) (resources : List Resource) (grace : ℤ) (now : ℕ) (event : Event)
    (working after : List Slot)
    → PoolOk pool resources grace
    → WellFormed pool working
    → Admits pool event working
    → build event resources grace now working ≡ changed after
    → WellFormed pool after
unfolding build create_slot clock_user_in clock_user_out cancel_slot force_clock_user_out
    force_user_no_show
event-WellFormed pool resources grace now (creates id lab caller params) working after p w a h =
    subst (WellFormed pool) (ground arith) (create-WellFormed pool id lab caller params working a w)
event-WellFormed pool resources grace now (clocks_in caller slot) working after p w a h =
    clock_in-WellFormed pool caller slot working after w resources grace now _ p refl h
event-WellFormed pool resources grace now (clocks_out caller slot) working after p w a h =
    settle-WellFormed pool caller slot working after w is_active complete _ refl refl h
event-WellFormed pool resources grace now (cancels caller slot) working after p w a h =
    settle-WellFormed pool caller slot working after w is_cancellable cancelled _ refl refl h
event-WellFormed pool resources grace now (forces_out caller slot) working after p w a h =
    force-WellFormed pool caller slot working after w (is_overrun now) complete nil_uuid _ refl refl
      h
event-WellFormed pool resources grace now (forces_no_show caller slot) working after p w a h =
    force-WellFormed pool caller slot working after w (is_lapsed grace now) no_show slot _ refl refl
      h

-- On a pool with resources whose rows are well-formed (of the pool, with positive durations, no
-- negative lookaheads, live priorities that differ and fit int32, and one ACTIVE slot to a resource),
-- whatever event the service lets happen leaves rows that are well-formed too, and the engine, run
-- on the input that the service builds from them, returns a schedule. The grace is not negative; a
-- booking is to be of the pool, with a positive duration and no negative lookahead, and the
-- priorities are not to have run out of int32.
pub event-reschedules :
    (pool : String) (resources : List Resource) (grace : ℤ) (now : ℕ) (event : Event)
    (working after : List Slot)
    → PoolOk pool resources grace
    → WellFormed pool working
    → Admits pool event working
    → build event resources grace now working ≡ changed after
    → WellFormed pool after
      × ((i : Input) × (r : Result) × (build_engine_input pool after resources grace now ≡ some i)
          × (reschedule i ≡ rescheduled r))
event-reschedules pool resources grace now event working after p w a h =
    let k = event-WellFormed pool resources grace now event working after p w a h in
    let (i, e, v) = build_engine_input-IsValid pool after resources grace now p k in
    let (r, s) = (reschedule-returns_iff i).1.1 v in (k, (i, r, e, s))
