-- ===== src/Scheduling/Apply.antt =====
-- backend/internal/services/scheduling/v1/convert.go: `applyEngine`, `computeSchedule` and
-- `placeScheduled`. `parse` is uuid.Parse on a resource's id, `recommit` the notification that the
-- builder makes for a slot; spans and logs are left out.
pub mod ReadOnly
pub mod Writes
pub mod Outbox
use qlab.Base.{
  ℕ, Bool, true, false, List, [], ◌∷◌, ◌++◌, keep, Option, none, some, String, ℤ, lookup,
  if◌then◌else◌,
}
use qlab.DynamicQueue.Slot.{Queue, SlotPosition, Input}
use qlab.DynamicQueue.Reschedule.{Outcome, rescheduled, reschedule}
use qlab.Scheduling.Store.{SlotStatus, scheduled, active, Slot, Resource, is_live}
use qlab.Scheduling.Convert.{build_engine_input}

pub record Position : Type 0 where
  pub slot_id : String
  pub actual_start : ℕ
  pub assigned_resource_id : String
  pub recommitted : Bool
  pub reclaimable : Bool

pub record Schedule : Type 0 where
  pub slots : List Slot
  pub positions : List Position

module _ (parse : String → Option String) where
  abbrev pub placed_at : Slot → SlotPosition → Option String → Option (Slot × Position)
  placed_at s p none = none
  placed_at s p (some r) = some (
    record s { actual_start = p.actual_start; resource_id = r },
    record {
      slot_id = s.id;
      actual_start = p.actual_start;
      assigned_resource_id = r;
      recommitted = p.recommitted;
      reclaimable = p.reclaimable;
    },
  )

  -- `placeScheduled`; its errors are `none`.
  unfoldable pub place_scheduled : Slot → Queue → Option (Slot × Position)
  place_scheduled s queue = elim (lookup s.id queue) [
    | none ↦ none
    | some p ↦ placed_at s p (parse p.assigned_resource)
  ]

  -- The loop of `computeSchedule`.
  abbrev pub shown : Option (Slot × Position) → Option Schedule → Option Schedule
  shown (some (s, p)) (some rest) =
      some (record { slots = s ∷ rest.slots; positions = p ∷ rest.positions })
  shown _ _ = none

  abbrev pub shown_as_is : Slot → Option Schedule → Option Schedule
  shown_as_is s none = none
  shown_as_is s (some rest) = some (record { slots = s ∷ rest.slots; positions = rest.positions })

  abbrev pub shown_slot : SlotStatus → Slot → Queue → Option Schedule → Option Schedule
  shown_slot scheduled s queue rest = shown (place_scheduled s queue) rest
  shown_slot active s queue rest = shown_as_is s rest
  shown_slot _ s queue rest = rest

  unfoldable pub compute_loop : Queue → List Slot → Option Schedule
  unfolding place_scheduled
  compute_loop queue [] = some (record { slots = []; positions = [] })
  compute_loop queue (s ∷ ss) = shown_slot s.status s queue (compute_loop queue ss)

-- What `applyEngine` gives: the rows to write, the notifications, and the schedule.
pub record Applied (Row : Type 0) : Type 0 where
  pub writes : List Slot
  pub outbox : List Row
  pub schedule : Schedule

module _ {Row : Type 0} (parse : String → Option String) (recommit : Slot → Row) where
  -- A recommitted slot is told its new start.
  abbrev pub committed : Slot → Position → Slot
  committed s p = if p.recommitted then record s { committed_start = p.actual_start } else s

  abbrev pub notices : Slot → Position → List Row → List Row
  notices s p rows = if p.recommitted then recommit (committed s p) ∷ rows else rows

  abbrev pub applied : Option (Slot × Position) → Option (Applied Row) → Option (Applied Row)
  applied (some (s, p)) (some rest) = some (record {
    writes = committed s p ∷ rest.writes;
    outbox = notices s p rest.outbox;
    schedule = record {
      slots = committed s p ∷ rest.schedule.slots;
      positions = p ∷ rest.schedule.positions;
    };
  })
  applied _ _ = none

  abbrev pub applied_as_is : Bool → Slot → Option (Applied Row) → Option (Applied Row)
  applied_as_is live s none = none
  applied_as_is live s (some rest) = some (record {
    writes = s ∷ rest.writes;
    outbox = rest.outbox;
    schedule = record {
      slots = if live then s ∷ rest.schedule.slots else rest.schedule.slots;
      positions = rest.schedule.positions;
    };
  })

  abbrev pub applied_slot : SlotStatus → Slot → Queue → Option (Applied Row) → Option (Applied Row)
  applied_slot scheduled s queue rest = applied (place_scheduled parse s queue) rest
  applied_slot active s queue rest = applied_as_is true s rest
  applied_slot _ s queue rest = applied_as_is false s rest

  -- The loop of `applyEngine`; the notifications of the event itself stand before these.
  unfoldable pub apply_loop : Queue → List Slot → Option (Applied Row)
  unfolding place_scheduled
  apply_loop queue [] =
      some (record { writes = []; outbox = []; schedule = record { slots = []; positions = [] } })
  apply_loop queue (s ∷ ss) = applied_slot s.status s queue (apply_loop queue ss)

unfoldable pub live_slots : List Slot → List Slot
live_slots slots = keep (λ s. is_live s.status) slots

abbrev pub is_empty : List Resource → Bool
is_empty [] = true
is_empty _ = false

abbrev pub queue_of : Outcome → Option Queue
queue_of (rescheduled r) = some r.queue
queue_of _ = none

abbrev pub run_engine : Option Input → Option Queue
run_engine none = none
run_engine (some i) = queue_of (reschedule i)

module _ {Row : Type 0} (parse : String → Option String) (recommit : Slot → Row) (pool : String)
    (working : List Slot) (resources : List Resource) (grace : ℤ) (now : ℕ) where
  abbrev pub after_extra : List Row → Option (Applied Row) → Option (Applied Row)
  after_extra extra none = none
  after_extra extra (some a) = some (record a { outbox = extra ++ a.outbox })

  abbrev pub apply_queue : List Row → Option Queue → Option (Applied Row)
  apply_queue extra none = none
  apply_queue extra (some queue) = after_extra extra (apply_loop parse recommit queue working)

  -- `applyEngine`; `extra` are the event's own notifications.
  unfoldable pub apply_engine : List Row → Option (Applied Row)
  unfolding build_engine_input apply_loop reschedule
  apply_engine extra =
      apply_queue extra (run_engine (build_engine_input pool working resources grace now))

  abbrev pub show_queue : Option Queue → Option Schedule
  show_queue none = none
  show_queue (some queue) = compute_loop parse queue working

  -- `computeSchedule`; without resources the live slots are shown as they are.
  unfoldable pub compute_schedule : Option Schedule
  unfolding build_engine_input compute_loop reschedule live_slots
  compute_schedule =
      if is_empty resources
      then some (record { slots = live_slots working; positions = [] })
      else show_queue (run_engine (build_engine_input pool working resources grace now))
