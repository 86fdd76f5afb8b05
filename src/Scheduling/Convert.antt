-- ===== src/Scheduling/Convert.antt =====
-- backend/internal/services/scheduling/v1/convert.go: the engine's input from a pool's slots, and what
-- its queue makes of them. The span and the logger are left out.
use qlab.Base.{
  ℕ, List, [], ◌∷◌, map, Option, none, some, String, ℤ, shift, ltb, if◌then◌else◌, wrap32,
}
use qlab.DynamicQueue.Slot.{
  duration_of, zero_time, Input, Slot as EngineSlot, Resource as EngineResource,
  ResourceKind as EngineKind, unknown_kind as engine_unknown, vent_hood as engine_vent_hood,
  scheduled as engine_scheduled, active as engine_active,
}
use qlab.Scheduling.Store.{
  ResourceKind, unknown_kind, vent_hood, Resource, Slot, SlotStatus, scheduled, active, is_live,
}

unfoldable pub later_instant : ℕ → ℕ → ℕ
later_instant a b = if ltb b a then a else b

abbrev pub engine_kind : ResourceKind → EngineKind
engine_kind vent_hood = engine_vent_hood
engine_kind unknown_kind = engine_unknown

-- `toEngineSlot` of a slot with a status of the engine's; an int64 priority becomes an int32.
unfoldable pub waiting_slot : Slot → EngineSlot
unfolding wrap32
waiting_slot s = record {
  id = s.id;
  user_id = s.user_id;
  lab_id = s.lab_id;
  resource_pool_id = s.resource_pool_id;
  slot_priority = wrap32 s.priority;
  status = engine_scheduled;
  desired_start = s.desired_start;
  lookahead = s.lookahead_minutes;
  duration = s.duration_minutes;
  committed_start = s.committed_start;
  assigned_resource = "";
  actual_start = zero_time;
  projected_end = zero_time;
  note = s.note;
}

unfoldable pub running_slot : Slot → ℕ → EngineSlot
unfolding waiting_slot later_instant
running_slot s now = record (waiting_slot s) {
  status = engine_active;
  assigned_resource = s.resource_id;
  actual_start = s.actual_start;
  projected_end = later_instant (shift s.actual_start (duration_of s.duration_minutes)) now;
}

abbrev pub engine_slot_of : SlotStatus → Slot → ℕ → Option EngineSlot
engine_slot_of scheduled s now = some (waiting_slot s)
engine_slot_of active s now = some (running_slot s now)
engine_slot_of _ s now = none

unfoldable pub to_engine_slot : Slot → ℕ → Option EngineSlot
unfolding waiting_slot running_slot
to_engine_slot s now = engine_slot_of s.status s now

abbrev pub to_engine_resource : Resource → EngineResource
to_engine_resource r = record {
  id = r.id;
  resource_pool_id = r.resource_pool_id;
  kind = engine_kind r.kind;
}

-- The loop over the slots: settled ones are skipped; an error ends it.
abbrev pub with_slot : Option EngineSlot → Option (List EngineSlot) → Option (List EngineSlot)
with_slot (some e) (some es) = some (e ∷ es)
with_slot _ _ = none

unfoldable pub engine_slots : List Slot → ℕ → Option (List EngineSlot)
unfolding to_engine_slot
engine_slots [] now = some []
engine_slots (s ∷ ss) now =
    let rest = engine_slots ss now in
    if is_live s.status then with_slot (to_engine_slot s now) rest else rest

-- `buildEngineInput`.
unfoldable pub build_engine_input : String → List Slot → List Resource → ℤ → ℕ → Option Input
unfolding engine_slots
build_engine_input pool working resources grace now = elim (engine_slots working now) [
  | none ↦ none
  | some es ↦ some (record {
    resource_pool_id = pool;
    slots = es;
    resources = map to_engine_resource resources;
    now = now;
    grace = grace;
  })
]
