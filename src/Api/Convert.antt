-- ===== src/Api/Convert.antt =====
-- backend/internal/protoconv/protoconv.go and backend/internal/api/convert.go. `timestamp_of` and
-- `instant_of` are timestamppb.New and AsTime.
use qlab.Base.{ℕ, map, Option, none, some, String, str_eq, ◌==◌, if◌then◌else◌, wrap32}
use qlab.DynamicQueue.Slot.{zero_time}
use qlab.Scheduling.Store.{
  SlotStatus, unknown, scheduled, active, complete, cancelled, no_show, Slot, nil_uuid,
}
use qlab.Scheduling.Apply.{Position, Schedule}
use qlab.Frontend.Proto.{
  SlotStatus as StatusMessage, unspecified, scheduled as scheduled_message,
  active as active_message, complete as complete_message, cancelled as cancelled_message,
  no_show as no_show_message, SlotMessage, SlotPositionMessage, RescheduleResult,
}

-- `UUID`: the nil uuid is the empty text.
unfoldable pub uuid_text : String → String
uuid_text id = if str_eq id nil_uuid then "" else id

-- `SlotStatus`.
unfoldable pub status_message : SlotStatus → StatusMessage
status_message scheduled = scheduled_message
status_message active = active_message
status_message complete = complete_message
status_message cancelled = cancelled_message
status_message no_show = no_show_message
status_message unknown = unspecified

module _ {Timestamp : Type 0} (timestamp_of : ℕ → Timestamp) where
  -- `Time`: the zero instant is no timestamp.
  unfoldable pub time_message : ℕ → Option Timestamp
  time_message t = if t == zero_time then none else some (timestamp_of t)

  -- `Slot`.
  unfoldable pub slot_message : Slot → SlotMessage Timestamp
  unfolding uuid_text status_message time_message wrap32
  slot_message s = record {
    id = s.id;
    lab_id = s.lab_id;
    user_id = s.user_id;
    resource_pool_id = s.resource_pool_id;
    assigned_resource_id = uuid_text s.resource_id;
    slot_priority = wrap32 s.priority;
    status = status_message s.status;
    desired_start = time_message s.desired_start;
    lookahead_minutes = s.lookahead_minutes;
    duration_minutes = s.duration_minutes;
    committed_start = time_message s.committed_start;
    actual_start = time_message s.actual_start;
    note = s.note;
  }

  unfoldable pub position_message : Position → SlotPositionMessage Timestamp
  unfolding uuid_text time_message
  position_message p = record {
    slot_id = p.slot_id;
    actual_start = time_message p.actual_start;
    assigned_resource_id = uuid_text p.assigned_resource_id;
    recommitted = p.recommitted;
    reclaimable = p.reclaimable;
  }

  -- `resultToProto`, of a schedule of the pool.
  unfoldable pub result_to_proto : String → Schedule → RescheduleResult Timestamp
  unfolding slot_message position_message
  result_to_proto pool r = record {
    resource_pool_id = pool;
    slots = map slot_message r.slots;
    positions = map position_message r.positions;
  }

-- `timeFromProto`.
unfoldable pub time_from_proto : {Timestamp : Type 0} → (Timestamp → ℕ) → Option Timestamp → ℕ
time_from_proto instant_of none = zero_time
time_from_proto instant_of (some ts) = instant_of ts
