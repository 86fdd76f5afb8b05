-- ===== src/Frontend/Proto/Service.antt =====
-- frontend/src/protogen/qlab/v1/service_pb.ts: the requests and responses of QlabService, and its
-- methods with what goes in and what comes out.
use Prim.Native.String.{◌++◌}
use qlab.Base.{Option, List, String}
use qlab.Frontend.Proto.{SlotMessage, RescheduleResult, CreateSlotRequest}

pub record ListSlotsRequest : Type 0 where
  pub resource_pool_id : String

pub record ListSlotsResponse (Timestamp : Type 0) : Type 0 where
  pub slots : List (SlotMessage Timestamp)

pub record GetScheduleRequest : Type 0 where
  pub resource_pool_id : String

pub record GetScheduleResponse (Timestamp : Type 0) : Type 0 where
  pub result : Option (RescheduleResult Timestamp)

pub record ClockInRequest : Type 0 where
  pub slot_id : String

pub record ClockOutRequest : Type 0 where
  pub slot_id : String

pub record CancelSlotRequest : Type 0 where
  pub slot_id : String

pub record PokeOccupantRequest : Type 0 where
  pub slot_id : String

pub record ForceClockOutRequest : Type 0 where
  pub slot_id : String

pub record ForceNoShowRequest : Type 0 where
  pub slot_id : String

pub record CreateSlotResponse (Timestamp : Type 0) : Type 0 where
  pub result : Option (RescheduleResult Timestamp)

pub record ClockInResponse (Timestamp : Type 0) : Type 0 where
  pub result : Option (RescheduleResult Timestamp)

pub record ClockOutResponse (Timestamp : Type 0) : Type 0 where
  pub result : Option (RescheduleResult Timestamp)

pub record CancelSlotResponse (Timestamp : Type 0) : Type 0 where
  pub result : Option (RescheduleResult Timestamp)

pub record ForceClockOutResponse (Timestamp : Type 0) : Type 0 where
  pub result : Option (RescheduleResult Timestamp)

pub record ForceNoShowResponse (Timestamp : Type 0) : Type 0 where
  pub result : Option (RescheduleResult Timestamp)

pub data PokeOccupantResponse : Type 0 where
  poked : PokeOccupantResponse

pub data QlabMethod : Type 0 where
  list_slots get_schedule create_slot clock_in clock_out cancel_slot poke_occupant : QlabMethod
  force_clock_out force_no_show : QlabMethod

abbrev pub Input : Type 0 → QlabMethod → Type 0
Input T list_slots = ListSlotsRequest
Input T get_schedule = GetScheduleRequest
Input T create_slot = CreateSlotRequest T
Input T clock_in = ClockInRequest
Input T clock_out = ClockOutRequest
Input T cancel_slot = CancelSlotRequest
Input T poke_occupant = PokeOccupantRequest
Input T force_clock_out = ForceClockOutRequest
Input T force_no_show = ForceNoShowRequest

abbrev pub Output : Type 0 → QlabMethod → Type 0
Output T list_slots = ListSlotsResponse T
Output T get_schedule = GetScheduleResponse T
Output T create_slot = CreateSlotResponse T
Output T clock_in = ClockInResponse T
Output T clock_out = ClockOutResponse T
Output T cancel_slot = CancelSlotResponse T
Output T poke_occupant = PokeOccupantResponse
Output T force_clock_out = ForceClockOutResponse T
Output T force_no_show = ForceNoShowResponse T

abbrev pub method_name : QlabMethod → String
method_name list_slots = "ListSlots"
method_name get_schedule = "GetSchedule"
method_name create_slot = "CreateSlot"
method_name clock_in = "ClockIn"
method_name clock_out = "ClockOut"
method_name cancel_slot = "CancelSlot"
method_name poke_occupant = "PokeOccupant"
method_name force_clock_out = "ForceClockOut"
method_name force_no_show = "ForceNoShow"

-- The path that the Connect protocol posts a call to.
abbrev pub path : QlabMethod → String
path method = "/qlab.v1.QlabService/" ++ method_name method
