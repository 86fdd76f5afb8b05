-- ===== src/DynamicQueue/Slot.antt =====
-- backend/internal/dynamicqueue: ids.go, slot.go, resource.go, queue.go, interface.go, trace.go.
-- An instant is a number of nanoseconds, counted from 2 ^ 63 ns before Go's zero Time, so that no
-- int64 Duration leads below the origin from an instant at or after the zero Time. An id is its
-- text. A Trace step's Detail keeps the values that the text is formatted from.
use qlab.Base.{
  ℕ, ◌^◌, Bool, true, false, not, List, String, ℤ, Map, str_eq, ◌==◌, neg_ℤ, scale_ℤ, wrap64, shift,
}

abbrev pub zero_time : ℕ
zero_time = 2 ^ 63

unfoldable pub is_zero : ℕ → Bool
is_zero t = t == zero_time

abbrev pub minute : ℕ
minute = 60000000000

-- `Minutes.Duration`: an int64 product, which wraps.
unfoldable pub duration_of : ℤ → ℤ
duration_of m = wrap64 (scale_ℤ minute m)

-- `ResourceID.IsAssigned`.
unfoldable pub is_assigned : String → Bool
is_assigned r = not (str_eq r "")

pub data ResourceKind : Type 0 where
  unknown_kind vent_hood : ResourceKind

pub record Resource : Type 0 where
  pub id : String
  pub resource_pool_id : String
  pub kind : ResourceKind

pub data SlotStatus : Type 0 where
  unknown scheduled active : SlotStatus

abbrev pub is_open : SlotStatus → Bool
is_open scheduled = true
is_open _ = false

abbrev pub is_pinned : SlotStatus → Bool
is_pinned active = true
is_pinned _ = false

pub record Slot : Type 0 where
  pub id : String
  pub user_id : String
  pub lab_id : String
  pub resource_pool_id : String
  pub slot_priority : ℤ
  pub status : SlotStatus
  pub desired_start : ℕ
  pub lookahead : ℤ
  pub duration : ℤ
  pub committed_start : ℕ
  pub assigned_resource : String
  pub actual_start : ℕ
  pub projected_end : ℕ
  pub note : String

-- `Slot.EarliestStart`.
unfoldable pub earliest_start : Slot → ℕ
earliest_start s = shift s.desired_start (wrap64 (neg_ℤ (duration_of s.lookahead)))

pub record Input : Type 0 where
  pub resource_pool_id : String
  pub slots : List Slot
  pub resources : List Resource
  pub now : ℕ
  pub grace : ℤ

pub record SlotPosition : Type 0 where
  pub actual_start : ℕ
  pub assigned_resource : String
  pub recommitted : Bool
  pub reclaimable : Bool

abbrev pub Queue : Type 0
Queue = Map SlotPosition

pub data StepKind : Type 0 where
  unknown_step seed_resource flag_reclaimable place_slot gap_fill recommit : StepKind

pub data Detail : Type 0 where
  free_from_instant : ℕ → Detail
  placed : ℕ → ℕ → String → Detail
  start_changed : ℕ → ℕ → Detail
  grace_lapsed : ℕ → ℤ → ℕ → Detail

pub record Step : Type 0 where
  pub kind : StepKind
  pub slot : String
  pub resource : String
  pub at : ℕ
  pub detail : Detail

pub record Result : Type 0 where
  pub queue : Queue
  pub trace : List Step
