-- ===== src/Scheduling/Store.antt =====
-- backend/internal/store/slot.go: the persisted slot. A uuid is its text; instants are those of the
-- engine's model. Also resource.go, for the resources.
use qlab.Base.{ℕ, Bool, true, false, String, ℤ}

pub data SlotStatus : Type 0 where
  unknown scheduled active complete cancelled no_show : SlotStatus

-- `SlotStatus.IsLive`.
abbrev pub is_live : SlotStatus → Bool
is_live scheduled = true
is_live active = true
is_live _ = false

abbrev pub is_scheduled : SlotStatus → Bool
is_scheduled scheduled = true
is_scheduled _ = false

abbrev pub is_active : SlotStatus → Bool
is_active active = true
is_active _ = false

pub record Slot : Type 0 where
  pub id : String
  pub lab_id : String
  pub user_id : String
  pub resource_pool_id : String
  pub resource_id : String
  pub priority : ℤ
  pub status : SlotStatus
  pub desired_start : ℕ
  pub lookahead_minutes : ℤ
  pub duration_minutes : ℤ
  pub committed_start : ℕ
  pub actual_start : ℕ
  pub note : String

pub data ResourceKind : Type 0 where
  unknown_kind vent_hood : ResourceKind

pub record Resource : Type 0 where
  pub id : String
  pub resource_pool_id : String
  pub lab_id : String
  pub kind : ResourceKind
  pub name : String

abbrev pub nil_uuid : String
nil_uuid = "00000000-0000-0000-0000-000000000000"
