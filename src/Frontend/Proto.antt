-- ===== src/Frontend/Proto.antt =====
-- frontend/src/protogen: the messages of qlab.v1 and qlab.dev.v1.
-- `Timestamp` is the type of @bufbuild/protobuf. An int32 is an integer, an unset message `none`.
pub mod Service
pub mod Dev
use qlab.Base.{Bool, List, Option, String, ℤ}

pub data LabRole : Type 0 where
  role_unspecified head member : LabRole

pub data SlotStatus : Type 0 where
  unspecified scheduled active complete cancelled no_show : SlotStatus

pub data ResourceKind : Type 0 where
  kind_unspecified vent_hood : ResourceKind

pub record LabMessage : Type 0 where
  pub id : String
  pub name : String

pub record UserMessage : Type 0 where
  pub id : String
  pub email : String
  pub first_name : String
  pub last_name : String

pub record ResourcePoolMessage : Type 0 where
  pub id : String
  pub lab_id : String
  pub kind : ResourceKind
  pub name : String

pub record ResourceMessage : Type 0 where
  pub id : String
  pub resource_pool_id : String
  pub lab_id : String
  pub kind : ResourceKind
  pub name : String

pub record SlotMessage (Timestamp : Type 0) : Type 0 where
  pub id : String
  pub lab_id : String
  pub user_id : String
  pub resource_pool_id : String
  pub assigned_resource_id : String
  pub slot_priority : ℤ
  pub status : SlotStatus
  pub desired_start : Option Timestamp
  pub lookahead_minutes : ℤ
  pub duration_minutes : ℤ
  pub committed_start : Option Timestamp
  pub actual_start : Option Timestamp
  pub note : String

pub record SlotPositionMessage (Timestamp : Type 0) : Type 0 where
  pub slot_id : String
  pub actual_start : Option Timestamp
  pub assigned_resource_id : String
  pub recommitted : Bool
  pub reclaimable : Bool

pub record RescheduleResult (Timestamp : Type 0) : Type 0 where
  pub resource_pool_id : String
  pub slots : List (SlotMessage Timestamp)
  pub positions : List (SlotPositionMessage Timestamp)

pub record CreateSlotRequest (Timestamp : Type 0) : Type 0 where
  pub resource_pool_id : String
  pub desired_start : Option Timestamp
  pub lookahead_minutes : ℤ
  pub duration_minutes : ℤ
  pub note : String

pub record LabMember : Type 0 where
  pub user : Option UserMessage
  pub role : LabRole

pub record ProvisionLabRequest : Type 0 where
  pub feature : String
  pub member_count : ℤ
  pub resource_count : ℤ

pub record ProvisionLabResponse : Type 0 where
  pub lab : Option LabMessage
  pub pool : Option ResourcePoolMessage
  pub members : List LabMember
  pub resources : List ResourceMessage

pub record MintTokenResponse : Type 0 where
  pub id_token : String
  pub user : Option UserMessage

pub record LabSummary : Type 0 where
  pub lab : Option LabMessage
  pub user_count : ℤ
  pub resource_count : ℤ

pub record GetLabResponse (Timestamp : Type 0) : Type 0 where
  pub lab : Option LabMessage
  pub members : List LabMember
  pub pools : List ResourcePoolMessage
  pub resources : List ResourceMessage
  pub slots : List (SlotMessage Timestamp)
