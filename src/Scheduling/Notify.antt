-- ===== src/Scheduling/Notify.antt =====
-- backend/internal/services/notifications/v1/v1.go and backend/internal/store/outbox.go. A payload
-- keeps the values that the JSON text is made of.
use Prim.Native.String.{◌++◌}
use qlab.Base.{ℕ, ◌+◌, ◌/◌, String, ℤ, sub_ℕ, decimal_ℤ}
use qlab.Scheduling.Store.{Slot}

pub data Payload : Type 0 where
  recommit_payload : String → String → String → String → ℕ → Payload
  poke_payload : String → String → String → String → String → Payload

pub record OutboxRow : Type 0 where
  pub lab_id : String
  pub dedup_key : String
  pub event_type : String
  pub payload : Payload
  pub recipient_user_id : String
  pub actor_user_id : String

-- `Time.Unix`: whole seconds since 1970, rounded down.
unfoldable pub unix : ℕ → ℤ
unix t = sub_ℕ ((t + 145224192) / 1000000000) 71358968837

unfoldable pub recommit : String → Slot → OutboxRow
unfolding unix decimal_ℤ
recommit actor slot = record {
  lab_id = slot.lab_id;
  dedup_key = "recommit:" ++ (slot.id ++ (":" ++ decimal_ℤ (unix slot.actual_start)));
  event_type = "slot_recommitted";
  payload =
      recommit_payload slot.id slot.lab_id slot.resource_pool_id slot.user_id slot.actual_start;
  recipient_user_id = slot.user_id;
  actor_user_id = actor;
}

unfoldable pub poke : String → Slot → ℕ → OutboxRow
unfolding unix decimal_ℤ
poke by_user_id occupant now = record {
  lab_id = occupant.lab_id;
  dedup_key = "poke:" ++ (occupant.id ++ (":" ++ decimal_ℤ (unix now)));
  event_type = "poke";
  payload =
      poke_payload occupant.id occupant.lab_id occupant.resource_pool_id occupant.user_id
        by_user_id;
  recipient_user_id = occupant.user_id;
  actor_user_id = by_user_id;
}
