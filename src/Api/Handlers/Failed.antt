-- ===== src/Api/Handlers/Failed.antt =====
-- The methods of backend/internal/api/api.go when they fail.
use qlab.Base.{◌≡◌, refl, Option, String, ℕ}
use qlab.Scheduling.Events.{clocks_in, clocks_out, cancels, forces_out, forces_no_show}
use qlab.Frontend.Proto.{RescheduleResult}
use qlab.Scheduling.Tables.{Tables, Attempt, ok, err}
use qlab.Scheduling.Service.{
  Settings, Moment, Principal, serve_slots, serve_schedule, clock_user_in, clock_user_out,
  force_clock_user_out, force_user_no_show,
}
use qlab.Scheduling.Service
use qlab.Scheduling.Service.Undone.{
  IsUndone, slot_event-IsUndone, create_slot-IsUndone, poke_user-IsUndone,
}
use qlab.Frontend.Proto.Service.{
  QlabMethod, list_slots, get_schedule, create_slot, clock_in, clock_out, cancel_slot,
  poke_occupant, force_clock_out, force_no_show, Input,
}
use qlab.Api.Handlers.{
  Rpc, response, failure, Context, caller_with, answer_with, answered_with, refuse_or,
  create_params, reschedule_message, handle,
}

abbrev pub IsRefused : {B : Type 0} → Tables → Tables × Rpc B → Type 0
IsRefused t (u, failure c) = u ≡ t
IsRefused t (u, response b) = Unit

refuse_or-IsRefused :
    {A B : Type 0} (t : Tables) (r : Rpc A) (f : A → Tables × Rpc B)
    → ((a : A) → IsRefused t (f a))
    → IsRefused t (refuse_or r t f)
refuse_or-IsRefused t (response a) f h = h a
refuse_or-IsRefused t (failure c) f h = refl

read-IsRefused :
    {A B : Type 0} (t : Tables) (f : A → B) (r : Attempt A) → IsRefused t (t, answer_with f r)
read-IsRefused t f (ok a) = tt
read-IsRefused t f (err e) = refl

module _ {Timestamp : Type 0} (timestamp_of : ℕ → Timestamp) (instant_of : Timestamp → ℕ)
    (parse : String → Option String) (m : Moment) (ctx : Context) (t : Tables) where
  abbrev message : Service.Result → Option (RescheduleResult Timestamp)
  message = reschedule_message timestamp_of instant_of parse m ctx

  answered-IsRefused :
      {A B : Type 0} (f : A → B) (r : Tables × Attempt A)
      → IsUndone t r
      → IsRefused t (answered_with timestamp_of instant_of parse m ctx f r)
  answered-IsRefused f (u, ok a) h = tt
  answered-IsRefused f (u, err e) h = h

  pub handle-IsRefused :
      (method : QlabMethod) (req : Input Timestamp method)
      → IsRefused t (handle timestamp_of instant_of parse m ctx method req t)
  unfolding handle clock_user_in clock_user_out Service.cancel_slot force_clock_user_out
      force_user_no_show
  handle-IsRefused list_slots req =
      refuse_or-IsRefused t (caller_with parse ctx req.resource_pool_id) _
        (λ (p, s, pool). read-IsRefused t _ (serve_slots m p pool t))
  handle-IsRefused get_schedule req =
      refuse_or-IsRefused t (caller_with parse ctx req.resource_pool_id) _
        (λ (p, s, pool). read-IsRefused t _ (serve_schedule s m p pool t))
  handle-IsRefused create_slot req =
      refuse_or-IsRefused t (caller_with parse ctx req.resource_pool_id) _ (λ (p, s, pool).
        answered-IsRefused _ _ (
          create_slot-IsUndone s m p t
            (create_params timestamp_of instant_of parse m ctx pool req)))
  handle-IsRefused clock_in req =
      refuse_or-IsRefused t (caller_with parse ctx req.slot_id) _ (λ (p, s, slot).
        answered-IsRefused (λ r. record { result = message r }) _
          (slot_event-IsUndone s m p t clocks_in slot))
  handle-IsRefused clock_out req =
      refuse_or-IsRefused t (caller_with parse ctx req.slot_id) _ (λ (p, s, slot).
        answered-IsRefused (λ r. record { result = message r }) _
          (slot_event-IsUndone s m p t clocks_out slot))
  handle-IsRefused cancel_slot req =
      refuse_or-IsRefused t (caller_with parse ctx req.slot_id) _ (λ (p, s, slot).
        answered-IsRefused (λ r. record { result = message r }) _
          (slot_event-IsUndone s m p t cancels slot))
  handle-IsRefused poke_occupant req =
      refuse_or-IsRefused t (caller_with parse ctx req.slot_id) _
        (λ (p, s, slot). answered-IsRefused _ _ (poke_user-IsUndone s m p t slot))
  handle-IsRefused force_clock_out req =
      refuse_or-IsRefused t (caller_with parse ctx req.slot_id) _ (λ (p, s, slot).
        answered-IsRefused (λ r. record { result = message r }) _
          (slot_event-IsUndone s m p t forces_out slot))
  handle-IsRefused force_no_show req =
      refuse_or-IsRefused t (caller_with parse ctx req.slot_id) _ (λ (p, s, slot).
        answered-IsRefused (λ r. record { result = message r }) _
          (slot_event-IsUndone s m p t forces_no_show slot))
