-- ===== src/Api/Handlers.antt =====
-- backend/internal/api/api.go: the nine methods. Errors are their Connect codes; the texts are left out.
pub mod Failed
use qlab.Base.{ℕ, List, map, Option, none, some, String}
use qlab.Scheduling.Apply.{Schedule}
use qlab.Scheduling.Events.{CreateParams}
use qlab.Scheduling.Tables.{
  Tables, ServiceError, not_member, not_found, forbidden, invalid_state, engine_failed, database,
  Attempt, ok, err,
}
use qlab.Scheduling.Service.{
  Settings, Moment, Principal, Result, serve_slots, serve_schedule, clock_user_in, clock_user_out,
  force_clock_user_out, force_user_no_show, poke_user,
}
use qlab.Scheduling.Service
use qlab.Frontend.Proto.{CreateSlotRequest, RescheduleResult}
use qlab.Frontend.Proto.Service.{
  ListSlotsRequest, ListSlotsResponse, GetScheduleRequest, GetScheduleResponse, CreateSlotResponse,
  PokeOccupantResponse, poked, QlabMethod, list_slots, get_schedule, create_slot, clock_in,
  clock_out, cancel_slot, poke_occupant, force_clock_out, force_no_show, Input, Output,
}
use qlab.Api.Convert.{slot_message, result_to_proto, time_from_proto}

pub data Code : Type 0 where
  invalid_argument unauthenticated permission_denied code_not_found failed_precondition : Code
  unavailable internal : Code

pub data Rpc (A : Type 0) : Type 0 where
  response : A → Rpc A
  failure : Code → Rpc A

infixl 5 ◌>>=◌
abbrev pub ◌>>=◌ : {A B : Type 0} → Rpc A → (A → Rpc B) → Rpc B
response a >>= f = f a
failure c >>= f = failure c

-- `connectError`.
unfoldable pub connect_error : ServiceError → Code
connect_error not_found = code_not_found
connect_error not_member = permission_denied
connect_error forbidden = permission_denied
connect_error invalid_state = failed_precondition
connect_error engine_failed = internal
connect_error (database message) = internal

-- The principal of the context, and the service once it is attached.
pub record Context : Type 0 where
  pub principal : Option Principal
  pub sched : Option Settings

unfoldable pub caller : Context → Rpc (Principal × Settings)
caller ctx = elim ctx.principal [
  | none ↦ failure unauthenticated
  | some p ↦ elim ctx.sched [ none ↦ failure unavailable | some s ↦ response (p, s) ]
]

unfoldable pub parse_uuid : (String → Option String) → String → Rpc String
parse_uuid parse s = elim (parse s) [ none ↦ failure invalid_argument | some id ↦ response id ]

unfoldable pub caller_with :
    (String → Option String) → Context → String → Rpc (Principal × Settings × String)
unfolding caller parse_uuid
caller_with parse ctx raw = do (p, s) ← caller ctx; id ← parse_uuid parse raw; response (p, s, id)

abbrev pub answer_with : {A B : Type 0} → (A → B) → Attempt A → Rpc B
answer_with f (ok a) = response (f a)
answer_with f (err e) = failure (connect_error e)

abbrev pub refuse_or : {A B : Type 0} → Rpc A → Tables → (A → Tables × Rpc B) → Tables × Rpc B
refuse_or (response a) t f = f a
refuse_or (failure c) t f = (t, failure c)

module _ {Timestamp : Type 0} (timestamp_of : ℕ → Timestamp) (instant_of : Timestamp → ℕ)
    (parse : String → Option String) (m : Moment) (ctx : Context) where
  abbrev pub reschedule_message : Result → Option (RescheduleResult Timestamp)
  reschedule_message r = some (result_to_proto timestamp_of r.resource_pool_id r.schedule)

  -- A method that changes the tables: its preamble, the service's method, and the response.
  abbrev pub answered_with : {A B : Type 0} → (A → B) → Tables × Attempt A → Tables × Rpc B
  answered_with f (t, a) = (t, answer_with f a)

  abbrev pub slot_method :
      {A B : Type 0}
      → String
      → (Settings → Principal → String → Tables → Tables × Attempt A)
      → (A → B)
      → Tables
      → Tables × Rpc B
  slot_method raw call f t =
      refuse_or (caller_with parse ctx raw) t (λ (p, s, slot). answered_with f (call s p slot t))

  abbrev pub create_params : String → CreateSlotRequest Timestamp → CreateParams
  create_params pool req = record {
    resource_pool_id = pool;
    desired_start = time_from_proto instant_of req.desired_start;
    lookahead_minutes = req.lookahead_minutes;
    duration_minutes = req.duration_minutes;
    note = req.note;
  }

  -- The methods of `Service`. Validation by the interceptor of protovalidate comes before them.
  unfoldable pub handle :
      (method : QlabMethod)
      → Input Timestamp method
      → Tables
      → Tables × Rpc (Output Timestamp method)
  unfolding caller_with connect_error result_to_proto slot_message time_from_proto serve_slots
      serve_schedule Service.create_slot clock_user_in clock_user_out Service.cancel_slot poke_user
      force_clock_user_out force_user_no_show
  handle list_slots req t =
      refuse_or (caller_with parse ctx req.resource_pool_id) t (λ (p, s, pool). (
        t,
        answer_with (λ rows. record { slots = map (slot_message timestamp_of) rows })
            (serve_slots m p pool t),
      ))
  handle get_schedule req t =
      refuse_or (caller_with parse ctx req.resource_pool_id) t (λ (p, s, pool). (
        t,
        answer_with (λ r. record { result = reschedule_message r }) (serve_schedule s m p pool t),
      ))
  handle create_slot req t =
      refuse_or (caller_with parse ctx req.resource_pool_id) t (λ (p, s, pool).
        answered_with (λ r. record { result = reschedule_message r })
          (Service.create_slot s m p (create_params pool req) t))
  handle clock_in req t =
      slot_method req.slot_id (λ s p. clock_user_in s m p)
        (λ r. record { result = reschedule_message r }) t
  handle clock_out req t =
      slot_method req.slot_id (λ s p. clock_user_out s m p)
        (λ r. record { result = reschedule_message r }) t
  handle cancel_slot req t =
      slot_method req.slot_id (λ s p. Service.cancel_slot s m p)
        (λ r. record { result = reschedule_message r }) t
  handle poke_occupant req t = slot_method req.slot_id (λ s p. poke_user s m p) (λ r. poked) t
  handle force_clock_out req t =
      slot_method req.slot_id (λ s p. force_clock_user_out s m p)
        (λ r. record { result = reschedule_message r }) t
  handle force_no_show req t =
      slot_method req.slot_id (λ s p. force_user_no_show s m p)
        (λ r. record { result = reschedule_message r }) t
