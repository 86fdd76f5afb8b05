-- ===== src/Scheduling/Events.antt =====
-- backend/internal/services/scheduling/v1/events.go: the callbacks that the events hand to `mutate`,
-- on the working set of a pool's slots. `caller` is the principal's user. What comes before them,
-- the membership and the look-up of the slot's pool, is the store's and the authorizer's.
use qlab.Base.{
  ℕ, Bool, not, ◌&&◌, ◌||◌, List, [], ◌∷◌, ◌++◌, Option, none, some, String, ℤ, str_eq,
  if◌then◌else◌,
}
use qlab.DynamicQueue.Slot.{zero_time}
use qlab.Scheduling.Store.{
  SlotStatus, scheduled, active, complete, cancelled, no_show, is_scheduled, is_active, Slot,
  Resource, nil_uuid,
}
use qlab.Scheduling.Helpers.{
  find_slot, update_slot, next_priority, resource_has_active, first_free_resource, overrunning,
  grace_lapsed, is_next_in_line,
}

pub data EventError : Type 0 where
  invalid_state forbidden : EventError

-- What a callback returns: an error, or the working set after the event.
pub data Outcome : Type 0 where
  failed : EventError → Outcome
  changed : List Slot → Outcome

pub record CreateParams : Type 0 where
  pub resource_pool_id : String
  pub desired_start : ℕ
  pub lookahead_minutes : ℤ
  pub duration_minutes : ℤ
  pub note : String

-- `CreateSlot`; `id` is the new uuid.
unfoldable pub new_slot : String → String → String → CreateParams → List Slot → Slot
unfolding next_priority
new_slot id lab caller params working = record {
  id = id;
  lab_id = lab;
  user_id = caller;
  resource_pool_id = params.resource_pool_id;
  resource_id = nil_uuid;
  priority = next_priority working;
  status = scheduled;
  desired_start = params.desired_start;
  lookahead_minutes = params.lookahead_minutes;
  duration_minutes = params.duration_minutes;
  committed_start = zero_time;
  actual_start = zero_time;
  note = params.note;
}

unfoldable pub create_slot : String → String → String → CreateParams → List Slot → Outcome
unfolding new_slot
create_slot id lab caller params working =
    changed (working ++ new_slot id lab caller params working ∷ [])

-- `*t` gets a status; for `ClockUserIn` also a resource and a start.
abbrev pub with_status : SlotStatus → Slot → Slot
with_status to s = record s { status = to }

abbrev pub pinned_at : String → ℕ → Slot → Slot
pinned_at resource now s = record s { status = active; resource_id = resource; actual_start = now }

-- The resource that `ClockUserIn` pins to.
unfoldable pub resource_for : List Resource → List Slot → Slot → Option String
unfolding resource_has_active first_free_resource
resource_for resources working t =
    if str_eq t.resource_id nil_uuid || resource_has_active working t.resource_id
    then first_free_resource resources working
    else some t.resource_id

abbrev pub pin_to : Option String → String → ℕ → List Slot → Outcome
pin_to none slot now working = failed invalid_state
pin_to (some r) slot now working = changed (update_slot slot (pinned_at r now) working)

abbrev pub clock_in_target : Option Slot → String → String → List Resource → ℕ → List Slot → Outcome
clock_in_target none caller slot resources now working = failed invalid_state
clock_in_target (some t) caller slot resources now working =
    if not (is_scheduled t.status)
    then failed invalid_state
    else if not (str_eq t.user_id caller)
    then failed forbidden
    else pin_to (resource_for resources working t) slot now working

unfoldable pub clock_user_in : String → String → List Resource → ℕ → List Slot → Outcome
unfolding find_slot resource_for update_slot
clock_user_in caller slot resources now working =
    clock_in_target (find_slot working slot) caller slot resources now working

-- The owner's events: `settleOwn` of v1.go and `CancelSlot`, by the statuses they accept.
abbrev pub settle_target :
    (SlotStatus → Bool) → SlotStatus → Option Slot → String → String → List Slot → Outcome
settle_target from to none caller slot working = failed invalid_state
settle_target from to (some t) caller slot working =
    if not (from t.status)
    then failed invalid_state
    else if not (str_eq t.user_id caller)
    then failed forbidden
    else changed (update_slot slot (with_status to) working)

unfoldable pub clock_user_out : String → String → List Slot → Outcome
unfolding find_slot update_slot
clock_user_out caller slot working =
    settle_target is_active complete (find_slot working slot) caller slot working

abbrev pub is_cancellable : SlotStatus → Bool
is_cancellable s = is_scheduled s || is_active s

unfoldable pub cancel_slot : String → String → List Slot → Outcome
unfolding find_slot update_slot
cancel_slot caller slot working =
    settle_target is_cancellable cancelled (find_slot working slot) caller slot working

-- The events of the next in line: whether the target may be taken, and who is excluded.
abbrev pub force_target :
    (Slot → Bool) → SlotStatus → Option Slot → String → String → String → List Slot → Outcome
force_target may to none exclude caller slot working = failed invalid_state
force_target may to (some t) exclude caller slot working =
    if not (may t)
    then failed invalid_state
    else if not (is_next_in_line working exclude caller)
    then failed forbidden
    else changed (update_slot slot (with_status to) working)

abbrev pub is_overrun : ℕ → Slot → Bool
is_overrun now t = is_active t.status && overrunning t now

unfoldable pub force_clock_user_out : String → String → ℕ → List Slot → Outcome
unfolding find_slot update_slot is_next_in_line overrunning
force_clock_user_out caller slot now working =
    force_target (is_overrun now) complete (find_slot working slot) nil_uuid caller slot working

abbrev pub is_lapsed : ℤ → ℕ → Slot → Bool
is_lapsed grace now t = is_scheduled t.status && grace_lapsed grace t now

unfoldable pub force_user_no_show : String → String → ℤ → ℕ → List Slot → Outcome
unfolding find_slot update_slot is_next_in_line grace_lapsed
force_user_no_show caller slot grace now working =
    force_target (is_lapsed grace now) no_show (find_slot working slot) slot caller slot working

-- `PokeOccupant` changes no slot; it fails, or one notification is sent.
unfoldable pub poke_occupant : String → String → ℕ → List Slot → Option EventError
unfolding find_slot is_next_in_line overrunning
poke_occupant caller slot now working = elim (find_slot working slot) [
  | none ↦ some invalid_state
  | some t ↦
      if not (is_overrun now t)
      then some invalid_state
      else if not (is_next_in_line working nil_uuid caller)
      then some forbidden
      else none
]

-- An event of the service that reschedules, by its arguments.
pub data Event : Type 0 where
  creates : String → String → String → CreateParams → Event
  clocks_in clocks_out cancels forces_out forces_no_show : String → String → Event

unfoldable pub build : Event → List Resource → ℤ → ℕ → List Slot → Outcome
unfolding create_slot clock_user_in clock_user_out cancel_slot force_clock_user_out
    force_user_no_show
build (creates id lab caller params) resources grace now working =
    create_slot id lab caller params working
build (clocks_in caller slot) resources grace now working =
    clock_user_in caller slot resources now working
build (clocks_out caller slot) resources grace now working = clock_user_out caller slot working
build (cancels caller slot) resources grace now working = cancel_slot caller slot working
build (forces_out caller slot) resources grace now working =
    force_clock_user_out caller slot now working
build (forces_no_show caller slot) resources grace now working =
    force_user_no_show caller slot grace now working
