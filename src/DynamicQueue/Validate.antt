-- ===== src/DynamicQueue/Validate.antt =====
-- backend/internal/dynamicqueue/validate.go. An error is a value with the arguments of its message.
pub mod Sound
use qlab.Base.{
  ℕ, Bool, true, false, not, ◌&&◌, List, [], ◌∷◌, Option, none, some, String, ℤ, pos, Map, lookup,
  insert, str_eq, ltb, ◌==◌, ltb_ℤ, eqb_ℤ, if◌then◌else◌, length,
}
use qlab.DynamicQueue.Slot.{Slot, SlotStatus, Resource, Input, is_open, is_pinned, is_assigned}

pub data InputError : Type 0 where
  no_resources : InputError
  negative_grace : ℤ → InputError
  resource_pool : String → String → String → InputError
  slot_pool : String → String → String → InputError
  non_positive_duration : String → ℤ → InputError
  negative_lookahead : String → ℤ → InputError
  bad_status : String → SlotStatus → InputError
  no_assigned_resource : String → InputError
  stale_projection : String → ℕ → ℕ → InputError
  two_active : String → String → String → InputError
  shared_priority : String → String → ℤ → InputError

-- The loop over the resources.
check_resources : String → List Resource → Option InputError
check_resources pool [] = none
check_resources pool (r ∷ rs) =
    if not (str_eq r.resource_pool_id pool)
    then some (resource_pool r.id r.resource_pool_id pool)
    else check_resources pool rs

-- The map of the priorities that were seen.
lookup_priority : ℤ → List (ℤ × String) → Option String
lookup_priority p [] = none
lookup_priority p ((q, id) ∷ m) = if eqb_ℤ q p then some id else lookup_priority p m

first_error : Option InputError → Option InputError → Option InputError
first_error (some e) next = some e
first_error none next = next

-- The guards on an ACTIVE slot.
check_pinned : ℕ → Map String → Slot → Option InputError
check_pinned now active_resources s =
    if not (is_assigned s.assigned_resource)
    then some (no_assigned_resource s.id)
    else if ltb s.projected_end now
    then some (stale_projection s.id s.projected_end now)
    else elim (lookup s.assigned_resource active_resources) [
      | some other ↦ some (two_active s.assigned_resource other s.id)
      | none ↦ none
    ]

check_priority : List (ℤ × String) → Slot → Option InputError
check_priority priorities s = elim (lookup_priority s.slot_priority priorities) [
  | some other ↦ some (shared_priority other s.id s.slot_priority)
  | none ↦ none
]

-- The body of the loop over the slots, its guards in order.
check_slot : Input → List (ℤ × String) → Map String → Slot → Option InputError
check_slot in' priorities active_resources s =
    if not (str_eq s.resource_pool_id in'.resource_pool_id)
    then some (slot_pool s.id s.resource_pool_id in'.resource_pool_id)
    else if not (ltb_ℤ (pos 0) s.duration)
    then some (non_positive_duration s.id s.duration)
    else if ltb_ℤ s.lookahead (pos 0)
    then some (negative_lookahead s.id s.lookahead)
    else if not (is_open s.status) && not (is_pinned s.status)
    then some (bad_status s.id s.status)
    else first_error (if is_pinned s.status then check_pinned in'.now active_resources s else none)
        (check_priority priorities s)

mark_active : Slot → Map String → Map String
mark_active s m = if is_pinned s.status then insert s.assigned_resource s.id m else m

check_slots : Input → List (ℤ × String) → Map String → List Slot → Option InputError
check_slots in' priorities active_resources [] = none
check_slots in' priorities active_resources (s ∷ ss) =
    first_error (check_slot in' priorities active_resources s)
      (check_slots in' ((s.slot_priority, s.id) ∷ priorities) (mark_active s active_resources) ss)

-- `Input.Validate`; `none` is the nil error.
unfoldable pub validate : Input → Option InputError
unfolding check_resources check_slots check_slot check_pinned check_priority lookup_priority
    mark_active first_error is_assigned lookup insert
validate in' =
    if length in'.resources == 0
    then some no_resources
    else if ltb_ℤ in'.grace (pos 0)
    then some (negative_grace in'.grace)
    else first_error (check_resources in'.resource_pool_id in'.resources)
        (check_slots in' [] [] in'.slots)
