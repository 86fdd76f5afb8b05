-- ===== src/Scheduling/Helpers.antt =====
-- backend/internal/services/scheduling/v1/helpers.go, and the checks of v1.go.
use qlab.Base.{
  ℕ, Bool, false, not, ◌&&◌, ◌||◌, List, [], ◌∷◌, Option, none, some, String, ℤ, pos, str_eq, ltb,
  ltb_ℤ, ◌==◌, shift, if◌then◌else◌, any, find, negsuc, zero, suc,
}
use qlab.DynamicQueue.Slot.{duration_of, zero_time}
use qlab.Scheduling.Store.{Slot, Resource, is_live, is_scheduled, is_active}

-- `findSlot`, to read.
unfoldable pub find_slot : List Slot → String → Option Slot
find_slot slots id = find (λ s. str_eq s.id id) slots

-- `findSlot`, to write through the pointer that it returns.
unfoldable pub update_slot : String → (Slot → Slot) → List Slot → List Slot
update_slot id f [] = []
update_slot id f (s ∷ ss) = if str_eq s.id id then f s ∷ ss else s ∷ update_slot id f ss

abbrev pub succ_ℤ : ℤ → ℤ
succ_ℤ (pos n) = pos (suc n)
succ_ℤ (negsuc zero) = pos 0
succ_ℤ (negsuc (suc n)) = negsuc n

-- The loop of `nextPriority`.
unfoldable pub highest : ℤ → List Slot → ℤ
highest max [] = max
highest max (s ∷ ss) =
    highest (if is_live s.status && ltb_ℤ max s.priority then s.priority else max) ss

unfoldable pub next_priority : List Slot → ℤ
unfolding highest
next_priority slots = succ_ℤ (highest (pos 0) slots)

-- `nextInLineUser`: its loop, and the user of the slot that it finds.
abbrev pub sooner : Option Slot → Slot → Option Slot
sooner none s = some s
sooner (some best) s = if ltb_ℤ s.priority best.priority then some s else some best

unfoldable pub first_waiting : String → Option Slot → List Slot → Option Slot
first_waiting exclude best [] = best
first_waiting exclude best (s ∷ ss) =
    first_waiting exclude
      (if not (is_scheduled s.status) || str_eq s.id exclude then best else sooner best s) ss

abbrev pub user_of : Option Slot → Option String
user_of none = none
user_of (some s) = some s.user_id

unfoldable pub next_in_line_user : List Slot → String → Option String
unfolding first_waiting
next_in_line_user slots exclude = user_of (first_waiting exclude none slots)

unfoldable pub resource_has_active : List Slot → String → Bool
resource_has_active slots resource =
    any (λ s. is_active s.status && str_eq s.resource_id resource) slots

unfoldable pub first_free_resource : List Resource → List Slot → Option String
unfolding resource_has_active
first_free_resource [] slots = none
first_free_resource (r ∷ rs) slots =
    if not (resource_has_active slots r.id) then some r.id else first_free_resource rs slots

unfoldable pub overrunning : Slot → ℕ → Bool
overrunning s now = ltb (shift s.actual_start (duration_of s.duration_minutes)) now

-- `graceLapsed` of v1.go.
unfoldable pub grace_lapsed : ℤ → Slot → ℕ → Bool
grace_lapsed grace s now =
    if s.committed_start == zero_time
    then false
    else ltb (shift s.committed_start (duration_of grace)) now

-- `requireNextInLine` of v1.go: whether it returns no error.
abbrev pub is_user : Option String → String → Bool
is_user none caller = false
is_user (some u) caller = str_eq u caller

unfoldable pub is_next_in_line : List Slot → String → String → Bool
unfolding next_in_line_user
is_next_in_line slots exclude caller = is_user (next_in_line_user slots exclude) caller
