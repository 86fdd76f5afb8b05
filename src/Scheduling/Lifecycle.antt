-- ===== src/Scheduling/Lifecycle.antt =====
-- The life cycle of a slot under the events of backend/internal/services/scheduling/v1/events.go, and
-- who may reclaim.
use qlab.Base.{◌≡◌, List, [], ◌∷◌, ◌++◌}
use qlab.Scheduling.Store.{SlotStatus, scheduled, active, complete, cancelled, no_show, Slot}

-- The steps of a slot's life: clock in, finish or be booted, cancel, be reclaimed.
pub data Moves : SlotStatus → SlotStatus → Type 0 where
  starts : Moves scheduled active
  finishes : Moves active complete
  is_dropped : Moves scheduled cancelled
  is_stopped : Moves active cancelled
  is_missed : Moves scheduled no_show

-- Of two working sets: the same slots in the same order, where either a new slot follows or one has
-- made a step.
pub data Evolves : List Slot → List Slot → Type 0 where
  books : (ss : List Slot) (new : Slot) → new.status ≡ scheduled → Evolves ss (ss ++ new ∷ [])
  moves :
      (before : List Slot) (s t : Slot) (after : List Slot)
      → s.id ≡ t.id
      → s.user_id ≡ t.user_id
      → s.priority ≡ t.priority
      → Moves s.status t.status
      → Evolves (before ++ s ∷ after) (before ++ t ∷ after)
