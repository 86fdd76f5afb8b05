-- ===== src/Scheduling/Service.antt =====
-- backend/internal/services/scheduling/v1: the service's methods, each from the membership check to
-- the committed transaction. Spans and logs are left out.
pub mod Keys
pub mod Good
pub mod Mutate
pub mod Invariant
pub mod Progress
pub mod Own
pub mod Isolation
pub mod Outsiders
pub mod Undone
mod Tests
use qlab.Base.{
  ℕ, Bool, true, false, List, [], ◌∷◌, Option, none, some, String, ℤ, not, str_eq, if◌then◌else◌,
}
use qlab.Scheduling.Store.{Slot, Resource, nil_uuid}
use qlab.Scheduling.Helpers.{find_slot}
use qlab.Scheduling.Events.{
  EventError, invalid_state as event_invalid_state, forbidden as event_forbidden, Outcome, failed,
  changed, CreateParams, Event, creates, clocks_in, clocks_out, cancels, forces_out, forces_no_show,
  build, poke_occupant,
}
use qlab.Scheduling.Apply.{Applied, Schedule, apply_engine, compute_schedule}
use qlab.Scheduling.Notify.{OutboxRow, recommit, poke}
use qlab.Scheduling.Tables.{
  ResourcePool, Tables, PoolState, PoolMutation, ServiceError, not_member, not_found, forbidden,
  invalid_state, engine_failed, database, Attempt, ok, err, Faults, unless, is_member,
  resource_pool_by_id, slot_by_id, list_slots, list_resources, ◌>>=◌, with_pool,
}

-- backend/internal/principal/principal.go.
pub record Principal : Type 0 where
  pub user_id : String
  pub lab_id : String

-- What the service was built with, `parse` being uuid.Parse, and what one request meets: its instant,
-- the uuid that it would draw, and the faults of its transactions.
pub record Settings : Type 0 where
  pub parse : String → Option String
  pub grace : ℤ

pub record Moment : Type 0 where
  pub now : ℕ
  pub fresh : String
  pub faults : Faults

-- `Result` of interface.go.
pub record Result : Type 0 where
  pub resource_pool_id : String
  pub schedule : Schedule

abbrev pub result_of : String → Schedule → Result
result_of pool schedule = record { resource_pool_id = pool; schedule = schedule }

abbrev pub error_of : EventError → ServiceError
error_of event_invalid_state = invalid_state
error_of event_forbidden = forbidden

abbrev pub member_or : Bool → Attempt (Unit {0})
member_or true = ok tt
member_or false = err not_member

-- `RequireMember` of authz/v1 and `authorize` of v1.go.
unfoldable pub authorize : Moment → Principal → Tables → Attempt (Unit {0})
unfolding is_member
authorize m p t = unless m.faults.membership (member_or (is_member p.lab_id p.user_id t))

abbrev pub or_not_found : {A : Type 0} → Option A → Attempt A
or_not_found none = err not_found
or_not_found (some a) = ok a

unfoldable pub resolve_slot : Moment → String → String → Tables → Attempt Slot
unfolding slot_by_id
resolve_slot m lab slot t = unless m.faults.look_up (or_not_found (slot_by_id lab slot t))

unfoldable pub pool_in_lab : Moment → String → String → Tables → Attempt ResourcePool
unfolding resource_pool_by_id
pool_in_lab m lab pool t = unless m.faults.look_up (or_not_found (resource_pool_by_id lab pool t))

-- `ListSlots`.
unfoldable pub serve_slots : Moment → Principal → String → Tables → Attempt (List Slot)
unfolding authorize pool_in_lab list_slots
serve_slots m p pool t = do
  member ← authorize m p t
  found ← pool_in_lab m p.lab_id pool t
  unless m.faults.slots_read (ok (list_slots p.lab_id pool t))

module _ (settings : Settings) (m : Moment) (p : Principal) where
  abbrev pub or_engine_failed : {A : Type 0} → Option A → Attempt A
  or_engine_failed none = err engine_failed
  or_engine_failed (some a) = ok a

  -- `Schedule`.
  unfoldable pub serve_schedule : String → Tables → Attempt Result
  unfolding authorize pool_in_lab list_slots list_resources compute_schedule
  serve_schedule pool t = do
    member ← authorize m p t
    found ← pool_in_lab m p.lab_id pool t
    slots ← unless m.faults.slots_read (ok (list_slots p.lab_id pool t))
    resources ← unless m.faults.resources_read (ok (list_resources p.lab_id pool t))
    shown ← or_engine_failed (
        compute_schedule settings.parse (recommit p.user_id) pool slots resources settings.grace
          m.now)
    ok (result_of pool shown)

  abbrev pub event_outcome : Outcome → Attempt (List Slot)
  event_outcome (failed e) = err (error_of e)
  event_outcome (changed after) = ok after

  abbrev pub mutation_of : String → Applied OutboxRow → PoolMutation × Result
  mutation_of pool a = (record { slots = a.writes; outbox = a.outbox }, result_of pool a.schedule)

  -- The callback that `mutate` hands to `WithPool`; its `build` is the event's.
  unfoldable pub reschedule_pool : String → Event → PoolState → Attempt (PoolMutation × Result)
  unfolding build apply_engine recommit
  reschedule_pool pool event state = do
    after ← event_outcome (build event state.resources settings.grace m.now state.slots)
    applied ← or_engine_failed (
        apply_engine settings.parse (recommit p.user_id) pool after state.resources settings.grace
          m.now [])
    ok (mutation_of pool applied)

  unfoldable pub mutate : String → Event → Tables → Tables × Attempt Result
  unfolding reschedule_pool with_pool
  mutate pool event t = with_pool m.faults p.lab_id pool (reschedule_pool pool event) t

  -- `CreateSlot`.
  unfoldable pub create_slot : CreateParams → Tables → Tables × Attempt Result
  unfolding authorize pool_in_lab mutate
  create_slot params t =
      elim (authorize m p t >>= λ _. pool_in_lab m p.lab_id params.resource_pool_id t) [
        | err e ↦ (t, err e)
        | ok pool ↦ mutate params.resource_pool_id (creates m.fresh p.lab_id p.user_id params) t
      ]

  -- The preamble of the events on a slot, and the event; the pool is the one of the row that it read.
  unfoldable pub slot_event : (String → String → Event) → String → Tables → Tables × Attempt Result
  unfolding authorize resolve_slot mutate
  slot_event event slot t = elim (authorize m p t >>= λ _. resolve_slot m p.lab_id slot t) [
    | err e ↦ (t, err e)
    | ok target ↦ mutate target.resource_pool_id (event p.user_id slot) t
  ]

  unfoldable pub clock_user_in : String → Tables → Tables × Attempt Result
  unfolding slot_event
  clock_user_in slot t = slot_event clocks_in slot t

  unfoldable pub clock_user_out : String → Tables → Tables × Attempt Result
  unfolding slot_event
  clock_user_out slot t = slot_event clocks_out slot t

  unfoldable pub cancel_slot : String → Tables → Tables × Attempt Result
  unfolding slot_event
  cancel_slot slot t = slot_event cancels slot t

  unfoldable pub force_clock_user_out : String → Tables → Tables × Attempt Result
  unfolding slot_event
  force_clock_user_out slot t = slot_event forces_out slot t

  unfoldable pub force_user_no_show : String → Tables → Tables × Attempt Result
  unfolding slot_event
  force_user_no_show slot t = slot_event forces_no_show slot t

  -- The callback of `PokeOccupant`: it writes one notification and no slot.
  abbrev pub poked : Option EventError → Option Slot → Attempt (PoolMutation × Unit {0})
  poked (some e) target = err (error_of e)
  poked none none = err invalid_state
  poked none (some t) = ok (record { slots = []; outbox = poke p.user_id t m.now ∷ [] }, tt)

  unfoldable pub poke_pool : String → PoolState → Attempt (PoolMutation × Unit {0})
  unfolding find_slot poke_occupant poke
  poke_pool slot state =
      poked (poke_occupant p.user_id slot m.now state.slots) (find_slot state.slots slot)

  unfoldable pub poke_user : String → Tables → Tables × Attempt (Unit {0})
  unfolding authorize resolve_slot poke_pool with_pool
  poke_user slot t = elim (authorize m p t >>= λ _. resolve_slot m p.lab_id slot t) [
    | err e ↦ (t, err e)
    | ok target ↦ with_pool m.faults p.lab_id target.resource_pool_id (poke_pool slot) t
  ]

-- A request that may write, and the tables that it leaves; the schedule is not of interest then.
pub data Request : Type 0 where
  book : CreateParams → Request
  clock_in clock_out cancel nudge force_clock_out force_no_show : String → Request

abbrev pub error_in : {A : Type 0} → Attempt A → Option ServiceError
error_in (ok a) = none
error_in (err e) = some e

abbrev answered : {A : Type 0} → Tables × Attempt A → Tables × Option ServiceError
answered (t, a) = (t, error_in a)

unfoldable pub serve :
    Settings → Moment → Principal → Request → Tables → Tables × Option ServiceError
unfolding create_slot clock_user_in clock_user_out cancel_slot poke_user force_clock_user_out
    force_user_no_show
serve settings m p (book params) t = answered (create_slot settings m p params t)
serve settings m p (clock_in slot) t = answered (clock_user_in settings m p slot t)
serve settings m p (clock_out slot) t = answered (clock_user_out settings m p slot t)
serve settings m p (cancel slot) t = answered (cancel_slot settings m p slot t)
serve settings m p (nudge slot) t = answered (poke_user settings m p slot t)
serve settings m p (force_clock_out slot) t = answered (force_clock_user_out settings m p slot t)
serve settings m p (force_no_show slot) t = answered (force_user_no_show settings m p slot t)
