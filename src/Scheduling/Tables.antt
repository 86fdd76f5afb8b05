-- ===== src/Scheduling/Tables.antt =====
-- backend/internal/store/pgstore, its tables and the statements of queries.sql that the scheduling
-- service runs. What PostgreSQL refuses, a lost connection or a row that breaks a constraint, is a
-- parameter, `Faults`; a transaction that fails leaves the tables as they were.

use qlab.Base.{
  ℕ, ◌≡◌, Bool, true, false, ◌&&◌, ◌||◌, List, [], ◌∷◌, ◌++◌, Option, none, some, String, str_eq,
  ltb, ltb_ℤ, ◌==◌, if◌then◌else◌, keep, find, any, sort_by,
}
pub mod Upserts
pub mod Commits
pub mod Labs
use Prim.Native.String.{compare}
use text.Mathlib.Text.{is_lt}
use qlab.DynamicQueue.Slot.{zero_time, is_zero}
use qlab.Scheduling.Store.{Slot, Resource, ResourceKind, is_live}
use qlab.Scheduling.Notify.{OutboxRow}

pub record ResourcePool : Type 0 where
  pub id : String
  pub lab_id : String
  pub kind : ResourceKind
  pub name : String

-- `LabRole` of store/lab.go.
pub data LabRole : Type 0 where
  unknown_role head_role member_role : LabRole

pub record Membership : Type 0 where
  pub lab_id : String
  pub user_id : String
  pub role : LabRole

pub record Tables : Type 0 where
  pub slots : List Slot
  pub resources : List Resource
  pub pools : List ResourcePool
  pub members : List Membership
  pub outbox : List OutboxRow

-- `PoolState` and `PoolMutation` of store/interface.go.
pub record PoolState : Type 0 where
  pub slots : List Slot
  pub resources : List Resource

pub record PoolMutation : Type 0 where
  pub slots : List Slot
  pub outbox : List OutboxRow

-- The errors of the scheduling service; the store's others carry their text, the engine's do not.
pub data ServiceError : Type 0 where
  not_member not_found forbidden invalid_state engine_failed : ServiceError
  database : String → ServiceError

pub data Attempt (A : Type 0) : Type 0 where
  ok : A → Attempt A
  err : ServiceError → Attempt A

-- What goes wrong in the transactions of one request, and how a timestamptz column keeps an instant,
-- which is to the microsecond.
pub record Faults : Type 0 where
  pub membership : Option String
  pub look_up : Option String
  pub slots_read : Option String
  pub resources_read : Option String
  pub begins : Option String
  pub slot_refused : Slot → Option String
  pub row_refused : OutboxRow → Option String
  pub commits : Option String
  pub column : ℕ → ℕ

abbrev pub unless : {A : Type 0} → Option String → Attempt A → Attempt A
unless none a = a
unless (some message) a = err (database message)

-- `IsMember`.
unfoldable pub is_member : String → String → Tables → Bool
is_member lab user t =
    any (λ (m : Membership). str_eq m.lab_id lab && str_eq m.user_id user) t.members

unfoldable pub resource_pool_by_id : String → String → Tables → Option ResourcePool
resource_pool_by_id lab pool t =
    find (λ (p : ResourcePool). str_eq p.lab_id lab && str_eq p.id pool) t.pools

unfoldable pub slot_by_id : String → String → Tables → Option Slot
slot_by_id lab slot t = find (λ (s : Slot). str_eq s.lab_id lab && str_eq s.id slot) t.slots

abbrev pub in_pool : String → String → Slot → Bool
in_pool lab pool s = str_eq s.lab_id lab && str_eq s.resource_pool_id pool

abbrev pub text_before : String → String → Bool
text_before a b = is_lt (compare a b)

abbrev by_start : Slot → Slot → Bool
by_start a b =
    ltb a.desired_start b.desired_start
    || (a.desired_start == b.desired_start && text_before a.id b.id)

-- `ListSlots`, `ListLiveSlotsForUpdate` and `ListResources`.
unfoldable pub list_slots : String → String → Tables → List Slot
list_slots lab pool t = sort_by by_start (keep (in_pool lab pool) t.slots)

abbrev pub by_priority : Slot → Slot → Bool
by_priority a b = ltb_ℤ a.priority b.priority

abbrev pub is_live_in : String → String → Slot → Bool
is_live_in lab pool s = in_pool lab pool s && is_live s.status

unfoldable pub list_live_slots : String → String → Tables → List Slot
list_live_slots lab pool t = sort_by by_priority (keep (is_live_in lab pool) t.slots)

abbrev by_id : Resource → Resource → Bool
by_id a b = text_before a.id b.id

unfoldable pub list_resources : String → String → Tables → List Resource
list_resources lab pool t =
    sort_by by_id
      (keep (λ (r : Resource). str_eq r.lab_id lab && str_eq r.resource_pool_id pool) t.resources)

-- `UpsertSlot`: a row that is there keeps its lab and its user.
abbrev pub overwritten : Slot → Slot → Slot
overwritten old new = record new { lab_id = old.lab_id; user_id = old.user_id }

unfoldable pub upsert_slot : Slot → List Slot → List Slot
upsert_slot new [] = new ∷ []
upsert_slot new (old ∷ rows) =
    if str_eq old.id new.id then overwritten old new ∷ rows else old ∷ upsert_slot new rows

-- `InsertOutbox`: a key that is there is left alone.
unfoldable pub insert_outbox : OutboxRow → List OutboxRow → List OutboxRow
insert_outbox row [] = row ∷ []
insert_outbox row (old ∷ rows) =
    if str_eq old.dedup_key row.dedup_key then old ∷ rows else old ∷ insert_outbox row rows

-- `nilTime` on the way in and `derefTime` on the way out: the zero time is NULL in the column.
unfoldable pub kept_time : Faults → ℕ → ℕ
unfolding is_zero
kept_time faults t = if is_zero t then zero_time else faults.column t

-- The row of a slot: the desired start is never NULL.
abbrev pub stored : Faults → Slot → Slot
stored faults s = record s {
  desired_start = faults.column s.desired_start;
  committed_start = kept_time faults s.committed_start;
  actual_start = kept_time faults s.actual_start;
}

-- The two loops of `WithPool` over the mutation.
unfoldable pub write_slots : Faults → List Slot → Tables → Attempt Tables
unfolding upsert_slot kept_time
write_slots faults [] t = ok t
write_slots faults (s ∷ ss) t = elim (faults.slot_refused s) [
  | some message ↦ err (database message)
  | none ↦ write_slots faults ss (record t { slots = upsert_slot (stored faults s) t.slots })
]

unfoldable pub write_outbox : Faults → List OutboxRow → Tables → Attempt Tables
unfolding insert_outbox
write_outbox faults [] t = ok t
write_outbox faults (r ∷ rs) t = elim (faults.row_refused r) [
  | some message ↦ err (database message)
  | none ↦ write_outbox faults rs (record t { outbox = insert_outbox r t.outbox })
]

infixl 5 ◌>>=◌
abbrev pub ◌>>=◌ : {A B : Type 0} → Attempt A → (A → Attempt B) → Attempt B
ok a >>= f = f a
err e >>= f = err e

abbrev pub snapshot : String → String → Tables → PoolState
snapshot lab pool t = record {
  slots = list_live_slots lab pool t;
  resources = list_resources lab pool t;
}

module _ {A : Type 0} where
  -- The transaction of `WithPool` with the callback `fn`, which also hands out its result.
  unfoldable pub transaction :
      Faults
      → String
      → String
      → (PoolState → Attempt (PoolMutation × A))
      → Tables
      → Attempt (Tables × A)
  unfolding write_slots write_outbox list_live_slots list_resources
  transaction faults lab pool fn t = do
    state ← unless faults.begins (ok (snapshot lab pool t))
    made ← fn state
    written ← write_slots faults made.0.slots t
    queued ← write_outbox faults made.0.outbox written
    unless faults.commits (ok (queued, made.1))

  -- `WithPool`: an error rolls back.
  abbrev pub settled : Tables → Attempt (Tables × A) → Tables × Attempt A
  settled t (ok (t', a)) = (t', ok a)
  settled t (err e) = (t, err e)

  unfoldable pub with_pool :
      Faults
      → String
      → String
      → (PoolState → Attempt (PoolMutation × A))
      → Tables
      → Tables × Attempt A
  unfolding transaction
  with_pool faults lab pool fn t = settled t (transaction faults lab pool fn t)
