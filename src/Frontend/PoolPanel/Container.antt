-- ===== src/Frontend/PoolPanel/Container.antt =====
-- frontend/src/components/PoolPanel.tsx: the container `PoolPanel` itself. The hooks of
-- @connectrpc/connect-query enter by what they return; a promise by how it settles.
use Prim.Native.String.{◌++◌}
use qlab.Base.{
  ℕ, ◌+◌, Bool, true, false, List, [], ◌∷◌, Option, none, some, String, pos, Map, insert, decimal,
  str_eq, if◌then◌else◌, keep, find, any,
}
use qlab.Frontend.Proto.{RescheduleResult, CreateSlotRequest}
use qlab.Frontend.Text.{is_truthy, or_else}
use qlab.Frontend.Model.{Member, Pool, Resource, Workspace}
use qlab.Frontend.SlotUi.{
  SlotRow, ResourceCell, Handler, on_clock_in, on_clock_out, on_cancel, on_poke, on_force_clock_out,
  on_force_no_show,
}
use qlab.Frontend.PoolPanel.{or_label, result_to_rows}

-- An error: a ConnectError with its code's name and raw message, or anything else as text.
pub data Failure : Type 0 where
  connect_error : String → String → Failure
  other_error : String → Failure

unfoldable pub err_message : Failure → String
err_message (connect_error code raw) = code ++ (": " ++ raw)
err_message (other_error text) = text

pub record MutationState : Type 0 where
  pub is_pending : Bool
  pub error : Option Failure

-- `mutations.some` and `mutations.find(...)?.error`.
unfoldable pub pending : List MutationState → Bool
pending ms = any (λ m. m.is_pending) ms

abbrev pub has_error : MutationState → Bool
has_error m = elim m.error [ none ↦ false | some e ↦ true ]

abbrev pub error_of : Option MutationState → Option Failure
error_of none = none
error_of (some m) = m.error

unfoldable pub action_error : List MutationState → Option Failure
action_error ms = error_of (find has_error ms)

abbrev pub same_id : Option String → String → Bool
same_id none id = false
same_id (some p) id = str_eq id p

abbrev pub resources_of : Option Workspace → List Resource
resources_of none = []
resources_of (some ws) = ws.resources

abbrev pub members_of : Option Workspace → List Member
members_of none = []
members_of (some ws) = ws.members

unfoldable pub pool_resources : Option Workspace → Option String → List Resource
pool_resources ws pool_id = keep (λ r. same_id pool_id r.pool_id) (resources_of ws)

-- The cells from index `i` on.
unfoldable pub cells_from : ℕ → List Resource → List ResourceCell
unfolding decimal
cells_from i [] = []
cells_from i (r ∷ rs) =
    record { id = r.id; label = "Hood " ++ decimal (i + 1) } ∷ cells_from (i + 1) rs

unfoldable pub resource_cells : Option Workspace → Option String → List ResourceCell
unfolding pool_resources cells_from
resource_cells ws pool_id = cells_from 0 (pool_resources ws pool_id)

unfoldable pub label_members : List Member → Map String → Map String
label_members [] m = m
label_members (mem ∷ ms) m = label_members ms (insert mem.user_id (or_else mem.name mem.email) m)

unfoldable pub member_label : Option Workspace → Map String
unfolding label_members
member_label ws = label_members (members_of ws) []

-- What a handler does with a slot: the mutation, and the notice when it is done.
pub data Mutation : Type 0 where
  clock_in clock_out cancel_slot poke_occupant force_clock_out force_no_show : Mutation

unfoldable pub mutation_of : Handler → Mutation × Option String
mutation_of on_clock_in = (clock_in, none)
mutation_of on_clock_out = (clock_out, some "Clocked out — slot completed.")
mutation_of on_cancel = (cancel_slot, some "Booking cancelled.")
mutation_of on_poke = (poke_occupant, none)
mutation_of on_force_clock_out = (force_clock_out, none)
mutation_of on_force_no_show = (force_no_show, none)

-- How the promises of the mutation and of the refetch settle.
pub data Promise : Type 0 where
  resolves rejects : Promise

-- What `run` leaves: the notice, and whether it refetched.
pub record RunResult : Type 0 where
  pub notice : Option String
  pub refetched : Bool

abbrev pub done_notice : Option String → Option String
done_notice m = if is_truthy m then m else none

unfoldable pub run : Promise → Promise → Option String → RunResult
run rejects refetch notice = record { notice = none; refetched = false }
run resolves rejects notice = record { notice = none; refetched = true }
run resolves resolves notice = record { notice = done_notice notice; refetched = true }

-- `onBook`: the request that it sends, if a pool is selected; `today` is the present as a Timestamp.
unfoldable pub on_book :
    {Timestamp : Type 0} → Timestamp → Option String → Option (CreateSlotRequest Timestamp)
on_book today pool_id = elim pool_id [
  | none ↦ none
  | some id ↦
      if str_eq id ""
      then none
      else some (record {
        resource_pool_id = id;
        desired_start = some today;
        lookahead_minutes = pos 0;
        duration_minutes = pos 30;
        note = "";
      })
]

abbrev pub name_of : Option Pool → Option String
name_of none = none
name_of (some p) = some p.name

abbrev pub pools_of : Option Workspace → List Pool
pools_of none = []
pools_of (some ws) = ws.pools

unfoldable pub pool_name : Option Workspace → Option String → String
pool_name ws pool_id = or_label (name_of (find (λ p. same_id pool_id p.id) (pools_of ws))) "Pool"

-- What the component renders.
pub record PanelProps : Type 0 where
  pub action_error : Option String
  pub notice : Option String
  pub pool_name : String
  pub resources : List ResourceCell
  pub rows : List SlotRow
  pub pending : Bool

pub data Panel : Type 0 where
  loading : Panel
  failed : String → Panel
  loaded : PanelProps → Panel

abbrev pub message_of : Option Failure → Option String
message_of none = none
message_of (some e) = some (err_message e)

abbrev pub or_blank : Option String → String
or_blank none = ""
or_blank (some s) = s

module _ {Timestamp : Type 0} (timestamp_date : Timestamp → ℕ) where
  unfoldable pub pool_panel :
      (ws : Option Workspace) (acting_user_id pool_id : Option String)
      → (is_loading : Bool) (error : Option Failure) (result : Option (RescheduleResult Timestamp))
      → List MutationState
      → (now : ℕ) (notice : Option String) → Panel
  unfolding resource_cells pool_name member_label pending action_error
  pool_panel ws acting pool_id is_loading error result ms now notice =
      if is_loading then loading else elim error [
        | some e ↦ failed (err_message e)
        | none ↦ loaded (record {
          action_error = message_of (action_error ms);
          notice = notice;
          pool_name = pool_name ws pool_id;
          resources = resource_cells ws pool_id;
          rows = result_to_rows timestamp_date result (record {
            current_user_id = or_blank acting;
            now = now;
            member_label = member_label ws;
          });
          pending = pending ms;
        })
      ]
