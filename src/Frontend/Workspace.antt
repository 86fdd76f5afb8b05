-- ===== src/Frontend/Workspace.antt =====
-- frontend/src/workspace/WorkspaceProvider.tsx. The provider's hooks and its token cache are one
-- state; an operator call is the event that begins it and the event that settles it, so that other
-- events can stand between the two. The replies are the operator client's.
pub mod Tokens
pub mod SignOut
use qlab.Base.{
  Bool, true, false, not, ◌&&◌, List, [], ◌∷◌, Option, none, some, String, ℤ, Map, lookup, insert,
  find, str_eq, if◌then◌else◌,
}
use qlab.Frontend.Proto.{
  ProvisionLabRequest, ProvisionLabResponse, MintTokenResponse, GetLabResponse,
}
use qlab.Frontend.Text.{is_truthy}
use qlab.Frontend.Model.{Member, Pool, Workspace, workspace_from_provision, workspace_from_get_lab}

pub record State : Type 0 where
  pub workspace : Option Workspace
  pub acting_user_id : Option String
  pub pool_id : Option String
  pub busy : Bool
  pub error : Option String
  pub token_cache : Map String
  -- The uid of the session's operator, at the last run of the effect.
  pub operator_uid : Option String

abbrev pub initial : State
initial = record {
  workspace = none;
  acting_user_id = none;
  pool_id = none;
  busy = false;
  error = none;
  token_cache = [];
  operator_uid = none;
}

abbrev pub first_pool : List Pool → Option String
first_pool [] = none
first_pool (p ∷ ps) = some p.id

-- `adopt`: a new workspace drops the tokens and the selection.
unfoldable pub adopt : Workspace → State → State
adopt ws st = record st {
  workspace = some ws;
  acting_user_id = none;
  pool_id = first_pool ws.pools;
  token_cache = [];
}

-- `reset`.
unfoldable pub reset : State → State
reset st = record st {
  workspace = none;
  acting_user_id = none;
  pool_id = none;
  error = none;
  token_cache = [];
}

unfoldable pub select_pool : String → State → State
select_pool id st = record st { pool_id = some id }

pub data Call : Type 0 where
  provision : String → ℤ → ℤ → Call
  load_workspace : String → Call
  act_as : String → Call

-- What is sent to the operator surface.
pub data Request : Type 0 where
  provision_lab : ProvisionLabRequest → Request
  get_lab : String → Request
  mint_token : String → Request

-- `run` up to the first await of `fn`.
unfoldable pub start_run : State → State
start_run st = record st { busy = true; error = none }

-- `actAs` up to its first await: a cached token makes it act at once.
unfoldable pub begin_act_as : String → State → State × Option Request
begin_act_as user_id st = elim (lookup user_id st.token_cache) [
  | none ↦ (st, some (mint_token user_id))
  | some token ↦ (record st { acting_user_id = some user_id }, none)
]

unfoldable pub begin : Call → State → State × Option Request
unfolding start_run begin_act_as
begin (provision feature members resources) st = (
  start_run st,
  some (
      provision_lab
        (record { feature = feature; member_count = members; resource_count = resources })),
)
begin (load_workspace lab_id) st = (start_run st, some (get_lab lab_id))
begin (act_as user_id) st = begin_act_as user_id (start_run st)

-- A promise resolves, or rejects with an error's message.
pub data Reply (A : Type 0) : Type 0 where
  resolved : A → Reply A
  rejected : String → Reply A

-- A call of `run` that settles, with the reply that its `fn` waited for.
pub data Settled (Timestamp : Type 0) : Type 0 where
  provision_settled : Reply ProvisionLabResponse → Settled Timestamp
  load_settled : Reply (GetLabResponse Timestamp) → Settled Timestamp
  mint_settled : String → Reply MintTokenResponse → Settled Timestamp
  cached_settled : Settled Timestamp

-- `catch` and `finally` of `run`.
unfoldable pub fail_run : String → State → State
fail_run message st = record st { busy = false; error = some message }

unfoldable pub end_run : State → State
end_run st = record st { busy = false }

-- `actAs` after its await.
unfoldable pub end_act_as : String → MintTokenResponse → State → State
end_act_as user_id res st = record st {
  acting_user_id = some user_id;
  token_cache = insert user_id res.id_token st.token_cache;
}

module _ {Timestamp : Type 0} where
  unfoldable pub settle : Settled Timestamp → State → State
  unfolding fail_run end_run adopt end_act_as
  settle (provision_settled (resolved res)) st = end_run (adopt (workspace_from_provision res) st)
  settle (provision_settled (rejected message)) st = fail_run message st
  settle (load_settled (resolved res)) st = end_run (adopt (workspace_from_get_lab res) st)
  settle (load_settled (rejected message)) st = fail_run message st
  settle (mint_settled user_id (resolved res)) st = end_run (end_act_as user_id res st)
  settle (mint_settled user_id (rejected message)) st = fail_run message st
  settle cached_settled st = end_run st

-- The effect that is keyed on the operator's uid: it resets when the uid has changed.
abbrev pub same_uid : Option String → Option String → Bool
same_uid none none = true
same_uid (some u) (some v) = str_eq u v
same_uid _ _ = false

unfoldable pub operator_effect : Option String → State → State
unfolding reset
operator_effect uid st =
    if same_uid uid st.operator_uid then st else record (reset st) { operator_uid = uid }

pub data Event (Timestamp : Type 0) : Type 0 where
  begins : Call → Event Timestamp
  settles : Settled Timestamp → Event Timestamp
  selects : String → Event Timestamp
  resets : Event Timestamp
  operator_is : Option String → Event Timestamp

module _ {Timestamp : Type 0} where
  unfoldable pub step : State → Event Timestamp → State
  unfolding begin settle select_pool reset operator_effect
  step st (begins c) = (begin c st).0
  step st (settles s) = settle s st
  step st (selects id) = select_pool id st
  step st resets = reset st
  step st (operator_is uid) = operator_effect uid st

  unfoldable pub run : State → List (Event Timestamp) → State
  unfolding step
  run st [] = st
  run st (e ∷ es) = run (step st e) es

abbrev pub is_acting : Option String → Member → Bool
is_acting none m = false
is_acting (some u) m = str_eq m.user_id u

-- The derived values of the context.
unfoldable pub acting_member : State → Option Member
acting_member st = elim st.workspace [
  | none ↦ none
  | some ws ↦ find (is_acting st.acting_user_id) ws.members
]

abbrev is_set {ℓ} : {A : Type ℓ} → Option A → Bool
is_set none = false
is_set (some a) = true

unfoldable pub can_query : State → Bool
can_query st = is_set st.workspace && is_set st.acting_user_id && is_set st.pool_id

-- What the provider feeds the auth holder on each render.
abbrev pub cached : Map String → Option String → Option String
cached m none = none
cached m (some u) = lookup u m

unfoldable pub get_token : State → Option String
get_token st = if is_truthy st.acting_user_id then cached st.token_cache st.acting_user_id else none

unfoldable pub holder_lab_id : State → Option String
holder_lab_id st = elim st.workspace [ none ↦ none | some ws ↦ some ws.lab_id ]
