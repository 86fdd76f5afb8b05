-- ===== src/Operator/Respond.antt =====
-- backend/internal/devapi: the conversions of convert.go, and the methods of devapi.go that write.
use qlab.Base.{ℕ, map, Option, some, String}
use qlab.Scheduling.Store.{Resource, ResourceKind, unknown_kind, vent_hood}
use qlab.Scheduling.Tables.{
  ResourcePool, LabRole, unknown_role, head_role, member_role, ServiceError, not_member, not_found,
  forbidden, invalid_state, engine_failed, database, Attempt, ok, err,
}
use qlab.Frontend.Proto.{
  LabRole as RoleMessage, role_unspecified, head, member, ResourceKind as KindMessage,
  kind_unspecified, vent_hood as vent_hood_message, LabMessage, UserMessage, ResourcePoolMessage,
  ResourceMessage, LabMember, ProvisionLabRequest, ProvisionLabResponse,
}
use qlab.Frontend.Proto.Dev.{TeardownLabRequest, TeardownLabResponse, torn_down}
use qlab.Authentication.{UserRow}
use qlab.Api.Handlers.{Code, code_not_found, internal, Rpc, response, failure, parse_uuid}
use qlab.Operator.{
  LabRow, ProvisionSpec, MemberRow, LabWorkspace, World, OperatorFaults, create_lab_workspace,
  delete_lab,
}

unfoldable pub role_message : LabRole → RoleMessage
role_message head_role = head
role_message member_role = member
role_message unknown_role = role_unspecified

unfoldable pub kind_message : ResourceKind → KindMessage
kind_message vent_hood = vent_hood_message
kind_message unknown_kind = kind_unspecified

abbrev pub lab_message : LabRow → LabMessage
lab_message l = record { id = l.id; name = l.name }

abbrev pub user_message : UserRow → UserMessage
user_message u = record {
  id = u.id;
  email = u.email;
  first_name = u.first_name;
  last_name = u.last_name;
}

abbrev pub pool_message : ResourcePool → ResourcePoolMessage
pool_message p = record { id = p.id; lab_id = p.lab_id; kind = kind_message p.kind; name = p.name }

abbrev pub resource_message : Resource → ResourceMessage
resource_message r = record {
  id = r.id;
  resource_pool_id = r.resource_pool_id;
  lab_id = r.lab_id;
  kind = kind_message r.kind;
  name = r.name;
}

abbrev pub member_message : MemberRow → LabMember
member_message m = record { user = some (user_message m.user); role = role_message m.role }

unfoldable pub provision_response : LabWorkspace → ProvisionLabResponse
unfolding role_message kind_message
provision_response ws = record {
  lab = some (lab_message ws.lab);
  pool = some (pool_message ws.pool);
  members = map member_message ws.members;
  resources = map resource_message ws.resources;
}

-- `devError`.
unfoldable pub dev_error : ServiceError → Code
dev_error not_found = code_not_found
dev_error not_member = internal
dev_error forbidden = internal
dev_error invalid_state = internal
dev_error engine_failed = internal
dev_error (database message) = internal

abbrev pub dev_answer : {A B : Type 0} → (A → B) → World × Attempt A → World × Rpc B
dev_answer f (w, ok a) = (w, response (f a))
dev_answer f (w, err e) = (w, failure (dev_error e))

abbrev pub spec_of : ProvisionLabRequest → ProvisionSpec
spec_of req = record {
  feature = req.feature;
  member_count = req.member_count;
  resource_count = req.resource_count;
}

unfoldable pub serve_provision :
    OperatorFaults → (ℕ → String) → ProvisionLabRequest → World → World × Rpc ProvisionLabResponse
unfolding create_lab_workspace provision_response dev_error
serve_provision faults draw req w =
    dev_answer provision_response (create_lab_workspace faults draw (spec_of req) w)

unfoldable pub serve_teardown :
    (String → Option String)
    → Option String
    → TeardownLabRequest
    → World
    → World × Rpc TeardownLabResponse
unfolding delete_lab dev_error parse_uuid
serve_teardown parse fault req w = elim (parse_uuid parse req.lab_id) [
  | failure c ↦ (w, failure c)
  | response lab ↦ dev_answer (λ u. torn_down) (delete_lab fault lab w)
]
