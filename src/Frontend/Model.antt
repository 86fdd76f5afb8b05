-- ===== src/Frontend/Model.antt =====
-- frontend/src/workspace/model.ts: the switcher's view of a lab.
use qlab.Base.{List, [], ◌∷◌, map, Option, none, some, String}
use qlab.Frontend.Proto.{
  LabRole, LabMessage, UserMessage, ResourcePoolMessage, ResourceMessage, LabMember,
  ProvisionLabResponse, GetLabResponse,
}
use qlab.Frontend.Text.{trim, join, keep_truthy, or_empty}

pub record Member : Type 0 where
  pub user_id : String
  pub email : String
  pub name : String
  pub role : LabRole

pub record Pool : Type 0 where
  pub id : String
  pub name : String

pub record Resource : Type 0 where
  pub id : String
  pub pool_id : String

pub record Workspace : Type 0 where
  pub lab_id : String
  pub lab_name : String
  pub members : List Member
  pub pools : List Pool
  pub resources : List Resource

-- `a?.field`.
abbrev pub field_of {ℓ} : {A : Type ℓ} → (A → String) → Option A → Option String
field_of f none = none
field_of f (some a) = some (f a)

unfoldable pub member_of : LabMember → Member
unfolding trim join keep_truthy
member_of m = record {
  user_id = or_empty (field_of (λ (u : UserMessage). u.id) m.user);
  email = or_empty (field_of (λ (u : UserMessage). u.email) m.user);
  name = trim (
      join " " (
        keep_truthy (
          field_of (λ (u : UserMessage). u.first_name) m.user
          ∷ field_of (λ (u : UserMessage). u.last_name) m.user
          ∷ [])));
  role = m.role;
}

unfoldable pub resource_of : ResourceMessage → Resource
resource_of r = record { id = r.id; pool_id = r.resource_pool_id }

unfoldable pub pool_of : ResourcePoolMessage → Pool
pool_of p = record { id = p.id; name = p.name }

abbrev pub pools_of : Option ResourcePoolMessage → List Pool
pools_of none = []
pools_of (some p) = record { id = p.id; name = p.name } ∷ []

unfoldable pub workspace_from_provision : ProvisionLabResponse → Workspace
unfolding member_of resource_of
workspace_from_provision res = record {
  lab_id = or_empty (field_of (λ (l : LabMessage). l.id) res.lab);
  lab_name = or_empty (field_of (λ (l : LabMessage). l.name) res.lab);
  members = map member_of res.members;
  pools = pools_of res.pool;
  resources = map resource_of res.resources;
}

module _ {Timestamp : Type 0} where
  unfoldable pub workspace_from_get_lab : GetLabResponse Timestamp → Workspace
  unfolding member_of resource_of pool_of
  workspace_from_get_lab res = record {
    lab_id = or_empty (field_of (λ (l : LabMessage). l.id) res.lab);
    lab_name = or_empty (field_of (λ (l : LabMessage). l.name) res.lab);
    members = map member_of res.members;
    pools = map pool_of res.pools;
    resources = map resource_of res.resources;
  }
