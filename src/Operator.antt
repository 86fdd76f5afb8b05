-- ===== src/Operator.antt =====
-- backend/internal/store/pgstore/operator.go: how a demo lab is made and torn down, on all tables. A
-- uuid that is drawn is the next one of a sequence; what PostgreSQL refuses is a parameter.
pub mod Respond
pub mod Inserts
pub mod Made
pub mod Provisioned
pub mod TornDown
mod Tests
use Prim.Native.Char.{Char, code}
use Prim.Native.String.{◌++◌ as ◌++ₜ◌, [] as empty_text, ◌∷◌ as ◌∷ₜ◌}
use qlab.Base.{
  ℕ, suc, zero, ◌+◌, ◌*◌, Bool, true, false, not, ◌&&◌, ◌||◌, List, [], ◌∷◌, ◌++◌, Option, none,
  some, String, ℤ, pos, negsuc, str_eq, ◌==◌, leb, if◌then◌else◌, keep, any, decimal,
}
use qlab.Scheduling.Store.{Slot, Resource, vent_hood}
use qlab.Scheduling.Notify.{OutboxRow}
use qlab.Scheduling.Tables.{
  ResourcePool, LabRole, head_role, member_role, Membership, Tables, Attempt, ok, err, unless,
  not_found, ◌>>=◌,
}
use qlab.Authentication.{UserRow}
use qlab.Api.GoText.{trim_space}
use qlab.Frontend.PoolPanel.{first_chars}

-- `Lab` of store/lab.go, and `ProvisionSpec`, `LabMember` and `LabWorkspace` of store/operator.go.
pub record LabRow : Type 0 where
  pub id : String
  pub name : String

pub record ProvisionSpec : Type 0 where
  pub feature : String
  pub member_count : ℤ
  pub resource_count : ℤ

pub record MemberRow : Type 0 where
  pub user : UserRow
  pub role : LabRole

pub record LabWorkspace : Type 0 where
  pub lab : LabRow
  pub pool : ResourcePool
  pub members : List MemberRow
  pub resources : List Resource

-- What the elevated connection sees.
pub record World : Type 0 where
  pub labs : List LabRow
  pub users : List UserRow
  pub tables : Tables

pub record OperatorFaults : Type 0 where
  pub begins : Option String
  pub lab_refused : LabRow → Option String
  pub user_refused : UserRow → Option String
  pub membership_refused : Membership → Option String
  pub pool_refused : ResourcePool → Option String
  pub resource_refused : Resource → Option String
  pub commits : Option String

-- A letter in lower case, as far as that is an ASCII letter: the Kelvin sign and the dotted I are.
abbrev pub to_lower_code : ℕ → ℕ
to_lower_code n =
    if leb 65 n && leb n 90 then n + 32 else if n == 304 then 105 else if n == 8490 then 107 else n

abbrev pub is_alphanumeric : ℕ → Bool
is_alphanumeric n = (leb 97 n && leb n 122) || (leb 48 n && leb n 57)

-- The letter or the digit of a code.
unfoldable pub letter_of : ℕ → String → String
letter_of n empty_text = empty_text
letter_of n (◌∷ₜ◌ c s) = if code c == n then ◌∷ₜ◌ c empty_text else letter_of n s

abbrev pub letters : String
letters = "abcdefghijklmnopqrstuvwxyz0123456789"

-- The loop of `slug`; `pending` is a dash that is not yet written, so that none stands at the end, and at
-- the start none is pending.
unfoldable pub slug_from : Bool → Bool → String → String
unfolding letter_of
slug_from begun pending empty_text = ""
slug_from begun pending (◌∷ₜ◌ c s) =
    let n = to_lower_code (code c) in
    if is_alphanumeric n
    then (if pending then "-" else "") ++ₜ (letter_of n letters ++ₜ slug_from true false s)
    else slug_from begun begun s

unfoldable pub slug : String → String
unfolding slug_from
slug s = let out = slug_from false false s in if str_eq out "" then "lab" else out

-- `INSERT`s of one row, in their tables.
abbrev pub with_lab : LabRow → World → World
with_lab l w = record w { labs = w.labs ++ l ∷ [] }

abbrev pub with_user : UserRow → World → World
with_user u w = record w { users = w.users ++ u ∷ [] }

abbrev pub with_membership : Membership → World → World
with_membership m w = record w {
  tables = record (w.tables) { members = w.tables.members ++ m ∷ [] };
}

abbrev pub with_pool_row : ResourcePool → World → World
with_pool_row p w = record w { tables = record (w.tables) { pools = w.tables.pools ++ p ∷ [] } }

abbrev pub with_resource : Resource → World → World
with_resource r w = record w {
  tables = record (w.tables) { resources = w.tables.resources ++ r ∷ [] };
}

module _ (faults : OperatorFaults) (draw : ℕ → String) (lab feature : String) where
  abbrev pub member_email : String → String → String
  member_email tag id =
      slug feature ++ₜ ("-" ++ₜ (tag ++ₜ ("-" ++ₜ (first_chars 8 id ++ₜ "@qlab.dev"))))

  abbrev pub new_user : String → ℕ → UserRow
  new_user tag n = record {
    id = draw n;
    firebase_uid = none;
    email = member_email tag (draw (suc n));
    first_name = "";
    last_name = "";
  }

  abbrev pub new_membership : LabRole → ℕ → Membership
  new_membership role n = record { lab_id = lab; user_id = draw n; role = role }

  -- `createMember`, whose first uuid is the n-th that is drawn.
  unfoldable pub create_member : LabRole → String → ℕ → World → Attempt (World × MemberRow)
  unfolding slug first_chars
  create_member role tag n w = do
    created ← unless (faults.user_refused (new_user tag n)) (ok (with_user (new_user tag n) w))
    joined ←
        unless (faults.membership_refused (new_membership role n))
          (ok (with_membership (new_membership role n) created))
    ok (joined, record { user = new_user tag n; role = role })

  -- The loop over the members, from `i` on.
  unfoldable pub create_members : ℕ → ℕ → ℕ → World → Attempt (World × List MemberRow)
  unfolding create_member decimal
  create_members zero i n w = ok (w, [])
  create_members (suc k) i n w = do
    (joined, m) ← create_member member_role ("member" ++ₜ decimal i) n w
    (all, ms) ← create_members k (suc i) (2 + n) joined
    ok (all, m ∷ ms)

  abbrev pub new_resource : String → ℕ → ℕ → Resource
  new_resource pool i n = record {
    id = draw n;
    resource_pool_id = pool;
    lab_id = lab;
    kind = vent_hood;
    name = "Hood " ++ₜ decimal i;
  }

  -- The loop over the resources, from `i` on.
  unfoldable pub create_resources : String → ℕ → ℕ → ℕ → World → Attempt (World × List Resource)
  unfolding decimal
  create_resources pool zero i n w = ok (w, [])
  create_resources pool (suc k) i n w = do
    created ←
        unless (faults.resource_refused (new_resource pool i n))
          (ok (with_resource (new_resource pool i n) w))
    (all, rs) ← create_resources pool k (suc i) (suc n) created
    ok (all, new_resource pool i n ∷ rs)

-- The number of turns of `for i := 1; i <= count; i++`.
abbrev pub turns : ℤ → ℕ
turns (pos n) = n
turns (negsuc n) = 0

module _ (faults : OperatorFaults) (draw : ℕ → String) (spec : ProvisionSpec) where
  -- The place of the pool's uuid among those that are drawn.
  abbrev pub pool_draw : ℕ
  pool_draw = 3 + 2 * turns spec.member_count

  abbrev pub new_lab : LabRow
  new_lab = record { id = draw 0; name = trim_space spec.feature }

  abbrev pub new_pool : ResourcePool
  new_pool = record {
    id = draw pool_draw;
    lab_id = draw 0;
    kind = vent_hood;
    name = trim_space spec.feature ++ₜ " pool";
  }

  -- The head and the members of the new lab.
  unfoldable pub enrol : World → Attempt (World × List MemberRow)
  unfolding trim_space create_member create_members
  enrol w = do
    (headed, head) ← create_member faults draw (draw 0) new_lab.name head_role "head" 1 w
    (peopled, members) ←
        create_members faults draw (draw 0) new_lab.name (turns spec.member_count) 1 3 headed
    ok (peopled, head ∷ members)

  -- Its pool, with the resources.
  unfoldable pub equip : World → Attempt (World × List Resource)
  unfolding trim_space create_resources
  equip w = do
    pooled ← unless (faults.pool_refused new_pool) (ok (with_pool_row new_pool w))
    create_resources faults draw (draw 0) new_lab.name new_pool.id (turns spec.resource_count) 1
        (suc pool_draw) pooled

  -- The transaction of `CreateLabWorkspace`.
  unfoldable pub provisioning : World → Attempt (World × LabWorkspace)
  unfolding trim_space enrol equip
  provisioning w = do
    begun ← unless faults.begins (ok w)
    made ← unless (faults.lab_refused new_lab) (ok (with_lab new_lab begun))
    (peopled, members) ← enrol made
    (stocked, resources) ← equip peopled
    unless faults.commits (
        ok (
          stocked,
          record { lab = new_lab; pool = new_pool; members = members; resources = resources },
        ))

  abbrev pub rolled_back : {A : Type 0} → World → Attempt (World × A) → World × Attempt A
  rolled_back w (ok (u, a)) = (u, ok a)
  rolled_back w (err e) = (w, err e)

  -- `CreateLabWorkspace`.
  unfoldable pub create_lab_workspace : World → World × Attempt LabWorkspace
  unfolding provisioning
  create_lab_workspace w = rolled_back w (provisioning w)

-- `DeleteLab`: the rows of the lab go with it; users stay.
abbrev pub outside : {A : Type 0} → (A → String) → String → List A → List A
outside lab_of lab rows = keep (λ r. not (str_eq (lab_of r) lab)) rows

abbrev pub tables_without : String → Tables → Tables
tables_without lab t = record {
  slots = outside (λ (s : Slot). s.lab_id) lab t.slots;
  resources = outside (λ (r : Resource). r.lab_id) lab t.resources;
  pools = outside (λ (p : ResourcePool). p.lab_id) lab t.pools;
  members = outside (λ (m : Membership). m.lab_id) lab t.members;
  outbox = outside (λ (r : OutboxRow). r.lab_id) lab t.outbox;
}

abbrev pub labs_without : String → List LabRow → List LabRow
labs_without lab labs = outside (λ (l : LabRow). l.id) lab labs

unfoldable pub delete_lab : Option String → String → World → World × Attempt (Unit {0})
delete_lab fault lab w = elim (unless fault (ok tt)) [
  | err e ↦ (w, err e)
  | ok u ↦
      if any (λ (l : LabRow). str_eq l.id lab) w.labs
      then (
        record {
          labs = labs_without lab w.labs;
          users = w.users;
          tables = tables_without lab w.tables;
        },
        ok tt,
      )
      else (w, err not_found)
]
