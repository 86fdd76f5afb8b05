-- ===== src/Operator/Tests.antt =====
-- A demo lab with a head, a member and a hood, beside a lab with a slot of its own.
use qlab.Base.{
  ◌≡◌, ◌≢◌, refl, ℕ, suc, zero, true, [], ◌∷◌, Option, none, some, String, pos, arith, All, str_eq,
  eq_iff, if◌then◌else◌, decimal,
}
use qlab.Scheduling.Tests.{text_ne, anns}
use qlab.Scheduling.Store.{active, vent_hood}
use qlab.Scheduling.Tables.{head_role, member_role, ok, err, database, is_member}
use qlab.Scheduling.Accepted.Persisted.{ParsesTexts}
use qlab.Scheduling.Service.{Settings}
use qlab.Scheduling.Service.Good.{Good}
use qlab.Frontend.PoolPanel.{first_chars}
use qlab.Frontend.Model.{Member, workspace_from_provision}
use qlab.Authentication.{UserRow}
use qlab.Api.GoText.{trim_space, is_space}
use qlab.Operator.{
  ProvisionSpec, LabWorkspace, World, OperatorFaults, slug, create_lab_workspace, delete_lab,
}
use qlab.Operator.Respond.{provision_response}
use qlab.Operator.Provisioned.{provisioned-Good}
use qlab.Operator.TornDown.{provisioned_torn_down}

abbrev draw : ℕ → String
draw zero = "lab-7"
draw (suc zero) = "user-1"
draw (suc (suc zero)) = "tag-1234567"
draw (suc (suc (suc zero))) = "user-2"
draw (suc (suc (suc (suc zero)))) = "tag-2345678"
draw (suc (suc (suc (suc (suc zero))))) = "pool-7"
draw _ = "hood-7"

draw_filled : (n : ℕ) → draw n ≢ ""
draw_filled zero = text_ne "lab-7" "" refl
draw_filled (suc zero) = text_ne "user-1" "" refl
draw_filled (suc (suc zero)) = text_ne "tag-1234567" "" refl
draw_filled (suc (suc (suc zero))) = text_ne "user-2" "" refl
draw_filled (suc (suc (suc (suc zero)))) = text_ne "tag-2345678" "" refl
draw_filled (suc (suc (suc (suc (suc zero))))) = text_ne "pool-7" "" refl
draw_filled (suc (suc (suc (suc (suc (suc n)))))) = text_ne "hood-7" "" refl

abbrev spec : ProvisionSpec
spec = record { feature = " Demo: 1 "; member_count = pos 1; resource_count = pos 1 }

abbrev quiet : OperatorFaults
quiet = record {
  begins = none;
  lab_refused = λ l. none;
  user_refused = λ u. none;
  membership_refused = λ m. none;
  pool_refused = λ p. none;
  resource_refused = λ r. none;
  commits = none;
}

abbrev before : World
before = record {
  labs = record { id = "lab"; name = "Lab" } ∷ [];
  users = [];
  tables = record {
    slots = anns active ∷ [];
    resources = [];
    pools = [];
    members = [];
    outbox = [];
  };
}

abbrev after : World
after = (create_lab_workspace quiet draw spec before).0

abbrev new_user : String → String → UserRow
new_user id email = record {
  id = id;
  firebase_uid = none;
  email = email;
  first_name = "";
  last_name = "";
}

abbrev made : LabWorkspace
made = record {
  lab = record { id = "lab-7"; name = "Demo: 1" };
  pool = record { id = "pool-7"; lab_id = "lab-7"; kind = vent_hood; name = "Demo: 1 pool" };
  members =
      record { user = new_user "user-1" "demo-1-head-tag-1234@qlab.dev"; role = head_role }
      ∷ record { user = new_user "user-2" "demo-1-member1-tag-2345@qlab.dev"; role = member_role }
      ∷ [];
  resources =
      record {
        id = "hood-7";
        resource_pool_id = "pool-7";
        lab_id = "lab-7";
        kind = vent_hood;
        name = "Hood 1";
      }
      ∷ [];
}

made_is : create_lab_workspace quiet draw spec before ≡ (after, ok made)
unfolding create_lab_workspace slug trim_space is_space decimal first_chars
made_is = refl

abbrev parse_text : String → Option String
parse_text s = if str_eq s "" then none else some s

parse_text-ParsesTexts : ParsesTexts parse_text
parse_text-ParsesTexts q r e f = ground (arith, eq_iff q "")

parse_draw : (n : ℕ) → (q : String) × (parse_text (draw n) ≡ some q)
parse_draw n = (draw n, ground (arith, eq_iff (draw n) "", draw_filled n))

abbrev settings : Settings
settings = record { parse = parse_text; grace = pos 5 }

provisioned-Good_example :
    Good settings "lab-7" "pool-7" after.tables
    × (after.tables.slots ≡ anns active ∷ [])
    × All
        (λ (m : Member). is_member "lab-7" m.user_id after.tables ≡ true)
        (workspace_from_provision (provision_response made)).members
provisioned-Good_example =
    provisioned-Good settings quiet draw spec before after made parse_text-ParsesTexts parse_draw
      draw_filled (tt, tt) (text_ne "lab" "lab-7" refl, tt) tt (omega arith) (omega arith)
      (omega arith) made_is

provisioned_torn_down_example :
    delete_lab none "lab-7" after
    ≡ (record { labs = before.labs; users = after.users; tables = before.tables }, ok tt)
provisioned_torn_down_example =
    provisioned_torn_down quiet draw spec before after made
      (record {
        labs = (text_ne "lab" "lab-7" refl, tt);
        slots = (text_ne "lab" "lab-7" refl, tt);
        resources = tt;
        pools = tt;
        members = tt;
        outbox = tt;
      })
      made_is

-- A refused membership undoes the whole workspace.
refused_is_undone :
    create_lab_workspace (record quiet { membership_refused = λ m. some "lost" }) draw spec before
    ≡ (before, err (database "lost"))
unfolding create_lab_workspace slug trim_space is_space decimal first_chars
refused_is_undone = refl

slug_of_punctuation : slug "--- !" ≡ "lab"
unfolding slug
slug_of_punctuation = refl
