-- ===== src/Frontend/Shell/Controls.antt =====
-- frontend/src/components: SignIn, ActAsSwitcher and WorkspacePicker, by what they show and do, and
-- frontend/src/session/SessionProvider.tsx.
use Prim.Native.String.{◌++◌}
use qlab.Base.{
  Bool, true, false, ◌||◌, List, [], map, Option, none, some, String, ℤ, str_eq, if◌then◌else◌,
}
use qlab.Frontend.Proto.{LabRole, head, LabSummary, LabMessage}
use qlab.Frontend.Text.{is_truthy, or_else, or_empty}
use qlab.Frontend.Model.{Member, Pool, field_of}
use qlab.Frontend.Workspace.{State, Call, load_workspace, acting_member}

-- Firebase's User, by what is read of it.
pub record User : Type 0 where
  pub uid : String
  pub email : Option String

pub record Session : Type 0 where
  pub user : Option User
  pub initializing : Bool

abbrev pub initial_session : Session
initial_session = record { user = none; initializing = true }

-- The callback of `onAuthStateChanged`.
unfoldable pub auth_state_changed : Option User → Session → Session
auth_state_changed next s = record { user = next; initializing = false }

-- `useSession().user?.uid`.
abbrev pub uid_of : Session → Option String
uid_of s = elim s.user [ none ↦ none | some u ↦ some u.uid ]

-- SignIn: the signed-in operator with a button to sign out, or the button to sign in and its error.
pub data SignInView : Type 0 where
  signed_in : String → SignInView
  signed_out : Option String → SignInView

abbrev email_or_uid : User → String
email_or_uid u = elim u.email [ none ↦ u.uid | some e ↦ e ]

unfoldable pub sign_in_view : Session → Option String → SignInView
sign_in_view s error = elim s.user [
  | some u ↦ signed_in (email_or_uid u)
  | none ↦ signed_out (if is_truthy error then error else none)
]

-- ActAsSwitcher.
abbrev is_head : LabRole → Bool
is_head head = true
is_head _ = false

unfoldable pub member_label : Member → String
member_label m =
    or_else m.name m.email ++ (" (" ++ ((if is_head m.role then "head" else "member") ++ ")"))

-- An entry of a `select`: its value and its text.
pub record SelectOption : Type 0 where
  pub value : String
  pub text : String

pub record SwitcherView : Type 0 where
  pub user_value : String
  pub user_disabled : Bool
  pub users : List SelectOption
  pub pool_value : String
  pub pools : List SelectOption
  pub acting_as : Option String

abbrev acting_label : Option Member → Option String
acting_label none = none
acting_label (some m) = some (or_else m.name m.email)

-- The placeholder "Select a user…" stands before the users.
unfoldable pub act_as_switcher : State → Option SwitcherView
unfolding member_label acting_member
act_as_switcher st = elim st.workspace [
  | none ↦ none
  | some ws ↦ some (record {
    user_value = or_empty st.acting_user_id;
    user_disabled = st.busy;
    users = map (λ (m : Member). record { value = m.user_id; text = member_label m }) ws.members;
    pool_value = or_empty st.pool_id;
    pools = map (λ (p : Pool). record { value = p.id; text = p.name }) ws.pools;
    acting_as = acting_label (acting_member st);
  })
]

-- WorkspacePicker. The reply of ListLabs is a list or an error's message.
pub record Picker : Type 0 where
  pub labs : List LabSummary
  pub selected_lab_id : String
  pub show_modal : Bool
  pub list_error : Option String

abbrev pub fresh_picker : Picker
fresh_picker = record { labs = []; selected_lab_id = ""; show_modal = false; list_error = none }

pub data ListReply : Type 0 where
  listed : List LabSummary → ListReply
  list_failed : String → ListReply

unfoldable pub end_refresh : ListReply → Picker → Picker
end_refresh (listed labs) p = record p { labs = labs; list_error = none }
end_refresh (list_failed message) p = record p { list_error = some message }

pub data PickerEvent : Type 0 where
  selects_lab : String → PickerEvent
  opens_modal closes_modal : PickerEvent
  refreshed : ListReply → PickerEvent

-- `onClose` also begins a refresh, which is settled by `refreshed`.
unfoldable pub picker_step : Picker → PickerEvent → Picker
unfolding end_refresh
picker_step p (selects_lab id) = record p { selected_lab_id = id }
picker_step p opens_modal = record p { show_modal = true }
picker_step p closes_modal = record p { show_modal = false }
picker_step p (refreshed r) = end_refresh r p

unfoldable pub load_disabled : Picker → State → Bool
load_disabled p st = str_eq p.selected_lab_id "" || st.busy

-- The Load button: a disabled button does nothing.
unfoldable pub on_load : Picker → State → Option Call
unfolding load_disabled
on_load p st = if load_disabled p st then none else some (load_workspace p.selected_lab_id)

-- The texts of the labs in the list; `count` writes a number.
unfoldable pub lab_options : (ℤ → String) → List LabSummary → List SelectOption
lab_options count labs =
    map
      (λ (l : LabSummary). record {
        value = or_empty (field_of (λ (lab : LabMessage). lab.id) l.lab);
        text =
            or_empty (field_of (λ (lab : LabMessage). lab.name) l.lab)
            ++ (" · " ++ (count l.user_count ++ ("u/" ++ (count l.resource_count ++ "r"))));
      })
      labs
