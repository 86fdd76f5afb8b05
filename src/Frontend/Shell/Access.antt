-- ===== src/Frontend/Shell/Access.antt =====
-- frontend/src/App.tsx: what the shell shows to whom, and the session behind it.
use qlab.Base.{
  ◌≡◌, ◌≢◌, ◌↔◌, Bool, true, false, not, List, ◌∷◌, Option, none, some, String, arith, All,
  if◌then◌else◌,
}
use qlab.Frontend.Workspace.{State, Event, operator_is, run, same_uid}
use qlab.Frontend.Workspace.SignOut.{NoReply, operator_change_blanks}
use qlab.Frontend.Shell.Controls.{Session}

-- The `main` of `App`.
pub data Main : Type 0 where
  starting sign_in_prompt : Main
  -- The picker, under the error if there is one.
  picker_only : Option String → Main
  -- The picker with the switcher and the pool's panel.
  full_switcher : Option String → Main

pub data AppView : Type 0 where
  coming_soon : AppView
  switcher : Main → AppView

abbrev main_with : Option String → Bool → Main
main_with error true = full_switcher error
main_with error false = picker_only error

abbrev pub has_workspace : State → Bool
has_workspace st = elim st.workspace [ none ↦ false | some ws ↦ true ]

unfoldable pub app : Bool → Session → State → AppView
app dev_switcher_enabled session st =
    if not dev_switcher_enabled
    then coming_soon
    else if session.initializing
    then switcher starting
    else elim session.user [
      | none ↦ switcher sign_in_prompt
      | some u ↦ switcher (main_with st.error (has_workspace st))
    ]

abbrev pub ShowsPanel : AppView → Type 0
ShowsPanel (switcher (full_switcher e)) = Unit
ShowsPanel _ = ⊥

abbrev pub ShowsPicker : AppView → Type 0
ShowsPicker (switcher (full_switcher e)) = Unit
ShowsPicker (switcher (picker_only e)) = Unit
ShowsPicker _ = ⊥

-- The panel of a pool is shown exactly if the dev switcher is enabled, the session is known, an
-- operator is signed in, and a workspace is loaded; the picker, under the same conditions without the last.
pub app_iff :
    (enabled : Bool) (session : Session) (st : State)
    → (ShowsPicker (app enabled session st)
        ↔ ((enabled ≡ true) × (session.initializing ≡ false) × (session.user ≢ none)))
      × (ShowsPanel (app enabled session st)
          ↔ (ShowsPicker (app enabled session st) × (st.workspace ≢ none)))
unfolding app
app_iff enabled session st =
    ((λ h. ground arith, λ h. ground arith), (λ h. ground arith, λ h. ground arith))

module _ {Timestamp : Type 0} where
  -- After the operator has changed, and until a reply of an operator call arrives, nobody sees the
  -- panel of a pool.
  pub operator_change_hides :
      (st : State) (uid : Option String) (es : List (Event Timestamp)) (enabled : Bool)
      (session : Session)
      → same_uid uid st.operator_uid ≡ false
      → All NoReply es
      → ¬ ShowsPanel (app enabled session (run st (operator_is uid ∷ es)))
  operator_change_hides st uid es enabled session h k s =
      let blank = operator_change_blanks st uid es h k in
      ((app_iff enabled session (run st (operator_is uid ∷ es))).1.0 s).1 blank.no_workspace
