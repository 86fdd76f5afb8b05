-- ===== src/Frontend/Shell/Tests.antt =====
-- The loading of the page, its theme and its shell at small inputs.
use qlab.Base.{
  ◌≡◌, ◌≢◌, ◌↔◌, refl, true, false, [], ◌∷◌, Option, none, some, String, pos, Map, lookup, leb,
  arith,
}
use qlab.Frontend.Text.{trim, is_space}
use qlab.Frontend.Proto.{ProvisionLabRequest}
use qlab.Frontend.Workspace.{initial, provision_lab}
use qlab.Frontend.Shell.Env.{
  Problem, load_env, problem_of, missing, first_problem, needed, load_env-problem,
}
use qlab.Frontend.Shell.Theme.{Page, InStep, mount, toggles, mount-InStep}
use qlab.Frontend.Shell.Controls.{Session}
use qlab.Frontend.Shell.Access.{app, coming_soon, app_iff, ShowsPanel, ShowsPicker}
use qlab.Frontend.Shell.Provision.{fresh_modal, submit, valid_provision, text_length, submit-valid}
use qlab.Frontend.Shell.Entry.{
  bad_env, outside, done, fails, gallery, shell, load_page, Previews, load_page_lem, IsInert,
  production-IsInert,
}

abbrev local_vars : Map String
local_vars = ("VITE_FIREBASE_API_KEY", "k") ∷ ("VITE_FIREBASE_PROJECT_ID", "") ∷ []

load_env-problem_example :
    problem_of (load_env false local_vars) ≡ some (missing "VITE_FIREBASE_AUTH_DOMAIN")
unfolding lookup
load_env-problem_example = load_env-problem false local_vars

abbrev light_page : Page
light_page = record { storage = ("qlab-theme", "light") ∷ []; dark_class = true }

mount-InStep_example : InStep (toggles 3 (mount light_page))
mount-InStep_example = mount-InStep light_page 3

abbrev operators : Session
operators = record { user = some (record { uid = "op"; email = none }); initializing = false }

app_iff_example :
    (ShowsPicker (app true operators initial)
      ↔ ((true ≡ true) × (false ≡ false) × (operators.user ≢ none)))
    × (ShowsPanel (app true operators initial)
        ↔ (ShowsPicker (app true operators initial) × (initial.workspace ≢ none)))
app_iff_example = app_iff true operators initial

fresh_submit :
    submit fresh_modal initial
    ≡ some (
      record initial { busy = true },
      some (
          provision_lab
            (record { feature = "demo"; member_count = pos 3; resource_count = pos 2 })),
    )
unfolding submit trim is_space
fresh_submit = refl

submit-valid_example :
    (false ≡ false)
    × (true ≡ true)
    × ((req : ProvisionLabRequest) × (Option.some (
            provision_lab
              (record { feature = "demo"; member_count = pos 3; resource_count = pos 2 }))
          ≡ some (provision_lab req))
        × (req.member_count ≡ pos 3)
        × (req.resource_count ≡ pos 2)
        × (valid_provision req ≡ leb (text_length (trim "demo")) 100))
submit-valid_example =
    submit-valid fresh_modal initial (record initial { busy = true })
      (some
        (provision_lab (record { feature = "demo"; member_count = pos 3; resource_count = pos 2 })))
      fresh_submit

load_page_lem_example :
    let shown = (load_page false local_vars "/preview" true operators initial light_page).1 in
    ((p : Problem)
      → (shown ≡ fails (bad_env p)) ↔ (first_problem local_vars (needed false) ≡ some p))
    × ((shown ≡ done gallery)
        ↔ ((first_problem local_vars (needed false) ≡ none) × Previews false "/preview" true))
    × ((message : String) → shown ≢ fails (outside message))
load_page_lem_example = load_page_lem false local_vars "/preview" true operators initial light_page

abbrev full_vars : Map String
full_vars =
    ("VITE_API_BASE_URL", "https://api")
    ∷ ("VITE_FIREBASE_API_KEY", "k")
    ∷ ("VITE_FIREBASE_AUTH_DOMAIN", "d")
    ∷ ("VITE_FIREBASE_PROJECT_ID", "q")
    ∷ []

no_switcher : lookup "VITE_DEV_SWITCHER" full_vars ≢ some "true"
unfolding lookup
no_switcher h = absurd (ground arith)

production-IsInert_example :
    IsInert (load_page true full_vars "/preview" true operators initial light_page).1
production-IsInert_example =
    production-IsInert full_vars "/preview" true operators initial light_page no_switcher

production_is_coming_soon :
    (load_page true full_vars "/preview" true operators initial light_page).1
    ≡ done (shell coming_soon)
unfolding load_page lookup app
production_is_coming_soon = refl
