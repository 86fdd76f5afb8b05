-- ===== src/Frontend/Shell/Entry.antt =====
-- frontend/src/main.tsx with firebase.ts, and the contexts of session/SessionProvider.tsx and
-- workspace/WorkspaceProvider.tsx: what a load of the page comes to. A build's DEV is the negation of its
-- PROD. frontend/vite.config.ts is the proxy that stands before it in development.
use qlab.Base.{
  ◌≡◌, refl, ap, ◌∙◌, ◌↔◌, ◌≢◌, inl, inr, Bool, true, false, not, ◌&&◌, Option, none, some, String,
  Map, lookup, arith, Bool-cases, str_eq, eq_iff, if◌then◌else◌,
}
use qlab.Frontend.Text.{is_truthy}
use qlab.Frontend.Workspace.{State}
use qlab.Frontend.Shell.Env.{
  Problem, Attempt, value, thrown, Env, load_env, needed, first_problem, is_text, problem_of,
  load_env-problem,
}
use qlab.Frontend.Shell.Theme.{Page, get_theme, apply_theme}
use qlab.Frontend.Shell.Controls.{Session}
use qlab.Frontend.Shell.Access.{AppView, coming_soon, app}

-- What firebase.ts asks of the SDK.
pub record FirebaseStart : Type 0 where
  pub api_key : String
  pub auth_domain : String
  pub project_id : String
  pub emulator : Option String

unfoldable pub start_firebase : Env → FirebaseStart
start_firebase env = record {
  api_key = env.firebase.api_key;
  auth_domain = env.firebase.auth_domain;
  project_id = env.firebase.project_id;
  emulator =
      if is_truthy env.firebase.auth_emulator_host then env.firebase.auth_emulator_host else none;
}

-- Why a load or a render throws.
pub data Thrown : Type 0 where
  bad_env : Problem → Thrown
  missing_root : Thrown
  outside : String → Thrown

pub data Outcome (A : Type 0) : Type 0 where
  done : A → Outcome A
  fails : Thrown → Outcome A

abbrev pub use_context : {A : Type 0} → String → Option A → Outcome A
use_context message none = fails (outside message)
use_context message (some v) = done v

abbrev pub use_session : Option Session → Outcome Session
use_session = use_context "useSession must be used within a SessionProvider"

abbrev pub use_workspace : Option State → Outcome State
use_workspace = use_context "useWorkspace must be used within a WorkspaceProvider"

infixl 5 ◌>>=◌
abbrev pub ◌>>=◌ : {A B : Type 0} → Outcome A → (A → Outcome B) → Outcome B
done a >>= f = f a
fails e >>= f = fails e

-- `App` under the contexts that stand around it.
unfoldable pub render_app : Bool → Option Session → Option State → Outcome AppView
render_app enabled session_context workspace_context = do
  session ← use_session session_context
  st ← use_workspace workspace_context
  done (app enabled session st)

pub data Shown : Type 0 where
  gallery : Shown
  shell : AppView → Shown

module _ (is_prod : Bool) (vars : Map String) (pathname : String) (has_root : Bool)
    (session : Session) (st : State) where
  abbrev pub is_preview : Bool
  is_preview = not is_prod && str_eq pathname "/preview"

  -- `main` once its imports have run: the providers stand around the shell.
  unfoldable pub mounted : Env → Outcome Shown
  unfolding render_app
  mounted env =
      if not has_root
      then fails missing_root
      else if is_preview
      then done gallery
      else render_app env.dev_switcher_enabled (some session) (some st) >>= (λ v. done (shell v))

  abbrev pub after_env : Page → Attempt Env → Page × Outcome Shown
  after_env page (thrown p) = (page, fails (bad_env p))
  after_env page (value env) = (apply_theme (get_theme page) page, mounted env)

  -- A load of the page: env.ts is evaluated first, and the theme is applied before the root is sought.
  unfoldable pub load_page : Page → Page × Outcome Shown
  unfolding mounted load_env
  load_page page = after_env page (load_env is_prod vars)

-- When the gallery is mounted.
abbrev pub Previews : Bool → String → Bool → Type 0
Previews is_prod pathname has_root = (has_root ≡ true) × (is_prod ≡ false) × (pathname ≡ "/preview")

module _ (is_prod : Bool) (vars : Map String) (pathname : String) (has_root : Bool)
    (session : Session) (st : State) (page : Page) where
  abbrev outcome : Outcome Shown
  outcome = (load_page is_prod vars pathname has_root session st page).1

  mounted-gallery :
      (env : Env)
      → (mounted is_prod vars pathname has_root session st env ≡ done gallery)
        ↔ Previews is_prod pathname has_root
  unfolding mounted render_app
  mounted-gallery env = (
    λ h. ground (arith, eq_iff pathname "/preview"),
    λ h. ground (arith, eq_iff pathname "/preview"),
  )

  mounted-outside :
      (env : Env) (message : String)
      → mounted is_prod vars pathname has_root session st env ≢ fails (outside message)
  unfolding mounted render_app
  mounted-outside env message h = absurd (ground arith)

  mounted-bad_env :
      (env : Env) (p : Problem)
      → mounted is_prod vars pathname has_root session st env ≢ fails (bad_env p)
  unfolding mounted render_app
  mounted-bad_env env p h = absurd (ground arith)

  after_env_lem :
      (r : Attempt Env) (o : Option Problem)
      → problem_of r ≡ o
      → let out = (after_env is_prod vars pathname has_root session st page r).1 in
        ((p : Problem) → (out ≡ fails (bad_env p)) ↔ (o ≡ some p))
        × ((out ≡ done gallery) ↔ ((o ≡ none) × Previews is_prod pathname has_root))
        × ((message : String) → out ≢ fails (outside message))
  after_env_lem (thrown q) o e = (
    λ p. (λ h. ground arith, λ h. ground arith),
    (λ h. absurd (ground arith), λ h. absurd (ground arith)),
    λ message h. absurd (ground arith),
  )
  after_env_lem (value env) o e = (
    λ p. (λ h. absurd (mounted-bad_env env p h), λ h. absurd (ground arith)),
    (λ h. (ground arith, (mounted-gallery env).0 h), λ h. (mounted-gallery env).1 h.1),
    mounted-outside env,
  )

  -- A load of the page throws for a variable of the environment exactly if that is the first needed one
  -- that is missing or empty. Otherwise it shows the gallery exactly if the page has a root, the build is no
  -- production build, and the path is /preview. It never throws for a missing provider.
  pub load_page_lem :
      ((p : Problem)
        → (outcome ≡ fails (bad_env p)) ↔ (first_problem vars (needed is_prod) ≡ some p))
      × ((outcome ≡ done gallery)
          ↔ ((first_problem vars (needed is_prod) ≡ none) × Previews is_prod pathname has_root))
      × ((message : String) → outcome ≢ fails (outside message))
  unfolding load_page
  load_page_lem =
      after_env_lem (load_env is_prod vars) (first_problem vars (needed is_prod))
        (load_env-problem is_prod vars)

-- A page that offers nothing but the placeholder.
abbrev pub IsInert : Outcome Shown → Type 0
IsInert (fails e) = Unit
IsInert (done gallery) = ⊥
IsInert (done (shell v)) = v ≡ coming_soon

is_text-false : (t : String) (o : Option String) → o ≢ some t → is_text t o ≡ false
is_text-false t none n = refl
is_text-false t (some v) n = elim (Bool-cases (str_eq v t)) [
  | inl c ↦ absurd (n (ap some ((eq_iff v t).0 c)))
  | inr c ↦ c
]

switcher_off :
    (vars : Map String) (env : Env)
    → load_env true vars ≡ value env
    → env.dev_switcher_enabled ≡ is_text "true" (lookup "VITE_DEV_SWITCHER" vars)
unfolding load_env
switcher_off vars env h = ground arith

module _ (pathname : String) (has_root : Bool) (session : Session) (st : State) (page : Page)
    (vars : Map String) where
  mounted-IsInert :
      (env : Env)
      → env.dev_switcher_enabled ≡ false
      → IsInert (mounted true vars pathname has_root session st env)
  unfolding mounted render_app app
  mounted-IsInert env e = elim (Bool-cases has_root) [ inl c ↦ rw (c, e) refl | inr c ↦ rw c tt ]

  after_env-IsInert :
      (r : Attempt Env)
      → ((env : Env) → r ≡ value env → env.dev_switcher_enabled ≡ false)
      → IsInert (after_env true vars pathname has_root session st page r).1
  after_env-IsInert (thrown p) h = tt
  after_env-IsInert (value env) h = mounted-IsInert env (h env refl)

-- A production build that is not given VITE_DEV_SWITCHER=true shows the placeholder or throws, whatever
-- the path, the session and the workspace.
pub production-IsInert :
    (vars : Map String) (pathname : String) (has_root : Bool) (session : Session) (st : State)
    (page : Page)
    → lookup "VITE_DEV_SWITCHER" vars ≢ some "true"
    → IsInert (load_page true vars pathname has_root session st page).1
unfolding load_page
production-IsInert vars pathname has_root session st page n =
    after_env-IsInert pathname has_root session st page vars (load_env true vars)
      (λ env e. switcher_off vars env e ∙ is_text-false "true" (lookup "VITE_DEV_SWITCHER" vars) n)
