-- ===== src/Frontend/Shell/Env.antt =====
-- frontend/src/env.ts. `vars` is import.meta.env's strings; `is_prod` is its PROD.
use qlab.Base.{
  ◌≡◌, Bool, true, false, List, [], ◌∷◌, Option, none, some, String, Map, lookup, str_eq, arith,
  if◌then◌else◌,
}
use qlab.Frontend.Text.{or_empty}

-- What an Error says of a variable.
pub data Problem : Type 0 where
  missing empty : String → Problem

-- A value, or the Error that was thrown.
pub data Attempt (A : Type 0) : Type 0 where
  value : A → Attempt A
  thrown : Problem → Attempt A

abbrev pub read : String → Option String → Attempt String
read name none = thrown (missing name)
read name (some v) = if str_eq v "" then thrown (empty name) else value v

unfoldable pub required : Map String → String → Attempt String
required vars name = read name (lookup name vars)

abbrev pub then_do : {A B : Type 0} → Attempt A → (A → Attempt B) → Attempt B
then_do (value a) f = f a
then_do (thrown p) f = thrown p

pub record Firebase : Type 0 where
  pub api_key : String
  pub auth_domain : String
  pub project_id : String
  pub auth_emulator_host : Option String

pub record Env : Type 0 where
  pub api_base_url : String
  pub firebase : Firebase
  pub dev_switcher_enabled : Bool

unfoldable pub api_base_url_of : Bool → Map String → Attempt String
unfolding required
api_base_url_of is_prod vars =
    if is_prod
    then required vars "VITE_API_BASE_URL"
    else value (or_empty (lookup "VITE_API_BASE_URL" vars))

abbrev pub is_text : String → Option String → Bool
is_text t none = false
is_text t (some v) = str_eq v t

-- The object literal: its fields are evaluated in order.
unfoldable pub load_env : Bool → Map String → Attempt Env
unfolding required api_base_url_of
load_env is_prod vars = then_do (api_base_url_of is_prod vars) (λ api_base_url.
    then_do (required vars "VITE_FIREBASE_API_KEY") (λ api_key.
      then_do (required vars "VITE_FIREBASE_AUTH_DOMAIN") (λ auth_domain.
        then_do (required vars "VITE_FIREBASE_PROJECT_ID") (λ project_id. value (record {
          api_base_url = api_base_url;
          firebase = record {
            api_key = api_key;
            auth_domain = auth_domain;
            project_id = project_id;
            auth_emulator_host = lookup "VITE_FIREBASE_AUTH_EMULATOR_HOST" vars;
          };
          dev_switcher_enabled = is_text "true" (lookup "VITE_DEV_SWITCHER" vars);
        })))))

-- The variables that a build needs.
abbrev pub needed : Bool → List String
needed true =
    "VITE_API_BASE_URL" ∷ "VITE_FIREBASE_API_KEY" ∷ "VITE_FIREBASE_AUTH_DOMAIN"
    ∷ "VITE_FIREBASE_PROJECT_ID" ∷ []
needed false =
    "VITE_FIREBASE_API_KEY" ∷ "VITE_FIREBASE_AUTH_DOMAIN" ∷ "VITE_FIREBASE_PROJECT_ID" ∷ []

-- The first needed variable that is missing or empty is the one that is complained about.
abbrev pub first_problem : Map String → List String → Option Problem
first_problem vars [] = none
first_problem vars (name ∷ names) = elim (lookup name vars) [
  | none ↦ some (missing name)
  | some v ↦ if str_eq v "" then some (empty name) else first_problem vars names
]

abbrev pub problem_of : {A : Type 0} → Attempt A → Option Problem
problem_of (value a) = none
problem_of (thrown p) = some p

-- Loading the environment throws exactly when a needed variable is missing or empty; it then says
-- so of the first such variable, and which of the two it is. VITE_API_BASE_URL is needed in
-- production builds only.
pub load_env-problem :
    (is_prod : Bool) (vars : Map String)
    → problem_of (load_env is_prod vars) ≡ first_problem vars (needed is_prod)
unfolding load_env
load_env-problem true vars = ground arith
load_env-problem false vars = ground arith
