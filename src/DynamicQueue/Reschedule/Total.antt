-- ===== src/DynamicQueue/Reschedule/Total.antt =====
-- When `Reschedule` of backend/internal/dynamicqueue/basic/reschedule.go returns a schedule.
use qlab.Base.{
  ◌≡◌, refl, ◌≢◌, ◌↔◌, inl, inr, List, [], ◌∷◌, Option, none, some, String, arith, All,
  Option-cases,
}
use qlab.DynamicQueue.Slot.{Input, Result, Step}
use qlab.DynamicQueue.Validate.{validate}
use qlab.DynamicQueue.Validate.Sound.{IsValid, validate_iff}
use qlab.DynamicQueue.Intervals.{Interval, FreeMap, get, build_free}
use qlab.DynamicQueue.Intervals.Seed.{build_free-ne}
use qlab.DynamicQueue.Reschedule.{
  rescheduled, panicked, seed_step, seed_steps, seeds, run, reschedule,
}
use qlab.DynamicQueue.Reschedule.Refines.{reschedule-run}

seed_step-some :
    (rid : String) (ivs : List Interval) (rest : Option (List Step))
    → ivs ≢ []
    → (steps : List Step) × (rest ≡ some steps)
    → (steps : List Step) × (seed_step rid ivs rest ≡ some steps)
seed_step-some rid [] rest n k = absurd (n refl)
seed_step-some rid (iv ∷ ivs) none n (steps, e) = absurd (cc)
seed_step-some rid (iv ∷ ivs) (some steps) n k = (_, refl)

seed_steps-some :
    (free : FreeMap) (order : List String)
    → All (λ q. get q free ≢ []) order
    → (steps : List Step) × (seed_steps free order ≡ some steps)
unfolding seed_steps
seed_steps-some free [] a = ([], refl)
seed_steps-some free (rid ∷ order) a =
    seed_step-some rid (get rid free) (seed_steps free order) a.0 (seed_steps-some free order a.1)

-- Step 2 reads no empty list.
seeds-some : (in' : Input) → (steps : List Step) × (seeds in' ≡ some steps)
unfolding seeds
seeds-some in' =
    seed_steps-some (build_free in'.resources in'.slots in'.now) _
      (build_free-ne in'.resources in'.slots in'.now)

valid_returns :
    (in' : Input) → validate in' ≡ none → (r : Result) × (reschedule in' ≡ rescheduled r)
unfolding reschedule
valid_returns in' e =
    let (steps, g) = seeds-some in' in
    (record { queue = (run in' steps).queue; trace = (run in' steps).trace }, ground arith)

never_panics : (in' : Input) → reschedule in' ≢ panicked
unfolding reschedule
never_panics in' h = elim (Option-cases (validate in')) [
  | inl e ↦ let (steps, g) = seeds-some in' in absurd (ground arith)
  | inr (x, e) ↦ absurd (ground arith)
]

-- `Reschedule` never panics: no resource's list of free intervals is empty when its first one is
-- read. It returns a schedule exactly for the inputs that are valid.
pub reschedule-returns_iff :
    (in' : Input)
    → (reschedule in' ≢ panicked)
      × (((r : Result) × (reschedule in' ≡ rescheduled r)) ↔ IsValid in')
reschedule-returns_iff in' = (
  never_panics in',
  (
    λ (r, e). (validate_iff in').0 (reschedule-run in' r e).0,
    λ v. valid_returns in' ((validate_iff in').1 v),
  ),
)
