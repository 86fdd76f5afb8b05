-- ===== src/DynamicQueue/Validate/Sound.antt =====
-- What backend/internal/dynamicqueue/validate.go accepts: a description that does not run its
-- loops.
use qlab.Base.{
  ◌≤◌, ◌≡◌, refl, ◌≢◌, ◌↔◌, ◌⊎◌, inr, false, List, [], ◌∷◌, Option, none, String, ℤ, pos, ◌≤ℤ◌,
  ◌<ℤ◌, Map, lookup, arith, eq_iff, All, AllPairs, All-imp, All-zip, eqb_ℤ_iff, length,
  lookup-insert,
}
use qlab.DynamicQueue.Slot.{Slot, Resource, Input, unknown, is_pinned, is_assigned}
use qlab.DynamicQueue.Validate.{
  InputError, lookup_priority, first_error, check_resources, check_pinned, check_priority,
  check_slot, mark_active, check_slots, validate,
}

-- A slot that is well-formed on its own.
pub record SlotOk (in' : Input) (s : Slot) : Type 0 where
  pub in_pool : s.resource_pool_id ≡ in'.resource_pool_id
  pub duration_pos : pos 0 <ℤ s.duration
  pub lookahead_nonneg : pos 0 ≤ℤ s.lookahead
  pub known_status : s.status ≢ unknown
  pub pinned_ok :
      (is_pinned s.status ≡ false) ⊎ ((s.assigned_resource ≢ "") × (in'.now ≤ s.projected_end))

-- Two slots differ in priority, and in their resource if both are ACTIVE.
pub record Compatible (s t : Slot) : Type 0 where
  pub priorities : s.slot_priority ≢ t.slot_priority
  pub resources :
      (is_pinned s.status ≡ false)
      ⊎ (is_pinned t.status ≡ false)
      ⊎ (s.assigned_resource ≢ t.assigned_resource)

pub record IsValid (in' : Input) : Type 0 where
  pub has_resources : in'.resources ≢ []
  pub grace_nonneg : pos 0 ≤ℤ in'.grace
  pub resources_in_pool : All (λ r. r.resource_pool_id ≡ in'.resource_pool_id) in'.resources
  pub slots_ok : All (SlotOk in') in'.slots
  pub compatible : AllPairs Compatible in'.slots

-- With the maps of the loop: nothing in them collides with the slot.
record Admitted (in' : Input) (pr : List (ℤ × String)) (ar : Map String) (s : Slot) : Type 0 where
  ok : SlotOk in' s
  fresh : lookup_priority s.slot_priority pr ≡ none
  idle : (is_pinned s.status ≡ false) ⊎ (lookup s.assigned_resource ar ≡ none)

check_slot→Admitted :
    (in' : Input) (pr : List (ℤ × String)) (ar : Map String) (s : Slot)
    → check_slot in' pr ar s ≡ none
    → Admitted in' pr ar s
unfolding check_slot check_pinned check_priority first_error is_assigned
check_slot→Admitted in' pr ar s h =
    ground (arith, eq_iff s.resource_pool_id in'.resource_pool_id, eq_iff s.assigned_resource "")

Admitted→check_slot :
    (in' : Input) (pr : List (ℤ × String)) (ar : Map String) (s : Slot)
    → Admitted in' pr ar s
    → check_slot in' pr ar s ≡ none
unfolding check_slot check_pinned check_priority first_error is_assigned
Admitted→check_slot in' pr ar s h =
    ground (arith, eq_iff s.resource_pool_id in'.resource_pool_id, eq_iff s.assigned_resource "")

-- The maps after a slot `s`: what is admitted next is admitted before, and compatible with `s`.
step-Admitted :
    (in' : Input) (pr : List (ℤ × String)) (ar : Map String) (s t : Slot)
    → Admitted in' ((s.slot_priority, s.id) ∷ pr) (mark_active s ar) t
      ↔ (Admitted in' pr ar t × Compatible s t)
unfolding lookup_priority mark_active
step-Admitted in' pr ar s t = (
  λ h. ground (
    arith,
    eqb_ℤ_iff s.slot_priority t.slot_priority,
    eq_iff s.assigned_resource t.assigned_resource,
    lookup-insert s.assigned_resource t.assigned_resource s.id ar,
  ),
  λ h. ground (
    arith,
    eqb_ℤ_iff s.slot_priority t.slot_priority,
    eq_iff s.assigned_resource t.assigned_resource,
    lookup-insert s.assigned_resource t.assigned_resource s.id ar,
  ),
)

first_error-none : (e f : Option InputError) → (first_error e f ≡ none) ↔ ((e ≡ none) × (f ≡ none))
unfolding first_error
first_error-none e f = (λ h. ground arith, λ h. ground arith)

check_slots-none :
    (in' : Input) (pr : List (ℤ × String)) (ar : Map String) (ss : List Slot)
    → check_slots in' pr ar ss ≡ none
    → All (Admitted in' pr ar) ss × AllPairs Compatible ss
unfolding check_slots
check_slots-none in' pr ar [] h = (tt, tt)
check_slots-none in' pr ar (s ∷ ss) h =
    let e = (first_error-none _ _).0 h in
    let r = check_slots-none in' ((s.slot_priority, s.id) ∷ pr) (mark_active s ar) ss e.1 in
    (
      (
        check_slot→Admitted in' pr ar s e.0,
        All-imp _ _ ss (λ t a. ((step-Admitted in' pr ar s t).0 a).0) r.0,
      ),
      (All-imp _ _ ss (λ t a. ((step-Admitted in' pr ar s t).0 a).1) r.0, r.1),
    )

check_slots_accepts :
    (in' : Input) (pr : List (ℤ × String)) (ar : Map String) (ss : List Slot)
    → All (Admitted in' pr ar) ss
    → AllPairs Compatible ss
    → check_slots in' pr ar ss ≡ none
unfolding check_slots
check_slots_accepts in' pr ar [] h k = refl
check_slots_accepts in' pr ar (s ∷ ss) h k = (first_error-none _ _).1 (
  Admitted→check_slot in' pr ar s h.0,
  check_slots_accepts in' ((s.slot_priority, s.id) ∷ pr) (mark_active s ar) ss
      (All-imp _ _ ss (λ t a. (step-Admitted in' pr ar s t).1 a) (All-zip _ _ ss h.1 k.0)) k.1,
)

check_resources-none :
    (pool : String) (rs : List Resource)
    → (check_resources pool rs ≡ none) ↔ All (λ r. r.resource_pool_id ≡ pool) rs
unfolding check_resources
check_resources-none pool [] = (λ h. tt, λ h. refl)
check_resources-none pool (r ∷ rs) =
    let ih = check_resources-none pool rs in
    (
      λ h. ground (arith, eq_iff r.resource_pool_id pool, ih),
      λ h. ground (arith, eq_iff r.resource_pool_id pool, ih),
    )

fresh_maps : (in' : Input) (s : Slot) → SlotOk in' s → Admitted in' [] [] s
unfolding lookup_priority lookup
fresh_maps in' s h = record { ok = h; fresh = refl; idle = inr refl }

length_pos : (rs : List Resource) → (length rs ≡ 0) ↔ (rs ≡ [])
length_pos [] = (λ h. refl, λ h. refl)
length_pos (r ∷ rs) = (λ h. absurd (omega arith), λ h. absurd (cc))

record Checks (in' : Input) : Type 0 where
  has_resources : in'.resources ≢ []
  grace_nonneg : pos 0 ≤ℤ in'.grace
  resources_checked : check_resources in'.resource_pool_id in'.resources ≡ none
  slots_checked : check_slots in' [] [] in'.slots ≡ none

validate-Checks : (in' : Input) → (validate in' ≡ none) ↔ Checks in'
unfolding validate
validate-Checks in' =
    (λ h. ground (arith, length_pos in'.resources), λ h. ground (arith, length_pos in'.resources))

-- `Validate` returns no error on exactly the inputs that are valid: there is a resource, the grace
-- is not negative, all resources and slots are of the pool, each slot is well-formed on its own,
-- the priorities differ pairwise, and no two ACTIVE slots share a resource.
pub validate_iff : (in' : Input) → (validate in' ≡ none) ↔ IsValid in'
validate_iff in' = (
  λ h.
      let c = (validate-Checks in').0 h in
      let r = check_slots-none in' [] [] in'.slots c.slots_checked in
      record {
        has_resources = c.has_resources;
        grace_nonneg = c.grace_nonneg;
        resources_in_pool =
            (check_resources-none in'.resource_pool_id in'.resources).0 c.resources_checked;
        slots_ok = All-imp _ _ in'.slots (λ s a. a.ok) r.0;
        compatible = r.1;
      },
  λ v. (validate-Checks in').1 (record {
    has_resources = v.has_resources;
    grace_nonneg = v.grace_nonneg;
    resources_checked =
        (check_resources-none in'.resource_pool_id in'.resources).1 v.resources_in_pool;
    slots_checked =
        check_slots_accepts in' [] [] in'.slots
          (All-imp _ _ in'.slots (λ s k. fresh_maps in' s k) v.slots_ok) v.compatible;
  }),
)
