-- ===== src/Scheduling/Accepted.antt =====
-- Well-formed rows of a pool, after the constraints of the slots table, and the engine's input that
-- backend/internal/services/scheduling/v1/convert.go builds from them.
pub mod Writes
pub mod Pins
pub mod Bookings
pub mod Kept
pub mod Placed
pub mod Persisted
use mathlib.Core.Bool.{false≢true}
use qlab.Base.{
  ℕ, ◌^◌, ◌<◌, ◌≤◌, ◌≡◌, refl, sym, ap, ◌∙◌, subst, ◌≢◌, ◌⊎◌, inl, inr, Bool, true, false, List, [],
  ◌∷◌, map, Option, none, some, String, ℤ, pos, ◌≤ℤ◌, ◌<ℤ◌, arith, All, AllPairs, All-imp, All-zip,
  Bool-cases, wrap32, wrap32_small, if◌then◌else◌,
}
use qlab.DynamicQueue.Slot.{
  Input, Result, Slot as EngineSlot, Resource as EngineResource, is_pinned,
  unknown as engine_unknown,
}
use qlab.DynamicQueue.Validate.Sound.{SlotOk, Compatible, IsValid}
use qlab.Scheduling.Store.{
  SlotStatus, Resource, Slot, is_live, is_active, scheduled, active, unknown, complete, cancelled,
  no_show,
}
use qlab.Scheduling.Convert.{
  later_instant, waiting_slot, running_slot, to_engine_slot, to_engine_resource, engine_slots,
  build_engine_input,
}

-- A row of the pool: its own columns. The text of a uuid is not empty, and the priority fits int32.
pub record RowOk (pool : String) (s : Slot) : Type 0 where
  pub in_pool : s.resource_pool_id ≡ pool
  pub duration_pos : pos 0 <ℤ s.duration_minutes
  pub lookahead_nonneg : pos 0 ≤ℤ s.lookahead_minutes
  pub priority_fits : (n : ℕ) × (s.priority ≡ pos n) × (n < 2 ^ 31)
  pub resource_text : s.resource_id ≢ ""

-- Two live rows have different priorities, and different resources if both are ACTIVE.
abbrev pub RowsApart : Slot → Slot → Type 0
RowsApart s t =
    is_live s.status ≡ true
    → is_live t.status ≡ true
    → (s.priority ≢ t.priority)
      × ((is_active s.status ≡ false)
          ⊎ (is_active t.status ≡ false)
          ⊎ (s.resource_id ≢ t.resource_id))

pub record WellFormed (pool : String) (slots : List Slot) : Type 0 where
  pub rows : All (RowOk pool) slots
  pub apart : AllPairs RowsApart slots

-- The pool's resources and the service's grace.
pub record PoolOk (pool : String) (resources : List Resource) (grace : ℤ) : Type 0 where
  pub some_resource : resources ≢ []
  pub resources_in_pool : All (λ r. r.resource_pool_id ≡ pool) resources
  pub resource_texts : All (λ r. r.id ≢ "") resources
  pub grace_nonneg : pos 0 ≤ℤ grace

-- The engine's slots, without the error that live slots do not raise.
unfoldable pub converted : Slot → ℕ → EngineSlot
converted s now = if is_active s.status then running_slot s now else waiting_slot s

unfoldable pub live_converted : List Slot → ℕ → List EngineSlot
live_converted [] now = []
live_converted (s ∷ ss) now =
    if is_live s.status then converted s now ∷ live_converted ss now else live_converted ss now

to_engine_slot-live :
    (s : Slot) (now : ℕ) → is_live s.status ≡ true → to_engine_slot s now ≡ some (converted s now)
unfolding to_engine_slot converted
to_engine_slot-live s now h = ground arith

engine_slots-live : (ss : List Slot) (now : ℕ) → engine_slots ss now ≡ some (live_converted ss now)
unfolding engine_slots live_converted
engine_slots-live [] now = refl
engine_slots-live (s ∷ ss) now = elim (Bool-cases (is_live s.status)) [
  | inl c ↦ rw (c, engine_slots-live ss now, to_engine_slot-live s now c) refl
  | inr c ↦ rw c (engine_slots-live ss now)
]

pub All-live_converted :
    (Q : Slot → Type 0) (P : EngineSlot → Type 0) (now : ℕ) (ss : List Slot)
    → ((s : Slot) → is_live s.status ≡ true → Q s → P (converted s now))
    → All Q ss
    → All P (live_converted ss now)
unfolding live_converted
All-live_converted Q P now [] f h = tt
All-live_converted Q P now (s ∷ ss) f h = elim (Bool-cases (is_live s.status)) [
  | inl c ↦ rw c (f s c h.0, All-live_converted Q P now ss f h.1)
  | inr c ↦ rw c (All-live_converted Q P now ss f h.1)
]

-- The columns of the converted slot.
record Converts (s : Slot) (now : ℕ) (e : EngineSlot) : Type 0 where
  same_pool : e.resource_pool_id ≡ s.resource_pool_id
  same_duration : e.duration ≡ s.duration_minutes
  same_lookahead : e.lookahead ≡ s.lookahead_minutes
  same_priority : e.slot_priority ≡ wrap32 s.priority
  is_known : e.status ≢ engine_unknown
  pinned_iff : is_pinned e.status ≡ is_active s.status
  pinned_at :
      (is_active s.status ≡ false)
      ⊎ ((e.assigned_resource ≡ s.resource_id) × (now ≤ e.projected_end))

converted-Converts : (s : Slot) (now : ℕ) → Converts s now (converted s now)
unfolding converted running_slot waiting_slot later_instant
converted-Converts s now = record {
  same_pool = ground arith;
  same_duration = ground arith;
  same_lookahead = ground arith;
  same_priority = ground arith;
  is_known = λ e. ground arith;
  pinned_iff = ground arith;
  pinned_at = ground arith;
}

converted-SlotOk :
    (in' : Input) (s : Slot)
    → is_live s.status ≡ true
    → RowOk in'.resource_pool_id s
    → SlotOk in' (converted s in'.now)
converted-SlotOk in' s l h =
    let c = converted-Converts s in'.now in
    record {
      in_pool = c.same_pool ∙ h.in_pool;
      duration_pos = subst (λ d. pos 0 <ℤ d) (sym c.same_duration) h.duration_pos;
      lookahead_nonneg = subst (λ d. pos 0 ≤ℤ d) (sym c.same_lookahead) h.lookahead_nonneg;
      known_status = c.is_known;
      pinned_ok = elim c.pinned_at [
        | inl w ↦ inl (c.pinned_iff ∙ w)
        | inr (r, n) ↦ inr (λ e. h.resource_text (sym r ∙ e), n)
      ];
    }

pos_inj : (m n : ℕ) → pos m ≡ pos n → m ≡ n
pos_inj m n e = ground arith

wrap32_inj :
    (a b : ℤ)
    → ((n : ℕ) × (a ≡ pos n) × (n < 2 ^ 31))
    → ((n : ℕ) × (b ≡ pos n) × (n < 2 ^ 31))
    → wrap32 a ≡ wrap32 b
    → a ≡ b
wrap32_inj a b (m, e, h) (n, f, k) w =
    e ∙ sym (wrap32_small m h) ∙ sym (ap wrap32 e) ∙ w ∙ ap wrap32 f ∙ wrap32_small n k ∙ sym f

converted-Compatible :
    (now : ℕ) (pool : String) (s t : Slot)
    → RowOk pool s
    → RowOk pool t
    → is_live s.status ≡ true
    → is_live t.status ≡ true
    → RowsApart s t
    → Compatible (converted s now) (converted t now)
converted-Compatible now pool s t h k l m a =
    let c = converted-Converts s now in
    let d = converted-Converts t now in
    let apart = a l m in
    record {
      priorities = λ e. apart.0 (
          wrap32_inj s.priority t.priority h.priority_fits k.priority_fits
            (sym c.same_priority ∙ e ∙ d.same_priority));
      resources = elim apart.1 [
        | inl x ↦ inl (c.pinned_iff ∙ x)
        | inr (inl y) ↦ inr (inl (d.pinned_iff ∙ y))
        | inr (inr z) ↦
            resources_apart (converted s now) (converted t now) c.pinned_at d.pinned_at c.pinned_iff
              d.pinned_iff z
      ];
    }
  where
    resources_apart :
        (e f : EngineSlot)
        → (is_active s.status ≡ false)
          ⊎ ((e.assigned_resource ≡ s.resource_id) × (now ≤ e.projected_end))
        → (is_active t.status ≡ false)
          ⊎ ((f.assigned_resource ≡ t.resource_id) × (now ≤ f.projected_end))
        → is_pinned e.status ≡ is_active s.status
        → is_pinned f.status ≡ is_active t.status
        → s.resource_id ≢ t.resource_id
        → (is_pinned e.status ≡ false)
          ⊎ (is_pinned f.status ≡ false)
          ⊎ (e.assigned_resource ≢ f.assigned_resource)
    resources_apart e f (inl x) q i j z = inl (i ∙ x)
    resources_apart e f (inr x) (inl y) i j z = inr (inl (j ∙ y))
    resources_apart e f (inr x) (inr y) i j z = inr (inr (λ w. z (sym x.0 ∙ w ∙ y.0)))

live_converted-Compatible :
    (now : ℕ) (pool : String) (ss : List Slot)
    → All (RowOk pool) ss
    → AllPairs RowsApart ss
    → AllPairs Compatible (live_converted ss now)
unfolding live_converted
live_converted-Compatible now pool [] h a = tt
live_converted-Compatible now pool (s ∷ ss) h a = elim (Bool-cases (is_live s.status)) [
  | inl c ↦ rw c (
    All-live_converted (λ t. RowOk pool t × RowsApart s t) (Compatible (converted s now)) now ss
        (λ t l k. converted-Compatible now pool s t h.0 k.0 c l k.1)
        (All-zip (RowOk pool) (RowsApart s) ss h.1 a.0),
    live_converted-Compatible now pool ss h.1 a.1,
  )
  | inr c ↦ rw c (live_converted-Compatible now pool ss h.1 a.1)
]

All-map :
    (P : EngineResource → Type 0) (rs : List Resource)
    → All (λ r. P (to_engine_resource r)) rs
    → All P (map to_engine_resource rs)
All-map P [] h = tt
All-map P (r ∷ rs) h = (h.0, All-map P rs h.1)

map_ne : (rs : List Resource) → rs ≢ [] → map to_engine_resource rs ≢ []
map_ne [] h e = h refl
map_ne (r ∷ rs) h e = ground arith

unfoldable pub input_of : String → List Slot → List Resource → ℤ → ℕ → Input
input_of pool working resources grace now = record {
  resource_pool_id = pool;
  slots = live_converted working now;
  resources = map to_engine_resource resources;
  now = now;
  grace = grace;
}

pub input_of-IsValid :
    (pool : String) (working : List Slot) (resources : List Resource) (grace : ℤ) (now : ℕ)
    → PoolOk pool resources grace
    → WellFormed pool working
    → IsValid (input_of pool working resources grace now)
unfolding input_of
input_of-IsValid pool working resources grace now p w = record {
  has_resources = map_ne resources p.some_resource;
  grace_nonneg = p.grace_nonneg;
  resources_in_pool = All-map (λ r. r.resource_pool_id ≡ pool) resources p.resources_in_pool;
  slots_ok =
      All-live_converted (RowOk pool) _ now working
        (λ s l h. converted-SlotOk (input_of pool working resources grace now) s l h) w.rows;
  compatible = live_converted-Compatible now pool working w.rows w.apart;
}

pub build_engine_input-input_of :
    (pool : String) (working : List Slot) (resources : List Resource) (grace : ℤ) (now : ℕ)
    → build_engine_input pool working resources grace now
      ≡ some (input_of pool working resources grace now)
unfolding build_engine_input input_of
build_engine_input-input_of pool working resources grace now =
    rw (engine_slots-live working now, build_engine_input) refl

-- From well-formed rows the service builds a valid input.
pub build_engine_input-IsValid :
    (pool : String) (working : List Slot) (resources : List Resource) (grace : ℤ) (now : ℕ)
    → PoolOk pool resources grace
    → WellFormed pool working
    → (i : Input) × (build_engine_input pool working resources grace now ≡ some i) × IsValid i
build_engine_input-IsValid pool working resources grace now p w = (
  input_of pool working resources grace now,
  build_engine_input-input_of pool working resources grace now,
  input_of-IsValid pool working resources grace now p w,
)
