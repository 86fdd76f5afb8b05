-- ===== src/Scheduling/Service/Keys.antt =====
-- The ids and the durations of a pool's rows, through an event's callback.
use qlab.Base.{
  ℕ, ◌≡◌, refl, sym, ◌∙◌, subst, ◌≢◌, ◌⊎◌, inl, inr, Bool, List, [], ◌∷◌, ◌++◌, Option, none, some,
  String, ℤ, arith, All, AllPairs, All-imp, All-append_one, AllPairs-append_one, In, Bool-cases,
  Option-cases, str_eq,
}
use qlab.DynamicQueue.Greedy.{FitsInt64}
use qlab.Scheduling.Store.{
  SlotStatus, Resource, Slot, is_active, complete, cancelled, no_show, nil_uuid,
}
use qlab.Scheduling.Helpers.{find_slot, update_slot}
use qlab.Scheduling.Events.{
  CreateParams, changed, new_slot, create_slot, with_status, pinned_at, resource_for,
  clock_in_target, clock_user_in, settle_target, clock_user_out, cancel_slot, force_target,
  force_clock_user_out, force_user_no_show, is_cancellable, is_overrun, is_lapsed, Event, creates,
  clocks_in, clocks_out, cancels, forces_out, forces_no_show, build,
}
use qlab.Scheduling.Tables.Upserts.{OtherId}

-- A write that leaves the id, the lab and the duration.
pub record IsSteady (f : Slot → Slot) : Type 0 where
  pub same_id : (s : Slot) → (f s).id ≡ s.id
  pub same_lab : (s : Slot) → (f s).lab_id ≡ s.lab_id
  pub same_duration : (s : Slot) → (f s).duration_minutes ≡ s.duration_minutes

with_status-IsSteady : (to : SlotStatus) → IsSteady (with_status to)
with_status-IsSteady to = record {
  same_id = λ s. refl;
  same_lab = λ s. refl;
  same_duration = λ s. refl;
}

pinned_at-IsSteady : (r : String) (now : ℕ) → IsSteady (pinned_at r now)
pinned_at-IsSteady r now = record {
  same_id = λ s. refl;
  same_lab = λ s. refl;
  same_duration = λ s. refl;
}

-- What the write of an event other than a booking is.
record Wrote (working after : List Slot) : Type 0 where
  slot : String
  change : Slot → Slot
  steady : IsSteady change
  result : update_slot slot change working ≡ after

module _ (caller slot : String) (working after : List Slot) where
  settle-Wrote :
      (from : SlotStatus → Bool) (to : SlotStatus) (o : Option Slot)
      → settle_target from to o caller slot working ≡ changed after
      → Wrote working after
  settle-Wrote from to none h = absurd (cc)
  settle-Wrote from to (some t) h = record {
    slot = slot;
    change = with_status to;
    steady = with_status-IsSteady to;
    result = ground arith;
  }

  force-Wrote :
      (may : Slot → Bool) (to : SlotStatus) (exclude : String) (o : Option Slot)
      → force_target may to o exclude caller slot working ≡ changed after
      → Wrote working after
  force-Wrote may to exclude none h = absurd (cc)
  force-Wrote may to exclude (some t) h = record {
    slot = slot;
    change = with_status to;
    steady = with_status-IsSteady to;
    result = ground arith;
  }

  clock_in-Wrote :
      (resources : List Resource) (now : ℕ) (o : Option Slot)
      → clock_in_target o caller slot resources now working ≡ changed after
      → Wrote working after
  clock_in-Wrote resources now none h = absurd (cc)
  clock_in-Wrote resources now (some t) h = elim (Option-cases (resource_for resources working t)) [
    | inl n ↦ absurd (ground arith)
    | inr (r, f) ↦ record {
      slot = slot;
      change = pinned_at r now;
      steady = pinned_at-IsSteady r now;
      result = ground arith;
    }
  ]

module _ (id : String) (f : Slot → Slot) (steady : IsSteady f) where
  steady-All :
      (P : Slot → Type 0) (ss : List Slot)
      → ((s : Slot) → P s → P (f s))
      → All P ss
      → All P (update_slot id f ss)
  unfolding update_slot
  steady-All P [] k h = tt
  steady-All P (s ∷ ss) k h = elim (Bool-cases (str_eq s.id id)) [
    | inl c ↦ rw c (k s h.0, h.1)
    | inr c ↦ rw c (h.0, steady-All P ss k h.1)
  ]

  steady-keys : (ss : List Slot) → AllPairs OtherId ss → AllPairs OtherId (update_slot id f ss)
  unfolding update_slot
  steady-keys [] h = tt
  steady-keys (s ∷ ss) h = elim (Bool-cases (str_eq s.id id)) [
    | inl c ↦
        rw c (
          All-imp (OtherId s) (OtherId (f s)) ss (λ t n e. n (sym (steady.same_id s) ∙ e)) h.0,
          h.1,
        )
    | inr c ↦
        rw c (steady-All (OtherId s) ss (λ t n e. n (e ∙ steady.same_id t)) h.0, steady-keys ss h.1)
  ]

  steady-In :
      (ss : List Slot) (s : Slot)
      → In s ss
      → (u : Slot) × In u (update_slot id f ss) × (u.id ≡ s.id)
  unfolding update_slot
  steady-In [] s k = absurd k
  steady-In (t ∷ ss) s (inl e) = elim (Bool-cases (str_eq t.id id)) [
    | inl c ↦ rw c (f t, inl refl, steady.same_id t ∙ ground arith)
    | inr c ↦ rw c (t, inl refl, ground arith)
  ]
  steady-In (t ∷ ss) s (inr k) = elim (Bool-cases (str_eq t.id id)) [
    | inl c ↦ rw c (s, inr k, refl)
    | inr c ↦ rw c (behind (steady-In ss s k))
  ]
    where
      behind :
          (u : Slot) × In u (update_slot id f ss) × (u.id ≡ s.id)
          → (u : Slot) × In u (t ∷ update_slot id f ss) × (u.id ≡ s.id)
      behind (u, l, e) = (u, inr l, e)

-- What an event leaves of them: ids that differ, durations that fit, and all ids that were there.
pub record KeepsKeys (working after : List Slot) : Type 0 where
  pub keys : AllPairs OtherId after
  pub durations_fit : All (λ s. FitsInt64 s.duration_minutes) after
  pub stays : (s : Slot) → In s working → (u : Slot) × In u after × (u.id ≡ s.id)

written_back-KeepsKeys :
    (working after : List Slot)
    → AllPairs OtherId working
    → All (λ s. FitsInt64 s.duration_minutes) working
    → Wrote working after
    → KeepsKeys working after
written_back-KeepsKeys working after k d w = subst (KeepsKeys working) w.result (record {
  keys = steady-keys w.slot w.change w.steady working k;
  durations_fit =
      steady-All w.slot w.change w.steady _ working
        (λ s h. subst FitsInt64 (sym (w.steady.same_duration s)) h) d;
  stays = steady-In w.slot w.change w.steady working;
})

In-append_one : (xs : List Slot) (x y : Slot) → In x xs → In x (xs ++ y ∷ [])
In-append_one [] x y k = absurd k
In-append_one (z ∷ xs) x y (inl e) = inl e
In-append_one (z ∷ xs) x y (inr k) = inr (In-append_one xs x y k)

-- A booking brings an id that no row has, and a duration that fits.
abbrev pub IsNew : Event → List Slot → Type 0
IsNew (creates id lab caller params) working =
    All (λ s. s.id ≢ id) working × FitsInt64 params.duration_minutes
IsNew _ working = Unit

-- A booking appends its slot; every other event writes one.
event-Wrote :
    (resources : List Resource) (grace : ℤ) (now : ℕ) (event : Event) (working after : List Slot)
    → build event resources grace now working ≡ changed after
    → ((id : String) × (lab : String) × (caller : String) × (params : CreateParams) × (event
          ≡ creates id lab caller params)
        × (working ++ new_slot id lab caller params working ∷ [] ≡ after))
      ⊎ Wrote working after
unfolding build create_slot clock_user_in clock_user_out cancel_slot force_clock_user_out
    force_user_no_show
event-Wrote resources grace now (creates id lab caller params) working after h =
    inl (id, lab, caller, params, refl, ground arith)
event-Wrote resources grace now (clocks_in caller slot) working after h =
    inr (clock_in-Wrote caller slot working after resources now (find_slot working slot) h)
event-Wrote resources grace now (clocks_out caller slot) working after h =
    inr (settle-Wrote caller slot working after is_active complete (find_slot working slot) h)
event-Wrote resources grace now (cancels caller slot) working after h =
    inr (settle-Wrote caller slot working after is_cancellable cancelled (find_slot working slot) h)
event-Wrote resources grace now (forces_out caller slot) working after h = inr (
    force-Wrote caller slot working after (is_overrun now) complete nil_uuid
      (find_slot working slot) h)
event-Wrote resources grace now (forces_no_show caller slot) working after h = inr (
    force-Wrote caller slot working after (is_lapsed grace now) no_show slot
      (find_slot working slot) h)

pub event-KeepsKeys :
    (resources : List Resource) (grace : ℤ) (now : ℕ) (event : Event) (working after : List Slot)
    → AllPairs OtherId working
    → All (λ s. FitsInt64 s.duration_minutes) working
    → IsNew event working
    → build event resources grace now working ≡ changed after
    → KeepsKeys working after
unfolding new_slot
event-KeepsKeys resources grace now event working after k d n h =
    elim (event-Wrote resources grace now event working after h) [
      | inr w ↦ written_back-KeepsKeys working after k d w
      | inl (id, lab, caller, params, e, r) ↦
          let new = new_slot id lab caller params working in
          let (fresh, fits) = subst (λ x. IsNew x working) e n in
          subst (KeepsKeys working) r (record {
            keys = AllPairs-append_one OtherId working new fresh k;
            durations_fit = All-append_one (λ s. FitsInt64 s.duration_minutes) working new d fits;
            stays = λ s m. (s, In-append_one working s new m, refl);
          })
    ]

-- A property of ids and labs that the working set has, and a booking's new slot.
abbrev pub HasId : (String → String → Type 0) → Event → Type 0
HasId P (creates id lab caller params) = P id lab
HasId P _ = Unit

pub event-ids :
    (P : String → String → Type 0) (resources : List Resource) (grace : ℤ) (now : ℕ) (event : Event)
    (working after : List Slot)
    → All (λ s. P s.id s.lab_id) working
    → HasId P event
    → build event resources grace now working ≡ changed after
    → All (λ s. P s.id s.lab_id) after
unfolding new_slot
event-ids P resources grace now event working after a n h =
    elim (event-Wrote resources grace now event working after h) [
      | inr w ↦ subst (All (λ s. P s.id s.lab_id)) w.result (
          steady-All w.slot w.change w.steady (λ s. P s.id s.lab_id) working
            (λ s h. rw (w.steady.same_id s, w.steady.same_lab s) h) a)
      | inl (id, lab, caller, params, e, r) ↦ subst (All (λ s. P s.id s.lab_id)) r (
          All-append_one (λ s. P s.id s.lab_id) working (new_slot id lab caller params working) a
            (subst (HasId P) e n))
    ]
