-- ===== src/Scheduling/Rights.antt =====
-- Who may do what to a slot, in
-- backend/internal/services/scheduling/v1/events.go.
use qlab.Base.{◌≡◌, refl, ◌⊎◌, Bool, true, List, Option, none, some, String, ℤ, ℕ, arith, eq_iff}
use qlab.Scheduling.Next.{IsNext, next_user_lem}
use qlab.Scheduling.Store.{
  scheduled, active, Slot, is_scheduled, is_active, complete, cancelled, no_show, nil_uuid,
  SlotStatus, Resource,
}
use qlab.Scheduling.Helpers.{find_slot, is_next_in_line, overrunning, grace_lapsed}
use qlab.Scheduling.Events.{
  changed, force_target, force_clock_user_out, force_user_no_show, is_overrun, is_lapsed,
  settle_target, clock_in_target, clock_user_in, clock_user_out, cancel_slot, is_cancellable, Event,
  creates, clocks_in, clocks_out, cancels, forces_out, forces_no_show, build,
}

force_lem :
    (may : Slot → Bool) (to : SlotStatus) (exclude caller slot : String) (working after : List Slot)
    (o : Option Slot)
    → force_target may to o exclude caller slot working ≡ changed after
    → (t : Slot) × (o ≡ some t) × (may t ≡ true) × (is_next_in_line working exclude caller ≡ true)
force_lem may to exclude caller slot working after none h = absurd (cc)
force_lem may to exclude caller slot working after (some t) h =
    (t, refl, ground arith, ground arith)

settle_lem :
    (from : SlotStatus → Bool) (to : SlotStatus) (caller slot : String) (working after : List Slot)
    (o : Option Slot)
    → settle_target from to o caller slot working ≡ changed after
    → (t : Slot) × (o ≡ some t) × (from t.status ≡ true) × (t.user_id ≡ caller)
settle_lem from to caller slot working after none h = absurd (cc)
settle_lem from to caller slot working after (some t) h =
    (t, refl, ground arith, ground (arith, eq_iff t.user_id caller))

clock_in_lem :
    (caller slot : String) (resources : List Resource) (now : ℕ) (working after : List Slot)
    (o : Option Slot)
    → clock_in_target o caller slot resources now working ≡ changed after
    → (t : Slot) × (o ≡ some t) × (is_scheduled t.status ≡ true) × (t.user_id ≡ caller)
clock_in_lem caller slot resources now working after none h = absurd (cc)
clock_in_lem caller slot resources now working after (some t) h =
    (t, refl, ground arith, ground (arith, eq_iff t.user_id caller))

-- What the caller of an event must have: a booking of their own in the fitting status, or the next
-- turn while somebody else's slot overruns, or has lapsed.
abbrev pub Entitled : List Slot → ℤ → ℕ → Event → Type 0
Entitled working grace now (creates id lab caller params) = Unit
Entitled working grace now (clocks_in caller slot) =
    (t : Slot) × (find_slot working slot ≡ some t) × (t.status ≡ scheduled) × (t.user_id ≡ caller)
Entitled working grace now (clocks_out caller slot) =
    (t : Slot) × (find_slot working slot ≡ some t) × (t.status ≡ active) × (t.user_id ≡ caller)
Entitled working grace now (cancels caller slot) =
    (t : Slot) × (find_slot working slot ≡ some t)
    × ((t.status ≡ scheduled) ⊎ (t.status ≡ active))
    × (t.user_id ≡ caller)
Entitled working grace now (forces_out caller slot) =
    ((t : Slot) × (find_slot working slot ≡ some t)
      × (t.status ≡ active)
      × (overrunning t now ≡ true))
    × IsNext working nil_uuid caller
Entitled working grace now (forces_no_show caller slot) =
    ((t : Slot) × (find_slot working slot ≡ some t)
      × (t.status ≡ scheduled)
      × (grace_lapsed grace t now ≡ true))
    × IsNext working slot caller

-- An event happens only for those who may: clock in, clock out and cancel for the slot's own user,
-- in the fitting status; the clock-out of an overrunning slot by force and the reclaim of a lapsed
-- one for the user of the front-most SCHEDULED slot, the lapsed one left out.
pub event-Entitled :
    (resources : List Resource) (grace : ℤ) (now : ℕ) (event : Event) (working after : List Slot)
    → build event resources grace now working ≡ changed after
    → Entitled working grace now event
unfolding build clock_user_in clock_user_out cancel_slot force_clock_user_out force_user_no_show
event-Entitled resources grace now (creates id lab caller params) working after h = tt
event-Entitled resources grace now (clocks_in caller slot) working after h =
    let (t, e, m, u) =
      clock_in_lem caller slot resources now working after (find_slot working slot) h in
    (t, e, ground arith, u)
event-Entitled resources grace now (clocks_out caller slot) working after h =
    let (t, e, m, u) =
      settle_lem is_active complete caller slot working after (find_slot working slot) h in
    (t, e, ground arith, u)
event-Entitled resources grace now (cancels caller slot) working after h =
    let (t, e, m, u) =
      settle_lem is_cancellable cancelled caller slot working after (find_slot working slot) h in
    (t, e, ground arith, u)
event-Entitled resources grace now (forces_out caller slot) working after h =
    let (t, e, m, n) =
      force_lem (is_overrun now) complete nil_uuid caller slot working after
        (find_slot working slot) h in
    ((t, e, ground arith, ground arith), next_user_lem nil_uuid caller working n)
event-Entitled resources grace now (forces_no_show caller slot) working after h =
    let (t, e, m, n) =
      force_lem (is_lapsed grace now) no_show slot caller slot working after
        (find_slot working slot) h in
    ((t, e, ground arith, ground arith), next_user_lem slot caller working n)
