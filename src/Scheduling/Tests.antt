-- ===== src/Scheduling/Tests.antt =====
-- The scheduling service's theorems at a small pool: ann runs over on the one hood, bob is next, and a
-- cancelled booking of cid is left.
use mathlib.Core.Bool.{false≢true}
use qlab.Base.{
  ℕ, ◌^◌, ◌+◌, ◌*◌, ◌<◌, ◌≡◌, refl, sym, ◌∙◌, ◌≢◌, inl, inr, true, false, List, [], ◌∷◌, some,
  String, pos, arith, str_eq, eq_iff, wrap64, lookup, Option, none, some,
}
use qlab.DynamicQueue.Slot.{duration_of, zero_time, minute, Input, Result}
use qlab.DynamicQueue.Validate.{validate}
use qlab.DynamicQueue.Reschedule.{reschedule, rescheduled}
use qlab.Scheduling.Store.{
  SlotStatus, scheduled, active, complete, cancelled, Slot, Resource, vent_hood, nil_uuid,
}
use qlab.Scheduling.Convert.{build_engine_input}
use qlab.Scheduling.Events.{forces_out, changed, build}
use qlab.Scheduling.Helpers.{find_slot, overrunning}
use qlab.Scheduling.Accepted.{RowOk, WellFormed, PoolOk}
use qlab.Scheduling.Accepted.Kept.{event-reschedules}
use qlab.Scheduling.Apply.{Applied, apply_engine, compute_schedule}
use qlab.Scheduling.Apply.ReadOnly.{Agree, compute_schedule-Agree}
use qlab.Scheduling.Next.{IsNext}
use qlab.Scheduling.Rights.{event-Entitled}

pub text_ne : (s t : String) → str_eq s t ≡ false → s ≢ t
text_ne s t h e = false≢true (sym h ∙ (eq_iff s t).1 e)

abbrev pub clock : ℕ → ℕ
clock m = zero_time + m * minute

abbrev pub row : String → String → ℕ → SlotStatus → String → ℕ → Slot
row id user priority status resource start = record {
  id = id;
  lab_id = "lab";
  user_id = user;
  resource_pool_id = "pool";
  resource_id = resource;
  priority = pos priority;
  status = status;
  desired_start = clock start;
  lookahead_minutes = pos 0;
  duration_minutes = pos 30;
  committed_start = clock start;
  actual_start = clock start;
  note = "";
}

abbrev pub anns : SlotStatus → Slot
anns status = row "s1" "ann" 1 status "h1" 100

abbrev pub bobs : Slot
bobs = row "s2" "bob" 2 scheduled "h1" 130

abbrev pub cids : Slot
cids = row "s3" "cid" 3 cancelled "h1" 160

abbrev pub slots : List Slot
slots = anns active ∷ bobs ∷ cids ∷ []

abbrev pub hoods : List Resource
hoods =
    record { id = "h1"; resource_pool_id = "pool"; lab_id = "lab"; kind = vent_hood; name = "" }
    ∷ []

pub hoods_ok : PoolOk "pool" hoods (pos 5)
hoods_ok = record {
  some_resource = λ e. ground arith;
  resources_in_pool = (refl, tt);
  resource_texts = (text_ne "h1" "" refl, tt);
  grace_nonneg = omega arith;
}

pub row_ok :
    (id user resource : String) (priority start : ℕ) (status : SlotStatus)
    → priority < 2 ^ 31
    → resource ≢ ""
    → RowOk "pool" (row id user priority status resource start)
row_ok id user resource priority start status h k = record {
  in_pool = refl;
  duration_pos = omega arith;
  lookahead_nonneg = omega arith;
  priority_fits = (priority, refl, h);
  resource_text = k;
}

pub slots_ok : WellFormed "pool" slots
slots_ok = record {
  rows = (
    row_ok "s1" "ann" "h1" 1 100 active (omega arith) (text_ne "h1" "" refl),
    (
      row_ok "s2" "bob" "h1" 2 130 scheduled (omega arith) (text_ne "h1" "" refl),
      (row_ok "s3" "cid" "h1" 3 160 cancelled (omega arith) (text_ne "h1" "" refl), tt),
    ),
  );
  apart = (
    (
      λ a b. ((λ e. ground arith), inr (inl refl)),
      (λ a b. ((λ e. ground arith), inr (inl refl)), tt),
    ),
    ((λ a b. ((λ e. ground arith), inl refl), tt), (tt, tt)),
  );
}

-- At minute 140 ann is ten minutes over, and bob boots her.
abbrev booted : List Slot
booted = anns complete ∷ bobs ∷ cids ∷ []

bob_boots : build (forces_out "bob" "s1") hoods (pos 5) (clock 140) slots ≡ changed booted
unfolding build duration_of wrap64
bob_boots = refl

event-reschedules_example :
    WellFormed "pool" booted
    × ((i : Input) × (r : Result) × (build_engine_input "pool" booted hoods (pos 5) (clock 140)
          ≡ some i)
        × (reschedule i ≡ rescheduled r))
event-reschedules_example =
    event-reschedules "pool" hoods (pos 5) (clock 140) (forces_out "bob" "s1") slots booted hoods_ok
      slots_ok tt bob_boots

event-Entitled_example :
    ((t : Slot) × (find_slot slots "s1" ≡ some t)
      × (t.status ≡ active)
      × (overrunning t (clock 140) ≡ true))
    × IsNext slots nil_uuid "bob"
event-Entitled_example =
    event-Entitled hoods (pos 5) (clock 140) (forces_out "bob" "s1") slots booted bob_boots

-- The service's parameters: an id parses to itself, and a notification is the text of its slot's id.
abbrev parse : String → Option String
parse id = some id

abbrev recommit : Slot → String
recommit s = s.id

-- Bob's slot is moved to the freed hood, and bob is told; the poke stands before that.
abbrev outbox_of : Option (Applied String) → List String
outbox_of none = []
outbox_of (some a) = a.outbox

bob_is_told :
    outbox_of (apply_engine parse recommit "pool" booted hoods (pos 5) (clock 140) ("poke" ∷ []))
    ≡ "poke" ∷ "s2" ∷ []
unfolding apply_engine duration_of wrap64 lookup validate reschedule
bob_is_told = refl

compute_schedule-Agree_example :
    Agree recommit
      ("poke" ∷ [])
      (compute_schedule parse recommit "pool" booted hoods (pos 5) (clock 140))
      (apply_engine parse recommit "pool" booted hoods (pos 5) (clock 140) ("poke" ∷ []))
compute_schedule-Agree_example =
    compute_schedule-Agree parse recommit "pool" booted hoods (pos 5) (clock 140) ("poke" ∷ [])
      (λ e. ground arith)
