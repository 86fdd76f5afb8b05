-- ===== src/Scheduling/Service/Tests.antt =====
-- The service's requests at the tables of a lab with one hood: ann runs over, bob is next.
use qlab.Base.{
  ◌/◌, ◌*◌, AllPairs, ◌≢◌, All-In, ◌≡◌, refl, inl, inr, true, false, In, List, [], ◌∷◌, Option,
  none, some, String, pos, arith, All, str_eq, if◌then◌else◌, wrap64, lookup, sort_by, eq_iff,
}
use qlab.DynamicQueue.Slot.{duration_of}
use qlab.DynamicQueue.Validate.{validate}
use qlab.DynamicQueue.Reschedule.{reschedule}
use qlab.Scheduling.Store.{Slot, active, vent_hood}
use qlab.Scheduling.Tests.{text_ne, clock, anns, bobs, cids, hoods, hoods_ok, slots_ok}
use qlab.Scheduling.Notify.{OutboxRow}
use qlab.Scheduling.Tables.{
  head_role, member_role, Tables, Faults, list_live_slots, list_resources, slot_by_id, is_member,
  database, not_member, err,
}
use qlab.Scheduling.Tables.Upserts.{OtherId}
use qlab.Scheduling.Accepted.{WellFormed}
use qlab.Scheduling.Accepted.Persisted.{ParsesTexts}
use qlab.Scheduling.Service.{
  Settings, Moment, Principal, cancel, force_clock_out, Request, serve_slots, serve_schedule, serve,
}
use qlab.Scheduling.Service.Good.{Good}
use qlab.Scheduling.Service.Invariant.{IsOf, IsServed, here, next, requests-Good}
use qlab.Scheduling.Service.Isolation.{serve-isolated}
use qlab.Scheduling.Service.Own.{LeavesOthers}
use qlab.Scheduling.Service.Outsiders.{outsiders_refused}
use qlab.Scheduling.Service.Progress.{IsQuiet, cancel_frees}

abbrev parse_text : String → Option String
parse_text s = if str_eq s "" then none else some s

parse_text-ParsesTexts : ParsesTexts parse_text
parse_text-ParsesTexts q r e f = ground (arith, eq_iff q "")

abbrev settings : Settings
settings = record { parse = parse_text; grace = pos 5 }

abbrev tables : Tables
tables = record {
  slots = anns active ∷ bobs ∷ cids ∷ [];
  resources = hoods;
  pools = record { id = "pool"; lab_id = "lab"; kind = vent_hood; name = "Hoods" } ∷ [];
  members =
      record { lab_id = "lab"; user_id = "ann"; role = head_role }
      ∷ record { lab_id = "lab"; user_id = "bob"; role = member_role }
      ∷ [];
  outbox = [];
}

abbrev quiet : Faults
quiet = record {
  membership = none;
  look_up = none;
  slots_read = none;
  resources_read = none;
  begins = none;
  slot_refused = λ s. none;
  row_refused = λ r. none;
  commits = none;
  column = λ t. t / 1000 * 1000;
}

quiet-IsQuiet : IsQuiet quiet
quiet-IsQuiet = record {
  membership = refl;
  look_up = refl;
  begins = refl;
  slots = λ s. refl;
  rows = λ r. refl;
  commits = refl;
}

abbrev at_140 : Faults → Moment
at_140 f = record { now = clock 140; fresh = "s9"; faults = f }

abbrev bob : Principal
bob = record { user_id = "bob"; lab_id = "lab" }

abbrev dan : Principal
dan = record { user_id = "dan"; lab_id = "lab" }

live_is : list_live_slots "lab" "pool" tables ≡ anns active ∷ bobs ∷ []
unfolding list_live_slots sort_by
live_is = refl

resources_are : list_resources "lab" "pool" tables ≡ hoods
unfolding list_resources sort_by
resources_are = refl

live_ok : WellFormed "pool" (anns active ∷ bobs ∷ [])
live_ok = record {
  rows = (slots_ok.rows.0, (slots_ok.rows.1.0, tt));
  apart = ((slots_ok.apart.0.0, tt), (tt, tt));
}

tables-Good : Good settings "lab" "pool" tables
tables-Good = record {
  keys = (
    (text_ne "s1" "s2" refl, (text_ne "s1" "s3" refl, tt)),
    ((text_ne "s2" "s3" refl, tt), (tt, tt)),
  );
  rows = rw live_is live_ok;
  durations_fit = rw live_is (omega arith);
  pool_ok = rw resources_are hoods_ok;
  grace_fits = omega arith;
  ids_parse = rw resources_are (("h1", refl), tt);
  texts = parse_text-ParsesTexts;
}

bobs-IsOf : IsOf bob "pool" "s1" tables
unfolding slot_by_id
bobs-IsOf s h = ground arith

-- Bob boots ann.
requests-Good_example :
    Good settings "lab" "pool" (serve settings (at_140 quiet) bob (force_clock_out "s1") tables).0
    × IsServed settings "lab" "pool"
        (serve settings (at_140 quiet) bob (force_clock_out "s1") tables).0
requests-Good_example =
    requests-Good settings "lab" "pool" tables
      (serve settings (at_140 quiet) bob (force_clock_out "s1") tables).0 tables-Good
      (next here (at_140 quiet) bob (force_clock_out "s1") refl bobs-IsOf refl)

bob_is_in : is_member "lab" "bob" tables ≡ true
unfolding is_member
bob_is_in = refl

-- Bob cancels his own slot.
cancel_frees_example :
    ((serve settings (at_140 quiet) bob (cancel "s2") tables).1 ≡ none)
    × Good settings "lab" "pool" (serve settings (at_140 quiet) bob (cancel "s2") tables).0
    × All
        (OtherId bobs)
        (list_live_slots "lab" "pool" (serve settings (at_140 quiet) bob (cancel "s2") tables).0)
cancel_frees_example =
    cancel_frees settings (at_140 quiet) bob "pool" tables tables-Good quiet-IsQuiet bobs
      (rw live_is (inr (inl refl))) refl bob_is_in

-- Somebody from outside the lab is turned away, and a lost connection is reported.
dan_is_refused : serve settings (at_140 quiet) dan (cancel "s2") tables ≡ (tables, some not_member)
unfolding serve
dan_is_refused = refl

connection_lost :
    serve settings (at_140 (record quiet { begins = some "lost" })) bob (cancel "s2") tables
    ≡ (tables, some (database "lost"))
unfolding serve
connection_lost = refl

-- Bob boots ann: the table keeps her row as COMPLETE, and bob is told of his new start.
abbrev keys_of : List OutboxRow → List String
keys_of [] = []
keys_of (r ∷ rs) = r.event_type ∷ keys_of rs

bob_boots_ann :
    keys_of (serve settings (at_140 quiet) bob (force_clock_out "s1") tables).0.outbox
    ≡ "slot_recommitted" ∷ []
unfolding serve duration_of wrap64 lookup validate reschedule sort_by
bob_boots_ann = refl

-- With a slot of another lab beside them.
abbrev two_labs : Tables
two_labs = record tables { slots = record bobs { id = "s4"; lab_id = "other" } ∷ tables.slots }

two_labs_keys : AllPairs OtherId two_labs.slots
two_labs_keys = (
  (text_ne "s4" "s1" refl, (text_ne "s4" "s2" refl, (text_ne "s4" "s3" refl, tt))),
  tables-Good.keys,
)

s9_is_new : (x : Slot) → In x two_labs.slots → "s9" ≢ x.id
s9_is_new x k e =
    All-In (λ s. "s9" ≢ s.id) two_labs.slots x
      (
        text_ne "s9" "s4" refl,
        (text_ne "s9" "s1" refl, (text_ne "s9" "s2" refl, (text_ne "s9" "s3" refl, tt))),
      )
      k e

serve-isolated_example :
    LeavesOthers "lab" two_labs
      (serve settings (at_140 quiet) bob (force_clock_out "s1") two_labs).0
serve-isolated_example =
    serve-isolated settings (at_140 quiet) bob two_labs two_labs_keys s9_is_new
      (force_clock_out "s1")

dan_is_out : is_member "lab" "dan" tables ≡ false
unfolding is_member
dan_is_out = refl

outsiders_refused_example :
    ((request : Request)
      → serve settings (at_140 quiet) dan request tables ≡ (tables, some not_member))
    × ((pool : String)
        → (serve_slots (at_140 quiet) dan pool tables ≡ err not_member)
          × (serve_schedule settings (at_140 quiet) dan pool tables ≡ err not_member))
outsiders_refused_example = outsiders_refused settings (at_140 quiet) dan tables dan_is_out refl
