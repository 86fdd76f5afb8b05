-- ===== src/Api/Tests.antt =====
-- Calls of backend/internal/api at the tables of a lab with one empty pool: ann has signed in before, bob
-- is invited.
use qlab.Base.{
  ◌/◌, ◌*◌, ◌≡◌, ◌≢◌, refl, true, false, List, [], ◌∷◌, map, Option, none, some, String, Map, pos,
  AllPairs, All, In, str_eq, if◌then◌else◌, lookup, sort_by, ℕ,
}
use qlab.Scheduling.Tests.{text_ne, clock, anns, bobs}
use qlab.Scheduling.Store.{Slot, active, vent_hood}
use qlab.Scheduling.Apply.{Position, Schedule}
use qlab.Scheduling.Tables.{head_role, Tables, Faults}
use qlab.Scheduling.Service.{Moment}
use qlab.Frontend.SlotUi.{SlotRow}
use qlab.Frontend.PoolPanel.{MapContext, row_of, result_to_rows}
use qlab.Frontend.Api.{auth}
use qlab.Frontend.Proto.Service.{list_slots, clock_in}
use qlab.Authentication.{
  Identity, UserRow, UserFaults, user_by_firebase_uid, user_by_email, link_firebase_uid, known,
  authenticate, split_name, provision,
}
use qlab.Authentication.Provisioning.{OtherUser, Verdict, authenticate-Verdict}
use qlab.Api.Convert.{uuid_text, status_message, slot_message, result_to_proto}
use qlab.HeaderMap.{get_header}
use qlab.Api.GoText.{trim_space, cut_blank, is_space}
use qlab.Api.Handlers.{response, failure, unauthenticated, code_not_found}
use qlab.Api.Auth.{Server, header_authorization, header_selected_lab, auth_interceptor, call}
use qlab.Api.Auth.Arrives.{holding, request_arrives, Answer, call_lem}
use qlab.Api.Served.{served_rows, running_on}

abbrev ann : UserRow
ann = record {
  id = "ann";
  firebase_uid = some "fb-ann";
  email = "ann@lab";
  first_name = "Ann";
  last_name = "Lee";
}

abbrev bob : UserRow
bob = record { id = "bob"; firebase_uid = none; email = "bob@lab"; first_name = ""; last_name = "" }

abbrev users : List UserRow
users = ann ∷ bob ∷ []

users_differ : AllPairs OtherUser users
users_differ = ((text_ne "ann" "bob" refl, tt), (tt, tt))

abbrev anns_identity : Identity
anns_identity = record {
  firebase_uid = "fb-ann";
  email = "ann@lab";
  email_verified = true;
  name = "Ann Lee";
}

abbrev bobs_identity : Identity
bobs_identity = record {
  firebase_uid = "fb-bob";
  email = "bob@lab";
  email_verified = true;
  name = " Bob  Ray ";
}

abbrev verify : String → Option Identity
verify token =
    if str_eq token "t-ann"
    then some anns_identity
    else if str_eq token "t-bob"
    then some bobs_identity
    else none

abbrev users_quiet : UserFaults
users_quiet = record { by_uid = none; by_email = none; link = none }

authenticate-Verdict_example :
    Verdict verify "t-bob" users (authenticate verify users_quiet "t-bob" users)
authenticate-Verdict_example = authenticate-Verdict verify users_quiet "t-bob" users users_differ

-- Bob's first login links his row and takes his name from the token.
bob_signs_in : authenticate verify users_quiet "t-bob" users ≡ (
  ann ∷ record bob { firebase_uid = some "fb-bob"; first_name = "Bob"; last_name = "Ray" } ∷ [],
  known (record bob { firebase_uid = some "fb-bob"; first_name = "Bob"; last_name = "Ray" }),
)
unfolding authenticate user_by_firebase_uid provision user_by_email link_firebase_uid split_name
    trim_space cut_blank is_space
bob_signs_in = refl

abbrev parse_text : String → Option String
parse_text s = if str_eq s "" then none else some s

abbrev server : Server ℕ
server = record {
  sched = some (record { parse = parse_text; grace = pos 5 });
  authn = some verify;
  parse = parse_text;
  valid = λ method req. true;
}

abbrev tables_quiet : Faults
tables_quiet = record {
  membership = none;
  look_up = none;
  slots_read = none;
  resources_read = none;
  begins = none;
  slot_refused = λ s. none;
  row_refused = λ r. none;
  commits = none;
  column = λ t. t / 1000 * 1000;
}

abbrev tables : Tables
tables = record {
  slots = [];
  resources = [];
  pools = record { id = "pool"; lab_id = "lab"; kind = vent_hood; name = "Hoods" } ∷ [];
  members = record { lab_id = "lab"; user_id = "ann"; role = head_role } ∷ [];
  outbox = [];
}

abbrev moment : Moment
moment = record { now = clock 140; fresh = "s9"; faults = tables_quiet }

anns_token_is_trimmed : trim_space "t-ann" ≡ "t-ann"
unfolding trim_space is_space
anns_token_is_trimmed = refl

ann_is_found : user_by_firebase_uid "fb-ann" users ≡ some ann
unfolding user_by_firebase_uid
ann_is_found = refl

request_arrives_example :
    auth_interceptor server users_quiet (auth (holding "t-ann" "lab") []) users
    ≡ (users, response (record { user_id = "ann"; lab_id = "lab" }))
request_arrives_example =
    request_arrives server users_quiet users verify anns_identity ann "t-ann" "lab" [] refl refl
      (text_ne "t-ann" "" refl) (text_ne "lab" "" refl) anns_token_is_trimmed refl ann_is_found refl

abbrev sent : Map String
sent = (header_authorization, "Bearer t-ann") ∷ (header_selected_lab, "lab") ∷ []

call_lem_example :
    Answer server users_quiet users
      (λ t. t)
      (λ t. t)
      moment
      list_slots
      (record { resource_pool_id = "pool" })
      sent
      tables
      (call server users_quiet
        (λ t. t)
        (λ t. t)
        moment
        list_slots
        (record { resource_pool_id = "pool" })
        sent
        users
        tables)
call_lem_example =
    call_lem server users_quiet users (λ t. t) (λ t. t) moment list_slots
      (record { resource_pool_id = "pool" }) sent tables users_differ

ann_lists_slots :
    call server users_quiet
      (λ t. t)
      (λ t. t)
      moment
      list_slots
      (record { resource_pool_id = "pool" })
      sent
      users
      tables
    ≡ (users, tables, response (record { slots = [] }))
unfolding call lookup is_space sort_by get_header
ann_lists_slots = refl

nobody_is_refused :
    call server users_quiet
      (λ t. t)
      (λ t. t)
      moment
      clock_in
      (record { slot_id = "s1" })
      []
      users
      tables
    ≡ (users, tables, failure unauthenticated)
unfolding call lookup get_header
nobody_is_refused = refl

no_slot_is_found :
    call server users_quiet
      (λ t. t)
      (λ t. t)
      moment
      clock_in
      (record { slot_id = "s1" })
      sent
      users
      tables
    ≡ (users, tables, failure code_not_found)
unfolding call lookup is_space get_header
no_slot_is_found = refl

abbrev schedule : Schedule
schedule = record {
  slots = anns active ∷ bobs ∷ [];
  positions =
      record {
        slot_id = "s2";
        actual_start = clock 130;
        assigned_resource_id = "h1";
        recommitted = false;
        reclaimable = true;
      }
      ∷ [];
}

abbrev view : MapContext
view = record { current_user_id = "bob"; now = clock 140; member_label = [] }

served_rows_example :
    (map
        (λ (w : SlotRow). w.slot_id)
        (result_to_rows (λ t. t) (some (result_to_proto (λ t. t) "pool" schedule)) view)
      ≡ "s1" ∷ "s2" ∷ [])
    × ((s : Slot)
        → let row =
            row_of
              (λ t. t)
              (result_to_proto (λ t. t) "pool" schedule)
              view
              (slot_message (λ t. t) s) in
          (row.slot_id ≡ s.id)
          × (row.status ≡ status_message s.status)
          × (row.is_you ≡ str_eq s.user_id "bob")
          × (row.resource_id ≡ running_on s.status (uuid_text s.resource_id))
          × ((p : Position)
              → In p schedule.positions
              → p.slot_id ≡ s.id
              → row.reclaimable ≡ p.reclaimable)
          × (All (λ p. p.slot_id ≢ s.id) schedule.positions → row.reclaimable ≡ false))
served_rows_example = served_rows (λ t. t) (λ t. t) "pool" schedule view (tt, tt)
