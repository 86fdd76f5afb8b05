-- ===== src/Frontend/Tests.antt =====
-- The switcher and its headers at small inputs: a lab of two members and one pool.
use qlab.Base.{
  ℕ, ◌≡◌, refl, inl, true, false, List, [], ◌∷◌, none, some, String, pos, Map, lookup, insert,
}
use qlab.Frontend.Proto.{ProvisionLabResponse, MintTokenResponse, member, UserMessage, vent_hood}
use qlab.Frontend.Model.{workspace_from_provision}
use qlab.Frontend.Workspace.{
  State, initial, provision, act_as, begin, resolved, provision_settled, mint_settled, Event,
  begins, settles, selects, operator_is, run,
}
use qlab.Frontend.Workspace.Tokens.{HasToken, run-HasToken, act_as_again}
use qlab.Frontend.Workspace.SignOut.{IsBlank, operator_change_blanks, late_reply_restores}
use qlab.HeaderMap.{same_name, get_header}
use qlab.Frontend.Api.{
  AuthHolder, header_authorization, header_selected_lab, auth, operator_auth, bearer,
}
use qlab.Frontend.Api.Headers.{auth_headers}
use qlab.Frontend.Shell.Controls.{Session}
use qlab.Frontend.Shell.Access.{app, ShowsPanel, operator_change_hides}

abbrev user : String → String → UserMessage
user id name = record { id = id; email = "mail"; first_name = name; last_name = "" }

abbrev lab_reply : ProvisionLabResponse
lab_reply = record {
  lab = some (record { id = "lab"; name = "Lab" });
  pool = some (record { id = "pool"; lab_id = "lab"; kind = vent_hood; name = "Hoods" });
  members =
      record { user = some (user "ann" "Ann"); role = member }
      ∷ record { user = some (user "bob" "Bob"); role = member }
      ∷ [];
  resources =
      record { id = "h1"; resource_pool_id = "pool"; lab_id = "lab"; kind = vent_hood; name = "" }
      ∷ record { id = "h2"; resource_pool_id = "pool"; lab_id = "lab"; kind = vent_hood; name = "" }
      ∷ [];
}

abbrev token_reply : String → MintTokenResponse
token_reply t = record { id_token = t; user = none }

-- A lab is provisioned, two members are acted as, and a pool is selected in between.
abbrev session : List (Event ℕ)
session =
    begins (provision "pool" (pos 2) (pos 2))
    ∷ settles (provision_settled (resolved lab_reply))
    ∷ begins (act_as "ann")
    ∷ settles (mint_settled "ann" (resolved (token_reply "t1")))
    ∷ selects "pool"
    ∷ begins (act_as "bob")
    ∷ settles (mint_settled "bob" (resolved (token_reply "t2")))
    ∷ []

session_acts : (run initial session).acting_user_id ≡ some "bob"
unfolding run begin insert lookup
session_acts = refl

run-HasToken_example : HasToken (run initial session)
run-HasToken_example = run-HasToken initial session (inl refl)

abbrev switching : List (Event ℕ)
switching =
    selects "pool"
    ∷ begins (act_as "bob")
    ∷ settles (mint_settled "bob" (resolved (token_reply "t2")))
    ∷ []

abbrev switched : State
switched = run initial (settles (mint_settled "ann" (resolved (token_reply "t1"))) ∷ switching)

act_as_again_example :
    ((begin (act_as "ann") switched).1 ≡ none)
    × ((begin (act_as "ann") switched).0.acting_user_id ≡ some "ann")
act_as_again_example = act_as_again "ann" initial (token_reply "t1") switching (tt, (tt, (tt, tt)))

abbrev signed_in : State
signed_in = record initial { operator_uid = some "op" }

operator_change_blanks_example :
    IsBlank (
      run {Timestamp = ℕ} signed_in
        (operator_is none ∷ begins (act_as "ann") ∷ selects "pool" ∷ []))
operator_change_blanks_example =
    operator_change_blanks signed_in none (begins (act_as "ann") ∷ selects "pool" ∷ []) refl
      (tt, (tt, tt))

late_reply_restores_example :
    let st' = run {Timestamp = ℕ} signed_in (
      begins (provision "pool" (pos 2) (pos 2))
      ∷ operator_is (some "other")
      ∷ settles (provision_settled (resolved lab_reply))
      ∷ []) in
    (st'.operator_uid ≡ some "other") × (st'.workspace ≡ some (workspace_from_provision lab_reply))
late_reply_restores_example =
    late_reply_restores ℕ signed_in "pool" (pos 2) (pos 2) (some "other") lab_reply refl

abbrev headers_holder : AuthHolder
headers_holder = record { token = some "t2"; lab_id = none }

-- A browser names headers in lower case.
abbrev plain : Map String
plain = ("content-type", "application/json") ∷ ("authorization", "Bearer t1") ∷ []

auth_headers_example :
    (get_header header_authorization (auth headers_holder plain) ≡ some (bearer "t2"))
    × (get_header header_selected_lab (auth headers_holder plain) ≡ none)
    × (get_header header_authorization (operator_auth (some "op") plain) ≡ some (bearer "op"))
    × ((name : String)
        → same_name header_authorization name ≡ false
        → (get_header name (operator_auth (some "op") plain) ≡ get_header name plain)
          × (same_name header_selected_lab name ≡ false
              → get_header name (auth headers_holder plain) ≡ get_header name plain))
unfolding get_header
auth_headers_example = auth_headers headers_holder (some "op") plain

abbrev operators : Session
operators = record { user = some (record { uid = "op"; email = none }); initializing = false }

operator_change_hides_example :
    ¬ ShowsPanel
      (app true operators (run {Timestamp = ℕ} signed_in (operator_is none ∷ selects "pool" ∷ [])))
operator_change_hides_example =
    operator_change_hides signed_in none (selects "pool" ∷ []) true operators refl (tt, tt)
