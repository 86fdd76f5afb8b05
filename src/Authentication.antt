-- ===== src/Authentication.antt =====
-- backend/internal/services/authentication/v1/v1.go with the statements of store/pgstore/user.go. The
-- verifier of tokens is a parameter; a statement that fails is one of `UserFaults`.
pub mod Provisioning
use qlab.Base.{
  Bool, true, false, not, ◌&&◌, ◌||◌, List, [], ◌∷◌, Option, none, some, String, str_eq,
  if◌then◌else◌, find,
}
use qlab.Api.GoText.{trim_space, cut_blank}

-- `auth.Identity`.
pub record Identity : Type 0 where
  pub firebase_uid : String
  pub email : String
  pub email_verified : Bool
  pub name : String

-- A row of the users table; `firebase_uid` is NULL before the first login.
pub record UserRow : Type 0 where
  pub id : String
  pub firebase_uid : Option String
  pub email : String
  pub first_name : String
  pub last_name : String

pub data AuthError : Type 0 where
  unauthenticated not_provisioned identity_conflict : AuthError
  auth_database : String → AuthError

pub data Authenticated (A : Type 0) : Type 0 where
  known : A → Authenticated A
  rejected : AuthError → Authenticated A

pub record UserFaults : Type 0 where
  pub by_uid : Option String
  pub by_email : Option String
  pub link : Option String

abbrev pub has_uid : String → UserRow → Bool
has_uid uid u = elim u.firebase_uid [ none ↦ false | some v ↦ str_eq v uid ]

-- `UserByFirebaseUID` and `UserByEmail`.
unfoldable pub user_by_firebase_uid : String → List UserRow → Option UserRow
user_by_firebase_uid uid users = find (has_uid uid) users

unfoldable pub user_by_email : String → List UserRow → Option UserRow
user_by_email email users = find (λ (u : UserRow). str_eq u.email email) users

-- `COALESCE(NULLIF(new, ''), old)`.
abbrev pub new_or_old : String → String → String
new_or_old new old = if str_eq new "" then old else new

-- `LinkFirebaseUID`: the row of the id, if it is not linked, with the table after it.
abbrev pub linked : String → String → String → UserRow → UserRow
linked uid first last u = record u {
  firebase_uid = some uid;
  first_name = new_or_old first u.first_name;
  last_name = new_or_old last u.last_name;
}

abbrev pub is_unlinked : String → UserRow → Bool
is_unlinked id u = elim u.firebase_uid [ none ↦ str_eq u.id id | some v ↦ false ]

abbrev pub behind : UserRow → Option (UserRow × List UserRow) → Option (UserRow × List UserRow)
behind u none = none
behind u (some (v, rest)) = some (v, u ∷ rest)

unfoldable pub link_firebase_uid :
    String → String → String → String → List UserRow → Option (UserRow × List UserRow)
link_firebase_uid id uid first last [] = none
link_firebase_uid id uid first last (u ∷ users) =
    if is_unlinked id u
    then some (linked uid first last u, linked uid first last u ∷ users)
    else behind u (link_firebase_uid id uid first last users)

-- `splitName`.
abbrev pub parts_of : String → Option (String × String) → String × String
parts_of name none = (name, "")
parts_of name (some (a, b)) = (trim_space a, trim_space b)

unfoldable pub split_name : String → String × String
unfolding trim_space cut_blank
split_name raw =
    let name = trim_space raw in if str_eq name "" then ("", "") else parts_of name (cut_blank name)

abbrev pub or_rejected :
    Option String
    → List UserRow
    → List UserRow × Authenticated UserRow
    → List UserRow × Authenticated UserRow
or_rejected none users r = r
or_rejected (some message) users r = (users, rejected (auth_database message))

abbrev pub uid_differs : Option String → String → Bool
uid_differs none uid = false
uid_differs (some v) uid = not (str_eq v "") && not (str_eq v uid)

module _ (faults : UserFaults) (identity : Identity) (users : List UserRow) where
  abbrev pub linked_or : Option (UserRow × List UserRow) → List UserRow × Authenticated UserRow
  linked_or none = (users, rejected identity_conflict)
  linked_or (some (u, after)) = (after, known u)

  abbrev pub provision_row : Option UserRow → List UserRow × Authenticated UserRow
  provision_row none = (users, rejected not_provisioned)
  provision_row (some invited) =
      if uid_differs invited.firebase_uid identity.firebase_uid
      then (users, rejected identity_conflict)
      else let (first, last) = split_name identity.name in
        or_rejected faults.link users
          (linked_or (link_firebase_uid invited.id identity.firebase_uid first last users))

  -- `provision`.
  unfoldable pub provision : List UserRow × Authenticated UserRow
  unfolding user_by_email link_firebase_uid split_name
  provision =
      if str_eq identity.email "" || not identity.email_verified
      then (users, rejected not_provisioned)
      else or_rejected faults.by_email users (provision_row (user_by_email identity.email users))

  abbrev pub found_or : Option UserRow → List UserRow × Authenticated UserRow
  found_or none = provision
  found_or (some u) = (users, known u)

-- `Authenticate`: the users after it, and the user.
unfoldable pub authenticate :
    (String → Option Identity)
    → UserFaults
    → String
    → List UserRow
    → List UserRow × Authenticated UserRow
unfolding provision user_by_firebase_uid
authenticate verify faults token users = elim (verify token) [
  | none ↦ (users, rejected unauthenticated)
  | some identity ↦
      or_rejected faults.by_uid users
        (found_or faults identity users (user_by_firebase_uid identity.firebase_uid users))
]
