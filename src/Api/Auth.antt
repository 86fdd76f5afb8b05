-- ===== src/Api/Auth.antt =====
-- backend/internal/api/auth.go: the interceptor in front of the methods. The attributes that it gives to
-- spans and logs are left out; it is called for inbound calls only.
pub mod Arrives
use qlab.Base.{ℕ, Bool, true, false, List, Option, none, some, String, Map, str_eq, if◌then◌else◌}
use qlab.Scheduling.Tables.{Tables}
use qlab.Scheduling.Service.{Settings, Moment, Principal}
use qlab.HeaderMap.{get_header}
use qlab.Frontend.Text.{or_empty}
use qlab.Frontend.Proto.Service.{QlabMethod, Input, Output}
use qlab.Authentication.{
  Identity, UserRow, AuthError, unauthenticated as user_unauthenticated, not_provisioned,
  identity_conflict, auth_database, Authenticated, known, rejected, UserFaults, authenticate,
}
use qlab.Api.GoText.{trim_space, after_fold}
use qlab.Api.Handlers.{
  Code, invalid_argument, unauthenticated, permission_denied, failed_precondition, unavailable,
  internal, Rpc, response, failure, parse_uuid, handle,
}

abbrev pub header_authorization : String
header_authorization = "Authorization"

abbrev pub header_selected_lab : String
header_selected_lab = "X-QLab-Lab"

abbrev pub bearer_prefix : String
bearer_prefix = "Bearer "

-- `bearerToken`.
unfoldable pub bearer_token : String → String
unfolding after_fold trim_space
bearer_token header = elim (after_fold bearer_prefix header) [
  | none ↦ ""
  | some rest ↦ trim_space rest
]

-- `authConnectError`.
unfoldable pub auth_connect_error : AuthError → Code
auth_connect_error not_provisioned = permission_denied
auth_connect_error identity_conflict = failed_precondition
auth_connect_error user_unauthenticated = unauthenticated
auth_connect_error (auth_database message) = internal

-- `Service` of api.go: what is attached to it, with the verifier of the authentication service.
-- `valid` is protovalidate on the request's message.
pub record Server (Timestamp : Type 0) : Type 0 where
  pub sched : Option Settings
  pub authn : Option (String → Option Identity)
  pub parse : String → Option String
  pub valid : (method : QlabMethod) → Input Timestamp method → Bool

-- `req.Header().Get`.
abbrev pub header_of : String → Map String → String
header_of name headers = or_empty (get_header name headers)

abbrev pub lab_of : String → Rpc String → Rpc Principal
lab_of user (response lab) = response (record { user_id = user; lab_id = lab })
lab_of user (failure c) = failure invalid_argument

abbrev pub principal_of :
    (String → Option String)
    → String
    → List UserRow × Authenticated UserRow
    → List UserRow × Rpc Principal
principal_of parse lab (users, rejected e) = (users, failure (auth_connect_error e))
principal_of parse lab (users, known u) = (users, lab_of u.id (parse_uuid parse lab))

module _ {Timestamp : Type 0} (server : Server Timestamp) (faults : UserFaults) where
  -- `authInterceptor` up to the call of the next one.
  unfoldable pub auth_interceptor : Map String → List UserRow → List UserRow × Rpc Principal
  unfolding bearer_token authenticate parse_uuid auth_connect_error
  auth_interceptor headers users = elim server.authn [
    | none ↦ (users, failure unavailable)
    | some verify ↦
        if str_eq (bearer_token (header_of header_authorization headers)) ""
        then (users, failure unauthenticated)
        else principal_of server.parse (header_of header_selected_lab headers) (
            authenticate verify faults (bearer_token (header_of header_authorization headers))
              users)
  ]

  module _ (timestamp_of : ℕ → Timestamp) (instant_of : Timestamp → ℕ) (m : Moment) where
    abbrev pub validated :
        (method : QlabMethod)
        → Input Timestamp method
        → Principal
        → Tables
        → Tables × Rpc (Output Timestamp method)
    validated method req p t =
        if server.valid method req
        then handle timestamp_of instant_of server.parse m
            (record { principal = some p; sched = server.sched }) method req t
        else (t, failure invalid_argument)

    abbrev pub proceed :
        (method : QlabMethod)
        → Input Timestamp method
        → List UserRow × Rpc Principal
        → Tables
        → List UserRow × Tables × Rpc (Output Timestamp method)
    proceed method req (users, failure c) t = (users, t, failure c)
    proceed method req (users, response p) t =
        let (t', out) = validated method req p t in (users, t', out)

    -- A call of the service, through its interceptors.
    unfoldable pub call :
        (method : QlabMethod)
        → Input Timestamp method
        → Map String
        → List UserRow
        → Tables
        → List UserRow × Tables × Rpc (Output Timestamp method)
    unfolding auth_interceptor handle
    call method req headers users t = proceed method req (auth_interceptor headers users) t
