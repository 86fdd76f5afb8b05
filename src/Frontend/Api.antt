-- ===== src/Frontend/Api.antt =====
-- frontend/src/api: the auth holder and the interceptors of the two transports. The next interceptor receives what is returned.
pub mod Headers
use Prim.Native.String.{◌++◌}
use qlab.Base.{Option, none, some, String, Map, if◌then◌else◌}
use qlab.HeaderMap.{set_header}
use qlab.Frontend.Text.{is_truthy, or_else, or_empty}

abbrev pub header_authorization : String
header_authorization = "Authorization"

abbrev pub header_selected_lab : String
header_selected_lab = "X-QLab-Lab"

-- The holder, with the token that its `getToken` resolves to.
pub record AuthHolder : Type 0 where
  pub token : Option String
  pub lab_id : Option String

abbrev pub initial_holder : AuthHolder
initial_holder = record { token = none; lab_id = none }

-- `Partial<AuthHolder>`: a field may be left out.
pub record PartialHolder : Type 0 where
  pub token : Option (Option String)
  pub lab_id : Option (Option String)

abbrev pub assigned : Option (Option String) → Option String → Option String
assigned none old = old
assigned (some new) old = new

unfoldable pub set_auth_holder : PartialHolder → AuthHolder → AuthHolder
set_auth_holder next holder = record {
  token = assigned next.token holder.token;
  lab_id = assigned next.lab_id holder.lab_id;
}

-- Sets a header if the value is truthy.
unfoldable pub set_if : String → (String → String) → Option String → Map String → Map String
unfolding set_header
set_if name format value headers =
    if is_truthy value then set_header name (format (or_empty value)) headers else headers

abbrev pub bearer : String → String
bearer token = "Bearer " ++ token

-- `auth` of transport.ts.
unfoldable pub auth : AuthHolder → Map String → Map String
unfolding set_if
auth holder headers =
    set_if header_selected_lab (λ l. l) holder.lab_id
      (set_if header_authorization bearer holder.token headers)

-- `operatorAuth` of operatorTransport.ts: `token` is the signed-in user's, if there is one.
unfoldable pub operator_auth : Option String → Map String → Map String
unfolding set_if
operator_auth token headers = set_if header_authorization bearer token headers

-- The base URL of both transports.
unfoldable pub base_url : String → String → String
base_url api_base_url origin = or_else api_base_url origin
