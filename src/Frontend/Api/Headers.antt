-- ===== src/Frontend/Api/Headers.antt =====
-- The headers that the interceptors of frontend/src/api put on a request, and those of a request
-- that frontend/src/workspace/WorkspaceProvider.tsx lets through.
use qlab.Base.{
  ◌≡◌, refl, ap, ◌∙◌, true, false, Option, none, some, String, Map, arith, if◌then◌else◌,
}
use qlab.HeaderMap.{same_name, get_header, get_header-set_header}
use qlab.Frontend.Text.{is_truthy, or_empty}
use qlab.Frontend.Api.{
  AuthHolder, header_authorization, header_selected_lab, set_if, bearer, auth, operator_auth,
}

set_if_same :
    (name : String) (format : String → String) (value : Option String) (m : Map String) (n : String)
    → same_name name n ≡ true
    → get_header n (set_if name format value m)
      ≡ (if is_truthy value then some (format (or_empty value)) else get_header n m)
unfolding set_if
set_if_same name format none m n h = refl
set_if_same name format (some v) m n h = ground (arith, get_header-set_header name (format v) m n)

set_if_other :
    (name : String) (format : String → String) (value : Option String) (m : Map String) (n : String)
    → same_name name n ≡ false
    → get_header n (set_if name format value m) ≡ get_header n m
unfolding set_if
set_if_other name format none m n h = refl
set_if_other name format (some v) m n h = ground (arith, get_header-set_header name (format v) m n)

self_name : same_name header_authorization header_authorization ≡ true
unfolding same_name
self_name = refl

self_lab : same_name header_selected_lab header_selected_lab ≡ true
unfolding same_name
self_lab = refl

names_differ : same_name header_selected_lab header_authorization ≡ false
unfolding same_name
names_differ = refl

labs_differ : same_name header_authorization header_selected_lab ≡ false
unfolding same_name
labs_differ = refl

-- `auth` sets Authorization to the holder's token when that is neither missing nor empty, sets
-- X-QLab-Lab to the holder's lab in the same way, and leaves every other header as it was;
-- `operatorAuth` sets Authorization to the operator's token in the same way, and leaves every other
-- header as it was. Another header is one whose name differs in more than the case of its letters.
pub auth_headers :
    (holder : AuthHolder) (operator : Option String) (headers : Map String)
    → (get_header header_authorization (auth holder headers) ≡ (
        if is_truthy holder.token
        then some (bearer (or_empty holder.token))
        else get_header header_authorization headers))
      × (get_header header_selected_lab (auth holder headers) ≡ (
          if is_truthy holder.lab_id
          then some (or_empty holder.lab_id)
          else get_header header_selected_lab headers))
      × (get_header header_authorization (operator_auth operator headers) ≡ (
          if is_truthy operator
          then some (bearer (or_empty operator))
          else get_header header_authorization headers))
      × ((name : String)
          → same_name header_authorization name ≡ false
          → (get_header name (operator_auth operator headers) ≡ get_header name headers)
            × (same_name header_selected_lab name ≡ false
                → get_header name (auth holder headers) ≡ get_header name headers))
unfolding auth operator_auth
auth_headers holder operator headers =
    let mid = set_if header_authorization bearer holder.token headers in
    (
      set_if_other header_selected_lab (λ l. l) holder.lab_id mid header_authorization names_differ
          ∙ set_if_same header_authorization bearer holder.token headers header_authorization
              self_name,
      set_if_same header_selected_lab (λ l. l) holder.lab_id mid header_selected_lab self_lab
          ∙ ap (λ o. if is_truthy holder.lab_id then some (or_empty holder.lab_id) else o)
              (set_if_other header_authorization bearer holder.token headers header_selected_lab
                labs_differ),
      set_if_same header_authorization bearer operator headers header_authorization self_name,
      λ name h. (
        set_if_other header_authorization bearer operator headers name h,
        λ k.
            set_if_other header_selected_lab (λ l. l) holder.lab_id mid name k
            ∙ set_if_other header_authorization bearer holder.token headers name h,
      ),
    )
