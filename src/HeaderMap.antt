-- ===== src/HeaderMap.antt =====
-- The headers of a request, as the Fetch standard's Headers (frontend/src/api) and Go's http.Header
-- (backend/internal/api) keep them: a name is the same in upper and lower case. There is one entry to a
-- name, with the values of that name as one text.
use Prim.Native.Char.{code}
use Prim.Native.String.{[] as empty_text, ◌∷◌ as ◌∷ₜ◌}
use qlab.Base.{
  ℕ, ◌≡◌, refl, ◌↔◌, Bool, true, false, ◌&&◌, List, [], ◌∷◌, Option, none, some, String, Map, arith,
  ◌==◌, if◌then◌else◌,
}
use qlab.Api.GoText.{lower}

-- The codes of a name, with the ASCII letters in lower case.
unfoldable pub folded : String → List ℕ
folded empty_text = []
folded (◌∷ₜ◌ c s) = lower (code c) ∷ folded s

unfoldable eq_codes : List ℕ → List ℕ → Bool
eq_codes [] [] = true
eq_codes (m ∷ ms) (n ∷ ns) = m == n && eq_codes ms ns
eq_codes _ _ = false

unfoldable pub same_name : String → String → Bool
unfolding folded eq_codes
same_name s t = eq_codes (folded s) (folded t)

-- `get`.
unfoldable pub get_header : String → Map String → Option String
unfolding same_name
get_header name [] = none
get_header name ((k, v) ∷ headers) = if same_name k name then some v else get_header name headers

-- `set`.
unfoldable pub set_header : String → String → Map String → Map String
unfolding same_name
set_header name value [] = (name, value) ∷ []
set_header name value ((k, v) ∷ headers) =
    if same_name k name then (k, value) ∷ headers else (k, v) ∷ set_header name value headers

eq_codes_iff : (ms ns : List ℕ) → (eq_codes ms ns ≡ true) ↔ (ms ≡ ns)
unfolding eq_codes
eq_codes_iff [] [] = (λ h. refl, λ e. refl)
eq_codes_iff [] (n ∷ ns) = (λ h. absurd (ground arith), λ e. absurd (ground arith))
eq_codes_iff (m ∷ ms) [] = (λ h. absurd (ground arith), λ e. absurd (ground arith))
eq_codes_iff (m ∷ ms) (n ∷ ns) =
    (λ h. ground (arith, eq_codes_iff ms ns), λ e. ground (arith, eq_codes_iff ms ns))

pub same_name_iff : (s t : String) → (same_name s t ≡ true) ↔ (folded s ≡ folded t)
unfolding same_name
same_name_iff s t = eq_codes_iff (folded s) (folded t)

-- A header that was set is read under each spelling of its name, and the others are as they were.
pub get_header-set_header :
    (name value : String) (headers : Map String) (n : String)
    → get_header n (set_header name value headers)
      ≡ (if same_name name n then some value else get_header n headers)
unfolding get_header set_header
get_header-set_header name value [] n = refl
get_header-set_header name value ((k, v) ∷ headers) n = ground (
  arith,
  get_header-set_header name value headers n,
  same_name_iff k name,
  same_name_iff k n,
  same_name_iff name n,
)
