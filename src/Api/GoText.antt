-- ===== src/Api/GoText.antt =====
-- Go's strings package as backend/internal uses it: TrimSpace, Cut at a blank, and a prefix by EqualFold.
use Prim.Native.Char.{Char, code}
use Prim.Native.String.{◌++◌, [] as empty_text, ◌∷◌ as ◌∷ₜ◌}
use text.Mathlib.TextLemmas.{nil-append, cons-append}
use qlab.Base.{
  ◌≡◌, ap, ◌∙◌, ℕ, ◌+◌, Bool, ◌&&◌, ◌||◌, Option, none, some, String, ◌==◌, leb, arith,
  if◌then◌else◌,
}

-- Unicode's white space.
unfoldable pub is_space : Char → Bool
is_space c =
    let n = code c in
    (leb 9 n && leb n 13)
    || n == 32
    || n == 133
    || n == 160
    || n == 5760
    || (leb 8192 n && leb n 8202)
    || n == 8232
    || n == 8233
    || n == 8239
    || n == 8287
    || n == 12288

unfoldable pub trim_left : String → String
trim_left empty_text = empty_text
trim_left (◌∷ₜ◌ c s) = if is_space c then trim_left s else ◌∷ₜ◌ c s

abbrev pub push_left : Char → String → String
push_left c empty_text = if is_space c then empty_text else ◌∷ₜ◌ c empty_text
push_left c (◌∷ₜ◌ d s) = ◌∷ₜ◌ c (◌∷ₜ◌ d s)

unfoldable pub trim_right : String → String
trim_right empty_text = empty_text
trim_right (◌∷ₜ◌ c s) = push_left c (trim_right s)

unfoldable pub trim_space : String → String
unfolding trim_left trim_right
trim_space s = trim_right (trim_left s)

-- The code of an ASCII letter in lower case.
abbrev pub lower : ℕ → ℕ
lower n = if leb 65 n && leb n 90 then n + 32 else n

-- What follows a prefix that is there but for the case of its letters.
unfoldable pub after_fold : String → String → Option String
after_fold empty_text s = some s
after_fold (◌∷ₜ◌ p ps) empty_text = none
after_fold (◌∷ₜ◌ p ps) (◌∷ₜ◌ c s) =
    if lower (code p) == lower (code c) then after_fold ps s else none

-- `strings.Cut` at the first blank.
abbrev pub prepend : Char → Option (String × String) → Option (String × String)
prepend c none = none
prepend c (some (a, b)) = some (◌∷ₜ◌ c a, b)

unfoldable pub cut_blank : String → Option (String × String)
cut_blank empty_text = none
cut_blank (◌∷ₜ◌ c s) = if code c == 32 then some (empty_text, s) else prepend c (cut_blank s)

pub after_fold-append : (p s : String) → after_fold p (p ++ s) ≡ some s
unfolding after_fold
after_fold-append empty_text s = ap some (nil-append s)
after_fold-append (◌∷ₜ◌ c p) s =
    ap (after_fold (◌∷ₜ◌ c p)) (cons-append c p s) ∙ ground (arith, after_fold-append p s)
