-- ===== src/Frontend/Text.antt =====
-- JavaScript's strings as the frontend uses them: truthiness, `trim` and `join`.
use Prim.Native.Char.{Char, code}
use Prim.Native.String.{◌++◌, [] as empty_text, ◌∷◌ as ◌∷ₜ◌}
use qlab.Base.{
  Bool, false, not, ◌&&◌, ◌||◌, List, [], ◌∷◌, Option, none, some, String, str_eq, ◌==◌, leb,
  if◌then◌else◌,
}

-- A string, or undefined or null, in a condition.
abbrev pub is_truthy : Option String → Bool
is_truthy none = false
is_truthy (some s) = not (str_eq s "")

-- `a || b` on strings.
abbrev pub or_else : String → String → String
or_else a b = if str_eq a "" then b else a

-- `a ?? ""`.
abbrev pub or_empty : Option String → String
or_empty none = ""
or_empty (some s) = s

-- The characters that `trim` strips: white space and line terminators.
unfoldable pub is_space : Char → Bool
is_space c =
    let n = code c in
    (leb 9 n && leb n 13)
    || n == 32
    || n == 160
    || n == 5760
    || (leb 8192 n && leb n 8202)
    || n == 8232
    || n == 8233
    || n == 8239
    || n == 8287
    || n == 12288
    || n == 65279

unfoldable pub trim_start : String → String
trim_start empty_text = empty_text
trim_start (◌∷ₜ◌ c s) = if is_space c then trim_start s else ◌∷ₜ◌ c s

-- A character in front of a text whose end is trimmed.
unfoldable pub push_trimmed : Char → String → String
push_trimmed c empty_text = if is_space c then empty_text else ◌∷ₜ◌ c empty_text
push_trimmed c (◌∷ₜ◌ d s) = ◌∷ₜ◌ c (◌∷ₜ◌ d s)

unfoldable pub trim_end : String → String
unfolding push_trimmed
trim_end empty_text = empty_text
trim_end (◌∷ₜ◌ c s) = push_trimmed c (trim_end s)

unfoldable pub trim : String → String
unfolding trim_start trim_end
trim s = trim_end (trim_start s)

unfoldable pub join : String → List String → String
join sep [] = ""
join sep (s ∷ []) = s
join sep (s ∷ t ∷ ss) = s ++ (sep ++ join sep (t ∷ ss))

-- `filter(Boolean)` on strings that may be undefined.
unfoldable pub keep_truthy : List (Option String) → List String
keep_truthy [] = []
keep_truthy (none ∷ ss) = keep_truthy ss
keep_truthy (some s ∷ ss) = if str_eq s "" then keep_truthy ss else s ∷ keep_truthy ss
