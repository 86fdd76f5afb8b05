-- ===== src/DynamicQueue/Intervals.antt =====
-- backend/internal/dynamicqueue/basic/intervals.go. A freeMap is an association list; a resource
-- with no entry has the nil list. The order of the entries is Go's iteration order, which the code
-- hides by sorting the keys.
pub mod Holds
pub mod Carve
pub mod FirstFit
pub mod Choice
pub mod Exact
pub mod Seed
use Prim.Native.String.{compare}
use text.Mathlib.Text.{is_lt}
use qlab.Base.{
  ℕ, ◌≡◌, Bool, true, false, not, ◌&&◌, ◌||◌, List, [], ◌∷◌, ◌++◌, map, Option, none, some, String,
  ℤ, Map, lookup, insert, ltb, if◌then◌else◌, shift,
}
use qlab.DynamicQueue.Slot.{zero_time, duration_of, Resource, Slot, is_pinned}

pub record Interval : Type 0 where
  pub start : ℕ
  pub end : ℕ
  pub open_ended : Bool

abbrev pub bounded : ℕ → ℕ → Interval
bounded s e = record { start = s; end = e; open_ended = false }

abbrev pub tail_from : ℕ → Interval
tail_from s = record { start = s; end = zero_time; open_ended = true }

-- `laterOf`, of reschedule.go.
unfoldable pub later_of : ℕ → ℕ → ℕ
later_of a b = if ltb b a then a else b

-- `interval.contains`.
unfoldable pub contains : Interval → ℕ → ℕ → Bool
contains iv s e = if ltb s iv.start then false else iv.open_ended || not (ltb iv.end e)

-- `interval.fits`.
unfoldable pub fits : Interval → ℕ → ℤ → Bool
fits iv t d = if ltb t iv.start then false else iv.open_ended || not (ltb iv.end (shift t d))

abbrev pub FreeMap : Type 0
FreeMap = Map (List Interval)

abbrev pub or_nil : Option (List Interval) → List Interval
or_nil none = []
or_nil (some ivs) = ivs

-- A read of the map.
abbrev pub get : String → FreeMap → List Interval
get r m = or_nil (lookup r m)

-- The loop of `freeFrom`: `cursor` and `out` are its variables.
unfoldable pub free_loop : ℕ → List Interval → List Interval → List Interval
free_loop cursor out [] = out ++ tail_from cursor ∷ []
free_loop cursor out (b ∷ bs) =
    free_loop (if ltb cursor b.end then b.end else cursor)
      (if ltb cursor b.start then out ++ bounded cursor b.start ∷ [] else out) bs

unfoldable pub free_from : ℕ → List Interval → List Interval
unfolding free_loop
free_from now busy = free_loop now [] busy

-- The first loop of `buildFree`.
unfoldable pub add_busy : ℕ → FreeMap → Slot → FreeMap
add_busy now busy s =
    if not (is_pinned s.status)
    then busy
    else insert s.assigned_resource
        (get s.assigned_resource busy ++ bounded now s.projected_end ∷ []) busy

unfoldable pub collect_busy : ℕ → FreeMap → List Slot → FreeMap
unfolding add_busy
collect_busy now busy [] = busy
collect_busy now busy (s ∷ ss) = collect_busy now (add_busy now busy s) ss

-- The second loop of `buildFree`.
unfoldable pub seed_free : ℕ → FreeMap → FreeMap → List Resource → FreeMap
unfolding free_from
seed_free now busy free [] = free
seed_free now busy free (r ∷ rs) =
    seed_free now busy (insert r.id (free_from now (get r.id busy)) free) rs

unfoldable pub build_free : List Resource → List Slot → ℕ → FreeMap
unfolding collect_busy seed_free
build_free resources slots now = seed_free now (collect_busy now [] slots) [] resources

-- The variables of `place`.
pub record Best : Type 0 where
  pub start : ℕ
  pub resource : String
  pub gap_fill : Bool
  pub found : Bool

abbrev pub no_best : Best
no_best = record { start = zero_time; resource = ""; gap_fill = false; found = false }

unfoldable pub improve : Best → String → ℕ → Interval → Best
improve best rid t iv =
    if not best.found || ltb t best.start
    then record { start = t; resource = rid; gap_fill = not iv.open_ended; found = true }
    else best

-- The inner loop of `place`: the first fitting interval ends it.
unfoldable pub scan_intervals : String → ℕ → ℤ → Best → List Interval → Best
unfolding later_of fits improve
scan_intervals rid earliest dur best [] = best
scan_intervals rid earliest dur best (iv ∷ ivs) =
    if fits iv (later_of iv.start earliest) dur
    then improve best rid (later_of iv.start earliest) iv
    else scan_intervals rid earliest dur best ivs

unfoldable pub scan_resources : FreeMap → ℕ → ℤ → Best → List String → Best
unfolding scan_intervals
scan_resources free earliest dur best [] = best
scan_resources free earliest dur best (rid ∷ order) =
    scan_resources free earliest dur (scan_intervals rid earliest dur best (get rid free)) order

unfoldable pub place : FreeMap → List String → ℕ → ℤ → Best
unfolding scan_resources
place free order earliest d = scan_resources free earliest (duration_of d) no_best order

-- What `carve` leaves of the interval that holds [start, end).
unfoldable pub fragments : Interval → ℕ → ℕ → List Interval
fragments iv start end =
    (if ltb iv.start start then bounded iv.start start ∷ [] else [])
    ++ (if iv.open_ended
        then tail_from end ∷ []
        else if ltb end iv.end
        then bounded end iv.end ∷ []
        else [])

unfoldable pub carve_loop : ℕ → ℕ → Bool → List Interval → List Interval
unfolding contains fragments
carve_loop start end carved [] = []
carve_loop start end carved (iv ∷ ivs) =
    let kept = iv ∷ carve_loop start end carved ivs in
    let split = fragments iv start end ++ carve_loop start end true ivs in
    if carved || not (contains iv start end) then kept else split

unfoldable pub carve : FreeMap → String → ℕ → ℤ → FreeMap
unfolding carve_loop
carve free r start d =
    insert r (carve_loop start (shift start (duration_of d)) false (get r free)) free

-- `slices.Sort` on texts.
unfoldable pub insert_key : String → List String → List String
insert_key k [] = k ∷ []
insert_key k (j ∷ js) = if is_lt (compare j k) then j ∷ insert_key k js else k ∷ j ∷ js

unfoldable pub sort_keys : List String → List String
unfolding insert_key
sort_keys [] = []
sort_keys (k ∷ ks) = insert_key k (sort_keys ks)

abbrev pub keys : FreeMap → List String
keys m = map (λ e. e.0) m

unfoldable pub sorted_keys : FreeMap → List String
unfolding sort_keys
sorted_keys free = sort_keys (keys free)
