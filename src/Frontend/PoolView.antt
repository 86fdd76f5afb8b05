-- ===== src/Frontend/PoolView.antt =====
-- frontend/src/components/PoolView.tsx: the running grid and the timeline. Heights are in pixels;
-- the product with 1.6 is taken as 16 / 10, which rounds alike on int32 minutes, since it never
-- ends in a half. `format_time` is `toLocaleTimeString`, which depends on the locale.
pub mod Timeline
pub mod Grid
pub mod Shown
use Prim.Native.String
use qlab.Base.{
  ℕ, suc, ◌+◌, ◌-◌, ◌*◌, ◌/◌, Bool, true, false, not, ◌&&◌, ◌||◌, List, [], ◌∷◌, ◌++◌, map, Option,
  none, some, String, ℤ, pos, negsuc, ltb, leb, str_eq, if◌then◌else◌, keep, find, scale_ℤ, shift,
}
use qlab.Frontend.SlotUi.{
  SlotRow, ResourceCell, Button, Pill, status_pill, slot_actions, is_active, is_scheduled,
}
use qlab.Frontend.PoolPanel.{add_minutes}

unfoldable pub end_of : SlotRow → Option ℕ
end_of row = elim row.start [ none ↦ none | some t ↦ some (add_minutes t row.duration_minutes) ]

-- `Math.max(lo, Math.min(hi, Math.round(m * 1.6)))`; on a negative duration the round is not positive.
unfoldable pub clamped_height : ℕ → ℕ → ℤ → ℕ
clamped_height lo hi (negsuc n) = lo
clamped_height lo hi (pos n) =
    let h = (16 * n + 5) / 10 in
    let capped = if ltb hi h then hi else h in if ltb capped lo then lo else capped

unfoldable pub height_for : ℤ → ℕ
unfolding clamped_height
height_for m = clamped_height 64 320 m

unfoldable pub gap_height_for : ℕ → ℕ
unfolding clamped_height
gap_height_for m = clamped_height 36 160 (pos m)

unfoldable pub reach_height_for : ℕ → ℕ
unfolding clamped_height
reach_height_for m = clamped_height 32 200 (pos m)

-- `Math.round((b - a) / 60000)` of two Dates, a before b.
unfoldable pub minutes_between : ℕ → ℕ → ℕ
minutes_between a b = (b - a + 30000) / 60000

abbrev reach_between : Option ℕ → Option ℕ → ℕ
reach_between none e = 0
reach_between (some t) none = 0
reach_between (some t) (some e) = if leb t e then 0 else minutes_between e t

unfoldable pub forward_reach_minutes : SlotRow → ℕ
unfolding minutes_between
forward_reach_minutes row = if not row.is_you then 0 else reach_between row.start row.earliest_start

-- The stable sort by start; a row with none counts as the Unix epoch.
abbrev pub epoch : ℕ
epoch = 8640000000000000

abbrev pub or_epoch : Option ℕ → ℕ
or_epoch none = epoch
or_epoch (some t) = t

unfoldable pub insert_row : SlotRow → List SlotRow → List SlotRow
insert_row row [] = row ∷ []
insert_row row (r ∷ rs) =
    if ltb (or_epoch r.start) (or_epoch row.start) then r ∷ insert_row row rs else row ∷ r ∷ rs

unfoldable pub sort_rows : List SlotRow → List SlotRow
unfolding insert_row
sort_rows [] = []
sort_rows (r ∷ rs) = insert_row r (sort_rows rs)

pub data Segment : Type 0 where
  slot_segment : String → Option ℕ → SlotRow → Segment
  gap_segment : String → ℕ → ℕ → Segment

-- The gap before a row, if there is one of five minutes or more.
unfoldable pub gap_before : Option ℕ → Option ℕ → SlotRow → List Segment
unfolding minutes_between
gap_before none start row = []
gap_before (some cursor) none row = []
gap_before (some cursor) (some start) row =
    if ltb cursor start && leb 5 (minutes_between cursor start)
    then gap_segment (String.◌++◌ "gap-" row.slot_id) cursor (minutes_between cursor start) ∷ []
    else []

abbrev pub or_cursor : Option ℕ → Option ℕ → Option ℕ
or_cursor none cursor = cursor
or_cursor (some t) cursor = some t

-- The loop of `buildSegments` over the sorted rows.
unfoldable pub segments_from : Option ℕ → List SlotRow → List Segment
unfolding gap_before end_of
segments_from cursor [] = []
segments_from cursor (row ∷ rows) =
    gap_before cursor row.start row
    ++ (slot_segment row.slot_id row.start row ∷ segments_from (or_cursor (end_of row) cursor) rows)

unfoldable pub build_segments : List SlotRow → List Segment
unfolding segments_from sort_rows
build_segments upcoming = segments_from none (sort_rows upcoming)
