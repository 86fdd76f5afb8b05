-- ===== src/Frontend/PoolView/Grid.antt =====
-- frontend/src/components/PoolView.tsx: the cards, `RunningGrid`, `UpcomingTimeline` and `PoolView`,
-- by what they show. `format_time` is `toLocaleTimeString`.
use qlab.Base.{
  ℕ, Bool, true, false, List, map, Option, none, some, String, ℤ, pos, str_eq, ltb, ltb_ℤ,
  if◌then◌else◌, keep, find,
}
use qlab.Frontend.SlotUi.{
  SlotRow, ResourceCell, Button, Pill, status_pill, slot_actions, is_active, is_scheduled,
}
use qlab.Frontend.PoolView.{
  Segment, slot_segment, gap_segment, end_of, height_for, gap_height_for, reach_height_for,
  forward_reach_minutes, build_segments,
}

-- `active.find((s) => s.resourceId === r.id)`.
abbrev pub is_on : String → SlotRow → Bool
is_on id row = elim row.resource_id [ none ↦ false | some r ↦ str_eq r id ]

unfoldable pub running_cells :
    List ResourceCell → List SlotRow → List (ResourceCell × Option SlotRow)
running_cells resources running = map (λ r. (r, find (is_on r.id) running)) resources

-- The two groups of `PoolView`.
unfoldable pub active_rows : List SlotRow → List SlotRow
active_rows rows = keep (λ r. is_active r.status) rows

unfoldable pub upcoming_rows : List SlotRow → List SlotRow
upcoming_rows rows = keep (λ r. is_scheduled r.status) rows

-- A running slot in its cell.
pub record Occupant : Type 0 where
  pub pill : Pill
  pub user_label : String
  pub is_you : Bool
  pub ends_label : String
  pub ends : Option ℕ
  pub actions : List Button

pub record Cell : Type 0 where
  pub label : String
  pub danger : Bool
  pub occupant : Option Occupant

unfoldable pub occupant_of : Bool → SlotRow → Occupant
unfolding end_of
occupant_of pending slot = record {
  pill = status_pill slot;
  user_label = slot.user_label;
  is_you = slot.is_you;
  ends_label = if slot.overrun then "over since " else "ends ";
  ends = end_of slot;
  actions = slot_actions slot pending;
}

abbrev is_danger : Option SlotRow → Bool
is_danger none = false
is_danger (some slot) = slot.overrun

unfoldable pub running_grid : List ResourceCell → List SlotRow → Bool → List Cell
unfolding running_cells occupant_of
running_grid resources running pending =
    map
      (λ c. record {
        label = c.0.label;
        danger = is_danger c.1;
        occupant = elim c.1 [ none ↦ none | some slot ↦ some (occupant_of pending slot) ];
      })
      (running_cells resources running)

pub record Card : Type 0 where
  pub flat_top : Bool
  pub min_height : ℕ
  pub amber : Bool
  pub pill : Pill
  pub user_label : String
  pub is_you : Bool
  pub duration_minutes : ℤ
  pub flex : Option ℤ
  pub actions : List Button

unfoldable pub slot_card : SlotRow → Bool → Bool → Card
slot_card row pending flat_top = record {
  flat_top = flat_top;
  min_height = height_for row.duration_minutes;
  amber = ltb_ℤ (pos 0) row.lookahead_minutes;
  pill = status_pill row;
  user_label = row.user_label;
  is_you = row.is_you;
  duration_minutes = row.duration_minutes;
  flex = if ltb_ℤ (pos 0) row.lookahead_minutes then some row.lookahead_minutes else none;
  actions = slot_actions row pending;
}

-- What stands beside a segment's time.
pub data Entry : Type 0 where
  plain_entry : Card → Entry
  reach_entry : ℕ → ℕ → Card → Entry
  gap_entry : ℕ → ℕ → Entry

abbrev entry_with : ℕ → Option ℕ → SlotRow → Bool → Entry
entry_with reach none row pending = plain_entry (slot_card row pending false)
entry_with reach (some earliest) row pending =
    if ltb 0 reach
    then reach_entry (reach_height_for reach) earliest (slot_card row pending true)
    else plain_entry (slot_card row pending false)

unfoldable pub entry_of : Bool → Segment → Option ℕ × Entry
unfolding slot_card forward_reach_minutes
entry_of pending (slot_segment key start row) =
    (start, entry_with (forward_reach_minutes row) row.earliest_start row pending)
entry_of pending (gap_segment key start minutes) =
    (some start, gap_entry (gap_height_for minutes) minutes)

-- The empty list is "Nothing queued."
unfoldable pub upcoming_timeline : List SlotRow → Bool → List (Option ℕ × Entry)
unfolding entry_of build_segments
upcoming_timeline rows pending = map (entry_of pending) (build_segments rows)

pub record View : Type 0 where
  pub book_disabled : Bool
  pub grid : List Cell
  pub timeline : List (Option ℕ × Entry)

unfoldable pub pool_view : List ResourceCell → List SlotRow → Bool → View
unfolding running_grid upcoming_timeline active_rows upcoming_rows
pool_view resources rows pending = record {
  book_disabled = pending;
  grid = running_grid resources (active_rows rows) pending;
  timeline = upcoming_timeline (upcoming_rows rows) pending;
}
