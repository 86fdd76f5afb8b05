-- ===== src/Frontend/PoolTests.antt =====
-- The pool's rows, buttons, timeline and grid at small inputs: a pool of two hoods, where ann overruns and
-- bob is next in line.
use qlab.Base.{
  ℕ, ◌+◌, ◌*◌, ◌≡◌, refl, sym, ◌∙◌, ◌≢◌, ◌↔◌, ◌⊎◌, Bool, true, false, List, [], ◌∷◌, map, Option,
  none, some, String, pos, negsuc, ◌≤◌, ◌<◌, ◌<ℤ◌, neg_ℤ, scale_ℤ, shift, arith, All, AllPairs,
  lookup, length, keep,
}
use mathlib.Core.Option.{some-injective}
use qlab.Frontend.Proto.{SlotStatus, scheduled, active, complete, SlotMessage, RescheduleResult}
use qlab.Frontend.SlotUi.{SlotRow, Handler, slot_actions}
use qlab.Frontend.SlotUi.Actions.{Allowed, Offers, slot_actions_iff}
use qlab.Frontend.PoolPanel.{
  MapContext, is_overrun, reclaimable, you_are_next_in_line, to_date, start_of, earliest_start_of,
  row_of,
}
use qlab.Frontend.PoolPanel.NextInLine.{IsFront, you_are_next_iff}
use qlab.Frontend.PoolPanel.Rows.{earliest_start_bounds}
use qlab.Frontend.Preview.{resources, rows}
use qlab.Frontend.PoolView.{
  Segment, slot_segment, gap_segment, minutes_between, height_for, gap_height_for, reach_height_for,
  build_segments,
}
use qlab.Frontend.PoolView.Grid.{running_cells, active_rows, upcoming_rows}
use qlab.Frontend.PoolView.Shown.{PinnedApart, RunsOn, running_cells_iff, heights_bounds}
use qlab.Frontend.PoolView.Timeline.{InOrder, Tiles, shown_rows, build_segments-Tiles}
use qlab.Scheduling.Tests.{text_ne}

-- Minutes from the instant that the schedules start from.
abbrev at : ℕ → ℕ
at m = 60000 * (1000 + m)

abbrev booking : String → String → ℕ → SlotStatus → ℕ → ℕ → Option ℕ → String → SlotMessage ℕ
booking id user_id priority status desired look actual resource = record {
  id = id;
  lab_id = "lab";
  user_id = user_id;
  resource_pool_id = "pool";
  assigned_resource_id = resource;
  slot_priority = pos priority;
  status = status;
  desired_start = some desired;
  lookahead_minutes = pos look;
  duration_minutes = pos 30;
  committed_start = some desired;
  actual_start = actual;
  note = "";
}

-- Ann is twenty minutes over on h1; bob's slot is the front-most one; a third slot is complete.
abbrev anns : SlotMessage ℕ
anns = booking "s1" "ann" 0 active (at 0) 0 (some (at 0)) "h1"

abbrev bobs : SlotMessage ℕ
bobs = booking "s2" "bob" 1 scheduled (at 90) 60 none ""

abbrev done_slot : SlotMessage ℕ
done_slot = booking "s3" "cid" 2 complete (at 0) 0 (some (at 0)) "h2"

abbrev schedule : RescheduleResult ℕ
schedule = record {
  resource_pool_id = "pool";
  slots = anns ∷ bobs ∷ done_slot ∷ [];
  positions = [];
}

abbrev bobs_view : MapContext
bobs_view = record { current_user_id = "bob"; now = at 50; member_label = ("ann", "Ann") ∷ [] }

abbrev same_instant : ℕ → ℕ
same_instant t = t

you_are_next_iff_example : ((row_of same_instant schedule bobs_view anns).you_are_next ≡ true) ↔ (
    (anns.user_id ≢ bobs_view.current_user_id)
    × ((is_overrun same_instant anns (at 50) ≡ true) ⊎ (reclaimable schedule "s1" ≡ true))
    × ((n : SlotMessage ℕ) × (n.user_id ≡ bobs_view.current_user_id)
        × IsFront schedule schedule.slots n))
you_are_next_iff_example = you_are_next_iff same_instant schedule bobs_view anns

bob_is_next : (row_of same_instant schedule bobs_view anns).you_are_next ≡ true
unfolding row_of lookup you_are_next_in_line reclaimable
bob_is_next = refl

bobs_reach : earliest_start_of same_instant bobs bobs_view ≡ some (at 50)
unfolding earliest_start_of
bobs_reach = refl

earliest_start_bounds_example :
    (bobs.user_id ≡ bobs_view.current_user_id)
    × (bobs.status ≡ scheduled)
    × (pos 0 <ℤ pos 60)
    × ((d : ℕ) × (t : ℕ) × (to_date same_instant (some (at 90)) ≡ some d)
        × (start_of same_instant bobs ≡ some t)
        × (at 50 ≤ at 50)
        × (shift d (neg_ℤ (scale_ℤ 60000 (pos 60))) ≤ at 50)
        × (at 50 < t))
earliest_start_bounds_example = earliest_start_bounds same_instant bobs bobs_view (at 50) bobs_reach

not_flagged : reclaimable schedule "s3" ≡ false
unfolding reclaimable lookup
not_flagged = refl

slot_actions_iff_example :
    ((h : Handler)
      → Offers h (slot_actions (row_of same_instant schedule bobs_view anns) true)
        ↔ Allowed h (row_of same_instant schedule bobs_view anns))
    × All
        (λ b.
          (b.slot_id ≡ (row_of same_instant schedule bobs_view anns).slot_id) × (b.disabled ≡ true))
        (slot_actions (row_of same_instant schedule bobs_view anns) true)
slot_actions_iff_example = slot_actions_iff (row_of same_instant schedule bobs_view anns) true

-- The gallery, on a day of its own.
abbrev day : ℕ
day = 600000000

rows_apart : AllPairs PinnedApart (rows day)
rows_apart = (
  (
    λ id e f. text_ne "h1" "h2" refl (some-injective "h1" "h2" (e ∙ sym f)),
    (λ id e f. cc, (λ id e f. cc, (λ id e f. cc, tt))),
  ),
  (
    (λ id e f. cc, (λ id e f. cc, (λ id e f. cc, tt))),
    ((λ id e f. cc, (λ id e f. cc, tt)), ((λ id e f. cc, tt), (tt, tt))),
  ),
)

abbrev keep_gaps : List Segment → List ℕ
keep_gaps [] = []
keep_gaps (slot_segment key start row ∷ segments) = keep_gaps segments
keep_gaps (gap_segment key start minutes ∷ segments) = minutes ∷ keep_gaps segments

build_segments-Tiles_example :
    InOrder (shown_rows (build_segments (upcoming_rows (rows day))))
    × ((p : SlotRow → Bool)
        → length (keep p (shown_rows (build_segments (upcoming_rows (rows day)))))
          ≡ length (keep p (upcoming_rows (rows day))))
    × Tiles none (build_segments (upcoming_rows (rows day)))
build_segments-Tiles_example = build_segments-Tiles (upcoming_rows (rows day))

running_cells_iff_example :
    (map (λ c. c.0) (running_cells resources (active_rows (rows day))) ≡ resources)
    × All
        (λ c. (row : SlotRow) → (c.1 ≡ some row) ↔ RunsOn (rows day) c.0.id row)
        (running_cells resources (active_rows (rows day)))
running_cells_iff_example = running_cells_iff resources (rows day) rows_apart

-- Half an hour lies between the third and the fourth slot, three quarters before the last one.
gallery_segments : keep_gaps (build_segments (upcoming_rows (rows day))) ≡ 30 ∷ 45 ∷ []
unfolding build_segments upcoming_rows minutes_between
gallery_segments = refl

heights_bounds_example :
    ((64 ≤ height_for (negsuc 4))
      × (height_for (negsuc 4) ≤ height_for (pos 90))
      × (height_for (pos 90) ≤ 320))
    × ((36 ≤ gap_height_for 5)
        × (gap_height_for 5 ≤ gap_height_for 500)
        × (gap_height_for 500 ≤ 160))
    × ((32 ≤ reach_height_for 5)
        × (reach_height_for 5 ≤ reach_height_for 500)
        × (reach_height_for 500 ≤ 200))
heights_bounds_example = heights_bounds (negsuc 4) (pos 90) 5 500 (omega arith) (omega arith)
