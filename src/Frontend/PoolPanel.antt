-- ===== src/Frontend/PoolPanel.antt =====
-- frontend/src/components/PoolPanel.tsx: from a schedule to rows, and the container's actions.
-- `timestamp_date` is @bufbuild/protobuf's, into milliseconds as in SlotUi.
pub mod NextInLine
pub mod Rows
pub mod Container
use Prim.Native.String.{◌++◌, [] as empty_text, ◌∷◌ as ◌∷ₜ◌}
use qlab.Base.{
  ℕ, zero, suc, ◌+◌, ◌-◌, ◌*◌, Bool, true, false, not, ◌&&◌, ◌||◌, List, [], ◌∷◌, map, Option, none,
  some, String, ℤ, pos, neg_ℤ, scale_ℤ, shift, Map, lookup, insert, str_eq, ltb, ltb_ℤ,
  if◌then◌else◌, keep, find, any,
}
use qlab.Frontend.Proto.{SlotMessage, SlotPositionMessage, RescheduleResult}
use qlab.Frontend.SlotUi.{SlotRow, ResourceCell, is_active, is_scheduled}

pub record MapContext : Type 0 where
  pub current_user_id : String
  pub now : ℕ
  pub member_label : Map String

-- A Date some minutes later; the product of an int32 with 60000 is exact.
abbrev pub add_minutes : ℕ → ℤ → ℕ
add_minutes t m = shift t (scale_ℤ 60000 m)

abbrev pub later : ℕ → ℕ → ℕ
later a b = if ltb a b then b else a

-- `s.slice(0, n)`, of characters in the basic plane.
unfoldable pub first_chars : ℕ → String → String
first_chars zero s = empty_text
first_chars (suc n) empty_text = empty_text
first_chars (suc n) (◌∷ₜ◌ c s) = ◌∷ₜ◌ c (first_chars n s)

abbrev pub or_label : Option String → String → String
or_label none d = d
or_label (some s) d = s

abbrev pub first_of : Option ℕ → Option ℕ → Option ℕ
first_of none b = b
first_of (some a) b = some a

abbrev pub ends_before : Option ℕ → ℤ → ℕ → Bool
ends_before none d now = false
ends_before (some t) d now = ltb (add_minutes t d) now

abbrev pub reach_floor : ℕ → ℤ → Option ℕ → Option ℕ → Option ℕ
reach_floor now look none start = none
reach_floor now look (some desired) none = none
reach_floor now look (some desired) (some start) =
    let floor = later now (shift desired (neg_ℤ (scale_ℤ 60000 look))) in
    if ltb floor start then some floor else none

module _ {Timestamp : Type 0} where
  -- The Map of the positions: a later entry replaces an earlier one.
  unfoldable pub pos_by_slot :
      List (SlotPositionMessage Timestamp)
      → Map (SlotPositionMessage Timestamp)
      → Map (SlotPositionMessage Timestamp)
  pos_by_slot [] m = m
  pos_by_slot (p ∷ ps) m = pos_by_slot ps (insert p.slot_id p m)

  abbrev pub flag_of : Option (SlotPositionMessage Timestamp) → Bool
  flag_of none = false
  flag_of (some p) = p.reclaimable

  unfoldable pub reclaimable : RescheduleResult Timestamp → String → Bool
  unfolding pos_by_slot
  reclaimable result slot_id = flag_of (lookup slot_id (pos_by_slot result.positions []))

  -- The function of the `reduce`, and the `reduce`.
  abbrev pub lesser : Option (SlotMessage Timestamp) → SlotMessage Timestamp → SlotMessage Timestamp
  lesser none s = s
  lesser (some min) s = if ltb_ℤ s.slot_priority min.slot_priority then s else min

  unfoldable pub least :
      Option (SlotMessage Timestamp) → List (SlotMessage Timestamp) → Option (SlotMessage Timestamp)
  least min [] = min
  least min (s ∷ ss) = least (some (lesser min s)) ss

  -- A slot that may be next in line: SCHEDULED, and not a lapsed no-show.
  abbrev pub is_runnable : RescheduleResult Timestamp → SlotMessage Timestamp → Bool
  is_runnable result s = is_scheduled s.status && not (reclaimable result s.id)

  unfoldable pub next_in_line : RescheduleResult Timestamp → Option (SlotMessage Timestamp)
  unfolding least
  next_in_line result = least none (keep (is_runnable result) result.slots)

  abbrev owned_by : String → Option (SlotMessage Timestamp) → Bool
  owned_by u none = false
  owned_by u (some s) = str_eq s.user_id u

  unfoldable pub you_are_next_in_line : RescheduleResult Timestamp → MapContext → Bool
  unfolding next_in_line
  you_are_next_in_line result ctx = owned_by ctx.current_user_id (next_in_line result)

module _ {Timestamp : Type 0} (timestamp_date : Timestamp → ℕ) where
  unfoldable pub to_date : Option Timestamp → Option ℕ
  to_date none = none
  to_date (some ts) = some (timestamp_date ts)

  unfoldable pub start_of : SlotMessage Timestamp → Option ℕ
  unfolding to_date
  start_of s = first_of (to_date s.actual_start) (to_date s.desired_start)

  unfoldable pub is_overrun : SlotMessage Timestamp → ℕ → Bool
  unfolding start_of
  is_overrun s now = is_active s.status && ends_before (start_of s) s.duration_minutes now

  unfoldable pub earliest_start_of : SlotMessage Timestamp → MapContext → Option ℕ
  unfolding to_date start_of
  earliest_start_of s ctx =
      if str_eq s.user_id ctx.current_user_id
        && (is_scheduled s.status && ltb_ℤ (pos 0) s.lookahead_minutes)
      then reach_floor ctx.now s.lookahead_minutes (to_date s.desired_start) (start_of s)
      else none

  unfoldable pub row_of : RescheduleResult Timestamp → MapContext → SlotMessage Timestamp → SlotRow
  unfolding start_of is_overrun earliest_start_of
  row_of result ctx s =
      let is_you = str_eq s.user_id ctx.current_user_id in
      let overrun = is_overrun s ctx.now in
      record {
        slot_id = s.id;
        priority = s.slot_priority;
        user_label = or_label (lookup s.user_id ctx.member_label) (first_chars 8 s.user_id);
        is_you = is_you;
        status = s.status;
        start = start_of s;
        duration_minutes = s.duration_minutes;
        lookahead_minutes = s.lookahead_minutes;
        overrun = overrun;
        reclaimable = reclaimable result s.id;
        you_are_next =
            if not is_you && (overrun || reclaimable result s.id)
            then you_are_next_in_line result ctx
            else false;
        resource_id = if is_active s.status then some s.assigned_resource_id else none;
        earliest_start = earliest_start_of s ctx;
      }

  unfoldable pub result_to_rows : Option (RescheduleResult Timestamp) → MapContext → List SlotRow
  unfolding row_of
  result_to_rows none ctx = []
  result_to_rows (some result) ctx = map (row_of result ctx) result.slots
