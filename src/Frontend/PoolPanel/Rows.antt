-- ===== src/Frontend/PoolPanel/Rows.antt =====
-- What the rows of frontend/src/components/PoolPanel.tsx say, and which buttons they get.
use qlab.Base.{
  ℕ, ◌≤◌, ◌<◌, ◌≡◌, refl, ◌≢◌, Bool, false, [], Option, none, some, ℤ, pos, neg_ℤ, scale_ℤ, shift,
  ◌<ℤ◌, arith, eq_iff,
}
use qlab.Frontend.Proto.{SlotMessage, RescheduleResult, scheduled, active}
use qlab.Frontend.SlotUi.{slot_actions}
use qlab.Frontend.PoolPanel.{
  MapContext, to_date, start_of, is_overrun, reach_floor, earliest_start_of, reclaimable, row_of,
}

reach_floor_bounds :
    (now : ℕ) (look : ℤ) (desired start : Option ℕ) (e : ℕ)
    → reach_floor now look desired start ≡ some e
    → (d : ℕ) × (t : ℕ) × (desired ≡ some d)
      × (start ≡ some t)
      × (now ≤ e)
      × (shift d (neg_ℤ (scale_ℤ 60000 look)) ≤ e)
      × (e < t)
reach_floor_bounds now look none start e h = absurd (cc)
reach_floor_bounds now look (some d) none e h = absurd (cc)
reach_floor_bounds now look (some d) (some t) e h =
    (d, t, refl, refl, ground arith, ground arith, ground arith)

module _ {Timestamp : Type 0} (timestamp_date : Timestamp → ℕ) where
  -- A reach is shown only on the viewer's own SCHEDULED slot with a positive lookahead that has a
  -- desired and a shown start, and it is not before now, not before the desired start less the
  -- lookahead, and before the shown start.
  pub earliest_start_bounds :
      (s : SlotMessage Timestamp) (ctx : MapContext) (e : ℕ)
      → earliest_start_of timestamp_date s ctx ≡ some e
      → (s.user_id ≡ ctx.current_user_id)
        × (s.status ≡ scheduled)
        × (pos 0 <ℤ s.lookahead_minutes)
        × ((d : ℕ) × (t : ℕ) × (to_date timestamp_date s.desired_start ≡ some d)
            × (start_of timestamp_date s ≡ some t)
            × (ctx.now ≤ e)
            × (shift d (neg_ℤ (scale_ℤ 60000 s.lookahead_minutes)) ≤ e)
            × (e < t))
  unfolding earliest_start_of
  earliest_start_bounds s ctx e h = (
    ground (arith, eq_iff s.user_id ctx.current_user_id),
    ground arith,
    ground arith,
    reach_floor_bounds ctx.now s.lookahead_minutes (to_date timestamp_date s.desired_start)
        (start_of timestamp_date s) e (ground arith),
  )

  -- A slot that is neither ACTIVE nor SCHEDULED, and that no position flags reclaimable, has no
  -- button.
  over_has_no_actions :
      (result : RescheduleResult Timestamp) (ctx : MapContext) (s : SlotMessage Timestamp)
      (pending : Bool)
      → s.status ≢ active
      → s.status ≢ scheduled
      → reclaimable result s.id ≡ false
      → slot_actions (row_of timestamp_date result ctx s) pending ≡ []
  unfolding slot_actions row_of is_overrun
  over_has_no_actions result ctx s pending a b h = ground arith
