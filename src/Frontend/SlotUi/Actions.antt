-- ===== src/Frontend/SlotUi/Actions.antt =====
-- Which buttons `SlotActions` of frontend/src/components/slot-ui.tsx offers.
use qlab.Base.{Bool, true, false, ◌≡◌, ◌↔◌, ◌⊎◌, List, arith, All, Any}
use qlab.Frontend.Proto.{scheduled, active}
use qlab.Frontend.SlotUi.{
  SlotRow, Handler, on_clock_in, on_clock_out, on_cancel, on_poke, on_force_clock_out,
  on_force_no_show, Button, slot_actions,
}

-- Who may do what, as the component's comment puts it.
abbrev pub Allowed : Handler → SlotRow → Type 0
Allowed on_clock_in row = (row.is_you ≡ true) × (row.status ≡ scheduled)
Allowed on_clock_out row = (row.is_you ≡ true) × (row.status ≡ active)
Allowed on_cancel row = (row.is_you ≡ true) × ((row.status ≡ active) ⊎ (row.status ≡ scheduled))
Allowed on_poke row = (row.is_you ≡ false) × (row.you_are_next ≡ true) × (row.overrun ≡ true)
Allowed on_force_clock_out row =
    (row.is_you ≡ false) × (row.you_are_next ≡ true) × (row.overrun ≡ true)
Allowed on_force_no_show row =
    (row.is_you ≡ false)
    × (row.you_are_next ≡ true)
    × (row.overrun ≡ false)
    × (row.reclaimable ≡ true)

abbrev pub Offers : Handler → List Button → Type 0
Offers h = Any (λ b. b.on_click ≡ h)

slot_actions-Offers :
    (row : SlotRow) (pending : Bool) (h : Handler)
    → Offers h (slot_actions row pending) ↔ Allowed h row
unfolding slot_actions
slot_actions-Offers row pending on_clock_in = (λ o. ground arith, λ a. ground arith)
slot_actions-Offers row pending on_clock_out = (λ o. ground arith, λ a. ground arith)
slot_actions-Offers row pending on_cancel = (λ o. ground arith, λ a. ground arith)
slot_actions-Offers row pending on_poke = (λ o. ground arith, λ a. ground arith)
slot_actions-Offers row pending on_force_clock_out = (λ o. ground arith, λ a. ground arith)
slot_actions-Offers row pending on_force_no_show = (λ o. ground arith, λ a. ground arith)

-- A handler is offered exactly to whom it is allowed: clock in, clock out and cancel on one's own
-- slot in the fitting status; poke and boot to the next in line on an overrun of someone else;
-- reclaim to the next in line on someone else's lapsed slot that is not overrunning. Each button is
-- of the row's slot, and disabled while a mutation is pending.
pub slot_actions_iff :
    (row : SlotRow) (pending : Bool)
    → ((h : Handler) → Offers h (slot_actions row pending) ↔ Allowed h row)
      × All (λ b. (b.slot_id ≡ row.slot_id) × (b.disabled ≡ pending)) (slot_actions row pending)
unfolding slot_actions
slot_actions_iff row pending = (slot_actions-Offers row pending, ground arith)
