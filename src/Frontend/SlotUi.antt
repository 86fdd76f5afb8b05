-- ===== src/Frontend/SlotUi.antt =====
-- frontend/src/components/slot-ui.tsx: the view-model of a slot, its badge and its buttons. A Date is
-- a number of milliseconds, counted from the earliest Date, 8.64e15 ms before the Unix epoch. Of a
-- button's class names the one style is kept that tells them apart.
pub mod Actions
use qlab.Base.{
  ℕ, Bool, true, false, not, ◌&&◌, List, [], ◌∷◌, Option, none, some, String, ℤ, if◌then◌else◌,
}
use qlab.Frontend.Proto.{SlotStatus, unspecified, scheduled, active, complete, cancelled, no_show}

pub record SlotRow : Type 0 where
  pub slot_id : String
  pub priority : ℤ
  pub user_label : String
  pub is_you : Bool
  pub status : SlotStatus
  pub start : Option ℕ
  pub duration_minutes : ℤ
  pub lookahead_minutes : ℤ
  pub overrun : Bool
  pub reclaimable : Bool
  pub you_are_next : Bool
  pub resource_id : Option String
  pub earliest_start : Option ℕ

pub record ResourceCell : Type 0 where
  pub id : String
  pub label : String

-- `SlotHandlers`: what a button's `onClick` calls, with the row's slot id.
pub data Handler : Type 0 where
  on_clock_in on_clock_out on_cancel on_poke on_force_clock_out on_force_no_show : Handler

pub data Tone : Type 0 where
  teal amber danger muted : Tone

pub record Badge : Type 0 where
  pub label : String
  pub tone : Tone

abbrev pub is_active : SlotStatus → Bool
is_active active = true
is_active _ = false

abbrev pub is_scheduled : SlotStatus → Bool
is_scheduled scheduled = true
is_scheduled _ = false

-- The `switch` of `statusBadge`; the last clause is `default`.
abbrev status_label : SlotStatus → Badge
status_label active = record { label = "Active"; tone = teal }
status_label scheduled = record { label = "Scheduled"; tone = muted }
status_label complete = record { label = "Done"; tone = muted }
status_label cancelled = record { label = "Cancelled"; tone = muted }
status_label no_show = record { label = "No-show"; tone = muted }
status_label unspecified = record { label = "—"; tone = muted }

unfoldable pub status_badge : SlotRow → Badge
status_badge row =
    if row.overrun
    then record { label = "Overrun"; tone = danger }
    else if row.reclaimable
    then record { label = "No-show?"; tone = amber }
    else status_label row.status

unfoldable pub pill_tone : Tone → String
pill_tone teal = "bg-teal/15 text-teal"
pill_tone amber = "bg-amber/15 text-amber"
pill_tone danger = "bg-danger/15 text-danger"
pill_tone muted = "bg-edge text-muted"

-- What `StatusPill` shows: its label, and the classes of its tone.
pub record Pill : Type 0 where
  pub label : String
  pub classes : String

unfoldable pub status_pill : SlotRow → Pill
unfolding status_badge pill_tone
status_pill row = record {
  label = (status_badge row).label;
  classes = pill_tone (status_badge row).tone;
}

pub data ButtonStyle : Type 0 where
  btn_primary btn_danger btn_subtle : ButtonStyle

pub record Button : Type 0 where
  pub text : String
  pub style : ButtonStyle
  pub disabled : Bool
  pub on_click : Handler
  pub slot_id : String

abbrev button : SlotRow → Bool → String → ButtonStyle → Handler → Button
button row pending text style h = record {
  text = text;
  style = style;
  disabled = pending;
  on_click = h;
  slot_id = row.slot_id;
}

-- `SlotActions`: no button at all is its `null`.
unfoldable pub slot_actions : SlotRow → Bool → List Button
slot_actions row pending =
    if row.is_you && is_active row.status
    then button row pending "Clock out" btn_primary on_clock_out
      ∷ button row pending "Cancel" btn_subtle on_cancel
      ∷ []
    else if row.is_you && is_scheduled row.status
    then button row pending "Clock in" btn_primary on_clock_in
      ∷ button row pending "Cancel" btn_subtle on_cancel
      ∷ []
    else if not row.is_you && (row.you_are_next && row.overrun)
    then button row pending "Poke" btn_subtle on_poke
      ∷ button row pending "Boot" btn_danger on_force_clock_out
      ∷ []
    else if not row.is_you && (row.you_are_next && row.reclaimable)
    then button row pending "Reclaim" btn_danger on_force_no_show ∷ []
    else []
