-- ===== src/Scheduling/Service/Outsiders.antt =====
-- Who is not a member of the lab gets nothing from backend/internal/services/scheduling/v1.
use qlab.Base.{◌≡◌, refl, false, none, some, String}
use qlab.Scheduling.Tables.{Tables, not_member, err, is_member}
use qlab.Scheduling.Service.{
  Settings, Moment, Principal, authorize, serve_slots, serve_schedule, create_slot, slot_event,
  clock_user_in, clock_user_out, cancel_slot, force_clock_user_out, force_user_no_show, poke_user,
  Request, book, clock_in, clock_out, cancel, nudge, force_clock_out, force_no_show, serve,
}

module _ (settings : Settings) (m : Moment) (p : Principal) (t : Tables)
    (outside : is_member p.lab_id p.user_id t ≡ false) (read : m.faults.membership ≡ none) where
  unauthorized : authorize m p t ≡ err not_member
  unfolding authorize
  unauthorized = rw (read, outside) refl

  refused : (request : Request) → serve settings m p request t ≡ (t, some not_member)
  unfolding serve create_slot slot_event clock_user_in clock_user_out cancel_slot
      force_clock_user_out force_user_no_show poke_user
  refused (book params) = rw (unauthorized, create_slot) refl
  refused (clock_in slot) = rw (unauthorized, slot_event) refl
  refused (clock_out slot) = rw (unauthorized, slot_event) refl
  refused (cancel slot) = rw (unauthorized, slot_event) refl
  refused (nudge slot) = rw (unauthorized, poke_user) refl
  refused (force_clock_out slot) = rw (unauthorized, slot_event) refl
  refused (force_no_show slot) = rw (unauthorized, slot_event) refl

  -- Whoever is not a member of the lab that they act in gets ErrNotMember for every request and both
  -- reads, and nothing changes, provided that the membership can be read.
  pub outsiders_refused :
      ((request : Request) → serve settings m p request t ≡ (t, some not_member))
      × ((pool : String)
          → (serve_slots m p pool t ≡ err not_member)
            × (serve_schedule settings m p pool t ≡ err not_member))
  unfolding serve_slots serve_schedule
  outsiders_refused = (
    refused,
    λ pool. (rw (unauthorized, serve_slots) refl, rw (unauthorized, serve_schedule) refl),
  )
