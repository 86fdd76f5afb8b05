-- ===== src/Frontend/Preview.antt =====
-- frontend/src/Preview.tsx: the gallery's mock data. `midnight` is the start of its day, the 24th of June
-- 2026 in the local time zone.
use qlab.Base.{ℕ, ◌+◌, ◌*◌, true, false, List, [], ◌∷◌, none, some, pos}
use qlab.Frontend.Proto.{scheduled, active}
use qlab.Frontend.SlotUi.{SlotRow, ResourceCell}
use qlab.Frontend.PoolView.Grid.{View, pool_view}

abbrev pub resources : List ResourceCell
resources = record { id = "h1"; label = "Hood 1" } ∷ record { id = "h2"; label = "Hood 2" } ∷ []

abbrev pub at : ℕ → ℕ → ℕ → ℕ
at midnight hour minute = midnight + 60000 * (60 * hour + minute)

abbrev pub rows : ℕ → List SlotRow
rows midnight =
    record {
      slot_id = "1";
      priority = pos 1;
      user_label = "Ann";
      is_you = true;
      status = active;
      start = some (at midnight 10 0);
      duration_minutes = pos 30;
      lookahead_minutes = pos 0;
      overrun = false;
      reclaimable = false;
      you_are_next = false;
      resource_id = some "h1";
      earliest_start = none;
    }
    ∷ record {
      slot_id = "2";
      priority = pos 2;
      user_label = "Bo";
      is_you = false;
      status = active;
      start = some (at midnight 10 15);
      duration_minutes = pos 45;
      lookahead_minutes = pos 0;
      overrun = true;
      reclaimable = false;
      you_are_next = true;
      resource_id = some "h2";
      earliest_start = none;
    }
    ∷ record {
      slot_id = "3";
      priority = pos 3;
      user_label = "Cal";
      is_you = false;
      status = scheduled;
      start = some (at midnight 11 0);
      duration_minutes = pos 30;
      lookahead_minutes = pos 0;
      overrun = false;
      reclaimable = false;
      you_are_next = false;
      resource_id = none;
      earliest_start = none;
    }
    ∷ record {
      slot_id = "4";
      priority = pos 4;
      user_label = "Mia";
      is_you = true;
      status = scheduled;
      start = some (at midnight 12 0);
      duration_minutes = pos 30;
      lookahead_minutes = pos 60;
      overrun = false;
      reclaimable = false;
      you_are_next = false;
      resource_id = none;
      earliest_start = some (at midnight 11 0);
    }
    ∷ record {
      slot_id = "5";
      priority = pos 5;
      user_label = "Dee";
      is_you = false;
      status = scheduled;
      start = some (at midnight 13 15);
      duration_minutes = pos 120;
      lookahead_minutes = pos 30;
      overrun = false;
      reclaimable = false;
      you_are_next = false;
      resource_id = none;
      earliest_start = none;
    }
    ∷ []

-- The two views of the gallery.
unfoldable pub populated : ℕ → View
unfolding pool_view
populated midnight = pool_view resources (rows midnight) false

unfoldable pub nothing_booked : View
unfolding pool_view
nothing_booked = pool_view resources [] false
