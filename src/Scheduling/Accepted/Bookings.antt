-- ===== src/Scheduling/Accepted/Bookings.antt =====
-- `CreateSlot` puts a slot at the back: `nextPriority` of helpers.go is behind all live slots.
use mathlib.Core.Bool.{false≢true}
use qlab.Base.{
  ℕ, ◌^◌, ◌-◌, ◌<◌, ◌≡◌, refl, subst, ◌≢◌, inl, inr, true, ◌&&◌, List, [], ◌∷◌, ◌++◌, String, ℤ,
  pos, ◌≤ℤ◌, ◌<ℤ◌, arith, All, All-append_one, AllPairs-append_one, All-imp, eq_iff, if◌then◌else◌,
  ltb_ℤ, le_ℤ_trans, negsuc, zero, suc,
}
use qlab.Scheduling.Store.{Slot, is_live, nil_uuid}
use qlab.Scheduling.Helpers.{succ_ℤ, highest, next_priority}
use qlab.Scheduling.Events.{CreateParams, new_slot}
use qlab.Scheduling.Accepted.{RowOk, RowsApart, WellFormed}

-- No live slot is behind the highest priority, which is not negative.
highest_lem :
    (max : ℤ) (ss : List Slot)
    → (max ≤ℤ highest max ss) × All (λ s. is_live s.status ≡ true → s.priority ≤ℤ highest max ss) ss
unfolding highest
highest_lem max [] = (omega arith, tt)
highest_lem max (s ∷ ss) =
    let more = if is_live s.status && ltb_ℤ max s.priority then s.priority else max in
    let ih = highest_lem more ss in
    let step = more_lem in
    (
      le_ℤ_trans max more (highest more ss) step.0 ih.0,
      (λ l. le_ℤ_trans s.priority more (highest more ss) (step.1 l) ih.0, ih.1),
    )
  where
    more_lem :
        (max ≤ℤ (if is_live s.status && ltb_ℤ max s.priority then s.priority else max))
        × (is_live s.status ≡ true
            → s.priority ≤ℤ (if is_live s.status && ltb_ℤ max s.priority then s.priority else max))
    more_lem = (ground arith, λ l. ground arith)

highest_below :
    (n : ℕ) (max : ℤ) (ss : List Slot)
    → max <ℤ pos n
    → All (λ s. is_live s.status ≡ true → s.priority <ℤ pos n) ss
    → highest max ss <ℤ pos n
unfolding highest
highest_below n max [] h a = h
highest_below n max (s ∷ ss) h a =
    highest_below n (if is_live s.status && ltb_ℤ max s.priority then s.priority else max) ss
      (ground (arith, a.0)) a.1

succ_fits : (n : ℕ) (z : ℤ) → pos 0 ≤ℤ z → z <ℤ pos n → (m : ℕ) × (succ_ℤ z ≡ pos m) × (m < suc n)
succ_fits n (pos m) h k = (suc m, refl, omega arith)
succ_fits n (negsuc m) h k = absurd (omega arith)

succ_behind : (a z : ℤ) → a ≤ℤ z → a ≢ succ_ℤ z
succ_behind a (pos n) h e = omega (arith, subst (λ x. x ≤ℤ pos n) e h)
succ_behind a (negsuc zero) h e = omega (arith, subst (λ x. x ≤ℤ negsuc zero) e h)
succ_behind a (negsuc (suc n)) h e = omega (arith, subst (λ x. x ≤ℤ negsuc (suc n)) e h)

-- What is asked of a booking: its own columns, and that the priorities have not run out.
pub record Bookable (pool : String) (params : CreateParams) (working : List Slot) : Type 0 where
  pub in_pool : params.resource_pool_id ≡ pool
  pub duration_pos : pos 0 <ℤ params.duration_minutes
  pub lookahead_nonneg : pos 0 ≤ℤ params.lookahead_minutes
  pub priorities_left : All (λ s. is_live s.status ≡ true → s.priority <ℤ pos (2 ^ 31 - 1)) working

nil_uuid_ne : nil_uuid ≢ ""
nil_uuid_ne e = false≢true ((eq_iff nil_uuid "").1 e)

pub create-WellFormed :
    (pool id lab caller : String) (params : CreateParams) (working : List Slot)
    → Bookable pool params working
    → WellFormed pool working
    → WellFormed pool (working ++ new_slot id lab caller params working ∷ [])
unfolding new_slot next_priority
create-WellFormed pool id lab caller params working b w =
    let h = highest_lem (pos 0) working in
    record {
      rows = All-append_one (RowOk pool) working _ w.rows (record {
        in_pool = b.in_pool;
        duration_pos = b.duration_pos;
        lookahead_nonneg = b.lookahead_nonneg;
        priority_fits =
            succ_fits (2 ^ 31 - 1) (highest (pos 0) working) h.0
              (highest_below (2 ^ 31 - 1) (pos 0) working (omega arith) b.priorities_left);
        resource_text = nil_uuid_ne;
      });
      apart =
          AllPairs-append_one RowsApart working (new_slot id lab caller params working)
            (All-imp _ _ working
              (λ s k l m. (succ_behind s.priority (highest (pos 0) working) (k l), inr (inl refl)))
              h.1)
            w.apart;
    }
