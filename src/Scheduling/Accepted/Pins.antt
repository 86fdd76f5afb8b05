-- ===== src/Scheduling/Accepted/Pins.antt =====
-- Settling a slot, and pinning it to a resource that `firstFreeResource` of helpers.go allows.
use mathlib.Core.Bool.{false≢true}
use mathlib.Core.Option.{some-injective}
use qlab.Base.{
  ℕ, ◌≡◌, sym, ◌∙◌, subst, ◌≢◌, ◌⊎◌, inl, inr, true, false, ◌||◌, List, [], ◌∷◌, some, String,
  arith, All, Bool-cases, str_eq, eq_iff,
}
use qlab.Scheduling.Store.{SlotStatus, Resource, Slot, is_live, is_active, nil_uuid}
use qlab.Scheduling.Helpers.{find_slot, update_slot, resource_has_active, first_free_resource}
use qlab.Scheduling.Events.{with_status, pinned_at, resource_for}
use qlab.Scheduling.Accepted.Writes.{update_slot-All, update_slot-AllPairs}
use qlab.Scheduling.Accepted.{RowOk, RowsApart, WellFormed}

-- A settled slot is out of everybody's way.
pub settled-WellFormed :
    (pool : String) (to : SlotStatus) (id : String) (t : Slot) (ss : List Slot)
    → is_live to ≡ false
    → find_slot ss id ≡ some t
    → WellFormed pool ss
    → WellFormed pool (update_slot id (with_status to) ss)
settled-WellFormed pool to id t ss l e w = record {
  rows =
      update_slot-All id (with_status to) t (RowOk pool) ss e
        (λ r. record {
          in_pool = r.in_pool;
          duration_pos = r.duration_pos;
          lookahead_nonneg = r.lookahead_nonneg;
          priority_fits = r.priority_fits;
          resource_text = r.resource_text;
        })
        w.rows;
  apart =
      update_slot-AllPairs id (with_status to) t RowsApart (RowOk pool) ss e
        (λ u h r a b. absurd (false≢true (sym l ∙ a)))
        (λ u h r a b. absurd (false≢true (sym l ∙ b))) w.rows w.apart;
}

-- The resource that a clock-in takes is held by nobody.
Idle : String → Slot → Type 0
Idle r s = (is_active s.status ≡ false) ⊎ (s.resource_id ≢ r)

not_held : (r : String) (ss : List Slot) → resource_has_active ss r ≡ false → All (Idle r) ss
unfolding resource_has_active Idle
not_held r [] h = tt
not_held r (s ∷ ss) h = (ground (arith, eq_iff s.resource_id r), not_held r ss (ground arith))

first_free_lem :
    (rs : List Resource) (ss : List Slot) (r : String)
    → All (λ q. q.id ≢ "") rs
    → first_free_resource rs ss ≡ some r
    → (resource_has_active ss r ≡ false) × (r ≢ "")
unfolding first_free_resource
first_free_lem [] ss r a h = absurd (cc)
first_free_lem (q ∷ rs) ss r a h = elim (Bool-cases (resource_has_active ss q.id)) [
  | inl c ↦ first_free_lem rs ss r a.1 (ground arith)
  | inr c ↦
      let e = some-injective q.id r (ground arith) in
      (subst (λ x. resource_has_active ss x ≡ false) e c, λ x. a.0 (e ∙ x))
]

pub resource_for_lem :
    (rs : List Resource) (ss : List Slot) (t : Slot) (r : String)
    → All (λ q. q.id ≢ "") rs
    → t.resource_id ≢ ""
    → resource_for rs ss t ≡ some r
    → (resource_has_active ss r ≡ false) × (r ≢ "")
unfolding resource_for
resource_for_lem rs ss t r a n h =
    elim (Bool-cases (str_eq t.resource_id nil_uuid || resource_has_active ss t.resource_id)) [
      | inl c ↦ first_free_lem rs ss r a (ground arith)
      | inr c ↦
          let e = some-injective t.resource_id r (ground arith) in
          (subst (λ x. resource_has_active ss x ≡ false) e (ground arith), λ x. n (e ∙ x))
    ]

pub pinned-WellFormed :
    (pool : String) (r : String) (now : ℕ) (id : String) (t : Slot) (ss : List Slot)
    → is_live t.status ≡ true
    → find_slot ss id ≡ some t
    → resource_has_active ss r ≡ false
    → r ≢ ""
    → WellFormed pool ss
    → WellFormed pool (update_slot id (pinned_at r now) ss)
unfolding Idle
pinned-WellFormed pool r now id t ss l e i n w = record {
  rows =
      update_slot-All id (pinned_at r now) t (RowOk pool) ss e
        (λ q. record {
          in_pool = q.in_pool;
          duration_pos = q.duration_pos;
          lookahead_nonneg = q.lookahead_nonneg;
          priority_fits = q.priority_fits;
          resource_text = n;
        })
        w.rows;
  apart =
      update_slot-AllPairs id (pinned_at r now) t RowsApart (Idle r) ss e
        (λ u h a b c.
          ((a l c).0, elim h [ inl x ↦ inr (inl x) | inr x ↦ inr (inr (λ y. x (sym y))) ]))
        (λ u h a b c. ((a b l).0, elim h [ inl x ↦ inl x | inr x ↦ inr (inr x) ])) (not_held r ss i)
        w.apart;
}
