-- ===== src/DynamicQueue/Greedy.antt =====
-- What docs/ALGORITHM.md asks of the schedule, with no reference to free intervals: a greedy list
-- schedule over the spans that are already occupied.
use qlab.Base.{
  ℕ, ◌+◌, ◌*◌, ◌≤◌, ◌<◌, ◌≡◌, ◌≢◌, ◌↔◌, ◌⊎◌, true, List, [], ◌∷◌, ◌++◌, some, String, ℤ, pos,
  pos_part, ◌≤ℤ◌, All, AllPairs, lookup, if◌then◌else◌,
}
use qlab.DynamicQueue.Slot.{
  minute, zero_time, Slot, SlotPosition, Queue, Input, is_pinned, earliest_start,
}

-- An occupied span of a resource.
pub record Span : Type 0 where
  pub resource : String
  pub start : ℕ
  pub end : ℕ

-- The span [s, e) on `r` does not meet an occupied one.
abbrev pub Apart : String → ℕ → ℕ → Span → Type 0
Apart r s e b = (b.resource ≢ r) ⊎ (e ≤ b.start) ⊎ (b.end ≤ s)

abbrev pub Clear : List Span → String → ℕ → ℕ → Type 0
Clear occ r s e = All (Apart r s e) occ

-- How long a slot runs, in nanoseconds.
abbrev pub run_time : Slot → ℕ
run_time s = minute * pos_part s.duration

-- A slot may run on `r` from `t`: not before its floor or now, and beside all that is occupied.
abbrev pub Vacant : Input → List Span → Slot → String → ℕ → Type 0
Vacant in' occ s r t = (earliest_start s ≤ t) × (in'.now ≤ t) × Clear occ r t (t + run_time s)

-- `r` at `t` beats all others under the resources of the order: it is feasible, the resources
-- before it only allow later starts, and the others no earlier one.
pub record Wins (Feas : String → ℕ → Type 0) (order : List String) (r : String) (t : ℕ)
    : Type 0 where
  pub before : List String
  pub after : List String
  pub split : order ≡ before ++ r ∷ after
  pub feasible : Feas r t
  pub strictly : All (λ q. (s : ℕ) → Feas q s → t < s) before
  pub least : All (λ q. (s : ℕ) → Feas q s → t ≤ s) (r ∷ after)

-- The two flags of a placement.
pub record Flagged (in' : Input) (s : Slot) (p : SlotPosition) : Type 0 where
  pub recommitted_iff : (p.recommitted ≡ true) ↔ (p.actual_start ≢ s.committed_start)
  pub reclaimable_iff : (p.reclaimable ≡ true) ↔ (
      (s.committed_start ≢ zero_time) × (s.committed_start + minute * pos_part in'.grace < in'.now))

abbrev pub occupied_by : Slot → SlotPosition → Span
occupied_by s p = record {
  resource = p.assigned_resource;
  start = p.actual_start;
  end = p.actual_start + run_time s;
}

-- Each slot in turn has a position: the earliest vacant start over the resources, on the first
-- resource in the order that has it. The slots behind see its span as occupied.
abbrev pub Greedy : Input → List String → List Span → Queue → List Slot → Type 0
Greedy in' order occ q [] = Unit
Greedy in' order occ q (s ∷ ss) =
    (p : SlotPosition) × (lookup s.id q ≡ some p)
    × Wins (Vacant in' occ s) order p.assigned_resource p.actual_start
    × Flagged in' s p
    × Greedy in' order (occupied_by s p ∷ occ) q ss

-- The spans of the ACTIVE slots, from now on.
abbrev pub pinned_spans : ℕ → List Slot → List Span
pinned_spans now [] = []
pinned_spans now (s ∷ ss) =
    if is_pinned s.status
    then record { resource = s.assigned_resource; start = now; end = s.projected_end }
      ∷ pinned_spans now ss
    else pinned_spans now ss

-- Durations for which `Minutes.Duration` does not overflow int64: under 292 years.
abbrev pub max_minutes : ℕ
max_minutes = 153722867

abbrev pub FitsInt64 : ℤ → Type 0
FitsInt64 m = m ≤ℤ pos max_minutes

abbrev pub DistinctIds : List Slot → Type 0
DistinctIds = AllPairs (λ s t. s.id ≢ t.id)
