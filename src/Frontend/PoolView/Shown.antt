-- ===== src/Frontend/PoolView/Shown.antt =====
-- Which slot a cell of the running grid of frontend/src/components/PoolView.tsx shows, and how tall
-- the cards are.
use qlab.Base.{
  ℕ, ◌+◌, ◌*◌, ◌/◌, ◌&&◌, ◌≤◌, ◌≡◌, refl, sym, ap, subst, ◌≢◌, ◌↔◌, inl, inr, true, false, ◌∙◌,
  List, [], ◌∷◌, map, Option, none, some, String, ℤ, pos, negsuc, ◌≤ℤ◌, arith, All, Any, AllPairs,
  str_eq, eq_iff, find, Bool-cases,
}
use mathlib.Core.Option.{some-injective}
use qlab.Frontend.Proto.{active}
use qlab.Frontend.SlotUi.{SlotRow, ResourceCell, is_active}
use qlab.Frontend.PoolView.{clamped_height, height_for, gap_height_for, reach_height_for}
use qlab.Frontend.PoolView.Grid.{is_on, running_cells, active_rows}

-- No two rows are pinned to the same resource.
abbrev pub PinnedApart : SlotRow → SlotRow → Type 0
PinnedApart r q = (id : String) → r.resource_id ≡ some id → q.resource_id ≢ some id

-- The row is one of the rows, ACTIVE, and pinned to the resource.
abbrev pub RunsOn : List SlotRow → String → SlotRow → Type 0
RunsOn rows id row = Any (λ r. r ≡ row) rows × (row.status ≡ active) × (row.resource_id ≡ some id)

All-Any :
    (P : SlotRow → Type 0) (row : SlotRow) (rows : List SlotRow)
    → All P rows
    → Any (λ r. r ≡ row) rows
    → P row
All-Any P row [] h a = absurd a
All-Any P row (r ∷ rows) h (inl e) = subst P e h.0
All-Any P row (r ∷ rows) h (inr a) = All-Any P row rows h.1 a

is_active_iff : (row : SlotRow) → (is_active row.status ≡ true) ↔ (row.status ≡ active)
is_active_iff row = (λ h. ground arith, λ h. ground arith)

is_on_iff : (id : String) (row : SlotRow) → (is_on id row ≡ true) ↔ (row.resource_id ≡ some id)
is_on_iff id row = on_iff row.resource_id
  where
    on_iff :
        (o : Option String)
        → (elim o [ none ↦ false | some r ↦ str_eq r id ] ≡ true) ↔ (o ≡ some id)
    on_iff none = (λ h. ground arith, λ h. ground arith)
    on_iff (some r) = (λ h. ap some ((eq_iff r id).0 h), λ h. ground (arith, eq_iff r id))

-- What `find` gives on a longer list.
find_skip :
    (id : String) (r : SlotRow) (rows : List SlotRow)
    → (is_active r.status && is_on id r) ≡ false
    → find (is_on id) (active_rows (r ∷ rows)) ≡ find (is_on id) (active_rows rows)
unfolding active_rows
find_skip id r rows h = ground arith

find_here :
    (id : String) (r : SlotRow) (rows : List SlotRow)
    → (is_active r.status && is_on id r) ≡ true
    → find (is_on id) (active_rows (r ∷ rows)) ≡ some r
unfolding active_rows
find_here id r rows h = ground arith

find_on :
    (id : String) (rows : List SlotRow) (row : SlotRow)
    → AllPairs PinnedApart rows
    → (find (is_on id) (active_rows rows) ≡ some row) ↔ RunsOn rows id row
unfolding active_rows
find_on id [] row h = (λ e. ground arith, λ a. absurd a.0)
find_on id (r ∷ rows) row h =
    let ih = find_on id rows row h.1 in
    elim (Bool-cases (is_active r.status && is_on id r)) [
      | inl c ↦ (
        λ e.
            subst (RunsOn (r ∷ rows) id) (some-injective r row (sym (find_here id r rows c) ∙ e))
              (inl refl, (is_active_iff r).0 (ground arith), (is_on_iff id r).0 (ground arith)),
        λ a. elim a.0 [
          | inl e ↦ find_here id r rows c ∙ ap some e
          | inr b ↦
              absurd
                (All-Any (PinnedApart r) row rows h.0 b id ((is_on_iff id r).0 (ground arith)) a.2)
        ],
      )
      | inr c ↦ (
        λ e. let k = ih.0 (sym (find_skip id r rows c) ∙ e) in (inr k.0, k.1, k.2),
        λ a. elim a.0 [
          | inl e ↦ absurd (shown_twice e c (a.1, a.2))
          | inr b ↦ find_skip id r rows c ∙ ih.1 (b, a.1, a.2)
        ],
      )
    ]
  where
    shown_twice :
        r ≡ row
        → (is_active r.status && is_on id r) ≡ false
        → (row.status ≡ active) × (row.resource_id ≡ some id)
        → ⊥
    shown_twice e c k =
        let k' = subst (λ q. (q.status ≡ active) × (q.resource_id ≡ some id)) (sym e) k in
        ground (arith, is_active_iff r, is_on_iff id r)

rounded_mono : (a b : ℕ) → a ≤ b → (16 * a + 5) / 10 ≤ (16 * b + 5) / 10
rounded_mono a b h = omega arith

height_mono :
    (lo hi : ℕ) (a b : ℤ)
    → lo ≤ hi
    → a ≤ℤ b
    → (lo ≤ clamped_height lo hi a)
      × (clamped_height lo hi a ≤ clamped_height lo hi b)
      × (clamped_height lo hi b ≤ hi)
unfolding clamped_height
height_mono lo hi (pos a) (pos b) k h = ground (arith, rounded_mono a b (omega arith))
height_mono lo hi (negsuc a) (pos b) k h = ground arith
height_mono lo hi (negsuc a) (negsuc b) k h = ground arith
height_mono lo hi (pos a) (negsuc b) k h = ground arith

-- `heightFor`, `gapHeightFor` and `reachHeightFor` stay between their floors and their ceilings, and
-- a longer time is never drawn shorter.
pub heights_bounds :
    (a b : ℤ) (m n : ℕ)
    → a ≤ℤ b
    → m ≤ n
    → ((64 ≤ height_for a) × (height_for a ≤ height_for b) × (height_for b ≤ 320))
      × ((36 ≤ gap_height_for m) × (gap_height_for m ≤ gap_height_for n) × (gap_height_for n ≤ 160))
      × ((32 ≤ reach_height_for m)
          × (reach_height_for m ≤ reach_height_for n)
          × (reach_height_for n ≤ 200))
unfolding height_for gap_height_for reach_height_for
heights_bounds a b m n h k = (
  height_mono 64 320 a b (omega arith) h,
  height_mono 36 160 (pos m) (pos n) (omega arith) (omega arith),
  height_mono 32 200 (pos m) (pos n) (omega arith) (omega arith),
)

-- When no two rows are pinned to the same resource, the grid has one cell for each resource, in
-- their order, and a cell shows a row exactly when that row is ACTIVE and pinned to its resource.
pub running_cells_iff :
    (resources : List ResourceCell) (rows : List SlotRow)
    → AllPairs PinnedApart rows
    → (map (λ c. c.0) (running_cells resources (active_rows rows)) ≡ resources)
      × All
          (λ c. (row : SlotRow) → (c.1 ≡ some row) ↔ RunsOn rows c.0.id row)
          (running_cells resources (active_rows rows))
unfolding running_cells
running_cells_iff [] rows h = (refl, tt)
running_cells_iff (r ∷ resources) rows h =
    let ih = running_cells_iff resources rows h in
    (ap (λ rs. r ∷ rs) ih.0, (λ row. find_on r.id rows row h, ih.1))
