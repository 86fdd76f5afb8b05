-- ===== src/Frontend/PoolView/Timeline.antt =====
-- The timeline that `buildSegments` of frontend/src/components/PoolView.tsx makes.
use qlab.Base.{
  ℕ, ◌+◌, ◌*◌, ◌≤◌, ◌<◌, ◌≡◌, ◌&&◌, leb, refl, sym, subst, inl, inr, Bool, true, false, List, [],
  ◌∷◌, ◌++◌, Option, none, some, arith, length, keep, ltb, Bool-cases,
}
use qlab.Frontend.SlotUi.{SlotRow}
use qlab.Frontend.PoolView.{
  Segment, slot_segment, gap_segment, end_of, or_epoch, or_cursor, minutes_between, gap_before,
  insert_row, sort_rows, segments_from, build_segments,
}

-- The rows that the timeline shows, from the top.
abbrev pub shown_rows : List Segment → List SlotRow
shown_rows [] = []
shown_rows (slot_segment key start row ∷ segments) = row ∷ shown_rows segments
shown_rows (gap_segment key start minutes ∷ segments) = shown_rows segments

-- No row starts before the one above it.
abbrev pub InOrder : List SlotRow → Type 0
InOrder [] = Unit
InOrder (r ∷ []) = Unit
InOrder (r ∷ q ∷ rows) = (or_epoch r.start ≤ or_epoch q.start) × InOrder (q ∷ rows)

-- No room for a gap: some time is unknown, or less than 4.5 minutes lie between.
abbrev pub Tight : Option ℕ → Option ℕ → Type 0
Tight none start = Unit
Tight (some cursor) none = Unit
Tight (some cursor) (some start) = start < cursor + 270000

-- A gap of whole minutes, rounded to the nearest, between two instants that are 4.5 minutes or more apart.
abbrev pub IsGap : Option ℕ → Option ℕ → ℕ → ℕ → Type 0
IsGap none start from minutes = ⊥
IsGap (some cursor) none from minutes = ⊥
IsGap (some cursor) (some start) from minutes =
    (from ≡ cursor)
    × (cursor + 270000 ≤ start)
    × (cursor + minutes * 60000 ≤ start + 30000)
    × (start + 30000 < cursor + minutes * 60000 + 60000)

-- From the end of the last row with a start: between two rows stands one gap if there is room for
-- it, and none otherwise; no gap stands at the end.
abbrev pub Tiles : Option ℕ → List Segment → Type 0
Tiles cursor [] = Unit
Tiles cursor (slot_segment key start row ∷ segments) =
    Tight cursor row.start × (start ≡ row.start) × Tiles (or_cursor (end_of row) cursor) segments
Tiles cursor (gap_segment key from minutes ∷ []) = ⊥
Tiles cursor (gap_segment key from minutes ∷ slot_segment key' start row ∷ segments) =
    IsGap cursor row.start from minutes
    × (start ≡ row.start)
    × Tiles (or_cursor (end_of row) cursor) segments
Tiles cursor (gap_segment key from minutes ∷ gap_segment key' from' minutes' ∷ segments) = ⊥

rounds :
    (cursor start : ℕ)
    → cursor < start
    → 5 ≤ minutes_between cursor start
    → IsGap (some cursor) (some start) cursor (minutes_between cursor start)
unfolding minutes_between
rounds cursor start h k = (refl, omega arith, omega arith, omega arith)

is_tight :
    (cursor start : ℕ)
    → (ltb cursor start && leb 5 (minutes_between cursor start)) ≡ false
    → start < cursor + 270000
unfolding minutes_between
is_tight cursor start h = ground arith

is_wide :
    (cursor start : ℕ)
    → (ltb cursor start && leb 5 (minutes_between cursor start)) ≡ true
    → (cursor < start) × (5 ≤ minutes_between cursor start)
is_wide cursor start h = (ground arith, ground arith)

tile :
    (cursor start : Option ℕ) (row : SlotRow) (segments : List Segment)
    → row.start ≡ start
    → Tiles (or_cursor (end_of row) cursor) segments
    → Tiles cursor
        (gap_before cursor start row ++ (slot_segment row.slot_id row.start row ∷ segments))
unfolding gap_before
tile none start row segments e h = (tt, refl, h)
tile (some cursor) none row segments e h = (subst (Tight (some cursor)) (sym e) tt, refl, h)
tile (some cursor) (some start) row segments e h =
    elim (Bool-cases (ltb cursor start && leb 5 (minutes_between cursor start))) [
      | inl c ↦
          let w = is_wide cursor start c in
          rw c (
            subst (λ o. IsGap (some cursor) o cursor (minutes_between cursor start)) (sym e)
                (rounds cursor start w.0 w.1),
            refl,
            h,
          )
      | inr c ↦ rw c (subst (Tight (some cursor)) (sym e) (is_tight cursor start c), refl, h)
    ]

segments_from-Tiles :
    (rows : List SlotRow) (cursor : Option ℕ) → Tiles cursor (segments_from cursor rows)
unfolding segments_from
segments_from-Tiles [] cursor = tt
segments_from-Tiles (row ∷ rows) cursor =
    tile cursor row.start row _ refl (segments_from-Tiles rows (or_cursor (end_of row) cursor))

shown_rows-gap :
    (cursor start : Option ℕ) (row : SlotRow) (segments : List Segment)
    → shown_rows (gap_before cursor start row ++ segments) ≡ shown_rows segments
unfolding gap_before
shown_rows-gap none start row segments = refl
shown_rows-gap (some cursor) none row segments = refl
shown_rows-gap (some cursor) (some start) row segments = ground arith

shown_rows-from :
    (rows : List SlotRow) (cursor : Option ℕ) → shown_rows (segments_from cursor rows) ≡ rows
unfolding segments_from
shown_rows-from [] cursor = refl
shown_rows-from (row ∷ rows) cursor =
    rw (shown_rows-gap cursor row.start row, shown_rows-from rows (or_cursor (end_of row) cursor))
      refl

insert_row-InOrder :
    (r : SlotRow) (rows : List SlotRow) → InOrder rows → InOrder (insert_row r rows)
unfolding insert_row
insert_row-InOrder r [] h = tt
insert_row-InOrder r (q ∷ []) h = ground arith
insert_row-InOrder r (q ∷ p ∷ rows) h = ground (arith, insert_row-InOrder r (p ∷ rows))

sort_rows-InOrder : (rows : List SlotRow) → InOrder (sort_rows rows)
unfolding sort_rows
sort_rows-InOrder [] = tt
sort_rows-InOrder (r ∷ rows) = insert_row-InOrder r (sort_rows rows) (sort_rows-InOrder rows)

count-insert_row :
    (p : SlotRow → Bool) (r : SlotRow) (rows : List SlotRow)
    → length (keep p (insert_row r rows)) ≡ length (keep p (r ∷ rows))
unfolding insert_row
count-insert_row p r [] = refl
count-insert_row p r (q ∷ rows) = ground (arith, count-insert_row p r rows)

count-sort_rows :
    (p : SlotRow → Bool) (rows : List SlotRow)
    → length (keep p (sort_rows rows)) ≡ length (keep p rows)
unfolding sort_rows
count-sort_rows p [] = refl
count-sort_rows p (r ∷ rows) =
    ground (arith, count-insert_row p r (sort_rows rows), count-sort_rows p rows)

-- The timeline shows the upcoming rows in the order of their starts, as many of each kind as there
-- are, and between two of them a gap exactly where there is room for one, as long as that room.
pub build_segments-Tiles :
    (rows : List SlotRow)
    → InOrder (shown_rows (build_segments rows))
      × ((p : SlotRow → Bool)
          → length (keep p (shown_rows (build_segments rows))) ≡ length (keep p rows))
      × Tiles none (build_segments rows)
unfolding build_segments
build_segments-Tiles rows = (
  subst InOrder (sym (shown_rows-from (sort_rows rows) none)) (sort_rows-InOrder rows),
  λ p. rw (shown_rows-from (sort_rows rows) none) (count-sort_rows p rows),
  segments_from-Tiles (sort_rows rows) none,
)
