-- ===== src/DynamicQueue/Intervals/FirstFit.antt =====
-- The inner loop of `place`: the first fitting interval gives a resource's earliest start.
use mathlib.Core.Bool.{false≢true}
use qlab.Base.{
  ℕ, ◌+◌, ◌≤◌, ◌≡◌, refl, sym, ◌∙◌, inl, inr, true, false, List, [], ◌∷◌, String, pos, arith,
  Bool-cases,
}
use qlab.DynamicQueue.Intervals.{Interval, Best, contains, fits, later_of, improve, scan_intervals}
use qlab.DynamicQueue.Intervals.Holds.{
  Holds, HoldsAny, Ordered, contains→Holds, Holds→contains, Ordered-from,
}
use qlab.DynamicQueue.Intervals.Carve.{Ordered-tail}

pub fits-eq-contains : (iv : Interval) (t d : ℕ) → fits iv t (pos d) ≡ contains iv t (t + d)
unfolding fits contains
fits-eq-contains iv t d = refl

pub later_of_lem : (a b : ℕ) → (a ≤ later_of a b) × (b ≤ later_of a b)
unfolding later_of
later_of_lem a b = ground arith

pub later_of_least : (a b s : ℕ) → a ≤ s → b ≤ s → later_of a b ≤ s
unfolding later_of
later_of_least a b s h k = ground arith

module _ (rid : String) (earliest d : ℕ) where
  -- What the loop does on one resource, with `best` so far.
  pub record FirstFit (best : Best) (ivs : List Interval) : Type 0 where
    pub start : ℕ
    pub interval : Interval
    pub result : scan_intervals rid earliest (pos d) best ivs ≡ improve best rid start interval
    pub not_before : earliest ≤ start
    pub held : HoldsAny ivs start (start + d)
    pub least : (s : ℕ) → earliest ≤ s → HoldsAny ivs s (s + d) → start ≤ s

  here :
      (lo : ℕ) (best : Best) (iv : Interval) (ivs : List Interval)
      → Ordered lo (iv ∷ ivs)
      → contains iv (later_of iv.start earliest) (later_of iv.start earliest + d) ≡ true
      → FirstFit best (iv ∷ ivs)
  unfolding scan_intervals
  here lo best iv ivs o c = record {
    start = later_of iv.start earliest;
    interval = iv;
    result = rw (fits-eq-contains iv (later_of iv.start earliest) d, c) refl;
    not_before = (later_of_lem iv.start earliest).1;
    held = inl (contains→Holds iv _ _ c);
    least = least;
  }
    where
      least :
          (s : ℕ) → earliest ≤ s → HoldsAny (iv ∷ ivs) s (s + d) → later_of iv.start earliest ≤ s
      least s h (inl k) = later_of_least iv.start earliest s k.0 h
      least s h (inr k) =
          let t = Ordered-tail lo s (s + d) iv ivs o k in
          let f = Ordered-from iv.end ivs s (s + d) t.2 k in
          later_of_least iv.start earliest s (omega arith) h

  no_fit :
      (iv : Interval) (s : ℕ)
      → contains iv (later_of iv.start earliest) (later_of iv.start earliest + d) ≡ false
      → earliest ≤ s
      → Holds iv s (s + d)
      → ⊥
  no_fit iv s c h k = false≢true (
      sym c
      ∙ Holds→contains iv _ _
          (ground (arith, later_of_lem iv.start earliest, later_of_least iv.start earliest s)))

  later :
      (best : Best) (iv : Interval) (ivs : List Interval)
      → contains iv (later_of iv.start earliest) (later_of iv.start earliest + d) ≡ false
      → FirstFit best ivs
      → FirstFit best (iv ∷ ivs)
  unfolding scan_intervals
  later best iv ivs c f = record {
    start = f.start;
    interval = f.interval;
    result = rw (fits-eq-contains iv (later_of iv.start earliest) d, c) f.result;
    not_before = f.not_before;
    held = inr f.held;
    least = λ s h. elim [ inl k ↦ absurd (no_fit iv s c h k) | inr k ↦ f.least s h k ];
  }

  -- A list in order has an interval that fits, and the first one gives the earliest start.
  pub first_fit : (lo : ℕ) (best : Best) (ivs : List Interval) → Ordered lo ivs → FirstFit best ivs
  first_fit lo best [] o = absurd o
  first_fit lo best (iv ∷ ivs) o =
      elim (Bool-cases
        (contains iv (later_of iv.start earliest) (later_of iv.start earliest + d))) [
          | inl c ↦ here lo best iv ivs o c
          | inr c ↦ go c (λ lo'. first_fit lo' best ivs) o
        ]
    where
      go :
          contains iv (later_of iv.start earliest) (later_of iv.start earliest + d) ≡ false
          → ((lo' : ℕ) → Ordered lo' ivs → FirstFit best ivs)
          → Ordered lo (iv ∷ ivs)
          → FirstFit best (iv ∷ ivs)
      go c ih (l, inl (t, n)) =
          let b = later_of_lem iv.start earliest in absurd (no_fit iv _ c b.1 (b.0, inl t))
      go c ih (l, inr (t, m, r)) = later best iv ivs c (ih iv.end r)
