-- ===== src/DynamicQueue/Intervals/Holds.antt =====
-- Which spans the free intervals of a resource hold, and the order of the intervals.
use qlab.Base.{ℕ, ◌≤◌, ◌≡◌, ◌⊎◌, inl, inr, true, false, List, [], ◌∷◌, ◌++◌, arith, Any}
use qlab.DynamicQueue.Intervals.{Interval, contains}

-- The span [s, e) lies within the interval.
abbrev pub Holds : Interval → ℕ → ℕ → Type 0
Holds iv s e = (iv.start ≤ s) × ((iv.open_ended ≡ true) ⊎ (e ≤ iv.end))

abbrev pub HoldsAny : List Interval → ℕ → ℕ → Type 0
HoldsAny ivs s e = Any (λ iv. Holds iv s e) ivs

-- Disjoint intervals in the order of their starts, from `lo` on, the last one open-ended.
abbrev pub Ordered : ℕ → List Interval → Type 0
Ordered lo [] = ⊥
Ordered lo (iv ∷ ivs) =
    (lo ≤ iv.start)
    × (((iv.open_ended ≡ true) × (ivs ≡ []))
        ⊎ ((iv.open_ended ≡ false) × (iv.start ≤ iv.end) × Ordered iv.end ivs))

pub contains→Holds : (iv : Interval) (s e : ℕ) → contains iv s e ≡ true → Holds iv s e
unfolding contains
contains→Holds iv s e h = ground arith

pub Holds→contains : (iv : Interval) (s e : ℕ) → Holds iv s e → contains iv s e ≡ true
unfolding contains
Holds→contains iv s e h = ground arith

pub Ordered-from :
    (lo : ℕ) (ivs : List Interval) (s e : ℕ) → Ordered lo ivs → HoldsAny ivs s e → lo ≤ s
Ordered-from lo [] s e o h = absurd h
Ordered-from lo (iv ∷ ivs) s e o (inl h) = omega arith
Ordered-from lo (iv ∷ []) s e o (inr h) = absurd h
Ordered-from lo (iv ∷ jv ∷ ivs) s e (l, inl (_, n)) (inr h) = absurd (cc)
Ordered-from lo (iv ∷ jv ∷ ivs) s e (l, inr (_, b, o)) (inr h) =
    omega (arith, Ordered-from iv.end (jv ∷ ivs) s e o h)

pub Any-append_left : (P : Interval → Type 0) (xs ys : List Interval) → Any P xs → Any P (xs ++ ys)
Any-append_left P [] ys h = absurd h
Any-append_left P (x ∷ xs) ys (inl h) = inl h
Any-append_left P (x ∷ xs) ys (inr h) = inr (Any-append_left P xs ys h)

pub Any-append_right : (P : Interval → Type 0) (xs ys : List Interval) → Any P ys → Any P (xs ++ ys)
Any-append_right P [] ys h = h
Any-append_right P (x ∷ xs) ys h = inr (Any-append_right P xs ys h)

pub Any-append_cases :
    (P : Interval → Type 0) (xs ys : List Interval) → Any P (xs ++ ys) → Any P xs ⊎ Any P ys
Any-append_cases P [] ys h = inr h
Any-append_cases P (x ∷ xs) ys (inl h) = inl (inl h)
Any-append_cases P (x ∷ xs) ys (inr h) = elim (Any-append_cases P xs ys h) [
  | inl a ↦ inl (inr a)
  | inr b ↦ inr b
]
