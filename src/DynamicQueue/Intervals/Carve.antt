-- ===== src/DynamicQueue/Intervals/Carve.antt =====
-- What `carve` leaves free.
use mathlib.Core.Bool.{false≢true}
use qlab.Base.{
  sym, ◌∙◌, subst, ℕ, ◌≤◌, ◌<◌, ◌≡◌, refl, ◌⊎◌, inl, inr, true, false, List, [], ◌∷◌, ◌++◌, arith,
  Bool-cases,
}
use qlab.DynamicQueue.Intervals.{Interval, contains, fragments, carve_loop}
use qlab.DynamicQueue.Intervals.Holds.{
  Holds, HoldsAny, Ordered, contains→Holds, Holds→contains, Ordered-from, Any-append_left,
  Any-append_right, Any-append_cases,
}

pub carve_loop_done : (s e : ℕ) (ivs : List Interval) → carve_loop s e true ivs ≡ ivs
unfolding carve_loop
carve_loop_done s e [] = refl
carve_loop_done s e (iv ∷ ivs) = ground (arith, carve_loop_done s e ivs)

carve_loop_here :
    (s e : ℕ) (iv : Interval) (ivs : List Interval)
    → contains iv s e ≡ true
    → carve_loop s e false (iv ∷ ivs) ≡ fragments iv s e ++ ivs
unfolding carve_loop
carve_loop_here s e iv ivs h = rw (h, carve_loop_done s e ivs)

carve_loop_later :
    (s e : ℕ) (iv : Interval) (ivs : List Interval)
    → contains iv s e ≡ false
    → carve_loop s e false (iv ∷ ivs) ≡ iv ∷ carve_loop s e false ivs
unfolding carve_loop
carve_loop_later s e iv ivs h = rw h

-- A span of a fragment lies in the interval that was split, beside what was cut out.
fragments_sound :
    (iv : Interval) (s e a b : ℕ)
    → s < e
    → a < b
    → Holds iv s e
    → HoldsAny (fragments iv s e) a b
    → Holds iv a b × ((b ≤ s) ⊎ (e ≤ a))
unfolding fragments
fragments_sound iv s e a b p q h k = ground arith

fragments_complete :
    (iv : Interval) (s e a b : ℕ)
    → s < e
    → a < b
    → Holds iv s e
    → Holds iv a b
    → (b ≤ s) ⊎ (e ≤ a)
    → HoldsAny (fragments iv s e) a b
unfolding fragments
fragments_complete iv s e a b p q h k d = ground arith

-- An interval with others behind it is bounded, and they start after its end.
pub Ordered-tail :
    (lo a b : ℕ) (iv : Interval) (ivs : List Interval)
    → Ordered lo (iv ∷ ivs)
    → HoldsAny ivs a b
    → (iv.open_ended ≡ false) × (iv.start ≤ iv.end) × Ordered iv.end ivs
Ordered-tail lo a b iv [] o h = absurd h
Ordered-tail lo a b iv (jv ∷ ivs) (_, inl (_, n)) h = absurd (cc)
Ordered-tail lo a b iv (jv ∷ ivs) (_, inr o) h = o

behind :
    (lo s e a b : ℕ) (iv : Interval) (ivs : List Interval)
    → Ordered lo (iv ∷ ivs)
    → Holds iv s e
    → HoldsAny ivs a b
    → e ≤ a
behind lo s e a b iv ivs o h k =
    let t = Ordered-tail lo a b iv ivs o k in ground (arith, Ordered-from iv.end ivs a b t.2 k)

here_sound :
    (lo s e a b : ℕ) (iv : Interval) (ivs : List Interval)
    → s < e
    → a < b
    → Ordered lo (iv ∷ ivs)
    → Holds iv s e
    → HoldsAny (fragments iv s e ++ ivs) a b
    → HoldsAny (iv ∷ ivs) a b × ((b ≤ s) ⊎ (e ≤ a))
here_sound lo s e a b iv ivs p q o h k =
    elim (Any-append_cases (λ jv. Holds jv a b) (fragments iv s e) ivs k) [
      | inl f ↦ let r = fragments_sound iv s e a b p q h f in (inl r.0, r.1)
      | inr t ↦ (inr t, inr (behind lo s e a b iv ivs o h t))
    ]

later_held :
    (s e : ℕ) (iv : Interval) (ivs : List Interval)
    → contains iv s e ≡ false
    → HoldsAny (iv ∷ ivs) s e
    → HoldsAny ivs s e
later_held s e iv ivs c (inl h) = absurd (false≢true (sym c ∙ Holds→contains iv s e h))
later_held s e iv ivs c (inr h) = h

-- What is free after `carve` was free before, and lies beside the span that was cut out.
pub carve_sound :
    (lo s e a b : ℕ) (ivs : List Interval)
    → s < e
    → a < b
    → Ordered lo ivs
    → HoldsAny ivs s e
    → HoldsAny (carve_loop s e false ivs) a b
    → HoldsAny ivs a b × ((b ≤ s) ⊎ (e ≤ a))
carve_sound lo s e a b [] p q o h k = absurd o
carve_sound lo s e a b (iv ∷ ivs) p q o h k = elim (Bool-cases (contains iv s e)) [
  | inl c ↦
      here_sound lo s e a b iv ivs p q o (contains→Holds iv s e c)
        (subst (λ l. HoldsAny l a b) (carve_loop_here s e iv ivs c) k)
  | inr c ↦ elim (subst (λ l. HoldsAny l a b) (carve_loop_later s e iv ivs c) k) [
    | inl f ↦ (inl f, inl (behind lo a b s e iv ivs o f (later_held s e iv ivs c h)))
    | inr t ↦
        let h' = later_held s e iv ivs c h in
        let r = carve_sound iv.end s e a b ivs p q (Ordered-tail lo s e iv ivs o h').2 h' t in
        (inr r.0, r.1)
  ]
]

-- What was free beside the span is free after it.
pub carve_complete :
    (s e a b : ℕ) (ivs : List Interval)
    → s < e
    → a < b
    → HoldsAny ivs a b
    → (b ≤ s) ⊎ (e ≤ a)
    → HoldsAny (carve_loop s e false ivs) a b
carve_complete s e a b [] p q h d = absurd h
carve_complete s e a b (iv ∷ ivs) p q h d = elim (Bool-cases (contains iv s e)) [
  | inl c ↦ rw (carve_loop_here s e iv ivs c) (split (contains→Holds iv s e c) h)
  | inr c ↦ rw (carve_loop_later s e iv ivs c) (whole (carve_complete s e a b ivs p q) h)
]
  where
    split : Holds iv s e → HoldsAny (iv ∷ ivs) a b → HoldsAny (fragments iv s e ++ ivs) a b
    split k (inl f) =
        Any-append_left (λ jv. Holds jv a b) (fragments iv s e) ivs
          (fragments_complete iv s e a b p q k f d)
    split k (inr t) = Any-append_right (λ jv. Holds jv a b) (fragments iv s e) ivs t

    whole :
        (HoldsAny ivs a b → (b ≤ s) ⊎ (e ≤ a) → HoldsAny (carve_loop s e false ivs) a b)
        → HoldsAny (iv ∷ ivs) a b
        → HoldsAny (iv ∷ carve_loop s e false ivs) a b
    whole ih (inl f) = inl f
    whole ih (inr t) = inr (ih t d)

Ordered-weaken : (lo hi : ℕ) (ivs : List Interval) → lo ≤ hi → Ordered hi ivs → Ordered lo ivs
Ordered-weaken lo hi [] h o = o
Ordered-weaken lo hi (iv ∷ ivs) h (l, r) = (omega arith, r)

fragments-Ordered :
    (lo s e : ℕ) (iv : Interval) (ivs : List Interval)
    → s < e
    → Ordered lo (iv ∷ ivs)
    → Holds iv s e
    → Ordered lo (fragments iv s e ++ ivs)
unfolding fragments
fragments-Ordered lo s e iv ivs p (l, inl (t, n)) h = rw n (ground arith)
fragments-Ordered lo s e iv ivs p (l, inr (t, m, o)) h =
    ground (arith, Ordered-weaken lo iv.end ivs, Ordered-weaken s iv.end ivs)

-- `carve` keeps the list in order.
pub carve-Ordered :
    (lo s e : ℕ) (ivs : List Interval)
    → s < e
    → Ordered lo ivs
    → Ordered lo (carve_loop s e false ivs)
unfolding carve_loop
carve-Ordered lo s e [] p o = absurd o
carve-Ordered lo s e (iv ∷ ivs) p o = elim (Bool-cases (contains iv s e)) [
  | inl c ↦
      rw (carve_loop_here s e iv ivs c)
        (fragments-Ordered lo s e iv ivs p o (contains→Holds iv s e c))
  | inr c ↦ rw (carve_loop_later s e iv ivs c) (later (carve-Ordered iv.end s e ivs p) o)
]
  where
    later :
        (Ordered iv.end ivs → Ordered iv.end (carve_loop s e false ivs))
        → Ordered lo (iv ∷ ivs)
        → Ordered lo (iv ∷ carve_loop s e false ivs)
    later ih (l, inl (t, n)) = (l, inl (t, rw n refl))
    later ih (l, inr (t, m, r)) = (l, inr (t, m, ih r))
