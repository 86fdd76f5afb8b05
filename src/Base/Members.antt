-- ===== src/Base/Members.antt =====
-- Membership of a list as a position in it, pairs of members, and sorting by a Boolean test.
use mathlib.Core.Path.{◌≡◌, refl, sym, ap, ◌∙◌}
use mathlib.Core.Logic.{◌⊎◌, inl, inr, ◌≢◌}
use mathlib.Core.Bool.{Bool, true, false}
use mathlib.Core.List.{List, [], ◌∷◌}
use qlab.Base.Tests.{if◌then◌else◌, Bool-cases}
use qlab.Base.Lists.{keep, any, All, AllPairs}

module _ {A : Type 0} where
  abbrev pub In : A → List A → Type 0
  In x [] = ⊥
  In x (y ∷ ys) = (x ≡ y) ⊎ In x ys

  pub All-In : (P : A → Type 0) (xs : List A) (x : A) → All P xs → In x xs → P x
  All-In P [] x h k = absurd k
  All-In P (y ∷ xs) x h (inl e) = rw e h.0
  All-In P (y ∷ xs) x h (inr k) = All-In P xs x h.1 k

  pub In-All : (P : A → Type 0) (xs : List A) → ((x : A) → In x xs → P x) → All P xs
  In-All P [] f = tt
  In-All P (x ∷ xs) f = (f x (inl refl), In-All P xs (λ y k. f y (inr k)))

  pub In-keep : (p : A → Bool) (xs : List A) (x : A) → In x xs → p x ≡ true → In x (keep p xs)
  In-keep p [] x k h = k
  In-keep p (y ∷ xs) x (inl e) h = rw (ap p (sym e) ∙ h) (inl e)
  In-keep p (y ∷ xs) x (inr k) h = elim (Bool-cases (p y)) [
    | inl c ↦ rw c (inr (In-keep p xs x k h))
    | inr c ↦ rw c (In-keep p xs x k h)
  ]

  pub keep-In : (p : A → Bool) (xs : List A) (x : A) → In x (keep p xs) → In x xs × (p x ≡ true)
  keep-In p [] x k = absurd k
  keep-In p (y ∷ xs) x k = split (Bool-cases (p y)) (λ l. keep-In p xs x l)
    where
      kept :
          p y ≡ true
          → (In x (keep p xs) → In x xs × (p x ≡ true))
          → In x (y ∷ keep p xs)
          → In x (y ∷ xs) × (p x ≡ true)
      kept c f (inl e) = (inl e, ap p e ∙ c)
      kept c f (inr l) = (inr (f l).0, (f l).1)

      split :
          (p y ≡ true) ⊎ (p y ≡ false)
          → (In x (keep p xs) → In x xs × (p x ≡ true))
          → In x (y ∷ xs) × (p x ≡ true)
      split (inl c) f = kept c f (rw c at k)
      split (inr c) f = let l = f (rw c at k) in (inr l.0, l.1)

  -- Two different members stand in a symmetric relation between all pairs.
  pub AllPairs-In :
      (R : A → A → Type 0) (xs : List A) (x y : A)
      → ((a b : A) → R a b → R b a)
      → AllPairs R xs
      → In x xs
      → In y xs
      → x ≢ y
      → R x y
  AllPairs-In R [] x y s h k l n = absurd k
  AllPairs-In R (a ∷ xs) x y s h (inl e) (inl f) n = absurd (n (e ∙ sym f))
  AllPairs-In R (a ∷ xs) x y s h (inl e) (inr l) n = rw e (All-In (R a) xs y h.0 l)
  AllPairs-In R (a ∷ xs) x y s h (inr k) (inl f) n = s y x (rw f (All-In (R a) xs x h.0 k))
  AllPairs-In R (a ∷ xs) x y s h (inr k) (inr l) n = AllPairs-In R xs x y s h.1 k l n

  pub In-AllPairs :
      (D R : A → A → Type 0) (xs : List A)
      → ((x y : A) → In x xs → In y xs → D x y → R x y)
      → AllPairs D xs
      → AllPairs R xs
  In-AllPairs D R [] f h = tt
  In-AllPairs D R (x ∷ xs) f h = (
    ahead xs (λ y k. f x y (inl refl) (inr k)) h.0,
    In-AllPairs D R xs (λ a b k l. f a b (inr k) (inr l)) h.1,
  )
    where
      ahead : (ys : List A) → ((y : A) → In y ys → D x y → R x y) → All (D x) ys → All (R x) ys
      ahead [] g a = tt
      ahead (y ∷ ys) g a = (g y (inl refl) a.0, ahead ys (λ z k. g z (inr k)) a.1)

  -- `ORDER BY`: a stable insertion sort, by a test that the first comes before the second.
  unfoldable pub insert_by : (A → A → Bool) → A → List A → List A
  insert_by before x [] = x ∷ []
  insert_by before x (y ∷ ys) = if before y x then y ∷ insert_by before x ys else x ∷ y ∷ ys

  unfoldable pub sort_by : (A → A → Bool) → List A → List A
  unfolding insert_by
  sort_by before [] = []
  sort_by before (x ∷ xs) = insert_by before x (sort_by before xs)

  All-insert_by :
      (P : A → Type 0) (before : A → A → Bool) (x : A) (ys : List A)
      → P x
      → All P ys
      → All P (insert_by before x ys)
  unfolding insert_by
  All-insert_by P before x [] p h = (p, tt)
  All-insert_by P before x (y ∷ ys) p h = elim (Bool-cases (before y x)) [
    | inl c ↦ rw c (h.0, All-insert_by P before x ys p h.1)
    | inr c ↦ rw c (p, h)
  ]

  pub All-sort_by :
      (P : A → Type 0) (before : A → A → Bool) (xs : List A) → All P xs → All P (sort_by before xs)
  unfolding sort_by
  All-sort_by P before [] h = tt
  All-sort_by P before (x ∷ xs) h =
      All-insert_by P before x (sort_by before xs) h.0 (All-sort_by P before xs h.1)

  insert_by-pairs :
      (R : A → A → Type 0) (before : A → A → Bool) (x : A) (ys : List A)
      → ((a b : A) → R a b → R b a)
      → All (R x) ys
      → AllPairs R ys
      → AllPairs R (insert_by before x ys)
  unfolding insert_by
  insert_by-pairs R before x [] s h k = (tt, tt)
  insert_by-pairs R before x (y ∷ ys) s h k = elim (Bool-cases (before y x)) [
    | inl c ↦
        rw c
          (All-insert_by (R y) before x ys (s x y h.0) k.0, insert_by-pairs R before x ys s h.1 k.1)
    | inr c ↦ rw c (h, k)
  ]

  pub sort_by-pairs :
      (R : A → A → Type 0) (before : A → A → Bool) (xs : List A)
      → ((a b : A) → R a b → R b a)
      → AllPairs R xs
      → AllPairs R (sort_by before xs)
  unfolding sort_by
  sort_by-pairs R before [] s h = tt
  sort_by-pairs R before (x ∷ xs) s h =
      insert_by-pairs R before x (sort_by before xs) s (All-sort_by (R x) before xs h.0)
        (sort_by-pairs R before xs s h.1)

  insert_by-In :
      (before : A → A → Bool) (x : A) (ys : List A) (y : A)
      → (y ≡ x) ⊎ In y ys
      → In y (insert_by before x ys)
  unfolding insert_by
  insert_by-In before x [] y (inl e) = inl e
  insert_by-In before x [] y (inr k) = absurd k
  insert_by-In before x (z ∷ ys) y h = elim (Bool-cases (before z x)) [
    | inl c ↦ rw c (later h (insert_by-In before x ys y))
    | inr c ↦ rw c h
  ]
    where
      later :
          (y ≡ x) ⊎ ((y ≡ z) ⊎ In y ys)
          → ((y ≡ x) ⊎ In y ys → In y (insert_by before x ys))
          → (y ≡ z) ⊎ In y (insert_by before x ys)
      later (inl e) f = inr (f (inl e))
      later (inr (inl e)) f = inl e
      later (inr (inr k)) f = inr (f (inr k))

  pub sort_by-In :
      (before : A → A → Bool) (xs : List A) (x : A) → In x xs → In x (sort_by before xs)
  unfolding sort_by
  sort_by-In before [] x k = absurd k
  sort_by-In before (y ∷ xs) x (inl e) = insert_by-In before y (sort_by before xs) x (inl e)
  sort_by-In before (y ∷ xs) x (inr k) =
      insert_by-In before y (sort_by before xs) x (inr (sort_by-In before xs x k))

pub any-In :
    {A : Type 0} (p : A → Bool) (xs : List A) (x : A) → In x xs → p x ≡ true → any p xs ≡ true
any-In p [] x k h = absurd k
any-In p (y ∷ xs) x (inl e) h = rw (ap p (sym e) ∙ h) refl
any-In p (y ∷ xs) x (inr k) h = elim (Bool-cases (p y)) [
  | inl c ↦ rw c refl
  | inr c ↦ rw c (any-In p xs x k h)
]
