-- ===== src/DynamicQueue/Reschedule/Order.antt =====
-- The order in which `place` tries the resources: `sortedKeys` of the map that `buildFree` makes.
use Prim.Native.String.{compare, [] as empty_text, ◌∷◌ as ◌∷ₜ◌}
use Prim.Native.String.compare as text_compare
use text.Mathlib.Text.{is_lt}
use qlab.Base.{
  ℕ, ◌≡◌, refl, subst, ◌↔◌, ◌⊎◌, inl, inr, true, false, List, [], ◌∷◌, String, arith, Any, insert,
  eq_iff,
}
use qlab.DynamicQueue.Slot.{Resource, Input}
use qlab.DynamicQueue.Intervals.{
  Interval, FreeMap, get, free_from, seed_free, build_free, insert_key, sort_keys, keys,
  sorted_keys,
}
use qlab.DynamicQueue.Reschedule.Refines.{resource_order}

-- Ascending by bytes: no key is below the one before it.
abbrev pub Ascending : List String → Type 0
Ascending [] = Unit
Ascending (k ∷ []) = Unit
Ascending (k ∷ j ∷ js) = (is_lt (compare j k) ≡ false) × Ascending (j ∷ js)

compare_asymm : (s t : String) → is_lt (compare s t) ≡ true → is_lt (compare t s) ≡ false
compare_asymm empty_text empty_text h = ground arith
compare_asymm empty_text (◌∷ₜ◌ d t) h = ground (arith, text_compare.cons-nil d t)
compare_asymm (◌∷ₜ◌ c s) empty_text h = ground (arith, text_compare.cons-nil c s)
compare_asymm (◌∷ₜ◌ c s) (◌∷ₜ◌ d t) h =
    ground
      (arith, compare_asymm s t, text_compare.cons-cons c d s t, text_compare.cons-cons d c t s)

insert_key-Ascending : (k : String) (ks : List String) → Ascending ks → Ascending (insert_key k ks)
unfolding insert_key
insert_key-Ascending k [] a = tt
insert_key-Ascending k (j ∷ []) a = ground (arith, compare_asymm j k)
insert_key-Ascending k (j ∷ i ∷ js) a =
    ground (arith, compare_asymm j k, compare_asymm i k, insert_key-Ascending k (i ∷ js))

sort_keys-Ascending : (ks : List String) → Ascending (sort_keys ks)
unfolding sort_keys
sort_keys-Ascending [] = tt
sort_keys-Ascending (k ∷ ks) = insert_key-Ascending k (sort_keys ks) (sort_keys-Ascending ks)

Any-insert_key_self : (k : String) (ks : List String) → Any (λ j. j ≡ k) (insert_key k ks)
unfolding insert_key
Any-insert_key_self k [] = inl refl
Any-insert_key_self k (j ∷ js) = ground (arith, Any-insert_key_self k js)

Any-insert_key :
    (P : String → Type 0) (k : String) (ks : List String) → Any P ks → Any P (insert_key k ks)
unfolding insert_key
Any-insert_key P k [] a = absurd a
Any-insert_key P k (j ∷ js) a = ground (arith, Any-insert_key P k js)

module _ (k : String) where
  abbrev Has : List String → Type 0
  Has = Any (λ j. j ≡ k)

  insert_key-Has : (j : String) (ks : List String) → Has (insert_key j ks) → (j ≡ k) ⊎ Has ks
  unfolding insert_key
  insert_key-Has j [] (inl e) = inl e
  insert_key-Has j [] (inr a) = absurd a
  insert_key-Has j (i ∷ ks) a = ground (arith, insert_key-Has j ks)

  sort_keys-Has : (ks : List String) → Has (sort_keys ks) ↔ Has ks
  unfolding sort_keys
  sort_keys-Has [] = (λ a. a, λ a. a)
  sort_keys-Has (j ∷ ks) = (
    λ a. ground (arith, insert_key-Has j (sort_keys ks), sort_keys-Has ks),
    elim [
      | inl e ↦
          subst (λ i. Has (insert_key j (sort_keys ks))) e
            (subst (λ i. Any (λ h. h ≡ i) (insert_key j (sort_keys ks))) e
              (Any-insert_key_self j (sort_keys ks)))
      | inr a ↦ Any-insert_key (λ i. i ≡ k) j (sort_keys ks) ((sort_keys-Has ks).1 a)
    ],
  )

  insert-Has :
      (j : String) (v : List Interval) (m : FreeMap)
      → Has (keys (insert j v m)) ↔ ((j ≡ k) ⊎ Has (keys m))
  unfolding insert
  insert-Has j v [] = (λ a. a, λ a. a)
  insert-Has j v ((i, w) ∷ m) = (
    λ a. ground (arith, eq_iff i j, insert-Has j v m),
    λ a. ground (arith, eq_iff i j, insert-Has j v m),
  )

  seed_free-Has :
      (now : ℕ) (busy free : FreeMap) (rs : List Resource)
      → Has (keys (seed_free now busy free rs)) ↔ (Any (λ r. r.id ≡ k) rs ⊎ Has (keys free))
  unfolding seed_free
  seed_free-Has now busy free [] = (λ a. inr a, elim [ inl a ↦ absurd a | inr a ↦ a ])
  seed_free-Has now busy free (r ∷ rs) =
      let new = insert r.id (free_from now (get r.id busy)) free in
      let ih = seed_free-Has now busy new rs in
      let ins = insert-Has r.id (free_from now (get r.id busy)) free in
      (λ a. ground (arith, ih, ins), λ a. ground (arith, ih, ins))

-- `place` tries exactly the resources of the input, and tries them in ascending order of their ids.
pub resource_order_lem :
    (in' : Input)
    → Ascending (resource_order in')
      × ((k : String) → Any (λ j. j ≡ k) (resource_order in') ↔ Any (λ r. r.id ≡ k) in'.resources)
unfolding sorted_keys build_free
resource_order_lem in' = (
  sort_keys-Ascending (keys (build_free in'.resources in'.slots in'.now)),
  λ k.
      let s = sort_keys-Has k (keys (build_free in'.resources in'.slots in'.now)) in
      let f = seed_free-Has k in'.now _ [] in'.resources in
      (λ a. elim (f.0 (s.0 a)) [ inl b ↦ b | inr b ↦ absurd b ], λ a. s.1 (f.1 (inl a))),
)
