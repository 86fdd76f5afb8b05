-- ===== src/DynamicQueue/Reschedule/Sorting.antt =====
-- `sort.Slice` by priority keeps the slots.
use qlab.Base.{
  ◌≡◌, ◌⊎◌, inl, inr, List, [], ◌∷◌, All, All-imp, AllPairs, In, Bool-cases, ltb_ℤ, ltb_ℤ→le,
  ltb_ℤ→ge, le_ℤ_trans, ◌≤ℤ◌,
}
use qlab.DynamicQueue.Slot.{Slot}
use qlab.DynamicQueue.Reschedule.{insert_slot, sort_slots}

pub All-insert_slot :
    (P : Slot → Type 0) (s : Slot) (ts : List Slot) → P s → All P ts → All P (insert_slot s ts)
unfolding insert_slot
All-insert_slot P s [] p h = (p, tt)
All-insert_slot P s (t ∷ ts) p h = elim (Bool-cases (ltb_ℤ t.slot_priority s.slot_priority)) [
  | inl c ↦ rw c (h.0, All-insert_slot P s ts p h.1)
  | inr c ↦ rw c (p, h)
]

pub All-sort_slots : (P : Slot → Type 0) (ss : List Slot) → All P ss → All P (sort_slots ss)
unfolding sort_slots
All-sort_slots P [] h = tt
All-sort_slots P (s ∷ ss) h = All-insert_slot P s (sort_slots ss) h.0 (All-sort_slots P ss h.1)

insert_slot-pairs :
    (R : Slot → Slot → Type 0) (sym_R : (s t : Slot) → R s t → R t s) (s : Slot) (ts : List Slot)
    → All (R s) ts
    → AllPairs R ts
    → AllPairs R (insert_slot s ts)
unfolding insert_slot
insert_slot-pairs R sym_R s [] h k = (tt, tt)
insert_slot-pairs R sym_R s (t ∷ ts) h k =
    elim (Bool-cases (ltb_ℤ t.slot_priority s.slot_priority)) [
      | inl c ↦
          rw c
            (All-insert_slot (R t) s ts (sym_R s t h.0) k.0, insert_slot-pairs R sym_R s ts h.1 k.1)
      | inr c ↦ rw c (h, k)
    ]

-- A symmetric relation between all pairs of slots does not depend on their order.
pub sort_slots-pairs :
    (R : Slot → Slot → Type 0) (sym_R : (s t : Slot) → R s t → R t s) (ss : List Slot)
    → AllPairs R ss
    → AllPairs R (sort_slots ss)
unfolding sort_slots
sort_slots-pairs R sym_R [] h = tt
sort_slots-pairs R sym_R (s ∷ ss) h =
    insert_slot-pairs R sym_R s (sort_slots ss) (All-sort_slots (R s) ss h.0)
      (sort_slots-pairs R sym_R ss h.1)

insert_slot-In :
    (s : Slot) (ts : List Slot) (x : Slot) → (x ≡ s) ⊎ In x ts → In x (insert_slot s ts)
unfolding insert_slot
insert_slot-In s [] x h = h
insert_slot-In s (t ∷ ts) x h = elim (Bool-cases (ltb_ℤ t.slot_priority s.slot_priority)) [
  | inl c ↦ rw c (later h (insert_slot-In s ts x))
  | inr c ↦ rw c h
]
  where
    later :
        (x ≡ s) ⊎ ((x ≡ t) ⊎ In x ts)
        → ((x ≡ s) ⊎ In x ts → In x (insert_slot s ts))
        → (x ≡ t) ⊎ In x (insert_slot s ts)
    later (inl e) f = inr (f (inl e))
    later (inr (inl e)) f = inl e
    later (inr (inr k)) f = inr (f (inr k))

pub sort_slots-In : (ss : List Slot) (x : Slot) → In x ss → In x (sort_slots ss)
unfolding sort_slots
sort_slots-In [] x k = k
sort_slots-In (s ∷ ss) x (inl e) = insert_slot-In s (sort_slots ss) x (inl e)
sort_slots-In (s ∷ ss) x (inr k) = insert_slot-In s (sort_slots ss) x (inr (sort_slots-In ss x k))

-- By priority: no slot has a greater number than one behind it.
abbrev pub Sorted : List Slot → Type 0
Sorted = AllPairs (λ s t. s.slot_priority ≤ℤ t.slot_priority)

insert_slot-Sorted : (s : Slot) (ts : List Slot) → Sorted ts → Sorted (insert_slot s ts)
unfolding insert_slot
insert_slot-Sorted s [] h = (tt, tt)
insert_slot-Sorted s (t ∷ ts) h = elim (Bool-cases (ltb_ℤ t.slot_priority s.slot_priority)) [
  | inl c ↦ rw c (
    All-insert_slot (λ u. t.slot_priority ≤ℤ u.slot_priority) s ts
        (ltb_ℤ→le t.slot_priority s.slot_priority c) h.0,
    insert_slot-Sorted s ts h.1,
  )
  | inr c ↦
      let below = ltb_ℤ→ge t.slot_priority s.slot_priority c in
      rw c (
        (
          below,
          All-imp _ _ ts (λ u k. le_ℤ_trans s.slot_priority t.slot_priority u.slot_priority below k)
              h.0,
        ),
        h,
      )
]

pub sort_slots-Sorted : (ss : List Slot) → Sorted (sort_slots ss)
unfolding sort_slots
sort_slots-Sorted [] = tt
sort_slots-Sorted (s ∷ ss) = insert_slot-Sorted s (sort_slots ss) (sort_slots-Sorted ss)
