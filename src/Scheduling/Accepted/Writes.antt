-- ===== src/Scheduling/Accepted/Writes.antt =====
-- What a write through the pointer of `findSlot`, in helpers.go of the scheduling service, changes.
use mathlib.Core.Option.{some-injective}
use qlab.Base.{
  ◌≡◌, refl, sym, ◌∙◌, subst, inl, inr, true, false, List, [], ◌∷◌, some, String, arith, All,
  AllPairs, All-imp, All-zip, Bool-cases, str_eq,
}
use qlab.Scheduling.Store.{Slot}
use qlab.Scheduling.Helpers.{find_slot, update_slot}

module _ (id : String) (t : Slot) where
  here : (s : Slot) (ss : List Slot) → str_eq s.id id ≡ true → find_slot (s ∷ ss) id ≡ some s
  unfolding find_slot
  here s ss c = rw c refl

  -- The slot that is found is the one that is written.
  pub found :
      (s : Slot) (ss : List Slot) → str_eq s.id id ≡ true → find_slot (s ∷ ss) id ≡ some t → s ≡ t
  unfolding find_slot
  found s ss c h = some-injective s t (sym (here s ss c) ∙ h)

  pub not_here :
      (s : Slot) (ss : List Slot)
      → str_eq s.id id ≡ false
      → find_slot (s ∷ ss) id ≡ some t
      → find_slot ss id ≡ some t
  unfolding find_slot
  not_here s ss c h = ground arith

  -- What holds of all slots holds of the one that is found.
  pub found-All : (P : Slot → Type 0) (ss : List Slot) → find_slot ss id ≡ some t → All P ss → P t
  unfolding find_slot
  found-All P [] e h = absurd (cc)
  found-All P (s ∷ ss) e h = elim (Bool-cases (str_eq s.id id)) [
    | inl c ↦ subst P (found s ss c e) h.0
    | inr c ↦ found-All P ss (not_here s ss c e) h.1
  ]

-- Writing one slot.
module _ (id : String) (f : Slot → Slot) (t : Slot) where
  pub update_slot-All :
      (P : Slot → Type 0) (ss : List Slot)
      → find_slot ss id ≡ some t
      → (P t → P (f t))
      → All P ss
      → All P (update_slot id f ss)
  unfolding update_slot
  update_slot-All P [] h k a = tt
  update_slot-All P (s ∷ ss) h k a = elim (Bool-cases (str_eq s.id id)) [
    | inl c ↦ rw c (subst (λ u. P u → P (f u)) (sym (found id t s ss c h)) k a.0, a.1)
    | inr c ↦ rw c (a.0, update_slot-All P ss (not_here id t s ss c h) k a.1)
  ]

  pub update_slot-AllPairs :
      (R : Slot → Slot → Type 0) (H : Slot → Type 0) (ss : List Slot)
      → find_slot ss id ≡ some t
      → ((u : Slot) → H u → R t u → R (f t) u)
      → ((u : Slot) → H u → R u t → R u (f t))
      → All H ss
      → AllPairs R ss
      → AllPairs R (update_slot id f ss)
  unfolding update_slot
  update_slot-AllPairs R H [] e k l h a = tt
  update_slot-AllPairs R H (s ∷ ss) e k l h a = elim (Bool-cases (str_eq s.id id)) [
    | inl c ↦ rw c (
      All-imp (λ u. H u × R s u) (R (f s)) ss
          (λ u q. subst (λ v. R v u → R (f v) u) (sym (found id t s ss c e)) (k u q.0) q.1)
          (All-zip H (R s) ss h.1 a.0),
      a.1,
    )
    | inr c ↦
        let e' = not_here id t s ss c e in
        rw c (update_slot-All (R s) ss e' (l s h.0) a.0, update_slot-AllPairs R H ss e' k l h.1 a.1)
  ]
