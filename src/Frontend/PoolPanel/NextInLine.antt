-- ===== src/Frontend/PoolPanel/NextInLine.antt =====
-- Who is next in line, and what the viewer may do to whom, in frontend/src/components/PoolPanel.tsx.
use mathlib.Core.Bool.{false≢true}
use qlab.Base.{
  ℕ, ◌≡◌, refl, sym, ◌∙◌, subst, ◌≢◌, ◌↔◌, ◌⊎◌, inl, inr, true, false, not, ◌&&◌, ◌||◌,
  if◌then◌else◌, Option-cases, List, [], ◌∷◌, none, some, ◌≤ℤ◌, arith, All, str_eq, eq_iff, keep,
  keep_here, keep_skip, Option, ap, ◌<ℤ◌, ltb→lt, ltb_ℤ, ltb_ℤ→ge, Bool-cases,
}
use qlab.Frontend.Proto.{scheduled, SlotMessage, RescheduleResult}
use qlab.Frontend.PoolPanel.{
  MapContext, is_overrun, reclaimable, lesser, least, is_runnable, next_in_line,
  you_are_next_in_line, row_of,
}

module _ {Timestamp : Type 0} where
  none_ne : (m : SlotMessage Timestamp) → none ≡ some m → ⊥
  none_ne m p = cc

  some_path : (x y : SlotMessage Timestamp) → some x ≡ some y → x ≡ y
  some_path x y p = cc

  -- SCHEDULED, and not flagged reclaimable.
  abbrev pub IsWaiting : RescheduleResult Timestamp → SlotMessage Timestamp → Type 0
  IsWaiting result s = (s.status ≡ scheduled) × (reclaimable result s.id ≡ false)

  -- No waiting slot of the list has a lesser priority number.
  abbrev pub IsAhead :
      RescheduleResult Timestamp → SlotMessage Timestamp → List (SlotMessage Timestamp) → Type 0
  IsAhead result n = All (λ s. IsWaiting result s → n.slot_priority ≤ℤ s.slot_priority)

  -- The front-most of the waiting slots of the list: it is one of them, the waiting ones before it have
  -- greater priority numbers, and those behind it no lesser ones.
  abbrev pub IsFront :
      RescheduleResult Timestamp → List (SlotMessage Timestamp) → SlotMessage Timestamp → Type 0
  IsFront result [] n = ⊥
  IsFront result (s ∷ ss) n =
      ((s ≡ n) × IsWaiting result n × IsAhead result n ss)
      ⊎ ((IsWaiting result s → n.slot_priority <ℤ s.slot_priority) × IsFront result ss n)

  module _ (result : RescheduleResult Timestamp) where
    is_runnable_iff :
        (s : SlotMessage Timestamp) → (is_runnable result s ≡ true) ↔ IsWaiting result s
    is_runnable_iff s = (λ h. ground arith, λ h. ground arith)

    not_waiting :
        (s : SlotMessage Timestamp) → is_runnable result s ≡ false → IsWaiting result s → ⊥
    not_waiting s c w = false≢true (sym c ∙ (is_runnable_iff s).1 w)

    -- What the reduce gives from a slot that is the least so far: that one, or a lesser one.
    abbrev Reduced :
        SlotMessage Timestamp
        → List (SlotMessage Timestamp)
        → Option (SlotMessage Timestamp)
        → Type 0
    Reduced min ss o =
        ((o ≡ some min) × IsAhead result min ss)
        ⊎ ((n : SlotMessage Timestamp) × (o ≡ some n)
            × (n.slot_priority <ℤ min.slot_priority)
            × IsFront result ss n)

    Reduced-skipped :
        (min s : SlotMessage Timestamp) (ss : List (SlotMessage Timestamp))
        (o : Option (SlotMessage Timestamp))
        → is_runnable result s ≡ false
        → Reduced min ss o
        → Reduced min (s ∷ ss) o
    Reduced-skipped min s ss o c (inl (e, a)) = inl (e, (λ w. absurd (not_waiting s c w), a))
    Reduced-skipped min s ss o c (inr (n, e, l, f)) =
        inr (n, e, l, inr (λ w. absurd (not_waiting s c w), f))

    Reduced-taken :
        (min s : SlotMessage Timestamp) (ss : List (SlotMessage Timestamp))
        (o : Option (SlotMessage Timestamp))
        → IsWaiting result s
        → s.slot_priority <ℤ min.slot_priority
        → Reduced s ss o
        → Reduced min (s ∷ ss) o
    Reduced-taken min s ss o w l (inl (e, a)) = inr (s, e, l, inl (refl, w, a))
    Reduced-taken min s ss o w l (inr (n, e, k, f)) = inr (n, e, omega arith, inr (λ _. k, f))

    Reduced-passed :
        (min s : SlotMessage Timestamp) (ss : List (SlotMessage Timestamp))
        (o : Option (SlotMessage Timestamp))
        → min.slot_priority ≤ℤ s.slot_priority
        → Reduced min ss o
        → Reduced min (s ∷ ss) o
    Reduced-passed min s ss o l (inl (e, a)) = inl (e, (λ _. l, a))
    Reduced-passed min s ss o l (inr (n, e, k, f)) = inr (n, e, k, inr (λ _. omega arith, f))

    least-Reduced :
        (ss : List (SlotMessage Timestamp)) (min : SlotMessage Timestamp)
        → Reduced min ss (least (some min) (keep (is_runnable result) ss))
    unfolding least
    least-Reduced [] min = inl (refl, tt)
    least-Reduced (s ∷ ss) min = elim (Bool-cases (is_runnable result s)) [
      | inr c ↦
          rw (keep_skip (is_runnable result) s ss c)
            (Reduced-skipped min s ss _ c (least-Reduced ss min))
      | inl c ↦ rw (keep_here (is_runnable result) s ss c) (
          reduced c (Bool-cases (ltb_ℤ s.slot_priority min.slot_priority)) (least-Reduced ss s)
            (least-Reduced ss min))
    ]
      where
        reduced :
            is_runnable result s ≡ true
            → (ltb_ℤ s.slot_priority min.slot_priority ≡ true)
              ⊎ (ltb_ℤ s.slot_priority min.slot_priority ≡ false)
            → Reduced s ss (least (some s) (keep (is_runnable result) ss))
            → Reduced min ss (least (some min) (keep (is_runnable result) ss))
            → Reduced min
                (s ∷ ss)
                (least (some (lesser (some min) s)) (keep (is_runnable result) ss))
        reduced c (inl l) k h =
            rw l
              (Reduced-taken min s ss _ ((is_runnable_iff s).0 c) (omega (arith, ltb→lt _ _ l)) k)
        reduced c (inr l) k h =
            rw l (Reduced-passed min s ss _ (ltb_ℤ→ge s.slot_priority min.slot_priority l) h)

    -- What the reduce gives from nothing.
    abbrev Found : List (SlotMessage Timestamp) → Option (SlotMessage Timestamp) → Type 0
    Found ss o =
        ((o ≡ none) × All (λ s. IsWaiting result s → ⊥) ss)
        ⊎ ((n : SlotMessage Timestamp) × (o ≡ some n) × IsFront result ss n)

    Found-skipped :
        (s : SlotMessage Timestamp) (ss : List (SlotMessage Timestamp))
        (o : Option (SlotMessage Timestamp))
        → is_runnable result s ≡ false
        → Found ss o
        → Found (s ∷ ss) o
    Found-skipped s ss o c (inl (e, a)) = inl (e, (not_waiting s c, a))
    Found-skipped s ss o c (inr (n, e, f)) = inr (n, e, inr (λ w. absurd (not_waiting s c w), f))

    Found-taken :
        (s : SlotMessage Timestamp) (ss : List (SlotMessage Timestamp))
        (o : Option (SlotMessage Timestamp))
        → IsWaiting result s
        → Reduced s ss o
        → Found (s ∷ ss) o
    Found-taken s ss o w (inl (e, a)) = inr (s, e, inl (refl, w, a))
    Found-taken s ss o w (inr (n, e, k, f)) = inr (n, e, inr (λ _. k, f))

    least-Found :
        (ss : List (SlotMessage Timestamp)) → Found ss (least none (keep (is_runnable result) ss))
    unfolding least
    least-Found [] = inl (refl, tt)
    least-Found (s ∷ ss) = elim (Bool-cases (is_runnable result s)) [
      | inr c ↦ rw (keep_skip (is_runnable result) s ss c) (Found-skipped s ss _ c (least-Found ss))
      | inl c ↦
          rw (keep_here (is_runnable result) s ss c)
            (Found-taken s ss _ ((is_runnable_iff s).0 c) (least-Reduced ss s))
    ]

    -- What holds of the waiting slots of a list holds of its front-most one.
    IsFront-at :
        (P : SlotMessage Timestamp → Type 0) (ss : List (SlotMessage Timestamp))
        (n : SlotMessage Timestamp)
        → IsFront result ss n
        → All (λ s. IsWaiting result s → P s) ss
        → P n
    IsFront-at P [] n f a = absurd f
    IsFront-at P (s ∷ ss) n (inl (e, w, _)) a = subst P e (a.0 (subst (IsWaiting result) (sym e) w))
    IsFront-at P (s ∷ ss) n (inr (_, f)) a = IsFront-at P ss n f a.1

    -- There is at most one front-most slot.
    IsFront-unique :
        (ss : List (SlotMessage Timestamp)) (m n : SlotMessage Timestamp)
        → IsFront result ss m
        → IsFront result ss n
        → m ≡ n
    IsFront-unique [] m n f g = absurd f
    IsFront-unique (s ∷ ss) m n (inl (e, _, _)) (inl (d, _, _)) = sym e ∙ d
    IsFront-unique (s ∷ ss) m n (inr (_, f)) (inr (_, g)) = IsFront-unique ss m n f g
    IsFront-unique (s ∷ ss) m n (inl (e, w, a)) (inr (l, g)) =
        let k : n.slot_priority <ℤ s.slot_priority = l (subst (IsWaiting result) (sym e) w) in
        let b : m.slot_priority ≤ℤ n.slot_priority =
          IsFront-at (λ t. m.slot_priority ≤ℤ t.slot_priority) ss n g a in
        absurd (omega (arith, subst (λ t. n.slot_priority <ℤ t.slot_priority) e k))
    IsFront-unique (s ∷ ss) m n (inr (l, f)) (inl (d, w, a)) =
        let k : m.slot_priority <ℤ s.slot_priority = l (subst (IsWaiting result) (sym d) w) in
        let b : n.slot_priority ≤ℤ m.slot_priority =
          IsFront-at (λ t. n.slot_priority ≤ℤ t.slot_priority) ss m f a in
        absurd (omega (arith, subst (λ t. m.slot_priority <ℤ t.slot_priority) d k))

    next_in_line-IsFront :
        (n : SlotMessage Timestamp) → (next_in_line result ≡ some n) ↔ IsFront result result.slots n
    unfolding next_in_line
    next_in_line-IsFront n = elim (least-Found result.slots) [
      | inl (e, a) ↦ (
        λ h. absurd (none_ne n (sym e ∙ h)),
        λ f. absurd (IsFront-at (λ s. ⊥) result.slots n f a),
      )
      | inr (m, e, f) ↦ (
        λ h. subst (IsFront result result.slots) (some_path m n (sym e ∙ h)) f,
        λ g. e ∙ ap some (IsFront-unique result.slots m n f g),
      )
    ]

  your_slot-next :
      (result : RescheduleResult Timestamp) (ctx : MapContext)
      → (you_are_next_in_line result ctx ≡ true) ↔ (
          (n : SlotMessage Timestamp) × (next_in_line result ≡ some n)
          × (n.user_id ≡ ctx.current_user_id))
  unfolding you_are_next_in_line
  your_slot-next result ctx = elim (Option-cases (next_in_line result)) [
    | inl e ↦ rw e (λ h. absurd (false≢true h), λ (n, k, _). absurd (none_ne n k))
    | inr (m, e) ↦ rw e (
      λ h. (m, refl, (eq_iff m.user_id ctx.current_user_id).0 h),
      λ (n, k, u). (eq_iff m.user_id ctx.current_user_id).1 (rw (some_path m n k) u),
    )
  ]

module _ {Timestamp : Type 0} (timestamp_date : Timestamp → ℕ) where
  you_are_next-eq :
      (result : RescheduleResult Timestamp) (ctx : MapContext) (s : SlotMessage Timestamp)
      → (row_of timestamp_date result ctx s).you_are_next ≡ (
          if not (str_eq s.user_id ctx.current_user_id)
            && (is_overrun timestamp_date s ctx.now || reclaimable result s.id)
          then you_are_next_in_line result ctx
          else false)
  unfolding row_of
  you_are_next-eq result ctx s = refl

  next_facts :
      (result : RescheduleResult Timestamp) (ctx : MapContext) (s : SlotMessage Timestamp)
      → (row_of timestamp_date result ctx s).you_are_next ≡ true
      → (s.user_id ≢ ctx.current_user_id)
        × ((is_overrun timestamp_date s ctx.now ≡ true) ⊎ (reclaimable result s.id ≡ true))
        × (you_are_next_in_line result ctx ≡ true)
  next_facts result ctx s h =
      ground (arith, you_are_next-eq result ctx s, eq_iff s.user_id ctx.current_user_id)

  next_shown :
      (result : RescheduleResult Timestamp) (ctx : MapContext) (s : SlotMessage Timestamp)
      → s.user_id ≢ ctx.current_user_id
      → (is_overrun timestamp_date s ctx.now ≡ true) ⊎ (reclaimable result s.id ≡ true)
      → you_are_next_in_line result ctx ≡ true
      → (row_of timestamp_date result ctx s).you_are_next ≡ true
  next_shown result ctx s ne o y =
      ground (arith, you_are_next-eq result ctx s, eq_iff s.user_id ctx.current_user_id)

  -- The viewer is shown as next on a row exactly if the slot is someone else's, it is overrunning or
  -- reclaimable, and there is a front-most waiting slot, which is the viewer's: of the schedule's slots
  -- that are SCHEDULED and not reclaimable it has the least priority number, and it is the first such
  -- slot in the list.
  pub you_are_next_iff :
      (result : RescheduleResult Timestamp) (ctx : MapContext) (s : SlotMessage Timestamp)
      → ((row_of timestamp_date result ctx s).you_are_next ≡ true) ↔ (
          (s.user_id ≢ ctx.current_user_id)
          × ((is_overrun timestamp_date s ctx.now ≡ true) ⊎ (reclaimable result s.id ≡ true))
          × ((n : SlotMessage Timestamp) × (n.user_id ≡ ctx.current_user_id)
              × IsFront result result.slots n))
  you_are_next_iff result ctx s = (
    λ h.
        let f = next_facts result ctx s h in
        let (n, e, u) = (your_slot-next result ctx).0 f.2 in
        (f.0, f.1, (n, u, (next_in_line-IsFront result n).0 e)),
    λ (ne, o, (n, u, f)).
        next_shown result ctx s ne o
          ((your_slot-next result ctx).1 (n, (next_in_line-IsFront result n).1 f, u)),
  )
