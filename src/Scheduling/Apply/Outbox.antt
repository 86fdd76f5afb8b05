-- ===== src/Scheduling/Apply/Outbox.antt =====
-- The notifications of `applyEngine` of backend/internal/services/scheduling/v1/convert.go: each is
-- built from a slot of the working set, but for the starts and the resource of that slot.
use qlab.Base.{
  ℕ, ◌≡◌, refl, sym, ◌∙◌, subst, ◌⊎◌, inl, inr, List, [], ◌∷◌, ◌++◌, Option, none, some, String, ℤ,
  arith, All, Bool-cases, Option-cases,
}
use qlab.DynamicQueue.Slot.{Queue}
use qlab.Scheduling.Store.{SlotStatus, scheduled, Slot, Resource}
use qlab.Scheduling.Convert.{build_engine_input}
use qlab.Scheduling.Apply.{
  Position, Applied, notices, place_scheduled, applied_slot, apply_loop, run_engine, apply_engine,
}
use qlab.Scheduling.Apply.Writes.{place_scheduled_lem}

module _ {Row : Type 0} (parse : String → Option String) (recommit : Slot → Row) where
  -- What one slot adds to the outbox.
  abbrev Adds : Slot → List Row → List Row → Type 0
  Adds s old new = (new ≡ old) ⊎ ((v : Slot) × (v.lab_id ≡ s.lab_id) × (new ≡ recommit v ∷ old))

  notices-Adds :
      (s : Slot) (p : Position) (rows : List Row) → Adds s rows (notices parse recommit s p rows)
  notices-Adds s p rows = elim (Bool-cases p.recommitted) [
    | inl c ↦ inr (record s { committed_start = p.actual_start }, refl, rw c refl)
    | inr c ↦ inl (rw c refl)
  ]

  step-Adds :
      (st : SlotStatus) (s : Slot) (queue : Queue) (rest : Option (Applied Row)) (a : Applied Row)
      → applied_slot parse recommit st s queue rest ≡ some a
      → (r : Applied Row) × (rest ≡ some r) × Adds s r.outbox a.outbox
  step-Adds scheduled s queue none a h = absurd (ground arith)
  step-Adds scheduled s queue (some r) a h = elim (Option-cases (place_scheduled parse s queue)) [
    | inl n ↦ absurd (ground arith)
    | inr (o, f) ↦
        let (p, q, x, y, z) = place_scheduled_lem parse s queue o f in
        let e : notices parse recommit o.0 o.1 r.outbox ≡ a.outbox = ground arith in
        let same : o.0.lab_id ≡ s.lab_id = ground arith in
        (
          r,
          refl,
          elim (notices-Adds o.0 o.1 r.outbox) [
            | inl k ↦ inl (sym e ∙ k)
            | inr (v, l, k) ↦ inr (v, l ∙ same, sym e ∙ k)
          ],
        )
  ]
  step-Adds st s queue none a h = absurd (ground arith)
  step-Adds st s queue (some r) a h = (r, refl, inl (ground arith))

  apply_loop-outbox :
      (Q : Row → Type 0) (lab : String) (queue : Queue) (working : List Slot) (a : Applied Row)
      → ((s : Slot) → s.lab_id ≡ lab → Q (recommit s))
      → All (λ s. s.lab_id ≡ lab) working
      → apply_loop parse recommit queue working ≡ some a
      → All Q a.outbox
  unfolding apply_loop
  apply_loop-outbox Q lab queue [] a f l h =
      let e : [] ≡ a.outbox = ground arith in subst (All Q) e tt
  apply_loop-outbox Q lab queue (s ∷ ss) a f l h =
      let (r, e, d) = step-Adds s.status s queue (apply_loop parse recommit queue ss) a h in
      let rest = apply_loop-outbox Q lab queue ss r f l.1 e in
      elim d [
        | inl k ↦ subst (All Q) (sym k) rest
        | inr (v, m, k) ↦ subst (All Q) (sym k) (f v (m ∙ l.0), rest)
      ]

  -- What holds of the notification of every slot of a lab holds of all that a run on the lab's slots
  -- sends.
  pub apply_engine-outbox :
      (Q : Row → Type 0) (lab pool : String) (working : List Slot) (resources : List Resource)
      (grace : ℤ) (now : ℕ) (a : Applied Row)
      → ((s : Slot) → s.lab_id ≡ lab → Q (recommit s))
      → All (λ s. s.lab_id ≡ lab) working
      → apply_engine parse recommit pool working resources grace now [] ≡ some a
      → All Q a.outbox
  unfolding apply_engine
  apply_engine-outbox Q lab pool working resources grace now a f l h =
      elim (Option-cases (run_engine (build_engine_input pool working resources grace now))) [
        | inl n ↦ absurd (ground arith)
        | inr (queue, n) ↦ elim (Option-cases (apply_loop parse recommit queue working)) [
          | inl g ↦ absurd (ground arith)
          | inr (b, g) ↦
              let e : [] ++ b.outbox ≡ a.outbox = ground arith in
              subst (All Q) e (apply_loop-outbox Q lab queue working b f l g)
        ]
      ]
