-- ===== src/Scheduling/Apply/ReadOnly.antt =====
-- What a read of the schedule shows, against what an event would persist.
use mathlib.Core.Path.{ap₂}
use qlab.Base.{
  ℕ, ◌≡◌, refl, ap, ◌≢◌, inl, inr, true, false, List, [], ◌∷◌, ◌++◌, map, keep, Option, none, some,
  String, ℤ, arith, All, All-imp, In, lookup, Bool-cases, Option-cases,
}
use qlab.DynamicQueue.Slot.{Queue, zero_time}
use qlab.Scheduling.Store.{
  SlotStatus, unknown, scheduled, active, complete, cancelled, no_show, Slot, Resource,
}
use qlab.Scheduling.Apply.{
  Position, Schedule, place_scheduled, shown, shown_as_is, shown_slot, compute_loop, Applied,
  applied, applied_as_is, applied_slot, apply_loop, after_extra, apply_queue, show_queue,
  apply_engine, compute_schedule,
}

-- A slot without its committed start.
abbrev pub uncommitted : Slot → Slot
uncommitted s = record s { committed_start = zero_time }

-- A slot's id and the start that it is committed to, and those of a position.
abbrev pub start_told : Slot → String × ℕ
start_told s = (s.id, s.committed_start)

abbrev pub start_set : Position → String × ℕ
start_set p = (p.slot_id, p.actual_start)

-- Who is told, by an outbox that begins with `extra`: the slots of the re-committed positions, in
-- their order, with the new start as their committed one, and as the schedule shows them.
pub record Tells {Row : Type 0} (recommit : Slot → Row) (extra : List Row) (ps : List Position)
    (a : Applied Row) : Type 0 where
  pub told : List Slot
  pub outbox : a.outbox ≡ extra ++ map recommit told
  pub starts : map start_told told ≡ map start_set (keep (λ p. p.recommitted) ps)
  pub shown : All (λ s. In s a.schedule.slots) told

-- The two fail together; or they show the same positions and the same slots, but for the committed
-- starts, and exactly the re-committed slots are told.
abbrev pub Agree :
    {Row : Type 0} → (Slot → Row) → List Row → Option Schedule → Option (Applied Row) → Type 0
Agree recommit extra none none = Unit
Agree recommit extra none (some a) = ⊥
Agree recommit extra (some c) none = ⊥
Agree recommit extra (some c) (some a) =
    (c.positions ≡ a.schedule.positions)
    × (map uncommitted c.slots ≡ map uncommitted a.schedule.slots)
    × Tells recommit extra c.positions a

-- A position is of the slot that it places.
place_scheduled-id :
    (parse : String → Option String) (s : Slot) (queue : Queue) (u : Slot) (p : Position)
    → place_scheduled parse s queue ≡ some (u, p)
    → u.id ≡ p.slot_id
unfolding place_scheduled
place_scheduled-id parse s queue u p h = elim (Option-cases (lookup s.id queue)) [
  | inl e ↦ absurd (ground arith)
  | inr (q, e) ↦ elim (Option-cases (parse q.assigned_resource)) [
    | inl f ↦ absurd (ground arith)
    | inr (r, f) ↦ ground arith
  ]
]

module _ {Row : Type 0} (parse : String → Option String) (recommit : Slot → Row) where
  shown-Agree :
      (o : Option (Slot × Position)) (c : Option Schedule) (a : Option (Applied Row))
      → ((s : Slot) (p : Position) → o ≡ some (s, p) → s.id ≡ p.slot_id)
      → Agree recommit [] c a
      → Agree recommit [] (shown parse o c) (applied parse recommit o a)
  shown-Agree none none none f h = tt
  shown-Agree none (some c) (some a) f h = tt
  shown-Agree none none (some a) f h = tt
  shown-Agree none (some c) none f h = tt
  shown-Agree (some (s, p)) none none f h = tt
  shown-Agree (some (s, p)) none (some a) f h = h
  shown-Agree (some (s, p)) (some c) none f h = h
  shown-Agree (some (s, p)) (some c) (some a) f (i, j, k) = elim (Bool-cases p.recommitted) [
    | inl t ↦
        let u : Slot = record s { committed_start = p.actual_start } in
        (
          ap (λ ps. p ∷ ps) i,
          rw t (ap (λ ss. uncommitted s ∷ ss) j),
          record {
            told = u ∷ k.told;
            outbox = rw t (ap (λ rows. recommit u ∷ rows) k.outbox);
            starts = rw t (ap₂ (λ id rest. (id, p.actual_start) ∷ rest) (f s p refl) k.starts);
            shown = rw t (inl refl, All-imp _ _ k.told (λ v l. inr l) k.shown);
          },
        )
    | inr t ↦ (
      ap (λ ps. p ∷ ps) i,
      rw t (ap (λ ss. uncommitted s ∷ ss) j),
      record {
        told = k.told;
        outbox = rw t k.outbox;
        starts = rw t k.starts;
        shown = rw t (All-imp _ _ k.told (λ v l. inr l) k.shown);
      },
    )
  ]

  running-Agree :
      (s : Slot) (c : Option Schedule) (a : Option (Applied Row))
      → Agree recommit [] c a
      → Agree recommit [] (shown_as_is parse s c) (applied_as_is parse recommit true s a)
  running-Agree s none none h = tt
  running-Agree s none (some a) h = h
  running-Agree s (some c) none h = h
  running-Agree s (some c) (some a) (i, j, k) = (
    i,
    ap (λ ss. uncommitted s ∷ ss) j,
    record {
      told = k.told;
      outbox = k.outbox;
      starts = k.starts;
      shown = All-imp _ _ k.told (λ v l. inr l) k.shown;
    },
  )

  settled-Agree :
      (s : Slot) (c : Option Schedule) (a : Option (Applied Row))
      → Agree recommit [] c a
      → Agree recommit [] c (applied_as_is parse recommit false s a)
  settled-Agree s none none h = tt
  settled-Agree s none (some a) h = h
  settled-Agree s (some c) none h = h
  settled-Agree s (some c) (some a) (i, j, k) =
      (i, j, record { told = k.told; outbox = k.outbox; starts = k.starts; shown = k.shown })

  slot-Agree :
      (status : SlotStatus) (s : Slot) (queue : Queue) (c : Option Schedule)
      (a : Option (Applied Row))
      → Agree recommit [] c a
      → Agree recommit []
          (shown_slot parse status s queue c)
          (applied_slot parse recommit status s queue a)
  slot-Agree scheduled s queue c a h =
      shown-Agree (place_scheduled parse s queue) c a (place_scheduled-id parse s queue) h
  slot-Agree active s queue c a h = running-Agree s c a h
  slot-Agree unknown s queue c a h = settled-Agree s c a h
  slot-Agree complete s queue c a h = settled-Agree s c a h
  slot-Agree cancelled s queue c a h = settled-Agree s c a h
  slot-Agree no_show s queue c a h = settled-Agree s c a h

  loop-Agree :
      (queue : Queue) (ss : List Slot)
      → Agree recommit [] (compute_loop parse queue ss) (apply_loop parse recommit queue ss)
  unfolding compute_loop apply_loop
  loop-Agree queue [] = (refl, refl, record { told = []; outbox = refl; starts = refl; shown = tt })
  loop-Agree queue (s ∷ ss) = slot-Agree s.status s queue _ _ (loop-Agree queue ss)

  queue-Agree :
      (pool : String) (working : List Slot) (resources : List Resource) (grace : ℤ) (now : ℕ)
      (extra : List Row) (o : Option Queue)
      → Agree recommit extra
          (show_queue parse recommit pool working resources grace now o)
          (apply_queue parse recommit pool working resources grace now extra o)
  queue-Agree pool working resources grace now extra none = tt
  queue-Agree pool working resources grace now extra (some queue) =
      extra-Agree (compute_loop parse queue working) (apply_loop parse recommit queue working)
        (loop-Agree queue working)
    where
      extra-Agree :
          (c : Option Schedule) (a : Option (Applied Row))
          → Agree recommit [] c a
          → Agree recommit extra c
              (after_extra parse recommit pool working resources grace now extra a)
      extra-Agree none none h = tt
      extra-Agree none (some a) h = h
      extra-Agree (some c) none h = h
      extra-Agree (some c) (some a) (i, j, k) = (
        i,
        j,
        record {
          told = k.told;
          outbox = ap (λ rows. extra ++ rows) k.outbox;
          starts = k.starts;
          shown = k.shown;
        },
      )

-- On a pool with resources, a read of the schedule fails exactly if the run after an event would
-- fail on the same rows. If not, it shows the same positions, and the same live slots but for their
-- committed starts; and the run sends, after the event's own notifications, one for each slot that
-- was recommitted, in their order: it is built from the slot as the schedule then shows it, with the
-- new start as its committed one.
pub compute_schedule-Agree :
    {Row : Type 0} (parse : String → Option String) (recommit : Slot → Row) (pool : String)
    (working : List Slot) (resources : List Resource) (grace : ℤ) (now : ℕ) (extra : List Row)
    → resources ≢ []
    → Agree recommit extra
        (compute_schedule parse recommit pool working resources grace now)
        (apply_engine parse recommit pool working resources grace now extra)
unfolding compute_schedule apply_engine
compute_schedule-Agree parse recommit pool working [] grace now extra h = absurd (h refl)
compute_schedule-Agree parse recommit pool working (r ∷ rs) grace now extra h =
    queue-Agree parse recommit pool working (r ∷ rs) grace now extra _
