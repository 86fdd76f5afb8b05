-- ===== src/Scheduling/Apply/Writes.antt =====
-- What `applyEngine` of backend/internal/services/scheduling/v1/convert.go writes for a slot, and when
-- it succeeds.
use qlab.Base.{
  ℕ, ◌≡◌, refl, sym, subst, ◌⊎◌, inl, inr, true, false, List, [], ◌∷◌, Option, none, some, String,
  ℤ, arith, All, Option-cases, lookup,
}
use qlab.DynamicQueue.Slot.{Queue, SlotPosition}
use qlab.Scheduling.Store.{SlotStatus, scheduled, Slot, Resource, is_active, is_scheduled}
use qlab.Scheduling.Convert.{build_engine_input}
use qlab.Scheduling.Apply.{
  Position, Applied, committed, place_scheduled, applied_slot, apply_loop, after_extra, apply_queue,
  run_engine, apply_engine,
}

abbrev pub All2 : (Slot → Slot → Type 0) → List Slot → List Slot → Type 0
All2 R [] [] = Unit
All2 R (x ∷ xs) (y ∷ ys) = R x y × All2 R xs ys
All2 R _ _ = ⊥

module _ (parse : String → Option String) where
  -- The row that is written for a slot: only a SCHEDULED slot gets a resource, and it is one whose id
  -- was parsed.
  pub record Keeps (s w : Slot) : Type 0 where
    pub same_id : w.id ≡ s.id
    pub same_lab : w.lab_id ≡ s.lab_id
    pub same_pool : w.resource_pool_id ≡ s.resource_pool_id
    pub same_duration : w.duration_minutes ≡ s.duration_minutes
    pub same_lookahead : w.lookahead_minutes ≡ s.lookahead_minutes
    pub same_priority : w.priority ≡ s.priority
    pub same_status : w.status ≡ s.status
    pub resource :
        (w.resource_id ≡ s.resource_id)
        ⊎ ((is_active s.status ≡ false) × ((q : String) × (parse q ≡ some w.resource_id)))

  pub place_scheduled_lem :
      (s : Slot) (queue : Queue) (o : Slot × Position)
      → place_scheduled parse s queue ≡ some o
      → (p : SlotPosition) × (r : String) × (lookup s.id queue ≡ some p)
        × (parse p.assigned_resource ≡ some r)
        × (o.0 ≡ record s { actual_start = p.actual_start; resource_id = r })
  unfolding place_scheduled
  place_scheduled_lem s queue o h = elim (Option-cases (lookup s.id queue)) [
    | inl n ↦ absurd (ground arith)
    | inr (p, e) ↦ elim (Option-cases (parse p.assigned_resource)) [
      | inl n ↦ absurd (ground arith)
      | inr (r, f) ↦ (p, r, e, f, ground arith)
    ]
  ]

  -- Each SCHEDULED slot has a position, on a resource whose id parses.
  abbrev pub IsPlaced : Queue → Slot → Type 0
  IsPlaced queue s =
      is_scheduled s.status ≡ true
      → (p : SlotPosition) × (r : String) × (lookup s.id queue ≡ some p)
        × (parse p.assigned_resource ≡ some r)

module _ {Row : Type 0} (parse : String → Option String) (recommit : Slot → Row) where
  committed-Keeps :
      (s : Slot) (o : Slot × Position) (start : ℕ) (q r : String)
      → is_active s.status ≡ false
      → parse q ≡ some r
      → o.0 ≡ record s { actual_start = start; resource_id = r }
      → Keeps parse s (committed parse recommit o.0 o.1)
  committed-Keeps s (s', p) start q r n e f = record {
    same_id = ground arith;
    same_lab = ground arith;
    same_pool = ground arith;
    same_duration = ground arith;
    same_lookahead = ground arith;
    same_priority = ground arith;
    same_status = ground arith;
    resource = inr (n, (q, ground arith));
  }

  step_lem :
      (st : SlotStatus) (s : Slot) (queue : Queue) (rest : Option (Applied Row)) (a : Applied Row)
      → s.status ≡ st
      → applied_slot parse recommit st s queue rest ≡ some a
      → (r : Applied Row) × (w : Slot) × (rest ≡ some r)
        × (a.writes ≡ w ∷ r.writes)
        × Keeps parse s w
  step_lem scheduled s queue none a e h = absurd (ground arith)
  step_lem scheduled s queue (some r) a e h = elim (Option-cases (place_scheduled parse s queue)) [
    | inl n ↦ absurd (ground arith)
    | inr (o, f) ↦
        let (p, q, x, y, z) = place_scheduled_lem parse s queue o f in
        (
          r,
          committed parse recommit o.0 o.1,
          refl,
          ground arith,
          committed-Keeps s o p.actual_start p.assigned_resource q (ground arith) y z,
        )
  ]
  step_lem st s queue none a e h = absurd (ground arith)
  step_lem st s queue (some r) a e h = (
    r,
    s,
    refl,
    ground arith,
    record {
      same_id = refl;
      same_lab = refl;
      same_pool = refl;
      same_duration = refl;
      same_lookahead = refl;
      same_priority = refl;
      same_status = refl;
      resource = inl refl;
    },
  )

  pub apply_loop-Keeps :
      (queue : Queue) (working : List Slot) (a : Applied Row)
      → apply_loop parse recommit queue working ≡ some a
      → All2 (Keeps parse) working a.writes
  unfolding apply_loop
  apply_loop-Keeps queue [] a h =
      let e : [] ≡ a.writes = ground arith in subst (All2 (Keeps parse) []) e tt
  apply_loop-Keeps queue (s ∷ ss) a h =
      let (r, w, e, f, k) =
        step_lem s.status s queue (apply_loop parse recommit queue ss) a refl h in
      subst (All2 (Keeps parse) (s ∷ ss)) (sym f) (k, apply_loop-Keeps queue ss r e)

  step_applies :
      (st : SlotStatus) (s : Slot) (queue : Queue) (r : Applied Row)
      → s.status ≡ st
      → IsPlaced parse queue s
      → (a : Applied Row) × (applied_slot parse recommit st s queue (some r) ≡ some a)
  unfolding place_scheduled
  step_applies scheduled s queue r e h =
      let (p, q, f, g) = h (ground arith) in rw (f, place_scheduled) (rw g (_, refl))
  step_applies st s queue r e h = (_, refl)

  pub apply_loop-returns :
      (queue : Queue) (working : List Slot)
      → All (IsPlaced parse queue) working
      → (a : Applied Row) × (apply_loop parse recommit queue working ≡ some a)
  unfolding apply_loop
  apply_loop-returns queue [] h = (_, refl)
  apply_loop-returns queue (s ∷ ss) h =
      let (r, e) = apply_loop-returns queue ss h.1 in
      rw e (step_applies s.status s queue r refl h.0)

module _ {Row : Type 0} (parse : String → Option String) (recommit : Slot → Row) (pool : String)
    (working : List Slot) (resources : List Resource) (grace : ℤ) (now : ℕ) where
  after_extra-Keeps :
      (extra : List Row) (queue : Queue) (o : Option (Applied Row)) (a : Applied Row)
      → apply_loop parse recommit queue working ≡ o
      → after_extra parse recommit pool working resources grace now extra o ≡ some a
      → All2 (Keeps parse) working a.writes
  after_extra-Keeps extra queue none a e h = absurd (cc)
  after_extra-Keeps extra queue (some b) a e h =
      let same : b.writes ≡ a.writes = ground arith in
      subst (All2 (Keeps parse) working) same (apply_loop-Keeps parse recommit queue working b e)

  queue-Keeps :
      (extra : List Row) (o : Option Queue) (a : Applied Row)
      → apply_queue parse recommit pool working resources grace now extra o ≡ some a
      → All2 (Keeps parse) working a.writes
  queue-Keeps extra none a h = absurd (cc)
  queue-Keeps extra (some queue) a h =
      after_extra-Keeps extra queue (apply_loop parse recommit queue working) a refl h

  pub apply_engine-Keeps :
      (extra : List Row) (a : Applied Row)
      → apply_engine parse recommit pool working resources grace now extra ≡ some a
      → All2 (Keeps parse) working a.writes
  unfolding apply_engine
  apply_engine-Keeps extra a h =
      queue-Keeps extra (run_engine (build_engine_input pool working resources grace now)) a h
