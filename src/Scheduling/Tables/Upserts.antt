-- ===== src/Scheduling/Tables/Upserts.antt =====
-- What the upserts of `WithPool` leave in the slots table.
use qlab.Base.{
  ℕ, ◌≡◌, refl, sym, ap, ◌∙◌, ◌≢◌, ◌⊎◌, inl, inr, true, false, List, [], ◌∷◌, none, some, String,
  arith, All, AllPairs, All-imp, In, All-In, Bool-cases, Option-cases, str_eq, eq_iff,
}
use qlab.Scheduling.Store.{Slot}
use qlab.Scheduling.Notify.{OutboxRow}
use qlab.Scheduling.Tables.{
  Tables, Faults, ok, overwritten, upsert_slot, stored, write_slots, write_outbox,
}

abbrev pub OtherId : Slot → Slot → Type 0
OtherId a b = a.id ≢ b.id

-- A row holds what was written, but for its lab and its user, and its instants as the columns keep
-- them.
abbrev pub Holds : Slot → Slot → Type 0
Holds row new =
    (lab : String) × (user : String) × (desired : ℕ) × (committed : ℕ) × (actual : ℕ) × (row
      ≡ record new {
        lab_id = lab;
        user_id = user;
        desired_start = desired;
        committed_start = committed;
        actual_start = actual;
      })

eq_of : (a b : String) → str_eq a b ≡ true → a ≡ b
eq_of a b h = (eq_iff a b).0 h

ne_of : (a b : String) → str_eq a b ≡ false → a ≢ b
ne_of a b h e = ground (arith, (eq_iff a b).1 e)

upsert_slot-All :
    (P : Slot → Type 0) (new : Slot) (rows : List Slot)
    → P new
    → ((old : Slot) → P (overwritten old new))
    → All P rows
    → All P (upsert_slot new rows)
unfolding upsert_slot
upsert_slot-All P new [] p q h = (p, tt)
upsert_slot-All P new (old ∷ rows) p q h = elim (Bool-cases (str_eq old.id new.id)) [
  | inl c ↦ rw c (q old, h.1)
  | inr c ↦ rw c (h.0, upsert_slot-All P new rows p q h.1)
]

upsert_slot-keys :
    (new : Slot) (rows : List Slot)
    → AllPairs OtherId rows
    → AllPairs OtherId (upsert_slot new rows)
unfolding upsert_slot
upsert_slot-keys new [] h = (tt, tt)
upsert_slot-keys new (old ∷ rows) h = elim (Bool-cases (str_eq old.id new.id)) [
  | inl c ↦
      rw c
        (All-imp (OtherId old) (OtherId new) rows (λ r k e. k (eq_of old.id new.id c ∙ e)) h.0, h.1)
  | inr c ↦
      let n = ne_of old.id new.id c in
      rw c (upsert_slot-All (OtherId old) new rows n (λ o. n) h.0, upsert_slot-keys new rows h.1)
]

upsert_slot-In :
    (new : Slot) (rows : List Slot) (x : Slot)
    → AllPairs OtherId rows
    → In x (upsert_slot new rows)
    → Holds x new ⊎ (In x rows × (new.id ≢ x.id))
unfolding upsert_slot
upsert_slot-In new [] x h (inl e) =
    inl (new.lab_id, new.user_id, new.desired_start, new.committed_start, new.actual_start, e)
upsert_slot-In new [] x h (inr k) = absurd k
upsert_slot-In new (old ∷ rows) x h k =
    split (Bool-cases (str_eq old.id new.id)) (upsert_slot-In new rows x h.1)
  where
    replaced :
        str_eq old.id new.id ≡ true
        → In x (overwritten old new ∷ rows)
        → Holds x new ⊎ (In x (old ∷ rows) × (new.id ≢ x.id))
    replaced c (inl e) =
        inl (old.lab_id, old.user_id, new.desired_start, new.committed_start, new.actual_start, e)
    replaced c (inr l) =
        inr (inr l, λ e. All-In (OtherId old) rows x h.0 l (eq_of old.id new.id c ∙ e))

    kept :
        str_eq old.id new.id ≡ false
        → (In x (upsert_slot new rows) → Holds x new ⊎ (In x rows × (new.id ≢ x.id)))
        → In x (old ∷ upsert_slot new rows)
        → Holds x new ⊎ (In x (old ∷ rows) × (new.id ≢ x.id))
    kept c f (inl e) = inr (inl e, λ q. ne_of old.id new.id c (sym (q ∙ ap (λ (s : Slot). s.id) e)))
    kept c f (inr l) = elim (f l) [ inl w ↦ inl w | inr (m, n) ↦ inr (inr m, n) ]

    split :
        (str_eq old.id new.id ≡ true) ⊎ (str_eq old.id new.id ≡ false)
        → (In x (upsert_slot new rows) → Holds x new ⊎ (In x rows × (new.id ≢ x.id)))
        → Holds x new ⊎ (In x (old ∷ rows) × (new.id ≢ x.id))
    split (inl c) f = replaced c (rw c at k)
    split (inr c) f = kept c f (rw c at k)

-- What writing a list leaves: keys that differ, the other tables, and rows that hold what was
-- written or were there before and were not written.
pub record Written (ws : List Slot) (t u : Tables) : Type 0 where
  pub keys : AllPairs OtherId u.slots
  pub same_resources : u.resources ≡ t.resources
  pub same_pools : u.pools ≡ t.pools
  pub same_members : u.members ≡ t.members
  pub rows :
      (x : Slot)
      → In x u.slots
      → ((w : Slot) × In w ws × Holds x w) ⊎ (In x t.slots × All (λ w. w.id ≢ x.id) ws)

pub write_slots-Written :
    (faults : Faults) (ws : List Slot) (t u : Tables)
    → AllPairs OtherId t.slots
    → write_slots faults ws t ≡ ok u
    → Written ws t u
unfolding write_slots
write_slots-Written faults [] t u h e = record {
  keys = ground arith;
  same_resources = ground arith;
  same_pools = ground arith;
  same_members = ground arith;
  rows = λ x k. inr (rw (← (ok_inj t u e)) at k, tt);
}
  where
    ok_inj : (a b : Tables) → ok a ≡ ok b → a ≡ b
    ok_inj a b q = cc
write_slots-Written faults (w ∷ ws) t u h e =
    next (record t { slots = upsert_slot (stored faults w) t.slots }) refl
      (write_slots-Written faults ws (record t { slots = upsert_slot (stored faults w) t.slots }) u
        (upsert_slot-keys (stored faults w) t.slots h)
        (rest (Option-cases (faults.slot_refused w))))
  where
    rest :
        (faults.slot_refused w ≡ none) ⊎ ((m : String) × (faults.slot_refused w ≡ some m))
        → write_slots faults ws (record t { slots = upsert_slot (stored faults w) t.slots }) ≡ ok u
    rest (inl n) = rw (n, write_slots) at e
    rest (inr (m, n)) = absurd (ground arith)

    next :
        (t' : Tables)
        → t' ≡ record t { slots = upsert_slot (stored faults w) t.slots }
        → Written ws t' u
        → Written (w ∷ ws) t u
    next t' q r = record {
      keys = r.keys;
      same_resources = ground (arith, r.same_resources);
      same_pools = ground (arith, r.same_pools);
      same_members = ground (arith, r.same_members);
      rows = λ x k. elim (r.rows x k) [
        | inl (v, m, held) ↦ inl (v, inr m, held)
        | inr (m, n) ↦ elim (upsert_slot-In (stored faults w) t.slots x h (rw q at m)) [
          | inl held ↦ inl (w, inl refl, held)
          | inr (l, o) ↦ inr (l, (o, n))
        ]
      ];
    }

-- The outbox leaves the other tables alone.
pub write_outbox-same :
    (faults : Faults) (rs : List OutboxRow) (t u : Tables)
    → write_outbox faults rs t ≡ ok u
    → (u.slots ≡ t.slots)
      × (u.resources ≡ t.resources)
      × (u.pools ≡ t.pools)
      × (u.members ≡ t.members)
unfolding write_outbox
write_outbox-same faults [] t u e = ground arith
write_outbox-same faults (r ∷ rs) t u e = ground (
  arith,
  write_outbox-same faults rs
      (record t { outbox = qlab.Scheduling.Tables.insert_outbox r t.outbox }) u,
)
