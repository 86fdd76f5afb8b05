-- ===== src/Scheduling/Tables/Commits.antt =====
-- What `WithPool` of backend/internal/store/pgstore/pool.go comes to: a commit of all that its callback
-- asked for, or an error and the tables as they were.
use qlab.Base.{◌≡◌, refl, ◌⊎◌, inl, inr, List, [], ◌∷◌, String, arith, Option-cases}
use qlab.Scheduling.Store.{Slot}
use qlab.Scheduling.Notify.{OutboxRow}
use qlab.Scheduling.Tables.{
  Tables, PoolState, PoolMutation, ServiceError, database, Attempt, ok, err, Faults, upsert_slot,
  insert_outbox, stored, write_slots, write_outbox, snapshot, transaction, with_pool,
}

pub Attempt-cases :
    {A : Type 0} (a : Attempt A) → ((e : ServiceError) × (a ≡ err e)) ⊎ ((x : A) × (a ≡ ok x))
Attempt-cases (ok x) = inr (x, refl)
Attempt-cases (err e) = inl (e, refl)

abbrev pub IsDatabase : ServiceError → Type 0
IsDatabase e = (m : String) × (e ≡ database m)

write_slots_error :
    (faults : Faults) (ws : List Slot) (t : Tables) (e : ServiceError)
    → write_slots faults ws t ≡ err e
    → IsDatabase e
unfolding write_slots
write_slots_error faults [] t e h = absurd (ground arith)
write_slots_error faults (w ∷ ws) t e h = elim (Option-cases (faults.slot_refused w)) [
  | inl n ↦
      write_slots_error faults ws (record t { slots = upsert_slot (stored faults w) t.slots }) e
        (rw (n, write_slots) at h)
  | inr (m, n) ↦ (m, ground arith)
]

write_outbox_error :
    (faults : Faults) (rs : List OutboxRow) (t : Tables) (e : ServiceError)
    → write_outbox faults rs t ≡ err e
    → IsDatabase e
unfolding write_outbox
write_outbox_error faults [] t e h = absurd (ground arith)
write_outbox_error faults (r ∷ rs) t e h = elim (Option-cases (faults.row_refused r)) [
  | inl n ↦
      write_outbox_error faults rs (record t { outbox = insert_outbox r t.outbox }) e
        (rw (n, write_outbox) at h)
  | inr (m, n) ↦ (m, ground arith)
]

module _ {A : Type 0} (faults : Faults) (lab pool : String)
    (fn : PoolState → Attempt (PoolMutation × A)) (t : Tables) where
  -- A commit, with what it wrote.
  pub record Commits (u : Tables) (a : A) : Type 0 where
    pub mutation : PoolMutation
    pub written : Tables
    pub called : fn (snapshot lab pool t) ≡ ok (mutation, a)
    pub slots_written : write_slots faults mutation.slots t ≡ ok written
    pub outbox_written : write_outbox faults mutation.outbox written ≡ ok u

  -- An error, which is the database's or the callback's.
  abbrev pub Refuses : ServiceError → Type 0
  Refuses e = IsDatabase e ⊎ (fn (snapshot lab pool t) ≡ err e)

  transaction_lem :
      ((e : ServiceError) × (transaction faults lab pool fn t ≡ err e) × Refuses e)
      ⊎ ((u : Tables) × (a : A) × (transaction faults lab pool fn t ≡ ok (u, a)) × Commits u a)
  unfolding transaction
  transaction_lem = elim (Option-cases faults.begins) [
    | inr (m, b) ↦ inl (database m, rw b refl, inl (m, refl))
    | inl b ↦ elim (Attempt-cases (fn (snapshot lab pool t))) [
      | inl (e, f) ↦ inl (e, rw (b, f) refl, inr f)
      | inr ((mu, a), f) ↦ elim (Attempt-cases (write_slots faults mu.slots t)) [
        | inl (e, g) ↦ inl (e, rw (b, f, g) refl, inl (write_slots_error faults mu.slots t e g))
        | inr (w, g) ↦ elim (Attempt-cases (write_outbox faults mu.outbox w)) [
          | inl (e, h) ↦
              inl (e, rw (b, f, g, h) refl, inl (write_outbox_error faults mu.outbox w e h))
          | inr (u, h) ↦ elim (Option-cases faults.commits) [
            | inr (m, c) ↦ inl (database m, rw (b, f, g, h, c) refl, inl (m, refl))
            | inl c ↦ inr (
              u,
              a,
              rw (b, f, g, h, c) refl,
              record {
                mutation = mu;
                written = w;
                called = f;
                slots_written = g;
                outbox_written = h;
              },
            )
          ]
        ]
      ]
    ]
  ]

  pub with_pool_lem :
      ((e : ServiceError) × (with_pool faults lab pool fn t ≡ (t, err e)) × Refuses e)
      ⊎ ((u : Tables) × (a : A) × (with_pool faults lab pool fn t ≡ (u, ok a)) × Commits u a)
  unfolding with_pool
  with_pool_lem = elim transaction_lem [
    | inl (e, h, r) ↦ inl (e, rw h refl, r)
    | inr (u, a, h, c) ↦ inr (u, a, rw h refl, c)
  ]
