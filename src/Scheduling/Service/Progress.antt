-- ===== src/Scheduling/Service/Progress.antt =====
-- Nobody is stuck with a booking: `CancelSlot` of backend/internal/services/scheduling/v1/events.go.
use qlab.Base.{
  ◌≡◌, refl, sym, ap, ◌∙◌, subst, ◌≢◌, inl, inr, true, false, ◌&&◌, List, [], ◌∷◌, none, some,
  String, arith, All, AllPairs, All-imp, In, All-In, In-All, keep-In, In-keep, keep, All-sort_by,
  Bool-cases, str_eq, eq_iff, find,
}
use qlab.Scheduling.Store.{Slot, is_live, cancelled}
use qlab.Scheduling.Helpers.{find_slot, update_slot}
use qlab.Scheduling.Events.{
  with_status, EventError, failed, changed, Event, cancels, cancel_slot as cancel_slot_event, build,
}
use qlab.Scheduling.Apply.Writes.{Keeps}
use qlab.Scheduling.Notify.{OutboxRow}
use qlab.Scheduling.Tables.{
  Tables, PoolState, PoolMutation, ServiceError, Attempt, ok, err, Faults, upsert_slot, stored,
  insert_outbox, write_slots, write_outbox, is_member, slot_by_id, list_live_slots, is_live_in,
  by_priority, list_resources, snapshot, transaction, with_pool, ◌>>=◌,
}
use qlab.Scheduling.Tables.Upserts.{OtherId}
use qlab.Scheduling.Accepted.Persisted.{All2-All}
use qlab.Scheduling.Service.{
  Settings, Moment, Principal, Result, authorize, resolve_slot, reschedule_pool, mutate, slot_event,
  cancel_slot, cancel, serve,
}
use qlab.Scheduling.Accepted.{RowOk}
use qlab.Scheduling.Accepted.Kept.{Admits}
use qlab.Scheduling.Service.Keys.{IsNew}
use qlab.Scheduling.Service.Good.{Good, live_keys, live_row}
use qlab.Scheduling.Service.Mutate.{mutate_lem, Committed, Committed-Good, reschedule_pool_lem}

-- A request whose transactions go through.
pub record IsQuiet (f : Faults) : Type 0 where
  pub membership : f.membership ≡ none
  pub look_up : f.look_up ≡ none
  pub begins : f.begins ≡ none
  pub slots : (s : Slot) → f.slot_refused s ≡ none
  pub rows : (r : OutboxRow) → f.row_refused r ≡ none
  pub commits : f.commits ≡ none

module _ (f : Faults) (q : IsQuiet f) where
  write_slots-returns : (ws : List Slot) (t : Tables) → (u : Tables) × (write_slots f ws t ≡ ok u)
  unfolding write_slots
  write_slots-returns [] t = (t, refl)
  write_slots-returns (w ∷ ws) t =
      rw (q.slots w, write_slots)
        (write_slots-returns ws (record t { slots = upsert_slot (stored f w) t.slots }))

  write_outbox-returns :
      (rs : List OutboxRow) (t : Tables) → (u : Tables) × (write_outbox f rs t ≡ ok u)
  unfolding write_outbox
  write_outbox-returns [] t = (t, refl)
  write_outbox-returns (r ∷ rs) t =
      rw (q.rows r, write_outbox)
        (write_outbox-returns rs (record t { outbox = insert_outbox r t.outbox }))

  with_pool-returns :
      {A : Type 0} (lab pool : String) (fn : PoolState → Attempt (PoolMutation × A)) (t : Tables)
      (mu : PoolMutation) (a : A)
      → fn (snapshot lab pool t) ≡ ok (mu, a)
      → (u : Tables) × (with_pool f lab pool fn t ≡ (u, ok a))
  unfolding with_pool transaction
  with_pool-returns lab pool fn t mu a e =
      let (w, g) = write_slots-returns mu.slots t in
      let (u, h) = write_outbox-returns mu.outbox w in (u, rw (q.begins, e, g, h, q.commits) refl)

In-live :
    (lab pool : String) (t : Tables) (s : Slot)
    → In s (list_live_slots lab pool t)
    → In s t.slots × (is_live_in lab pool s ≡ true)
unfolding list_live_slots
In-live lab pool t s k = keep-In (is_live_in lab pool) t.slots s (
    All-In (λ y. In y (keep (is_live_in lab pool) t.slots)) _ s
      (All-sort_by _ by_priority (keep (is_live_in lab pool) t.slots) (In-All _ _ (λ x i. i))) k)

find_slot-In :
    (ss : List Slot) (s : Slot) → AllPairs OtherId ss → In s ss → find_slot ss s.id ≡ some s
unfolding find_slot
find_slot-In [] s h k = absurd k
find_slot-In (t ∷ ss) s h (inl e) = ground (arith, eq_iff t.id s.id)
find_slot-In (t ∷ ss) s h (inr k) =
    ground (arith, eq_iff t.id s.id, All-In (OtherId t) ss s h.0 k, find_slot-In ss s h.1 k)

slot_by_id-In :
    (lab : String) (t : Tables) (s : Slot)
    → AllPairs OtherId t.slots
    → In s t.slots
    → str_eq s.lab_id lab ≡ true
    → slot_by_id lab s.id t ≡ some s
unfolding slot_by_id
slot_by_id-In lab t s h k l = go t.slots h k
  where
    go :
        (ss : List Slot)
        → AllPairs OtherId ss
        → In s ss
        → find (λ (r : Slot). str_eq r.lab_id lab && str_eq r.id s.id) ss ≡ some s
    go [] h k = absurd k
    go (r ∷ ss) h (inl e) = ground (arith, eq_iff r.id s.id)
    go (r ∷ ss) h (inr k) =
        ground (arith, eq_iff r.id s.id, All-In (OtherId r) ss s h.0 k, go ss h.1 k)

-- After the write no live row has the id.
IsOver : String → Slot → Type 0
IsOver id s = s.id ≡ id → is_live s.status ≡ false

cancelled-IsOver :
    (id : String) (ss : List Slot)
    → AllPairs OtherId ss
    → All (IsOver id) (update_slot id (with_status cancelled) ss)
unfolding update_slot IsOver
cancelled-IsOver id [] h = tt
cancelled-IsOver id (s ∷ ss) h = elim (Bool-cases (str_eq s.id id)) [
  | inl c ↦ rw c (
    λ e. refl,
    All-imp (OtherId s) (IsOver id) ss (λ t n e. absurd (n ((eq_iff s.id id).0 c ∙ sym e))) h.0,
  )
  | inr c ↦ rw c (λ e. ground (arith, eq_iff s.id id), cancelled-IsOver id ss h.1)
]

module _ (settings : Settings) (m : Moment) (p : Principal) (pool : String) (t : Tables)
    (g : Good settings p.lab_id pool t) (q : IsQuiet m.faults) where
  -- A quiet `mutate` goes through if the event's guards allow it.
  mutate-returns :
      (event : Event) (after : List Slot) (a : Admits pool event (list_live_slots p.lab_id pool t))
      (n : IsNew event (list_live_slots p.lab_id pool t))
      → build event
          (list_resources p.lab_id pool t)
          settings.grace
          m.now
          (list_live_slots p.lab_id pool t)
        ≡ changed after
      → (u : Tables) × (s : Result) × (mutate settings m p pool event t ≡ (u, ok s))
        × Committed settings m p pool event t g a n u s
  unfolding mutate
  mutate-returns event after a n b = elim (mutate_lem settings m p pool event t g a n) [
    | inr c ↦ c
    | inl (e, h, r) ↦ elim (reschedule_pool_lem settings m p pool event t g a n) [
      | inl (x, o, k) ↦ absurd (failed_changed x after (sym o ∙ b))
      | inr (w, d, k) ↦
          let (u, l) =
            with_pool-returns m.faults q p.lab_id pool (reschedule_pool settings m p pool event) t _
              _ k.called in
          absurd (ok_err e _ u (sym h ∙ l))
    ]
  ]
    where
      failed_changed : (x : EventError) (y : List Slot) → failed x ≡ changed y → ⊥
      failed_changed x y e = cc

      ok_err :
          (e : ServiceError) (s : Result) (u : Tables)
          → ◌≡◌ {A = Tables × Attempt Result} (t, err e) (u, ok s)
          → ⊥
      ok_err e s u h = ground arith

  allowed :
      (s : Slot)
      → is_member p.lab_id p.user_id t ≡ true
      → slot_by_id p.lab_id s.id t ≡ some s
      → (authorize m p t >>= λ _. resolve_slot m p.lab_id s.id t) ≡ ok s
  unfolding authorize resolve_slot
  allowed s h k = rw (q.membership, h, q.look_up, k) refl

  cancel_built :
      (s : Slot)
      → In s (list_live_slots p.lab_id pool t)
      → s.user_id ≡ p.user_id
      → build
          (cancels p.user_id s.id)
          (list_resources p.lab_id pool t)
          settings.grace
          m.now
          (list_live_slots p.lab_id pool t)
        ≡ changed (update_slot s.id (with_status cancelled) (list_live_slots p.lab_id pool t))
  unfolding build cancel_slot_event
  cancel_built s k o =
      let l = (In-live p.lab_id pool t s k).1 in
      rw (find_slot-In (list_live_slots p.lab_id pool t) s (live_keys p.lab_id pool t g.keys) k)
        (ground (arith, eq_iff s.user_id p.user_id))

  committed_over :
      (s : Slot) (u : Tables) (d : Result)
      → Committed settings m p pool (cancels p.user_id s.id) t g tt tt u d
      → build
          (cancels p.user_id s.id)
          (list_resources p.lab_id pool t)
          settings.grace
          m.now
          (list_live_slots p.lab_id pool t)
        ≡ changed (update_slot s.id (with_status cancelled) (list_live_slots p.lab_id pool t))
      → All (OtherId s) (list_live_slots p.lab_id pool u)
  unfolding IsOver
  committed_over s u d c b = In-All (OtherId s) _ (λ x k e. not_over x k (sym e))
    where
      over : All (IsOver s.id) c.applied.writes
      over =
          All2-All (Keeps settings.parse) (IsOver s.id) (IsOver s.id) c.after c.applied.writes
            (λ r w k h e. ap is_live k.same_status ∙ h (sym k.same_id ∙ e)) c.event_happens.keeps
            (subst (All (IsOver s.id)) (ground (arith, c.event_happens.built, b)) (
              cancelled-IsOver s.id (list_live_slots p.lab_id pool t)
                (live_keys p.lab_id pool t g.keys)))

      not_over : (x : Slot) → In x (list_live_slots p.lab_id pool u) → x.id ≢ s.id
      not_over x k e =
          let (i, l) = In-live p.lab_id pool u x k in
          let (w, j, (_, _, _, _, _, held)) =
            live_row settings p.lab_id pool c.applied.writes t c.written g c.rows_written
              c.event_happens.covers x
              (In-keep (is_live_in p.lab_id pool) c.written.slots x (subst (In x) c.same_slots i)
                l) in
          let gone =
            All-In (IsOver s.id) c.applied.writes w over j
              (ap (λ (r : Slot). r.id) (sym held) ∙ e) in
          ground (arith, ap (λ (r : Slot). r.status) held, gone, l)

  cancel_served :
      (s : Slot) (u : Tables) (d : Result)
      → (authorize m p t >>= λ _. resolve_slot m p.lab_id s.id t) ≡ ok s
      → s.resource_pool_id ≡ pool
      → mutate settings m p pool (cancels p.user_id s.id) t ≡ (u, ok d)
      → serve settings m p (cancel s.id) t ≡ (u, none)
  unfolding serve cancel_slot slot_event
  cancel_served s u d f o h = rw (f, slot_event) (rw o (rw h refl))

  -- In a quiet moment the owner of a live slot, a member of the lab, can always cancel it: the request
  -- returns no error, the pool stays in order, and no live slot has that id any more.
  pub cancel_frees :
      (s : Slot)
      → In s (list_live_slots p.lab_id pool t)
      → s.user_id ≡ p.user_id
      → is_member p.lab_id p.user_id t ≡ true
      → ((serve settings m p (cancel s.id) t).1 ≡ none)
        × Good settings p.lab_id pool (serve settings m p (cancel s.id) t).0
        × All (OtherId s) (list_live_slots p.lab_id pool (serve settings m p (cancel s.id) t).0)
  cancel_frees s k o member =
      let (i, l) = In-live p.lab_id pool t s k in
      let own = All-In (RowOk pool) _ s g.rows.rows k in
      let found = allowed s member (slot_by_id-In p.lab_id t s g.keys i (ground (arith, l))) in
      let b = cancel_built s k o in
      let (u, d, h, c) = mutate-returns (cancels p.user_id s.id) _ tt tt b in
      rw (cancel_served s u d found own.in_pool h) (
        refl,
        Committed-Good settings m p pool (cancels p.user_id s.id) t g tt tt u d c,
        committed_over s u d c b,
      )
