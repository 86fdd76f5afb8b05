-- ===== src/Scheduling/Service/Mutate.antt =====
-- `mutate` of backend/internal/services/scheduling/v1/v1.go on a pool that is in order: the engine does
-- not fail, and what is committed leaves the pool in order.
use qlab.Base.{
  ◌≡◌, refl, sym, ap, ◌∙◌, ◌≢◌, ◌⊎◌, inl, inr, List, [], ◌++◌, Option, none, some, String, arith,
}
use qlab.Scheduling.Store.{Slot}
use qlab.Scheduling.Events.{EventError, Outcome, failed, changed, Event, build}
use qlab.Scheduling.Apply.{Applied, apply_engine}
use qlab.Scheduling.Apply.Writes.{Keeps, All2, apply_loop-Keeps, apply_loop-returns}
use qlab.Scheduling.Notify.{OutboxRow, recommit}
use qlab.Scheduling.Tables.{
  Tables, PoolMutation, ServiceError, engine_failed, Attempt, ok, err, write_slots, list_live_slots,
  list_resources, snapshot,
}
use qlab.Scheduling.Tables.Upserts.{Written, write_slots-Written, write_outbox-same}
use qlab.Scheduling.Tables.Commits.{with_pool_lem, Commits, IsDatabase}
use qlab.Scheduling.Accepted.Kept.{Admits, event-reschedules}
use qlab.Scheduling.Accepted.Placed.{engine_places}
use qlab.Scheduling.Accepted.Persisted.{persisted-WellFormed, persisted-durations, persisted-In}
use qlab.Scheduling.Service.{
  Settings, Moment, Principal, Result, poked, error_of, mutation_of, reschedule_pool, mutate,
}
use qlab.Scheduling.Service.Keys.{IsNew, event-KeepsKeys}
use qlab.Scheduling.Service.Good.{Good, Covers, live_keys, Good-same, Written-Good}

pub Outcome-cases :
    (o : Outcome)
    → ((e : EventError) × (o ≡ failed e)) ⊎ ((after : List Slot) × (o ≡ changed after))
Outcome-cases (failed e) = inl (e, refl)
Outcome-cases (changed after) = inr (after, refl)

pub error_of_ne : (e : EventError) → error_of e ≢ engine_failed
error_of_ne e h = ground arith

module _ (settings : Settings) (m : Moment) (p : Principal) (pool : String) (event : Event)
    (t : Tables) (g : Good settings p.lab_id pool t)
    (admits : Admits pool event (list_live_slots p.lab_id pool t))
    (new : IsNew event (list_live_slots p.lab_id pool t)) where
  abbrev live : List Slot
  live = list_live_slots p.lab_id pool t

  abbrev outcome : Outcome
  outcome = build event (list_resources p.lab_id pool t) settings.grace m.now live

  -- What an event that happens makes of the pool's rows.
  pub record Happens (after : List Slot) (a : Applied OutboxRow) : Type 0 where
    pub built : outcome ≡ changed after
    pub keeps : All2 (Keeps settings.parse) after a.writes
    pub covers : Covers pool live a.writes
    pub called :
        reschedule_pool settings m p pool event (snapshot p.lab_id pool t)
        ≡ ok (mutation_of settings m p pool a)

  happens :
      (after : List Slot) → outcome ≡ changed after → (a : Applied OutboxRow) × Happens after a
  unfolding reschedule_pool apply_engine
  happens after e =
      let (w, reschedules) =
        event-reschedules pool (list_resources p.lab_id pool t) settings.grace m.now event live
          after g.pool_ok g.rows admits e in
      let k =
        event-KeepsKeys (list_resources p.lab_id pool t) settings.grace m.now event live after
          (live_keys p.lab_id pool t g.keys) g.durations_fit new e in
      let (queue, ran, placed) =
        engine_places settings.parse pool after (list_resources p.lab_id pool t) settings.grace
          m.now g.pool_ok w
          (record {
            keys = k.keys;
            durations_fit = k.durations_fit;
            grace_fits = g.grace_fits;
            ids_parse = g.ids_parse;
          }) in
      let (a, applied) =
        apply_loop-returns settings.parse (recommit p.user_id) queue after placed in
      let z = apply_loop-Keeps settings.parse (recommit p.user_id) queue after a applied in
      (
        record a { outbox = [] ++ a.outbox },
        record {
          built = e;
          keeps = z;
          covers = record {
            written_ok = persisted-WellFormed settings.parse g.texts pool after a.writes z w;
            written_fit =
                persisted-durations settings.parse g.texts pool after a.writes z k.durations_fit;
            covers = λ s i.
                let (u, j, same) = k.stays s i in
                let (v, l, same') = persisted-In settings.parse g.texts pool after a.writes u z j in
                (v, l, same' ∙ same);
          };
          called = rw (e, ran, applied) refl;
        },
      )

  -- The callback of `mutate` fails as the event's guards do, and not otherwise.
  pub reschedule_pool_lem :
      ((e : EventError) × (outcome ≡ failed e)
        × (reschedule_pool settings m p pool event (snapshot p.lab_id pool t) ≡ err (error_of e)))
      ⊎ ((after : List Slot) × (a : Applied OutboxRow) × Happens after a)
  unfolding reschedule_pool
  reschedule_pool_lem = elim (Outcome-cases outcome) [
    | inl (e, h) ↦ inl (e, h, rw h refl)
    | inr (after, h) ↦ let (a, k) = happens after h in inr (after, a, k)
  ]

  ok_inj : (x y : PoolMutation × Result) → ok x ≡ ok y → x ≡ y
  ok_inj x y e = cc

  -- A commit of the event, and the tables after it.
  pub record Committed (u : Tables) (s : Result) : Type 0 where
    pub after : List Slot
    pub applied : Applied OutboxRow
    pub event_happens : Happens after applied
    pub shown : s ≡ (record { resource_pool_id = pool; schedule = applied.schedule })
    pub written : Tables
    pub rows_written : Written applied.writes t written
    pub same_slots : u.slots ≡ written.slots
    pub same_resources : u.resources ≡ written.resources

  commits_lem :
      (u : Tables) (s : Result) (after : List Slot) (a : Applied OutboxRow)
      → Happens after a
      → Commits m.faults p.lab_id pool (reschedule_pool settings m p pool event) t u s
      → Committed u s
  commits_lem u s after a h c =
      let same =
        ok_inj (c.mutation, s) (mutation_of settings m p pool a) (sym c.called ∙ h.called) in
      let slots : c.mutation.slots ≡ a.writes = ground (arith, same) in
      let q = write_outbox-same m.faults c.mutation.outbox c.written u c.outbox_written in
      record {
        after = after;
        applied = a;
        event_happens = h;
        shown = ground (arith, same);
        written = c.written;
        rows_written =
            write_slots-Written m.faults a.writes t c.written g.keys
              (ap (λ w. write_slots m.faults w t) (sym slots) ∙ c.slots_written);
        same_slots = q.0;
        same_resources = q.1;
      }

  pub Committed-Good : (u : Tables) (s : Result) → Committed u s → Good settings p.lab_id pool u
  Committed-Good u s c =
      Good-same settings p.lab_id pool c.written u c.same_slots c.same_resources (
        Written-Good settings p.lab_id pool c.applied.writes t c.written g c.rows_written
          c.event_happens.covers)

  -- `mutate` commits the event, or changes nothing; its errors are the database's and the guards'.
  pub mutate_lem :
      ((e : ServiceError) × (mutate settings m p pool event t ≡ (t, err e))
        × (IsDatabase e ⊎ ((x : EventError) × (outcome ≡ failed x) × (e ≡ error_of x))))
      ⊎ ((u : Tables) × (s : Result) × (mutate settings m p pool event t ≡ (u, ok s))
          × Committed u s)
  unfolding mutate
  mutate_lem =
      elim (with_pool_lem m.faults p.lab_id pool (reschedule_pool settings m p pool event) t) [
        | inl (e, h, inl d) ↦ inl (e, h, inl d)
        | inl (e, h, inr f) ↦ elim reschedule_pool_lem [
          | inl (x, o, k) ↦ inl (e, h, inr (x, o, err_inj e (error_of x) (sym f ∙ k)))
          | inr (after, a, k) ↦
              absurd (ok_err e (mutation_of settings m p pool a) (sym k.called ∙ f))
        ]
        | inr (u, s, h, c) ↦ elim reschedule_pool_lem [
          | inl (x, o, k) ↦ absurd (ok_err (error_of x) (c.mutation, s) (sym c.called ∙ k))
          | inr (after, a, k) ↦ inr (u, s, h, commits_lem u s after a k c)
        ]
      ]
    where
      err_inj :
          (x y : ServiceError) → ◌≡◌ {A = Attempt (PoolMutation × Result)} (err x) (err y) → x ≡ y
      err_inj x y e = cc

      ok_err : (x : ServiceError) (y : PoolMutation × Result) → ok y ≡ err x → ⊥
      ok_err x y e = cc

-- A poke writes no slot.
module _ (settings : Settings) (m : Moment) (p : Principal) where
  pub poked_slots :
      (o : Option EventError) (target : Option Slot) (mu : PoolMutation) (u : Unit {0})
      → poked settings m p o target ≡ ok (mu, u)
      → mu.slots ≡ []
  poked_slots (some x) target mu u h = absurd (ground arith)
  poked_slots none none mu u h = absurd (ground arith)
  poked_slots none (some s) mu u h = ground arith
