-- ===== src/Scheduling/Service/Isolation.antt =====
-- Labs do not reach one another's rows through backend/internal/services/scheduling/v1.
use qlab.Base.{
  ◌≡◌, refl, sym, subst, ◌≢◌, inl, inr, List, [], ◌∷◌, Option, none, some, String, arith, All,
  AllPairs, In, All-In, All-imp, Option-cases,
}
use qlab.Scheduling.Store.{Slot}
use qlab.Scheduling.Helpers.{find_slot}
use qlab.Scheduling.Events.{
  EventError, changed, CreateParams, Event, creates, clocks_in, clocks_out, cancels, forces_out,
  forces_no_show, build, poke_occupant,
}
use qlab.Scheduling.Apply.{Applied, apply_engine}
use qlab.Scheduling.Apply.Writes.{Keeps, apply_engine-Keeps}
use qlab.Scheduling.Apply.Outbox.{apply_engine-outbox}
use qlab.Scheduling.Notify.{OutboxRow, recommit, poke}
use qlab.Scheduling.Tables.{
  Tables, PoolMutation, ok, list_live_slots, list_resources, snapshot, ◌>>=◌,
}
use qlab.Scheduling.Tables.Upserts.{OtherId}
use qlab.Scheduling.Tables.Labs.{IsOwn}
use qlab.Scheduling.Tables.Commits.{Attempt-cases}
use qlab.Scheduling.Accepted.Persisted.{All2-All}
use qlab.Scheduling.Service.{
  Settings, Moment, Principal, Result, authorize, resolve_slot, pool_in_lab, reschedule_pool, poked,
  mutate, create_slot, slot_event, clock_user_in, clock_user_out, cancel_slot, force_clock_user_out,
  force_user_no_show, poke_pool, poke_user, Request, book, clock_in, clock_out, cancel, nudge,
  force_clock_out, force_no_show, serve,
}
use qlab.Scheduling.Service.Keys.{HasId, event-ids}
use qlab.Scheduling.Service.Mutate.{Outcome-cases}
use qlab.Scheduling.Service.Own.{
  LeavesOthers, LeavesOthers-refl, OwnMutation, with_pool-LeavesOthers, find_slot-In, live-IsOwn,
}

module _ (settings : Settings) (m : Moment) (p : Principal) (t : Tables)
    (keys : AllPairs OtherId t.slots) (new : (x : Slot) → In x t.slots → m.fresh ≢ x.id) where
  abbrev Own : String → String → Type 0
  Own = IsOwn p.lab_id t.slots

  -- What `mutate` writes for an event that happens.
  applied-OwnMutation :
      (pool : String) (event : Event) (after : List Slot) (a : Applied OutboxRow)
      → HasId Own event
      → build event
          (list_resources p.lab_id pool t)
          settings.grace
          m.now
          (list_live_slots p.lab_id pool t)
        ≡ changed after
      → apply_engine settings.parse
          (recommit p.user_id)
          pool
          after
          (list_resources p.lab_id pool t)
          settings.grace
          m.now
          []
        ≡ some a
      → OwnMutation p.lab_id t.slots (record { slots = a.writes; outbox = a.outbox })
  unfolding recommit
  applied-OwnMutation pool event after a o b e =
      let own =
        event-ids Own (list_resources p.lab_id pool t) settings.grace m.now event
          (list_live_slots p.lab_id pool t) after (live-IsOwn p.lab_id pool t keys) o b in
      record {
        slots =
            All2-All (Keeps settings.parse) (λ s. Own s.id s.lab_id) (λ s. Own s.id s.lab_id) after
              a.writes (λ r w z i. rw (z.same_id, z.same_lab) i)
              (apply_engine-Keeps settings.parse (recommit p.user_id) pool after
                (list_resources p.lab_id pool t) settings.grace m.now [] a e)
              own;
        outbox =
            apply_engine-outbox settings.parse (recommit p.user_id) (λ r. r.lab_id ≡ p.lab_id)
              p.lab_id pool after (list_resources p.lab_id pool t) settings.grace m.now a (λ s l. l)
              (All-imp _ _ after (λ s i. i.0) own) e;
      }

  reschedule_pool-OwnMutation :
      (pool : String) (event : Event) (mu : PoolMutation) (s : Result)
      → HasId Own event
      → reschedule_pool settings m p pool event (snapshot p.lab_id pool t) ≡ ok (mu, s)
      → OwnMutation p.lab_id t.slots mu
  unfolding reschedule_pool
  reschedule_pool-OwnMutation pool event mu s o h =
      elim (Outcome-cases (
        build event (list_resources p.lab_id pool t) settings.grace m.now
          (list_live_slots p.lab_id pool t))) [
            | inl (e, b) ↦ absurd (ground arith)
            | inr (after, b) ↦
                elim (Option-cases (
                  apply_engine settings.parse (recommit p.user_id) pool after
                    (list_resources p.lab_id pool t) settings.grace m.now [])) [
                      | inl e ↦ absurd (ground arith)
                      | inr (a, e) ↦
                          let own = applied-OwnMutation pool event after a o b e in
                          let slots : a.writes ≡ mu.slots = ground arith in
                          let outbox : a.outbox ≡ mu.outbox = ground arith in
                          record {
                            slots = subst (All (λ w. Own w.id w.lab_id)) slots own.slots;
                            outbox = subst (All (λ r. r.lab_id ≡ p.lab_id)) outbox own.outbox;
                          }
                    ]
          ]

  poke_pool-OwnMutation :
      (pool slot : String) (mu : PoolMutation) (u : Unit {0})
      → poke_pool settings m p slot (snapshot p.lab_id pool t) ≡ ok (mu, u)
      → OwnMutation p.lab_id t.slots mu
  unfolding poke_pool poke
  poke_pool-OwnMutation pool slot mu u h =
      told (poke_occupant p.user_id slot m.now live) (find_slot live slot) refl h
    where
      live : List Slot
      live = list_live_slots p.lab_id pool t

      told :
          (o : Option EventError) (target : Option Slot)
          → find_slot live slot ≡ target
          → poked settings m p o target ≡ ok (mu, u)
          → OwnMutation p.lab_id t.slots mu
      told (some x) target f e = absurd (ground arith)
      told none none f e = absurd (ground arith)
      told none (some s) f e =
          let own =
            All-In _ live s (live-IsOwn p.lab_id pool t keys) (find_slot-In slot s live f) in
          let slots : [] ≡ mu.slots = ground arith in
          let outbox : poke p.user_id s m.now ∷ [] ≡ mu.outbox = ground arith in
          record {
            slots = subst (All (λ w. Own w.id w.lab_id)) slots tt;
            outbox = subst (All (λ r. r.lab_id ≡ p.lab_id)) outbox (own.0, tt);
          }

  mutate-LeavesOthers :
      (pool : String) (event : Event)
      → HasId Own event
      → LeavesOthers p.lab_id t (mutate settings m p pool event t).0
  unfolding mutate
  mutate-LeavesOthers pool event o =
      with_pool-LeavesOthers m.faults p.lab_id pool (reschedule_pool settings m p pool event) t
        (λ mu s. reschedule_pool-OwnMutation pool event mu s o)

  slot_event-LeavesOthers :
      (event : String → String → Event) (slot : String)
      → ((user id : String) → HasId Own (event user id))
      → LeavesOthers p.lab_id t (slot_event settings m p event slot t).0
  unfolding slot_event
  slot_event-LeavesOthers event slot o =
      elim (Attempt-cases (authorize m p t >>= λ _. resolve_slot m p.lab_id slot t)) [
        | inl (e, h) ↦ rw (h, slot_event) (LeavesOthers-refl p.lab_id t)
        | inr (target, h) ↦
            rw (h, slot_event)
              (mutate-LeavesOthers target.resource_pool_id (event p.user_id slot)
                (o p.user_id slot))
      ]

  create_slot-LeavesOthers :
      (params : CreateParams) → LeavesOthers p.lab_id t (create_slot settings m p params t).0
  unfolding create_slot
  create_slot-LeavesOthers params =
      elim (Attempt-cases
        (authorize m p t >>= λ _. pool_in_lab m p.lab_id params.resource_pool_id t)) [
          | inl (e, h) ↦ rw (h, create_slot) (LeavesOthers-refl p.lab_id t)
          | inr (found, h) ↦
              rw (h, create_slot)
                (mutate-LeavesOthers params.resource_pool_id
                  (creates m.fresh p.lab_id p.user_id params)
                  (refl, λ x k e. absurd (new x k (sym e))))
        ]

  poke_user-LeavesOthers :
      (slot : String) → LeavesOthers p.lab_id t (poke_user settings m p slot t).0
  unfolding poke_user
  poke_user-LeavesOthers slot =
      elim (Attempt-cases (authorize m p t >>= λ _. resolve_slot m p.lab_id slot t)) [
        | inl (e, h) ↦ rw (h, poke_user) (LeavesOthers-refl p.lab_id t)
        | inr (target, h) ↦
            rw (h, poke_user)
              (with_pool-LeavesOthers m.faults p.lab_id target.resource_pool_id
                (poke_pool settings m p slot) t
                (poke_pool-OwnMutation target.resource_pool_id slot))
      ]

  -- Whatever a request asks for, it loses, changes and adds no slot and no notification of a lab other
  -- than the caller's, and changes no resource, pool or member: if the ids of the slots are keys, and
  -- the uuid that it draws is not one of them.
  pub serve-isolated :
      (request : Request) → LeavesOthers p.lab_id t (serve settings m p request t).0
  unfolding serve clock_user_in clock_user_out cancel_slot force_clock_user_out force_user_no_show
  serve-isolated (book params) = create_slot-LeavesOthers params
  serve-isolated (clock_in slot) = slot_event-LeavesOthers clocks_in slot (λ user id. tt)
  serve-isolated (clock_out slot) = slot_event-LeavesOthers clocks_out slot (λ user id. tt)
  serve-isolated (cancel slot) = slot_event-LeavesOthers cancels slot (λ user id. tt)
  serve-isolated (nudge slot) = poke_user-LeavesOthers slot
  serve-isolated (force_clock_out slot) = slot_event-LeavesOthers forces_out slot (λ user id. tt)
  serve-isolated (force_no_show slot) = slot_event-LeavesOthers forces_no_show slot (λ user id. tt)
