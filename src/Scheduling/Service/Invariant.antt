-- ===== src/Scheduling/Service/Invariant.antt =====
-- Requests to backend/internal/services/scheduling/v1, one after another: a pool stays in order, and
-- what a request that fails leaves.
use qlab.Base.{
  ◌≡◌, refl, sym, ◌∙◌, subst, ◌≢◌, ◌⊎◌, inl, inr, List, [], ◌∷◌, Option, none, some, String, arith,
  All,
}
use qlab.DynamicQueue.Greedy.{FitsInt64}
use qlab.Scheduling.Store.{Slot}
use qlab.Scheduling.Events.{
  EventError, CreateParams, Event, creates, clocks_in, clocks_out, cancels, forces_out,
  forces_no_show,
}
use qlab.Scheduling.Tables.{
  Tables, ServiceError, engine_failed, Attempt, ok, err, write_slots, list_live_slots, slot_by_id,
  ◌>>=◌, with_pool,
}
use qlab.Scheduling.Tables.Upserts.{write_outbox-same}
use qlab.Scheduling.Tables.Commits.{Attempt-cases, with_pool_lem}
use qlab.Scheduling.Accepted.Bookings.{Bookable}
use qlab.Scheduling.Accepted.Kept.{Admits}
use qlab.Scheduling.Service.{
  Settings, Moment, Principal, Result, error_in, authorize, resolve_slot, pool_in_lab, mutate,
  create_slot, slot_event, clock_user_in, clock_user_out, cancel_slot, force_clock_user_out,
  force_user_no_show, poked, poke_pool, poke_user, Request, book, clock_in, clock_out, cancel,
  nudge, force_clock_out, force_no_show, serve,
}
use qlab.Scheduling.Service.Keys.{IsNew}
use qlab.Scheduling.Service.Good.{Good, Good-same}
use qlab.Scheduling.Service.Mutate.{poked_slots, mutate_lem, Committed-Good, error_of_ne}

-- What is asked of a request to the pool: that it is addressed to it, and, if it books, that the
-- booking is a valid one with a new id.
abbrev pub Booking : Settings → Moment → Principal → String → CreateParams → Tables → Type 0
Booking settings m p pool params t =
    (params.resource_pool_id ≡ pool)
    × Bookable pool params (list_live_slots p.lab_id pool t)
    × All (λ s. s.id ≢ m.fresh) (list_live_slots p.lab_id pool t)
    × FitsInt64 params.duration_minutes

abbrev pub IsOf : Principal → String → String → Tables → Type 0
IsOf p pool slot t = (s : Slot) → slot_by_id p.lab_id slot t ≡ some s → s.resource_pool_id ≡ pool

abbrev pub IsAddressed : Settings → Moment → Principal → String → Request → Tables → Type 0
IsAddressed settings m p pool (book params) t = Booking settings m p pool params t
IsAddressed settings m p pool (clock_in slot) t = IsOf p pool slot t
IsAddressed settings m p pool (clock_out slot) t = IsOf p pool slot t
IsAddressed settings m p pool (cancel slot) t = IsOf p pool slot t
IsAddressed settings m p pool (nudge slot) t = IsOf p pool slot t
IsAddressed settings m p pool (force_clock_out slot) t = IsOf p pool slot t
IsAddressed settings m p pool (force_no_show slot) t = IsOf p pool slot t

-- What a request comes to: the pool is in order, and an error is not the engine's and undoes all.
record Answers (settings : Settings) (lab pool : String) (t u : Tables) (e : Option ServiceError)
    : Type 0 where
  in_order : Good settings lab pool u
  not_engine : e ≢ some engine_failed
  undone : (e ≡ none) ⊎ (u ≡ t)

-- The preambles fail with no error of the engine's, and find rows of the table.
module _ (m : Moment) (p : Principal) (t : Tables) where
  resolve_error :
      (slot : String) (e : ServiceError)
      → (authorize m p t >>= λ _. resolve_slot m p.lab_id slot t) ≡ err e
      → e ≢ engine_failed
  unfolding authorize resolve_slot
  resolve_error slot e h q = ground arith

  pool_error :
      (pool : String) (e : ServiceError)
      → (authorize m p t >>= λ _. pool_in_lab m p.lab_id pool t) ≡ err e
      → e ≢ engine_failed
  unfolding authorize pool_in_lab
  pool_error pool e h q = ground arith

  resolved :
      (slot : String) (s : Slot)
      → (authorize m p t >>= λ _. resolve_slot m p.lab_id slot t) ≡ ok s
      → slot_by_id p.lab_id slot t ≡ some s
  unfolding authorize resolve_slot
  resolved slot s h = ground arith

module _ (settings : Settings) (m : Moment) (p : Principal) (pool : String) (t : Tables)
    (g : Good settings p.lab_id pool t) where
  abbrev AnswersIn : {A : Type 0} → Tables × Attempt A → Type 0
  AnswersIn r = Answers settings p.lab_id pool t r.0 (error_in r.1)

  fails : (A : Type 0) (e : ServiceError) → e ≢ engine_failed → AnswersIn {A = A} (t, err e)
  fails A e n = record { in_order = g; not_engine = λ h. n (ground arith); undone = inr refl }

  succeeds : {A : Type 0} (u : Tables) (a : A) → Good settings p.lab_id pool u → AnswersIn (u, ok a)
  succeeds u a h = record { in_order = h; not_engine = λ q. ground arith; undone = inl refl }

  mutate-Answers :
      (event : Event)
      → Admits pool event (list_live_slots p.lab_id pool t)
      → IsNew event (list_live_slots p.lab_id pool t)
      → AnswersIn (mutate settings m p pool event t)
  mutate-Answers event a n = elim (mutate_lem settings m p pool event t g a n) [
    | inl (e, h, inl (x, d)) ↦ rw h (fails Result e (λ q. ground arith))
    | inl (e, h, inr (x, o, d)) ↦ rw h (fails Result e (λ q. error_of_ne x (sym d ∙ q)))
    | inr (u, s, h, c) ↦ rw h (succeeds u s (Committed-Good settings m p pool event t g a n u s c))
  ]

  slot_event-Answers :
      (event : String → String → Event) (slot : String)
      → IsOf p pool slot t
      → ((user id : String) → Admits pool (event user id) (list_live_slots p.lab_id pool t))
      → ((user id : String) → IsNew (event user id) (list_live_slots p.lab_id pool t))
      → AnswersIn (slot_event settings m p event slot t)
  unfolding slot_event
  slot_event-Answers event slot own a n =
      elim (Attempt-cases (authorize m p t >>= λ _. resolve_slot m p.lab_id slot t)) [
        | inl (e, h) ↦ rw (h, slot_event) (fails Result e (resolve_error m p t slot e h))
        | inr (target, h) ↦
            rw (h, slot_event)
              (subst (λ q. AnswersIn (mutate settings m p q (event p.user_id slot) t))
                (sym (own target (resolved m p t slot target h)))
                (mutate-Answers (event p.user_id slot) (a p.user_id slot) (n p.user_id slot)))
      ]

  create-Answers :
      (params : CreateParams)
      → Booking settings m p pool params t
      → AnswersIn (create_slot settings m p params t)
  unfolding create_slot
  create-Answers params (own, b, new, fit) =
      elim (Attempt-cases
        (authorize m p t >>= λ _. pool_in_lab m p.lab_id params.resource_pool_id t)) [
          | inl (e, h) ↦
              rw (h, create_slot) (fails Result e (pool_error m p t params.resource_pool_id e h))
          | inr (found, h) ↦
              rw (h, create_slot)
                (subst
                  (λ q.
                    AnswersIn (mutate settings m p q (creates m.fresh p.lab_id p.user_id params) t))
                  (sym own)
                  (mutate-Answers (creates m.fresh p.lab_id p.user_id params) b (new, fit)))
        ]

  poked_error :
      (o : Option EventError) (target : Option Slot) (e : ServiceError)
      → poked settings m p o target ≡ err e
      → e ≢ engine_failed
  poked_error (some x) target e h q = error_of_ne x (ground arith)
  poked_error none none e h q = ground arith
  poked_error none (some s) e h q = ground arith

  nothing_written :
      (ws : List Slot) (u : Tables) → ws ≡ [] → write_slots m.faults ws t ≡ ok u → u ≡ t
  unfolding write_slots
  nothing_written [] u e h = ground arith
  nothing_written (w ∷ ws) u e h = absurd (ground arith)

  poke_pool-Answers :
      (slot q : String) → AnswersIn (with_pool m.faults p.lab_id q (poke_pool settings m p slot) t)
  unfolding poke_pool
  poke_pool-Answers slot q =
      elim (with_pool_lem m.faults p.lab_id q (poke_pool settings m p slot) t) [
        | inl (e, h, inl (x, d)) ↦ rw h (fails (Unit {0}) e (λ n. ground arith))
        | inl (e, h, inr f) ↦ rw h (fails (Unit {0}) e (poked_error _ _ e f))
        | inr (u, a, h, c) ↦
            let same =
              nothing_written c.mutation.slots c.written
                (poked_slots settings m p _ _ c.mutation a c.called) c.slots_written in
            let o = write_outbox-same m.faults c.mutation.outbox c.written u c.outbox_written in
            rw h (
              succeeds u a (
                Good-same settings p.lab_id pool c.written u o.0 o.1
                  (subst (Good settings p.lab_id pool) (sym same) g)))
      ]

  poke-Answers : (slot : String) → AnswersIn (poke_user settings m p slot t)
  unfolding poke_user
  poke-Answers slot =
      elim (Attempt-cases (authorize m p t >>= λ _. resolve_slot m p.lab_id slot t)) [
        | inl (e, h) ↦ rw (h, poke_user) (fails (Unit {0}) e (resolve_error m p t slot e h))
        | inr (target, h) ↦ rw (h, poke_user) (poke_pool-Answers slot target.resource_pool_id)
      ]

  serve-Answers :
      (request : Request)
      → IsAddressed settings m p pool request t
      → Answers settings p.lab_id pool t
          (serve settings m p request t).0
          (serve settings m p request t).1
  unfolding serve clock_user_in clock_user_out cancel_slot force_clock_user_out force_user_no_show
  serve-Answers (book params) own = create-Answers params own
  serve-Answers (clock_in slot) own =
      slot_event-Answers clocks_in slot own (λ user id. tt) (λ user id. tt)
  serve-Answers (clock_out slot) own =
      slot_event-Answers clocks_out slot own (λ user id. tt) (λ user id. tt)
  serve-Answers (cancel slot) own =
      slot_event-Answers cancels slot own (λ user id. tt) (λ user id. tt)
  serve-Answers (nudge slot) own = poke-Answers slot
  serve-Answers (force_clock_out slot) own =
      slot_event-Answers forces_out slot own (λ user id. tt) (λ user id. tt)
  serve-Answers (force_no_show slot) own =
      slot_event-Answers forces_no_show slot own (λ user id. tt) (λ user id. tt)

-- Tables that requests to the pool lead to, each at its own moment, by its own user, with its faults.
pub data Reach (settings : Settings) (lab pool : String) (t : Tables) : Tables → Type 0 where
  here : Reach settings lab pool t t
  next :
      {u v : Tables}
      → Reach settings lab pool t u
      → (m : Moment) (p : Principal) (request : Request) → p.lab_id ≡ lab
      → IsAddressed settings m p pool request u
      → v ≡ (serve settings m p request u).0
      → Reach settings lab pool t v

-- What the next request to the pool comes to: an error is not the engine's, and undoes all.
abbrev pub IsServed : Settings → String → String → Tables → Type 0
IsServed settings lab pool u =
    (m : Moment) (p : Principal) (request : Request)
    → p.lab_id ≡ lab
    → IsAddressed settings m p pool request u
    → ((serve settings m p request u).1 ≢ some engine_failed)
      × (((serve settings m p request u).1 ≡ none) ⊎ ((serve settings m p request u).0 ≡ u))

-- A pool in order is in order after any requests to it, whoever makes them, at whatever instants, and
-- whatever the database refuses; and no request fails by the engine, or fails and leaves a change. A
-- request is to be of the pool's lab, and to name the pool or a slot of it; a booking is to have a new
-- id, a positive duration that does not overflow and no negative lookahead, and the priorities are
-- not to have run out of int32.
pub requests-Good :
    (settings : Settings) (lab pool : String) (t u : Tables)
    → Good settings lab pool t
    → Reach settings lab pool t u
    → Good settings lab pool u × IsServed settings lab pool u
requests-Good settings lab pool t u g r = let h = reached u r in (h, served u h)
  where
    answers :
        (v : Tables) (m : Moment) (p : Principal) (request : Request)
        → p.lab_id ≡ lab
        → Good settings lab pool v
        → IsAddressed settings m p pool request v
        → Answers settings lab pool v
            (serve settings m p request v).0
            (serve settings m p request v).1
    answers v m p request e h own =
        subst
          (λ l.
            Answers settings l pool v (serve settings m p request v).0
              (serve settings m p request v).1)
          e
          (serve-Answers settings m p pool v (subst (λ l. Good settings l pool v) (sym e) h) request
            own)

    reached : (v : Tables) → Reach settings lab pool t v → Good settings lab pool v
    reached v here = g
    reached v (next {u = w} s m p request e own q) =
        subst (Good settings lab pool) (sym q) (answers w m p request e (reached w s) own).in_order

    served : (v : Tables) → Good settings lab pool v → IsServed settings lab pool v
    served v h m p request e own = let a = answers v m p request e h own in (a.not_engine, a.undone)
