-- ===== src/Scheduling/Service/Undone.antt =====
-- A request to backend/internal/services/scheduling/v1 that fails leaves the tables as they were.
use qlab.Base.{◌≡◌, refl, inl, inr, String}
use qlab.Scheduling.Events.{CreateParams, Event, creates}
use qlab.Scheduling.Tables.{
  Tables, PoolState, PoolMutation, Attempt, ok, err, Faults, settled, transaction, with_pool, ◌>>=◌,
}
use qlab.Scheduling.Tables.Commits.{Attempt-cases}
use qlab.Scheduling.Service.{
  Settings, Moment, Principal, authorize, resolve_slot, pool_in_lab, mutate, create_slot,
  slot_event, reschedule_pool, poke_pool, poke_user,
}

abbrev pub IsUndone : {A : Type 0} → Tables → Tables × Attempt A → Type 0
IsUndone t (u, err e) = u ≡ t
IsUndone t (u, ok a) = Unit

settled-IsUndone : {A : Type 0} (t : Tables) (r : Attempt (Tables × A)) → IsUndone t (settled t r)
settled-IsUndone t (ok (u, a)) = tt
settled-IsUndone t (err e) = refl

with_pool-IsUndone :
    {A : Type 0} (f : Faults) (lab pool : String) (fn : PoolState → Attempt (PoolMutation × A))
    (t : Tables)
    → IsUndone t (with_pool f lab pool fn t)
unfolding with_pool
with_pool-IsUndone f lab pool fn t = settled-IsUndone t (transaction f lab pool fn t)

module _ (settings : Settings) (m : Moment) (p : Principal) (t : Tables) where
  mutate-IsUndone : (pool : String) (event : Event) → IsUndone t (mutate settings m p pool event t)
  unfolding mutate
  mutate-IsUndone pool event =
      with_pool-IsUndone m.faults p.lab_id pool (reschedule_pool settings m p pool event) t

  pub slot_event-IsUndone :
      (event : String → String → Event) (slot : String)
      → IsUndone t (slot_event settings m p event slot t)
  unfolding slot_event
  slot_event-IsUndone event slot =
      elim (Attempt-cases (authorize m p t >>= λ _. resolve_slot m p.lab_id slot t)) [
        | inl (e, h) ↦ rw (h, slot_event) refl
        | inr (target, h) ↦
            rw (h, slot_event) (mutate-IsUndone target.resource_pool_id (event p.user_id slot))
      ]

  pub create_slot-IsUndone :
      (params : CreateParams) → IsUndone t (create_slot settings m p params t)
  unfolding create_slot
  create_slot-IsUndone params =
      elim (Attempt-cases
        (authorize m p t >>= λ _. pool_in_lab m p.lab_id params.resource_pool_id t)) [
          | inl (e, h) ↦ rw (h, create_slot) refl
          | inr (pool, h) ↦
              rw (h, create_slot)
                (mutate-IsUndone params.resource_pool_id
                  (creates m.fresh p.lab_id p.user_id params))
        ]

  pub poke_user-IsUndone : (slot : String) → IsUndone t (poke_user settings m p slot t)
  unfolding poke_user
  poke_user-IsUndone slot =
      elim (Attempt-cases (authorize m p t >>= λ _. resolve_slot m p.lab_id slot t)) [
        | inl (e, h) ↦ rw (h, poke_user) refl
        | inr (target, h) ↦
            rw (h, poke_user)
              (with_pool-IsUndone m.faults p.lab_id target.resource_pool_id
                (poke_pool settings m p slot) t)
      ]
