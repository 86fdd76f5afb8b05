-- ===== src/Api/Served.antt =====
-- A schedule on its way from backend/internal/api/convert.go to the rows of
-- frontend/src/components/PoolPanel.tsx.
use qlab.Base.{
  ◌≡◌, refl, sym, ap, ◌∙◌, ◌≢◌, inl, inr, ℕ, false, List, [], ◌∷◌, map, Option, none, some, String,
  if◌then◌else◌, Map, lookup, insert, lookup-insert_self, lookup-insert_ne, All, AllPairs, In,
  str_eq,
}
use qlab.Scheduling.Store.{
  Slot, SlotStatus, scheduled, active, complete, cancelled, no_show, unknown,
}
use qlab.Scheduling.Apply.{Position, Schedule}
use qlab.Frontend.Proto.{SlotPositionMessage}
use qlab.Frontend.SlotUi.{SlotRow, is_active}
use qlab.Frontend.PoolPanel.{MapContext, pos_by_slot, flag_of, reclaimable, row_of, result_to_rows}
use qlab.Api.Convert.{uuid_text, status_message, slot_message, position_message, result_to_proto}

module _ {Timestamp : Type 0} where
  pos_by_slot-miss :
      (k : String) (ps : List (SlotPositionMessage Timestamp))
      (m : Map (SlotPositionMessage Timestamp))
      → All (λ p. p.slot_id ≢ k) ps
      → lookup k (pos_by_slot ps m) ≡ lookup k m
  unfolding pos_by_slot
  pos_by_slot-miss k [] m h = refl
  pos_by_slot-miss k (p ∷ ps) m h =
      pos_by_slot-miss k ps (insert p.slot_id p m) h.1 ∙ lookup-insert_ne p.slot_id k p m h.0

-- The resource of a slot that is running, and of no other.
abbrev pub running_on : SlotStatus → String → Option String
running_on active r = some r
running_on _ r = none

running_on_lem :
    (status : SlotStatus) (r : String)
    → (if is_active (status_message status) then some r else none) ≡ running_on status r
unfolding status_message
running_on_lem scheduled r = refl
running_on_lem active r = refl
running_on_lem complete r = refl
running_on_lem cancelled r = refl
running_on_lem no_show r = refl
running_on_lem unknown r = refl

module _ {Timestamp : Type 0} (timestamp_of : ℕ → Timestamp) where
  abbrev pub OtherSlot : Position → Position → Type 0
  OtherSlot p q = p.slot_id ≢ q.slot_id

  others :
      (k : String) (ps : List Position)
      → All (λ p. p.slot_id ≢ k) ps
      → All (λ q. q.slot_id ≢ k) (map (position_message timestamp_of) ps)
  unfolding position_message
  others k [] h = tt
  others k (p ∷ ps) h = (h.0, others k ps h.1)

  flag_found :
      (ps : List Position) (p : Position) (m : Map (SlotPositionMessage Timestamp))
      → AllPairs OtherSlot ps
      → In p ps
      → flag_of (lookup p.slot_id (pos_by_slot (map (position_message timestamp_of) ps) m))
        ≡ p.reclaimable
  unfolding pos_by_slot position_message
  flag_found [] p m h k = absurd k
  flag_found (q ∷ ps) p m h (inl e) =
      ap flag_of (
        pos_by_slot-miss p.slot_id (map (position_message timestamp_of) ps)
          (insert q.slot_id (position_message timestamp_of q) m)
          (others p.slot_id ps (rw e (flipped ps h.0)))
        ∙ ap (λ i. lookup i (insert q.slot_id (position_message timestamp_of q) m))
            (ap (λ (r : Position). r.slot_id) e)
        ∙ lookup-insert_self q.slot_id (position_message timestamp_of q) m)
      ∙ ap (λ (r : Position). r.reclaimable) (sym e)
    where
      flipped : (rs : List Position) → All (OtherSlot q) rs → All (λ r. r.slot_id ≢ q.slot_id) rs
      flipped [] a = tt
      flipped (r ∷ rs) a = ((λ i. a.0 (sym i)), flipped rs a.1)
  flag_found (q ∷ ps) p m h (inr k) =
      flag_found ps p (insert q.slot_id (position_message timestamp_of q) m) h.1 k

  -- The rows of a served schedule stand for its slots, in their order. A row has its slot's id and
  -- status, is the viewer's own exactly if the slot is, shows the resource of an ACTIVE slot alone,
  -- and is reclaimable if its slot's position is flagged so; without a position it is not. No two
  -- positions are of one slot.
  pub served_rows :
      (timestamp_date : Timestamp → ℕ) (pool : String) (r : Schedule) (ctx : MapContext)
      → AllPairs OtherSlot r.positions
      → let shown = result_to_proto timestamp_of pool r in
        (map (λ (w : SlotRow). w.slot_id) (result_to_rows timestamp_date (some shown) ctx)
          ≡ map (λ (s : Slot). s.id) r.slots)
        × ((s : Slot)
            → let row = row_of timestamp_date shown ctx (slot_message timestamp_of s) in
              (row.slot_id ≡ s.id)
              × (row.status ≡ status_message s.status)
              × (row.is_you ≡ str_eq s.user_id ctx.current_user_id)
              × (row.resource_id ≡ running_on s.status (uuid_text s.resource_id))
              × ((p : Position)
                  → In p r.positions
                  → p.slot_id ≡ s.id
                  → row.reclaimable ≡ p.reclaimable)
              × (All (λ p. p.slot_id ≢ s.id) r.positions → row.reclaimable ≡ false))
  unfolding result_to_proto result_to_rows row_of slot_message reclaimable lookup
  served_rows timestamp_date pool r ctx h = (
    ids r.slots,
    λ s. (
      refl,
      refl,
      refl,
      running_on_lem s.status (uuid_text s.resource_id),
      λ p k e.
          ap
            (λ i.
              flag_of (lookup i (pos_by_slot (map (position_message timestamp_of) r.positions) [])))
            (sym e)
          ∙ flag_found r.positions p [] h k,
      λ a. ap flag_of (
          pos_by_slot-miss s.id (map (position_message timestamp_of) r.positions) []
            (others s.id r.positions a)),
    ),
  )
    where
      ids :
          (ss : List Slot)
          → map
              (λ (w : SlotRow). w.slot_id)
              (map
                (row_of timestamp_date (result_to_proto timestamp_of pool r) ctx)
                (map (slot_message timestamp_of) ss))
            ≡ map (λ (s : Slot). s.id) ss
      ids [] = refl
      ids (s ∷ ss) = ap (λ l. s.id ∷ l) (ids ss)
