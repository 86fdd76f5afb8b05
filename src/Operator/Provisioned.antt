-- ===== src/Operator/Provisioned.antt =====
-- A lab that `CreateLabWorkspace` of backend/internal/store/pgstore/operator.go has made.
use qlab.Base.{
  any-In, ◌≡◌, refl, sym, ap, ◌∙◌, subst, ◌≢◌, inl, inr, ℕ, true, false, List, [], ◌∷◌, map, some,
  String, ℤ, pos, negsuc, arith, All, All-imp, AllPairs, In, In-All, In-keep, keep-In, All-In,
  sort_by, sort_by-In, All-sort_by, eq_iff, keep, ◌<ℤ◌, ◌≤ℤ◌,
}
use qlab.Scheduling.Store.{Slot}
use qlab.Scheduling.Tables.{ok, is_member, is_live_in, list_live_slots, list_resources}
use qlab.Scheduling.Tables.Upserts.{OtherId}
use qlab.Scheduling.Accepted.Persisted.{ParsesTexts}
use qlab.Scheduling.Service.{Settings}
use qlab.Scheduling.Service.Good.{Good}
use qlab.DynamicQueue.Greedy.{FitsInt64}
use qlab.Frontend.Model.{Member, member_of, workspace_from_provision}
use qlab.Operator.Respond.{member_message, provision_response}
use qlab.Operator.{
  MemberRow, LabWorkspace, World, ProvisionSpec, OperatorFaults, turns, pool_draw,
  create_lab_workspace,
}
use qlab.Operator.Inserts.{Drawn, Joined}
use qlab.Operator.Made.{first_hood, IsMade, create_lab_workspace_lem}

turns_pos : (c : ℤ) → pos 0 <ℤ c → turns c ≢ 0
turns_pos (pos n) h e = omega arith
turns_pos (negsuc n) h e = omega arith

none_live :
    (lab pool : String) (ss : List Slot)
    → All (λ s. s.lab_id ≢ lab) ss
    → keep (is_live_in lab pool) ss ≡ []
none_live lab pool [] h = refl
none_live lab pool (s ∷ ss) h =
    let c : is_live_in lab pool s ≡ false = ground (arith, eq_iff s.lab_id lab) in
    rw c (none_live lab pool ss h.1)

module _ (settings : Settings) (faults : OperatorFaults) (draw : ℕ → String) (spec : ProvisionSpec)
    (w u : World) (made : LabWorkspace) where
  abbrev lab : String
  lab = draw 0

  abbrev pool : String
  pool = draw (pool_draw faults draw spec)

  resources_drawn :
      IsMade faults draw spec w u made
      → All (λ r. r.lab_id ≢ lab) w.tables.resources
      → All
          (λ r. (r.resource_pool_id ≡ pool) × ((n : ℕ) × (r.id ≡ draw n)))
          (list_resources lab pool u.tables)
  unfolding list_resources
  resources_drawn i old = All-sort_by _ _ _ (
      In-All _ _ (λ r k.
        let (j, c) = keep-In _ u.tables.resources r k in
        elim (All-In (Drawn draw lab) u.tables.resources r
          (i.grown_from.drawn (All-imp _ _ w.tables.resources (λ x n. inl n) old)) j) [
            | inl n ↦ absurd (n (ground (arith, eq_iff r.lab_id lab)))
            | inr d ↦ (ground (arith, eq_iff r.resource_pool_id pool), d)
          ]))

  has_resource :
      IsMade faults draw spec w u made
      → pos 0 <ℤ spec.resource_count
      → list_resources lab pool u.tables ≢ []
  unfolding list_resources
  has_resource i c e = elim i.stocked [
    | inl z ↦ turns_pos spec.resource_count c z
    | inr k ↦ subst (In (first_hood faults draw spec w)) e (
        sort_by-In _ _ _
          (In-keep _ u.tables.resources _ k (ground (arith, eq_iff lab lab, eq_iff pool pool))))
  ]

  no_live :
      IsMade faults draw spec w u made
      → All (λ s. s.lab_id ≢ lab) w.tables.slots
      → list_live_slots lab pool u.tables ≡ []
  unfolding list_live_slots sort_by
  no_live i h = ap (sort_by _) (
      none_live lab pool u.tables.slots
        (subst (All (λ s. s.lab_id ≢ lab)) (sym i.grown_from.same_slots) h))

  members_in :
      (ms : List MemberRow)
      → All (Joined draw lab u) ms
      → All
          (λ (m : Member). is_member lab m.user_id u.tables ≡ true)
          (map member_of (map member_message ms))
  unfolding is_member member_of
  members_in [] h = tt
  members_in (m ∷ ms) h = (
    any-In _ u.tables.members _ h.0 (ground (arith, eq_iff lab lab, eq_iff m.user.id m.user.id)),
    members_in ms h.1,
  )

  -- A lab that was provisioned with a resource or more is a pool in order, from which any requests can
  -- go on; all that the frontend then offers to act as are its members, and the slots of other labs are as
  -- they were. What is drawn are uuids, whose texts are not empty; ids of slots are keys; no slot and no
  -- resource has the new lab's id yet; the grace is not negative and does not overflow.
  pub provisioned-Good :
      ParsesTexts settings.parse
      → ((n : ℕ) → (q : String) × (settings.parse (draw n) ≡ some q))
      → ((n : ℕ) → draw n ≢ "")
      → AllPairs OtherId w.tables.slots
      → All (λ s. s.lab_id ≢ draw 0) w.tables.slots
      → All (λ r. r.lab_id ≢ draw 0) w.tables.resources
      → pos 0 ≤ℤ settings.grace
      → FitsInt64 settings.grace
      → pos 0 <ℤ spec.resource_count
      → create_lab_workspace faults draw spec w ≡ (u, ok made)
      → Good settings made.lab.id made.pool.id u.tables
        × (u.tables.slots ≡ w.tables.slots)
        × All
            (λ (m : Member). is_member made.lab.id m.user_id u.tables ≡ true)
            (workspace_from_provision (provision_response made)).members
  unfolding workspace_from_provision provision_response
  provisioned-Good texts parses filled keys new_slots new_resources nonneg fits some_count h =
      let i = create_lab_workspace_lem faults draw spec w u made h in
      let live = no_live i new_slots in
      let rs = resources_drawn i new_resources in
      rw (i.lab_is, i.pool_is)
        (
          record {
            keys = rw i.grown_from.same_slots keys;
            rows = rw live (record { rows = tt; apart = tt });
            durations_fit = rw live tt;
            pool_ok = record {
              some_resource = has_resource i some_count;
              resources_in_pool = All-imp _ _ _ (λ r d. d.0) rs;
              resource_texts = All-imp _ _ _ (λ r d e. filled d.1.0 (sym d.1.1 ∙ e)) rs;
              grace_nonneg = nonneg;
            };
            grace_fits = fits;
            ids_parse =
                All-imp _ _ _
                  (λ r d. ((parses d.1.0).0, ap settings.parse d.1.1 ∙ (parses d.1.0).1)) rs;
            texts = texts;
          },
          i.grown_from.same_slots,
          members_in made.members i.joined,
        )
