-- ===== src/Operator/Made.antt =====
-- What comes of `CreateLabWorkspace` of backend/internal/store/pgstore/operator.go when it returns.
use qlab.Base.{
  ◌≡◌, refl, ap, ◌∙◌, subst, ◌⊎◌, inl, inr, ℕ, suc, zero, List, String, arith, All, All-imp, In,
  Option-cases,
}
use qlab.Scheduling.Store.{Resource}
use qlab.Scheduling.Tables.{ResourcePool, head_role, Attempt, ok}
use qlab.Scheduling.Tables.Commits.{Attempt-cases}
use qlab.Operator.{
  LabRow, tables_without, MemberRow, LabWorkspace, World, ProvisionSpec, OperatorFaults, turns,
  pool_draw, new_lab, new_pool, with_lab, with_pool_row, enrol, equip, create_member,
  create_members, new_resource, provisioning, create_lab_workspace,
}
use qlab.Operator.Inserts.{
  In-old, In-new, outside_one, Grown, Grown-trans, Joined, ok_injective, create_member_lem,
  create_members_lem, create_resources_lem,
}

module _ (faults : OperatorFaults) (draw : ℕ → String) (spec : ProvisionSpec) (w : World) where
  abbrev pub first_hood : Resource
  first_hood =
      new_resource faults draw (draw 0) (new_lab faults draw spec).name
        (draw (pool_draw faults draw spec)) 1 (suc (pool_draw faults draw spec))

  -- What has come of the lab, its pool and its people.
  pub record IsMade (u : World) (made : LabWorkspace) : Type 0 where
    pub grown_from : Grown draw (draw 0) w u
    pub joined : All (Joined draw (draw 0) u) made.members
    pub stocked : (turns spec.resource_count ≡ zero) ⊎ In first_hood u.tables.resources
    pub listed : In (new_lab faults draw spec) u.labs
    pub lab_is : made.lab.id ≡ draw 0
    pub pool_is : made.pool.id ≡ draw (pool_draw faults draw spec)

  enrol_lem :
      (v u : World) (ms : List MemberRow)
      → enrol faults draw spec v ≡ ok (u, ms)
      → Grown draw (draw 0) v u × All (Joined draw (draw 0) u) ms
  unfolding enrol
  enrol_lem v u ms h =
      elim (Attempt-cases (create_member faults draw (draw 0) name head_role "head" 1 v)) [
        | inl (x, e) ↦ absurd (let j = rw (e, enrol) at h in ground arith)
        | inr ((v1, m), e) ↦
            elim (Attempt-cases
              (create_members faults draw (draw 0) name (turns spec.member_count) 1 3 v1)) [
                | inl (x, f) ↦ absurd (let j = rw f at (rw (e, enrol) at h) in ground arith)
                | inr ((v2, rest), f) ↦
                    let (g, j) =
                      create_member_lem draw (draw 0) faults name head_role "head" 1 v v1 m e in
                    let (g', js) =
                      create_members_lem draw (draw 0) faults name _ 1 3 v1 v2 rest f in
                    subst
                      (λ (q : World × List MemberRow).
                        Grown draw (draw 0) v q.0 × All (Joined draw (draw 0) q.0) q.1)
                      (ok_injective _ _ (rw f at (rw (e, enrol) at h)))
                      (Grown-trans draw (draw 0) v v1 v2 g g', (g'.members _ j, js))
              ]
      ]
    where
      name : String
      name = (new_lab faults draw spec).name

  equip_lem :
      (v u : World) (rs : List Resource)
      → equip faults draw spec v ≡ ok (u, rs)
      → Grown draw (draw 0) v u
        × ((turns spec.resource_count ≡ zero) ⊎ In first_hood u.tables.resources)
  unfolding equip
  equip_lem v u rs h = elim (Option-cases (faults.pool_refused (new_pool faults draw spec))) [
    | inr (x, e) ↦ absurd (let j = rw (e, equip) at h in ground arith)
    | inl e ↦
        let (g, s) =
          create_resources_lem draw (draw 0) faults (new_lab faults draw spec).name
            (draw (pool_draw faults draw spec)) _ 1 _ (with_pool_row (new_pool faults draw spec) v)
            u rs (rw (e, equip) at h) in
        (
          Grown-trans draw (draw 0) v (with_pool_row (new_pool faults draw spec) v) u
              (record {
                same_slots = refl;
                members = λ m k. k;
                resources = λ r k. k;
                drawn = λ d. d;
                labs = λ l k. k;
                tables_gone =
                    ap (λ ps. record (tables_without (draw 0) v.tables) { pools = ps })
                      (outside_one (λ (p : ResourcePool). p.lab_id) (draw 0) v.tables.pools
                        (new_pool faults draw spec) refl);
                labs_gone = refl;
              })
              g,
          s,
        )
  ]

  lab-Grown : (l : LabRow) → l.id ≡ draw 0 → Grown draw (draw 0) w (with_lab l w)
  lab-Grown l e = record {
    same_slots = refl;
    members = λ m k. k;
    resources = λ r k. k;
    drawn = λ d. d;
    labs = λ r k. In-old w.labs r l k;
    tables_gone = refl;
    labs_gone = outside_one (λ (r : LabRow). r.id) (draw 0) w.labs l e;
  }

  provisioning_lem :
      (u : World) (made : LabWorkspace)
      → provisioning faults draw spec w ≡ ok (u, made)
      → IsMade u made
  unfolding provisioning
  provisioning_lem u made h = elim (Option-cases faults.begins) [
    | inr (x, e) ↦ absurd (let j = rw (e, provisioning) at h in ground arith)
    | inl e1 ↦ elim (Option-cases (faults.lab_refused (new_lab faults draw spec))) [
      | inr (x, e) ↦ absurd (let j = rw e at (rw (e1, provisioning) at h) in ground arith)
      | inl e2 ↦
          elim (Attempt-cases (enrol faults draw spec (with_lab (new_lab faults draw spec) w))) [
            | inl (x, e) ↦
                absurd (let j = rw e at (rw e2 at (rw (e1, provisioning) at h)) in ground arith)
            | inr ((v, ms), e3) ↦ elim (Attempt-cases (equip faults draw spec v)) [
              | inl (x, e) ↦ absurd (
                  let j = rw e at (rw e3 at (rw e2 at (rw (e1, provisioning) at h))) in
                  ground arith)
              | inr ((z, rs), e4) ↦ elim (Option-cases faults.commits) [
                | inr (x, e) ↦ absurd (
                    let j = rw e at (rw e4 at (rw e3 at (rw e2 at (rw (e1, provisioning) at h)))) in
                    ground arith)
                | inl e5 ↦
                    let (g, js) = enrol_lem _ v ms e3 in
                    let (g', s) = equip_lem v z rs e4 in
                    subst (λ (q : World × LabWorkspace). IsMade q.0 q.1)
                      (ok_injective _ _
                        (rw e5 at (rw e4 at (rw e3 at (rw e2 at (rw (e1, provisioning) at h))))))
                      (record {
                        grown_from =
                            Grown-trans draw (draw 0) w (with_lab (new_lab faults draw spec) w) z
                              (lab-Grown (new_lab faults draw spec) refl)
                              (Grown-trans draw (draw 0) (with_lab (new_lab faults draw spec) w) v z
                                g g');
                        joined =
                            All-imp (Joined draw (draw 0) v) (Joined draw (draw 0) z) ms
                              (λ m k. g'.members _ k) js;
                        stocked = s;
                        listed =
                            (Grown-trans draw (draw 0) _ v z g g').labs _
                              (In-new w.labs (new_lab faults draw spec));
                        lab_is = refl;
                        pool_is = refl;
                      })
              ]
            ]
          ]
    ]
  ]

  pub create_lab_workspace_lem :
      (u : World) (made : LabWorkspace)
      → create_lab_workspace faults draw spec w ≡ (u, ok made)
      → IsMade u made
  unfolding create_lab_workspace
  create_lab_workspace_lem u made h = elim (Attempt-cases (provisioning faults draw spec w)) [
    | inl (x, e) ↦ absurd (let j = rw (e, create_lab_workspace) at h in ground arith)
    | inr ((v, m), e) ↦
        let j = rw (e, create_lab_workspace) at h in provisioning_lem u made (e ∙ ap ok (paired j))
  ]
    where
      paired :
          {v : World}
          → {m : LabWorkspace} → ◌≡◌ {A = World × Attempt LabWorkspace} (v, ok m) (u, ok made)
          → ◌≡◌ {A = World × LabWorkspace} (v, m) (u, made)
      paired j = ground arith
