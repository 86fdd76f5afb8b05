-- ===== src/Operator/TornDown.antt =====
-- A lab that is torn down by `DeleteLab` of backend/internal/store/pgstore/operator.go.
use qlab.Base.{
  any-In, ◌≡◌, refl, ap, ◌∙◌, ◌≢◌, ℕ, true, false, List, [], ◌∷◌, none, String, All, str_eq, eq_iff,
  arith, any,
}
use qlab.Scheduling.Store.{Slot, Resource}
use qlab.Scheduling.Notify.{OutboxRow}
use qlab.Scheduling.Tables.{ResourcePool, Membership, ok}
use qlab.Operator.{
  LabRow, ProvisionSpec, LabWorkspace, World, OperatorFaults, outside, tables_without, new_lab,
  create_lab_workspace, delete_lab,
}
use qlab.Operator.Made.{create_lab_workspace_lem}

-- No row is of the lab.
pub record NoRows (lab : String) (w : World) : Type 0 where
  pub labs : All (λ (l : LabRow). l.id ≢ lab) w.labs
  pub slots : All (λ (s : Slot). s.lab_id ≢ lab) w.tables.slots
  pub resources : All (λ (r : Resource). r.lab_id ≢ lab) w.tables.resources
  pub pools : All (λ (p : ResourcePool). p.lab_id ≢ lab) w.tables.pools
  pub members : All (λ (m : Membership). m.lab_id ≢ lab) w.tables.members
  pub outbox : All (λ (r : OutboxRow). r.lab_id ≢ lab) w.tables.outbox

outside_all :
    {A : Type 0} (f : A → String) (lab : String) (xs : List A)
    → All (λ x. f x ≢ lab) xs
    → outside f lab xs ≡ xs
outside_all f lab [] h = refl
outside_all f lab (x ∷ xs) h =
    let c : str_eq (f x) lab ≡ false = ground (arith, eq_iff (f x) lab) in
    rw c (ap (λ ys. x ∷ ys) (outside_all f lab xs h.1))

tables_without_none :
    (lab : String) (w : World) → NoRows lab w → tables_without lab w.tables ≡ w.tables
tables_without_none lab w n =
    rw
      (
        outside_all (λ (s : Slot). s.lab_id) lab w.tables.slots n.slots,
        outside_all (λ (r : Resource). r.lab_id) lab w.tables.resources n.resources,
        outside_all (λ (p : ResourcePool). p.lab_id) lab w.tables.pools n.pools,
        outside_all (λ (m : Membership). m.lab_id) lab w.tables.members n.members,
        outside_all (λ (r : OutboxRow). r.lab_id) lab w.tables.outbox n.outbox,
      )
      refl

-- A lab that was provisioned and is torn down again leaves the labs and all tables as they were before,
-- whatever was asked for; the users that it made stay. No row had the new lab's id before, and the
-- deletion itself does not fail.
pub provisioned_torn_down :
    (faults : OperatorFaults) (draw : ℕ → String) (spec : ProvisionSpec) (w u : World)
    (made : LabWorkspace)
    → NoRows (draw 0) w
    → create_lab_workspace faults draw spec w ≡ (u, ok made)
    → delete_lab none made.lab.id u
      ≡ (record { labs = w.labs; users = u.users; tables = w.tables }, ok tt)
unfolding delete_lab
provisioned_torn_down faults draw spec w u made n h =
    let i = create_lab_workspace_lem faults draw spec w u made h in
    let listed : any (λ (l : LabRow). str_eq l.id (draw 0)) u.labs ≡ true =
      any-In _ u.labs (new_lab faults draw spec) i.listed ((eq_iff (draw 0) (draw 0)).1 refl) in
    rw i.lab_is (
      rw listed (
        rw
          (
            i.grown_from.labs_gone ∙ outside_all (λ (l : LabRow). l.id) (draw 0) w.labs n.labs,
            i.grown_from.tables_gone ∙ tables_without_none (draw 0) w n,
          )
          refl))
