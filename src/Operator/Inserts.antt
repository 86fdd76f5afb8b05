-- ===== src/Operator/Inserts.antt =====
-- The inserts of `CreateLabWorkspace` of backend/internal/store/pgstore/operator.go.
use Prim.Native.String.{◌++◌ as ◌++ₜ◌}
use qlab.Base.{
  decimal, ◌≡◌, refl, ap, ◌∙◌, subst, ◌≢◌, ◌⊎◌, inl, inr, ℕ, suc, zero, ◌+◌, true, List, [], ◌∷◌,
  ◌++◌, String, arith, All, In, All-append_one, Bool-cases, Option-cases, str_eq, eq_iff,
}
use qlab.Scheduling.Store.{Resource}
use qlab.Scheduling.Tables.{LabRole, member_role, Membership, Attempt, ok}
use qlab.Scheduling.Tables.Commits.{Attempt-cases}
use qlab.Authentication.{UserRow}
use qlab.Operator.{
  LabRow, outside, tables_without, labs_without, MemberRow, World, OperatorFaults, with_user,
  with_membership, with_resource, create_member, create_members, create_resources, new_user,
  new_membership, new_resource,
}

pub ok_injective : {A : Type 0} (a b : A) → Attempt.ok a ≡ ok b → a ≡ b
ok_injective a b h = ground arith

pub In-old : {A : Type 0} (xs : List A) (x y : A) → In x xs → In x (xs ++ y ∷ [])
In-old [] x y k = absurd k
In-old (z ∷ xs) x y (inl e) = inl e
In-old (z ∷ xs) x y (inr k) = inr (In-old xs x y k)

pub In-new : {A : Type 0} (xs : List A) (y : A) → In y (xs ++ y ∷ [])
In-new [] y = inl refl
In-new (z ∷ xs) y = inr (In-new xs y)

-- A row of the lab is not among the rows outside of it.
pub outside_one :
    {A : Type 0} (f : A → String) (lab : String) (xs : List A) (x : A)
    → f x ≡ lab
    → outside f lab (xs ++ x ∷ []) ≡ outside f lab xs
outside_one f lab [] x e = let c : str_eq (f x) lab ≡ true = (eq_iff (f x) lab).1 e in rw c refl
outside_one f lab (y ∷ xs) x e = elim (Bool-cases (str_eq (f y) lab)) [
  | inl c ↦ rw c (outside_one f lab xs x e)
  | inr c ↦ rw c (ap (λ ys. y ∷ ys) (outside_one f lab xs x e))
]

module _ (draw : ℕ → String) (lab : String) where
  -- A resource of another lab, or one with a uuid that was drawn.
  abbrev pub Drawn : Resource → Type 0
  Drawn r = (r.lab_id ≢ lab) ⊎ ((n : ℕ) × (r.id ≡ draw n))

  -- What the inserts for the lab keep.
  pub record Grown (w u : World) : Type 0 where
    pub same_slots : u.tables.slots ≡ w.tables.slots
    pub members : (m : Membership) → In m w.tables.members → In m u.tables.members
    pub resources : (r : Resource) → In r w.tables.resources → In r u.tables.resources
    pub drawn : All Drawn w.tables.resources → All Drawn u.tables.resources
    pub labs : (l : LabRow) → In l w.labs → In l u.labs
    pub tables_gone : tables_without lab u.tables ≡ tables_without lab w.tables
    pub labs_gone : labs_without lab u.labs ≡ labs_without lab w.labs

  pub grown : (w : World) → Grown w w
  grown w = record {
    same_slots = refl;
    members = λ m k. k;
    resources = λ r k. k;
    drawn = λ h. h;
    labs = λ l k. k;
    tables_gone = refl;
    labs_gone = refl;
  }

  pub Grown-trans : (u v w : World) → Grown u v → Grown v w → Grown u w
  Grown-trans u v w g h = record {
    same_slots = h.same_slots ∙ g.same_slots;
    members = λ m k. h.members m (g.members m k);
    resources = λ r k. h.resources r (g.resources r k);
    drawn = λ d. h.drawn (g.drawn d);
    labs = λ l k. h.labs l (g.labs l k);
    tables_gone = h.tables_gone ∙ g.tables_gone;
    labs_gone = h.labs_gone ∙ g.labs_gone;
  }

  abbrev pub Joined : World → MemberRow → Type 0
  Joined u m = In (record { lab_id = lab; user_id = m.user.id; role = m.role }) u.tables.members

  module _ (faults : OperatorFaults) (feature : String) where
    user-Grown : (x : UserRow) (w : World) → Grown w (with_user x w)
    user-Grown x w = record {
      same_slots = refl;
      members = λ m k. k;
      resources = λ r k. k;
      drawn = λ h. h;
      labs = λ l k. k;
      tables_gone = refl;
      labs_gone = refl;
    }

    membership-Grown : (x : Membership) (w : World) → x.lab_id ≡ lab → Grown w (with_membership x w)
    membership-Grown x w e = record {
      same_slots = refl;
      members = λ m k. In-old w.tables.members m x k;
      resources = λ r k. k;
      drawn = λ h. h;
      labs = λ l k. k;
      tables_gone =
          ap (λ ms. record (tables_without lab w.tables) { members = ms })
            (outside_one (λ (m : Membership). m.lab_id) lab w.tables.members x e);
      labs_gone = refl;
    }

    resource-Grown :
        (x : Resource) (w : World) → Drawn x → x.lab_id ≡ lab → Grown w (with_resource x w)
    resource-Grown x w d e = record {
      same_slots = refl;
      members = λ m k. k;
      resources = λ r k. In-old w.tables.resources r x k;
      drawn = λ h. All-append_one Drawn w.tables.resources x h d;
      labs = λ l k. k;
      tables_gone =
          ap (λ rs. record (tables_without lab w.tables) { resources = rs })
            (outside_one (λ (r : Resource). r.lab_id) lab w.tables.resources x e);
      labs_gone = refl;
    }

    pub create_member_lem :
        (role : LabRole) (tag : String) (n : ℕ) (w u : World) (m : MemberRow)
        → create_member faults draw lab feature role tag n w ≡ ok (u, m)
        → Grown w u × Joined u m
    unfolding create_member
    create_member_lem role tag n w u m h =
        elim (Option-cases (faults.user_refused (new_user faults draw lab feature tag n))) [
          | inr (x, e) ↦ absurd (let k = rw (e, create_member) at h in ground arith)
          | inl e ↦
              elim (Option-cases
                (faults.membership_refused (new_membership faults draw lab feature role n))) [
                  | inr (x, f) ↦
                      absurd (let k = rw f at (rw (e, create_member) at h) in ground arith)
                  | inl f ↦ joins (rw f at (rw (e, create_member) at h))
                ]
        ]
      where
        made : World
        made = with_user (new_user faults draw lab feature tag n) w

        done : World × MemberRow
        done = (
          with_membership (new_membership faults draw lab feature role n) made,
          record { user = new_user faults draw lab feature tag n; role = role },
        )

        joins : ◌≡◌ {A = Attempt (World × MemberRow)} (ok done) (ok (u, m)) → Grown w u × Joined u m
        joins k =
            subst (λ (q : World × MemberRow). Grown w q.0 × Joined q.0 q.1) (ok_injective _ _ k)
              (
                Grown-trans w made _ (user-Grown _ w) (membership-Grown _ made refl),
                In-new w.tables.members _,
              )

    pub create_members_lem :
        (k i n : ℕ) (w u : World) (ms : List MemberRow)
        → create_members faults draw lab feature k i n w ≡ ok (u, ms)
        → Grown w u × All (Joined u) ms
    unfolding create_members
    create_members_lem zero i n w u ms h =
        subst (λ (q : World × List MemberRow). Grown w q.0 × All (Joined q.0) q.1)
          (ok_injective _ _ h) (grown w, tt)
    create_members_lem (suc k) i n w u ms h =
        elim (Attempt-cases
          (create_member faults draw lab feature member_role ("member" ++ₜ decimal i) n w)) [
            | inl (x, e) ↦ absurd (let j = rw (e, create_members) at h in ground arith)
            | inr ((v, m), e) ↦
                elim (Attempt-cases (create_members faults draw lab feature k (suc i) (2 + n) v)) [
                  | inl (x, f) ↦
                      absurd (let j = rw f at (rw (e, create_members) at h) in ground arith)
                  | inr ((v', rest), f) ↦
                      let (g, j) = create_member_lem member_role _ n w v m e in
                      let (g', js) = create_members_lem k (suc i) (2 + n) v v' rest f in
                      subst (λ (q : World × List MemberRow). Grown w q.0 × All (Joined q.0) q.1)
                        (ok_injective _ _ (rw f at (rw (e, create_members) at h)))
                        (Grown-trans w v v' g g', (g'.members _ j, js))
                ]
          ]

    pub create_resources_lem :
        (pool : String) (k i n : ℕ) (w u : World) (rs : List Resource)
        → create_resources faults draw lab feature pool k i n w ≡ ok (u, rs)
        → Grown w u
          × ((k ≡ zero) ⊎ In (new_resource faults draw lab feature pool i n) u.tables.resources)
    unfolding create_resources
    create_resources_lem pool zero i n w u rs h =
        subst
          (λ (q : World × List Resource).
            Grown w q.0
            × ((zero ≡ zero)
                ⊎ In (new_resource faults draw lab feature pool i n) q.0.tables.resources))
          (ok_injective _ _ h) (grown w, inl refl)
    create_resources_lem pool (suc k) i n w u rs h =
        elim (Option-cases (faults.resource_refused fresh)) [
          | inr (x, e) ↦ absurd (let j = rw (e, create_resources) at h in ground arith)
          | inl e ↦
              elim (Attempt-cases (
                create_resources faults draw lab feature pool k (suc i) (suc n)
                  (with_resource fresh w))) [
                    | inl (x, f) ↦
                        absurd (let j = rw f at (rw (e, create_resources) at h) in ground arith)
                    | inr ((v, rest), f) ↦
                        let (g, j) =
                          create_resources_lem pool k (suc i) (suc n) (with_resource fresh w) v rest
                            f in
                        subst
                          (λ (q : World × List Resource).
                            Grown w q.0 × ((suc k ≡ zero) ⊎ In fresh q.0.tables.resources))
                          (ok_injective _ _ (rw f at (rw (e, create_resources) at h)))
                          (
                            Grown-trans w (with_resource fresh w) v
                                (resource-Grown fresh w (inr (n, refl)) refl) g,
                            inr (g.resources fresh (In-new w.tables.resources fresh)),
                          )
                  ]
        ]
      where
        fresh : Resource
        fresh = new_resource faults draw lab feature pool i n
