-- ===== src/Scheduling/Tables/Labs.antt =====
-- What the upserts of `WithPool` of backend/internal/store/pgstore/pool.go leave to other labs.
use qlab.Base.{
  ◌≡◌, refl, sym, ap, ◌∙◌, subst, ◌≢◌, ◌⊎◌, inl, inr, true, false, List, [], ◌∷◌, String, arith,
  All, All-imp, In, Bool-cases, Option-cases, str_eq, eq_iff,
}
use qlab.Scheduling.Store.{Slot}
use qlab.Scheduling.Notify.{OutboxRow}
use qlab.Scheduling.Tables.{
  Tables, ok, Faults, upsert_slot, insert_outbox, stored, write_slots, write_outbox,
}

-- Of two tables: the rows of labs other than `lab` are the same, none lost and none added.
pub record SameElsewhere {A : Type 0} (lab_of : A → String) (lab : String) (xs ys : List A)
    : Type 0 where
  pub kept : (x : A) → In x xs → lab_of x ≢ lab → In x ys
  pub none_added : (x : A) → In x ys → lab_of x ≢ lab → In x xs

abbrev pub slot_lab : Slot → String
slot_lab s = s.lab_id

abbrev pub row_lab : OutboxRow → String
row_lab r = r.lab_id

-- The id and the lab of a slot that may be written for the lab: no row of another lab has that id.
abbrev pub IsOwn : String → List Slot → String → String → Type 0
IsOwn lab rows id slot_lab =
    (slot_lab ≡ lab) × ((x : Slot) → In x rows → x.id ≡ id → x.lab_id ≡ lab)

upsert_slot-kept :
    (new x : Slot) (rows : List Slot) → new.id ≢ x.id → In x rows → In x (upsert_slot new rows)
unfolding upsert_slot
upsert_slot-kept new x [] n k = absurd k
upsert_slot-kept new x (old ∷ rows) n (inl e) = ground (arith, eq_iff old.id new.id)
upsert_slot-kept new x (old ∷ rows) n (inr k) = elim (Bool-cases (str_eq old.id new.id)) [
  | inl c ↦ rw c (inr k)
  | inr c ↦ rw c (inr (upsert_slot-kept new x rows n k))
]

upsert_slot-lab :
    (lab : String) (new x : Slot) (rows : List Slot)
    → IsOwn lab rows new.id new.lab_id
    → In x (upsert_slot new rows)
    → (x.lab_id ≡ lab) ⊎ In x rows
unfolding upsert_slot
upsert_slot-lab lab new x [] o (inl e) = inl (ap slot_lab e ∙ o.0)
upsert_slot-lab lab new x [] o (inr k) = absurd k
upsert_slot-lab lab new x (old ∷ rows) o k =
    split (Bool-cases (str_eq old.id new.id))
      (upsert_slot-lab lab new x rows (o.0, λ y i. o.1 y (inr i)))
  where
    split :
        (str_eq old.id new.id ≡ true) ⊎ (str_eq old.id new.id ≡ false)
        → (In x (upsert_slot new rows) → (x.lab_id ≡ lab) ⊎ In x rows)
        → (x.lab_id ≡ lab) ⊎ In x (old ∷ rows)
    split (inl c) f = elim (rw c at k) [
      | inl e ↦ inl (ap slot_lab e ∙ o.1 old (inl refl) ((eq_iff old.id new.id).0 c))
      | inr i ↦ inr (inr i)
    ]
    split (inr c) f = elim (rw c at k) [
      | inl e ↦ inr (inl e)
      | inr i ↦ elim (f i) [ inl e ↦ inl e | inr j ↦ inr (inr j) ]
    ]

module _ (faults : Faults) (lab : String) where
  -- Rows that may be written for the lab.
  abbrev pub AllOwn : List Slot → List Slot → Type 0
  AllOwn rows = All (λ w. IsOwn lab rows w.id w.lab_id)

  upserted-AllOwn :
      (w : Slot) (rows ws : List Slot)
      → IsOwn lab rows w.id w.lab_id
      → AllOwn rows ws
      → AllOwn (upsert_slot w rows) ws
  upserted-AllOwn w rows ws o a =
      All-imp _ _ ws
        (λ v (l, f).
          (l, λ x i e. elim (upsert_slot-lab lab w x rows o i) [ inl h ↦ h | inr j ↦ f x j e ]))
        a

  ok_inj : (a b : Tables) → ok a ≡ ok b → a ≡ b
  ok_inj a b q = cc

  pub write_slots-SameElsewhere :
      (ws : List Slot) (t u : Tables)
      → AllOwn t.slots ws
      → write_slots faults ws t ≡ ok u
      → SameElsewhere slot_lab lab t.slots u.slots
  unfolding write_slots
  write_slots-SameElsewhere [] t u a e = record {
    kept = λ x k n. subst (λ v. In x v.slots) (ok_inj t u e) k;
    none_added = λ x k n. subst (λ v. In x v.slots) (sym (ok_inj t u e)) k;
  }
  write_slots-SameElsewhere (w ∷ ws) t u a e = elim (Option-cases (faults.slot_refused w)) [
    | inl n ↦
        let ih =
          write_slots-SameElsewhere ws (record t { slots = upsert_slot (stored faults w) t.slots })
            u (upserted-AllOwn (stored faults w) t.slots ws a.0 a.1) (rw (n, write_slots) at e) in
        record {
          kept = λ x k m.
              ih.kept x
                (upsert_slot-kept (stored faults w) x t.slots (λ q. m (a.0.1 x k (sym q))) k) m;
          none_added = λ x k m.
              elim (upsert_slot-lab lab (stored faults w) x t.slots a.0 (ih.none_added x k m)) [
                | inl h ↦ absurd (m h)
                | inr i ↦ i
              ];
        }
    | inr (r, n) ↦ absurd (ground arith)
  ]

  pub write_slots-same :
      (ws : List Slot) (t u : Tables)
      → write_slots faults ws t ≡ ok u
      → (u.outbox ≡ t.outbox)
        × (u.resources ≡ t.resources)
        × (u.pools ≡ t.pools)
        × (u.members ≡ t.members)
  unfolding write_slots
  write_slots-same [] t u e = ground arith
  write_slots-same (w ∷ ws) t u e =
      ground
        (arith, write_slots-same ws (record t { slots = upsert_slot (stored faults w) t.slots }) u)

  insert_outbox-kept :
      (new x : OutboxRow) (rows : List OutboxRow) → In x rows → In x (insert_outbox new rows)
  unfolding insert_outbox
  insert_outbox-kept new x [] k = absurd k
  insert_outbox-kept new x (old ∷ rows) (inl e) = ground arith
  insert_outbox-kept new x (old ∷ rows) (inr k) =
      elim (Bool-cases (str_eq old.dedup_key new.dedup_key)) [
        | inl c ↦ rw c (inr k)
        | inr c ↦ rw c (inr (insert_outbox-kept new x rows k))
      ]

  insert_outbox-lab :
      (new x : OutboxRow) (rows : List OutboxRow)
      → new.lab_id ≡ lab
      → In x (insert_outbox new rows)
      → (x.lab_id ≡ lab) ⊎ In x rows
  unfolding insert_outbox
  insert_outbox-lab new x [] o (inl e) = inl (ap row_lab e ∙ o)
  insert_outbox-lab new x [] o (inr k) = absurd k
  insert_outbox-lab new x (old ∷ rows) o k =
      split (Bool-cases (str_eq old.dedup_key new.dedup_key)) (insert_outbox-lab new x rows o)
    where
      split :
          (str_eq old.dedup_key new.dedup_key ≡ true) ⊎ (str_eq old.dedup_key new.dedup_key ≡ false)
          → (In x (insert_outbox new rows) → (x.lab_id ≡ lab) ⊎ In x rows)
          → (x.lab_id ≡ lab) ⊎ In x (old ∷ rows)
      split (inl c) f = inr (rw c at k)
      split (inr c) f = elim (rw c at k) [
        | inl e ↦ inr (inl e)
        | inr i ↦ elim (f i) [ inl e ↦ inl e | inr j ↦ inr (inr j) ]
      ]

  pub write_outbox-SameElsewhere :
      (rs : List OutboxRow) (t u : Tables)
      → All (λ r. r.lab_id ≡ lab) rs
      → write_outbox faults rs t ≡ ok u
      → SameElsewhere row_lab lab t.outbox u.outbox
  unfolding write_outbox
  write_outbox-SameElsewhere [] t u a e = record {
    kept = λ x k n. subst (λ v. In x v.outbox) (ok_inj t u e) k;
    none_added = λ x k n. subst (λ v. In x v.outbox) (sym (ok_inj t u e)) k;
  }
  write_outbox-SameElsewhere (r ∷ rs) t u a e = elim (Option-cases (faults.row_refused r)) [
    | inl n ↦
        let ih =
          write_outbox-SameElsewhere rs (record t { outbox = insert_outbox r t.outbox }) u a.1
            (rw (n, write_outbox) at e) in
        record {
          kept = λ x k m. ih.kept x (insert_outbox-kept r x t.outbox k) m;
          none_added = λ x k m. elim (insert_outbox-lab r x t.outbox a.0 (ih.none_added x k m)) [
            | inl h ↦ absurd (m h)
            | inr i ↦ i
          ];
        }
    | inr (m, n) ↦ absurd (ground arith)
  ]
