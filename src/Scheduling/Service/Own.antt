-- ===== src/Scheduling/Service/Own.antt =====
-- What a transaction of backend/internal/store/pgstore/pool.go leaves alone when it writes rows of one
-- lab, and that the rows of the scheduling service's working set are the lab's own.
use qlab.Base.{
  ◌≡◌, refl, sym, ap, ◌∙◌, subst, ◌≢◌, ◌⊎◌, inl, inr, List, [], ◌∷◌, some, String, arith, All,
  AllPairs, In, In-All, keep-In, AllPairs-In, keep, All-sort_by, Bool-cases, str_eq, eq_iff,
}
use qlab.Scheduling.Store.{Slot}
use qlab.Scheduling.Helpers.{find_slot}
use qlab.Scheduling.Tables.{
  Tables, PoolState, PoolMutation, Attempt, ok, Faults, write_slots, write_outbox, list_live_slots,
  is_live_in, by_priority, snapshot, with_pool,
}
use qlab.Scheduling.Tables.Upserts.{OtherId, write_outbox-same}
use qlab.Scheduling.Tables.Labs.{
  SameElsewhere, slot_lab, row_lab, IsOwn, write_slots-SameElsewhere, write_slots-same,
  write_outbox-SameElsewhere,
}
use qlab.Scheduling.Tables.Commits.{with_pool_lem}

-- Between two states of the tables no row of a lab other than `lab` is lost, changed or added, and
-- the tables of resources, pools and members are the same.
pub record LeavesOthers (lab : String) (t u : Tables) : Type 0 where
  pub slots : SameElsewhere slot_lab lab t.slots u.slots
  pub outbox : SameElsewhere row_lab lab t.outbox u.outbox
  pub resources : u.resources ≡ t.resources
  pub pools : u.pools ≡ t.pools
  pub members : u.members ≡ t.members

pub LeavesOthers-refl : (lab : String) (t : Tables) → LeavesOthers lab t t
LeavesOthers-refl lab t = record {
  slots = record { kept = λ x k n. k; none_added = λ x k n. k };
  outbox = record { kept = λ x k n. k; none_added = λ x k n. k };
  resources = refl;
  pools = refl;
  members = refl;
}

-- A mutation that a lab may write.
pub record OwnMutation (lab : String) (rows : List Slot) (mu : PoolMutation) : Type 0 where
  pub slots : All (λ w. IsOwn lab rows w.id w.lab_id) mu.slots
  pub outbox : All (λ r. r.lab_id ≡ lab) mu.outbox

written-LeavesOthers :
    (f : Faults) (lab : String) (mu : PoolMutation) (t w u : Tables)
    → OwnMutation lab t.slots mu
    → write_slots f mu.slots t ≡ ok w
    → write_outbox f mu.outbox w ≡ ok u
    → LeavesOthers lab t u
written-LeavesOthers f lab mu t w u o e g =
    let (outbox, resources, pools, members) = write_slots-same f lab mu.slots t w e in
    let (slots', resources', pools', members') = write_outbox-same f mu.outbox w u g in
    record {
      slots =
          subst (SameElsewhere slot_lab lab t.slots) (sym slots')
            (write_slots-SameElsewhere f lab mu.slots t w o.slots e);
      outbox =
          subst (λ rs. SameElsewhere row_lab lab rs u.outbox) outbox
            (write_outbox-SameElsewhere f lab mu.outbox w u o.outbox g);
      resources = resources' ∙ resources;
      pools = pools' ∙ pools;
      members = members' ∙ members;
    }

-- A transaction leaves the other labs alone if what its callback asks for is the lab's own.
pub with_pool-LeavesOthers :
    {A : Type 0} (f : Faults) (lab pool : String) (fn : PoolState → Attempt (PoolMutation × A))
    (t : Tables)
    → ((mu : PoolMutation) (a : A)
        → fn (snapshot lab pool t) ≡ ok (mu, a)
        → OwnMutation lab t.slots mu)
    → LeavesOthers lab t (with_pool f lab pool fn t).0
with_pool-LeavesOthers f lab pool fn t own = elim (with_pool_lem f lab pool fn t) [
  | inl (e, h, r) ↦ rw h (LeavesOthers-refl lab t)
  | inr (u, a, h, c) ↦ rw h (
      written-LeavesOthers f lab c.mutation t c.written u (own c.mutation a c.called)
        c.slots_written c.outbox_written)
]

str_cases : (a b : String) → (a ≡ b) ⊎ (a ≢ b)
str_cases a b = elim (Bool-cases (str_eq a b)) [
  | inl c ↦ inl ((eq_iff a b).0 c)
  | inr c ↦ inr (λ e. ground (arith, eq_iff a b))
]

pub find_slot-In : (id : String) (x : Slot) (ss : List Slot) → find_slot ss id ≡ some x → In x ss
unfolding find_slot
find_slot-In id x [] h = absurd (cc)
find_slot-In id x (s ∷ ss) h = elim (Bool-cases (str_eq s.id id)) [
  | inl c ↦ inl (ground arith)
  | inr c ↦ inr (find_slot-In id x ss (ground arith))
]

-- The rows of the working set are the lab's own.
pub live-IsOwn :
    (lab pool : String) (t : Tables)
    → AllPairs OtherId t.slots
    → All (λ w. IsOwn lab t.slots w.id w.lab_id) (list_live_slots lab pool t)
unfolding list_live_slots
live-IsOwn lab pool t keys =
    All-sort_by (λ w. IsOwn lab t.slots w.id w.lab_id) by_priority
      (keep (is_live_in lab pool) t.slots)
      (In-All (λ w. IsOwn lab t.slots w.id w.lab_id) (keep (is_live_in lab pool) t.slots)
        (λ w i.
          let (j, l) = keep-In (is_live_in lab pool) t.slots w i in
          let own : w.lab_id ≡ lab = ground (arith, eq_iff w.lab_id lab) in
          (own, λ x k e. one_row w x j k own e)))
  where
    one_row :
        (w x : Slot) → In w t.slots → In x t.slots → w.lab_id ≡ lab → x.id ≡ w.id → x.lab_id ≡ lab
    one_row w x j k own e = elim (str_cases x.lab_id lab) [
      | inl same ↦ same
      | inr n ↦ absurd (
          AllPairs-In OtherId t.slots w x (λ a b o q. o (sym q)) keys j k
            (λ q. n (ap slot_lab (sym q) ∙ own)) (sym e))
    ]
