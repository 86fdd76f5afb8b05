-- ===== src/DynamicQueue/Intervals/Seed.antt =====
-- `buildFree`, `freeFrom` and `sortedKeys`: the free map of a call is exact for the ACTIVE slots.
use mathlib.Core.Bool.{false≢true}
use text.Mathlib.Text.{is_lt}
use Prim.Native.String.{compare}
use mathlib.Core.List.{append-nil, append_assoc}
use qlab.Base.{
  ℕ, ◌≤◌, ◌<◌, ◌≡◌, refl, sym, ap, ◌∙◌, subst, ◌≢◌, inl, inr, Bool, true, false, ◌&&◌, List, [],
  ◌∷◌, ◌++◌, String, arith, All, All-imp, insert, lookup, str_eq, eq_iff, Bool-cases, lookup-insert,
  lookup-insert_self, lookup-insert_ne, ltb, if◌then◌else◌,
}
use qlab.DynamicQueue.Slot.{Slot, Resource, is_pinned}
use qlab.DynamicQueue.Greedy.{Apart, pinned_spans}
use qlab.DynamicQueue.Intervals.{
  Interval, FreeMap, bounded, tail_from, get, free_loop, free_from, add_busy, collect_busy,
  seed_free, build_free, insert_key, sort_keys, keys, sorted_keys,
}
use qlab.DynamicQueue.Intervals.Exact.{Exact, ExactAll}

-- The occupancies that `buildFree` collects for a resource.
busy_on : ℕ → String → List Slot → List Interval
busy_on now q [] = []
busy_on now q (s ∷ ss) =
    if is_pinned s.status && str_eq s.assigned_resource q
    then bounded now s.projected_end ∷ busy_on now q ss
    else busy_on now q ss

add_busy-get :
    (now : ℕ) (q : String) (busy : FreeMap) (s : Slot)
    → get q (add_busy now busy s) ≡ get q busy ++ busy_on now q (s ∷ [])
unfolding add_busy busy_on
add_busy-get now q busy s = ground (
  arith,
  eq_iff s.assigned_resource q,
  lookup-insert s.assigned_resource q
      (get s.assigned_resource busy ++ bounded now s.projected_end ∷ []) busy,
  append-nil (get q busy),
)

collect_busy-get :
    (now : ℕ) (q : String) (busy : FreeMap) (ss : List Slot)
    → get q (collect_busy now busy ss) ≡ get q busy ++ busy_on now q ss
unfolding collect_busy busy_on
collect_busy-get now q busy [] = sym (append-nil _)
collect_busy-get now q busy (s ∷ ss) =
    collect_busy-get now q (add_busy now busy s) ss
    ∙ rw (add_busy-get now q busy s) (regroup (is_pinned s.status && str_eq s.assigned_resource q))
  where
    b : Interval
    b = bounded now s.projected_end

    regroup :
        (c : Bool)
        → (get q busy ++ (if c then b ∷ [] else [])) ++ busy_on now q ss
          ≡ get q busy ++ (if c then b ∷ busy_on now q ss else busy_on now q ss)
    regroup true = append_assoc (get q busy) (b ∷ []) (busy_on now q ss)
    regroup false = ap (λ l. l ++ busy_on now q ss) (append-nil (get q busy))

-- The latest end of the occupancies.
latest : ℕ → List Interval → ℕ
latest cursor [] = cursor
latest cursor (b ∷ bs) = latest (if ltb cursor b.end then b.end else cursor) bs

free_loop-latest :
    (now cursor : ℕ) (q : String) (ss : List Slot)
    → now ≤ cursor
    → free_loop cursor [] (busy_on now q ss) ≡ tail_from (latest cursor (busy_on now q ss)) ∷ []
unfolding free_loop latest busy_on
free_loop-latest now cursor q [] h = refl
free_loop-latest now cursor q (s ∷ ss) h =
    ground (arith, free_loop-latest now cursor q ss, free_loop-latest now s.projected_end q ss)

latest_sound :
    (now cursor : ℕ) (q : String) (ss : List Slot) (s e : ℕ)
    → latest cursor (busy_on now q ss) ≤ s
    → (cursor ≤ s) × All (Apart q s e) (pinned_spans now ss)
unfolding latest busy_on
latest_sound now cursor q [] s e h = (h, tt)
latest_sound now cursor q (t ∷ ss) s e h = ground (
  arith,
  eq_iff t.assigned_resource q,
  latest_sound now cursor q ss s e,
  latest_sound now t.projected_end q ss s e,
)

latest_complete :
    (now cursor : ℕ) (q : String) (ss : List Slot) (s e : ℕ)
    → now ≤ s
    → s < e
    → cursor ≤ s
    → All (Apart q s e) (pinned_spans now ss)
    → latest cursor (busy_on now q ss) ≤ s
unfolding latest busy_on
latest_complete now cursor q [] s e n p h k = h
latest_complete now cursor q (t ∷ ss) s e n p h k = ground (
  arith,
  eq_iff t.assigned_resource q,
  latest_complete now cursor q ss s e,
  latest_complete now t.projected_end q ss s e,
)

-- Before any placement the only free interval of a resource is its tail, exact for the ACTIVE slots.
free_from-Exact :
    (now : ℕ) (q : String) (ss : List Slot)
    → Exact now q (pinned_spans now ss) (free_from now (busy_on now q ss))
unfolding free_from
free_from-Exact now q ss = rw (free_loop-latest now now q ss (omega arith)) (record {
  ordered = ((latest_sound now now q ss last 0 (omega arith)).0, inl (refl, refl));
  sound = λ s e n p. elim [ inl h ↦ (latest_sound now now q ss s e h.0).1 | inr h ↦ absurd h ];
  complete = λ s e n p h. inl (latest_complete now now q ss s e n p n h, inl refl);
})
  where
    last : ℕ
    last = latest now (busy_on now q ss)

-- Every entry of the map is what `freeFrom` gives for its key.
Seeded : (String → List Interval) → FreeMap → Type 0
Seeded f free = All (λ q. get q free ≡ f q) (keys free)

All-keys-insert :
    (P : String → Type 0) (k : String) (v : List Interval) (m : FreeMap)
    → P k
    → All P (keys m)
    → All P (keys (insert k v m))
unfolding insert
All-keys-insert P k v [] p h = (p, tt)
All-keys-insert P k v ((j, w) ∷ m) p h = elim (Bool-cases (str_eq j k)) [
  | inl c ↦ rw c h
  | inr c ↦ rw c (h.0, All-keys-insert P k v m p h.1)
]

insert-Seeded :
    (f : String → List Interval) (k : String) (m : FreeMap)
    → Seeded f m
    → Seeded f (insert k (f k) m)
unfolding Seeded
insert-Seeded f k m h =
    All-keys-insert (λ q. get q (insert k (f k) m) ≡ f q) k (f k) m
      (rw (lookup-insert_self k (f k) m) refl) (All-imp _ _ (keys m) keep_old h)
  where
    keep_old : (q : String) → get q m ≡ f q → get q (insert k (f k) m) ≡ f q
    keep_old q e = elim (Bool-cases (str_eq k q)) [
      | inl t ↦
          subst (λ j. get j (insert k (f k) m) ≡ f j) ((eq_iff k q).0 t)
            (rw (lookup-insert_self k (f k) m) refl)
      | inr t ↦ rw (lookup-insert_ne k q (f k) m (λ j. false≢true (sym t ∙ (eq_iff k q).1 j))) e
    ]

seed_free-Seeded :
    (now : ℕ) (busy free : FreeMap) (rs : List Resource)
    → Seeded (λ q. free_from now (get q busy)) free
    → Seeded (λ q. free_from now (get q busy)) (seed_free now busy free rs)
unfolding seed_free
seed_free-Seeded now busy free [] h = h
seed_free-Seeded now busy free (r ∷ rs) h =
    seed_free-Seeded now busy (insert r.id (free_from now (get r.id busy)) free) rs
      (insert-Seeded (λ q. free_from now (get q busy)) r.id free h)

All-insert_key :
    (P : String → Type 0) (k : String) (ks : List String) → P k → All P ks → All P (insert_key k ks)
unfolding insert_key
All-insert_key P k [] p h = (p, tt)
All-insert_key P k (j ∷ js) p h = elim (Bool-cases (is_lt (compare j k))) [
  | inl c ↦ rw c (h.0, All-insert_key P k js p h.1)
  | inr c ↦ rw c (p, h)
]

pub All-sort_keys : (P : String → Type 0) (ks : List String) → All P ks → All P (sort_keys ks)
unfolding sort_keys
All-sort_keys P [] h = tt
All-sort_keys P (k ∷ ks) h = All-insert_key P k (sort_keys ks) h.0 (All-sort_keys P ks h.1)

-- `buildFree` makes a map that is exact on all the sorted keys.
pub build_free-ExactAll :
    (rs : List Resource) (ss : List Slot) (now : ℕ)
    → ExactAll now (pinned_spans now ss) (build_free rs ss now) (sorted_keys (build_free rs ss now))
unfolding build_free sorted_keys lookup
build_free-ExactAll rs ss now = All-sort_keys _ _ (
    All-imp _ _ (keys (build_free rs ss now)) exact
      (unfold Seeded in seed_free-Seeded now busy [] rs (unfold Seeded in tt)))
  where
    busy : FreeMap
    busy = collect_busy now [] ss

    exact :
        (q : String)
        → get q (build_free rs ss now) ≡ free_from now (get q busy)
        → Exact now q (pinned_spans now ss) (get q (build_free rs ss now))
    exact q e =
        subst (Exact now q (pinned_spans now ss))
          (sym (e ∙ ap (free_from now) (collect_busy-get now q [] ss))) (free_from-Exact now q ss)

append_one-ne : (iv : Interval) (ivs : List Interval) → ivs ++ iv ∷ [] ≢ []
append_one-ne iv [] e = cc
append_one-ne iv (o ∷ ivs) e = cc

free_loop-ne :
    (busy : List Interval) (cursor : ℕ) (out : List Interval) → free_loop cursor out busy ≢ []
unfolding free_loop
free_loop-ne [] cursor out = append_one-ne (tail_from cursor) out
free_loop-ne (b ∷ busy) cursor out = free_loop-ne busy _ _

-- No resource has an empty list: `freeFrom` ends each with the open tail.
pub build_free-ne :
    (rs : List Resource) (ss : List Slot) (now : ℕ)
    → All (λ q. get q (build_free rs ss now) ≢ []) (sorted_keys (build_free rs ss now))
unfolding build_free sorted_keys free_from
build_free-ne rs ss now = All-sort_keys _ (keys (build_free rs ss now)) (
    All-imp (λ q. get q (build_free rs ss now) ≡ free_from now (get q (collect_busy now [] ss)))
      (λ q. get q (build_free rs ss now) ≢ []) (keys (build_free rs ss now))
      (λ q e h. free_loop-ne (get q (collect_busy now [] ss)) now [] (sym e ∙ h))
      (unfold Seeded in seed_free-Seeded now (collect_busy now [] ss) [] rs (unfold Seeded in tt)))

insert-ne : (k : String) (v : List Interval) (m : FreeMap) → keys (insert k v m) ≢ []
unfolding insert
insert-ne k v [] e = cc
insert-ne k v ((j, w) ∷ m) e = ground arith

seed_free-ne :
    (now : ℕ) (busy free : FreeMap) (rs : List Resource)
    → keys free ≢ []
    → keys (seed_free now busy free rs) ≢ []
unfolding seed_free
seed_free-ne now busy free [] h = h
seed_free-ne now busy free (r ∷ rs) h =
    seed_free-ne now busy (insert r.id (free_from now (get r.id busy)) free) rs
      (insert-ne r.id _ free)

insert_key-ne : (k : String) (ks : List String) → insert_key k ks ≢ []
unfolding insert_key
insert_key-ne k [] e = cc
insert_key-ne k (j ∷ js) e = ground arith

sort_keys-ne : (ks : List String) → ks ≢ [] → sort_keys ks ≢ []
unfolding sort_keys
sort_keys-ne [] h = absurd (h refl)
sort_keys-ne (k ∷ ks) h = insert_key-ne k (sort_keys ks)

-- With a resource there is a key to place onto.
pub sorted_keys-ne :
    (rs : List Resource) (ss : List Slot) (now : ℕ)
    → rs ≢ []
    → sorted_keys (build_free rs ss now) ≢ []
unfolding build_free sorted_keys seed_free
sorted_keys-ne [] ss now h = absurd (h refl)
sorted_keys-ne (r ∷ rs) ss now h = sort_keys-ne _ (seed_free-ne now _ _ rs (insert-ne r.id _ []))
