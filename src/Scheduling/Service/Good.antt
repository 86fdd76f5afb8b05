-- ===== src/Scheduling/Service/Good.antt =====
-- Tables in which a pool is in order, and what a commit of well-formed rows makes of them.
use qlab.Base.{
  ◌≡◌, refl, sym, ap, ◌∙◌, subst, ◌≢◌, inl, inr, List, some, String, All, AllPairs, AllPairs-keep,
  In, All-In, In-All, In-keep, keep-In, AllPairs-In, In-AllPairs, keep, All-sort_by, sort_by-pairs,
  sort_by-In,
}
use qlab.DynamicQueue.Greedy.{FitsInt64}
use qlab.Scheduling.Store.{Slot}
use qlab.Scheduling.Tables.{Tables, list_live_slots, list_resources, is_live_in, by_priority}
use qlab.Scheduling.Tables.Upserts.{OtherId, Holds, Written}
use qlab.Scheduling.Accepted.{RowOk, RowsApart, WellFormed, PoolOk}
use qlab.Scheduling.Accepted.Persisted.{ParsesTexts}
use qlab.Scheduling.Service.{Settings}

-- The pool of a lab is in order: ids are keys, its live rows are well-formed and last no longer than
-- `Minutes.Duration` can hold, it has resources, and their ids are uuids.
pub record Good (settings : Settings) (lab pool : String) (t : Tables) : Type 0 where
  pub keys : AllPairs OtherId t.slots
  pub rows : WellFormed pool (list_live_slots lab pool t)
  pub durations_fit : All (λ s. FitsInt64 s.duration_minutes) (list_live_slots lab pool t)
  pub pool_ok : PoolOk pool (list_resources lab pool t) settings.grace
  pub grace_fits : FitsInt64 settings.grace
  pub ids_parse :
      All (λ r. (q : String) × (settings.parse r.id ≡ some q)) (list_resources lab pool t)
  pub texts : ParsesTexts settings.parse

RowsApart-sym : (s t : Slot) → RowsApart s t → RowsApart t s
RowsApart-sym s t h a b =
    let k = h b a in
    (
      λ e. k.0 (sym e),
      elim k.1 [
        | inl i ↦ inr (inl i)
        | inr (inl i) ↦ inl i
        | inr (inr n) ↦ inr (inr (λ e. n (sym e)))
      ],
    )

-- The live rows keep their ids apart.
pub live_keys :
    (lab pool : String) (t : Tables)
    → AllPairs OtherId t.slots
    → AllPairs OtherId (list_live_slots lab pool t)
unfolding list_live_slots
live_keys lab pool t h =
    sort_by-pairs OtherId by_priority (keep (is_live_in lab pool) t.slots) (λ a b n e. n (sym e))
      (AllPairs-keep OtherId (is_live_in lab pool) t.slots h)

-- What is asked of the rows that are written.
pub record Covers (pool : String) (live ws : List Slot) : Type 0 where
  pub written_ok : WellFormed pool ws
  pub written_fit : All (λ s. FitsInt64 s.duration_minutes) ws
  pub covers : (s : Slot) → In s live → (w : Slot) × In w ws × (w.id ≡ s.id)

module _ (settings : Settings) (lab pool : String) (ws : List Slot) (t u : Tables)
    (g : Good settings lab pool t) (written : Written ws t u)
    (c : Covers pool (list_live_slots lab pool t) ws) where
  -- A live row of the pool holds a row that was written.
  pub live_row :
      (x : Slot) → In x (keep (is_live_in lab pool) u.slots) → (w : Slot) × In w ws × Holds x w
  unfolding list_live_slots
  live_row x k = elim (written.rows x (keep-In (is_live_in lab pool) u.slots x k).0) [
    | inl held ↦ held
    | inr (m, n) ↦
        let (w, l, e) = c.covers x (
          sort_by-In by_priority (keep (is_live_in lab pool) t.slots) x (
            In-keep (is_live_in lab pool) t.slots x m
              (keep-In (is_live_in lab pool) u.slots x k).1)) in
        absurd (All-In (λ v. v.id ≢ x.id) ws w n l e)
  ]

  held-RowOk : (x w : Slot) → Holds x w → RowOk pool w → RowOk pool x
  held-RowOk x w (l, v, d, c', a, e) r = subst (RowOk pool) (sym e) (record {
    in_pool = r.in_pool;
    duration_pos = r.duration_pos;
    lookahead_nonneg = r.lookahead_nonneg;
    priority_fits = r.priority_fits;
    resource_text = r.resource_text;
  })

  held-RowsApart : (x y w v : Slot) → Holds x w → Holds y v → RowsApart w v → RowsApart x y
  held-RowsApart x y w v (l, k, d, c', a, e) (m, n, _, _, _, f) r =
      subst (λ z. RowsApart z y) (sym e)
        (subst
          (RowsApart (record w {
            lab_id = l;
            user_id = k;
            desired_start = d;
            committed_start = c';
            actual_start = a;
          }))
          (sym f) r)

  pub held-id : (x w : Slot) → Holds x w → x.id ≡ w.id
  held-id x w (_, _, _, _, _, e) = ap (λ (s : Slot). s.id) e

  apart_at :
      (x y : Slot)
      → In x (keep (is_live_in lab pool) u.slots)
      → In y (keep (is_live_in lab pool) u.slots)
      → OtherId x y
      → RowsApart x y
  apart_at x y k l n =
      let (w, i, p) = live_row x k in
      let (v, j, q) = live_row y l in
      held-RowsApart x y w v p q (
        AllPairs-In RowsApart ws w v RowsApart-sym c.written_ok.apart i j
          (λ e. n (held-id x w p ∙ ap (λ (s : Slot). s.id) e ∙ sym (held-id y v q))))

  live-WellFormed : WellFormed pool (list_live_slots lab pool u)
  unfolding list_live_slots
  live-WellFormed = record {
    rows = All-sort_by (RowOk pool) by_priority (keep (is_live_in lab pool) u.slots) (
        In-All (RowOk pool) _ (λ x k.
          let (w, i, p) = live_row x k in
          held-RowOk x w p (All-In (RowOk pool) ws w c.written_ok.rows i)));
    apart = sort_by-pairs RowsApart by_priority (keep (is_live_in lab pool) u.slots) RowsApart-sym (
        In-AllPairs OtherId RowsApart _ apart_at
          (AllPairs-keep OtherId (is_live_in lab pool) u.slots written.keys));
  }

  live_fit : All (λ s. FitsInt64 s.duration_minutes) (list_live_slots lab pool u)
  unfolding list_live_slots
  live_fit = All-sort_by _ by_priority (keep (is_live_in lab pool) u.slots) (
      In-All (λ s. FitsInt64 s.duration_minutes) _
        (λ x k.
          let (w, i, (_, _, _, _, _, e)) = live_row x k in
          subst (λ s. FitsInt64 s.duration_minutes) (sym e) (All-In _ ws w c.written_fit i)))

-- Only the slots and the resources matter.
same_resources :
    (lab pool : String) (t u : Tables)
    → u.resources ≡ t.resources
    → list_resources lab pool u ≡ list_resources lab pool t
unfolding list_resources
same_resources lab pool t u e = rw e refl

same_live :
    (lab pool : String) (t u : Tables)
    → u.slots ≡ t.slots
    → list_live_slots lab pool u ≡ list_live_slots lab pool t
unfolding list_live_slots
same_live lab pool t u e = rw e refl

pub Good-same :
    (settings : Settings) (lab pool : String) (t u : Tables)
    → u.slots ≡ t.slots
    → u.resources ≡ t.resources
    → Good settings lab pool t
    → Good settings lab pool u
Good-same settings lab pool t u e f g =
    let live = sym (same_live lab pool t u e) in
    let rs = sym (same_resources lab pool t u f) in
    record {
      keys = subst (AllPairs OtherId) (sym e) g.keys;
      rows = subst (WellFormed pool) live g.rows;
      durations_fit = subst (All (λ s. FitsInt64 s.duration_minutes)) live g.durations_fit;
      pool_ok = subst (λ r. PoolOk pool r settings.grace) rs g.pool_ok;
      grace_fits = g.grace_fits;
      ids_parse = subst (All (λ r. (q : String) × (settings.parse r.id ≡ some q))) rs g.ids_parse;
      texts = g.texts;
    }

-- Writing rows that are well-formed and cover the live ones leaves the pool in order.
pub Written-Good :
    (settings : Settings) (lab pool : String) (ws : List Slot) (t u : Tables)
    → Good settings lab pool t
    → Written ws t u
    → Covers pool (list_live_slots lab pool t) ws
    → Good settings lab pool u
Written-Good settings lab pool ws t u g w c =
    let rs = sym (same_resources lab pool t u w.same_resources) in
    record {
      keys = w.keys;
      rows = live-WellFormed settings lab pool ws t u g w c;
      durations_fit = live_fit settings lab pool ws t u g w c;
      pool_ok = subst (λ r. PoolOk pool r settings.grace) rs g.pool_ok;
      grace_fits = g.grace_fits;
      ids_parse = subst (All (λ r. (q : String) × (settings.parse r.id ≡ some q))) rs g.ids_parse;
      texts = g.texts;
    }
