-- ===== src/Scheduling/Accepted/Persisted.antt =====
-- The rows that `applyEngine` of backend/internal/services/scheduling/v1/convert.go writes are
-- well-formed if the working set was.
use qlab.Base.{
  ◌≡◌, refl, sym, ap, ◌∙◌, subst, ◌≢◌, ◌⊎◌, inl, inr, false, List, [], ◌∷◌, some, Option, String,
  pos, ◌≤ℤ◌, ◌<ℤ◌, All, AllPairs, In,
}
use qlab.DynamicQueue.Greedy.{FitsInt64}
use qlab.Scheduling.Store.{Slot, is_live, is_active}
use qlab.Scheduling.Apply.Writes.{All2, Keeps}
use qlab.Scheduling.Accepted.{RowOk, RowsApart, WellFormed}

-- `uuid.Parse` gives no empty text.
abbrev pub ParsesTexts : (String → Option String) → Type 0
ParsesTexts parse = (q r : String) → parse q ≡ some r → r ≢ ""

module _ (K : Slot → Slot → Type 0) where
  pub All2-All :
      (P Q : Slot → Type 0) (ss ws : List Slot)
      → ((s w : Slot) → K s w → P s → Q w)
      → All2 K ss ws
      → All P ss
      → All Q ws
  All2-All P Q [] [] f z h = tt
  All2-All P Q [] (w ∷ ws) f z h = absurd z
  All2-All P Q (s ∷ ss) [] f z h = absurd z
  All2-All P Q (s ∷ ss) (w ∷ ws) f z h = (f s w z.0 h.0, All2-All P Q ss ws f z.1 h.1)

  All2-AllPairs :
      (R : Slot → Slot → Type 0) (ss ws : List Slot)
      → ((s t w x : Slot) → K s w → K t x → R s t → R w x)
      → All2 K ss ws
      → AllPairs R ss
      → AllPairs R ws
  All2-AllPairs R [] [] f z h = tt
  All2-AllPairs R [] (w ∷ ws) f z h = absurd z
  All2-AllPairs R (s ∷ ss) [] f z h = absurd z
  All2-AllPairs R (s ∷ ss) (w ∷ ws) f z h = (
    All2-All (R s) (R w) ss ws (λ t x k r. f s t w x z.0 k r) z.1 h.0,
    All2-AllPairs R ss ws f z.1 h.1,
  )

  All2-In : (ss ws : List Slot) (s : Slot) → All2 K ss ws → In s ss → (w : Slot) × In w ws × K s w
  All2-In [] ws s z k = absurd k
  All2-In (t ∷ ss) [] s z k = absurd z
  All2-In (t ∷ ss) (w ∷ ws) s z (inl e) = (w, inl refl, subst (λ u. K u w) (sym e) z.0)
  All2-In (t ∷ ss) (w ∷ ws) s z (inr k) = let (x, l, h) = All2-In ss ws s z.1 k in (x, inr l, h)

module _ (parse : String → Option String) (texts : ParsesTexts parse) (pool : String) where
  Keeps-RowOk : (s w : Slot) → Keeps parse s w → RowOk pool s → RowOk pool w
  Keeps-RowOk s w k r = record {
    in_pool = k.same_pool ∙ r.in_pool;
    duration_pos = subst (λ d. pos 0 <ℤ d) (sym k.same_duration) r.duration_pos;
    lookahead_nonneg = subst (λ d. pos 0 ≤ℤ d) (sym k.same_lookahead) r.lookahead_nonneg;
    priority_fits = let (n, e, f) = r.priority_fits in (n, k.same_priority ∙ e, f);
    resource_text = λ e. elim k.resource [
      | inl same ↦ r.resource_text (sym same ∙ e)
      | inr (idle, (q, f)) ↦ texts q w.resource_id f e
    ];
  }

  Keeps-RowsApart :
      (s t w x : Slot) → Keeps parse s w → Keeps parse t x → RowsApart s t → RowsApart w x
  Keeps-RowsApart s t w x k l r a b =
      let h = r (ap is_live (sym k.same_status) ∙ a) (ap is_live (sym l.same_status) ∙ b) in
      (
        λ e. h.0 (sym k.same_priority ∙ e ∙ l.same_priority),
        elim h.1 [
          | inl i ↦ inl (ap is_active k.same_status ∙ i)
          | inr (inl i) ↦ inr (inl (ap is_active l.same_status ∙ i))
          | inr (inr n) ↦ both k.resource l.resource n
        ],
      )
    where
      both :
          (w.resource_id ≡ s.resource_id)
            ⊎ ((is_active s.status ≡ false) × ((q : String) × (parse q ≡ some w.resource_id)))
          → (x.resource_id ≡ t.resource_id)
            ⊎ ((is_active t.status ≡ false) × ((q : String) × (parse q ≡ some x.resource_id)))
          → s.resource_id ≢ t.resource_id
          → (is_active w.status ≡ false)
            ⊎ (is_active x.status ≡ false)
            ⊎ (w.resource_id ≢ x.resource_id)
      both (inr (i, y)) g n = inl (ap is_active k.same_status ∙ i)
      both (inl e) (inr (i, y)) n = inr (inl (ap is_active l.same_status ∙ i))
      both (inl e) (inl f) n = inr (inr (λ q. n (sym e ∙ q ∙ f)))

  pub persisted-WellFormed :
      (working writes : List Slot)
      → All2 (Keeps parse) working writes
      → WellFormed pool working
      → WellFormed pool writes
  persisted-WellFormed working writes z w = record {
    rows = All2-All (Keeps parse) (RowOk pool) (RowOk pool) working writes Keeps-RowOk z w.rows;
    apart = All2-AllPairs (Keeps parse) RowsApart working writes Keeps-RowsApart z w.apart;
  }

  pub persisted-durations :
      (working writes : List Slot)
      → All2 (Keeps parse) working writes
      → All (λ s. FitsInt64 s.duration_minutes) working
      → All (λ s. FitsInt64 s.duration_minutes) writes
  persisted-durations working writes z h =
      All2-All (Keeps parse) _ _ working writes (λ s w k d. subst FitsInt64 (sym k.same_duration) d)
        z h

  -- Every row of the working set is written.
  pub persisted-In :
      (working writes : List Slot) (s : Slot)
      → All2 (Keeps parse) working writes
      → In s working
      → (w : Slot) × In w writes × (w.id ≡ s.id)
  persisted-In working writes s z k =
      let (w, l, h) = All2-In (Keeps parse) working writes s z k in (w, l, h.same_id)
