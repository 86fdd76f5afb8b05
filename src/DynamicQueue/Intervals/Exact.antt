-- ===== src/DynamicQueue/Intervals/Exact.antt =====
-- The free intervals of a resource against the spans that are occupied on it.
use mathlib.Core.Bool.{false≢true}
use qlab.Base.{
  ℕ, ◌+◌, ◌≤◌, ◌<◌, ◌≡◌, refl, sym, ◌∙◌, subst, ◌≢◌, inl, inr, false, List, ◌∷◌, String, ℤ, pos,
  All, All-imp, insert, str_eq, eq_iff, Bool-cases, lookup-insert_self, lookup-insert_ne,
}
use qlab.DynamicQueue.Slot.{duration_of}
use qlab.DynamicQueue.Greedy.{Span, Clear}
use qlab.DynamicQueue.Intervals.{Interval, FreeMap, get, carve_loop, carve}
use qlab.DynamicQueue.Intervals.Holds.{HoldsAny, Ordered}
use qlab.DynamicQueue.Intervals.Carve.{carve_sound, carve_complete, carve-Ordered}

-- The intervals hold exactly the spans, from `now` on, that meet nothing occupied on `r`.
pub record Exact (now : ℕ) (r : String) (occ : List Span) (ivs : List Interval) : Type 0 where
  pub ordered : Ordered now ivs
  pub sound : (s e : ℕ) → now ≤ s → s < e → HoldsAny ivs s e → Clear occ r s e
  pub complete : (s e : ℕ) → now ≤ s → s < e → Clear occ r s e → HoldsAny ivs s e

abbrev pub span : String → ℕ → ℕ → Span
span r s e = record { resource = r; start = s; end = e }

carve-Exact :
    (now : ℕ) (r : String) (occ : List Span) (ivs : List Interval) (s e : ℕ)
    → s < e
    → HoldsAny ivs s e
    → Exact now r occ ivs
    → Exact now r (span r s e ∷ occ) (carve_loop s e false ivs)
carve-Exact now r occ ivs s e p h x = record {
  ordered = carve-Ordered now s e ivs p x.ordered;
  sound = λ a b l q k.
      let c = carve_sound now s e a b ivs p q x.ordered h k in (inr c.1, x.sound a b l q c.0);
  complete = λ a b l q k.
      carve_complete s e a b ivs p q (x.complete a b l q k.1)
        (elim k.0 [ inl ne ↦ absurd (ne refl) | inr d ↦ d ]);
}

other-Exact :
    (now : ℕ) (q r : String) (occ : List Span) (ivs : List Interval) (s e : ℕ)
    → r ≢ q
    → Exact now q occ ivs
    → Exact now q (span r s e ∷ occ) ivs
other-Exact now q r occ ivs s e ne x = record {
  ordered = x.ordered;
  sound = λ a b l p k. (inl ne, x.sound a b l p k);
  complete = λ a b l p k. x.complete a b l p k.1;
}

abbrev pub ExactAll : ℕ → List Span → FreeMap → List String → Type 0
ExactAll now occ free order = All (λ q. Exact now q occ (get q free)) order

-- `carve` on one resource keeps the map exact, with the span that was cut out.
pub carve-ExactAll :
    (now : ℕ) (occ : List Span) (free : FreeMap) (order : List String) (r : String) (s d : ℕ)
    (m : ℤ)
    → duration_of m ≡ pos d
    → s < s + d
    → HoldsAny (get r free) s (s + d)
    → ExactAll now occ free order
    → ExactAll now (span r s (s + d) ∷ occ) (carve free r s m) order
unfolding carve
carve-ExactAll now occ free order r s d m e p h a = rw e (All-imp _ _ order step a)
  where
    new : FreeMap
    new = insert r (carve_loop s (s + d) false (get r free)) free

    step :
        (q : String)
        → Exact now q occ (get q free)
        → Exact now q (span r s (s + d) ∷ occ) (get q new)
    step q x = elim (Bool-cases (str_eq r q)) [
      | inl t ↦
          subst (λ k. Exact now k (span r s (s + d) ∷ occ) (get k new)) ((eq_iff r q).0 t)
            (rw (lookup-insert_self r (carve_loop s (s + d) false (get r free)) free) (
              carve-Exact now r occ (get r free) s (s + d) p h
                (subst (λ k. Exact now k occ (get k free)) (sym ((eq_iff r q).0 t)) x)))
      | inr f ↦
          let ne : r ≢ q = λ k. false≢true (sym f ∙ (eq_iff r q).1 k) in
          rw (lookup-insert_ne r q (carve_loop s (s + d) false (get r free)) free ne)
            (other-Exact now q r occ (get q free) s (s + d) ne x)
    ]
