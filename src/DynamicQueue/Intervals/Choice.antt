-- ===== src/DynamicQueue/Intervals/Choice.antt =====
-- The outer loop of `place`: the least start over the resources, ties to the first in the order.
use qlab.Base.{
  ℕ, ◌≤◌, ◌<◌, ◌≡◌, refl, sym, ap, subst, ◌∙◌, ◌⊎◌, inl, inr, true, false, List, [], ◌∷◌, String, ℤ,
  arith, All, Bool-cases, ltb, ltb→lt, ltb→ge,
}
use qlab.DynamicQueue.Greedy.{Wins}
use qlab.DynamicQueue.Intervals.{
  Interval, FreeMap, Best, no_best, get, improve, scan_intervals, scan_resources,
}

module _ (free : FreeMap) (earliest : ℕ) (dur : ℤ) (Feas : String → ℕ → Type 0) where
  -- The inner loop finds a resource's earliest feasible start.
  pub record Finds (q : String) (best : Best) : Type 0 where
    pub start : ℕ
    pub interval : Interval
    pub result : scan_intervals q earliest dur best (get q free) ≡ improve best q start interval
    pub feasible : Feas q start
    pub least : (s : ℕ) → Feas q s → start ≤ s

  Scanned : Best → List String → Best → Type 0
  Scanned best order r =
      ((r ≡ best) × All (λ q. (s : ℕ) → Feas q s → best.start ≤ s) order)
      ⊎ (Wins Feas order r.resource r.start × (r.start < best.start))

  cons-Wins :
      (q r : String) (qs : List String) (t m : ℕ)
      → ((s : ℕ) → Feas q s → m ≤ s)
      → t < m
      → Wins Feas qs r t
      → Wins Feas (q ∷ qs) r t
  cons-Wins q r qs t m h lt w = record {
    before = q ∷ w.before;
    after = w.after;
    split = ap (◌∷◌ q) w.split;
    feasible = w.feasible;
    strictly = (λ s k. omega (arith, h s k), w.strictly);
    least = w.least;
  }

  head-Wins :
      (q : String) (qs : List String) (m : ℕ)
      → Feas q m
      → ((s : ℕ) → Feas q s → m ≤ s)
      → All (λ p. (s : ℕ) → Feas p s → m ≤ s) qs
      → Wins Feas (q ∷ qs) q m
  head-Wins q qs m f h k = record {
    before = [];
    after = qs;
    split = refl;
    feasible = f;
    strictly = tt;
    least = (h, k);
  }

  abbrev taken : String → ℕ → Interval → Best
  taken q t iv = improve no_best q t iv

  taken_found : (q : String) (t : ℕ) (iv : Interval) → (taken q t iv).found ≡ true
  unfolding improve
  taken_found q t iv = refl

  improve_better :
      (best : Best) (q : String) (t : ℕ) (iv : Interval)
      → ltb t best.start ≡ true
      → improve best q t iv ≡ taken q t iv
  unfolding improve
  improve_better best q t iv h = ground arith

  improve_worse :
      (best : Best) (q : String) (t : ℕ) (iv : Interval)
      → best.found ≡ true
      → ltb t best.start ≡ false
      → improve best q t iv ≡ best
  unfolding improve
  improve_worse best q t iv f h = ground arith

  take_head :
      (best : Best) (q : String) (qs : List String) (r : Best) (f : Finds q best)
      → f.start < best.start
      → Scanned (taken q f.start f.interval) qs r
      → Scanned best (q ∷ qs) r
  unfolding Scanned improve
  take_head best q qs r f lt (inl (e, nb)) =
      inr (rw e (head-Wins q qs f.start f.feasible f.least nb), rw e lt)
  take_head best q qs r f lt (inr (w, l)) =
      inr (cons-Wins q r.resource qs r.start f.start f.least l w, omega arith)

  keep_best :
      (best : Best) (q : String) (qs : List String) (r : Best) (f : Finds q best)
      → best.start ≤ f.start
      → Scanned best qs r
      → Scanned best (q ∷ qs) r
  unfolding Scanned
  keep_best best q qs r f le (inl (e, nb)) = inl (e, (λ s h. omega (arith, f.least s h), nb))
  keep_best best q qs r f le (inr (w, l)) =
      inr (cons-Wins q r.resource qs r.start f.start f.least (omega arith) w, l)

  scan_head :
      (best b : Best) (q : String) (qs : List String)
      → scan_intervals q earliest dur best (get q free) ≡ b
      → scan_resources free earliest dur best (q ∷ qs) ≡ scan_resources free earliest dur b qs
  unfolding scan_resources
  scan_head best b q qs e = ap (λ c. scan_resources free earliest dur c qs) e

  scan :
      (best : Best) (order : List String)
      → best.found ≡ true
      → All (λ q. (b : Best) → Finds q b) order
      → Scanned best order (scan_resources free earliest dur best order)
  unfolding scan_resources Scanned
  scan best [] h a = inl (refl, tt)
  scan best (q ∷ qs) h a =
      go (λ b k. scan b qs k a.1) (a.0 best) (Bool-cases (ltb (a.0 best).start best.start))
    where
      go :
          ((b : Best) → b.found ≡ true → Scanned b qs (scan_resources free earliest dur b qs))
          → (f : Finds q best) → (ltb f.start best.start ≡ true) ⊎ (ltb f.start best.start ≡ false)
          → Scanned best (q ∷ qs) (scan_resources free earliest dur best (q ∷ qs))
      go ih f (inl c) =
          subst (Scanned best (q ∷ qs))
            (sym (scan_head best _ q qs (f.result ∙ improve_better best q f.start f.interval c)))
            (take_head best q qs _ f (ltb→lt _ _ c)
              (ih (taken q f.start f.interval) (taken_found q f.start f.interval)))
      go ih f (inr c) =
          subst (Scanned best (q ∷ qs))
            (sym (scan_head best _ q qs (f.result ∙ improve_worse best q f.start f.interval h c)))
            (keep_best best q qs _ f (ltb→ge _ _ c) (ih best h))

  win :
      (q : String) (qs : List String) (r : Best) (f : Finds q no_best)
      → Scanned (taken q f.start f.interval) qs r
      → Wins Feas (q ∷ qs) r.resource r.start
  unfolding Scanned improve
  win q qs r f (inl (e, nb)) = rw e (head-Wins q qs f.start f.feasible f.least nb)
  win q qs r f (inr (w, l)) = cons-Wins q r.resource qs r.start f.start f.least l w

  -- Over a non-empty order the scan ends with the winner.
  pub scan-Wins :
      (q : String) (qs : List String)
      → All (λ p. (b : Best) → Finds p b) (q ∷ qs)
      → let r = scan_resources free earliest dur no_best (q ∷ qs) in
        Wins Feas (q ∷ qs) r.resource r.start
  unfolding improve
  scan-Wins q qs a =
      let f = a.0 no_best in
      let e = scan_head no_best (taken q f.start f.interval) q qs f.result in
      subst (λ (r : Best). Wins Feas (q ∷ qs) r.resource r.start) (sym e)
        (win q qs _ f (scan (taken q f.start f.interval) qs (taken_found q f.start f.interval) a.1))
