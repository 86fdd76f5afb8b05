-- ===== src/Scheduling/Next.antt =====
-- Whom `nextInLineUser` of backend/internal/services/scheduling/v1/helpers.go finds.
use mathlib.Core.Option.{some-injective}
use qlab.Base.{
  ◌≡◌, refl, subst, ◌≢◌, ◌⊎◌, inl, inr, true, false, not, ◌||◌, List, [], ◌∷◌, Option, none, some,
  String, ◌≤ℤ◌, arith, All, Any, Bool-cases, Option-cases, str_eq, eq_iff, ltb_ℤ, ltb_ℤ→le,
  ltb_ℤ→ge, le_ℤ_trans,
}
use qlab.Scheduling.Store.{scheduled, Slot, is_scheduled}
use qlab.Scheduling.Helpers.{sooner, first_waiting, next_in_line_user, is_next_in_line}

abbrev pub Waits : String → Slot → Type 0
Waits exclude s = (s.status ≡ scheduled) × (s.id ≢ exclude)

-- The caller has the front-most of the slots that wait, the excluded one left out.
pub record IsNext (working : List Slot) (exclude caller : String) : Type 0 where
  pub front : Slot
  pub is_slot : Any (λ s. s ≡ front) working
  pub waits : Waits exclude front
  pub is_callers : front.user_id ≡ caller
  pub is_least : All (λ s. Waits exclude s → front.priority ≤ℤ s.priority) working

abbrev Ahead : Slot → Option Slot → Type 0
Ahead n none = Unit
Ahead n (some b) = n.priority ≤ℤ b.priority

abbrev IsFrom : Slot → Option Slot → Type 0
IsFrom n none = ⊥
IsFrom n (some b) = b ≡ n

module _ (exclude : String) (n : Slot) where
  Waits-test :
      (s : Slot) → (not (is_scheduled s.status) || str_eq s.id exclude) ≡ false → Waits exclude s
  Waits-test s h = (ground arith, λ e. ground (arith, eq_iff s.id exclude))

  Waits-not :
      (s : Slot) → (not (is_scheduled s.status) || str_eq s.id exclude) ≡ true → Waits exclude s → ⊥
  Waits-not s h w = ground (arith, w.0, w.1, eq_iff s.id exclude)

  sooner_new : (b s : Slot) → ltb_ℤ s.priority b.priority ≡ true → sooner (some b) s ≡ some s
  sooner_new b s c = rw c refl

  sooner_old : (b s : Slot) → ltb_ℤ s.priority b.priority ≡ false → sooner (some b) s ≡ some b
  sooner_old b s c = rw c refl

  sooner_lem :
      (best : Option Slot) (s : Slot)
      → Ahead n (sooner best s)
      → Ahead n best × (n.priority ≤ℤ s.priority)
  sooner_lem none s a = (tt, a)
  sooner_lem (some b) s a = elim (Bool-cases (ltb_ℤ s.priority b.priority)) [
    | inl c ↦
        let k = subst (Ahead n) (sooner_new b s c) a in
        (le_ℤ_trans n.priority s.priority b.priority k (ltb_ℤ→le s.priority b.priority c), k)
    | inr c ↦
        let k = subst (Ahead n) (sooner_old b s c) a in
        (k, le_ℤ_trans n.priority b.priority s.priority k (ltb_ℤ→ge s.priority b.priority c))
  ]

  sooner-IsFrom :
      (best : Option Slot) (s : Slot) → IsFrom n (sooner best s) → IsFrom n best ⊎ (s ≡ n)
  sooner-IsFrom none s a = inr a
  sooner-IsFrom (some b) s a = elim (Bool-cases (ltb_ℤ s.priority b.priority)) [
    | inl c ↦ inr (subst (IsFrom n) (sooner_new b s c) a)
    | inr c ↦ inl (subst (IsFrom n) (sooner_old b s c) a)
  ]

  first_waiting_lem :
      (ss : List Slot) (best : Option Slot)
      → first_waiting exclude best ss ≡ some n
      → (IsFrom n best ⊎ (Any (λ s. s ≡ n) ss × Waits exclude n))
        × Ahead n best
        × All (λ s. Waits exclude s → n.priority ≤ℤ s.priority) ss
  unfolding first_waiting
  first_waiting_lem [] none h = absurd (cc)
  first_waiting_lem [] (some b) h =
      let e = some-injective b n h in
      (inl e, subst (λ x. x.priority ≤ℤ b.priority) e (omega arith), tt)
  first_waiting_lem (s ∷ ss) best h =
      elim (Bool-cases (not (is_scheduled s.status) || str_eq s.id exclude)) [
        | inl c ↦
            let (f, a, l) = first_waiting_lem ss best (skipped s ss best c h) in
            (
              elim f [ inl x ↦ inl x | inr x ↦ inr (inr x.0, x.1) ],
              a,
              (λ w. absurd (Waits-not s c w), l),
            )
        | inr c ↦
            let (f, a, l) = first_waiting_lem ss (sooner best s) (taken s ss best c h) in
            let k = sooner_lem best s a in
            (
              elim f [
                | inl x ↦ elim (sooner-IsFrom best s x) [
                  | inl y ↦ inl y
                  | inr e ↦ inr (inl e, subst (Waits exclude) e (Waits-test s c))
                ]
                | inr x ↦ inr (inr x.0, x.1)
              ],
              k.0,
              (λ w. k.1, l),
            )
      ]
    where
      skipped :
          (s : Slot) (ss : List Slot) (best : Option Slot)
          → (not (is_scheduled s.status) || str_eq s.id exclude) ≡ true
          → first_waiting exclude best (s ∷ ss) ≡ some n
          → first_waiting exclude best ss ≡ some n
      skipped s ss best c h = ground arith

      taken :
          (s : Slot) (ss : List Slot) (best : Option Slot)
          → (not (is_scheduled s.status) || str_eq s.id exclude) ≡ false
          → first_waiting exclude best (s ∷ ss) ≡ some n
          → first_waiting exclude (sooner best s) ss ≡ some n
      taken s ss best c h = ground arith

pub next_user_lem :
    (exclude caller : String) (working : List Slot)
    → is_next_in_line working exclude caller ≡ true
    → IsNext working exclude caller
unfolding is_next_in_line next_in_line_user
next_user_lem exclude caller working h = elim (Option-cases (first_waiting exclude none working)) [
  | inl e ↦ absurd (nobody e)
  | inr (n, e) ↦
      let (f, a, l) = first_waiting_lem exclude n working none e in
      elim f [
        | inl x ↦ absurd x
        | inr x ↦ record {
          front = n;
          is_slot = x.0;
          waits = x.1;
          is_callers = users n e;
          is_least = l;
        }
      ]
]
  where
    nobody : first_waiting exclude none working ≡ none → ⊥
    nobody e = ground arith

    users : (n : Slot) → first_waiting exclude none working ≡ some n → n.user_id ≡ caller
    users n e = ground (arith, eq_iff n.user_id caller)
