-- ===== src/Frontend/Workspace/Tokens.antt =====
-- The token cache of frontend/src/workspace/WorkspaceProvider.tsx under any order of events.
use qlab.Base.{
  true, ◌≡◌, refl, sym, ap, subst, ◌⊎◌, inl, inr, List, [], ◌∷◌, Option, none, some, String, lookup,
  str_eq, eq_iff, arith, lookup-insert, lookup-insert_self, Option-cases, if◌then◌else◌,
}
use qlab.Frontend.Proto.{MintTokenResponse}
use qlab.Frontend.Workspace.{
  State, provision, load_workspace, act_as, Request, mint_token, begin, begin_act_as, start_run,
  resolved, rejected, provision_settled, load_settled, mint_settled, cached_settled, same_uid,
  Event, begins, settles, selects, resets, operator_is, step, run,
}

-- Whoever is acted as has a token.
abbrev pub HasToken : State → Type 0
HasToken st =
    (st.acting_user_id ≡ none)
    ⊎ ((u : String) × (t : String) × (st.acting_user_id ≡ some u)
        × (lookup u st.token_cache ≡ some t))

abbrev IsCached : String → State → Type 0
IsCached u st = (t : String) × (lookup u st.token_cache ≡ some t)

act_as_missing :
    (u : String) (st : State)
    → lookup u st.token_cache ≡ none
    → begin (act_as u) st ≡ (start_run st, some (mint_token u))
unfolding begin
act_as_missing u st e = rw (e, begin_act_as)

act_as_cached :
    (u : String) (st : State)
    → IsCached u st
    → begin (act_as u) st ≡ (record (start_run st) { acting_user_id = some u }, none)
unfolding begin
act_as_cached u st (t, e) = rw (e, begin_act_as)

-- What holds of the state on both branches of `actAs` holds after it.
begin-act_as_cases :
    (P : State → Type 0) (u : String) (st : State)
    → (lookup u st.token_cache ≡ none → P (start_run st))
    → (IsCached u st → P (record (start_run st) { acting_user_id = some u }))
    → P (begin (act_as u) st).0
begin-act_as_cases P u st f g = elim (Option-cases (lookup u st.token_cache)) [
  | inl e ↦ subst (λ (r : State × Option Request). P r.0) (sym (act_as_missing u st e)) (f e)
  | inr c ↦ subst (λ (r : State × Option Request). P r.0) (sym (act_as_cached u st c)) (g c)
]

module _ {Timestamp : Type 0} where
  step-HasToken : (st : State) (e : Event Timestamp) → HasToken st → HasToken (step st e)
  unfolding step
  step-HasToken st (begins (provision f m r)) h = h
  step-HasToken st (begins (load_workspace l)) h = h
  step-HasToken st (begins (act_as u)) h =
      begin-act_as_cases HasToken u st (λ e. unfold start_run in h)
        (λ c. unfold start_run in inr (u, c.0, refl, c.1))
  step-HasToken st (settles (provision_settled (resolved r))) h = inl refl
  step-HasToken st (settles (provision_settled (rejected m))) h = h
  step-HasToken st (settles (load_settled (resolved r))) h = inl refl
  step-HasToken st (settles (load_settled (rejected m))) h = h
  step-HasToken st (settles (mint_settled u (resolved r))) h =
      inr (u, r.id_token, refl, lookup-insert_self u r.id_token st.token_cache)
  step-HasToken st (settles (mint_settled u (rejected m))) h = h
  step-HasToken st (settles cached_settled) h = h
  step-HasToken st (selects id) h = h
  step-HasToken st resets h = inl refl
  step-HasToken st (operator_is uid) h = ground arith

  -- From a state where whoever is acted as has a token in the cache, any events, in any order and
  -- with replies that come late, lead to a state where this holds too.
  pub run-HasToken : (st : State) (es : List (Event Timestamp)) → HasToken st → HasToken (run st es)
  unfolding run
  run-HasToken st [] h = h
  run-HasToken st (e ∷ es) h = run-HasToken (step st e) es (step-HasToken st e h)

  -- An event that leaves the cache's entries in place: no adoption of a lab, and no reset.
  abbrev pub KeepsTokens : State → Event Timestamp → Type 0
  KeepsTokens st (settles (provision_settled (resolved r))) = ⊥
  KeepsTokens st (settles (load_settled (resolved r))) = ⊥
  KeepsTokens st resets = ⊥
  KeepsTokens st (operator_is uid) = same_uid uid st.operator_uid ≡ true
  KeepsTokens st _ = Unit

  abbrev pub AllKeepTokens : State → List (Event Timestamp) → Type 0
  AllKeepTokens st [] = Unit
  AllKeepTokens st (e ∷ es) = KeepsTokens st e × AllKeepTokens (step st e) es

  step-IsCached :
      (u : String) (st : State) (e : Event Timestamp)
      → KeepsTokens st e
      → IsCached u st
      → IsCached u (step st e)
  unfolding step
  step-IsCached u st (begins (provision f m r)) k h = h
  step-IsCached u st (begins (load_workspace l)) k h = h
  step-IsCached u st (begins (act_as v)) k h =
      begin-act_as_cases (IsCached u) v st (λ e. unfold start_run in h) (λ c. unfold start_run in h)
  step-IsCached u st (settles (provision_settled (resolved r))) k h = absurd k
  step-IsCached u st (settles (provision_settled (rejected m))) k h = h
  step-IsCached u st (settles (load_settled (resolved r))) k h = absurd k
  step-IsCached u st (settles (load_settled (rejected m))) k h = h
  step-IsCached u st (settles (mint_settled v (resolved r))) k (t, h) = (
    if str_eq v u then r.id_token else t,
    ground (arith, eq_iff v u, lookup-insert v u r.id_token st.token_cache),
  )
  step-IsCached u st (settles (mint_settled v (rejected m))) k h = h
  step-IsCached u st (settles cached_settled) k h = h
  step-IsCached u st (selects id) k h = h
  step-IsCached u st resets k h = absurd k
  step-IsCached u st (operator_is uid) k h = rw k h

  run-IsCached :
      (u : String) (st : State) (es : List (Event Timestamp))
      → AllKeepTokens st es
      → IsCached u st
      → IsCached u (run st es)
  unfolding run
  run-IsCached u st [] k h = h
  run-IsCached u st (e ∷ es) k h = run-IsCached u (step st e) es k.1 (step-IsCached u st e k.0 h)

  -- Once a token was minted for a user, acting as that user again sends no request and takes effect
  -- at once, whatever happened in between, as long as no lab was adopted and nothing was reset.
  pub act_as_again :
      (u : String) (st : State) (res : MintTokenResponse) (es : List (Event Timestamp))
      → AllKeepTokens (step {Timestamp = Timestamp} st (settles (mint_settled u (resolved res)))) es
      → let st' = run st (settles (mint_settled u (resolved res)) ∷ es) in
        ((begin (act_as u) st').1 ≡ none) × ((begin (act_as u) st').0.acting_user_id ≡ some u)
  unfolding run step
  act_as_again u st res es k =
      let c =
        run-IsCached u _ es k (res.id_token, lookup-insert_self u res.id_token st.token_cache) in
      let e = act_as_cached u (run st (settles (mint_settled u (resolved res)) ∷ es)) c in
      (ap (λ r. r.1) e, ap (λ r. r.0.acting_user_id) e)
