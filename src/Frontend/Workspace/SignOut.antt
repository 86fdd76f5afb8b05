-- ===== src/Frontend/Workspace/SignOut.antt =====
-- What a change of the operator leaves of the session of
-- frontend/src/workspace/WorkspaceProvider.tsx.
use qlab.Base.{false, ◌≡◌, refl, List, [], ◌∷◌, Option, none, some, String, lookup, All, arith, ℤ}
use qlab.Frontend.Proto.{ProvisionLabResponse}
use qlab.Frontend.Model.{workspace_from_provision}
use qlab.Frontend.Workspace.{
  State, provision, load_workspace, act_as, resolved, rejected, provision_settled, load_settled,
  mint_settled, cached_settled, same_uid, Event, begins, settles, selects, resets, operator_is,
  step, run,
}

-- Nothing of a session is left.
pub record IsBlank (st : State) : Type 0 where
  pub no_workspace : st.workspace ≡ none
  pub no_acting : st.acting_user_id ≡ none
  pub no_tokens : st.token_cache ≡ []

module _ {Timestamp : Type 0} where
  -- An event that brings no operator reply.
  abbrev pub NoReply : Event Timestamp → Type 0
  NoReply (settles (provision_settled (resolved r))) = ⊥
  NoReply (settles (load_settled (resolved r))) = ⊥
  NoReply (settles (mint_settled u (resolved r))) = ⊥
  NoReply _ = Unit

  step-IsBlank : (st : State) (e : Event Timestamp) → NoReply e → IsBlank st → IsBlank (step st e)
  unfolding step lookup
  step-IsBlank st (begins (provision f m r)) k h = record {
    no_workspace = h.no_workspace;
    no_acting = h.no_acting;
    no_tokens = h.no_tokens;
  }
  step-IsBlank st (begins (load_workspace l)) k h = record {
    no_workspace = h.no_workspace;
    no_acting = h.no_acting;
    no_tokens = h.no_tokens;
  }
  step-IsBlank st (begins (act_as v)) k h = ground arith
  step-IsBlank st (settles (provision_settled (resolved r))) k h = absurd k
  step-IsBlank st (settles (provision_settled (rejected m))) k h = record {
    no_workspace = h.no_workspace;
    no_acting = h.no_acting;
    no_tokens = h.no_tokens;
  }
  step-IsBlank st (settles (load_settled (resolved r))) k h = absurd k
  step-IsBlank st (settles (load_settled (rejected m))) k h = record {
    no_workspace = h.no_workspace;
    no_acting = h.no_acting;
    no_tokens = h.no_tokens;
  }
  step-IsBlank st (settles (mint_settled v (resolved r))) k h = absurd k
  step-IsBlank st (settles (mint_settled v (rejected m))) k h = record {
    no_workspace = h.no_workspace;
    no_acting = h.no_acting;
    no_tokens = h.no_tokens;
  }
  step-IsBlank st (settles cached_settled) k h = record {
    no_workspace = h.no_workspace;
    no_acting = h.no_acting;
    no_tokens = h.no_tokens;
  }
  step-IsBlank st (selects id) k h = record {
    no_workspace = h.no_workspace;
    no_acting = h.no_acting;
    no_tokens = h.no_tokens;
  }
  step-IsBlank st resets k h = record { no_workspace = refl; no_acting = refl; no_tokens = refl }
  step-IsBlank st (operator_is uid) k h = ground arith

  run-IsBlank :
      (st : State) (es : List (Event Timestamp)) → All NoReply es → IsBlank st → IsBlank (run st es)
  unfolding run
  run-IsBlank st [] k h = h
  run-IsBlank st (e ∷ es) k h = run-IsBlank (step st e) es k.1 (step-IsBlank st e k.0 h)

  -- When the operator changes, the workspace, the acting-as selection and all tokens are gone, and
  -- they stay gone as long as no reply of an operator call arrives.
  pub operator_change_blanks :
      (st : State) (uid : Option String) (es : List (Event Timestamp))
      → same_uid uid st.operator_uid ≡ false
      → All NoReply es
      → IsBlank (run st (operator_is uid ∷ es))
  unfolding run step
  operator_change_blanks st uid es h k =
      run-IsBlank _ es k (rw h (record { no_workspace = refl; no_acting = refl; no_tokens = refl }))

-- A call that is still in flight when the operator changes undoes this: its reply brings the
-- workspace of the previous operator into the session of the next one, or of nobody.
pub late_reply_restores :
    (Timestamp : Type 0) (st : State) (f : String) (m n : ℤ) (uid : Option String)
    (res : ProvisionLabResponse)
    → same_uid uid st.operator_uid ≡ false
    → let st' = run {Timestamp = Timestamp} st (
        begins (provision f m n)
        ∷ operator_is uid
        ∷ settles (provision_settled (resolved res))
        ∷ []) in
      (st'.operator_uid ≡ uid) × (st'.workspace ≡ some (workspace_from_provision res))
unfolding run step
late_reply_restores Timestamp st f m n uid res h = (ground arith, ground arith)
