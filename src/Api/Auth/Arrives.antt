-- ===== src/Api/Auth/Arrives.antt =====
-- A call from frontend/src/api/transport.ts as backend/internal/api/auth.go reads it, and for whom calls
-- are answered.
use qlab.Base.{
  ◌≡◌, refl, sym, subst, ap, ◌∙◌, ◌≢◌, inl, inr, true, false, List, Option, none, some, String, Map,
  arith, AllPairs, In, ◌⊎◌, Bool-cases, Option-cases, str_eq, eq_iff, if◌then◌else◌, ℕ,
}
use qlab.Scheduling.Tables.{Tables}
use qlab.Scheduling.Service.{Moment, Principal}
use qlab.HeaderMap.{get_header}
use qlab.Frontend.Text.{is_truthy, or_empty}
use qlab.Frontend.Api.{AuthHolder, auth, bearer}
use qlab.Frontend.Api.Headers.{auth_headers}
use qlab.Frontend.Proto.Service.{QlabMethod, Input, Output}
use qlab.Authentication.{
  Identity, UserRow, Authenticated, known, rejected, UserFaults, user_by_firebase_uid, authenticate,
}
use qlab.Authentication.Provisioning.{OtherUser, Claims, Verdict, authenticate-Verdict}
use qlab.Api.GoText.{trim_space, after_fold-append}
use qlab.Api.Handlers.{Rpc, response, failure, parse_uuid, handle}
use qlab.Api.Handlers.Failed.{IsRefused, handle-IsRefused}
use qlab.Api.Auth.{
  header_authorization, header_selected_lab, bearer_prefix, bearer_token, Server, header_of,
  principal_of, auth_interceptor, proceed, call,
}

bearer_token-bearer : (token : String) → bearer_token (bearer token) ≡ trim_space token
unfolding bearer_token
bearer_token-bearer token = rw (after_fold-append bearer_prefix token, bearer_token) refl

truthy : (s : String) → s ≢ "" → is_truthy (some s) ≡ true
truthy s n = ground (arith, eq_iff s "")

abbrev pub holding : String → String → AuthHolder
holding token lab = record { token = some token; lab_id = some lab }

-- The token and the lab that the frontend's interceptor puts on a request are those that the backend's
-- reads.
headers_arrive :
    (token lab : String) (headers : Map String)
    → token ≢ ""
    → lab ≢ ""
    → (bearer_token (header_of header_authorization (auth (holding token lab) headers))
        ≡ trim_space token)
      × (header_of header_selected_lab (auth (holding token lab) headers) ≡ lab)
headers_arrive token lab headers n k =
    let h = auth_headers (holding token lab) none headers in
    (
      ap (λ o. bearer_token (or_empty o))
            (h.0
              ∙ ap (λ b. if b then some (bearer token) else get_header header_authorization headers)
                  (truthy token n))
          ∙ bearer_token-bearer token,
      ap or_empty (
          h.1
          ∙ ap (λ b. if b then some lab else get_header header_selected_lab headers)
              (truthy lab k)),
    )

module _ {Timestamp : Type 0} (server : Server Timestamp) (faults : UserFaults)
    (users : List UserRow) where
  -- A request that the frontend sends with the token of a linked user and with a lab is handled as
  -- that user in that lab, and changes no user, whatever headers it had before: when the authentication
  -- service is attached and the look-up succeeds, the token is not empty, has no white space at its
  -- ends and verifies, and the lab is a uuid.
  pub request_arrives :
      (verify : String → Option Identity) (identity : Identity) (u : UserRow) (token lab : String)
      (headers : Map String)
      → server.authn ≡ some verify
      → faults.by_uid ≡ none
      → token ≢ ""
      → lab ≢ ""
      → trim_space token ≡ token
      → verify token ≡ some identity
      → user_by_firebase_uid identity.firebase_uid users ≡ some u
      → server.parse lab ≡ some lab
      → auth_interceptor server faults (auth (holding token lab) headers) users
        ≡ (users, response (record { user_id = u.id; lab_id = lab }))
  unfolding auth_interceptor authenticate parse_uuid
  request_arrives verify identity u token lab headers a f n k s v w p =
      let (t, l) = headers_arrive token lab headers n k in
      let filled : str_eq token "" ≡ false = ground (arith, eq_iff token "") in
      rw (a, auth_interceptor)
        (rw (t, l, s) (rw filled (rw (v, authenticate) (rw (f, w) (rw (p, parse_uuid) refl)))))

  -- The attached authentication service gives the identity for the request's bearer token.
  abbrev pub Verifies : Map String → Identity → Type 0
  Verifies headers identity =
      (verify : String → Option Identity) × (server.authn ≡ some verify)
      × (verify (bearer_token (header_of header_authorization headers)) ≡ some identity)

  -- What a call may make of the users: nothing, or the link of the row that the identity of its token
  -- claims.
  abbrev pub OnlyClaims : Map String → List UserRow → Type 0
  OnlyClaims headers after =
      (after ≡ users)
      ⊎ ((identity : Identity) × (user : UserRow) × Verifies headers identity
          × Claims identity users after user)

  -- What is known of the principal whom a call is handled for: it is a row of the users that was
  -- linked to the identity before, or the row that the identity has claimed now.
  pub record IsIdentified (headers : Map String) (after : List UserRow) (p : Principal)
      : Type 0 where
    pub identity : Identity
    pub user : UserRow
    pub verifies : Verifies headers identity
    pub has_token : bearer_token (header_of header_authorization headers) ≢ ""
    pub linked_to : user.firebase_uid ≡ some identity.firebase_uid
    pub is_row : (In user users × (after ≡ users)) ⊎ Claims identity users after user
    pub is_user : p.user_id ≡ user.id
    pub in_lab : server.parse (header_of header_selected_lab headers) ≡ some p.lab_id

  principal_lem :
      (headers : Map String) (verify : String → Option Identity) (after : List UserRow)
      (p : Principal) (r : List UserRow × Authenticated UserRow)
      → server.authn ≡ some verify
      → bearer_token (header_of header_authorization headers) ≢ ""
      → Verdict verify (bearer_token (header_of header_authorization headers)) users r
      → principal_of server.parse (header_of header_selected_lab headers) r ≡ (after, response p)
      → IsIdentified headers after p
  unfolding parse_uuid
  principal_lem headers verify after p (users', rejected e) a n v h = absurd (ground arith)
  principal_lem headers verify after p (users', known u) a n (identity, q, l, c) h =
      elim (Option-cases (server.parse (header_of header_selected_lab headers))) [
        | inl z ↦ absurd (ground arith)
        | inr (lab, z) ↦ record {
          identity = identity;
          user = u;
          verifies = (verify, a, q);
          has_token = n;
          linked_to = l;
          is_row =
              let same : users' ≡ after = ground arith in
              subst (λ a. (In u users × (a ≡ users)) ⊎ Claims identity users a u) same c;
          is_user = ground arith;
          in_lab = ground arith;
        }
      ]

  Verdict-OnlyClaims :
      (headers : Map String) (verify : String → Option Identity)
      (r : List UserRow × Authenticated UserRow)
      → server.authn ≡ some verify
      → Verdict verify (bearer_token (header_of header_authorization headers)) users r
      → OnlyClaims headers (principal_of server.parse (header_of header_selected_lab headers) r).0
  Verdict-OnlyClaims headers verify (after, rejected e) a v = inl v
  Verdict-OnlyClaims headers verify (after, known u) a (identity, q, l, inl (i, s)) = inl s
  Verdict-OnlyClaims headers verify (after, known u) a (identity, q, l, inr c) =
      inr (identity, u, (verify, a, q), c)

  auth_interceptor-OnlyClaims :
      (headers : Map String)
      → AllPairs OtherUser users
      → OnlyClaims headers (auth_interceptor server faults headers users).0
  unfolding auth_interceptor
  auth_interceptor-OnlyClaims headers keys = elim (Option-cases server.authn) [
    | inl a ↦ rw (a, auth_interceptor) (inl refl)
    | inr (verify, a) ↦
        elim (Bool-cases (str_eq (bearer_token (header_of header_authorization headers)) "")) [
          | inl c ↦ rw (a, auth_interceptor) (rw c (inl refl))
          | inr c ↦ subst (OnlyClaims headers) (sym (identified verify a c)) (
              Verdict-OnlyClaims headers verify _ a (
                authenticate-Verdict verify faults
                  (bearer_token (header_of header_authorization headers)) users keys))
        ]
  ]
    where
      identified :
          (verify : String → Option Identity)
          → server.authn ≡ some verify
          → str_eq (bearer_token (header_of header_authorization headers)) "" ≡ false
          → (auth_interceptor server faults headers users).0
            ≡ (principal_of server.parse (header_of header_selected_lab headers) (
                authenticate verify faults
                  (bearer_token (header_of header_authorization headers))
                  users)).0
      identified verify a c = rw (a, auth_interceptor) (rw c refl)

  auth_interceptor-IsIdentified :
      (headers : Map String) (after : List UserRow) (p : Principal)
      → AllPairs OtherUser users
      → auth_interceptor server faults headers users ≡ (after, response p)
      → IsIdentified headers after p
  unfolding auth_interceptor
  auth_interceptor-IsIdentified headers after p keys h = elim (Option-cases server.authn) [
    | inl a ↦ absurd (ground arith)
    | inr (verify, a) ↦
        elim (Bool-cases (str_eq (bearer_token (header_of header_authorization headers)) "")) [
          | inl c ↦ absurd (ground arith)
          | inr c ↦
              principal_lem headers verify after p _ a
                (λ e.
                  ground (arith, eq_iff (bearer_token (header_of header_authorization headers)) ""))
                (authenticate-Verdict verify faults _ users keys)
                (rw c at (rw (a, auth_interceptor) at h))
        ]
  ]

  module _ (timestamp_of : ℕ → Timestamp) (instant_of : Timestamp → ℕ) (m : Moment)
      (method : QlabMethod) (req : Input Timestamp method) (headers : Map String) (t : Tables) where
    abbrev handled : Principal → Tables × Rpc (Output Timestamp method)
    handled p =
        handle timestamp_of instant_of server.parse m
          (record { principal = some p; sched = server.sched }) method req t

    -- What a call comes to: a failure that changes no table of the service, or the method's response
    -- to a user whom the token identifies, in the lab that the header names.
    abbrev pub Answer : List UserRow × Tables × Rpc (Output Timestamp method) → Type 0
    Answer (after, u, failure c) = (u ≡ t) × OnlyClaims headers after
    Answer (after, u, response out) =
        (p : Principal) × IsIdentified headers after p × ((u, response out) ≡ handled p)

    handled-Answer :
        (after : List UserRow) (p : Principal) (q : Tables × Rpc (Output Timestamp method))
        → q ≡ handled p
        → IsRefused t q
        → IsIdentified headers after p
        → OnlyClaims headers after
        → Answer (after, q.0, q.1)
    handled-Answer after p (u, failure c) e h i o = (h, o)
    handled-Answer after p (u, response out) e h i o = (p, i, e)

    proceed-Answer :
        (r : List UserRow × Rpc Principal)
        → ((after : List UserRow) (p : Principal)
            → r ≡ (after, response p)
            → IsIdentified headers after p)
        → OnlyClaims headers r.0
        → Answer (proceed server faults timestamp_of instant_of m method req r t)
    proceed-Answer (after, failure c) f o = (refl, o)
    proceed-Answer (after, response p) f o = elim (Bool-cases (server.valid method req)) [
      | inl c ↦ rw c (
          handled-Answer after p (handled p) refl
            (handle-IsRefused timestamp_of instant_of server.parse m
              (record { principal = some p; sched = server.sched }) t method req)
            (f after p refl) o)
      | inr c ↦ rw c (refl, o)
    ]

    -- A call that fails, whatever its method and whatever fails, changes no table of the service; of
    -- the users it changes at most one row, which the verified identity of its bearer token claims:
    -- invited at the identity's address and not linked before, it is linked now. A call that is answered
    -- is answered as its method does, in the lab that its header names, for the user of that identity: a
    -- row that was linked to it already, with no user changed, or the row that it claims now. The ids of
    -- the users are keys.
    pub call_lem :
        AllPairs OtherUser users
        → Answer (call server faults timestamp_of instant_of m method req headers users t)
    unfolding call
    call_lem keys =
        proceed-Answer (auth_interceptor server faults headers users)
          (λ after p. auth_interceptor-IsIdentified headers after p keys)
          (auth_interceptor-OnlyClaims headers keys)
