-- ===== src/Authentication/Provisioning.antt =====
-- Whom `Authenticate` of backend/internal/services/authentication/v1/v1.go lets in, and as whom.
use qlab.Base.{
  ◌≡◌, refl, sym, ap, ◌∙◌, subst, ◌≢◌, ◌⊎◌, inl, inr, Bool, true, not, ◌||◌, List, [], ◌∷◌, ◌++◌,
  Option, none, some, String, arith, AllPairs, In, AllPairs-In, Bool-cases, Option-cases, str_eq,
  eq_iff, find,
}
use qlab.Authentication.{
  Identity, UserRow, Authenticated, known, rejected, UserFaults, has_uid, user_by_firebase_uid,
  user_by_email, linked, is_unlinked, link_firebase_uid, split_name, provision_row, provision,
  found_or, authenticate, linked_or, or_rejected, uid_differs,
}

find_lem :
    (p : UserRow → Bool) (users : List UserRow) (u : UserRow)
    → find p users ≡ some u
    → In u users × (p u ≡ true)
find_lem p [] u h = absurd (cc)
find_lem p (v ∷ users) u h = elim (Bool-cases (p v)) [
  | inl c ↦ here c (rw c at h)
  | inr c ↦ let (k, q) = find_lem p users u (rw c at h) in (inr k, q)
]
  where
    here : p v ≡ true → some v ≡ some u → In u (v ∷ users) × (p u ≡ true)
    here c e = let s : v ≡ u = ground arith in (inl (sym s), subst (λ w. p w ≡ true) s c)

-- The table with one row, not linked before, linked to the identity.
pub record Links (uid : String) (users after : List UserRow) (u : UserRow) : Type 0 where
  pub before : List UserRow
  pub row : UserRow
  pub rest : List UserRow
  pub was : users ≡ before ++ row ∷ rest
  pub is_now : after ≡ before ++ u ∷ rest
  pub unlinked : row.firebase_uid ≡ none
  pub same_id : u.id ≡ row.id
  pub same_email : u.email ≡ row.email
  pub linked_to : u.firebase_uid ≡ some uid

link_lem :
    (id uid first last : String) (users : List UserRow) (o : UserRow × List UserRow)
    → link_firebase_uid id uid first last users ≡ some o
    → (l : Links uid users o.1 o.0) × (l.row.id ≡ id)
unfolding link_firebase_uid
link_lem id uid first last [] o h = absurd (cc)
link_lem id uid first last (u ∷ users) o h = elim (Bool-cases (is_unlinked id u)) [
  | inl c ↦ here (u.firebase_uid) refl c (ground arith)
  | inr c ↦ elim (Option-cases (link_firebase_uid id uid first last users)) [
    | inl n ↦ absurd (ground arith)
    | inr (q, e) ↦ later q (link_lem id uid first last users q e) (ground arith)
  ]
]
  where
    here :
        (f : Option String)
        → u.firebase_uid ≡ f
        → is_unlinked id u ≡ true
        → o ≡ (linked uid first last u, linked uid first last u ∷ users)
        → (l : Links uid (u ∷ users) o.1 o.0) × (l.row.id ≡ id)
    here (some v) e c q = absurd (ground arith)
    here none e c q = (
      record {
        before = [];
        row = u;
        rest = users;
        was = refl;
        is_now = ground arith;
        unlinked = e;
        same_id = ground arith;
        same_email = ground arith;
        linked_to = ground arith;
      },
      ground (arith, eq_iff u.id id),
    )

    later :
        (q : UserRow × List UserRow)
        → ((l : Links uid users q.1 q.0) × (l.row.id ≡ id))
        → o ≡ (q.0, u ∷ q.1)
        → (l : Links uid (u ∷ users) o.1 o.0) × (l.row.id ≡ id)
    later q (l, i) e = (
      record {
        before = u ∷ l.before;
        row = l.row;
        rest = l.rest;
        was = ap (λ us. u ∷ us) l.was;
        is_now = ground (arith, l.is_now);
        unlinked = l.unlinked;
        same_id = ground (arith, l.same_id);
        same_email = ground (arith, l.same_email);
        linked_to = ground (arith, l.linked_to);
      },
      i,
    )

abbrev pub OtherUser : UserRow → UserRow → Type 0
OtherUser u v = u.id ≢ v.id

In-middle : (before : List UserRow) (u : UserRow) (rest : List UserRow) → In u (before ++ u ∷ rest)
In-middle [] u rest = inl refl
In-middle (v ∷ before) u rest = inr (In-middle before u rest)

-- Rows of one id have one email.
same_row_email :
    (users : List UserRow) (u v : UserRow)
    → AllPairs OtherUser users
    → In u users
    → In v users
    → u.id ≡ v.id
    → u.email ≡ v.email
same_row_email users u v keys i j e = elim (Bool-cases (str_eq u.email v.email)) [
  | inl c ↦ (eq_iff u.email v.email).0 c
  | inr c ↦ absurd (
      AllPairs-In OtherUser users u v (λ a b n q. n (sym q)) keys i j
        (λ q. ground (arith, eq_iff u.email v.email, ap (λ (w : UserRow). w.email) q)) e)
]

-- A row that was invited at the identity's address, which is verified, was linked to it.
pub record Claims (identity : Identity) (users after : List UserRow) (u : UserRow) : Type 0 where
  pub verified : identity.email_verified ≡ true
  pub has_email : identity.email ≢ ""
  pub same_email : u.email ≡ identity.email
  pub links : Links identity.firebase_uid users after u

-- Who is let in: the user that the identity is linked to, or the one whom it claims now. Nothing
-- changes otherwise.
abbrev pub Verdict :
    (String → Option Identity)
    → String
    → List UserRow
    → List UserRow × Authenticated UserRow
    → Type 0
Verdict verify token users (after, rejected e) = after ≡ users
Verdict verify token users (after, known u) =
    (identity : Identity) × (verify token ≡ some identity)
    × (u.firebase_uid ≡ some identity.firebase_uid)
    × ((In u users × (after ≡ users)) ⊎ Claims identity users after u)

module _ (verify : String → Option Identity) (token : String) (users : List UserRow)
    (keys : AllPairs OtherUser users) (identity : Identity)
    (verified : verify token ≡ some identity) where
  abbrev Fine : List UserRow × Authenticated UserRow → Type 0
  Fine r = Verdict verify token users r

  or_rejected-Fine :
      (o : Option String) (r : List UserRow × Authenticated UserRow)
      → Fine r
      → Fine (or_rejected o users r)
  or_rejected-Fine none r h = h
  or_rejected-Fine (some message) r h = refl

  linked_or-Fine :
      (faults : UserFaults) (invited : UserRow) (first last : String)
      (o : Option (UserRow × List UserRow))
      → identity.email_verified ≡ true
      → identity.email ≢ ""
      → user_by_email identity.email users ≡ some invited
      → link_firebase_uid invited.id identity.firebase_uid first last users ≡ o
      → Fine (linked_or faults identity users o)
  unfolding user_by_email
  linked_or-Fine faults invited first last none v n f h = refl
  linked_or-Fine faults invited first last (some (u, after)) v n f h =
      let (l, i) = link_lem invited.id identity.firebase_uid first last users (u, after) h in
      let (k, q) = find_lem _ users invited f in
      (
        identity,
        verified,
        l.linked_to,
        inr (record {
          verified = v;
          has_email = n;
          same_email =
              l.same_email
              ∙ same_row_email users l.row invited keys
                  (subst (In l.row) (sym l.was) (In-middle l.before l.row l.rest)) k i
              ∙ (eq_iff invited.email identity.email).0 q;
          links = l;
        }),
      )

  provision_row-Fine :
      (faults : UserFaults) (o : Option UserRow)
      → identity.email_verified ≡ true
      → identity.email ≢ ""
      → user_by_email identity.email users ≡ o
      → Fine (provision_row faults identity users o)
  provision_row-Fine faults none v n f = refl
  provision_row-Fine faults (some invited) v n f =
      elim (Bool-cases (uid_differs invited.firebase_uid identity.firebase_uid)) [
        | inl c ↦ rw c refl
        | inr c ↦ rw c (
            or_rejected-Fine faults.link _ (
              linked_or-Fine faults invited (split_name identity.name).0
                (split_name identity.name).1 _ v n f refl))
      ]

  provision-Fine : (faults : UserFaults) → Fine (provision faults identity users)
  unfolding provision
  provision-Fine faults =
      elim (Bool-cases (str_eq identity.email "" || not identity.email_verified)) [
        | inl c ↦ rw (c, provision) refl
        | inr c ↦
            rw (c, provision)
              (or_rejected-Fine faults.by_email _ (
                provision_row-Fine faults _ (ground arith)
                  (λ e. ground (arith, eq_iff identity.email "")) refl))
      ]

  found_or-Fine :
      (faults : UserFaults) (o : Option UserRow)
      → user_by_firebase_uid identity.firebase_uid users ≡ o
      → Fine (found_or faults identity users o)
  unfolding user_by_firebase_uid
  found_or-Fine faults none f = provision-Fine faults
  found_or-Fine faults (some u) f =
      let (k, q) = find_lem (has_uid identity.firebase_uid) users u f in
      (identity, verified, uid_of u.firebase_uid refl q, inl (k, refl))
    where
      uid_of :
          (o : Option String)
          → u.firebase_uid ≡ o
          → has_uid identity.firebase_uid u ≡ true
          → u.firebase_uid ≡ some identity.firebase_uid
      uid_of none e q = absurd (ground arith)
      uid_of (some v) e q = ground (arith, eq_iff v identity.firebase_uid)

-- A token lets in the user that its identity is linked to, with no change; or, at a first login, the
-- user invited at the identity's address, if that is verified and not empty and the user's row was
-- not linked: then that row alone is linked, and keeps its id and its email. In every other case
-- nothing changes. The ids of the users are keys.
pub authenticate-Verdict :
    (verify : String → Option Identity) (faults : UserFaults) (token : String)
    (users : List UserRow)
    → AllPairs OtherUser users
    → Verdict verify token users (authenticate verify faults token users)
unfolding authenticate
authenticate-Verdict verify faults token users keys = elim (Option-cases (verify token)) [
  | inl n ↦ rw (n, authenticate) refl
  | inr (identity, e) ↦
      rw (e, authenticate)
        (or_rejected-Fine verify token users keys identity e faults.by_uid _
          (found_or-Fine verify token users keys identity e faults _ refl))
]
