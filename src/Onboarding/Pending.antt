-- ===== src/Onboarding/Pending.antt =====
-- How many invitations are pending for an address.
use kaats_v.Base.{
  ℕ, ◌≤◌, ◌<◌, ◌≡◌, refl, sym, ◌⊎◌, inl, inr, true, ◌&&◌, none, some, List, [], ◌∷◌, String, arith,
  ◌==◌, get, select, count, length, length-select, count-update, one_or_none, Result, ok, err, http,
  invitation_gone, invitation_pending, Bool-cases, commit, is_ok,
}
use kaats_v.Schema.{Db, InvitationToken, InvitationStatus}
use kaats_v.Onboarding.{audit, consume, accept_invitation}
use kaats_v.Onboarding.Requests.{
  InviteCreate, is_pending_for, new_invitation, create_invitation, revoke, Request, create, accept,
  revoke_pending, read_status, patch_status, serve, serve_all,
}
use kaats_v.Onboarding.Lifecycle.{
  Lifecycle, serve_all-Lifecycle, Consumes, Revokes, accept-Consumes, revoke-Revokes,
  read_status-invitations, patch_status-invitations,
}
use text.Mathlib.Text.{◌==◌ as str_eq}
use text.Mathlib.TextEquality.{eq_iff}

-- At most one invitation is pending for each company and address.
abbrev pub UniquePending : List InvitationToken → Type 0
UniquePending xs = (company : ℕ) (email : String) → count (is_pending_for company email) xs ≤ 1

Consumes-UniquePending :
    (now token : ℕ) (xs ys : List InvitationToken)
    → Consumes now token xs ys
    → UniquePending xs
    → UniquePending ys
Consumes-UniquePending now token xs ys (inl e) h company email = rw e (h company email)
Consumes-UniquePending now token xs ys (inr (a, e, u, q)) h company email = rw q (
    let p = is_pending_for company email in
    ground
      (arith, h company email, count-update InvitationToken.token p token (consume now) a xs e))

Revokes-UniquePending :
    (i : ℕ) (xs ys : List InvitationToken) → Revokes i xs ys → UniquePending xs → UniquePending ys
Revokes-UniquePending i xs ys (inl e) h company email = rw e (h company email)
Revokes-UniquePending i xs ys (inr (a, e, u, q)) h company email = rw q (
    let p = is_pending_for company email in
    ground (arith, h company email, count-update InvitationToken.id p i revoke a xs e))

none_found : {A : Type 0} (xs : List A) → one_or_none xs ≡ ok none → length xs ≡ 0
none_found [] h = refl
none_found (x ∷ []) h = absurd (cc)
none_found (x ∷ y ∷ xs) h = absurd (cc)

create-pending :
    (now token company inviter actor : ℕ) (body : InviteCreate) (mail : Result (Unit {0})) (db : Db)
    → let ys = (serve (create now token company inviter actor body mail) db).invitations in
      (ys ≡ db.invitations)
      ⊎ ((count (is_pending_for company body.email) db.invitations ≡ 0)
          × (ys ≡ new_invitation db.next_id now token company inviter body ∷ db.invitations))
unfolding serve commit create_invitation audit
create-pending now token company inviter actor body mail db =
    let p = is_pending_for company body.email in
    let l = length-select p db.invitations in
    let n = none_found (select p db.invitations) in
    elim (Bool-cases (is_ok (create_invitation now token company inviter actor body mail db).0)) [
      | inl r ↦ inr (ground (arith, l, n), ground arith)
      | inr r ↦ inl (ground arith)
    ]

serve-UniquePending :
    (r : Request) (db : Db) → UniquePending db.invitations → UniquePending (serve r db).invitations
unfolding count
serve-UniquePending (create now token company inviter actor body mail) db h = λ c email.
    elim (create-pending now token company inviter actor body mail db) [
      | inl e ↦ rw e (h c email)
      | inr (z, e) ↦ rw e (elim (Bool-cases ((company == c) && str_eq body.email email)) [
        | inl m ↦
            let k : company ≡ c = ground arith in
            let q : body.email ≡ email = (eq_iff body.email email).0 (ground arith) in
            let z' : count (is_pending_for c email) db.invitations ≡ 0 = rw (← k, ← q) z in
            ground (arith, z')
        | inr m ↦ ground (arith, h c email)
      ])
    ]
serve-UniquePending (accept now token name) db h =
    Consumes-UniquePending now token db.invitations (serve (accept now token name) db).invitations
      (accept-Consumes now token name db) h
serve-UniquePending (revoke_pending company i) db h =
    Revokes-UniquePending i db.invitations (serve (revoke_pending company i) db).invitations
      (revoke-Revokes company i db) h
serve-UniquePending (read_status company) db h = rw (read_status-invitations company db) h
serve-UniquePending (patch_status now company body) db h =
    rw (patch_status-invitations now company body db) h

-- If each company has at most one pending invitation for each address, then so it is after any
-- sequence of requests, each committed or rolled back.
pub serve_all-UniquePending :
    (rs : List Request) (db : Db)
    → UniquePending db.invitations
    → UniquePending (serve_all rs db).invitations
unfolding serve_all
serve_all-UniquePending [] db h = h
serve_all-UniquePending (r ∷ rs) db h =
    serve_all-UniquePending rs (serve r db) (serve-UniquePending r db h)

some_found : {A : Type 0} (xs : List A) → length xs ≡ 1 → (a : A) × (one_or_none xs ≡ ok (some a))
some_found [] h = absurd (omega arith)
some_found (x ∷ []) h = (x, refl)
some_found (x ∷ y ∷ xs) h = absurd (omega arith)

a_pending :
    (t company : ℕ) (email : String) (a : InvitationToken) (xs : List InvitationToken)
    → get InvitationToken.token t xs ≡ some a
    → is_pending_for company email a ≡ true
    → 1 ≤ count (is_pending_for company email) xs
unfolding get count
a_pending t company email a [] h p = absurd (cc)
a_pending t company email a (x ∷ xs) h p = elim (Bool-cases (x.token == t)) [
  | inl e ↦ ground arith
  | inr e ↦ ground (arith, a_pending t company email a xs)
]

-- A pending invitation blocks another one to its address.
create-refused :
    (now token company inviter actor : ℕ) (body : InviteCreate) (mail : Result (Unit {0})) (db : Db)
    → count (is_pending_for company body.email) db.invitations ≡ 1
    → create_invitation now token company inviter actor body mail db
      ≡ (err (http 409 invitation_pending), db)
unfolding create_invitation
create-refused now token company inviter actor body mail db n =
    let p = is_pending_for company body.email in
    let l = length-select p db.invitations in
    let (b, f) = some_found (select p db.invitations) (omega (arith, l)) in ground (arith, f)

accept-refused :
    (now token : ℕ) (name : String) (a : InvitationToken) (db : Db)
    → get InvitationToken.token token db.invitations ≡ some a
    → a.expires_at ≤ now
    → accept_invitation now token name db ≡ (err (http 410 invitation_gone), db)
unfolding accept_invitation
accept-refused now token name a db h e = ground arith

-- Take a pending invitation, where each company has at most one for each address, and any sequence
-- of requests, each committed or rolled back. Then the invitation was accepted before its expiry,
-- or it was revoked, or it blocks: from its expiry on an acceptance of it is answered by 410, and
-- at any time a new invitation to its address in its company by 409, and neither changes anything.
pub expired-blocks :
    (rs : List Request) (now token : ℕ) (name : String) (a : InvitationToken) (db : Db)
    (later fresh inviter actor : ℕ) (body : InviteCreate) (mail : Result (Unit {0}))
    → get InvitationToken.token token db.invitations ≡ some a
    → a.status ≡ InvitationStatus.pending
    → UniquePending db.invitations
    → a.expires_at ≤ now
    → body.email ≡ a.email
    → let db' = serve_all rs db in
      ((b : InvitationToken) × (get InvitationToken.token token db'.invitations ≡ some b)
        × (((t : ℕ) × (t < a.expires_at)
              × (b.accepted_at ≡ some t)
              × (b.status ≡ InvitationStatus.accepted))
            ⊎ (b.status ≡ InvitationStatus.revoked)))
      ⊎ ((accept_invitation now token name db' ≡ (err (http 410 invitation_gone), db'))
          × (create_invitation later fresh a.company_id inviter actor body mail db'
              ≡ (err (http 409 invitation_pending), db')))
expired-blocks rs now token name a db later fresh inviter actor body mail h p unique e same =
    let (b, k, l) = serve_all-Lifecycle rs db token a h in
    let only = serve_all-UniquePending rs db unique in fate b k l only
  where
    fate :
        (b : InvitationToken)
        → get InvitationToken.token token (serve_all rs db).invitations ≡ some b
        → Lifecycle a b
        → UniquePending (serve_all rs db).invitations
        → ((b : InvitationToken) × (get InvitationToken.token token (serve_all rs db).invitations
              ≡ some b)
            × (((t : ℕ) × (t < a.expires_at)
                  × (b.accepted_at ≡ some t)
                  × (b.status ≡ InvitationStatus.accepted))
                ⊎ (b.status ≡ InvitationStatus.revoked)))
          ⊎ ((accept_invitation now token name (serve_all rs db)
                ≡ (err (http 410 invitation_gone), serve_all rs db))
              × (create_invitation later fresh a.company_id inviter actor body mail
                    (serve_all rs db)
                  ≡ (err (http 409 invitation_pending), serve_all rs db)))
    fate b k (Lifecycle.kept q) only =
        let k' : get InvitationToken.token token (serve_all rs db).invitations ≡ some a =
          ground (arith, k, q) in
        let address = (eq_iff a.email body.email).1 (sym same) in
        let listed : is_pending_for a.company_id body.email a ≡ true = ground (arith, p, address) in
        let some_one =
          a_pending token a.company_id body.email a (serve_all rs db).invitations k' listed in
        let one = only a.company_id body.email in
        inr (
          accept-refused now token name a (serve_all rs db) k' e,
          create-refused later fresh a.company_id inviter actor body mail (serve_all rs db)
              (omega (arith, some_one, one)),
        )
    fate b k (Lifecycle.accepted t q u r) only = inl (b, k, inl (t, u, rw r refl, rw r refl))
    fate b k (Lifecycle.revoked q r) only = inl (b, k, inr (rw r refl))
