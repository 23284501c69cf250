-- ===== src/Onboarding/Lifecycle.antt =====
-- What becomes of an invitation over any sequence of requests.
use kaats_v.Base.{
  ℕ, ◌<◌, ◌≡◌, refl, ◌⊎◌, inl, inr, true, false, ◌&&◌, none, some, List, [], ◌∷◌, String, arith,
  ◌==◌, get, update, Result, ok, err, http, invitation_gone, get-update, get-key, subst, ◌∙◌,
  Option-cases, Bool-cases, is_ok, commit,
}
use kaats_v.Schema.{Db, User, InvitationToken, InvitationStatus, is_pending_invitation}
use kaats_v.Onboarding.{
  audit, is_usable, consume, add_invited_role, get_or_create_onboarding, put_onboarding,
  accept_invitation,
}
use kaats_v.Onboarding.Requests.{
  InviteCreate, OnboardingPatch, new_invitation, create_invitation, revoke, revoke_invitation,
  get_onboarding_status, patch_onboarding_status, Request, create, accept, revoke_pending,
  read_status, patch_status, serve, serve_all,
}

-- The lifecycle of an invitation: it stays as it is, or a pending one is accepted in time, or a
-- pending one is revoked.
pub data Lifecycle (a b : InvitationToken) : Type 0 where
  kept : b ≡ a → Lifecycle a b
  accepted :
      (now : ℕ)
      → a.status ≡ InvitationStatus.pending
      → now < a.expires_at
      → b ≡ consume now a
      → Lifecycle a b
  revoked : a.status ≡ InvitationStatus.pending → b ≡ revoke a → Lifecycle a b

-- What an acceptance, a revocation and a new invitation may do to the table.
abbrev pub Consumes : ℕ → ℕ → List InvitationToken → List InvitationToken → Type 0
Consumes now token xs ys =
    (ys ≡ xs)
    ⊎ ((a : InvitationToken) × (get InvitationToken.token token xs ≡ some a)
        × (is_usable now a ≡ true)
        × (ys ≡ update InvitationToken.token token (consume now) xs))

abbrev pub Revokes : ℕ → List InvitationToken → List InvitationToken → Type 0
Revokes i xs ys =
    (ys ≡ xs)
    ⊎ ((a : InvitationToken) × (get InvitationToken.id i xs ≡ some a)
        × (is_pending_invitation a.status ≡ true)
        × (ys ≡ update InvitationToken.id i revoke xs))

abbrev Adds : InvitationToken → List InvitationToken → List InvitationToken → Type 0
Adds a xs ys = (ys ≡ xs) ⊎ ((get InvitationToken.token a.token xs ≡ none) × (ys ≡ a ∷ xs))

pub accept-Consumes :
    (now token : ℕ) (name : String) (db : Db)
    → Consumes now token db.invitations (serve (accept now token name) db).invitations
unfolding serve commit accept_invitation get_or_create_onboarding put_onboarding audit
    add_invited_role
accept-Consumes now token name db =
    elim (Option-cases (get InvitationToken.token token db.invitations)) [
      | inl e ↦ inl (ground arith)
      | inr (a, e) ↦
          elim (Bool-cases (is_usable now a && is_ok (accept_invitation now token name db).0)) [
            | inl u ↦ inr (a, e, ground arith, ground arith)
            | inr u ↦ inl (ground arith)
          ]
    ]

pub revoke-Revokes :
    (company i : ℕ) (db : Db)
    → Revokes i db.invitations (serve (revoke_pending company i) db).invitations
unfolding serve commit revoke_invitation
revoke-Revokes company i db = elim (Option-cases (get InvitationToken.id i db.invitations)) [
  | inl e ↦ inl (ground arith)
  | inr (a, e) ↦ elim (Bool-cases ((a.company_id == company) && is_pending_invitation a.status)) [
    | inl u ↦ inr (a, e, ground arith, ground arith)
    | inr u ↦ inl (ground arith)
  ]
]

create-Adds :
    (now token company inviter actor : ℕ) (body : InviteCreate) (mail : Result (Unit {0})) (db : Db)
    → Adds
        (new_invitation db.next_id now token company inviter body)
        db.invitations
        (serve (create now token company inviter actor body mail) db).invitations
unfolding serve commit create_invitation audit
create-Adds now token company inviter actor body mail db = ground arith

pub read_status-invitations :
    (company : ℕ) (db : Db) → (serve (read_status company) db).invitations ≡ db.invitations
unfolding serve commit get_onboarding_status get_or_create_onboarding
read_status-invitations company db = ground arith

pub patch_status-invitations :
    (now company : ℕ) (body : OnboardingPatch) (db : Db)
    → (serve (patch_status now company body) db).invitations ≡ db.invitations
unfolding serve commit patch_onboarding_status get_or_create_onboarding put_onboarding
patch_status-invitations now company body db = ground arith

Lifecycle-consume :
    (now token : ℕ) (xs ys : List InvitationToken) (t : ℕ) (a : InvitationToken)
    → Consumes now token xs ys
    → get InvitationToken.token t xs ≡ some a
    → (b : InvitationToken) × (get InvitationToken.token t ys ≡ some b) × Lifecycle a b
Lifecycle-consume now token xs ys t a (inl e) h = (a, rw e h, kept refl)
Lifecycle-consume now token xs ys t a (inr (c, e, u, q)) h =
    let k = get-key InvitationToken.token token c xs e in
    let g = get-update InvitationToken.token token t (consume now) c xs e refl in
    elim (Bool-cases (token == t)) [
      | inl same ↦
          let ca : c ≡ a = ground (arith, same) in
          (
            consume now a,
            rw q (ground (arith, g, ca)),
            accepted now (ground (arith, ca)) (ground (arith, ca)) refl,
          )
      | inr other ↦ (a, rw q (ground (arith, g)), kept refl)
    ]

-- The first row with a token, after the first row with an id was revoked.
get-token-revoke :
    (i t : ℕ) (a c : InvitationToken) (xs : List InvitationToken)
    → get InvitationToken.token t xs ≡ some a
    → get InvitationToken.id i xs ≡ some c
    → (get InvitationToken.token t (update InvitationToken.id i revoke xs) ≡ some a)
      ⊎ ((c ≡ a)
          × (get InvitationToken.token t (update InvitationToken.id i revoke xs) ≡ some (revoke a)))
unfolding get update
get-token-revoke i t a c [] h e = absurd (cc)
get-token-revoke i t a c (x ∷ xs) h e = elim (Bool-cases (x.id == i)) [
  | inl m ↦ elim (Bool-cases (x.token == t)) [
    | inl n ↦ inr (ground arith, ground arith)
    | inr n ↦ inl (ground arith)
  ]
  | inr m ↦ elim (Bool-cases (x.token == t)) [
    | inl n ↦ inl (ground arith)
    | inr n ↦ elim (get-token-revoke i t a c xs (ground arith) (ground arith)) [
      | inl r ↦ inl (ground arith)
      | inr (r, s) ↦ inr (r, ground arith)
    ]
  ]
]

Lifecycle-revoke :
    (i : ℕ) (xs ys : List InvitationToken) (t : ℕ) (a : InvitationToken)
    → Revokes i xs ys
    → get InvitationToken.token t xs ≡ some a
    → (b : InvitationToken) × (get InvitationToken.token t ys ≡ some b) × Lifecycle a b
Lifecycle-revoke i xs ys t a (inl e) h = (a, rw e h, kept refl)
Lifecycle-revoke i xs ys t a (inr (c, e, p, q)) h = elim (get-token-revoke i t a c xs h e) [
  | inl g ↦ (a, rw q g, kept refl)
  | inr (ca, g) ↦ (revoke a, rw q g, revoked (ground (arith, ca)) refl)
]

Lifecycle-add :
    (c : InvitationToken) (xs ys : List InvitationToken) (t : ℕ) (a : InvitationToken)
    → Adds c xs ys
    → get InvitationToken.token t xs ≡ some a
    → get InvitationToken.token t ys ≡ some a
unfolding get
Lifecycle-add c xs ys t a (inl e) h = rw e h
Lifecycle-add c xs ys t a (inr (n, e)) h = elim (Bool-cases (c.token == t)) [
  | inl m ↦ absurd (ground arith)
  | inr m ↦ rw (e, m) h
]

serve-Lifecycle :
    (r : Request) (db : Db) (t : ℕ) (a : InvitationToken)
    → get InvitationToken.token t db.invitations ≡ some a
    → (b : InvitationToken) × (get InvitationToken.token t (serve r db).invitations ≡ some b)
      × Lifecycle a b
serve-Lifecycle (create now token company inviter actor body mail) db t a h = (
  a,
  Lifecycle-add (new_invitation db.next_id now token company inviter body) db.invitations
      (serve (create now token company inviter actor body mail) db).invitations t a
      (create-Adds now token company inviter actor body mail db) h,
  kept refl,
)
serve-Lifecycle (accept now token name) db t a h =
    Lifecycle-consume now token db.invitations (serve (accept now token name) db).invitations t a
      (accept-Consumes now token name db) h
serve-Lifecycle (revoke_pending company i) db t a h =
    Lifecycle-revoke i db.invitations (serve (revoke_pending company i) db).invitations t a
      (revoke-Revokes company i db) h
serve-Lifecycle (read_status company) db t a h =
    (a, rw (read_status-invitations company db) h, kept refl)
serve-Lifecycle (patch_status now company body) db t a h =
    (a, rw (patch_status-invitations now company body db) h, kept refl)

Lifecycle-trans : {a b c : InvitationToken} → Lifecycle a b → Lifecycle b c → Lifecycle a c
Lifecycle-trans {a} {b} {c} (kept e) l = subst (λ x. Lifecycle x c) e l
Lifecycle-trans {a} {b} {c} (accepted now p u e) (kept f) = accepted now p u (f ∙ e)
Lifecycle-trans {a} {b} {c} (accepted now p u e) (accepted now' p' u' e') = absurd (ground arith)
Lifecycle-trans {a} {b} {c} (accepted now p u e) (revoked p' e') = absurd (ground arith)
Lifecycle-trans {a} {b} {c} (revoked p e) (kept f) = revoked p (f ∙ e)
Lifecycle-trans {a} {b} {c} (revoked p e) (accepted now' p' u' e') = absurd (ground arith)
Lifecycle-trans {a} {b} {c} (revoked p e) (revoked p' e') = absurd (ground arith)

-- Over any sequence of requests, each committed or rolled back, an invitation keeps its token and
-- makes at most one step of its lifecycle: it is accepted at a time before it expires, or revoked,
-- and only if it was pending; all its other columns stay, and nothing follows that step.
pub serve_all-Lifecycle :
    (rs : List Request) (db : Db) (t : ℕ) (a : InvitationToken)
    → get InvitationToken.token t db.invitations ≡ some a
    → (b : InvitationToken) × (get InvitationToken.token t (serve_all rs db).invitations ≡ some b)
      × Lifecycle a b
unfolding serve_all
serve_all-Lifecycle [] db t a h = (a, h, kept refl)
serve_all-Lifecycle (r ∷ rs) db t a h =
    let (b, g, l) = serve-Lifecycle r db t a h in
    let (c, k, m) = serve_all-Lifecycle rs (serve r db) t b g in (c, k, Lifecycle-trans l m)

settled : (a b : InvitationToken) → Lifecycle a b → is_pending_invitation a.status ≡ false → b ≡ a
settled a b (kept e) n = e
settled a b (accepted now p u e) n = absurd (ground arith)
settled a b (revoked p e) n = absurd (ground arith)

accepted_row :
    (now token : ℕ) (name : String) (db : Db) (u : User)
    → (accept_invitation now token name db).0 ≡ ok u
    → (a : InvitationToken) × (get InvitationToken.token token
          (serve (accept now token name) db).invitations
        ≡ some (consume now a))
unfolding serve commit accept_invitation get_or_create_onboarding put_onboarding audit
    add_invited_role
accepted_row now token name db u h =
    elim (Option-cases (get InvitationToken.token token db.invitations)) [
      | inl e ↦ absurd (ground arith)
      | inr (a, e) ↦ (
        a,
        ground (
          arith,
          get-update InvitationToken.token token token (consume now) a db.invitations e refl,
        ),
      )
    ]

refused :
    (now token : ℕ) (name : String) (db : Db) (a : InvitationToken)
    → get InvitationToken.token token db.invitations ≡ some a
    → is_pending_invitation a.status ≡ false
    → accept_invitation now token name db ≡ (err (http 410 invitation_gone), db)
unfolding accept_invitation
refused now token name db a h n = ground arith

-- A token is good for one acceptance: after one that returns, and any further requests, an
-- acceptance of the same token by whomever and at whatever time is answered by 410 and changes
-- nothing.
pub accept_invitation-once :
    (now token : ℕ) (name : String) (u : User) (rs : List Request) (later : ℕ) (other : String)
    (db : Db)
    → (accept_invitation now token name db).0 ≡ ok u
    → let db' = serve_all rs (serve (accept now token name) db) in
      accept_invitation later token other db' ≡ (err (http 410 invitation_gone), db')
accept_invitation-once now token name u rs later other db h =
    let (a, g) = accepted_row now token name db u h in
    let db' = serve (accept now token name) db in
    let (b, k, l) = serve_all-Lifecycle rs db' token (consume now a) g in
    let e = settled (consume now a) b l refl in
    refused later token other (serve_all rs db') b k (rw e refl)
