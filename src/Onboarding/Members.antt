-- ===== src/Onboarding/Members.antt =====
-- What an acceptance of an invitation gives.
use kaats_v.Base.{
  ap, ◌∙◌, if◌then◌else◌, Memᴰ, ℕ, ◌+◌, ◌≤◌, ◌<◌, ◌≡◌, refl, sym, inl, inr, true, false, Bool,
  Option, none, some, List, [], ◌∷◌, String, arith, ◌==◌, ==_refl, get, update, replace, count,
  length, first-some, length-select, get-update, get-replace, get-key, ok, Option-cases, Bool-cases,
}
use kaats_v.Schema.{
  Db, User, UserRole, UserRoleEnum, global_admin, enterprise_admin, company_admin, system_manager,
  validation_lead, qa, validation_tester, bpo, RoleCode, role, other_role, InvitationToken,
  InvitationStatus, CompanyOnboarding,
}
use kaats_v.Users.{find_by_email, rank}
use kaats_v.Onboarding.{
  is_usable, audit, consume, same_role, has_invited_role, add_invited_role, new_onboarding,
  check_and_complete, get_or_create_onboarding, put_onboarding, accept_invitation,
}
use text.Mathlib.Text.{◌==◌ as str_eq}
use text.Mathlib.TextEquality.{eq_iff}

-- The rank names the role.
abbrev of_rank : ℕ → UserRoleEnum
of_rank n =
    if n == 10
    then global_admin
    else if n == 9
    then enterprise_admin
    else if n == 8
    then company_admin
    else if n == 7
    then system_manager
    else if n == 6
    then validation_lead
    else if n == 5
    then qa
    else if n == 4
    then validation_tester
    else bpo

of_rank-rank : (e : UserRoleEnum) → of_rank (rank e) ≡ e
unfolding rank
of_rank-rank global_admin = refl
of_rank-rank enterprise_admin = refl
of_rank-rank company_admin = refl
of_rank-rank system_manager = refl
of_rank-rank validation_lead = refl
of_rank-rank qa = refl
of_rank-rank validation_tester = refl
of_rank-rank bpo = refl

same_code : (c d : RoleCode) → same_role c d ≡ true → c ≡ d
same_code (role a) (role b) h =
    let r : rank a ≡ rank b = ground (arith, h) in
    ap role (sym (of_rank-rank a) ∙ ap of_rank r ∙ of_rank-rank b)
same_code (role a) (other_role t) h = absurd (cc h)
same_code (other_role s) (role b) h = absurd (cc h)
same_code (other_role s) (other_role t) h = ap other_role ((eq_iff s t).0 h)

same_role_refl : (c : RoleCode) → same_role c c ≡ true
same_role_refl (role e) = ==_refl (rank e)
same_role_refl (other_role s) = (eq_iff s s).1 refl

found_email :
    (email : String) (u : User) (db : Db) → find_by_email email db ≡ some u → u.email ≡ email
unfolding find_by_email
found_email email u db h =
    let (m, e) = first-some (λ (v : User). str_eq v.email email) db.users h in
    (eq_iff u.email email).0 e

abbrev pub shows_member : Option CompanyOnboarding → Bool
shows_member none = false
shows_member (some ob) = ob.has_team_member

new_row_member :
    (now n c : ℕ) (xs : List CompanyOnboarding)
    → let ob = check_and_complete now (record (new_onboarding n c) { has_team_member = true }) in
      shows_member (
        get CompanyOnboarding.company_id c
          (replace CompanyOnboarding.company_id ob (new_onboarding n c ∷ xs)))
      ≡ true
unfolding get update replace
new_row_member now n c xs = ground arith

old_row_member :
    (now c : ℕ) (old : CompanyOnboarding) (xs : List CompanyOnboarding)
    → get CompanyOnboarding.company_id c xs ≡ some old
    → let ob = check_and_complete now (record old { has_team_member = true }) in
      shows_member (get CompanyOnboarding.company_id c (replace CompanyOnboarding.company_id ob xs))
      ≡ true
old_row_member now c old xs h =
    let k = get-key CompanyOnboarding.company_id c old xs h in
    let ob = check_and_complete now (record old { has_team_member = true }) in
    ground (arith, get-replace CompanyOnboarding.company_id c ob old xs)

-- The user has a role row of the company with the role that was invited.
abbrev pub IsMember : User → InvitationToken → List UserRole → Type 0
IsMember u a rows =
    (r : UserRole) × Memᴰ r rows
    × (r.user_id ≡ u.id)
    × (r.company_id ≡ some a.company_id)
    × (r.role_code ≡ a.role_code)

counted-Mem :
    (p : UserRole → Bool) (rows : List UserRole)
    → 1 ≤ count p rows
    → (r : UserRole) × Memᴰ r rows × (p r ≡ true)
unfolding count
counted-Mem p [] h = absurd (omega arith)
counted-Mem p (r ∷ rows) h = elim (Bool-cases (p r)) [
  | inl e ↦ (r, Memᴰ.head refl, e)
  | inr e ↦ let (x, m, q) = counted-Mem p rows (ground arith) in (x, Memᴰ.tail m, q)
]

found-IsMember :
    (u : User) (a : InvitationToken) (rows : List UserRole)
    → 1 ≤ count (has_invited_role u.id a) rows
    → IsMember u a rows
found-IsMember u a rows h =
    let (r, m, e) = counted-Mem (has_invited_role u.id a) rows h in
    (
      r,
      m,
      ground (arith, e),
      ground (arith, e),
      same_code r.role_code a.role_code (ground (arith, e)),
    )

-- The invitation after its acceptance at the time.
abbrev pub IsAccepted : ℕ → InvitationToken → InvitationToken → Type 0
IsAccepted now old new =
    (new.status ≡ InvitationStatus.accepted)
    × (new.accepted_at ≡ some now)
    × (new.id ≡ old.id)
    × (new.company_id ≡ old.company_id)
    × (new.invited_by_id ≡ old.invited_by_id)
    × (new.email ≡ old.email)
    × (new.role_code ≡ old.role_code)
    × (new.token ≡ old.token)
    × (new.expires_at ≡ old.expires_at)

accepted_in_time :
    (now token : ℕ) (name : String) (a : InvitationToken) (u : User) (db : Db)
    → get InvitationToken.token token db.invitations ≡ some a
    → (accept_invitation now token name db).0 ≡ ok u
    → is_usable now a ≡ true
unfolding accept_invitation
accepted_in_time now token name a u db h r = ground arith

-- An acceptance that returns is one of a pending invitation before its expiry, and gives the user
-- with the invited address. After it, the user has a stored role row of the company with the
-- invited role, the stored invitation is accepted at that time and has its other columns as before,
-- the checklist of the company has a team member, and one entry is added to the audit log.
pub accept_invitation-IsMember :
    (now token : ℕ) (name : String) (a : InvitationToken) (u : User) (db : Db)
    → get InvitationToken.token token db.invitations ≡ some a
    → (accept_invitation now token name db).0 ≡ ok u
    → let db' = (accept_invitation now token name db).1 in
      (a.status ≡ InvitationStatus.pending)
      × (now < a.expires_at)
      × (u.email ≡ a.email)
      × IsMember u a db'.user_roles
      × ((b : InvitationToken) × (get InvitationToken.token token db'.invitations ≡ some b)
          × IsAccepted now a b)
      × (shows_member (get CompanyOnboarding.company_id a.company_id db'.onboarding) ≡ true)
      × (length db'.audit_logs ≡ length db.audit_logs + 1)
unfolding accept_invitation get_or_create_onboarding put_onboarding audit add_invited_role count
accept_invitation-IsMember now token name a u db h r =
    let roles = length-select (has_invited_role u.id a) db.user_roles in
    let same = same_role_refl a.role_code in
    let seen = get-update InvitationToken.token token token (consume now) a db.invitations h refl in
    let usable_now = accepted_in_time now token name a u db h r in
    (
      ground (arith, usable_now),
      ground (arith, usable_now),
      ground (arith, found_email a.email u db),
      found-IsMember u a (accept_invitation now token name db).1.user_roles
          (ground (arith, roles, same)),
      (consume now a, ground (arith, seen), (refl, refl, refl, refl, refl, refl, refl, refl, refl)),
      elim (Option-cases (get CompanyOnboarding.company_id a.company_id db.onboarding)) [
        | inl e ↦ ground (
          arith,
          new_row_member now db.next_id a.company_id db.onboarding,
          new_row_member now (db.next_id + 1) a.company_id db.onboarding,
          new_row_member now (db.next_id + 1 + 1) a.company_id db.onboarding,
        )
        | inr (old, e) ↦ ground (arith, old_row_member now a.company_id old db.onboarding e)
      ],
      ground arith,
    )
