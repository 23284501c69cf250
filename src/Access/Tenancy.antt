-- ===== src/Access/Tenancy.antt =====
-- What access means for a caller whose roles were read from the tables: which companies are
-- reached, and what a system manager cannot do.
use kaats_v.Base.{
  ℕ, refl, ap, sym, ◌∙◌, ◌≡◌, ◌≢◌, ◌⊎◌, inl, inr, true, false, ◌&&◌, some, List, [], ◌∷◌, Memᴰ,
  arith, ◌==◌, elem, get, select-Mem, Mem-select, ok,
}
use kaats_v.Schema.{UserRoleEnum, role, User, UserRole, System, Db}
use kaats_v.Access.Roles.{Permission, system_update, system_delete, role_has}
use kaats_v.Access.Check.{
  unexpired, load_user_roles, company_ids, current_user, is_admin_role, is_system_manager, uuid,
  require_system_access,
}
use kaats_v.Access.Grants.{require_system_access_iff}

-- A row of the user's own that has not expired.
abbrev pub IsOwnRole : ℕ → ℕ → UserRole → Db → Type 0
IsOwnRole now user_id r db =
    Memᴰ r db.user_roles × (r.user_id ≡ user_id) × (unexpired now r.expires_at ≡ true)

load_user_roles-IsOwnRole :
    (now user_id : ℕ) (r : UserRole) (db : Db)
    → Memᴰ r (load_user_roles now user_id db)
    → IsOwnRole now user_id r db
unfolding load_user_roles
load_user_roles-IsOwnRole now user_id r db m =
    let (n, h) =
      select-Mem (λ (r : UserRole). (r.user_id == user_id) && unexpired now r.expires_at) r
        db.user_roles m in
    (n, ground arith, ground arith)

pub IsOwnRole-load_user_roles :
    (now user_id : ℕ) (r : UserRole) (db : Db)
    → IsOwnRole now user_id r db
    → Memᴰ r (load_user_roles now user_id db)
unfolding load_user_roles
IsOwnRole-load_user_roles now user_id r db (m, u, x) =
    Mem-select (λ (r : UserRole). (r.user_id == user_id) && unexpired now r.expires_at) r
      db.user_roles m (ground arith)

elem-company_ids_cons :
    (c : ℕ) (r : UserRole) (rs : List UserRole)
    → elem c (company_ids (r ∷ rs)) ≡ true
    → (r.company_id ≡ some c) ⊎ (elem c (company_ids rs) ≡ true)
unfolding company_ids
elem-company_ids_cons c r rs h = ground arith

-- The companies of a list of roles are those that a row names.
elem-company_ids :
    (c : ℕ) (rs : List UserRole)
    → elem c (company_ids rs) ≡ true
    → (r : UserRole) × Memᴰ r rs × (r.company_id ≡ some c)
unfolding company_ids
elem-company_ids c [] h = absurd (cc)
elem-company_ids c (r ∷ rs) h = elim (elem-company_ids_cons c r rs h) [
  | inl e ↦ (r, Memᴰ.head refl, e)
  | inr k ↦ let (x, m, e) = elem-company_ids c rs k in (x, Memᴰ.tail m, e)
]

company_ids-elem :
    (c : ℕ) (r : UserRole) (rs : List UserRole)
    → Memᴰ r rs
    → r.company_id ≡ some c
    → elem c (company_ids rs) ≡ true
unfolding company_ids
company_ids-elem c r [] m h = elim m [ ]
company_ids-elem c r (x ∷ rs) (Memᴰ.head q) h =
    let e : x.company_id ≡ some c = ap UserRole.company_id (sym q) ∙ h in ground arith
company_ids-elem c r (x ∷ rs) (Memᴰ.tail m) h = ground (arith, company_ids-elem c r rs m h)

-- Access through a role needs a foothold in the company: whoever passes is a global admin, or has
-- a role row of its own, not expired, in the company of the system, and the system is not deleted.
pub require_system_access_foothold :
    (now : ℕ) (p : Permission) (i : ℕ) (u : User) (db : Db) (s : System)
    → require_system_access p (uuid i) (current_user now u db) db ≡ ok s
    → (s.is_deleted ≡ false)
      × ((u.is_global_admin ≡ true)
          ⊎ ((r : UserRole) × IsOwnRole now u.id r db × (r.company_id ≡ some s.company_id)))
unfolding current_user
require_system_access_foothold now p i u db s h =
    let (_, live, may) = (require_system_access_iff p i (current_user now u db) db s).0 h in
    (
      live,
      elim may [
        | inl g ↦ inl g
        | inr (reached, _) ↦
            let (r, m, c) = elem-company_ids s.company_id (load_user_roles now u.id db) reached in
            inr (r, load_user_roles-IsOwnRole now u.id r db m, c)
      ],
    )

-- The role that holds the permission and the role that reaches the company may be different rows:
-- any unexpired role of the user that is not a system manager's carries its permissions to every
-- company in which the user has any unexpired role at all.
pub require_system_access_across :
    (now : ℕ) (p : Permission) (i : ℕ) (u : User) (db : Db) (s : System) (held reach : UserRole)
    (e : UserRoleEnum)
    → get System.id i db.systems ≡ some s
    → s.is_deleted ≡ false
    → IsOwnRole now u.id held db
    → held.role_code ≡ role e
    → is_system_manager e ≡ false
    → role_has e p ≡ true
    → IsOwnRole now u.id reach db
    → reach.company_id ≡ some s.company_id
    → require_system_access p (uuid i) (current_user now u db) db ≡ ok s
unfolding current_user
require_system_access_across now p i u db s held reach e stored live own c nm has own' c' =
    (require_system_access_iff p i (current_user now u db) db s).1 (
      stored,
      live,
      inr (
        company_ids-elem s.company_id reach (load_user_roles now u.id db)
            (IsOwnRole-load_user_roles now u.id reach db own') c',
        (held, e, IsOwnRole-load_user_roles now u.id held db own, c, (has, inl nm)),
      ),
    )

update_is_admins : (e : UserRoleEnum) → role_has e system_update ≡ true → is_admin_role e ≡ true
unfolding role_has
update_is_admins e h = ground arith

delete_is_admins : (e : UserRoleEnum) → role_has e system_delete ≡ true → is_admin_role e ≡ true
unfolding role_has
delete_is_admins e h = ground arith

-- No row of the user is an administrator's.
abbrev pub HasNoAdminRole : User → Db → Type 0
HasNoAdminRole u db =
    (r : UserRole) (e : UserRoleEnum)
    → Memᴰ r db.user_roles
    → r.user_id ≡ u.id
    → r.role_code ≡ role e
    → is_admin_role e ≡ false

refused_of_admins_only :
    (now : ℕ) (p : Permission) (i : ℕ) (u : User) (db : Db) (s : System)
    → ((e : UserRoleEnum) → role_has e p ≡ true → is_admin_role e ≡ true)
    → u.is_global_admin ≡ false
    → HasNoAdminRole u db
    → require_system_access p (uuid i) (current_user now u db) db ≢ ok s
unfolding current_user
refused_of_admins_only now p i u db s only g none_admin h =
    let (_, _, may) = (require_system_access_iff p i (current_user now u db) db s).0 h in
    elim may [
      | inl flag ↦ cc (flag, g)
      | inr (_, (r, e, m, c, (has, _))) ↦
          let (stored, own, _) = load_user_roles-IsOwnRole now u.id r db m in
          cc (only e has, none_admin r e stored own c)
    ]

-- A user that is not a global admin and has no administrator role is refused `system:update` and
-- `system:delete` on every system, also a system manager on a system that it owns.
pub not_admin-refused :
    (now : ℕ) (i : ℕ) (u : User) (db : Db) (s : System)
    → u.is_global_admin ≡ false
    → HasNoAdminRole u db
    → (require_system_access system_update (uuid i) (current_user now u db) db ≢ ok s)
      × (require_system_access system_delete (uuid i) (current_user now u db) db ≢ ok s)
not_admin-refused now i u db s g none_admin = (
  refused_of_admins_only now system_update i u db s update_is_admins g none_admin,
  refused_of_admins_only now system_delete i u db s delete_is_admins g none_admin,
)
