-- ===== src/Tests/Users.antt =====
-- Assignments of roles.
use kaats_v.Base.{◌≤◌, ◌≡◌, refl, ◌⊎◌, some, [], ◌∷◌, ok, get, Memᴰ}
use kaats_v.Schema.{Db, UserRole, role, user_role_enum, bpo}
use kaats_v.Access.Roles.{system_delete, role_has}
use kaats_v.Access.Check.{current_user, load_user_roles, require_system_access, uuid}
use kaats_v.Users.{rank, rank_of, max_rank, UserRoleAssign, new_role, assign_role}
use kaats_v.Users.Ranks.{assign_role-rank}
use kaats_v.Users.Escalation.{admin_of, assign_role-any_company}
use kaats_v.Tests.Data.{ann, ann_admin, erp, two_companies}

abbrev only_admin : Db
only_admin = record two_companies { user_roles = ann_admin ∷ [] }

abbrev bpo_20 : UserRoleAssign
bpo_20 = record (admin_of 20) { role_enum = bpo }

assign_role-rank_example :
    let r = new_role 100 2 bpo_20 (some 20) 1 in
    (r.role_code ≡ role bpo)
    × ((assign_role 2 bpo_20 1 (ann_admin ∷ []) only_admin).1.user_roles ≡ r ∷ ann_admin ∷ [])
    × ((ann_admin ∷ [] ≡ [])
        ⊎ ((x : UserRole) × Memᴰ x (ann_admin ∷ [])
            × (rank bpo ≤ rank_of (user_role_enum x.role_code))))
unfolding assign_role get max_rank rank
assign_role-rank_example =
    assign_role-rank 2 1 bpo_20 (ann_admin ∷ []) (new_role 100 2 bpo_20 (some 20) 1) only_admin refl

-- Ann, who administers company 10 alone, reaches the system of company 20.
assign_role-any_company_example :
    let q = assign_role 1 (admin_of 20) 1 (load_user_roles 5 1 only_admin) only_admin in
    require_system_access system_delete (uuid 30) (current_user 9 ann q.1) q.1 ≡ ok erp
unfolding get role_has
assign_role-any_company_example =
    assign_role-any_company 5 9 system_delete 30 ann ann_admin erp only_admin refl
      (Memᴰ.head refl, refl, refl) refl refl refl refl
