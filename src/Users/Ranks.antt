-- ===== src/Users/Ranks.antt =====
-- The rank check of role assignment.
use kaats_v.Base.{ℕ, ◌≤◌, ◌≡◌, refl, ◌⊎◌, inl, inr, false, List, [], ◌∷◌, arith, ok, Memᴰ, max}
use kaats_v.Schema.{Db, UserRole, UserRoleEnum, user_role_enum, role}
use kaats_v.Users.{rank, rank_of, max_rank, UserRoleAssign, exceeds, assign_role}

-- A positive number up to the maximum is up to the rank of one of the rows.
max_rank-attained :
    (rs : List UserRole) (n : ℕ)
    → n ≤ max_rank rs
    → 1 ≤ n
    → (x : UserRole) × Memᴰ x rs × (n ≤ rank_of (user_role_enum x.role_code))
unfolding max_rank
max_rank-attained [] n h p = absurd (omega arith)
max_rank-attained (r ∷ rs) n h p =
    elim (either (rank_of (user_role_enum r.role_code)) (max_rank rs) h) [
      | inl k ↦ (r, Memᴰ.head refl, k)
      | inr k ↦ let (x, m, q) = max_rank-attained rs n k p in (x, Memᴰ.tail m, q)
    ]
  where
    either : (a b : ℕ) → n ≤ max a b → (n ≤ a) ⊎ (n ≤ b)
    either a b h = omega arith

rank_positive : (e : UserRoleEnum) → 1 ≤ rank e
unfolding rank
rank_positive e = ground arith

not_exceeding :
    (e : UserRoleEnum) (rs : List UserRole)
    → exceeds e rs ≡ false
    → (rs ≡ []) ⊎ (rank e ≤ max_rank rs)
not_exceeding e [] h = inl refl
not_exceeding e (r ∷ rs) h = inr (ground arith)

assigned :
    (user_id by : ℕ) (body : UserRoleAssign) (actor_roles : List UserRole) (r : UserRole) (db : Db)
    → (assign_role user_id body by actor_roles db).0 ≡ ok r
    → (r.role_code ≡ role body.role_enum)
      × (exceeds body.role_enum actor_roles ≡ false)
      × ((assign_role user_id body by actor_roles db).1.user_roles ≡ r ∷ db.user_roles)
unfolding assign_role
assigned user_id by body actor_roles r db h = ground arith

-- An assignment that returns stores one role row with the role asked for in front of the others,
-- and an actor with role rows holds a role of at least the rank of the one that it grants.
pub assign_role-rank :
    (user_id by : ℕ) (body : UserRoleAssign) (actor_roles : List UserRole) (r : UserRole) (db : Db)
    → (assign_role user_id body by actor_roles db).0 ≡ ok r
    → (r.role_code ≡ role body.role_enum)
      × ((assign_role user_id body by actor_roles db).1.user_roles ≡ r ∷ db.user_roles)
      × ((actor_roles ≡ [])
          ⊎ ((x : UserRole) × Memᴰ x actor_roles
              × (rank body.role_enum ≤ rank_of (user_role_enum x.role_code))))
assign_role-rank user_id by body actor_roles r db h =
    let (code, within, rows) = assigned user_id by body actor_roles r db h in
    (
      code,
      rows,
      elim (not_exceeding body.role_enum actor_roles within) [
        | inl e ↦ inl e
        | inr k ↦
            inr
              (max_rank-attained actor_roles (rank body.role_enum) k (rank_positive body.role_enum))
      ],
    )
