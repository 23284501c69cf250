-- ===== src/Access.antt =====
-- Who may do what: backend/app/auth/permissions.py, backend/app/auth/azure_ad.py and the role gates
-- of backend/app/dependencies.py. Roles holds the permission table, Check the checks themselves,
-- and the other modules what the checks let through.
pub mod Roles
pub mod Check
pub mod Ownership
pub mod Gates
pub mod Grants
pub mod Tenancy
pub mod Hierarchy
