-- ===== src/Systems/Deletion.antt =====
-- The guard of the deletion of a system.
use kaats_v.Base.{
  ℕ, ◌≤◌, ◌≡◌, ◌⊎◌, inl, inr, false, some, arith, get, get-key, get-replace, ok, err, http,
  system_not_found, active_cycles,
}
use kaats_v.Schema.{Db, System}
use kaats_v.Systems.{load_system, put_system, active_cycle_count, deleted_system, delete_system}

-- Deleting a stored system that is not deleted: with a cycle that is planned or in progress it
-- raises 409 and changes nothing; without one the system is marked as deleted and inactive, and
-- from then on it is not found.
pub delete_system-guard :
    (i : ℕ) (s : System) (db : Db)
    → get System.id i db.systems ≡ some s
    → s.is_deleted ≡ false
    → ((1 ≤ active_cycle_count i db) × (delete_system i db ≡ (err (http 409 active_cycles), db)))
      ⊎ ((active_cycle_count i db ≡ 0)
          × ((delete_system i db).0 ≡ ok tt)
          × (get System.id i (delete_system i db).1.systems ≡ some (deleted_system s))
          × ((load_system i (delete_system i db).1).0 ≡ err (http 404 system_not_found)))
unfolding delete_system load_system put_system
delete_system-guard i s db h d =
    let key = get-key System.id i s db.systems h in
    let stored = get-replace System.id i (deleted_system s) s db.systems in
    elim (some_active (active_cycle_count i db)) [
      | inl n ↦ inl (n, ground arith)
      | inr z ↦ inr (z, ground arith, ground (arith, stored), ground (arith, stored))
    ]
  where
    some_active : (n : ℕ) → (1 ≤ n) ⊎ (n ≡ 0)
    some_active n = omega arith
