-- ===== src/Notifications/Unread.antt =====
-- The number of unread notifications.
use kaats_v.Base.{ℕ, ◌≡◌, ◌≢◌, refl, Bool, true, List, [], ◌∷◌, arith, count}
use kaats_v.Notifications.{
  Notification, State, is_unread, update_where, unread_count, mark_all_read,
}

update_where-clears :
    (now user : ℕ) (ns : List Notification)
    → count (is_unread user) (update_where (is_unread user) now ns) ≡ 0
unfolding count update_where
update_where-clears now user [] = refl
update_where-clears now user (n ∷ ns) = ground (arith, update_where-clears now user ns)

update_where-others :
    (p : Notification → Bool) (now user other : ℕ) (ns : List Notification)
    → ((n : Notification) → p n ≡ true → n.user_id ≡ user)
    → user ≢ other
    → count (is_unread other) (update_where p now ns) ≡ count (is_unread other) ns
unfolding count update_where
update_where-others p now user other [] h d = refl
update_where-others p now user other (n ∷ ns) h d =
    ground (arith, update_where-others p now user other ns h d, h n, d)

-- Marking all as read returns the number of unread notifications that the user had, leaves none
-- unread, and leaves the number of every other user as it was.
pub mark_all_read-unread_count :
    (now user other : ℕ) (s : State)
    → user ≢ other
    → let (n, s') = mark_all_read now user s in
      (n ≡ unread_count user s)
      × (unread_count user s' ≡ 0)
      × (unread_count other s' ≡ unread_count other s)
unfolding mark_all_read unread_count
mark_all_read-unread_count now user other s d = (
  refl,
  update_where-clears now user s.notifications,
  update_where-others (is_unread user) now user other s.notifications (λ n e. ground (arith, e)) d,
)
