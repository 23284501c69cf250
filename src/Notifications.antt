-- ===== src/Notifications.antt =====
-- Notifications of a user: NotificationService of backend/app/services/notification_service.py.
pub mod Unread
use kaats_v.Base.{
  ℕ, zero, suc, ◌+◌, Bool, true, false, ◌&&◌, ◌||◌, not, Option, none, some, List, [], ◌∷◌, String,
  ltb, leb, ◌==◌, if◌then◌else◌, count, select,
}

pub record Notification : Type 0 where
  pub id : ℕ
  pub user_id : ℕ
  pub company_id : Option ℕ
  pub kind : String
  pub title : String
  pub body : Option String
  pub action_url : Option String
  pub is_read : Bool
  pub read_at : Option ℕ
  pub created_at : ℕ

pub record State : Type 0 where
  pub notifications : List Notification
  pub next_id : ℕ

-- The arguments of `create`, but for the user; the resource is left out.
pub record NotificationCreate : Type 0 where
  pub kind : String
  pub title : String
  pub body : Option String
  pub action_url : Option String
  pub company_id : Option ℕ

abbrev pub new_notification : ℕ → ℕ → ℕ → NotificationCreate → Notification
new_notification id now user_id c = record {
  id = id;
  user_id = user_id;
  company_id = c.company_id;
  kind = c.kind;
  title = c.title;
  body = c.body;
  action_url = c.action_url;
  is_read = false;
  read_at = none;
  created_at = now;
}

unfoldable pub create : ℕ → ℕ → NotificationCreate → State → Notification × State
create now user_id c s =
    let n = new_notification s.next_id now user_id c in
    (n, record { notifications = n ∷ s.notifications; next_id = s.next_id + 1 })

abbrev pub of_user : ℕ → Notification → Bool
of_user user_id n = n.user_id == user_id

abbrev pub is_unread : ℕ → Notification → Bool
is_unread user_id n = of_user user_id n && not n.is_read

unfoldable pub insert_latest : Notification → List Notification → List Notification
insert_latest n [] = n ∷ []
insert_latest n (x ∷ xs) =
    if leb x.created_at n.created_at then n ∷ x ∷ xs else x ∷ insert_latest n xs

unfoldable pub latest_first : List Notification → List Notification
latest_first [] = []
latest_first (n ∷ ns) = insert_latest n (latest_first ns)

abbrev pub page : ℕ → ℕ → List Notification → List Notification
page zero zero ns = []
page zero (suc limit) [] = []
page zero (suc limit) (n ∷ ns) = n ∷ page zero limit ns
page (suc skip) limit [] = []
page (suc skip) limit (n ∷ ns) = page skip limit ns

unfoldable pub list_for_user : ℕ → Bool → ℕ → ℕ → State → List Notification
list_for_user user_id unread_only limit skip s = page skip limit (
    latest_first
      (select (λ n. of_user user_id n && (not unread_only || not n.is_read)) s.notifications))

unfoldable pub unread_count : ℕ → State → ℕ
unread_count user_id s = count (is_unread user_id) s.notifications

abbrev pub marked : ℕ → Notification → Notification
marked now n = record n { is_read = true; read_at = some now }

-- `UPDATE ... WHERE`: the rows for which the test holds.
unfoldable pub update_where : (Notification → Bool) → ℕ → List Notification → List Notification
update_where p now [] = []
update_where p now (n ∷ ns) =
    let rest = update_where p now ns in if p n then marked now n ∷ rest else n ∷ rest

abbrev pub is_own : ℕ → ℕ → Notification → Bool
is_own notification_id user_id n = (n.id == notification_id) && of_user user_id n

unfoldable pub mark_read : ℕ → ℕ → ℕ → State → Bool × State
mark_read now notification_id user_id s =
    let p = is_own notification_id user_id in
    (
      ltb 0 (count p s.notifications),
      record s { notifications = update_where p now s.notifications },
    )

unfoldable pub mark_all_read : ℕ → ℕ → State → ℕ × State
mark_all_read now user_id s =
    let p = is_unread user_id in
    (count p s.notifications, record s { notifications = update_where p now s.notifications })
