-- ===== src/Models/Admin.antt =====
-- app/models/admin.py: the ban queries.
pub mod Listing
pub mod Counts
use fast_api_community_backe.Common.{ℕ, ◌+◌, Option, none, some, update_where, find_row}
use fast_api_community_backe.Db.{User, Status, Db, Query, days}
use fast_api_community_backe.Models.Users.{user_at, live_user_at}

abbrev pub banned : ℕ → ℕ → User → User
banned ban_days now u = record u {
  status = Status.banned;
  ban_count = u.ban_count + 1;
  ban_end_at = some (now + days ban_days);
  update_date = now;
}

unfoldable pub admin_ban : ℕ → ℕ → Query Db
admin_ban user_index ban_days now db = record db {
  users = update_where (user_at user_index) (banned ban_days now) db.users;
}

abbrev pub banned_four_times : ℕ → User → User
banned_four_times now u = record u {
  status = Status.withdrawn;
  ban_end_at = none;
  ban_count = 4;
  update_date = now;
}

unfoldable pub admin_user_4ban_settings : ℕ → Query Db
admin_user_4ban_settings user_index now db = record db {
  users = update_where (user_at user_index) (banned_four_times now) db.users;
}

abbrev pub unbanned : User → User
unbanned u = record u { status = Status.active; ban_count = 0; ban_end_at = none }

unfoldable pub admin_unban : ℕ → Query Db
admin_unban user_index now db = record db {
  users = update_where (live_user_at user_index) unbanned db.users;
}

abbrev pub ban_count_of : Option User → Option ℕ
ban_count_of none = none
ban_count_of (some u) = some u.ban_count

unfoldable pub admin_get_ban_count : ℕ → Query (Option ℕ)
admin_get_ban_count user_index now db = ban_count_of (find_row (user_at user_index) db.users)
