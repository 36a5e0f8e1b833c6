-- ===== src/Models/Users.antt =====
-- app/models/user.py: queries on the table "user".
use fast_api_community_backe.Common.{
  ℕ, String, Bool, true, false, not, ◌&&◌, Option, none, some, ◌++◌, [], ◌∷◌, ◌==◌, str_eq,
  update_where, find_row, is_none, ◌||◌,
}
use fast_api_community_backe.Db.{DeletedBy, is_by, User, Role, Status, Db, Query}
use fast_api_community_backe.Models.Boards.{at_least_days_ago}

abbrev pub user_at : ℕ → User → Bool
user_at i u = u.index == i

abbrev pub live_user_at : ℕ → User → Bool
live_user_at i u = u.index == i && is_none u.deleted_at

abbrev pub deleted_user_at : ℕ → User → Bool
deleted_user_at i u = u.index == i && not (is_none u.deleted_at)

abbrev pub has_id : String → User → Bool
has_id i u = str_eq u.id i

abbrev pub live_id : String → User → Bool
live_id i u = str_eq u.id i && is_none u.deleted_at

abbrev pub deleted_id : String → User → Bool
deleted_id i u = str_eq u.id i && not (is_none u.deleted_at)

abbrev pub has_email : String → User → Bool
has_email e u = str_eq u.email e

abbrev pub user_index_of : Option User → Option ℕ
user_index_of none = none
user_index_of (some u) = some u.index

abbrev pub id_of : Option User → Option String
id_of none = none
id_of (some u) = some u.id

abbrev pub email_of : Option User → Option String
email_of none = none
email_of (some u) = some u.email

-- The row stands for the columns id and password that the query takes from it.
unfoldable pub get_user_id_pw : ℕ → Query (Option User)
get_user_id_pw user_index now db = find_row (live_user_at user_index) db.users

unfoldable pub get_user_index : String → Query (Option ℕ)
get_user_index user_id now db = user_index_of (find_row (live_id user_id) db.users)

unfoldable pub get_current_user_info : ℕ → Query (Option User)
get_current_user_info user_index now db = find_row (user_at user_index) db.users

unfoldable pub get_info_by_id : String → Query (Option User)
get_info_by_id user_id now db = find_row (live_id user_id) db.users

unfoldable pub id_duplicate : String → Query (Option String)
id_duplicate user_id now db = id_of (find_row (has_id user_id) db.users)

unfoldable pub email_duplicate : String → Query (Option String)
email_duplicate user_email now db = email_of (find_row (has_email user_email) db.users)

unfoldable pub check_undeleted_user_exist : ℕ → Query (Option ℕ)
check_undeleted_user_exist user_index now db =
    user_index_of (find_row (live_user_at user_index) db.users)

unfoldable pub check_user_exist : ℕ → Query (Option ℕ)
check_user_exist user_index now db = user_index_of (find_row (user_at user_index) db.users)

unfoldable pub pull_pw_restore_login : String → Query (Option User)
pull_pw_restore_login user_id now db = find_row (deleted_id user_id) db.users

unfoldable pub get_deleted_user_info : ℕ → Query (Option User)
get_deleted_user_info user_index now db = find_row (deleted_user_at user_index) db.users

unfoldable pub get_lost_id : String → String → Query (Option String)
get_lost_id user_name user_email now db = id_of (
    find_row
      (λ (u : User). str_eq u.name user_name && (str_eq u.email user_email && is_none u.deleted_at))
      db.users)

unfoldable pub check_find_password_matching_email : String → String → String → Query (Option String)
check_find_password_matching_email user_id user_name user_email now db = email_of (
    find_row
      (λ (u : User).
        str_eq u.id user_id
        && (str_eq u.name user_name && (str_eq u.email user_email && is_none u.deleted_at)))
      db.users)

-- The caller gives the value of the identity column, and refuses an id that is taken.
unfoldable pub insert_user_basic_info : ℕ → String → String → String → String → Query Db
insert_user_basic_info index user_id user_password user_name user_email now db = record db {
  users =
      db.users
      ++ record {
        index = index;
        id = user_id;
        password = user_password;
        name = user_name;
        email = user_email;
        is_verified = some false;
        role = Role.user;
        status = Status.active;
        ban_count = 0;
        ban_end_at = none;
        reg_date = now;
        update_date = now;
        deleted_at = none;
        deleted_by = none;
      }
        ∷ [];
}

unfoldable pub pull_user_info : ℕ → Query (Option User)
pull_user_info user_index now db = find_row (live_user_at user_index) db.users

abbrev pub set_id : String → ℕ → User → User
set_id new_id now u = record u { id = new_id; update_date = now }

unfoldable pub user_id_modify : String → ℕ → Query Db
user_id_modify new_id user_index now db = record db {
  users = update_where (user_at user_index) (set_id new_id now) db.users;
}

abbrev pub set_password : String → ℕ → User → User
set_password new_password now u = record u { password = new_password; update_date = now }

unfoldable pub user_pw_modify : String → ℕ → Query Db
user_pw_modify new_password user_index now db = record db {
  users = update_where (user_at user_index) (set_password new_password now) db.users;
}

abbrev pub set_email : String → ℕ → User → User
set_email new_email now u = record u { email = new_email; update_date = now }

unfoldable pub user_email_modify : String → ℕ → Query Db
user_email_modify new_email user_index now db = record db {
  users = update_where (user_at user_index) (set_email new_email now) db.users;
}

abbrev pub set_verified : User → User
set_verified u = record u { is_verified = some true }

unfoldable pub update_is_verified_true : String → Query Db
update_is_verified_true email now db = record db {
  users = update_where (has_email email) set_verified db.users;
}

abbrev pub withdraw : DeletedBy → ℕ → User → User
withdraw by now u = record u {
  deleted_by = some by;
  deleted_at = some now;
  update_date = now;
  status = Status.withdrawn;
}

unfoldable pub soft_delete_user : DeletedBy → ℕ → Query Db
soft_delete_user by user_index now db = record db {
  users = update_where (live_user_at user_index) (withdraw by now) db.users;
}

abbrev pub reinstate : ℕ → User → User
reinstate now u = record u {
  deleted_by = none;
  deleted_at = none;
  update_date = now;
  status = Status.active;
  ban_count = 0;
}

unfoldable pub restore_user_data : String → Query Db
restore_user_data user_id now db = record db {
  users = update_where (deleted_id user_id) (reinstate now) db.users;
}

-- What PostgreSQL makes of `'DELETED_' || index::text || '_' || extract(epoch from now())::int`
-- and of `id LIKE 'DELETED_%'`.
pub record IdText : Type 0 where
  pub dummy_id : ℕ → ℕ → String
  pub is_dummy : String → Bool

abbrev pub unusable : String
unusable = "HARD_DELETED_USER_UNUSABLE"

module _ (text : IdText) where
  abbrev pub anonymized : ℕ → User → User
  anonymized now u = record u {
    id = text.dummy_id u.index now;
    password = unusable;
    update_date = now;
  }

  abbrev pub user_is_due : ℕ → User → Bool
  user_is_due now u =
      not (text.is_dummy u.id)
      && ((is_by DeletedBy.user u.deleted_by && at_least_days_ago 30 now u.deleted_at)
          || ((is_by DeletedBy.admin_scheduled u.deleted_by
                || is_by DeletedBy.admin_retain u.deleted_by)
              && at_least_days_ago 100 now u.deleted_at))

  unfoldable pub delete_soft_deleted_user : Query Db
  delete_soft_deleted_user now db = record db {
    users = update_where (user_is_due now) (anonymized now) db.users;
  }

  abbrev pub hard_deleted : ℕ → User → User
  hard_deleted now u = record u {
    id = text.dummy_id u.index now;
    password = unusable;
    status = Status.withdrawn;
    deleted_by = some DeletedBy.admin_immediate;
    deleted_at = some now;
    update_date = now;
  }

  unfoldable pub hard_delete_user : ℕ → Query Db
  hard_delete_user user_index now db = record db {
    users = update_where (user_at user_index) (hard_deleted now) db.users;
  }
