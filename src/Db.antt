-- ===== src/Db.antt =====
-- The tables of the PostgreSQL database, as alembic/versions/ creates them, and their rows.
-- A timestamp is a number of microseconds, in one time zone. Nullable columns that the code never
-- sets to NULL (user_index, total_file_size, view_count of boards) are plain numbers.
use fast_api_community_backe.Common.{ℕ, ◌*◌, String, Bool, Option, List, ◌==◌}

-- the values of the columns `deleted_by`
pub data DeletedBy : Type 0 where
  user user_cascade board_cascade admin_scheduled admin_retain admin_immediate : DeletedBy

abbrev pub tag : DeletedBy → ℕ
tag DeletedBy.user = 0
tag DeletedBy.user_cascade = 1
tag DeletedBy.board_cascade = 2
tag DeletedBy.admin_scheduled = 3
tag DeletedBy.admin_retain = 4
tag DeletedBy.admin_immediate = 5

-- `deleted_by = '…'` in SQL and in Python: NULL equals nothing
abbrev pub is_by : DeletedBy → Option DeletedBy → Bool
is_by d Option.none = Bool.false
is_by d (Option.some e) = tag d == tag e

pub data Role : Type 0 where
  user admin : Role

pub data Status : Type 0 where
  active banned withdrawn : Status

pub data Category : Type 0 where
  general notice : Category

-- table "user"
pub record User : Type 0 where
  pub index : ℕ
  pub id : String
  pub password : String
  pub name : String
  pub email : String
  pub is_verified : Option Bool
  pub role : Role
  pub status : Status
  pub ban_count : ℕ
  pub ban_end_at : Option ℕ
  pub reg_date : ℕ
  pub update_date : ℕ
  pub deleted_at : Option ℕ
  pub deleted_by : Option DeletedBy

-- table boards
pub record Board : Type 0 where
  pub index : ℕ
  pub title : String
  pub content : String
  pub category : Category
  pub reg_date : ℕ
  pub update_date : ℕ
  pub user_index : ℕ
  pub total_file_size : ℕ
  pub view_count : ℕ
  pub deleted_at : Option ℕ
  pub deleted_by : Option DeletedBy

-- table files
pub record File : Type 0 where
  pub index : ℕ
  pub original_name : String
  pub stored_name : String
  pub file_path : String
  pub file_size : ℕ
  pub reg_date : ℕ
  pub board_index : ℕ
  pub deleted_at : Option ℕ
  pub deleted_by : Option DeletedBy

-- table boards_view
pub record BoardView : Type 0 where
  pub board_index : ℕ
  pub user_index : Option ℕ
  pub anonymous_id : Option String
  pub viewed_at : ℕ

-- table audit_logs, without the free text of `detail`
pub record AuditLog : Type 0 where
  pub action : String
  pub target_type : String
  pub target_index : ℕ
  pub actor_user_index : ℕ
  pub actor_user_id : String
  pub reg_date : ℕ

pub record Db : Type 0 where
  pub users : List User
  pub boards : List Board
  pub files : List File
  pub boards_view : List BoardView
  pub audit_logs : List AuditLog

-- A query reads NOW() and the tables.
abbrev pub Query : Type 0 → Type 0
Query A = ℕ → Db → A

-- n days, in microseconds
abbrev pub days : ℕ → ℕ
days n = n * 86400000000
