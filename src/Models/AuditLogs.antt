-- ===== src/Models/AuditLogs.antt =====
-- app/models/audit_log.py
use fast_api_community_backe.Common.{ℕ, String, ◌++◌, [], ◌∷◌}
use fast_api_community_backe.Db.{Db, Query}

unfoldable pub insert_audit_log : String → String → ℕ → ℕ → String → Query Db
insert_audit_log action target_type target_index actor_user_index actor_user_id now db = record db {
  audit_logs =
      db.audit_logs
      ++ record {
        action = action;
        target_type = target_type;
        target_index = target_index;
        actor_user_index = actor_user_index;
        actor_user_id = actor_user_id;
        reg_date = now;
      }
        ∷ [];
}
