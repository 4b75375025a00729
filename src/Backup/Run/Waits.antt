-- ===== src/Backup/Run/Waits.antt =====
-- The semaphore of `run_backup` of backup/mod.rs where the configuration gives it no permit.
use obsidian_backup_server.Transaction.{Transaction}
