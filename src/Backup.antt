-- ===== src/Backup.antt =====
-- biz/backup.go and biz/backup_crypto.go: the backups of the database. Texts and bytes are lists of
-- codes.
pub mod Envelope
pub mod MasterKey
pub mod Schedule
pub mod KeyStatus
pub mod Storage
mod Tests
pub mod Retention
