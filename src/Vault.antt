-- ===== src/Vault.antt =====
-- vault/: the directory that holds the archive.
pub mod Records
