-- ===== src/Diagnostics.antt =====
-- diagnostics: the recent log lines kept for the administrator.
pub mod LogBuffer
