-- ===== src/Config.antt =====
-- config/: the pipeline's language.
pub mod Refs
