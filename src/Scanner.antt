-- ===== src/Scanner.antt =====
-- internal/reposcanner: the discovery of apps in the repositories of the organisation.
pub mod Conflicts
pub mod Parse
