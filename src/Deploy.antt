-- ===== src/Deploy.antt =====
-- uberbase/pkg/deploy: a whole deployment, and how it is taken back.
pub mod Rollback
pub mod Project
