-- ===== src/Auth.antt =====
-- Who may reach a handler: src/middleware, src/utils/errors.util.ts, src/utils/jwt.util.ts and the
-- store of OAuth states in src/integrations/uae-pass.
pub mod Errors
pub mod Bearer
pub mod Guards
pub mod StateStore
mod Tests
