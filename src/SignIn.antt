-- ===== src/SignIn.antt =====
-- Signing in: lib/totp.ts, lib/recovery-codes.ts and app/api/auth/login/route.ts.
pub mod Totp
pub mod Recovery
pub mod Login
pub mod Account
mod Tests
