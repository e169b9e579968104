-- ===== src/Auth.antt =====
-- auth/auth.service.ts: who may use the administration, by a signed session cookie, a local login or a
-- trusted proxy; security/constant-time.ts. OIDC and SAML hand their identities to `login_external`.
pub mod Config
pub mod Sessions
pub mod Logins
