-- ===== src/Encryption.antt =====
-- Encryption of what is stored and sent: src/security/encryption.service.ts with its keyring,
-- src/database/json.helper.ts, src/security/encryption-rotation.service.ts, and the check of the
-- database's encryption state in src/database/prisma.service.ts.
pub mod Keyring
pub mod Envelope
pub mod RoundTrip
pub mod Rotation
pub mod Startup
pub mod Candidates
