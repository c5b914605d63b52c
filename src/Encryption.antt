-- ===== src/Encryption.antt =====
-- utils/field_encryption.py.
pub mod Base64
pub mod Utf8
pub mod Envelope
pub mod Keyring
pub mod Environment
pub mod AtRest
