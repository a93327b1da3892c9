-- ===== src/Atls/Ea.antt =====
-- pkg/atls/ea: exported authenticators over an accepted TLS session.
pub mod Wire
pub mod Extensions
pub mod Request
pub mod Messages
pub mod Policy
pub mod Session
pub mod Signatures
pub mod Transcript
pub mod Create
pub mod Flight
pub mod Validate
pub mod Tests
