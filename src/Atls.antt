-- ===== src/Atls.antt =====
-- pkg/atls: attested TLS.
pub mod Tls
pub mod Attestation
pub mod Ea
pub mod Transport
pub mod Provider
pub mod Evidence
