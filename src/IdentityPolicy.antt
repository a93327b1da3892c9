-- ===== src/IdentityPolicy.antt =====
-- Package identitypolicy (pkg/atls/identitypolicy): the Direct-Agent verifier acceptance rule.
pub mod Errors
pub mod Checks
pub mod Values
pub mod Sets
pub mod Policy
pub mod Replay
pub mod SessionBinding
