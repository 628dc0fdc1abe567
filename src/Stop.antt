-- ===== src/Stop.antt =====
-- crates/attest-stop/src/lib.rs: the formats of the agent stop service.
pub mod Record
pub mod Reader
pub mod NvCertify
pub mod Receipt
pub mod Certify
