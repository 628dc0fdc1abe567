-- ===== src/Appraise.antt =====
-- crates/attest-appraise: the verifier's gates over an attestation envelope.
pub mod Verdict
pub mod Reference
pub mod Gate1
pub mod Gate3
pub mod StopCheck
pub mod Manifest
