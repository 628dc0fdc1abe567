-- ===== src/Tests.antt =====
-- Runs of the definitions on concrete inputs, and the theorems at such inputs.
pub mod Formats
pub mod Stopping
pub mod Requests
pub mod Answering
pub mod Commands
pub mod Manifests
pub mod Provers
pub mod Agent
pub mod StopChecking
pub mod StopVerifying
pub mod Guarding
pub mod Statements
pub mod Appraising
