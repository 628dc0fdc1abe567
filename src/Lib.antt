-- ===== src/Lib.antt =====
-- Remote attestation with an operator's stop: a device proves its state with signed messages, and
-- a service beside an agent answers whether a call may pass, from the parity of a TPM counter.
--
-- The parts and the files that model them:
--
--   Base, Messages      numbers, bytes, lists and results that the parts share, and the error
--                       texts as constructors
--   Crypto              the ECDSA operations of the crate p256, a parameter of what uses them
--   Envelope            crates/attest-envelope/src/lib.rs: the 93-byte message
--                       (`AttestationMessage::parse`, `build_canonical`); Envelope/Bundle: the
--                       tag-length-value bundle (`Sections::next`, `parse_bundle`,
--                       `build_bundle`); Envelope/Tpm: crates/attest-envelope/src/tpm.rs
--                       (`Quote::parse`, `PcrBanks`, `EccPublic`)
--   Wire                the big-endian readers `Be` of crates/attest-stop/src/lib.rs and `Rd` of
--                       tpm.rs
--   Stop                crates/attest-stop/src/lib.rs: Stop/Record (`StopRecord`), Stop/NvCertify
--                       and Stop/Receipt (the containers, read by Stop/Reader), Stop/Certify (the
--                       TPM's statement of the counter and `check_counter_certify`)
--   Service             crates/stop/src: Service/Release (release.rs, the operator's release),
--                       Service/Port (the traits of port.rs), Service/Core (core.rs: `gate`,
--                       `admit`, `status`, `sign`, and in Service/Core/Moves `trip`, `recover`,
--                       `settle`; Service/Core/Verified: its receipts before the verifier),
--                       Service/Http (http.rs: `parse`, `read_request`), Service/Front (main.rs:
--                       `handle`, `admin` with `confirm_through_service`, `hex_decode`, and in
--                       Service/Front/Define `define`), Service/Config (config.rs:
--                       `check_gateway_config`)
--   TpmAccess           crates/attest-tpm/src/lib.rs: the readers of what tpm2-tools prints, and
--                       in TpmAccess/Commands the commands of both counters, `stop_nv_certify`,
--                       `pcr_read`, `quote_qualified`; TpmAccess/Keys (`create_ak`, `same_ak`,
--                       `verify_ak`, `quote`) and TpmAccess/PcrSpec (`parse_pcr_spec`); there also
--                       `Real` and `ReleaseFiles` of crates/stop/src/port.rs
--   Prover              crates/prover/src: state.rs (`validate_id`, `inspect`, the texts of
--                       `write_id` and `read_id`), and of main.rs Prover/Counter
--                       (`compose_counter`, `CounterAlloc`), Prover/Names and Prover/Prune (the
--                       file names, `stems_to_prune`), Prover/Publish (`publish_envelope`),
--                       Prover/Attest (`cmd_attest`, `cmd_provision`, `remove_partials`,
--                       `prune_audit` and one round of `cmd_run`)
--   Appraise            crates/attest-appraise/src: Appraise/Verdict (verdict.rs, evidence.rs),
--                       Appraise/Reference (reference.rs), Appraise/Gate1 (gate1.rs:
--                       `authenticate_envelope`, `AkKey::from_tpm2b_public`), Appraise/Gate3
--                       (appraisal.rs: `gate3`, `appraise`, `check`), Appraise/StopCheck (stop.rs:
--                       `verify_stop_receipt`, `verify_stop_interval`), Appraise/Manifest (rim.rs:
--                       the slots and the composites of `reference_from_rim`)
--   StopVerify          tools/stop-verify/src/main.rs: the options and `reference_composite`;
--                       StopVerify/Commands `check`, `interval` and the exit code of `main`
--   Tests               runs on concrete inputs and the theorems at such inputs
--
-- How they interact: `admit` and `status` read the counter through the trait `StopTpm`, ask
-- `gate`, which reads the release through `ReleaseStore` and checks it with `release::check`, and
-- sign a receipt, which is a receipt container around a message and a bundle. The verifier's
-- `check` is gate 1 (`authenticate`: parse the message, look up the trust entry, verify, bind
-- quote and bundle) and then gate 3 (`appraise`: parse the bundle, compare state and evidence with
-- the reference set). A connection is a sequence of events (bytes of one read, end, error,
-- deadline): `handle` reads a request from it, asks `admit` and answers. The operator's commands
-- run the same decisions on the same chip and then probe the service, which is `handle` again. The
-- agent's `cmd_attest` builds the message with crates/attest-envelope, counts with the epoch
-- counter of crates/attest-tpm and publishes the envelope. The receipts go to
-- `verify_stop_receipt` away from the device, by way of the command `check` of the stop verifier.
--
-- Conventions. Bytes are natural numbers in a list; that each is below 256 is a hypothesis
-- (`IsByte`) where a theorem needs it. A Rust array of fixed width is a list; its length is a
-- hypothesis where needed. Additions on u64 keep their wrap-around (`% 2 ^ 64`). Methods on the
-- TPM and on files are functions of a world that comes back also when they fail (Service/Effects).
-- SHA-256 is a parameter. The TPM, the release store and the ECDSA implementation are records of
-- operations; what is relied on of the counter is the record `IsCounter`, and what a receipt needs
-- of the chip to pass at the verifier is the record `IsHonest`. The agent works over `Tools` and
-- the record `AgentDisk` of its files; what it relies on of the epoch counter is the record
-- `IsEpochTpm`. The stop verifier works over `Json`, what serde_json makes of a text, and the
-- record `Files`. The commands of tpm2-tools, the files that they leave and what the environment
-- says are the record `Tools`. The loop of `read_request` is a recursion on the events, and a
-- stream on which nothing more happens runs into the deadline. The loop of `parse_bundle` runs on
-- fuel, one more than the bytes of the bundle, and each section takes six at least.
--
-- Not modelled: the endless loop of `serve`, `cmd_status` with its output, setting of socket
-- timeouts, environment variables, the process arguments of the service and of the agent, and PEM
-- texts; the change of an error's text in `run_owner` and text of error messages beyond their
-- arguments; what the stop verifier prints, the registrar under tools/, the endless loop and the
-- boot log of the prover, and the reading of a manifest's JSON text with the checks of its format,
-- selection and digests. The listings of tpm2-tools, the file of the device id, the gateway's
-- configuration and the texts that the stop verifier is given are taken for ASCII: other white
-- space of Unicode is not trimmed.
pub mod Base
pub mod Messages
pub mod Envelope
pub mod Wire
pub mod Stop
pub mod Crypto
pub mod Service
pub mod TpmAccess
pub mod Prover
pub mod Appraise
pub mod StopVerify
pub mod Tests
