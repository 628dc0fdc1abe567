-- ===== src/Tests/StopChecking.antt =====
-- The receipts of a model service (crates/stop), checked as crates/attest-appraise/src/stop.rs does.
pub mod Passing
use tactiq_attest.Base.{
  ℕ, ◌+◌, ◌≤◌, ◌<◌, ◌^◌, Bytes, [], ◌∷◌, ◌++◌, ◌≡◌, ◌≢◌, refl, sym, Bool, true, false, Option, some,
  none, Result, ok, err, length, replicate, codes, to_be, bytes_eq, leb, if◌then◌else◌, arith,
  computing, ok-injective, err-ne-ok, Bool-cases, inl, inr,
}
use tactiq_attest.Messages.{Message, port_error}
use tactiq_attest.Envelope.{computing_envelope}
use tactiq_attest.Envelope.Bundle.{computing_bundle}
use tactiq_attest.Envelope.Tpm.{computing_tpm}
use tactiq_attest.Wire.{computing_wire}
use tactiq_attest.Stop.Record.{running, stopped, status, refusal, computing_record}
use tactiq_attest.Stop.Reader.{computing_reader}
use tactiq_attest.Stop.NvCertify.{computing_nv_certify}
use tactiq_attest.Stop.Receipt.{computing_receipt}
use tactiq_attest.Stop.Certify.{build_nv_certify_info_for_tests, stop_index_name, computing_certify}
use tactiq_attest.Service.Text.{computing_text}
use tactiq_attest.Service.Release.{computing_release}
use tactiq_attest.Service.Release.Exact.{text}
use tactiq_attest.Service.Effects.{◌>>=◌, pure, raise, lift, attempt, or_fail}
use tactiq_attest.Service.Port.{StopTpm}
use tactiq_attest.Service.Core.{refuse, admit, status_answer, computing_core}
use tactiq_attest.Appraise.Gate1.{computing_gate1}
use tactiq_attest.Appraise.StopCheck.{
  StopTrust, StopFinding, StopInterval, verify_stop_receipt, verify_stop_interval,
  computing_stop_check,
}
use tactiq_attest.Tests.Stopping.{hash, ecdsa, Chip, tpm, ctx, info, released, stopped_chip}

-- Opens everything that a run of the service and of the check goes through.
unfoldable pub checking_all : Unit {0}
unfolding computing computing_envelope computing_bundle computing_tpm computing_wire
    computing_record computing_reader computing_nv_certify computing_receipt computing_certify
    computing_text computing_release computing_core computing_gate1 computing_stop_check ◌>>=◌ pure
    raise lift attempt or_fail text to_be
checking_all = tt

-- A quote of PCRs of the SHA-256 bank in boot 1, restart 1.
abbrev quote_bytes : Bytes → Bytes → Bytes → ℕ → Bytes
quote_bytes bitmap digest qualifying clock =
    to_be 4 0xff544347
    ++ (to_be 2 0x8018
        ++ (to_be 2 0
            ++ (to_be 2 (length qualifying)
                ++ (qualifying
                    ++ (to_be 8 clock
                        ++ (to_be 4 1
                            ++ (to_be 4 1
                                ++ (1 ∷ []
                                    ++ (to_be 8 0
                                        ++ (to_be 4 1
                                            ++ (to_be 2 11
                                                ++ (3 ∷ bitmap ++ (to_be 2 32 ++ digest)))))))))))))

-- The chip of the service's tests with signatures that verify. It quotes for the digest of a stop
-- receipt's message and certifies at `clock`.
abbrev pub signing_tpm_for : Bytes → Bytes → ℕ → StopTpm Chip
signing_tpm_for bitmap digest clock = record tpm {
  certify = λ q c.
      if leb (length q) 64
      then (
        ok (
          build_nv_certify_info_for_tests (record (info c.counter q) {
            clock = record { clock = clock; reset_count = 1; restart_count = 1; safe = true };
          }),
          5 ∷ [],
        ),
        c,
      )
      else (err (port_error []), c);
  quote = λ q s c.
      if bytes_eq q (to_be 32 114)
      then (ok (quote_bytes bitmap digest (to_be 32 114) clock, 5 ∷ []), c)
      else (err (port_error []), c);
}

-- Of PCR 0 and for the digest of an empty state.
abbrev signing_tpm : ℕ → StopTpm Chip
signing_tpm clock = signing_tpm_for (1 ∷ 0 ∷ 0 ∷ []) (to_be 32 32) clock

abbrev trust : Option Bytes → StopTrust hash ecdsa
trust nonce = record {
  ak = record { vk = tt; name = [] };
  device_id = codes "d1" ++ replicate 14 0;
  pcr_selection = 0 ∷ 11 ∷ 1 ∷ 0 ∷ 0 ∷ [];
  pcr_composite = to_be 32 32;
  nonce = nonce;
}

refused :
    (receipt : Bytes) × (admit hash ecdsa Chip (signing_tpm 7) ctx (replicate 32 1) stopped_chip
      ≡ (ok (refuse receipt), stopped_chip))
unfolding checking_all
refused = (_, refl)

refused_passes :
    (f : StopFinding) × (verify_stop_receipt hash ecdsa (refused.0) (trust none) ≡ ok f)
unfolding checking_all refused
refused_passes = (_, refl)

answered :
    (receipt : Bytes) × (status_answer hash ecdsa Chip
        (signing_tpm 7)
        ctx
        (replicate 16 6)
        stopped_chip
      ≡ (ok receipt, stopped_chip))
unfolding checking_all
answered = (_, refl)

answered_later :
    (receipt : Bytes) × (status_answer hash ecdsa Chip
        (signing_tpm 9)
        ctx
        (replicate 16 8)
        stopped_chip
      ≡ (ok receipt, stopped_chip))
unfolding checking_all
answered_later = (_, refl)

held :
    (i : StopInterval hash ecdsa) × (verify_stop_interval hash ecdsa
        (answered.0)
        (replicate 16 6)
        (answered_later.0)
        (replicate 16 8)
        (trust none)
      ≡ ok i)
unfolding checking_all answered answered_later
held = (_, refl)
