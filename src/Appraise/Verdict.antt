-- ===== src/Appraise/Verdict.antt =====
-- crates/attest-appraise/src/evidence.rs and verdict.rs: kinds of evidence, outcomes and reasons.
use tactiq_attest.Base.{ℕ, Bool, true, false, Option, none, some, ◌==◌, if◌then◌else◌}
use tactiq_attest.Envelope.Bundle.{tag_tpm_quote, tag_gpu_attest, tag_cpu_tee}

pub data EvidenceKind : Type 0 where
  tpm_quote gpu_attest cpu_tee : EvidenceKind

-- `EvidenceKind::from_tag`
pub from_tag : ℕ → Option EvidenceKind
from_tag tag =
    if tag == tag_tpm_quote
    then some tpm_quote
    else if tag == tag_gpu_attest
    then some gpu_attest
    else if tag == tag_cpu_tee
    then some cpu_tee
    else none

-- `==` of two kinds.
pub same_kind : EvidenceKind → EvidenceKind → Bool
same_kind tpm_quote tpm_quote = true
same_kind gpu_attest gpu_attest = true
same_kind cpu_tee cpu_tee = true
same_kind _ _ = false

pub data Outcome : Type 0 where
  accepting rejecting : Outcome

pub data Reason : Type 0 where
  accepted signature_fail unknown_device malformed evidence_binding_fail quote_binding_fail : Reason
  stale persist_fail unrecognized_state evidence_unparseable : Reason
  evidence_missing evidence_unrecognized : EvidenceKind → Reason

pub record Verdict : Type 0 where
  pub outcome : Outcome
  pub reason : Reason

abbrev pub accept : Verdict
accept = record { outcome = accepting; reason = accepted }

abbrev pub reject : Reason → Verdict
reject reason = record { outcome = rejecting; reason = reason }

-- Named on the line of a test, opens what this module keeps shut.
unfoldable pub computing_verdict : Unit {0}
unfolding from_tag same_kind
computing_verdict = tt
