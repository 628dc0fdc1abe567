-- ===== src/Appraise/Gate3.antt =====
-- crates/attest-appraise/src/appraisal.rs: the appraisal of a device's state and evidence.
pub mod Decides
pub mod Check
use tactiq_attest.Base.{
  ℕ, Bytes, Bool, true, false, ◌||◌, not, List, [], ◌∷◌, ◌++◌, Option, none, some, Result, ok, err,
  ◌>>=◌, if◌then◌else◌,
}
use tactiq_attest.Messages.{R}
use tactiq_attest.Crypto.{Ecdsa}
use tactiq_attest.Envelope.Bundle.{Section, parse_bundle}
use tactiq_attest.Appraise.Verdict.{
  EvidenceKind, from_tag, same_kind, Verdict, accept, reject, unrecognized_state, evidence_missing,
  evidence_unparseable,
}
use tactiq_attest.Appraise.Reference.{
  PcrSelection, from_canonical, same_selection, AttestedState, ReferenceSet, any_equal, contains,
}
use tactiq_attest.Appraise.Gate1.{Authenticated, authenticate, reason_of}

-- `kinds.contains(kind)`
pub has_kind : List EvidenceKind → EvidenceKind → Bool
has_kind [] kind = false
has_kind (k ∷ ks) kind = same_kind k kind || has_kind ks kind

-- The loop of `presented_kinds`, with the kinds found so far.
pub collect_kinds : List EvidenceKind → List Section → List EvidenceKind
collect_kinds out [] = out
collect_kinds out (s ∷ ss) = elim (from_tag s.tag) [
  | none ↦ collect_kinds out ss
  | some kind ↦ collect_kinds (if has_kind out kind then out else out ++ (kind ∷ [])) ss
]

pub presented_kinds : Bytes → R (List EvidenceKind)
presented_kinds bundle = do sections ← parse_bundle bundle; ok (collect_kinds [] sections)

-- `required_evidence.iter().find(|k| !presented.contains(k))`
pub first_missing : List EvidenceKind → List EvidenceKind → Option EvidenceKind
first_missing [] presented = none
first_missing (k ∷ ks) presented =
    let rest = first_missing ks presented in if not (has_kind presented k) then some k else rest

-- The `if let` on the first missing kind.
abbrev completeness : Option EvidenceKind → Verdict
completeness none = accept
completeness (some missing) = reject (evidence_missing missing)

pub gate3 : AttestedState → List EvidenceKind → ReferenceSet → Verdict
gate3 attested presented refs =
    if not (same_selection attested.selection refs.expected_selection)
    then reject unrecognized_state
    else if not (contains refs attested.composite)
    then reject unrecognized_state
    else completeness (first_missing refs.required_evidence presented)

-- `AttestedState::from_authenticated`
abbrev pub from_authenticated : Authenticated → AttestedState
from_authenticated a = record { selection = from_canonical a.pcr_selection; composite = a.pcr_hash }

pub appraise : Authenticated → ReferenceSet → Verdict
appraise auth refs = elim (presented_kinds auth.evidence) [
  | ok kinds ↦ gate3 (from_authenticated auth) kinds refs
  | err e ↦ reject evidence_unparseable
]

module _ (sha256 : Bytes → Bytes) (ecdsa : Ecdsa) where
  pub check_envelope : Bytes → Bytes → Bytes → ecdsa.Key → ReferenceSet → Verdict
  check_envelope msg_bytes sig_bytes evidence key refs =
      elim (authenticate sha256 ecdsa msg_bytes sig_bytes evidence (λ id. some key)) [
        | ok auth ↦ appraise auth refs
        | err e ↦ reject (reason_of e.reason)
      ]

-- Named on the line of a test, opens what this module keeps shut.
unfoldable pub computing_gate3 : Unit {0}
unfolding has_kind collect_kinds presented_kinds first_missing gate3 appraise check_envelope
computing_gate3 = tt
