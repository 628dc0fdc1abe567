-- ===== src/Appraise/Reference.antt =====
-- crates/attest-appraise/src/reference.rs: reference values and the attested state.
use tactiq_attest.Base.{
  ℕ, Bytes, Bool, false, ◌||◌, ◌&&◌, List, [], ◌∷◌, ◌++◌, slice, from_be, to_be, bytes_eq, ◌==◌,
}
use tactiq_attest.Appraise.Verdict.{EvidenceKind}

pub record PcrSelection : Type 0 where
  pub hash_alg : ℕ
  pub pcr_mask : Bytes

pub from_canonical : Bytes → PcrSelection
from_canonical b = record { hash_alg = from_be (slice 0 2 b); pcr_mask = slice 2 5 b }

pub to_canonical : PcrSelection → Bytes
to_canonical s = to_be 2 s.hash_alg ++ s.pcr_mask

-- `==` of two selections.
pub same_selection : PcrSelection → PcrSelection → Bool
same_selection s t = s.hash_alg == t.hash_alg && bytes_eq s.pcr_mask t.pcr_mask

pub record AttestedState : Type 0 where
  pub selection : PcrSelection
  pub composite : Bytes

pub record ReferenceSet : Type 0 where
  pub expected_selection : PcrSelection
  pub allowed : List Bytes
  pub required_evidence : List EvidenceKind

-- `allowed.iter().any(|g| g == composite)`
pub any_equal : List Bytes → Bytes → Bool
any_equal [] composite = false
any_equal (g ∷ gs) composite = bytes_eq g composite || any_equal gs composite

abbrev pub contains : ReferenceSet → Bytes → Bool
contains refs composite = any_equal refs.allowed composite

abbrev pub new : PcrSelection → List Bytes → ReferenceSet
new expected_selection allowed = record {
  expected_selection = expected_selection;
  allowed = allowed;
  required_evidence = [];
}

abbrev pub require : ReferenceSet → EvidenceKind → ReferenceSet
require refs kind = record refs { required_evidence = refs.required_evidence ++ (kind ∷ []) }

-- Named on the line of a test, opens what this module keeps shut.
unfoldable pub computing_reference : Unit {0}
unfolding from_canonical to_canonical same_selection any_equal
computing_reference = tt
