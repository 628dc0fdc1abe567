-- ===== src/Appraise/Gate3/Check.antt =====
-- The whole check of one envelope (crates/attest-appraise/src/appraisal.rs).
use tactiq_attest.Base.{Bytes, List, All, Member, ◌≡◌, refl, none, some, Result, ok, err}
use tactiq_attest.Crypto.{Ecdsa}
use tactiq_attest.Envelope.Bundle.{Section, parse_bundle}
use tactiq_attest.Appraise.Verdict.{accept, reject}
use tactiq_attest.Appraise.Reference.{ReferenceSet, from_canonical}
use tactiq_attest.Appraise.Gate1.{Gate1Error, Authenticated, authenticate, legacy_entry, reason_of}
use tactiq_attest.Appraise.Gate1.Sound.{IsAuthentic, authenticate_sound}
use tactiq_attest.Appraise.Gate3.{appraise, check_envelope}
use tactiq_attest.Appraise.Gate3.Decides.{Presents, accept_ne_reject, appraise_sound}

module _ (sha256 : Bytes → Bytes) (ecdsa : Ecdsa) where
  -- An authentic envelope in a state that the reference set knows.
  abbrev pub IsChecked : Bytes → Bytes → Bytes → ecdsa.Key → ReferenceSet → Type 0
  IsChecked msg_bytes sig_bytes evidence key refs =
      (a : Authenticated) × (sections : List Section) × IsAuthentic sha256 ecdsa msg_bytes none
        sig_bytes evidence (λ id. legacy_entry sha256 ecdsa (some key)) a
      × (from_canonical a.pcr_selection ≡ refs.expected_selection)
      × Member a.pcr_hash refs.allowed
      × (parse_bundle a.evidence ≡ ok sections)
      × All (Presents sections) refs.required_evidence

  -- An envelope that the check accepts has passed gate 1 under the key, carries a selection and a
  -- composite of the reference set, and a bundle that parses and presents every required kind of
  -- evidence.
  pub check_envelope_sound :
      (msg_bytes sig_bytes evidence : Bytes) (key : ecdsa.Key) (refs : ReferenceSet)
      → check_envelope sha256 ecdsa msg_bytes sig_bytes evidence key refs ≡ accept
      → IsChecked msg_bytes sig_bytes evidence key refs
  unfolding check_envelope
  check_envelope_sound msg_bytes sig_bytes evidence key refs e =
      at_result (authenticate sha256 ecdsa msg_bytes sig_bytes evidence (λ id. some key)) refl e
    where
      at_result :
          (r : Result Gate1Error Authenticated)
          → authenticate sha256 ecdsa msg_bytes sig_bytes evidence (λ id. some key) ≡ r
          → elim r [ ok auth ↦ appraise auth refs | err e ↦ reject (reason_of e.reason) ] ≡ accept
          → IsChecked msg_bytes sig_bytes evidence key refs
      at_result (ok a) p e =
          let (sections, selection, composite, parsed, presented) = appraise_sound a refs e in
          (
            a,
            sections,
            authenticate_sound sha256 ecdsa msg_bytes sig_bytes evidence (λ id. some key) a p,
            selection,
            composite,
            parsed,
            presented,
          )
      at_result (err x) p e = absurd (accept_ne_reject (reason_of x.reason) e)
