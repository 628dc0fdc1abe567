-- ===== src/Tests/Appraising.antt =====
-- The verifier's gates of crates/attest-appraise on concrete envelopes.
use tactiq_attest.Base.{
  Bytes, [], ◌∷◌, ◌++◌, ◌≡◌, ◌↔◌, refl, Option, some, ok, replicate, to_be, computing, true,
}
use tactiq_attest.Envelope.{AttestationMessage, computing_envelope}
use tactiq_attest.Envelope.Message.{layout}
use tactiq_attest.Envelope.Bundle.{computing_bundle}
use tactiq_attest.Envelope.Tpm.{EccPublic, parse_tpm2b, computing_tpm}
use tactiq_attest.Wire.{computing_wire}
use tactiq_attest.Appraise.Verdict.{
  accept, reject, gpu_attest, cpu_tee, evidence_missing, computing_verdict,
}
use tactiq_attest.Appraise.Reference.{ReferenceSet, computing_reference}
use tactiq_attest.Appraise.Gate1.{
  Authenticated, bound_by_quote, AkKey, TrustEntry, ak, authenticate_envelope, computing_gate1,
}
use tactiq_attest.Appraise.Gate1.Sound.{IsAuthentic, authenticate_envelope_sound}
use tactiq_attest.Appraise.Gate1.Quoted.{IsQuoted, quote_sound}
use tactiq_attest.Appraise.Gate1.Keys.{IsAk, from_tpm2b_public_sound}
use tactiq_attest.Appraise.Gate3.{gate3, check_envelope, computing_gate3}
use tactiq_attest.Appraise.Gate3.Decides.{Meets, gate3_exact}
use tactiq_attest.Appraise.Gate3.Check.{IsChecked, check_envelope_sound}
use tactiq_attest.Tests.Stopping.{hash, ecdsa}

-- Opens everything that a run of the gates goes through.
unfoldable appraising_all : Unit {0}
unfolding computing computing_envelope computing_bundle computing_tpm computing_wire
    computing_verdict computing_reference computing_gate1 computing_gate3 to_be
appraising_all = tt

abbrev evidence : Bytes
evidence = 0 ∷ 2 ∷ 0 ∷ 0 ∷ 0 ∷ 1 ∷ 9 ∷ []

abbrev msg : AttestationMessage
msg = record {
  device_id = b'd' ∷ replicate 15 0;
  counter = 7;
  pcr_selection = 0 ∷ 11 ∷ 1 ∷ 0 ∷ 0 ∷ [];
  pcr_hash = replicate 32 1;
  evidence_hash = replicate 31 0 ++ (7 ∷ []);
}

abbrev msg_bytes : Bytes
msg_bytes = layout msg

-- Magic, type, no signer, the digest of the message, clock, firmware, one bank, the digest.
abbrev quote_bytes : Bytes
quote_bytes =
    0xff
    ∷ 0x54
    ∷ 0x43
    ∷ 0x47
    ∷ 0x80
    ∷ 0x18
    ∷ 0
    ∷ 0
    ∷ 0
    ∷ 32
    ∷ (replicate 31 0
        ++ (93
            ∷ (replicate 16 0
                ++ (1
                    ∷ (replicate 8 0
                        ++ (0 ∷ 0 ∷ 0 ∷ 1 ∷ 0 ∷ 11 ∷ 3 ∷ 1 ∷ 0 ∷ 0 ∷ 0 ∷ 32 ∷ replicate 32 1))))))

abbrev pub public_area : Bytes
public_area =
    0 ∷ 0x23 ∷ 0 ∷ 0x0b ∷ 0 ∷ 5 ∷ 0 ∷ 0x32 ∷ 0 ∷ 0 ∷ 0 ∷ 0x10 ∷ 0 ∷ 0x18 ∷ 0 ∷ 0x0b ∷ 0 ∷ 3 ∷ 0
    ∷ 0x10 ∷ 0 ∷ 1 ∷ 7 ∷ 0 ∷ 1 ∷ 8 ∷ []

abbrev key : AkKey hash ecdsa
key = record { vk = tt; name = 0 ∷ 11 ∷ (replicate 31 0 ++ (26 ∷ [])) }

abbrev quoted : Authenticated
quoted = record {
  device_id = msg.device_id;
  counter = 7;
  pcr_selection = msg.pcr_selection;
  pcr_hash = msg.pcr_hash;
  evidence = evidence;
  binding = bound_by_quote;
  quote_meta = some (record {
    clock_info = record { clock = 0; reset_count = 0; restart_count = 0; safe = true };
    firmware_version = 0;
  });
}

abbrev trusted : Bytes → Option (TrustEntry hash ecdsa)
trusted id = some (ak key)

accepted_quote :
    authenticate_envelope hash ecdsa msg_bytes (some quote_bytes) (5 ∷ []) evidence trusted
    ≡ ok quoted
unfolding appraising_all
accepted_quote = refl

authenticate_envelope_sound_example :
    IsAuthentic hash ecdsa msg_bytes (some quote_bytes) (5 ∷ []) evidence trusted quoted
authenticate_envelope_sound_example =
    authenticate_envelope_sound hash ecdsa msg_bytes (some quote_bytes) (5 ∷ []) evidence trusted
      quoted accepted_quote

quote_sound_example : IsQuoted hash ecdsa msg_bytes (some quote_bytes) (5 ∷ []) trusted quoted
quote_sound_example =
    quote_sound hash ecdsa msg_bytes (some quote_bytes) (5 ∷ []) evidence trusted quoted
      accepted_quote refl

from_tpm2b_public_sound_example :
    (p : EccPublic) × (parse_tpm2b (0 ∷ 26 ∷ public_area) ≡ ok p) × IsAk hash ecdsa p key
unfolding appraising_all
from_tpm2b_public_sound_example = from_tpm2b_public_sound hash ecdsa (0 ∷ 26 ∷ public_area) key refl

abbrev refs : ReferenceSet
refs = record {
  expected_selection = record { hash_alg = 11; pcr_mask = 1 ∷ 0 ∷ 0 ∷ [] };
  allowed = replicate 32 2 ∷ replicate 32 1 ∷ [];
  required_evidence = gpu_attest ∷ [];
}

abbrev refs_more : ReferenceSet
refs_more = record refs { required_evidence = gpu_attest ∷ cpu_tee ∷ [] }

missing_evidence :
    check_envelope hash ecdsa msg_bytes (5 ∷ []) evidence tt refs_more
    ≡ reject (evidence_missing cpu_tee)
unfolding appraising_all
missing_evidence = refl

gate3_exact_example :
    (gate3
        (record { selection = refs.expected_selection; composite = replicate 32 1 })
        (gpu_attest ∷ [])
        refs
      ≡ accept)
    ↔ Meets
        (record { selection = refs.expected_selection; composite = replicate 32 1 })
        (gpu_attest ∷ [])
        refs
gate3_exact_example =
    gate3_exact (record { selection = refs.expected_selection; composite = replicate 32 1 })
      (gpu_attest ∷ []) refs

gate3_accepts :
    gate3
      (record { selection = refs.expected_selection; composite = replicate 32 1 })
      (gpu_attest ∷ [])
      refs
    ≡ accept
unfolding appraising_all
gate3_accepts = refl

check_envelope_sound_example : IsChecked hash ecdsa msg_bytes (5 ∷ []) evidence tt refs
unfolding appraising_all
check_envelope_sound_example =
    check_envelope_sound hash ecdsa msg_bytes (5 ∷ []) evidence tt refs refl
