-- ===== src/Tests/StopVerifying.antt =====
-- The verifier's command line (tools/stop-verify) on the receipt of a model service.
use tactiq_attest.Base.{
  Bytes, [], ◌∷◌, ◌≡◌, refl, List, some, none, ok, err, replicate, codes, to_be, bytes_eq,
  if◌then◌else◌, arith,
}
use tactiq_attest.Messages.{usage}
use tactiq_attest.Service.Port.{StopTpm}
use tactiq_attest.Service.Core.{Ctx, status_answer}
use tactiq_attest.Service.Front.{computing_front}
use tactiq_attest.TpmAccess.{computing_tpm_access}
use tactiq_attest.StopVerify.{Json, computing_stop_verify}
use tactiq_attest.StopVerify.Commands.{Files, main, computing_stop_verify_commands}
use tactiq_attest.StopVerify.Commands.Verdicts.{Verified, main-Verified}
use tactiq_attest.Tests.Stopping.{hash, ecdsa, Chip, ctx, stopped_chip}
use tactiq_attest.Tests.StopChecking.{signing_tpm_for, checking_all}
use tactiq_attest.Tests.Appraising.{public_area}

-- A reference in which every PCR is the same for all slots. A value is the name of the member.
abbrev json : Json
json = record {
  Value = Bytes;
  from_str = λ s. some s;
  index = λ v name. name;
  as_str = λ v.
      if bytes_eq v (codes "format")
      then some (codes "tactiq-pcr-reference/2")
      else (if bytes_eq v (codes "bank") then some (codes "sha256") else some (replicate 64 48));
  as_object = λ v. none;
}

abbrev pub build_ctx : Ctx ecdsa Chip
build_ctx = record ctx { pcr_spec = codes "sha256:0,1,8"; pcr_bitmap = 3 ∷ 1 ∷ 0 ∷ [] }

abbrev pub build_tpm : StopTpm Chip
build_tpm = record (signing_tpm_for (3 ∷ 1 ∷ 0 ∷ []) (to_be 32 96) 7) {
  pcr_read = λ s c. (ok (replicate 96 0), c);
}

sent :
    (receipt : Bytes) × (status_answer hash ecdsa Chip build_tpm build_ctx
        (replicate 16 6)
        stopped_chip
      ≡ (ok receipt, stopped_chip))
unfolding checking_all
sent = (_, refl)

-- The file of a receipt, the key and the reference.
abbrev files : Files (Unit {0})
files = record {
  read = λ path w.
      if bytes_eq path (codes "receipt")
      then (ok (sent.0), w)
      else (if bytes_eq path (codes "ak") then (ok (0 ∷ 26 ∷ public_area), w) else (err usage, w));
  read_text = λ path w. (ok path, w);
  random = λ w. (ok (replicate 32 4), w);
}

abbrev asked : List Bytes
asked =
    codes "check"
    ∷ codes "receipt"
    ∷ codes "--ak"
    ∷ codes "ak"
    ∷ codes "--device"
    ∷ codes "d1"
    ∷ codes "--pcr-ref"
    ∷ codes "reference"
    ∷ codes "--nonce"
    ∷ codes "06060606060606060606060606060606"
    ∷ []

unfoldable verifying_all : Unit {0}
unfolding checking_all computing_tpm_access computing_front computing_stop_verify
    computing_stop_verify_commands sent
verifying_all = tt

told : main json hash ecdsa (Unit {0}) files asked tt ≡ (0, tt)
unfolding verifying_all
told = refl

-- Another challenge than the one that the receipt answers.
refused :
    main json hash ecdsa
      (Unit {0})
      files
      (codes "check"
        ∷ codes "receipt"
        ∷ codes "--ak"
        ∷ codes "ak"
        ∷ codes "--device"
        ∷ codes "d1"
        ∷ codes "--pcr-ref"
        ∷ codes "reference"
        ∷ codes "--nonce"
        ∷ codes "07060606060606060606060606060606"
        ∷ [])
      tt
    ≡ (1, tt)
unfolding verifying_all
refused = refl

main-Verified_example : Verified json hash ecdsa (Unit {0}) files asked tt tt 0
main-Verified_example =
    main-Verified json hash ecdsa (Unit {0}) files asked tt tt 0 told (omega arith)
