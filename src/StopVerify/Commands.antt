-- ===== src/StopVerify/Commands.antt =====
-- The commands of tools/stop-verify/src/main.rs and the exit code of the process.
pub mod Verdicts
use tactiq_attest.Base.{
  ℕ, Bytes, Bool, true, false, not, List, [], ◌∷◌, Option, none, some, codes, length, bytes_eq,
  Result, ok, err, map_err, if◌then◌else◌,
}
use tactiq_attest.Messages.{Message, R, usage, in_file}
use tactiq_attest.Crypto.{Ecdsa}
use tactiq_attest.Service.Effects.{Exec, pure, raise, lift, ◌>>=◌, ◌>>◌}
use tactiq_attest.Envelope.{encode_pcr_selection}
use tactiq_attest.Appraise.Gate1.{AkKey, from_tpm2b_public}
use tactiq_attest.Appraise.StopCheck.{
  StopFinding, StopBasis, by_counter, no_release, is_running, basis, StopTrust, StopInterval,
  verify_stop_receipt, verify_stop_interval,
}
use tactiq_attest.StopVerify.{
  Json, reference_composite, device_id, Opts, opts, IntervalOpts, interval_opts,
}

-- The files, and the random bytes of the system.
pub record Files (W : Type 0) : Type 0 where
  pub read : Bytes → Exec Message W Bytes
  -- a file that is text
  pub read_text : Bytes → Exec Message W Bytes
  pub random : Exec Message W Bytes

-- What the stop service quotes: SHA-256, PCRs 0, 1 and 8.
abbrev pub selection : Bytes
selection = encode_pcr_selection 0x000B (0x03 ∷ 0x01 ∷ 0x00 ∷ [])

pub exit_code : StopBasis → ℕ
exit_code by_counter = 0
exit_code no_release = 0
exit_code is_running = 2

module _ (json : Json) (sha256 : Bytes → Bytes) (ecdsa : Ecdsa) (W : Type 0) (files : Files W) where
  abbrev pub trust : AkKey sha256 ecdsa → Bytes → Bytes → Option Bytes → StopTrust sha256 ecdsa
  trust ak id composite nonce = record {
    ak = ak;
    device_id = id;
    pcr_selection = selection;
    pcr_composite = composite;
    nonce = nonce;
  }

  ak_of : Bytes → Bytes → R (AkKey sha256 ecdsa)
  ak_of path bytes = map_err (in_file path) (from_tpm2b_public sha256 ecdsa bytes)

  pub check : List Bytes → Exec Message W ℕ
  check a = do
    o ← lift (opts a)
    receipt ← files.read o.receipt
    ak_bytes ← files.read o.ak
    ak ← lift (ak_of o.ak ak_bytes)
    ref_text ← files.read_text o.pcr_ref
    composite ← lift (reference_composite json sha256 ref_text o.slot)
    id ← lift (device_id o.device)
    f ← lift (verify_stop_receipt sha256 ecdsa receipt (trust ak id composite o.nonce))
    pure (exit_code (basis f))

  pub interval : List Bytes → Exec Message W ℕ
  interval a = do
    o ← lift (interval_opts a)
    r1 ← files.read o.first
    r2 ← files.read o.second
    ak_bytes ← files.read o.ak
    ak ← lift (ak_of o.ak ak_bytes)
    ref_text ← files.read_text o.pcr_ref
    composite ← lift (reference_composite json sha256 ref_text o.slot)
    id ← lift (device_id o.device)
    v ← lift (
        verify_stop_interval sha256 ecdsa r1 o.first_nonce r2 o.second_nonce
          (trust ak id composite none))
    pure 0

  nonce : Exec Message W ℕ
  nonce = do b ← files.random; pure 0

  -- `"nonce"` with nothing behind it
  alone : List Bytes → Exec Message W ℕ
  alone [] = nonce
  alone (_ ∷ _) = raise usage

  command : List Bytes → Exec Message W ℕ
  command [] = raise usage
  command (name ∷ a) =
      if bytes_eq name (codes "check")
      then check a
      else (if bytes_eq name (codes "interval")
          then interval a
          else (if bytes_eq name (codes "nonce") then alone a else raise usage))

  -- The exit code: 1 for every error.
  code_of_result : R ℕ → ℕ
  code_of_result (ok code) = code
  code_of_result (err _) = 1

  pub main : List Bytes → W → ℕ × W
  main args w = let (r, w') = command args w in (code_of_result r, w')

-- Named on the line of a test, opens what this module keeps shut.
unfoldable pub computing_stop_verify_commands : Unit {0}
unfolding exit_code ak_of check interval nonce alone command code_of_result main
computing_stop_verify_commands = tt
