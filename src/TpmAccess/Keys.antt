-- ===== src/TpmAccess/Keys.antt =====
-- crates/attest-tpm/src/lib.rs: the attestation key is the one that was recorded (`same_ak`).
pub mod Calls
use tactiq_attest.Base.{
  ℕ, Bytes, Bool, true, false, not, List, [], ◌∷◌, ◌++◌, codes, bytes_eq, Result, ok, err, ◌>>=◌,
  map_err, if◌then◌else◌,
}
use tactiq_attest.Messages.{Message, R, no_object, recorded_unusable, handle_not_ak, other_ak}
use tactiq_attest.Envelope.Tpm.{EccPublic, parse_tpm2b, name_of}

abbrev default_ak_handle : Bytes
default_ak_handle = codes "0x81010100"

module _ (sha256 : Bytes → Bytes) where
  -- The name of a public area, computed here.
  pub name_at : Bytes → R Bytes
  name_at public = parse_tpm2b public >>= λ p. name_of sha256 p

  -- `ak_handle().unwrap_or_else(..)`
  handle_or_default : R Bytes → Bytes
  handle_or_default (ok h) = h
  handle_or_default (err _) = default_ak_handle

  pub same_ak : R Bytes → Bytes → Bytes → R (Unit {0})
  same_ak ak_handle recorded at_handle = map_err recorded_unusable (name_at recorded) >>= λ r.
      let akh = handle_or_default ak_handle in
      map_err (handle_not_ak akh) (name_at at_handle) >>= λ h.
      if not (bytes_eq r h) then err (other_ak akh h r) else ok tt

-- Named on the line of a test, opens what this module keeps shut.
unfoldable pub computing_same_ak : Unit {0}
unfolding name_at handle_or_default same_ak
computing_same_ak = tt
