-- ===== src/Stop/NvCertify.antt =====
-- The body of an NV certify section (crates/attest-stop/src/lib.rs).
pub mod Exact
use tactiq_attest.Base.{
  ℕ, ◌*◌, ◌%◌, ◌^◌, Bytes, ◌||◌, ◌++◌, length, to_be, ok, ◌>>=◌, ◌>>◌, refuse_if, ◌==◌, ltb,
}
use tactiq_attest.Messages.{R, nv_certify_attest, nv_certify_signature, nv_certify, bad_part_length}
use tactiq_attest.Stop.Reader.{take16, finish}

abbrev pub attest_max : ℕ
attest_max = 2048

abbrev pub sig_max : ℕ
sig_max = 512

abbrev pub bundle_max : ℕ
bundle_max = 64 * 1024

pub record NvCertify : Type 0 where
  pub attest : Bytes
  pub sig : Bytes

pub encode : NvCertify → R Bytes
encode c = do
  refuse_if (length c.attest == 0 || ltb attest_max (length c.attest))
      (bad_part_length nv_certify_attest (length c.attest))
  refuse_if (length c.sig == 0 || ltb sig_max (length c.sig))
      (bad_part_length nv_certify_signature (length c.sig))
  ok (
      to_be 2 (length c.attest % 2 ^ 16)
      ++ (c.attest ++ (to_be 2 (length c.sig % 2 ^ 16) ++ c.sig)))

pub parse : Bytes → R NvCertify
parse body = do
  (attest, r) ← take16 attest_max nv_certify_attest body
  (sig, r') ← take16 sig_max nv_certify_signature r
  finish nv_certify r'
  ok (record { attest = attest; sig = sig })

-- Named on the line of a test, opens what this module keeps shut.
unfoldable pub computing_nv_certify : Unit {0}
unfolding encode parse
computing_nv_certify = tt
