-- ===== src/Wire.antt =====
-- Reading TPM structures: what the reader `Rd` of crates/attest-envelope/src/tpm.rs and the reader
-- `Be` of crates/attest-stop/src/lib.rs share. The state is the bytes left. The two differ in the
-- error of a read past the end, `short`, which is told the bytes needed and those left.
pub mod Laws
use tactiq_attest.Base.{
  ℕ, Bytes, length, slice, drop, from_be, Result, ok, err, ◌>>=◌, ◌>>◌, refuse_if, ltb,
}
use tactiq_attest.Messages.{Message, R}

module _ (short : ℕ → ℕ → Message) where
  pub take : ℕ → Bytes → R (Bytes × Bytes)
  take n b = do refuse_if (ltb (length b) n) (short n (length b)); ok (slice 0 n b, drop n b)

  -- A big-endian number of `w` bytes: `u8`, `u16`, `u32` and `u64`.
  pub number : ℕ → Bytes → R (ℕ × Bytes)
  number w b = do (h, t) ← take w b; ok (from_be h, t)

  -- A TPM2B: a size of two bytes, then that many bytes.
  pub tpm2b : Bytes → R (Bytes × Bytes)
  tpm2b b = do (n, r) ← number 2 b; take n r

-- Named on the line of a test, opens what this module keeps shut.
unfoldable pub computing_wire : Unit {0}
unfolding take number tpm2b
computing_wire = tt
