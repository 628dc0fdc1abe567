-- ===== src/Stop/Reader.antt =====
-- The length-prefixed `Reader` of crates/attest-stop/src/lib.rs. Its state is the bytes left.
pub mod Laws
use tactiq_attest.Base.{
  ℕ, Bytes, ◌||◌, length, slice, drop, from_be, Result, ok, err, ◌>>=◌, ◌>>◌, refuse_if, ◌==◌, ltb,
  not,
}
use tactiq_attest.Messages.{
  R, Part, length_outside, length_exceeds, truncated_length, trailing_bytes,
}

pub take : ℕ → ℕ → Part → Bytes → R (Bytes × Bytes)
take n max what b = do
  refuse_if (n == 0 || ltb max n) (length_outside what n max)
  refuse_if (ltb (length b) n) (length_exceeds what n (length b))
  ok (slice 0 n b, drop n b)

-- A big-endian length of `w` bytes, then that many bytes.
pub take_sized : ℕ → ℕ → Part → Bytes → R (Bytes × Bytes)
take_sized w max what b = do
  refuse_if (ltb (length b) w) (truncated_length what)
  take (from_be (slice 0 w b)) max what (drop w b)

abbrev pub take16 : ℕ → Part → Bytes → R (Bytes × Bytes)
take16 = take_sized 2

abbrev pub take32 : ℕ → Part → Bytes → R (Bytes × Bytes)
take32 = take_sized 4

pub finish : Part → Bytes → R (Unit {0})
finish what b = refuse_if (not (length b == 0)) (trailing_bytes what (length b))

-- Named on the line of a test, opens what this module keeps shut.
unfoldable pub computing_reader : Unit {0}
unfolding take take_sized finish
computing_reader = tt
