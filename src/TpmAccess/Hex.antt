-- ===== src/TpmAccess/Hex.antt =====
-- Hex digits: what crates/attest-tpm/src/lib.rs writes for tpm2-tools is what `hex_decode` of
-- crates/stop/src/main.rs reads.
use tactiq_attest.Base.{
  ℕ, ◌+◌, ◌-◌, ◌*◌, ◌/◌, ◌%◌, ◌<◌, Bytes, [], ◌∷◌, IsByte, All, ◌≡◌, refl, ap, ok, length, true,
  ◌==◌, ltb, if◌then◌else◌, arith, eq→==,
}
use tactiq_attest.Service.Text.{all}
use tactiq_attest.Service.Front.{is_hex_digit, hex_value, hex_pairs, hex_decode}

-- A digit of `{b:02x}`.
abbrev pub hex_digit : ℕ → ℕ
hex_digit n = if ltb n 10 then n + b'0' else n - 10 + b'a'

pub hex_of : Bytes → Bytes
hex_of [] = []
hex_of (b ∷ bs) = hex_digit (b / 16) ∷ hex_digit (b % 16) ∷ hex_of bs

hex_value-digit : (n : ℕ) → n < 16 → hex_value (hex_digit n) ≡ n
unfolding hex_value
hex_value-digit n h = ground arith

hex_digit-ok : (n : ℕ) → n < 16 → is_hex_digit (hex_digit n) ≡ true
hex_digit-ok n h = ground arith

hex_pairs-hex_of : (bs : Bytes) → All IsByte bs → hex_pairs (hex_of bs) ≡ bs
unfolding hex_pairs hex_of
hex_pairs-hex_of [] h = refl
hex_pairs-hex_of (b ∷ bs) (hb, hbs) =
    rw
      (
        hex_value-digit (b / 16) (omega arith),
        hex_value-digit (b % 16) (omega arith),
        hex_pairs-hex_of bs hbs,
      )
      (ap (λ n. n ∷ bs) (omega arith))

all-hex_of : (bs : Bytes) → All IsByte bs → all is_hex_digit (hex_of bs) ≡ true
unfolding all hex_of
all-hex_of [] h = refl
all-hex_of (b ∷ bs) (hb, hbs) =
    rw (hex_digit-ok (b / 16) (omega arith), hex_digit-ok (b % 16) (omega arith), all-hex_of bs hbs)

length-hex_of : (bs : Bytes) → length (hex_of bs) ≡ 2 * length bs
unfolding hex_of
length-hex_of [] = refl
length-hex_of (b ∷ bs) = omega (arith, length-hex_of bs)

-- The hex digits that are written for some bytes are decoded into the same bytes.
hex_decode-hex_of : (bs : Bytes) → All IsByte bs → hex_decode (hex_of bs) ≡ ok bs
unfolding hex_decode
hex_decode-hex_of bs h =
    let even : (length (hex_of bs) % 2 == 0) ≡ true = eq→== _ _ (omega (arith, length-hex_of bs)) in
    rw (all-hex_of bs h, even, hex_pairs-hex_of bs h)
