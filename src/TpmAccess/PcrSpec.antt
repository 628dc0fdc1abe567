-- ===== src/TpmAccess/PcrSpec.antt =====
-- crates/attest-tpm/src/lib.rs: `parse_pcr_spec`, from the text that is given to tpm2-tools to the
-- selection that the envelope names.
pub mod Bits
pub mod Selected
use tactiq_attest.Base.{
  ℕ, zero, suc, ◌+◌, ◌/◌, ◌%◌, ◌^◌, Bytes, Bool, true, false, List, [], ◌∷◌, Option, none, some,
  codes, bytes_eq, Result, ok, err, ◌>>=◌, ◌>>◌, refuse_if, leb, ltb, if◌then◌else◌,
}
use tactiq_attest.Base
use tactiq_attest.Messages.{
  Message, R, spec_multi_bank, spec_no_colon, spec_empty_index, spec_no_pcrs, spec_unknown_alg,
  spec_bad_index, spec_range, spec_not_ascending,
}
use tactiq_attest.Service.Text.{contains, split, parse_u64}
use tactiq_attest.Service.Http.{split_once}
use tactiq_attest.Appraise.Gate1.{has_bit}
use tactiq_attest.TpmAccess.{trim}

pub alg_of : Bytes → Option ℕ
alg_of alg =
    if bytes_eq alg (codes "sha1")
    then some 0x0004
    else (if bytes_eq alg (codes "sha256")
        then some 0x000B
        else (if bytes_eq alg (codes "sha384")
            then some 0x000C
            else (if bytes_eq alg (codes "sha512") then some 0x000D else none)))

-- `str::parse::<u8>`
fits_byte : Option ℕ → Option ℕ
fits_byte none = none
fits_byte (some n) = if ltb n 256 then some n else none

-- `b | 1 << k`
unfoldable pub with_bit : ℕ → ℕ → ℕ
with_bit b k = if has_bit k b then b else b + 2 ^ k

-- `bitmap[i] |= 1 << k`
unfoldable pub set_bit : Bytes → ℕ → ℕ → Bytes
unfolding with_bit
set_bit [] i k = []
set_bit (b ∷ bs) zero k = with_bit b k ∷ bs
set_bit (b ∷ bs) (suc i) k = b ∷ set_bit bs i k

no_bytes_left : Bytes → Bool
no_bytes_left [] = true
no_bytes_left (b ∷ bs) = false

-- The index that a piece of the list names.
pub index_of : Bytes → R ℕ
index_of tok =
    if no_bytes_left tok then err spec_empty_index else elim (fits_byte (parse_u64 tok)) [
      | none ↦ err (spec_bad_index tok)
      | some n ↦ if ltb 23 n then err (spec_range n) else ok n
    ]

after : Option ℕ → ℕ → R (Unit {0})
after none n = ok tt
after (some p) n = refuse_if (leb n p) (spec_not_ascending n p)

select : List Bytes → Option ℕ → Bytes → R (Bytes × Option ℕ)
select [] last bitmap = ok (bitmap, last)
select (tok ∷ toks) last bitmap = index_of (trim tok) >>= λ n.
    after last n >> select toks (some n) (set_bit bitmap (n / 8) (n % 8))

selected : ℕ → Bytes × Option ℕ → R (ℕ × Bytes)
selected alg (bitmap, none) = err spec_no_pcrs
selected alg (bitmap, some _) = ok (alg, bitmap)

select_of : Bytes → Bytes → R (ℕ × Bytes)
select_of alg list = elim (alg_of (trim alg)) [
  | none ↦ err (spec_unknown_alg (trim alg))
  | some id ↦ select (split b',' list) none (0 ∷ 0 ∷ 0 ∷ []) >>= selected id
]

pub parse_pcr_spec : Bytes → R (ℕ × Bytes)
parse_pcr_spec spec =
    if contains b'+' spec then err spec_multi_bank else elim (split_once b':' spec) [
      | none ↦ err spec_no_colon
      | some (alg, list) ↦ select_of alg list
    ]

-- Named on the line of a test, opens what this module keeps shut.
unfoldable pub computing_pcr_spec : Unit {0}
unfolding alg_of fits_byte with_bit set_bit no_bytes_left index_of after select selected select_of
    parse_pcr_spec
computing_pcr_spec = tt
