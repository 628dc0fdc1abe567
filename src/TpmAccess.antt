-- ===== src/TpmAccess.antt =====
-- crates/attest-tpm/src/lib.rs: the TPM through the external commands of tpm2-tools, and what their
-- outputs are read as. The listings are texts of bytes; of Unicode only ASCII white space is trimmed.
pub mod Attributes
pub mod Hex
pub mod Commands
pub mod PcrSpec
pub mod Keys
use tactiq_attest.Base.{
  ℕ, zero, suc, ◌+◌, ◌-◌, ◌*◌, ◌/◌, ◌%◌, ◌^◌, Bytes, Bool, true, false, ◌&&◌, ◌||◌, not, List, [],
  ◌∷◌, ◌++◌, map, Option, none, some, length, codes, bytes_eq, from_be, Result, ok, err, ok_or,
  map_err, refuse_if, ◌==◌, leb, ltb, if◌then◌else◌,
}
use tactiq_attest.Base
use tactiq_attest.Messages.{
  Message, R, bad_attributes, not_counter, orderly_counter, no_attributes_block, attributes_not_hex,
  no_attributes_value, no_name_line, name_not_hex, counter_length, handle_prefix, handle_not_hex,
  handle_range, already_defined,
}
use tactiq_attest.Service.Text.{all, strip_prefix, split}
use tactiq_attest.Service.Effects.{Exec, pure, raise, lift, ◌>>=◌, ◌>>◌}
use tactiq_attest.Appraise.Gate1.{has_bit}
use tactiq_attest.Service.Front.{is_hex_digit, hex_value, hex_pairs}

-- The lines of a text: the line break is `\n` or `\r\n`, and none stands behind the last.
strip_return : Bytes → Bytes
strip_return [] = []
strip_return (b ∷ []) = if b == 13 then [] else b ∷ []
strip_return (b ∷ (c ∷ bs)) = b ∷ strip_return (c ∷ bs)

drop_last_empty : List Bytes → List Bytes
drop_last_empty [] = []
drop_last_empty ([] ∷ []) = []
drop_last_empty ((b ∷ l) ∷ []) = (b ∷ l) ∷ []
drop_last_empty (l ∷ (m ∷ ls)) = strip_return l ∷ drop_last_empty (m ∷ ls)

pub lines : Bytes → List Bytes
lines text = drop_last_empty (split 10 text)

abbrev pub is_space : ℕ → Bool
is_space b = b == 32 || leb 9 b && leb b 13

unfoldable pub trim_front : Bytes → Bytes
trim_front [] = []
trim_front (b ∷ bs) = let rest = trim_front bs in if is_space b then rest else b ∷ bs

-- The bytes up to the last that is no white space.
unfoldable pub trim_back : Bytes → Bytes
trim_back [] = []
trim_back (b ∷ bs) = elim (trim_back bs) [
  | [] ↦ if is_space b then [] else b ∷ []
  | c ∷ cs ↦ b ∷ c ∷ cs
]

unfoldable pub trim : Bytes → Bytes
trim s = trim_back (trim_front s)

-- `from_str_radix(.., 16)` into 32 bits: an optional plus sign, then one digit at least.
hex_number : ℕ → Bytes → Option ℕ
hex_number n [] = some n
hex_number n (b ∷ bs) =
    let n' = n * 16 + hex_value b in
    let rest = hex_number n' bs in
    if not (is_hex_digit b) then none else if ltb n' (2 ^ 32) then rest else none

pub hex_u32 : Bytes → Option ℕ
hex_u32 [] = none
hex_u32 (b ∷ bs) =
    if b == b'+'
    then elim bs [ [] ↦ none | d ∷ ds ↦ hex_number 0 (d ∷ ds) ]
    else hex_number 0 (b ∷ bs)

-- `strip_prefix("0x")`, or else `strip_prefix("0X")`.
hex_prefix : Bytes → Option Bytes
hex_prefix v = elim (strip_prefix (codes "0x") v) [
  | some hex ↦ some hex
  | none ↦ strip_prefix (codes "0X") v
]

-- The number of a handle; the source writes it back in lower-case hex.
pub parse_handle : Bytes → ℕ → ℕ → R ℕ
parse_handle v lo hi = Base.◌>>=◌ (ok_or handle_prefix (hex_prefix v)) λ hex.
    Base.◌>>=◌ (ok_or handle_not_hex (hex_u32 hex))
      λ n. Base.◌>>◌ (refuse_if (ltb n lo || ltb hi n) (handle_range lo hi)) (ok n)

abbrev lower : ℕ → ℕ
lower b = if leb b'A' b && leb b b'Z' then b + 32 else b

-- The `filter_map` and `any` over the lines.
lists : Bytes → List Bytes → Bool
lists handle [] = false
lists handle (l ∷ ls) =
    elim (strip_prefix (codes "- ") (trim l)) [
      | none ↦ false
      | some h ↦ bytes_eq (map lower (trim h)) (map lower handle)
    ]
    || lists handle ls

pub listing_has : Bytes → Bytes → Bool
listing_has listing handle = lists handle (lines listing)

abbrev bit_written : ℕ
bit_written = 29

-- The counter type in the bits 7 to 4, with write and read by the index's own authorization.
abbrev pub counter_nv_attributes : ℕ
counter_nv_attributes = 2 ^ 4 + 2 ^ 2 + 2 ^ 18

abbrev pub stop_nv_attributes_wanted : ℕ
stop_nv_attributes_wanted = counter_nv_attributes

-- `attrs & !TPMA_NV_WRITTEN`
abbrev without_written : ℕ → ℕ
without_written attrs = attrs - attrs / 2 ^ bit_written % 2 * 2 ^ bit_written

-- `attrs & TPMA_NV_TPM_NT_MASK != TPM_NT_COUNTER`: the field of bits 7 to 4 is not 1.
pub check_counter_attributes : ℕ → R (Unit {0})
check_counter_attributes attrs =
    Base.◌>>◌ (refuse_if (not (attrs / 2 ^ 4 % 16 == 1)) (not_counter attrs)) (
      Base.◌>>◌ (refuse_if (has_bit 26 attrs) (orderly_counter attrs))
        (refuse_if (not (without_written attrs == counter_nv_attributes)) (bad_attributes attrs)))

pub check_stop_attributes : ℕ → R (Unit {0})
check_stop_attributes attrs =
    refuse_if (not (without_written attrs == stop_nv_attributes_wanted)) (bad_attributes attrs)

pub stop_attributes_written : ℕ → Bool
stop_attributes_written attrs = has_bit bit_written attrs

-- The lines behind `attributes:`.
after_attributes : List Bytes → Option (List Bytes)
after_attributes [] = none
after_attributes (l ∷ ls) =
    let rest = after_attributes ls in
    if bytes_eq (trim l) (codes "attributes:") then some ls else rest

-- `l.ends_with(':')`
ends_colon : Bytes → Bool
ends_colon [] = false
ends_colon (b ∷ []) = b == b':'
ends_colon (b ∷ (c ∷ bs)) = ends_colon (c ∷ bs)

abbrev is_some_bytes : Option Bytes → Bool
is_some_bytes none = false
is_some_bytes (some b) = true

value_of : Bytes → R ℕ
value_of v =
    Base.◌>>=◌ (ok_or (attributes_not_hex v) (hex_prefix v))
      λ hex. ok_or (attributes_not_hex v) (hex_u32 hex)

value_line : List Bytes → R ℕ
value_line [] = err no_attributes_value
value_line (l ∷ ls) =
    let rest = value_line ls in
    elim (strip_prefix (codes "value:") (trim l)) [
      | some v ↦ value_of (trim v)
      | none ↦
          if ends_colon (trim l) && not (is_some_bytes (strip_prefix (codes "friendly") (trim l)))
          then err no_attributes_value
          else rest
    ]

pub parse_nv_attributes : Bytes → R ℕ
parse_nv_attributes listing =
    Base.◌>>=◌ (ok_or no_attributes_block (after_attributes (lines listing))) value_line

name_line : List Bytes → Option Bytes
name_line [] = none
name_line (l ∷ ls) =
    let rest = name_line ls in
    elim (strip_prefix (codes "name:") (trim l)) [ some hex ↦ some (trim hex) | none ↦ rest ]

pub parse_nv_name : Bytes → R Bytes
parse_nv_name listing = Base.◌>>=◌ (ok_or no_name_line (name_line (lines listing))) λ hex.
    Base.◌>>◌
      (refuse_if (length hex == 0 || (not (length hex % 2 == 0) || not (all is_hex_digit hex)))
        (name_not_hex hex))
      (ok (hex_pairs hex))

-- Named on the line of a test, opens what this module keeps shut.
unfoldable pub computing_tpm_access : Unit {0}
unfolding strip_return drop_last_empty lines trim_front trim_back trim hex_number hex_u32 hex_prefix
    parse_handle lists listing_has check_counter_attributes check_stop_attributes
    stop_attributes_written after_attributes ends_colon value_of value_line parse_nv_attributes
    name_line parse_nv_name
computing_tpm_access = tt
