-- ===== src/TpmAccess/Attributes/Read.antt =====
-- The attributes that crates/attest-tpm/src/lib.rs reads from a listing have 32 bits.
use tactiq_attest.Base.{
  ℕ, ◌+◌, ◌*◌, ◌^◌, ◌<◌, Bytes, List, [], ◌∷◌, Option, none, some, some-injective, ok, err,
  err-ne-ok, ok_or, ok_or-eq-ok, ◌≡◌, ◌==◌, bind-elim, Bool-cases, inl, inr, arith, codes,
  if◌then◌else◌, ◌&&◌, not,
}
use tactiq_attest.Messages.{attributes_not_hex, no_attributes_block, no_attributes_value}
use tactiq_attest.Service.Text.{strip_prefix}
use tactiq_attest.Service.Front.{hex_value}
use tactiq_attest.TpmAccess.{
  hex_number, hex_u32, hex_prefix, value_of, value_line, ends_colon, is_some_bytes, trim, lines,
  after_attributes, parse_nv_attributes,
}

hex_number-lt : (n m : ℕ) (bs : Bytes) → n < 2 ^ 32 → hex_number n bs ≡ some m → m < 2 ^ 32
unfolding hex_number
hex_number-lt n m [] h e = omega (arith, h, some-injective _ _ e)
hex_number-lt n m (b ∷ bs) h e = ground (arith, hex_number-lt (n * 16 + hex_value b) m bs)

hex_u32-lt : (bs : Bytes) (m : ℕ) → hex_u32 bs ≡ some m → m < 2 ^ 32
unfolding hex_u32
hex_u32-lt [] m e = cc
hex_u32-lt (b ∷ []) m e = elim (Bool-cases (b == b'+')) [
  | inl p ↦ none_not (rw p at e)
  | inr p ↦ hex_number-lt 0 m (b ∷ []) (omega arith) (rw p at e)
]
  where
    none_not : ◌≡◌ {A = Option ℕ} none (some m) → m < 2 ^ 32
    none_not h = cc
hex_u32-lt (b ∷ (d ∷ ds)) m e = elim (Bool-cases (b == b'+')) [
  | inl p ↦ hex_number-lt 0 m (d ∷ ds) (omega arith) (rw p at e)
  | inr p ↦ hex_number-lt 0 m (b ∷ (d ∷ ds)) (omega arith) (rw p at e)
]

value_of-lt : (v : Bytes) (m : ℕ) → value_of v ≡ ok m → m < 2 ^ 32
unfolding value_of
value_of-lt v m e =
    bind-elim (ok_or (attributes_not_hex v) (hex_prefix v)) _ e
      λ hex _ f. hex_u32-lt hex m (ok_or-eq-ok _ _ f)

value_line-lt : (ls : List Bytes) (m : ℕ) → value_line ls ≡ ok m → m < 2 ^ 32
unfolding value_line
value_line-lt [] m e = absurd (err-ne-ok e)
value_line-lt (l ∷ ls) m e =
    by_prefix (value_line-lt ls m) (strip_prefix (codes "value:") (trim l)) e
  where
    by_prefix :
        (value_line ls ≡ ok m → m < 2 ^ 32)
        → (o : Option Bytes)
        → elim o [
          | some v ↦ value_of (trim v)
          | none ↦
              if ends_colon (trim l)
                && not (is_some_bytes (strip_prefix (codes "friendly") (trim l)))
              then err no_attributes_value
              else value_line ls
        ]
          ≡ ok m
        → m < 2 ^ 32
    by_prefix later (some v) h = value_of-lt (trim v) m h
    by_prefix later none h =
        elim (Bool-cases
          (ends_colon (trim l) && not (is_some_bytes (strip_prefix (codes "friendly") (trim l))))) [
            | inl p ↦ absurd (err-ne-ok (rw p at h))
            | inr p ↦ later (rw p at h)
          ]

pub parse_nv_attributes-lt :
    (listing : Bytes) (attrs : ℕ) → parse_nv_attributes listing ≡ ok attrs → attrs < 2 ^ 32
unfolding parse_nv_attributes
parse_nv_attributes-lt listing attrs e =
    bind-elim (ok_or no_attributes_block (after_attributes (lines listing))) _ e
      λ ls _ f. value_line-lt ls attrs f
