-- ===== src/TpmAccess/Attributes.antt =====
-- Which NV attribute words crates/attest-tpm/src/lib.rs takes for a counter of its own.
pub mod Read
use tactiq_attest.Base.{
  ℕ, ◌/◌, ◌%◌, ◌^◌, ◌<◌, ◌≡◌, ◌↔◌, ◌⊎◌, inl, inr, ok, not, ◌==◌, refuse_if, refuse_other,
  Bool-cases, then-elim, arith,
}
use tactiq_attest.Messages.{bad_attributes, not_counter, orderly_counter}
use tactiq_attest.Appraise.Gate1.{has_bit}
use tactiq_attest.TpmAccess.{
  check_counter_attributes, check_stop_attributes, without_written, counter_nv_attributes,
}

-- A counter that its own authorization writes and reads, written or not yet.
abbrev pub IsOwnCounter : ℕ → Type 0
IsOwnCounter attrs = (attrs ≡ 0x40014) ⊎ (attrs ≡ 0x20040014)

own_of :
    (attrs : ℕ)
    → attrs < 2 ^ 32
    → without_written attrs ≡ counter_nv_attributes
    → IsOwnCounter attrs
own_of attrs h e = elim (Bool-cases (attrs == 0x40014)) [
  | inl p ↦ inl (ground arith)
  | inr p ↦ inr (ground arith)
]

pub check_stop_attributes_exact :
    (attrs : ℕ) → attrs < 2 ^ 32 → (check_stop_attributes attrs ≡ ok tt) ↔ IsOwnCounter attrs
unfolding check_stop_attributes
check_stop_attributes_exact attrs h = (λ e. own_of attrs h (refuse_other _ _ _ e), back)
  where
    back :
        IsOwnCounter attrs
        → refuse_if (not (without_written attrs == counter_nv_attributes)) (bad_attributes attrs)
          ≡ ok tt
    back (inl e) = rw e
    back (inr e) = rw e

-- The check of a counter's attributes accepts exactly two words of 32 bits: a counter written and
-- read by its own authorization, with or without the bit that says it was written.
pub check_counter_attributes_exact :
    (attrs : ℕ) → attrs < 2 ^ 32 → (check_counter_attributes attrs ≡ ok tt) ↔ IsOwnCounter attrs
unfolding check_counter_attributes has_bit
check_counter_attributes_exact attrs h = (there, back)
  where
    there : check_counter_attributes attrs ≡ ok tt → IsOwnCounter attrs
    there e = then-elim (refuse_if (not (attrs / 2 ^ 4 % 16 == 1)) (not_counter attrs)) _ e λ _ f1.
        then-elim (refuse_if (has_bit 26 attrs) (orderly_counter attrs)) _ f1
          λ _ f2. own_of attrs h (refuse_other _ _ _ f2)

    back : IsOwnCounter attrs → check_counter_attributes attrs ≡ ok tt
    back (inl e) = rw e
    back (inr e) = rw e
