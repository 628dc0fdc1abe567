-- ===== src/Appraise/Gate1/Banks.antt =====
-- The one bank of a quote and the selection (crates/attest-appraise/src/gate1.rs).
use tactiq_attest.Base.{
  ℕ, Bytes, ◌||◌, not, List, [], ◌∷◌, ◌≡◌, ap, ok, length, slice, from_be, bytes_eq, bytes_eq→eq,
  ◌==◌, refuse_if, refuse_unless, ok-injective, err-ne-ok, Bool-cases, ==→eq, inl, inr,
}
use tactiq_attest.Messages.{other_selection}
use tactiq_attest.Appraise.Gate1.{only_bank}

pub only_bank_ok :
    (count : ℕ) (bs : List (ℕ × Bytes)) (alg : ℕ) (bits : Bytes)
    → only_bank count bs ≡ ok (alg, bits)
    → (count ≡ 1) × ((rest : List (ℕ × Bytes)) × (bs ≡ (alg, bits) ∷ rest))
unfolding only_bank
only_bank_ok count [] alg bits e = cc
only_bank_ok count (b ∷ bs) alg bits e = elim (Bool-cases (count == 1)) [
  | inl p ↦ (==→eq _ _ p, (bs, ap (λ x. x ∷ bs) (ok-injective (rw p at e))))
  | inr p ↦ absurd (err-ne-ok (rw p at e))
]

pub selection_ok :
    (alg : ℕ) (bits selection : Bytes)
    → refuse_if
        (not (alg == from_be (slice 0 2 selection))
          || not (bytes_eq bits (slice 2 (length selection) selection)))
        other_selection
      ≡ ok tt
    → (alg ≡ from_be (slice 0 2 selection)) × (bits ≡ slice 2 (length selection) selection)
selection_ok alg bits selection e = elim (Bool-cases (alg == from_be (slice 0 2 selection))) [
  | inl p ↦ (==→eq _ _ p, bytes_eq→eq _ _ (refuse_unless _ _ (rw p at e)))
  | inr p ↦ absurd (err-ne-ok (rw p at e))
]

pub only_bank-one :
    (count : ℕ) (bs rest : List (ℕ × Bytes)) (b : ℕ × Bytes)
    → count ≡ 1
    → bs ≡ b ∷ rest
    → only_bank count bs ≡ ok b
unfolding only_bank
only_bank-one count bs rest b one e = rw (e, one)
