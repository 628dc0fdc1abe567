-- ===== src/TpmAccess/PcrSpec/Bits.antt =====
-- The bits of the bitmap that `parse_pcr_spec` of crates/attest-tpm/src/lib.rs sets.
use tactiq_attest.Base.{
  ℕ, zero, suc, ◌+◌, ◌-◌, ◌*◌, ◌<◌, Bytes, Bool, true, false, ◌||◌, ◌&&◌, [], ◌∷◌, ◌≡◌, inl, inr,
  refl, sym, ap, ◌∙◌, length, All, IsByte, ◌==◌, ltb→lt, ==→eq, ltb, if◌then◌else◌, Bool-cases,
  arith,
}
use tactiq_attest.Appraise.Gate1.{has_bit}
use tactiq_attest.TpmAccess.PcrSpec.{with_bit, set_bit}

-- The bit of a PCR in the bitmap.
unfoldable pub selects : Bytes → ℕ → Bool
selects [] i = false
selects (b ∷ bs) i = if ltb i 8 then has_bit i b else selects bs (i - 8)

-- The sixteen thousand cases of one bit in one byte.
unfoldable pub tested : (ℕ → Bool) → ℕ → Bool
tested p zero = true
tested p (suc n) = tested p n && p n

last_two : (p : ℕ → Bool) (n : ℕ) → tested p (suc n) ≡ true → (tested p n ≡ true) × (p n ≡ true)
unfolding tested
last_two p n done = ground (arith, done)

pub of_tested : (p : ℕ → Bool) (n : ℕ) → tested p n ≡ true → (x : ℕ) → x < n → p x ≡ true
unfolding tested
of_tested p zero done x less = absurd (omega arith)
of_tested p (suc n) done x less =
    let (before, here) = last_two p n done in
    elim (Bool-cases (x == n)) [
      | inl same ↦ ap p (==→eq _ _ same) ∙ here
      | inr other ↦ of_tested p n before x (ground arith)
    ]

unfoldable pub agrees : Bool → Bool → Bool
agrees true b = b
agrees false true = false
agrees false false = true

pub agrees→eq : (a b : Bool) → agrees a b ≡ true → a ≡ b
unfolding agrees
agrees→eq true true h = refl
agrees→eq true false h = sym h
agrees→eq false true h = h
agrees→eq false false h = refl

abbrev one_bit : ℕ → ℕ → ℕ → Bool
one_bit b k j = agrees (has_bit j (with_bit b k)) (j == k || has_bit j b) && ltb (with_bit b k) 256

table : tested (λ b. tested (λ k. tested (λ j. one_bit b k j) 8) 8) 256 ≡ true
unfolding tested agrees has_bit with_bit
table = refl

with_bit-one_bit : (b k j : ℕ) → b < 256 → k < 8 → j < 8 → one_bit b k j ≡ true
with_bit-one_bit b k j hb hk hj =
    let row = of_tested (λ b. tested (λ k. tested (λ j. one_bit b k j) 8) 8) 256 table b hb in
    of_tested (λ j. one_bit b k j) 8 (of_tested (λ k. tested (λ j. one_bit b k j) 8) 8 row k hk) j
      hj

has_bit-with_bit :
    (b k j : ℕ) → b < 256 → k < 8 → j < 8 → has_bit j (with_bit b k) ≡ (j == k || has_bit j b)
has_bit-with_bit b k j hb hk hj =
    let h = with_bit-one_bit b k j hb hk hj in
    agrees→eq _ _ (
      and_left (agrees (has_bit j (with_bit b k)) (j == k || has_bit j b)) (ltb (with_bit b k) 256)
        h)
  where
    and_left : (x y : Bool) → (x && y) ≡ true → x ≡ true
    and_left true y h = refl
    and_left false y h = h

with_bit-IsByte : (b k : ℕ) → b < 256 → k < 8 → with_bit b k < 256
with_bit-IsByte b k hb hk =
    let h = with_bit-one_bit b k 0 hb hk (omega arith) in
    ltb→lt (with_bit b k) 256 (
      and_right (agrees (has_bit 0 (with_bit b k)) (0 == k || has_bit 0 b)) (ltb (with_bit b k) 256)
        h)
  where
    and_right : (x y : Bool) → (x && y) ≡ true → y ≡ true
    and_right true y h = h
    and_right false y h = cc

pub set_bit-IsByte : (bs : Bytes) (q k : ℕ) → k < 8 → All IsByte bs → All IsByte (set_bit bs q k)
unfolding set_bit
set_bit-IsByte [] q k hk a = tt
set_bit-IsByte (b ∷ bs) zero k hk (h, a) = (with_bit-IsByte b k h hk, a)
set_bit-IsByte (b ∷ bs) (suc q) k hk (h, a) = (h, set_bit-IsByte bs q k hk a)

pub length-set_bit : (bs : Bytes) (q k : ℕ) → length (set_bit bs q k) ≡ length bs
unfolding set_bit
length-set_bit [] q k = refl
length-set_bit (b ∷ bs) zero k = refl
length-set_bit (b ∷ bs) (suc q) k = omega (arith, length-set_bit bs q k)

pub selects-set_bit :
    (bs : Bytes) (q k n i : ℕ)
    → n ≡ q * 8 + k
    → All IsByte bs
    → q < length bs
    → k < 8
    → selects (set_bit bs q k) i ≡ (i == n || selects bs i)
unfolding set_bit selects
selects-set_bit [] q k n i e a hq hk = absurd (omega arith)
selects-set_bit (b ∷ bs) zero k n i e (h, a) hq hk =
    let same : k ≡ n = omega arith in
    elim (Bool-cases (ltb i 8)) [
      | inl p ↦
          rw p (has_bit-with_bit b k i h hk (ltb→lt i 8 p) ∙ ap (λ t. i == t || has_bit i b) same)
      | inr p ↦ let apart : (i == n) ≡ false = ground arith in rw p (rw apart refl)
    ]
selects-set_bit (b ∷ bs) (suc q) k n i e (h, a) hq hk = elim (Bool-cases (ltb i 8)) [
  | inl p ↦ let apart : (i == n) ≡ false = ground arith in rw p (rw apart refl)
  | inr p ↦
      let same : (i - 8 == n - 8) ≡ (i == n) = ground arith in
      rw p (
        selects-set_bit bs q k (n - 8) (i - 8) (omega arith) a (omega arith) hk
        ∙ ap (λ t. t || selects bs (i - 8)) same)
]
