-- ===== src/Wire/Laws.antt =====
-- What the readers of TPM structures read back, and what they have read
-- (crates/attest-envelope/src/tpm.rs, crates/attest-stop/src/lib.rs).
use tactiq_attest.Base.{
  ℕ, ◌^◌, ◌<◌, ◌≤◌, Bytes, IsByte, All, ◌++◌, ◌≡◌, refl, sym, ap, ◌∙◌, false, length, slice, drop,
  to_be, from_be, ok, arith, length-append, length-to_be, slice-here, drop-append, from_be-to_be,
  to_be-from_be, from_be-lt, le→ltb, ltb, length-slice, All-slice, All-drop, slice_zero-append-drop,
  append_assoc, pair-bind-eq-ok, ok-injective,
}
use tactiq_attest.Messages.{Message}
use tactiq_attest.Wire.{take, number, tpm2b}

-- A TPM2B as it is written.
abbrev pub sized : Bytes → Bytes
sized v = to_be 2 (length v) ++ v

module _ (short : ℕ → ℕ → Message) where
  pub take-append :
      (n : ℕ) (v rest : Bytes) → n ≡ length v → take short n (v ++ rest) ≡ ok (v, rest)
  unfolding take
  take-append n v rest e =
      let enough : ltb (length (v ++ rest)) n ≡ false =
        le→ltb _ _ (omega (arith, length-append v rest)) in
      rw enough (λ i. ok (slice-here n v rest e i, drop-append n v rest e i))

  pub number-append :
      (w n : ℕ) (rest : Bytes) → n < 256 ^ w → number short w (to_be w n ++ rest) ≡ ok (n, rest)
  unfolding number
  number-append w n rest fits =
      rw (take-append w (to_be w n) rest (sym (length-to_be w n)))
        (λ i. ok (from_be-to_be w n fits i, rest))

  pub tpm2b-append :
      (v rest : Bytes) → length v < 2 ^ 16 → tpm2b short (sized v ++ rest) ≡ ok (v, rest)
  unfolding tpm2b
  tpm2b-append v rest fits =
      rw (append_assoc, number-append 2 (length v) (v ++ rest) fits)
        (take-append (length v) v rest refl)

  take_ok :
      (n : ℕ) (b v rest : Bytes)
      → take short n b ≡ ok (v, rest)
      → (n ≤ length b) × (v ≡ slice 0 n b) × (rest ≡ drop n b)
  unfolding take
  take_ok n b v rest e = ground arith

  -- What `take` read stood at the front of the input.
  pub take_read :
      (n : ℕ) (b v rest : Bytes)
      → All IsByte b
      → take short n b ≡ ok (v, rest)
      → (length v ≡ n) × (v ++ rest ≡ b) × All IsByte v × All IsByte rest
  take_read n b v rest h e =
      let (long, ev, er) = take_ok n b v rest e in
      (
        ap length ev ∙ length-slice 0 n b (omega arith) long ∙ omega arith,
        rw (ev, er) (slice_zero-append-drop n b),
        rw ev (All-slice IsByte 0 n b h),
        rw er (All-drop IsByte n b h),
      )

  -- What `number` read stood at the front of the input, in big-endian form.
  pub number_read :
      (w n : ℕ) (b rest : Bytes)
      → All IsByte b
      → number short w b ≡ ok (n, rest)
      → (n < 256 ^ w) × (to_be w n ++ rest ≡ b) × All IsByte rest
  unfolding number
  number_read w n b rest h e =
      let (v, r, ev, e') = pair-bind-eq-ok (take short w b) _ e in
      let same = ok-injective e' in
      let (len, whole, hv, hr) = take_read w b v r h ev in
      let value : from_be v ≡ n = ap (λ (p : ℕ × Bytes). p.0) same in
      let left : r ≡ rest = ap (λ (p : ℕ × Bytes). p.1) same in
      (
        rw (← value) (from_be-lt w v len hv),
        rw (← value, to_be-from_be w v len hv, ← left) whole,
        rw (← left) hr,
      )

  -- What `tpm2b` read stood at the front of the input behind its size.
  pub tpm2b_read :
      (b v rest : Bytes)
      → All IsByte b
      → tpm2b short b ≡ ok (v, rest)
      → (length v < 2 ^ 16) × (sized v ++ rest ≡ b) × All IsByte v × All IsByte rest
  unfolding tpm2b
  tpm2b_read b v rest h e =
      let (n, r, en, e') = pair-bind-eq-ok (number short 2 b) _ e in
      let (fits, whole, hr) = number_read 2 n b r h en in
      let (len, whole', hv, hrest) = take_read n r v rest hr e' in
      (omega arith, append_assoc (to_be 2 (length v)) v rest ∙ rw (len, whole') whole, hv, hrest)
