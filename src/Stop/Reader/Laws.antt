-- ===== src/Stop/Reader/Laws.antt =====
-- What the `Reader` of crates/attest-stop/src/lib.rs reads back, and what it has read.
use tactiq_attest.Base.{
  ℕ, ◌^◌, ◌<◌, ◌≤◌, Bytes, IsByte, All, [], ◌∷◌, ◌++◌, ◌≡◌, refl, sym, ap, ◌∙◌, false, length,
  slice, drop, to_be, from_be, ok, arith, length-append, length-to_be, slice-here, drop-append,
  from_be-to_be, to_be-from_be, le→ltb, ltb, length-slice, All-slice, All-drop,
  slice_zero-append-drop, ◌||◌, ◌==◌, append_assoc,
}
use tactiq_attest.Messages.{Part}
use tactiq_attest.Stop.Reader.{take, take_sized, finish}

-- A part as it is written: its length in `w` bytes, then its bytes.
abbrev pub sized : ℕ → Bytes → Bytes
sized w v = to_be w (length v) ++ v

take-append :
    (v rest : Bytes) (max : ℕ) (what : Part)
    → 1 ≤ length v
    → length v ≤ max
    → take (length v) max what (v ++ rest) ≡ ok (v, rest)
unfolding take
take-append v rest max what lo hi =
    let inside : (length v == 0 || ltb max (length v)) ≡ false = ground arith in
    let enough : ltb (length (v ++ rest)) (length v) ≡ false =
      le→ltb _ _ (omega (arith, length-append v rest)) in
    rw (inside, enough)
      (λ i. ok (slice-here (length v) v rest refl i, drop-append (length v) v rest refl i))

-- A part of allowed length is read back, and what follows it is left.
pub take_sized-append :
    (w : ℕ) (v rest : Bytes) (max : ℕ) (what : Part)
    → 1 ≤ length v
    → length v ≤ max
    → max < 256 ^ w
    → take_sized w max what (sized w v ++ rest) ≡ ok (v, rest)
unfolding take_sized
take_sized-append w v rest max what lo hi fits =
    let n : length (to_be w (length v)) ≡ w = length-to_be w (length v) in
    let enough : ltb (length (to_be w (length v) ++ (v ++ rest))) w ≡ false =
      le→ltb _ _ (omega (arith, length-append (to_be w (length v)) (v ++ rest))) in
    let len : from_be (slice 0 w (to_be w (length v) ++ (v ++ rest))) ≡ length v =
      ap from_be (slice-here w (to_be w (length v)) (v ++ rest) (sym n))
      ∙ from_be-to_be w (length v) (omega arith) in
    rw (append_assoc, enough, len, drop-append w (to_be w (length v)) (v ++ rest) (sym n))
      (take-append v rest max what lo hi)

take_ok :
    (n max : ℕ) (what : Part) (b v rest : Bytes)
    → take n max what b ≡ ok (v, rest)
    → (1 ≤ n) × (n ≤ max) × (n ≤ length b) × (v ≡ slice 0 n b) × (rest ≡ drop n b)
unfolding take
take_ok n max what b v rest e = ground arith

take_sized_ok :
    (w max : ℕ) (what : Part) (b v rest : Bytes)
    → take_sized w max what b ≡ ok (v, rest)
    → (w ≤ length b) × (take (from_be (slice 0 w b)) max what (drop w b) ≡ ok (v, rest))
unfolding take_sized
take_sized_ok w max what b v rest e = ground arith

-- The facts of one part that was read.
pub record IsPart (w max : ℕ) (b v rest : Bytes) : Type 0 where
  pub whole : sized w v ++ rest ≡ b
  pub nonempty : 1 ≤ length v
  pub bounded : length v ≤ max
  pub bytes : All IsByte v
  pub rest_bytes : All IsByte rest

-- What was read is the part that stands at the front of the input.
pub take_sized-IsPart :
    (w max : ℕ) (what : Part) (b v rest : Bytes)
    → All IsByte b
    → take_sized w max what b ≡ ok (v, rest)
    → IsPart w max b v rest
take_sized-IsPart w max what b v rest h e =
    let (long, e') = take_sized_ok w max what b v rest e in
    let (lo, hi, enough, ev, er) = take_ok _ max what (drop w b) v rest e' in
    let n : length v ≡ from_be (slice 0 w b) =
      ap length ev ∙ length-slice 0 _ (drop w b) (omega arith) enough ∙ omega arith in
    let prefix : to_be w (length v) ≡ slice 0 w b =
      ap (to_be w) n
      ∙ to_be-from_be w (slice 0 w b) (length-slice 0 w b (omega arith) long ∙ omega arith)
          (All-slice IsByte 0 w b h) in
    record {
      whole =
          append_assoc (to_be w (length v)) v rest
          ∙ rw (prefix, ev, er)
              (simp (
                slice_zero-append-drop (from_be (slice 0 w b)) (drop w b),
                slice_zero-append-drop w b,
              ));
      nonempty = omega arith;
      bounded = omega arith;
      bytes = rw ev (All-slice IsByte 0 _ (drop w b) (All-drop IsByte w b h));
      rest_bytes = rw er (All-drop IsByte _ (drop w b) (All-drop IsByte w b h));
    }

pub finish-nil : (what : Part) → finish what [] ≡ ok tt
unfolding finish
finish-nil what = refl

pub finish_ok : (what : Part) (b : Bytes) → finish what b ≡ ok tt → b ≡ []
unfolding finish
finish_ok what [] e = refl
finish_ok what (x ∷ b) e = ground arith
