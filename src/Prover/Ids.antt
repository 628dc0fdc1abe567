-- ===== src/Prover/Ids.antt =====
-- Device ids of crates/prover/src/state.rs: through the file and back, and in the field of the envelope.
use tactiq_attest.Base.{
  ℕ, zero, suc, ◌-◌, ◌≤◌, Bytes, true, false, [], ◌∷◌, ◌++◌, ◌≡◌, refl, sym, ap, ◌∙◌, subst, take,
  replicate, length, ok, ◌>>◌, refuse_if, ltb, if◌then◌else◌, then-elim, refuse_when, refuse_unless,
  ok-injective, arith,
}
use tactiq_attest.Envelope.{pad_id}
use tactiq_attest.TpmAccess.{is_space, trim_front, trim_back, trim}
use tactiq_attest.Messages.{id_empty, id_too_long}
use tactiq_attest.Prover.{has_no_bytes, all_graphic, validate_id, line_of, written_id, read_id}

-- What an id that passes has.
abbrev IsId : Bytes → Type 0
IsId id = (has_no_bytes id ≡ false) × (length id ≤ 16) × (all_graphic id ≡ true)

validate_id-IsId : (id : Bytes) → validate_id id ≡ ok tt → IsId id
unfolding validate_id
validate_id-IsId id e = then-elim (refuse_if (has_no_bytes id) id_empty) _ e λ some_bytes f.
    then-elim (refuse_if (ltb 16 (length id)) (id_too_long id (length id))) _ f λ fits graphic.
      (refuse_when _ _ some_bytes, within (refuse_when _ _ fits), refuse_unless _ _ graphic)
  where
    within : ltb 16 (length id) ≡ false → length id ≤ 16
    within h = ground arith

graphic_cons :
    (b : ℕ) (bs : Bytes)
    → all_graphic (b ∷ bs) ≡ true
    → (33 ≤ b) × (is_space b ≡ false) × (all_graphic bs ≡ true)
unfolding all_graphic
graphic_cons b bs h = (ground arith, ground arith, ground arith)

trim_back-line_of : (id : Bytes) → all_graphic id ≡ true → trim_back (line_of id) ≡ id
unfolding trim_back
trim_back-line_of [] h = refl
trim_back-line_of (b ∷ bs) h =
    let (_, printed, rest) = graphic_cons b bs h in last bs (trim_back-line_of bs rest) printed
  where
    last :
        (cs : Bytes)
        → trim_back (line_of cs) ≡ cs
        → is_space b ≡ false
        → trim_back (b ∷ line_of cs) ≡ b ∷ cs
    last cs e printed =
        ap (λ r. elim r [ [] ↦ if is_space b then [] else b ∷ [] | c ∷ ds ↦ b ∷ c ∷ ds ]) e
        ∙ kept cs printed
      where
        kept :
            (ds : Bytes)
            → is_space b ≡ false
            → (elim ds [ [] ↦ if is_space b then [] else b ∷ [] | c ∷ es ↦ b ∷ c ∷ es ]) ≡ b ∷ ds
        kept [] printed = rw printed refl
        kept (c ∷ ds) printed = refl

trim-line_of :
    (id : Bytes) → has_no_bytes id ≡ false → all_graphic id ≡ true → trim (line_of id) ≡ id
unfolding has_no_bytes trim trim_front
trim-line_of [] e h = cc
trim-line_of (b ∷ bs) e h =
    let (_, printed, _) = graphic_cons b bs h in rw printed (trim_back-line_of (b ∷ bs) h)

cons_parts : (x y : ℕ) (xs ys : Bytes) → x ∷ xs ≡ y ∷ ys → (x ≡ y) × (xs ≡ ys)
cons_parts x y xs ys e = (cc, cc)

zero_apart : (y : ℕ) (ys zs ws : Bytes) → all_graphic (y ∷ ys) ≡ true → 0 ∷ zs ≡ y ∷ ws → ⊥
zero_apart y ys zs ws h e =
    let (least, _, _) = graphic_cons y ys h in let (same, _) = cons_parts 0 y zs ws e in omega arith

-- Zeros behind printable bytes hide nothing.
zeros_apart :
    (a b : Bytes) (n m : ℕ)
    → all_graphic a ≡ true
    → all_graphic b ≡ true
    → a ++ replicate n 0 ≡ b ++ replicate m 0
    → a ≡ b
zeros_apart [] [] n m ha hb e = refl
zeros_apart [] (y ∷ ys) zero m ha hb e = cc
zeros_apart [] (y ∷ ys) (suc n) m ha hb e =
    absurd (zero_apart y ys (replicate n 0) (ys ++ replicate m 0) hb e)
zeros_apart (x ∷ xs) [] n zero ha hb e = cc
zeros_apart (x ∷ xs) [] n (suc m) ha hb e =
    absurd (zero_apart x xs (replicate m 0) (xs ++ replicate n 0) ha (sym e))
zeros_apart (x ∷ xs) (y ∷ ys) n m ha hb e =
    let (same, rest) = cons_parts x y (xs ++ replicate n 0) (ys ++ replicate m 0) e in
    let (_, _, hx) = graphic_cons x xs ha in
    let (_, _, hy) = graphic_cons y ys hb in let more = zeros_apart xs ys n m hx hy rest in cc

take_short : (n : ℕ) (xs : Bytes) → length xs ≤ n → take n xs ≡ xs
unfolding take
take_short zero [] h = refl
take_short zero (x ∷ xs) h = absurd (omega arith)
take_short (suc n) [] h = refl
take_short (suc n) (x ∷ xs) h = ap (λ t. x ∷ t) (take_short n xs (omega arith))

-- Two device ids that pass the check of the prover are the same if they are the same in the padded
-- field of the envelope.
pub pad_id_apart :
    (a b : Bytes) → validate_id a ≡ ok tt → validate_id b ≡ ok tt → pad_id a ≡ pad_id b → a ≡ b
unfolding pad_id
pad_id_apart a b ea eb e =
    let (_, la, ga) = validate_id-IsId a ea in
    let (_, lb, gb) = validate_id-IsId b eb in
    zeros_apart a b (16 - length a) (16 - length b) ga gb (
      subst (λ t. t ++ replicate (16 - length a) 0 ≡ b ++ replicate (16 - length b) 0)
        (take_short 16 a la)
        (subst (λ t. take 16 a ++ replicate (16 - length a) 0 ≡ t ++ replicate (16 - length b) 0)
          (take_short 16 b lb) e))

-- What is written for an id that passes is read back.
pub read_id-written_id : (id text : Bytes) → written_id id ≡ ok text → read_id text ≡ ok id
unfolding written_id read_id
read_id-written_id id text e = then-elim (validate_id id) _ e λ valid same.
    let (filled, _, graphic) = validate_id-IsId id valid in
    subst (λ t. (validate_id (trim t) >> ok (trim t)) ≡ ok id) (ok-injective same)
      (rw (trim-line_of id filled graphic) (rw valid refl))
