-- ===== src/Envelope/Bundle/Framing.antt =====
-- One section of a bundle: what `next` makes of it (crates/attest-envelope/src/lib.rs).
use tactiq_attest.Base.{
  ℕ, ◌+◌, ◌^◌, ◌<◌, ◌≤◌, Bytes, IsByte, All, List, [], ◌∷◌, ◌++◌, ◌≡◌, refl, sym, ap, ◌∙◌, true,
  false, some, none, ok, length, drop, slice, to_be, from_be, arith, length-append, length-to_be,
  from_be-to_be, slice-here, slice-skip, append_assoc, drop-append, le→ltb, length-drop, All-drop,
  length-slice, slice-append-drop, slice_zero-append-drop, All-slice, from_be-lt, to_be-from_be,
}
use tactiq_attest.Envelope.Bundle.{Section, Sections, next, tag_forbidden, is_empty}

-- The bytes of one section, and of several.
abbrev pub frame : Section → Bytes
frame s = to_be 2 s.tag ++ (to_be 4 (length s.body) ++ s.body)

abbrev pub frames : List Section → Bytes
frames [] = []
frames (s ∷ ss) = frame s ++ frames ss

-- What a section on the wire can be: a tag of 16 bits that is not forbidden, and a length of 32.
pub record IsFramable (s : Section) : Type 0 where
  pub tag_fits : s.tag < 2 ^ 16
  pub allowed : tag_forbidden s.tag ≡ false
  pub body_fits : length s.body < 2 ^ 32

abbrev pub running : Bytes → ℕ → Sections
running rest offset = record { rest = rest; offset = offset; failed = false }

abbrev pub tag_of : Bytes → ℕ
tag_of rest = from_be (slice 0 2 rest)

abbrev pub len_of : Bytes → ℕ
len_of rest = from_be (slice 2 6 rest)

abbrev pub first_of_rest : Bytes → Section
first_of_rest rest = record { tag = tag_of rest; body = slice 0 (len_of rest) (drop 6 rest) }

is_empty-cons : (rest : Bytes) → 0 < length rest → is_empty rest ≡ false
is_empty-cons [] h = absurd (omega arith)
is_empty-cons (b ∷ bs) h = refl

none_cases : (rest : Bytes) → is_empty rest ≡ true → rest ≡ []
none_cases [] h = refl
none_cases (b ∷ bs) h = cc

module _ (rest : Bytes) (offset : ℕ) where
  next_step :
      6 ≤ length rest
      → tag_forbidden (tag_of rest) ≡ false
      → len_of rest ≤ length (drop 6 rest)
      → next (running rest offset) ≡ (
        some (ok (first_of_rest rest)),
        running (drop (len_of rest) (drop 6 rest)) (offset + (6 + len_of rest)),
      )
  unfolding next
  next_step long allowed inside =
      rw (is_empty-cons rest (omega arith), le→ltb _ _ long, allowed, le→ltb _ _ inside)

  pub next_ok :
      (s : Section) (it : Sections)
      → next (running rest offset) ≡ (some (ok s), it)
      → (6 ≤ length rest)
        × (tag_forbidden (tag_of rest) ≡ false)
        × (len_of rest ≤ length (drop 6 rest))
        × (s ≡ first_of_rest rest)
        × (it ≡ running (drop (len_of rest) (drop 6 rest)) (offset + (6 + len_of rest)))
  unfolding next
  next_ok s it e = ground arith

  -- With no failure before, the iterator ends only where nothing is left.
  pub next-none : (it : Sections) → next (running rest offset) ≡ (none, it) → rest ≡ []
  unfolding next
  next-none it e = none_cases rest (ground arith)

module _ (s : Section) (more : Bytes) where
  header : to_be 2 s.tag ++ (to_be 4 (length s.body) ++ (s.body ++ more)) ≡ frame s ++ more
  header = simp append_assoc

  pub length-frame : length (frame s ++ more) ≡ 6 + length s.body + length more
  length-frame = rw (← header) (
      omega (
        arith,
        length-append (to_be 2 s.tag) (to_be 4 (length s.body) ++ (s.body ++ more)),
        length-append (to_be 4 (length s.body)) (s.body ++ more),
        length-append s.body more,
        length-to_be 2 s.tag,
        length-to_be 4 (length s.body),
      ))

  tag-frame : slice 0 2 (frame s ++ more) ≡ to_be 2 s.tag
  tag-frame = rw (← header) (slice-here 2 _ _ (sym (length-to_be 2 s.tag)))

  len-frame : slice 2 6 (frame s ++ more) ≡ to_be 4 (length s.body)
  len-frame = rw (← header) (
      slice-skip 2 6 0 4 (to_be 2 s.tag) _ (omega (arith, length-to_be 2 s.tag))
        (omega (arith, length-to_be 2 s.tag))
      ∙ slice-here 4 _ _ (sym (length-to_be 4 (length s.body))))

  after-frame : drop 6 (frame s ++ more) ≡ s.body ++ more
  after-frame =
      let n : 6 ≡ length (to_be 2 s.tag ++ to_be 4 (length s.body)) = omega (
        arith,
        length-append (to_be 2 s.tag) (to_be 4 (length s.body)),
        length-to_be 2 s.tag,
        length-to_be 4 (length s.body),
      ) in
      ap (drop 6)
        (sym header ∙ sym (append_assoc (to_be 2 s.tag) (to_be 4 (length s.body)) (s.body ++ more)))
      ∙ drop-append 6 _ (s.body ++ more) n

  -- A section at the front of what is left is yielded, and the iterator stands behind it.
  pub next-frame :
      (offset : ℕ)
      → IsFramable s
      → next (running (frame s ++ more) offset)
        ≡ (some (ok s), running more (offset + (6 + length s.body)))
  next-frame offset f =
      let tag : tag_of (frame s ++ more) ≡ s.tag =
        ap from_be tag-frame ∙ from_be-to_be 2 s.tag f.tag_fits in
      let len : len_of (frame s ++ more) ≡ length s.body =
        ap from_be len-frame ∙ from_be-to_be 4 (length s.body) f.body_fits in
      let body : slice 0 (len_of (frame s ++ more)) (drop 6 (frame s ++ more)) ≡ s.body =
        rw (len, after-frame) (slice-here _ s.body more refl) in
      let rest : drop (len_of (frame s ++ more)) (drop 6 (frame s ++ more)) ≡ more =
        rw (len, after-frame) (drop-append _ s.body more refl) in
      next_step (frame s ++ more) offset (omega (arith, length-frame))
        (ap tag_forbidden tag ∙ f.allowed)
        (rw (len, after-frame) (omega (arith, length-append s.body more)))
      ∙ (λ i. (
        some (ok (record { tag = tag i; body = body i })),
        running (rest i) (offset + (6 + len i)),
      ))

module _ (rest : Bytes) (h : All IsByte rest) (long : 6 ≤ length rest)
    (inside : len_of rest ≤ length (drop 6 rest)) where
  length-body : length (slice 0 (len_of rest) (drop 6 rest)) ≡ len_of rest
  length-body = length-slice 0 (len_of rest) (drop 6 rest) (omega arith) inside ∙ omega arith

  tag_fits-first : tag_of rest < 2 ^ 16
  tag_fits-first =
      from_be-lt 2 (slice 0 2 rest) (length-slice 0 2 rest (omega arith) (omega arith))
        (All-slice IsByte 0 2 rest h)

  len_fits-first : len_of rest < 2 ^ 32
  len_fits-first =
      from_be-lt 4 (slice 2 6 rest) (length-slice 2 6 rest (omega arith) long)
        (All-slice IsByte 2 6 rest h)

  frame-first : frame (first_of_rest rest) ++ drop (len_of rest) (drop 6 rest) ≡ rest
  frame-first =
      let tag : to_be 2 (tag_of rest) ≡ slice 0 2 rest =
        to_be-from_be 2 (slice 0 2 rest) (length-slice 0 2 rest (omega arith) (omega arith))
          (All-slice IsByte 0 2 rest h) in
      let len : to_be 4 (length (slice 0 (len_of rest) (drop 6 rest))) ≡ slice 2 6 rest =
        ap (to_be 4) length-body
        ∙ to_be-from_be 4 (slice 2 6 rest) (length-slice 2 6 rest (omega arith) long)
            (All-slice IsByte 2 6 rest h) in
      simp append_assoc (
        rw (tag, len)
          (simp (
            slice_zero-append-drop (len_of rest) (drop 6 rest),
            slice-append-drop 2 6 rest (omega arith),
            slice_zero-append-drop 2 rest,
          )))

-- The bytes that a yielded section took are its frame.
pub next-frame_ok :
    (rest : Bytes) (offset : ℕ) (s : Section) (it : Sections)
    → All IsByte rest
    → next (running rest offset) ≡ (some (ok s), it)
    → IsFramable s
      × (frame s ++ it.rest ≡ rest)
      × (it.failed ≡ false)
      × (length it.rest < length rest)
      × All IsByte it.rest
next-frame_ok rest offset s it h e =
    let (long, allowed, inside, es, eit) = next_ok rest offset s it e in
    rw (es, eit)
      (
        record {
          tag_fits = tag_fits-first rest h long inside;
          allowed = allowed;
          body_fits = rw (length-body rest h long inside) (len_fits-first rest h long inside);
        },
        frame-first rest h long inside,
        refl,
        omega (arith, length-drop 6 rest, length-drop (len_of rest) (drop 6 rest)),
        All-drop IsByte (len_of rest) (drop 6 rest) (All-drop IsByte 6 rest h),
      )
