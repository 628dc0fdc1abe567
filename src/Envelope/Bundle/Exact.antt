-- ===== src/Envelope/Bundle/Exact.antt =====
-- Building and parsing bundles (crates/attest-envelope/src/lib.rs) are inverse to one another.
use tactiq_attest.Base.{
  ℕ, zero, suc, ◌+◌, ◌-◌, ◌%◌, ◌^◌, ◌<◌, Bytes, IsByte, All, List, [], ◌∷◌, ◌++◌, ◌≡◌, ◌≢◌, refl,
  sym, ap, ◌∙◌, subst, false, Option, some, none, ok, err, length, arith, append_assoc, append-nil,
  drop, length-drop, Bool-cases, inl, inr, ok-injective, err-ne-ok, err-injective, ltb, ltb→le,
  le→ltb, ◌↔◌,
}
use tactiq_attest.Messages.{Message, R, out_of_fuel}
use tactiq_attest.Envelope.Bundle.{
  Section, Sections, sections, next, tag_forbidden, collect, parse_bundle, build_loop, build_bundle,
}
use tactiq_attest.Envelope.Bundle.Framing.{
  frame, frames, length-frame, IsFramable, running, next-frame, next-frame_ok, next_ok, len_of,
  next-none,
}

-- One round of the loop, by what `next` yields.
collect_end :
    (fuel : ℕ) (it it' : Sections) (out : List Section)
    → next it ≡ (none, it')
    → collect (suc fuel) it out ≡ ok out
unfolding collect
collect_end fuel it it' out e = rw (e, collect)

collect_more :
    (fuel : ℕ) (it it' : Sections) (out : List Section) (s : Section)
    → next it ≡ (some (ok s), it')
    → collect (suc fuel) it out ≡ collect fuel it' (out ++ (s ∷ []))
unfolding collect
collect_more fuel it it' out s e =
    rw (e, collect)
      (ap (λ (n : Option (R Section) × Sections). collect fuel n.1 (out ++ (s ∷ []))) e)

collect_stop :
    (fuel : ℕ) (it it' : Sections) (out : List Section) (m : Message)
    → next it ≡ (some (err m), it')
    → collect (suc fuel) it out ≡ err m
unfolding collect
collect_stop fuel it it' out m e = rw (e, collect)

collect-zero : (it : Sections) (out ss : List Section) → collect zero it out ≡ ok ss → ⊥
unfolding collect
collect-zero it out ss e = cc

next-ne-out_of_fuel :
    (it it' : Sections) (m : Message) → next it ≡ (some (err m), it') → m ≢ out_of_fuel
unfolding next
next-ne-out_of_fuel it it' m e = ground arith

next-end : (offset : ℕ) → next (running [] offset) ≡ (none, running [] offset)
unfolding next
next-end offset = refl

-- Whatever was framed is collected, with fuel above its length.
collect-frames :
    (ss : List Section) (fuel offset : ℕ) (out : List Section)
    → All IsFramable ss
    → length (frames ss) < fuel
    → collect fuel (running (frames ss) offset) out ≡ ok (out ++ ss)
collect-frames ss zero offset out h lt = absurd (omega arith)
collect-frames [] (suc fuel) offset out h lt =
    rw append-nil (collect_end fuel _ _ out (next-end offset))
collect-frames (s ∷ ss) (suc fuel) offset out (hs, hss) lt =
    collect_more fuel _ _ out s (next-frame s (frames ss) offset hs)
    ∙ collect-frames ss fuel (offset + (6 + length s.body)) (out ++ (s ∷ [])) hss
        (omega (arith, length-frame s (frames ss)))
    ∙ ap ok (append_assoc out (s ∷ []) ss)

-- The three ways in which `next` ends.
data Next (it : Sections) : Type 0 where
  ended : (it' : Sections) → next it ≡ (none, it') → Next it
  failed : (m : Message) (it' : Sections) → next it ≡ (some (err m), it') → Next it
  yielded : (s : Section) (it' : Sections) → next it ≡ (some (ok s), it') → Next it

Next-cases : (it : Sections) → Next it
Next-cases it = go (next it) refl
  where
    go : (n : Option (R Section) × Sections) → next it ≡ n → Next it
    go (none, it') p = ended it' p
    go (some (err m), it') p = failed m it' p
    go (some (ok s), it') p = yielded s it' p

-- What was collected is what was framed.
collect_ok :
    (fuel : ℕ) (rest : Bytes) (offset : ℕ) (out ss : List Section)
    → All IsByte rest
    → collect fuel (running rest offset) out ≡ ok ss
    → (ts : List Section) × (ss ≡ out ++ ts) × (frames ts ≡ rest) × All IsFramable ts
collect_ok zero rest offset out ss h e = absurd (collect-zero _ out ss e)
collect_ok (suc fuel) rest offset out ss h e = elim (Next-cases (running rest offset)) [
  | ended it p ↦ (
    [],
    rw append-nil (sym (ok-injective (rw (collect_end fuel _ it out p) at e))),
    sym (next-none rest offset it p),
    tt,
  )
  | failed m it p ↦ absurd (err-ne-ok (rw (collect_stop fuel _ it out m p) at e))
  | yielded s it p ↦
      let (f, whole, alive, _, hr) = next-frame_ok rest offset s it h p in
      let e' : collect fuel it (out ++ (s ∷ [])) ≡ ok ss =
        rw (collect_more fuel _ it out s p) at e in
      let e'' : collect fuel (running it.rest it.offset) (out ++ (s ∷ [])) ≡ ok ss =
        (ap
          (λ b.
            collect fuel (record { rest = it.rest; offset = it.offset; failed = b })
              (out ++ (s ∷ [])))
          (sym alive))
        ∙ e' in
      let (ts, split, framed, all) =
        collect_ok fuel it.rest it.offset (out ++ (s ∷ [])) ss hr e'' in
      (s ∷ ts, split ∙ append_assoc out (s ∷ []) ts, rw framed whole, (f, all))
]

-- The loop does not run out of fuel above the length of what is left.
collect-ne-out_of_fuel :
    (fuel : ℕ) (rest : Bytes) (offset : ℕ) (out : List Section)
    → length rest < fuel
    → collect fuel (running rest offset) out ≢ err out_of_fuel
collect-ne-out_of_fuel zero rest offset out lt = absurd (omega arith)
collect-ne-out_of_fuel (suc fuel) rest offset out lt = elim (Next-cases (running rest offset)) [
  | ended it p ↦ rw (collect_end fuel _ it out p) (λ e. cc)
  | failed m it p ↦
      rw (collect_stop fuel _ it out m p) (λ e. next-ne-out_of_fuel _ it m p (err-injective e))
  | yielded s it p ↦
      let (long, _, _, _, eit) = next_ok rest offset s it p in
      let more : Bytes = drop (len_of rest) (drop 6 rest) in
      rw (collect_more fuel _ it out s p, eit)
        (collect-ne-out_of_fuel fuel more (offset + (6 + len_of rest)) (out ++ (s ∷ []))
          (omega (arith, length-drop 6 rest, length-drop (len_of rest) (drop 6 rest))))
]

parse_bundle-collect :
    (bundle : Bytes) → parse_bundle bundle ≡ collect (suc (length bundle)) (sections bundle) []
unfolding parse_bundle
parse_bundle-collect bundle = refl

build_bundle-loop : (ss : List Section) → build_bundle ss ≡ build_loop [] ss
unfolding build_bundle
build_bundle-loop ss = refl

-- The loop over the sections of a bundle comes to its end: every bundle is parsed or refused
-- within a number of steps that its length bounds.
pub parse_bundle-ne-out_of_fuel : (bundle : Bytes) → parse_bundle bundle ≢ err out_of_fuel
parse_bundle-ne-out_of_fuel bundle =
    rw parse_bundle-collect (collect-ne-out_of_fuel (suc (length bundle)) bundle 0 [] (omega arith))

-- Tags that fit their 16 bits.
abbrev pub HasTag16 : Section → Type 0
HasTag16 s = s.tag < 2 ^ 16

build_loop-frames :
    (ss : List Section) (out : Bytes)
    → All IsFramable ss
    → build_loop out ss ≡ ok (out ++ frames ss)
unfolding build_loop
build_loop-frames [] out h = rw append-nil
build_loop-frames (s ∷ ss) out (f, h) =
    let fits : length s.body % 2 ^ 32 ≡ length s.body = omega (arith, f.body_fits) in
    let short : ltb (2 ^ 32 - 1) (length s.body) ≡ false =
      le→ltb _ _ (omega (arith, f.body_fits)) in
    rw (f.allowed, short, fits)
      (build_loop-frames ss (out ++ frame s) h ∙ ap ok (append_assoc out (frame s) (frames ss)))

build_loop_ok :
    (ss : List Section) (out bytes : Bytes)
    → All HasTag16 ss
    → build_loop out ss ≡ ok bytes
    → All IsFramable ss
unfolding build_loop
build_loop_ok [] out bytes h e = tt
build_loop_ok (s ∷ ss) out bytes (t, h) e = elim (Bool-cases (tag_forbidden s.tag)) [
  | inl bad ↦ absurd (err-ne-ok (rw bad at e))
  | inr good ↦ elim (Bool-cases (ltb (2 ^ 32 - 1) (length s.body))) [
    | inl long ↦ absurd (err-ne-ok (rw (good, long) at e))
    | inr short ↦ (
      record { tag_fits = t; allowed = good; body_fits = omega (arith, ltb→le _ _ short) },
      build_loop_ok ss _ bytes h (rw (good, short) at e),
    )
  ]
]

-- What is built from sections with 16-bit tags is parsed into the same sections.
pub parse_bundle-build_bundle :
    (ss : List Section) (bytes : Bytes)
    → All HasTag16 ss
    → build_bundle ss ≡ ok bytes
    → parse_bundle bytes ≡ ok ss
parse_bundle-build_bundle ss bytes h e =
    let f : All IsFramable ss = build_loop_ok ss [] bytes h (sym (build_bundle-loop ss) ∙ e) in
    let same : frames ss ≡ bytes =
      ok-injective (sym (build_loop-frames ss [] f) ∙ sym (build_bundle-loop ss) ∙ e) in
    subst (λ b. parse_bundle b ≡ ok ss) same
      (parse_bundle-collect (frames ss)
        ∙ collect-frames ss (suc (length (frames ss))) 0 [] f (omega arith))

-- A bundle that is parsed has no forbidden tag and is exactly what building its sections gives:
-- nothing is dropped, reordered or encoded in another way.
pub build_bundle-parse_bundle :
    (bytes : Bytes) (ss : List Section)
    → All IsByte bytes
    → parse_bundle bytes ≡ ok ss
    → All IsFramable ss × (build_bundle ss ≡ ok bytes)
build_bundle-parse_bundle bytes ss h e =
    let (ts, same, framed, f) =
      collect_ok (suc (length bytes)) bytes 0 [] ss h (sym (parse_bundle-collect bytes) ∙ e) in
    rw same (f, build_bundle-loop ts ∙ build_loop-frames ts [] f ∙ ap ok framed)

-- Bytes are parsed into sections exactly when the sections have 16-bit tags and building them
-- gives these bytes: nothing is dropped, reordered or encoded in another way.
pub bundle_exact :
    (bytes : Bytes) (ss : List Section)
    → All IsByte bytes
    → (parse_bundle bytes ≡ ok ss) ↔ (All HasTag16 ss × (build_bundle ss ≡ ok bytes))
bundle_exact bytes ss h = (
  λ e. let (f, built) = build_bundle-parse_bundle bytes ss h e in (tags ss f, built),
  λ (t, e). parse_bundle-build_bundle ss bytes t e,
)
  where
    tags : (ss : List Section) → All IsFramable ss → All HasTag16 ss
    tags [] f = tt
    tags (s ∷ ss) (f, fs) = (f.tag_fits, tags ss fs)
