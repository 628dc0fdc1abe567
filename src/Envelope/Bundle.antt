-- ===== src/Envelope/Bundle.antt =====
-- crates/attest-envelope/src/lib.rs: the container of evidence sections.
pub mod Framing
pub mod Exact
use tactiq_attest.Base.{
  ℕ, zero, suc, ◌+◌, ◌-◌, ◌%◌, ◌^◌, Bytes, ◌≡◌, Bool, true, false, ◌||◌, List, [], ◌∷◌, ◌++◌,
  Option, none, some, length, drop, slice, to_be, from_be, Result, ok, err, ◌>>=◌, ◌==◌, ltb,
  if◌then◌else◌,
}
use tactiq_attest.Messages.{
  R, truncated_section_header, forbidden_tag_at, section_overrun, forbidden_tag, section_too_long,
  out_of_fuel,
}

abbrev pub section_header_len : ℕ
section_header_len = 6

abbrev pub tag_tpm_quote : ℕ
tag_tpm_quote = 1

abbrev pub tag_gpu_attest : ℕ
tag_gpu_attest = 2

abbrev pub tag_cpu_tee : ℕ
tag_cpu_tee = 3

abbrev pub tag_stop_state : ℕ
tag_stop_state = 4

abbrev pub tag_verifier_nonce : ℕ
tag_verifier_nonce = 5

abbrev pub tag_tpm_nv_certify : ℕ
tag_tpm_nv_certify = 6

unfoldable pub tag_forbidden : ℕ → Bool
tag_forbidden tag = tag == 0 || tag == 0xffff

pub record Section : Type 0 where
  pub tag : ℕ
  pub body : Bytes

-- The iterator: what is left, how far it has come, and whether it has failed.
pub record Sections : Type 0 where
  pub rest : Bytes
  pub offset : ℕ
  pub failed : Bool

abbrev pub sections : Bytes → Sections
sections bundle = record { rest = bundle; offset = 0; failed = false }

abbrev is_empty : Bytes → Bool
is_empty [] = true
is_empty (b ∷ bs) = false

-- `Iterator::next`: the item, and the iterator after it.
unfoldable pub next : Sections → Option (R Section) × Sections
unfolding tag_forbidden
next it =
    let tag = from_be (slice 0 2 it.rest) in
    let len = from_be (slice 2 6 it.rest) in
    let after_header = drop section_header_len it.rest in
    let failed = record it { failed = true } in
    if it.failed || is_empty it.rest
    then (none, it)
    else if ltb (length it.rest) section_header_len
    then (
      some (err (truncated_section_header it.offset (length it.rest) section_header_len)),
      failed,
    )
    else if tag_forbidden tag
    then (some (err (forbidden_tag_at tag it.offset)), failed)
    else if ltb (length after_header) len
    then (some (err (section_overrun tag it.offset len (length after_header))), failed)
    else (
      some (ok (record { tag = tag; body = slice 0 len after_header })),
      record it { rest = drop len after_header; offset = it.offset + (section_header_len + len) },
    )

-- The loop of `parse_bundle`, on fuel; `out` is what has been pushed.
collect : ℕ → Sections → List Section → R (List Section)
collect zero it out = err out_of_fuel
collect (suc fuel) it out =
    let (item, it') = next it in
    elim item [ none ↦ ok out | some r ↦ r >>= (λ s. collect fuel it' (out ++ (s ∷ []))) ]

-- A section has six bytes at least, and the end of the bundle takes one more call of `next`.
unfoldable pub parse_bundle : Bytes → R (List Section)
unfolding collect next
parse_bundle bundle = collect (suc (length bundle)) (sections bundle) []

build_loop : Bytes → List Section → R Bytes
build_loop out [] = ok out
build_loop out (s ∷ ss) =
    let rest =
      build_loop (out ++ (to_be 2 s.tag ++ (to_be 4 (length s.body % 2 ^ 32) ++ s.body))) ss in
    if tag_forbidden s.tag
    then err (forbidden_tag s.tag)
    else if ltb (2 ^ 32 - 1) (length s.body)
    then err (section_too_long s.tag (length s.body))
    else rest

unfoldable pub build_bundle : List Section → R Bytes
unfolding build_loop tag_forbidden
build_bundle sections = build_loop [] sections

-- Named on the line of a test, opens what this module keeps shut.
unfoldable pub computing_bundle : Unit {0}
unfolding tag_forbidden next collect parse_bundle build_loop build_bundle
computing_bundle = tt
