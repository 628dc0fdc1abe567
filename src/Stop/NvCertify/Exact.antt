-- ===== src/Stop/NvCertify/Exact.antt =====
-- Encoding and parsing of NV certify sections (crates/attest-stop/src/lib.rs) are inverse.
use tactiq_attest.Base.{
  ◌%◌, ◌^◌, ◌≤◌, Bytes, IsByte, All, [], ◌++◌, ◌≡◌, sym, ap, ◌∙◌, length, to_be, ok, arith,
  ok-injective, bind-eq-ok, pair-bind-eq-ok, append_assoc, append-nil, ◌||◌, ◌==◌, ltb, false, ◌↔◌,
}
use tactiq_attest.Messages.{nv_certify_attest, nv_certify_signature, nv_certify}
use tactiq_attest.Stop.Reader.{take_sized, finish}
use tactiq_attest.Stop.Reader.Laws.{
  sized, IsPart, take_sized-append, take_sized-IsPart, finish-nil, finish_ok,
}
use tactiq_attest.Stop.NvCertify.{NvCertify, encode, parse}

abbrev layout : NvCertify → Bytes
layout c = sized 2 c.attest ++ sized 2 c.sig

pub record IsWellFormed (c : NvCertify) : Type 0 where
  pub some_attest : 1 ≤ length c.attest
  pub attest_fits : length c.attest ≤ 2048
  pub some_sig : 1 ≤ length c.sig
  pub sig_fits : length c.sig ≤ 512

encode-layout : (c : NvCertify) → IsWellFormed c → encode c ≡ ok (layout c)
unfolding encode
encode-layout c w =
    let a : (length c.attest == 0 || ltb 2048 (length c.attest)) ≡ false = ground arith in
    let s : (length c.sig == 0 || ltb 512 (length c.sig)) ≡ false = ground arith in
    let na : length c.attest % 2 ^ 16 ≡ length c.attest = omega arith in
    let ns : length c.sig % 2 ^ 16 ≡ length c.sig = omega arith in
    rw (a, s, na, ns)
      (ap ok (sym (append_assoc (to_be 2 (length c.attest)) c.attest (sized 2 c.sig))))

encode_ok : (c : NvCertify) (b : Bytes) → encode c ≡ ok b → IsWellFormed c
unfolding encode
encode_ok c b e = ground arith

parse_ok :
    (b : Bytes) (c : NvCertify)
    → parse b ≡ ok c
    → (r r' : Bytes) × (take_sized 2 2048 nv_certify_attest b ≡ ok (c.attest, r))
      × (take_sized 2 512 nv_certify_signature r ≡ ok (c.sig, r'))
      × (finish nv_certify r' ≡ ok tt)
unfolding parse
parse_ok b c e =
    let (attest, r, ea, e') = pair-bind-eq-ok (take_sized 2 2048 nv_certify_attest b) _ e in
    let (sig, r', es, e'') = pair-bind-eq-ok (take_sized 2 512 nv_certify_signature r) _ e' in
    let (_, ef, e3) = bind-eq-ok (finish nv_certify r') _ e'' in
    let same = ok-injective e3 in
    (r, r', ea ∙ (λ i. ok ((same i).attest, r)), es ∙ (λ i. ok ((same i).sig, r')), ef)

parse_steps :
    (b : Bytes) (c : NvCertify) (r : Bytes)
    → take_sized 2 2048 nv_certify_attest b ≡ ok (c.attest, r)
    → take_sized 2 512 nv_certify_signature r ≡ ok (c.sig, [])
    → parse b ≡ ok c
unfolding parse
parse_steps b c r e e' = rw (e, e', finish-nil)

-- A certify section that is encoded is read back from what was written.
pub parse-encode_section : (c : NvCertify) (b : Bytes) → encode c ≡ ok b → parse b ≡ ok c
parse-encode_section c b e =
    let w : IsWellFormed c = encode_ok c b e in
    rw (← ok-injective (sym (encode-layout c w) ∙ e)) (
      parse_steps (layout c) c (sized 2 c.sig)
        (take_sized-append 2 c.attest (sized 2 c.sig) 2048 _ w.some_attest w.attest_fits
          (omega arith))
        (rw (← append-nil (sized 2 c.sig))
          (take_sized-append 2 c.sig [] 512 _ w.some_sig w.sig_fits (omega arith))))

-- A parsed certify section encodes to exactly the bytes it was parsed from.
pub encode-parse_section :
    (b : Bytes) (c : NvCertify) → All IsByte b → parse b ≡ ok c → encode c ≡ ok b
encode-parse_section b c h e =
    let (r, r', ea, es, ef) = parse_ok b c e in
    let a : IsPart 2 2048 b c.attest r = take_sized-IsPart 2 2048 _ b c.attest r h ea in
    let s : IsPart 2 512 r c.sig r' = take_sized-IsPart 2 512 _ r c.sig r' a.rest_bytes es in
    let whole : layout c ≡ b =
      ap (λ t. sized 2 c.attest ++ t)
        (sym (append-nil _) ∙ ap (λ t. sized 2 c.sig ++ t) (sym (finish_ok _ r' ef)) ∙ s.whole)
      ∙ a.whole in
    encode-layout c (record {
      some_attest = a.nonempty;
      attest_fits = a.bounded;
      some_sig = s.nonempty;
      sig_fits = s.bounded;
    })
    ∙ ap ok whole

-- Bytes are parsed as a certify section exactly when the section encodes to these bytes.
pub section_exact :
    (b : Bytes) (c : NvCertify) → All IsByte b → (parse b ≡ ok c) ↔ (encode c ≡ ok b)
section_exact b c h = (encode-parse_section b c h, parse-encode_section c b)
