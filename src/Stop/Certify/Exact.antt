-- ===== src/Stop/Certify/Exact.antt =====
-- `parse_nv_certify_info` of crates/attest-stop/src/lib.rs against the layout of the structure.
use tactiq_attest.Base.{
  ℕ, ◌%◌, ◌^◌, ◌<◌, Bytes, IsByte, All, Bool, true, false, [], ◌++◌, ◌≡◌, refl, sym, ap, ◌∙◌,
  length, replicate, to_be, ok, subst, not, arith, refuse_if, bind-eq-ok, pair-bind-eq-ok,
  then-elim, pair-elim, ok-injective, refuse_other, refuse_nonempty, append-nil, ◌==◌, ◌↔◌,
}
use tactiq_attest.Messages.{certify_short, not_tpm_generated, not_nv_type, certify_trailing}
use tactiq_attest.Wire.{take, number, tpm2b}
use tactiq_attest.Wire.Laws.{
  sized, take-append, number-append, tpm2b-append, take_read, number_read, tpm2b_read,
}
use tactiq_attest.Stop.Certify.{
  TpmClock, NvCertifyInfo, safe_flag, read_clock, parse_nv_certify_info, bool_byte,
  build_nv_certify_info_for_tests,
}

abbrev clock_layout : TpmClock → Bytes → Bytes
clock_layout c rest =
    to_be 8 c.clock
    ++ (to_be 4 c.reset_count ++ (to_be 4 c.restart_count ++ (to_be 1 (bool_byte c.safe) ++ rest)))

-- The structure with a given firmware version of eight bytes.
abbrev pub layout : NvCertifyInfo → Bytes → Bytes
layout i firmware =
    to_be 4 0xff54_4347
    ++ (to_be 2 0x8014
        ++ (sized i.qualified_signer
            ++ (sized i.extra_data
                ++ clock_layout i.clock
                    (firmware ++ (sized i.index_name ++ (to_be 2 i.offset ++ sized i.contents))))))

pub record IsClock (c : TpmClock) : Type 0 where
  pub clock : c.clock < 2 ^ 64
  pub reset_count : c.reset_count < 2 ^ 32
  pub restart_count : c.restart_count < 2 ^ 32

pub record IsWellFormed (i : NvCertifyInfo) : Type 0 where
  pub qualified_signer : length i.qualified_signer < 2 ^ 16
  pub extra_data : length i.extra_data < 2 ^ 16
  pub clock : IsClock i.clock
  pub index_name : length i.index_name < 2 ^ 16
  pub offset : i.offset < 2 ^ 16
  pub contents : length i.contents < 2 ^ 16

safe_flag-bool_byte : (s : Bool) → safe_flag (bool_byte s) ≡ ok s
unfolding safe_flag
safe_flag-bool_byte true = refl
safe_flag-bool_byte false = refl

safe_flag_ok : (v : ℕ) (s : Bool) → safe_flag v ≡ ok s → v ≡ bool_byte s
unfolding safe_flag
safe_flag_ok v s e = ground arith

bool_byte-lt : (s : Bool) → bool_byte s < 256 ^ 1
bool_byte-lt true = omega arith
bool_byte-lt false = omega arith

read_clock-append :
    (c : TpmClock) (rest : Bytes) → IsClock c → read_clock (clock_layout c rest) ≡ ok (c, rest)
unfolding read_clock
read_clock-append c rest w = rw (
  number-append certify_short 8 c.clock
      (to_be 4 c.reset_count ++ (to_be 4 c.restart_count ++ (to_be 1 (bool_byte c.safe) ++ rest)))
      w.clock,
  number-append certify_short 4 c.reset_count
      (to_be 4 c.restart_count ++ (to_be 1 (bool_byte c.safe) ++ rest)) w.reset_count,
  number-append certify_short 4 c.restart_count (to_be 1 (bool_byte c.safe) ++ rest)
      w.restart_count,
  number-append certify_short 1 (bool_byte c.safe) rest (bool_byte-lt c.safe),
  safe_flag-bool_byte c.safe,
)

read_clock_read :
    (b : Bytes) (c : TpmClock) (rest : Bytes)
    → All IsByte b
    → read_clock b ≡ ok (c, rest)
    → IsClock c × (clock_layout c rest ≡ b) × All IsByte rest
unfolding read_clock
read_clock_read b c rest h e =
    let (clock, r1, e1, e2) = pair-bind-eq-ok (number certify_short 8 b) _ e in
    let (reset, r2, e3, e4) = pair-bind-eq-ok (number certify_short 4 r1) _ e2 in
    let (restart, r3, e5, e6) = pair-bind-eq-ok (number certify_short 4 r2) _ e4 in
    let (v, r4, e7, e8) = pair-bind-eq-ok (number certify_short 1 r3) _ e6 in
    let (safe, e9, e10) = bind-eq-ok (safe_flag v) _ e8 in
    let (fits1, whole1, h1) = number_read certify_short 8 clock b r1 h e1 in
    let (fits2, whole2, h2) = number_read certify_short 4 reset r1 r2 h1 e3 in
    let (fits3, whole3, h3) = number_read certify_short 4 restart r2 r3 h2 e5 in
    let (fits4, whole4, h4) = number_read certify_short 1 v r3 r4 h3 e7 in
    let same = ok-injective e10 in
    let whole : clock_layout
          (record { clock = clock; reset_count = reset; restart_count = restart; safe = safe }) r4
        ≡ b =
      rw (← safe_flag_ok v safe e9, whole4, whole3, whole2) whole1 in
    subst (λ (p : TpmClock × Bytes). IsClock p.0 × (clock_layout p.0 p.1 ≡ b) × All IsByte p.1) same
      (record { clock = fits1; reset_count = fits2; restart_count = fits3 }, whole, h4)

-- The reads of `parse_nv_certify_info`, one after the other.
record IsRead (b : Bytes) (i : NvCertifyInfo) : Type 0 where
  r1 : Bytes
  r2 : Bytes
  r3 : Bytes
  r4 : Bytes
  r5 : Bytes
  r6 : Bytes
  r7 : Bytes
  r8 : Bytes
  firmware : Bytes
  magic : number certify_short 4 b ≡ ok (0xff54_4347, r1)
  type : number certify_short 2 r1 ≡ ok (0x8014, r2)
  qualified_signer : tpm2b certify_short r2 ≡ ok (i.qualified_signer, r3)
  extra_data : tpm2b certify_short r3 ≡ ok (i.extra_data, r4)
  clock : read_clock r4 ≡ ok (i.clock, r5)
  skipped : take certify_short 8 r5 ≡ ok (firmware, r6)
  index_name : tpm2b certify_short r6 ≡ ok (i.index_name, r7)
  offset : number certify_short 2 r7 ≡ ok (i.offset, r8)
  contents : tpm2b certify_short r8 ≡ ok (i.contents, [])

parse_read : (b : Bytes) (i : NvCertifyInfo) → IsRead b i → parse_nv_certify_info b ≡ ok i
unfolding parse_nv_certify_info
parse_read b i p = rw (
  p.magic, p.type, p.qualified_signer, p.extra_data, p.clock, p.skipped, p.index_name, p.offset,
  p.contents,
)

parse_ok : (b : Bytes) (i : NvCertifyInfo) → parse_nv_certify_info b ≡ ok i → IsRead b i
unfolding parse_nv_certify_info
parse_ok b i e = pair-elim (number certify_short 4 b) _ e λ magic r1 e1 f1.
    then-elim (refuse_if (not (magic == 0xff54_4347)) not_tpm_generated) _ f1 λ e2 f2.
      pair-elim (number certify_short 2 r1) _ f2 λ t r2 e3 f3.
        then-elim (refuse_if (not (t == 0x8014)) (not_nv_type t)) _ f3 λ e4 f4.
          pair-elim (tpm2b certify_short r2) _ f4 λ signer r3 e5 f5.
            pair-elim (tpm2b certify_short r3) _ f5 λ extra r4 e6 f6.
              pair-elim (read_clock r4) _ f6 λ clock r5 e7 f7.
                pair-elim (take certify_short 8 r5) _ f7 λ firmware r6 e8 f8.
                  pair-elim (tpm2b certify_short r6) _ f8 λ name r7 e9 f9.
                    pair-elim (number certify_short 2 r7) _ f9 λ offset r8 e10 f10.
                      pair-elim (tpm2b certify_short r8) _ f10 λ contents r9 e11 f11.
                        then-elim (refuse_if (not (length r9 == 0)) (certify_trailing (length r9)))
                          _ f11
                          λ e12 f12.
                            let same = ok-injective f12 in
                            let nothing : r9 ≡ [] = refuse_nonempty r9 _ e12 in
                            record {
                              r1 = r1;
                              r2 = r2;
                              r3 = r3;
                              r4 = r4;
                              r5 = r5;
                              r6 = r6;
                              r7 = r7;
                              r8 = r8;
                              firmware = firmware;
                              magic = e1 ∙ (λ j. ok (refuse_other magic _ _ e2 j, r1));
                              type = e3 ∙ (λ j. ok (refuse_other t _ _ e4 j, r2));
                              qualified_signer = e5 ∙ (λ j. ok ((same j).qualified_signer, r3));
                              extra_data = e6 ∙ (λ j. ok ((same j).extra_data, r4));
                              clock = e7 ∙ (λ j. ok ((same j).clock, r5));
                              skipped = e8;
                              index_name = e9 ∙ (λ j. ok ((same j).index_name, r7));
                              offset = e10 ∙ (λ j. ok ((same j).offset, r8));
                              contents = e11 ∙ (λ j. ok ((same j).contents, nothing j));
                            }

-- Every certify structure whose fields fit their widths is parsed, whatever its eight bytes of
-- firmware version.
pub parse_nv_certify_info-layout :
    (i : NvCertifyInfo) (firmware : Bytes)
    → IsWellFormed i
    → length firmware ≡ 8
    → parse_nv_certify_info (layout i firmware) ≡ ok i
parse_nv_certify_info-layout i firmware w h = parse_read (layout i firmware) i (record {
  r1 = _;
  r2 = _;
  r3 = _;
  r4 = _;
  r5 = _;
  r6 = _;
  r7 = _;
  r8 = sized i.contents;
  firmware = firmware;
  magic = number-append certify_short 4 0xff54_4347 _ (omega arith);
  type = number-append certify_short 2 0x8014 _ (omega arith);
  qualified_signer = tpm2b-append certify_short i.qualified_signer _ w.qualified_signer;
  extra_data = tpm2b-append certify_short i.extra_data _ w.extra_data;
  clock =
      read_clock-append i.clock
        (firmware ++ (sized i.index_name ++ (to_be 2 i.offset ++ sized i.contents))) w.clock;
  skipped = take-append certify_short 8 firmware _ (sym h);
  index_name = tpm2b-append certify_short i.index_name _ w.index_name;
  offset = number-append certify_short 2 i.offset (sized i.contents) w.offset;
  contents =
      ap (tpm2b certify_short) (sym (append-nil (sized i.contents)))
      ∙ tpm2b-append certify_short i.contents [] w.contents;
})

-- A certify structure that was parsed has no other bytes than those of its fields and eight of
-- firmware version, and its fields fit their widths.
pub layout-parse_nv_certify_info :
    (b : Bytes) (i : NvCertifyInfo)
    → All IsByte b
    → parse_nv_certify_info b ≡ ok i
    → IsWellFormed i
      × All IsByte i.contents
      × ((firmware : Bytes) × (length firmware ≡ 8) × (layout i firmware ≡ b))
layout-parse_nv_certify_info b i h e =
    let p : IsRead b i = parse_ok b i e in
    let (_, w1, h1) = number_read certify_short 4 _ b p.r1 h p.magic in
    let (_, w2, h2) = number_read certify_short 2 _ p.r1 p.r2 h1 p.type in
    let (s3, w3, _, h3) =
      tpm2b_read certify_short p.r2 i.qualified_signer p.r3 h2 p.qualified_signer in
    let (s4, w4, _, h4) = tpm2b_read certify_short p.r3 i.extra_data p.r4 h3 p.extra_data in
    let (s5, w5, h5) = read_clock_read p.r4 i.clock p.r5 h4 p.clock in
    let (s6, w6, _, h6) = take_read certify_short 8 p.r5 p.firmware p.r6 h5 p.skipped in
    let (s7, w7, _, h7) = tpm2b_read certify_short p.r6 i.index_name p.r7 h6 p.index_name in
    let (s8, w8, h8) = number_read certify_short 2 i.offset p.r7 p.r8 h7 p.offset in
    let (s9, w9, hc, _) = tpm2b_read certify_short p.r8 i.contents [] h8 p.contents in
    (
      record {
        qualified_signer = s3;
        extra_data = s4;
        clock = s5;
        index_name = s7;
        offset = s8;
        contents = s9;
      },
      hc,
      (
        p.firmware,
        s6,
        rw (sym (append-nil (sized i.contents)) ∙ w9, w8, w7, w6, w5, w4, w3, w2) w1,
      ),
    )

-- The structure that the source's test builder writes is the layout with its fixed firmware version.
build_nv_certify_info_for_tests-layout :
    (i : NvCertifyInfo)
    → IsWellFormed i
    → build_nv_certify_info_for_tests i ≡ layout i (replicate 8 0x22)
unfolding build_nv_certify_info_for_tests
build_nv_certify_info_for_tests-layout i w =
    let a : length i.qualified_signer % 2 ^ 16 ≡ length i.qualified_signer =
      omega (arith, w.qualified_signer) in
    let b : length i.extra_data % 2 ^ 16 ≡ length i.extra_data = omega (arith, w.extra_data) in
    let c : length i.index_name % 2 ^ 16 ≡ length i.index_name = omega (arith, w.index_name) in
    let d : length i.contents % 2 ^ 16 ≡ length i.contents = omega (arith, w.contents) in
    rw (a, b, c, d)

-- What the builder for tests writes, for fields that fit their widths, is parsed into the same
-- fields.
pub parse-build_nv_certify_info_for_tests :
    (i : NvCertifyInfo)
    → IsWellFormed i
    → parse_nv_certify_info (build_nv_certify_info_for_tests i) ≡ ok i
parse-build_nv_certify_info_for_tests i w =
    rw (build_nv_certify_info_for_tests-layout i w)
      (parse_nv_certify_info-layout i (replicate 8 0x22) w refl)

-- Bytes are parsed as a certify structure exactly when its fields fit their widths and the bytes
-- are the layout of the fields with some eight bytes of firmware version in their place.
pub parse_nv_certify_info_exact :
    (b : Bytes) (i : NvCertifyInfo)
    → All IsByte b
    → (parse_nv_certify_info b ≡ ok i)
      ↔ (IsWellFormed i × ((firmware : Bytes) × (length firmware ≡ 8) × (layout i firmware ≡ b)))
parse_nv_certify_info_exact b i h = (
  λ e. let (w, _, whole) = layout-parse_nv_certify_info b i h e in (w, whole),
  λ (w, (firmware, eight, same)).
      subst (λ x. parse_nv_certify_info x ≡ ok i) same
        (parse_nv_certify_info-layout i firmware w eight),
)
