-- ===== src/Stop/Receipt/Exact.antt =====
-- Encoding and parsing of receipts (crates/attest-stop/src/lib.rs) are inverse.
use tactiq_attest.Base.{
  ℕ, ◌%◌, ◌^◌, ◌≤◌, Bytes, IsByte, All, [], ◌∷◌, ◌++◌, ◌≡◌, refl, sym, ap, ◌∙◌, length, slice, drop,
  byte_at, bytes_eq, bytes_eq_refl, bytes_eq→eq, to_be, ok, arith, ok-injective, bind-eq-ok,
  pair-bind-eq-ok, append-nil, ◌||◌, ◌==◌, ltb, true, false, refuse_if, not, length-append, le→ltb,
  slice-here, All-drop, eq→==, take, ◌↔◌,
}
use tactiq_attest.Messages.{
  missing_magic, unknown_receipt_version, bad_part_length, receipt_message, receipt_quote_attest,
  receipt_quote_signature, receipt_bundle, receipt,
}
use tactiq_attest.Stop.Reader.{take_sized, finish}
use tactiq_attest.Stop.Reader.Laws.{
  sized, take_sized-append, take_sized-IsPart, finish-nil, finish_ok,
}
use tactiq_attest.Stop.Receipt.{Receipt, receipt_magic, encode, parse}

abbrev parts : Receipt → Bytes
parts r = sized 4 r.msg ++ (sized 4 r.quote_attest ++ (sized 4 r.quote_sig ++ sized 4 r.bundle))

abbrev layout : Receipt → Bytes
layout r = receipt_magic ++ (1 ∷ parts r)

pub record IsWellFormed (r : Receipt) : Type 0 where
  pub msg : length r.msg ≡ 93
  pub some_attest : 1 ≤ length r.quote_attest
  pub attest_fits : length r.quote_attest ≤ 2048
  pub some_sig : 1 ≤ length r.quote_sig
  pub sig_fits : length r.quote_sig ≤ 512
  pub some_bundle : 1 ≤ length r.bundle
  pub bundle_fits : length r.bundle ≤ 65536

part_fits :
    (v : Bytes) (max : ℕ)
    → 1 ≤ length v
    → length v ≤ max
    → (length v == 0 || ltb max (length v)) ≡ false
part_fits v max lo hi = ground arith

encode-layout : (r : Receipt) → IsWellFormed r → encode r ≡ ok (layout r)
unfolding encode
encode-layout r w =
    let m : (length r.msg == 93) ≡ true = ground arith in
    let nm : length r.msg % 2 ^ 32 ≡ length r.msg = omega arith in
    let na : length r.quote_attest % 2 ^ 32 ≡ length r.quote_attest = omega arith in
    let ns : length r.quote_sig % 2 ^ 32 ≡ length r.quote_sig = omega arith in
    let nb : length r.bundle % 2 ^ 32 ≡ length r.bundle = omega arith in
    rw (
      m,
      part_fits r.quote_attest 2048 w.some_attest w.attest_fits,
      part_fits r.quote_sig 512 w.some_sig w.sig_fits,
      part_fits r.bundle 65536 w.some_bundle w.bundle_fits,
      nm,
      na,
      ns,
      nb,
    )

encode_ok : (r : Receipt) (b : Bytes) → encode r ≡ ok b → IsWellFormed r
unfolding encode
encode_ok r b e = ground arith

record IsRead (b : Bytes) (r : Receipt) : Type 0 where
  long : 5 ≤ length b
  magic : slice 0 4 b ≡ receipt_magic
  version : byte_at b 4 ≡ 1
  after_msg : Bytes
  after_attest : Bytes
  after_sig : Bytes
  msg : take_sized 4 93 receipt_message (drop 5 b) ≡ ok (r.msg, after_msg)
  msg_len : length r.msg ≡ 93
  quote_attest :
      take_sized 4 2048 receipt_quote_attest after_msg ≡ ok (r.quote_attest, after_attest)
  quote_sig : take_sized 4 512 receipt_quote_signature after_attest ≡ ok (r.quote_sig, after_sig)
  bundle : take_sized 4 65536 receipt_bundle after_sig ≡ ok (r.bundle, [])

refuse_length :
    (v : Bytes)
    → refuse_if (not (length v == 93)) (bad_part_length receipt_message (length v)) ≡ ok tt
    → length v ≡ 93
refuse_length v e = ground arith

parse_head :
    (b : Bytes) (r : Receipt)
    → parse b ≡ ok r
    → (5 ≤ length b) × (bytes_eq (slice 0 4 b) receipt_magic ≡ true) × (byte_at b 4 ≡ 1)
unfolding parse
parse_head b r e = ground arith

parse_ok : (b : Bytes) (r : Receipt) → parse b ≡ ok r → IsRead b r
unfolding parse
parse_ok b r e =
    let (long, magic, version) = parse_head b r e in
    let (_, _, e1) =
      bind-eq-ok
        (refuse_if (ltb (length b) 5 || not (bytes_eq (slice 0 4 b) receipt_magic)) missing_magic) _
        e in
    let (_, _, e2) =
      bind-eq-ok (refuse_if (not (byte_at b 4 == 1)) (unknown_receipt_version (byte_at b 4))) _
        e1 in
    let (msg, r1, em, e3) = pair-bind-eq-ok (take_sized 4 93 receipt_message (drop 5 b)) _ e2 in
    let (_, en, e4) =
      bind-eq-ok (refuse_if (not (length msg == 93)) (bad_part_length receipt_message (length msg)))
        _ e3 in
    let (attest, r2, ea, e5) = pair-bind-eq-ok (take_sized 4 2048 receipt_quote_attest r1) _ e4 in
    let (sig, r3, es, e6) = pair-bind-eq-ok (take_sized 4 512 receipt_quote_signature r2) _ e5 in
    let (bundle, r4, eb, e7) = pair-bind-eq-ok (take_sized 4 65536 receipt_bundle r3) _ e6 in
    let (_, ef, e8) = bind-eq-ok (finish receipt r4) _ e7 in
    let same = ok-injective e8 in
    let last : r4 ≡ [] = finish_ok receipt r4 ef in
    record {
      long = long;
      magic = bytes_eq→eq _ _ magic;
      version = version;
      after_msg = r1;
      after_attest = r2;
      after_sig = r3;
      msg = em ∙ (λ i. ok ((same i).msg, r1));
      msg_len = ap length (sym (ap (λ (x : Receipt). x.msg) same)) ∙ refuse_length msg en;
      quote_attest = ea ∙ (λ i. ok ((same i).quote_attest, r2));
      quote_sig = es ∙ (λ i. ok ((same i).quote_sig, r3));
      bundle = eb ∙ (λ i. ok ((same i).bundle, last i));
    }

parse_read : (b : Bytes) (r : Receipt) → IsRead b r → parse b ≡ ok r
unfolding parse
parse_read b r i =
    let long : ltb (length b) 5 ≡ false = le→ltb _ _ i.long in
    let magic : bytes_eq (slice 0 4 b) receipt_magic ≡ true =
      ap (λ t. bytes_eq t receipt_magic) i.magic ∙ bytes_eq_refl receipt_magic in
    let len : (length r.msg == 93) ≡ true = eq→== _ _ i.msg_len in
    rw (long, magic, i.version, i.msg, len, i.quote_attest, i.quote_sig, i.bundle, finish-nil)

parse-layout : (r : Receipt) → IsWellFormed r → parse (layout r) ≡ ok r
unfolding drop byte_at
parse-layout r w = parse_read (layout r) r (record {
  long = omega (
    arith,
    length-append (to_be 4 (length r.msg)) r.msg,
    length-append (sized 4 r.msg)
        (sized 4 r.quote_attest ++ (sized 4 r.quote_sig ++ sized 4 r.bundle)),
  );
  magic = slice-here 4 receipt_magic (1 ∷ parts r) refl;
  version = refl;
  after_msg = sized 4 r.quote_attest ++ (sized 4 r.quote_sig ++ sized 4 r.bundle);
  after_attest = sized 4 r.quote_sig ++ sized 4 r.bundle;
  after_sig = sized 4 r.bundle;
  msg =
      take_sized-append 4 r.msg _ 93 _ (omega (arith, w.msg)) (omega (arith, w.msg)) (omega arith);
  msg_len = w.msg;
  quote_attest =
      take_sized-append 4 r.quote_attest _ 2048 _ w.some_attest w.attest_fits (omega arith);
  quote_sig = take_sized-append 4 r.quote_sig _ 512 _ w.some_sig w.sig_fits (omega arith);
  bundle =
      ap (take_sized 4 65536 receipt_bundle) (sym (append-nil (sized 4 r.bundle)))
      ∙ take_sized-append 4 r.bundle [] 65536 _ w.some_bundle w.bundle_fits (omega arith);
})

-- A receipt that is encoded is read back from what was written.
pub parse-encode_receipt : (r : Receipt) (b : Bytes) → encode r ≡ ok b → parse b ≡ ok r
parse-encode_receipt r b e =
    let w : IsWellFormed r = encode_ok r b e in
    rw (← ok-injective (sym (encode-layout r w) ∙ e)) (parse-layout r w)

head5 : (b : Bytes) → 5 ≤ length b → slice 0 4 b ++ (byte_at b 4 ∷ drop 5 b) ≡ b
unfolding take drop byte_at
head5 [] h = absurd (omega arith)
head5 (_ ∷ []) h = absurd (omega arith)
head5 (_ ∷ _ ∷ []) h = absurd (omega arith)
head5 (_ ∷ _ ∷ _ ∷ []) h = absurd (omega arith)
head5 (_ ∷ _ ∷ _ ∷ _ ∷ []) h = absurd (omega arith)
head5 (_ ∷ _ ∷ _ ∷ _ ∷ _ ∷ _) h = refl

-- A parsed receipt encodes to exactly the bytes it was parsed from.
pub encode-parse_receipt :
    (b : Bytes) (r : Receipt) → All IsByte b → parse b ≡ ok r → encode r ≡ ok b
encode-parse_receipt b r h e =
    let i : IsRead b r = parse_ok b r e in
    let m = take_sized-IsPart 4 93 _ (drop 5 b) r.msg i.after_msg (All-drop IsByte 5 b h) i.msg in
    let a =
      take_sized-IsPart 4 2048 _ i.after_msg r.quote_attest i.after_attest m.rest_bytes
        i.quote_attest in
    let s =
      take_sized-IsPart 4 512 _ i.after_attest r.quote_sig i.after_sig a.rest_bytes i.quote_sig in
    let u = take_sized-IsPart 4 65536 _ i.after_sig r.bundle [] s.rest_bytes i.bundle in
    let w : IsWellFormed r = record {
      msg = i.msg_len;
      some_attest = a.nonempty;
      attest_fits = a.bounded;
      some_sig = s.nonempty;
      sig_fits = s.bounded;
      some_bundle = u.nonempty;
      bundle_fits = u.bounded;
    } in
    let whole : parts r ≡ drop 5 b =
      rw (sym (append-nil (sized 4 r.bundle)) ∙ u.whole, s.whole, a.whole) m.whole in
    encode-layout r w ∙ ap ok ((λ j. sym i.magic j ++ (sym i.version j ∷ whole j)) ∙ head5 b i.long)

-- Bytes are parsed as a receipt exactly when the receipt encodes to these bytes.
pub receipt_exact : (b : Bytes) (r : Receipt) → All IsByte b → (parse b ≡ ok r) ↔ (encode r ≡ ok b)
receipt_exact b r h = (encode-parse_receipt b r h, parse-encode_receipt r b)
