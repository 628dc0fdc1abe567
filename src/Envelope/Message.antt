-- ===== src/Envelope/Message.antt =====
-- The signed message of crates/attest-envelope/src/lib.rs: `parse` against the written layout.
use tactiq_attest.Base.{
  ℕ, ◌-◌, ◌^◌, ◌<◌, ◌≡◌, ap, sym, ◌∙◌, ◌++◌, Bytes, IsByte, All, length, take, drop, replicate,
  slice, length-append, length-replicate, slice-skip, slice-here, slice-all, slice-append-drop,
  slice_zero-append-drop, length-slice, All-slice, to_be, from_be, length-to_be, from_be-to_be,
  to_be-from_be, ok, ◌==◌, arith, from_be-lt, Bool-cases, ==→eq, inl, inr, subst, ok-injective,
  err-ne-ok, take-all, length-drop, length-take-min, ◌↔◌,
}
use tactiq_attest.Envelope.{
  AttestationMessage, msg_len, fields_at, parse, pad_id, build_canonical, evidence_digest,
}

-- The 93 bytes of a message: five fields in a row.
abbrev pub layout : AttestationMessage → Bytes
layout m =
    m.device_id ++ (to_be 8 m.counter ++ (m.pcr_selection ++ (m.pcr_hash ++ m.evidence_hash)))

-- The widths of the fields, and a counter of 64 bits.
pub record IsWellFormed (m : AttestationMessage) : Type 0 where
  pub device_id : length m.device_id ≡ 16
  pub counter : m.counter < 2 ^ 64
  pub pcr_selection : length m.pcr_selection ≡ 5
  pub pcr_hash : length m.pcr_hash ≡ 32
  pub evidence_hash : length m.evidence_hash ≡ 32

module _ (a b c d e : Bytes) (ha : length a ≡ 16) (hb : length b ≡ 8) (hc : length c ≡ 5)
    (hd : length d ≡ 32) (he : length e ≡ 32) where
  length_fields : length (a ++ (b ++ (c ++ (d ++ e)))) ≡ 93
  length_fields = omega (
    arith,
    length-append a (b ++ (c ++ (d ++ e))),
    length-append b (c ++ (d ++ e)),
    length-append c (d ++ e),
    length-append d e,
  )

  parse_fields :
      parse (a ++ (b ++ (c ++ (d ++ e))))
      ≡ ok (record {
        device_id = a;
        counter = from_be b;
        pcr_selection = c;
        pcr_hash = d;
        evidence_hash = e;
      })
  unfolding parse
  parse_fields =
      let id : slice 0 16 (a ++ (b ++ (c ++ (d ++ e)))) ≡ a = slice-here 16 a _ (sym ha) in
      let counter : slice 16 24 (a ++ (b ++ (c ++ (d ++ e)))) ≡ b =
        slice-skip 16 24 0 8 a _ (omega arith) (omega arith) ∙ slice-here 8 b _ (sym hb) in
      let selection : slice 24 29 (a ++ (b ++ (c ++ (d ++ e)))) ≡ c =
        slice-skip 24 29 8 13 a _ (omega arith) (omega arith)
        ∙ slice-skip 8 13 0 5 b _ (omega arith) (omega arith)
        ∙ slice-here 5 c _ (sym hc) in
      let hash : slice 29 61 (a ++ (b ++ (c ++ (d ++ e)))) ≡ d =
        slice-skip 29 61 13 45 a _ (omega arith) (omega arith)
        ∙ slice-skip 13 45 5 37 b _ (omega arith) (omega arith)
        ∙ slice-skip 5 37 0 32 c _ (omega arith) (omega arith)
        ∙ slice-here 32 d _ (sym hd) in
      let evidence : slice 61 93 (a ++ (b ++ (c ++ (d ++ e)))) ≡ e =
        slice-skip 61 93 45 77 a _ (omega arith) (omega arith)
        ∙ slice-skip 45 77 37 69 b _ (omega arith) (omega arith)
        ∙ slice-skip 37 69 32 64 c _ (omega arith) (omega arith)
        ∙ slice-skip 32 64 0 32 d _ (omega arith) (omega arith)
        ∙ slice-all 32 e (sym he) in
      rw length_fields (λ i. ok (record {
        device_id = id i;
        counter = from_be (counter i);
        pcr_selection = selection i;
        pcr_hash = hash i;
        evidence_hash = evidence i;
      }))

-- Every message whose fields have their widths is read back from its layout.
pub parse-layout_message : (m : AttestationMessage) → IsWellFormed m → parse (layout m) ≡ ok m
parse-layout_message m w =
    parse_fields m.device_id (to_be 8 m.counter) m.pcr_selection m.pcr_hash m.evidence_hash
      w.device_id (length-to_be 8 m.counter) w.pcr_selection w.pcr_hash w.evidence_hash
    ∙ (λ i. ok (record m { counter = from_be-to_be 8 m.counter w.counter i }))

parse_cases :
    (bytes : Bytes) (m : AttestationMessage)
    → parse bytes ≡ ok m
    → (length bytes ≡ 93) × (fields_at bytes ≡ m)
unfolding parse
parse_cases bytes m e = elim (Bool-cases (length bytes == 93)) [
  | inl p ↦ (==→eq _ _ p, ok-injective (rw p at e))
  | inr p ↦ absurd (err-ne-ok (rw p at e))
]

module _ (bytes : Bytes) (h : All IsByte bytes) (n : length bytes ≡ 93) where
  fields_at-IsWellFormed : IsWellFormed (fields_at bytes)
  fields_at-IsWellFormed = record {
    device_id = length-slice 0 16 bytes (omega arith) (omega arith);
    counter =
        from_be-lt 8 (slice 16 24 bytes) (length-slice 16 24 bytes (omega arith) (omega arith))
          (All-slice IsByte 16 24 bytes h);
    pcr_selection = length-slice 24 29 bytes (omega arith) (omega arith);
    pcr_hash = length-slice 29 61 bytes (omega arith) (omega arith);
    evidence_hash = length-slice 61 (length bytes) bytes (omega arith) (omega arith) ∙ omega arith;
  }

  layout-fields_at : layout (fields_at bytes) ≡ bytes
  layout-fields_at =
      let counter : to_be 8 (from_be (slice 16 24 bytes)) ≡ slice 16 24 bytes =
        to_be-from_be 8 (slice 16 24 bytes) (length-slice 16 24 bytes (omega arith) (omega arith))
          (All-slice IsByte 16 24 bytes h) in
      let evidence : slice 61 (length bytes) bytes ≡ drop 61 bytes =
        take-all _ (drop 61 bytes) (omega (arith, length-drop 61 bytes)) in
      rw (counter, evidence)
        (simp (
          slice-append-drop 29 61 bytes (omega arith),
          slice-append-drop 24 29 bytes (omega arith),
          slice-append-drop 16 24 bytes (omega arith),
          slice_zero-append-drop 16 bytes,
        ))

-- Only inputs of 93 bytes are messages, the fields of a parsed message have their widths, and the
-- fields put together again are the input.
pub layout-parse_message :
    (bytes : Bytes) (m : AttestationMessage)
    → All IsByte bytes
    → parse bytes ≡ ok m
    → (length bytes ≡ msg_len) × IsWellFormed m × (layout m ≡ bytes)
layout-parse_message bytes m h e =
    let (n, f) = parse_cases bytes m e in
    (
      n,
      subst IsWellFormed f (fields_at-IsWellFormed bytes h n),
      ap layout (sym f) ∙ layout-fields_at bytes h n,
    )

pub length-pad_id : (b : Bytes) → length (pad_id b) ≡ 16
unfolding pad_id
length-pad_id b =
    length-append (take 16 b) (replicate (16 - length b) 0)
    ∙ rw length-replicate (ground (arith, length-take-min 16 b))

-- What `parse` makes of a message that `build_canonical` assembled.
module _ (sha256 : Bytes → Bytes) (length-sha256 : (m : Bytes) → length (sha256 m) ≡ 32) where
  abbrev pub built : Bytes → ℕ → Bytes → Bytes → Bytes → AttestationMessage
  built device_id counter pcr_selection pcr_state evidence = record {
    device_id = pad_id device_id;
    counter = counter;
    pcr_selection = pcr_selection;
    pcr_hash = sha256 pcr_state;
    evidence_hash = evidence_digest sha256 evidence;
  }

  -- The message that is built for a 64-bit counter and a selection of five bytes is parsed, with
  -- the device id padded or cut to 16 bytes and the digests of the PCR state and of the evidence
  -- in their places. The digest function gives 32 bytes.
  pub parse-build_canonical :
      (device_id : Bytes) (counter : ℕ) (pcr_selection pcr_state evidence : Bytes)
      → counter < 2 ^ 64
      → length pcr_selection ≡ 5
      → parse (build_canonical sha256 device_id counter pcr_selection pcr_state evidence)
        ≡ ok (built device_id counter pcr_selection pcr_state evidence)
  unfolding build_canonical
  parse-build_canonical device_id counter pcr_selection pcr_state evidence fits five =
      parse-layout_message (built device_id counter pcr_selection pcr_state evidence) (record {
        device_id = length-pad_id device_id;
        counter = fits;
        pcr_selection = five;
        pcr_hash = length-sha256 pcr_state;
        evidence_hash = length-sha256 evidence;
      })

-- Bytes are parsed as a message exactly when the message's fields have their widths and their
-- layout in a row is these bytes.
pub message_exact :
    (bytes : Bytes) (m : AttestationMessage)
    → All IsByte bytes
    → (parse bytes ≡ ok m) ↔ (IsWellFormed m × (layout m ≡ bytes))
message_exact bytes m h = (
  λ e. let (_, w, same) = layout-parse_message bytes m h e in (w, same),
  λ (w, same). subst (λ b. parse b ≡ ok m) same (parse-layout_message m w),
)
