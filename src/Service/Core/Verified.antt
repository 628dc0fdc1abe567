-- ===== src/Service/Core/Verified.antt =====
-- What the stop service hands out (crates/stop/src/core.rs), checked away from the device
-- (crates/attest-appraise/src/stop.rs).
pub mod Answers
use tactiq_attest.Base.{
  ℕ, ◌+◌, ◌%◌, ◌^◌, ◌<◌, Bytes, [], Bool, true, false, not, ◌≡◌, refl, sym, ap, ◌∙◌, subst, Option,
  none, some, length, ok, ◌==◌, bytes_eq_refl, eq→==, Bool-cases, inl, inr, if◌then◌else◌, arith,
  length-append, length-to_be, to_be,
}
use tactiq_attest.Crypto.{Ecdsa}
use tactiq_attest.Envelope.{
  AttestationMessage, evidence_digest, pad_id, encode_pcr_selection, build_canonical,
}
use tactiq_attest.Envelope.Message.{built, parse-build_canonical}
use tactiq_attest.Envelope.Bundle.Exact.{parse_bundle-build_bundle}
use tactiq_attest.Envelope.Tpm.{Quote, parse_quote}
use tactiq_attest.Stop.Record.{StopRecord, status, refusal, State, stopped, check_nonce}
use tactiq_attest.Stop.Record.Exact
use tactiq_attest.Stop.NvCertify.Exact as NvCertifyExact
use tactiq_attest.Stop.Certify.{
  TpmClock, same_boot, NvCertifyInfo, parse_nv_certify_info, certify_qualifying, stop_index_name,
  stop_quote_qualifying,
}
use tactiq_attest.Stop.Certify.Check.{check_ok}
use tactiq_attest.Stop.Receipt.{Receipt}
use tactiq_attest.Stop.Receipt.Exact as ReceiptExact
use tactiq_attest.Appraise.StopCheck.{
  StopFinding, Slots, place_all, no_slots, nonce_of, quoted_clock, StopTrust, verify_stop_receipt,
}
use tactiq_attest.Appraise.StopCheck.Parts.{Covers, IsSignedBy}
use tactiq_attest.Appraise.StopCheck.Sound.{IsStopQuote, IsStopBundle, IsStopCertify}
use tactiq_attest.Appraise.StopCheck.Complete.{verify_stop_receipt_complete}
use tactiq_attest.Appraise.StopCheck.Served.{sent, place_all-stop_sections, nonce_of-sent}
use tactiq_attest.Service.Port.{StopTpm}
use tactiq_attest.Service.Core.{Ctx, stop_sections}
use tactiq_attest.Service.Core.Signing.{Signs, stop_sections-HasTag16}

length-encode_pcr_selection :
    (alg : ℕ) (bitmap : Bytes) → length bitmap ≡ 3 → length (encode_pcr_selection alg bitmap) ≡ 5
unfolding encode_pcr_selection
length-encode_pcr_selection alg bitmap e =
    omega (arith, length-append (to_be 2 alg) bitmap, length-to_be 2 alg)

same_boot-eq :
    (c d : TpmClock)
    → c.reset_count ≡ d.reset_count
    → c.restart_count ≡ d.restart_count
    → same_boot c d ≡ true
unfolding same_boot
same_boot-eq c d e f = rw (eq→== _ _ e, eq→== _ _ f)

module _ (sha256 : Bytes → Bytes) (ecdsa : Ecdsa) (W : Type 0) (tpm : StopTpm W)
    (ctx : Ctx ecdsa W) where
  -- A structure of the TPM that its key signed in one boot.
  pub record IsCertified (t : StopTrust sha256 ecdsa) (reset restart : ℕ) (attest sig : Bytes)
      : Type 0 where
    pub signed : IsSignedBy sha256 ecdsa t.ak.vk attest sig
    pub reset_count :
        (i : NvCertifyInfo) → parse_nv_certify_info attest ≡ ok i → i.clock.reset_count ≡ reset
    pub restart_count :
        (i : NvCertifyInfo) → parse_nv_certify_info attest ≡ ok i → i.clock.restart_count ≡ restart

  pub record IsQuoted (t : StopTrust sha256 ecdsa) (reset restart : ℕ)
      (qualifying attest sig : Bytes) : Type 0 where
    pub signed : IsSignedBy sha256 ecdsa t.ak.vk attest sig
    pub q : Quote
    pub parsed : parse_quote attest ≡ ok q
    pub extra_data : q.extra_data ≡ qualifying
    pub covered : Covers (encode_pcr_selection ctx.pcr_alg ctx.pcr_bitmap) t.pcr_composite q
    pub reset_count : q.clock_info.reset_count ≡ reset
    pub restart_count : q.clock_info.restart_count ≡ restart

  -- A TPM that signs with the key the verifier holds, on the build that the verifier accepts, in
  -- one boot: what its certifies, its PCR reads and its quotes give.
  pub record IsHonest (t : StopTrust sha256 ecdsa) (reset restart : ℕ) : Type 0 where
    pub certify_signed :
        (qd attest sig : Bytes) (w v : W)
        → tpm.certify qd w ≡ (ok (attest, sig), v)
        → IsCertified t reset restart attest sig
    pub pcr_read_build :
        (d : Bytes) (w v : W) → tpm.pcr_read ctx.pcr_spec w ≡ (ok d, v) → sha256 d ≡ t.pcr_composite
    pub quote_signed :
        (qd attest sig : Bytes) (w v : W)
        → tpm.quote qd ctx.pcr_spec w ≡ (ok (attest, sig), v)
        → IsQuoted t reset restart qd attest sig

  -- What the verifier expects is what the service is configured with.
  pub record Expects (t : StopTrust sha256 ecdsa) (nonce : Bytes) : Type 0 where
    pub device_id : t.device_id ≡ pad_id ctx.device_id
    pub pcr_selection : t.pcr_selection ≡ encode_pcr_selection ctx.pcr_alg ctx.pcr_bitmap
    pub bitmap : length ctx.pcr_bitmap ≡ 3
    pub index_name : ctx.stop_index_name ≡ stop_index_name sha256
    pub nonce_sent : t.nonce ≡ sent nonce
    pub length-sha256 : (m : Bytes) → length (sha256 m) ≡ 32

  module _ (t : StopTrust sha256 ecdsa) (reset restart : ℕ) (honest : IsHonest t reset restart)
      (rec : StopRecord) (nonce receipt : Bytes) (expects : Expects t nonce)
      (s : Signs sha256 ecdsa W tpm ctx rec nonce receipt) where
    abbrev selection : Bytes
    selection = encode_pcr_selection ctx.pcr_alg ctx.pcr_bitmap

    abbrev signed_msg : Bytes
    signed_msg = build_canonical sha256 ctx.device_id rec.stop_epoch selection s.pcr_state s.bundle

    abbrev container : Receipt
    container = record {
      msg = signed_msg;
      quote_attest = s.q_attest;
      quote_sig = s.q_sig;
      bundle = s.bundle;
    }

    abbrev slots : Slots
    slots = record { rec = some s.body; cert = some s.cert; nonce = sent nonce }

    abbrev message : AttestationMessage
    message =
        built sha256 expects.length-sha256 ctx.device_id rec.stop_epoch selection s.pcr_state
          s.bundle

    build_read : sha256 s.pcr_state ≡ t.pcr_composite
    build_read = honest.pcr_read_build s.pcr_state s.after_certify s.after_read s.pcr_read_call

    quote_holds :
        (q : IsQuoted t reset restart (stop_quote_qualifying sha256 signed_msg) s.q_attest s.q_sig)
        → IsStopQuote sha256 ecdsa t container message q.q
    unfolding evidence_digest
    quote_holds q = record {
      parsed = q.parsed;
      signed = q.signed;
      extra_data = q.extra_data;
      covered = subst (λ h. Covers selection h q.q) (sym build_read) q.covered;
      selection = sym expects.pcr_selection;
      build = build_read;
      device = sym expects.device_id;
      bundle = refl;
    }

    bundle_holds :
        Exact.IsWellFormed rec
        → ((length nonce == 0) ≡ false → (check_nonce nonce ≡ ok tt) × (rec.kind ≡ status))
        → IsStopBundle sha256 ecdsa t container message slots s.body rec nonce
    bundle_holds wf answers = record {
      sections = stop_sections s.body s.cert nonce;
      parsed =
          parse_bundle-build_bundle _ s.bundle (stop_sections-HasTag16 s.body s.cert nonce)
            s.bundled;
      placed = place_all-stop_sections s.body s.cert nonce;
      stop_record = refl;
      record_parsed = Exact.parse-encode_record rec s.body wf s.encoded;
      epoch = refl;
      nonce = rw expects.nonce_sent (nonce_of-sent nonce (λ h. (answers h).0));
      answers = λ h. (answers h).1;
    }

    certify_holds :
        (q : IsQuoted t reset restart (stop_quote_qualifying sha256 signed_msg) s.q_attest s.q_sig)
        → (rec.stop_epoch % 2 ≡ 1 → rec.state ≡ stopped)
        → (i : NvCertifyInfo) → parse_nv_certify_info s.c_attest ≡ ok i
        → IsStopCertify sha256 ecdsa t q.q slots s.body rec nonce i.clock
    certify_holds q parity i parsed =
        let c : IsCertified t reset restart s.c_attest s.c_sig =
          honest.certify_signed _ _ _ s.before_certify s.after_certify s.certify_call in
        record {
          cert = s.cert;
          c = record { attest = s.c_attest; sig = s.c_sig };
          info = i;
          found = refl;
          cert_parsed = NvCertifyExact.parse-encode_section _ s.cert s.certified;
          signed = c.signed;
          checked = rw (← expects.index_name) s.checked;
          parity = parity;
          info_parsed = parsed;
          boot =
              same_boot-eq i.clock (quoted_clock q.q.clock_info)
                (c.reset_count i parsed ∙ sym q.reset_count)
                (c.restart_count i parsed ∙ sym q.restart_count);
          clock = refl;
        }

    pub signed_verifies :
        Exact.IsWellFormed rec
        → ((length nonce == 0) ≡ false → (check_nonce nonce ≡ ok tt) × (rec.kind ≡ status))
        → (rec.stop_epoch % 2 ≡ 1 → rec.state ≡ stopped)
        → (clock : TpmClock) × (verify_stop_receipt sha256 ecdsa receipt t
            ≡ ok (record {
              kind = rec.kind;
              state = rec.state;
              stop_epoch = rec.stop_epoch;
              policy_digest = rec.policy_digest;
              fresh = not (length nonce == 0);
              clock = clock;
            }))
    signed_verifies wf answers parity =
        let q : IsQuoted t reset restart (stop_quote_qualifying sha256 signed_msg) s.q_attest
            s.q_sig =
          honest.quote_signed _ _ _ s.after_read s.after_quote s.quote_call in
        let (i, parsed, _, _, _, _, _) = check_ok s.c_attest _ _ _ s.checked in
        (
          i.clock,
          verify_stop_receipt_complete sha256 ecdsa receipt t _ (record {
            r = container;
            msg = message;
            q = q.q;
            slots = slots;
            body = s.body;
            rec = rec;
            nonce_bytes = nonce;
            receipt_parsed = ReceiptExact.parse-encode_receipt _ receipt s.container;
            msg_parsed =
                parse-build_canonical sha256 expects.length-sha256 ctx.device_id rec.stop_epoch
                  selection s.pcr_state s.bundle wf.stop_epoch
                  (length-encode_pcr_selection ctx.pcr_alg ctx.pcr_bitmap expects.bitmap);
            quote = quote_holds q;
            bundle = bundle_holds wf answers;
            certify = certify_holds q parity i parsed;
            kind = refl;
            state = refl;
            stop_epoch = refl;
            policy_digest = refl;
            fresh = refl;
          }),
        )
