-- ===== src/Service/Core/Signing.antt =====
-- What `sign` of crates/stop/src/core.rs hands out.
use tactiq_attest.Base.{
  Bytes, All, not, ◌≡◌, length, ok, ◌==◌, arith, refuse_if, Bool-cases, inl, inr,
}
use tactiq_attest.Messages.{built_length}
use tactiq_attest.Crypto.{Ecdsa}
use tactiq_attest.Envelope.{msg_len, encode_pcr_selection, build_canonical}
use tactiq_attest.Envelope.Bundle.{build_bundle, parse_bundle}
use tactiq_attest.Envelope.Bundle.Exact.{HasTag16, parse_bundle-build_bundle}
use tactiq_attest.Stop.Record
use tactiq_attest.Stop.Record.{StopRecord}
use tactiq_attest.Stop.Record.Exact
use tactiq_attest.Stop.NvCertify
use tactiq_attest.Stop.NvCertify.{NvCertify}
use tactiq_attest.Stop.Certify.{check_counter_certify, certify_qualifying, stop_quote_qualifying}
use tactiq_attest.Stop.Receipt
use tactiq_attest.Stop.Receipt.{Receipt}
use tactiq_attest.Stop.Receipt.Exact as ReceiptExact
use tactiq_attest.Service.Effects.{exec-elim, lift-elim, lift-bind-elim}
use tactiq_attest.Service.Port.{StopTpm}
use tactiq_attest.Service.Core.{Ctx, sign, stop_sections, stop_records_of, only_record, record_of}

pub stop_sections-HasTag16 :
    (body cert nonce : Bytes) → All HasTag16 (stop_sections body cert nonce)
stop_sections-HasTag16 body cert nonce = elim (Bool-cases (length nonce == 0)) [
  | inl empty ↦ rw empty (omega arith)
  | inr some_nonce ↦ rw some_nonce (omega arith)
]

only_record-stop_sections :
    (body cert nonce : Bytes)
    → only_record (stop_records_of (stop_sections body cert nonce)) ≡ Record.parse body
unfolding only_record stop_records_of
only_record-stop_sections body cert nonce = elim (Bool-cases (length nonce == 0)) [
  | inl empty ↦ rw empty
  | inr some_nonce ↦ rw some_nonce
]

module _ (sha256 : Bytes → Bytes) (ecdsa : Ecdsa) (W : Type 0) (tpm : StopTpm W)
    (ctx : Ctx ecdsa W) where
  -- The parts of a receipt that was signed for `rec` and `nonce`.
  pub record Signs (rec : StopRecord) (nonce receipt : Bytes) : Type 0 where
    pub body : Bytes
    pub c_attest : Bytes
    pub c_sig : Bytes
    pub cert : Bytes
    pub bundle : Bytes
    pub pcr_state : Bytes
    pub q_attest : Bytes
    pub q_sig : Bytes
    pub before_certify : W
    pub after_certify : W
    pub after_read : W
    pub after_quote : W
    pub certify_call :
        tpm.certify (certify_qualifying sha256 body nonce) before_certify
        ≡ (ok (c_attest, c_sig), after_certify)
    pub pcr_read_call : tpm.pcr_read ctx.pcr_spec after_certify ≡ (ok pcr_state, after_read)
    pub quote_call :
        tpm.quote
          (stop_quote_qualifying sha256 (
            build_canonical sha256 ctx.device_id rec.stop_epoch
              (encode_pcr_selection ctx.pcr_alg ctx.pcr_bitmap)
              pcr_state
              bundle))
          ctx.pcr_spec
          after_read
        ≡ (ok (q_attest, q_sig), after_quote)
    pub encoded : Record.encode rec ≡ ok body
    pub checked :
        check_counter_certify c_attest
          (certify_qualifying sha256 body nonce)
          ctx.stop_index_name
          rec.stop_epoch
        ≡ ok tt
    pub certified : NvCertify.encode (record { attest = c_attest; sig = c_sig }) ≡ ok cert
    pub bundled : build_bundle (stop_sections body cert nonce) ≡ ok bundle
    pub container :
        Receipt.encode (record {
          msg =
              build_canonical sha256 ctx.device_id rec.stop_epoch
                (encode_pcr_selection ctx.pcr_alg ctx.pcr_bitmap)
                pcr_state
                bundle;
          quote_attest = q_attest;
          quote_sig = q_sig;
          bundle = bundle;
        })
        ≡ ok receipt

  -- Every receipt that is handed out contains a certify that has passed the check against the stop
  -- counter's name, the record's epoch and the digest of this record and nonce, in a bundle with
  -- the record and the nonce, under a message that covers the bundle.
  pub sign_sound :
      (rec : StopRecord) (nonce receipt : Bytes) (w v : W)
      → sign sha256 ecdsa W tpm ctx rec nonce w ≡ (ok receipt, v)
      → Signs rec nonce receipt
  unfolding sign
  sign_sound rec nonce receipt w v e = lift-bind-elim (Record.encode rec) _ w v e λ body e1 f1.
      exec-elim (tpm.certify (certify_qualifying sha256 body nonce)) _ w v f1 λ c w1 e2 f2.
        lift-bind-elim
          (check_counter_certify c.0 (certify_qualifying sha256 body nonce) ctx.stop_index_name
            rec.stop_epoch)
          _ w1 v f2
          λ _ e3 f3.
            lift-bind-elim (NvCertify.encode (record { attest = c.0; sig = c.1 })) _ w1 v f3
              λ cert e4 f4.
                lift-bind-elim (build_bundle (stop_sections body cert nonce)) _ w1 v f4
                  λ bundle e5 f5.
                    exec-elim (tpm.pcr_read ctx.pcr_spec) _ w1 v f5 λ pcr_state w2 e6 f6.
                      let msg : Bytes =
                        build_canonical sha256 ctx.device_id rec.stop_epoch
                          (encode_pcr_selection ctx.pcr_alg ctx.pcr_bitmap) pcr_state bundle in
                      lift-bind-elim
                        (refuse_if (not (length msg == msg_len))
                          (built_length (length msg) msg_len))
                        _ w2 v f6
                        λ _ e7 f7.
                          exec-elim (tpm.quote (stop_quote_qualifying sha256 msg) ctx.pcr_spec) _ w2
                            v f7
                            λ q w3 e8 f8.
                              lift-elim
                                (Receipt.encode (record {
                                  msg = msg;
                                  quote_attest = q.0;
                                  quote_sig = q.1;
                                  bundle = bundle;
                                }))
                                w3 v f8
                                λ e9 _. record {
                                  body = body;
                                  c_attest = c.0;
                                  c_sig = c.1;
                                  cert = cert;
                                  bundle = bundle;
                                  pcr_state = pcr_state;
                                  q_attest = q.0;
                                  q_sig = q.1;
                                  before_certify = w;
                                  after_certify = w1;
                                  after_read = w2;
                                  after_quote = w3;
                                  certify_call = e2;
                                  pcr_read_call = e6;
                                  quote_call = e8;
                                  encoded = e1;
                                  checked = e3;
                                  certified = e4;
                                  bundled = e5;
                                  container = e9;
                                }

  -- A receipt that was signed for a well-formed record reads back as that record.
  pub record_of-sign :
      (rec : StopRecord) (nonce receipt : Bytes) (w v : W)
      → Exact.IsWellFormed rec
      → sign sha256 ecdsa W tpm ctx rec nonce w ≡ (ok receipt, v)
      → record_of receipt ≡ ok rec
  unfolding record_of
  record_of-sign rec nonce receipt w v wf e =
      let s : Signs rec nonce receipt = sign_sound rec nonce receipt w v e in
      let parsed = ReceiptExact.parse-encode_receipt _ receipt s.container in
      let sections : parse_bundle s.bundle ≡ ok (stop_sections s.body s.cert nonce) =
        parse_bundle-build_bundle _ s.bundle (stop_sections-HasTag16 s.body s.cert nonce)
          s.bundled in
      let body : Record.parse s.body ≡ ok rec = Exact.parse-encode_record rec s.body wf s.encoded in
      rw (parsed, sections, only_record-stop_sections s.body s.cert nonce) body
