-- ===== src/Appraise/StopCheck/Sound.antt =====
-- What a stop receipt that passes stands on (crates/attest-appraise/src/stop.rs).
use tactiq_attest.Base.{
  ℕ, ◌%◌, Bytes, true, false, ◌&&◌, not, List, ◌≡◌, refl, sym, subst, some, length, bytes_eq,
  bytes_eq→eq, ok, ◌==◌, eq→==, refuse_if, refuse_unless, refuse_other, ok_or, ok_or-eq-ok, map_err,
  map_err-eq-ok, bind-elim, then-elim, ok-injective, err-ne-ok,
}
use tactiq_attest.Messages.{
  stop_quote, nv_certify, in_quote, quote_other_message, quote_other_reference, quote_other_build,
  other_device, bundle_other_hash, no_stop_record, epoch_not_counter, nonce_not_status,
  no_nv_certify, odd_running, two_boots,
}
use tactiq_attest.Crypto.{Ecdsa}
use tactiq_attest.Envelope
use tactiq_attest.Envelope.{AttestationMessage, evidence_digest}
use tactiq_attest.Envelope.Bundle.{Section, parse_bundle}
use tactiq_attest.Envelope.Tpm.{Quote, parse_quote}
use tactiq_attest.Stop.Record
use tactiq_attest.Stop.Record.{
  StopRecord, Kind, status, refusal, State, running, stopped, check_nonce,
}
use tactiq_attest.Stop.NvCertify
use tactiq_attest.Stop.NvCertify.{NvCertify}
use tactiq_attest.Stop.Receipt
use tactiq_attest.Stop.Receipt.{Receipt}
use tactiq_attest.Stop.Certify.{
  TpmClock, same_boot, NvCertifyInfo, parse_nv_certify_info, check_counter_certify,
  certify_qualifying, stop_index_name, stop_quote_qualifying,
}
use tactiq_attest.Appraise.StopCheck.{
  StopFinding, Slots, place_all, no_slots, nonce_of, is_status, says_running, quoted_clock, covers,
  verify, StopTrust, check_quote, check_record, check_certify, verify_stop_receipt,
}
use tactiq_attest.Appraise.StopCheck.Parts.{Covers, covers_ok, IsSignedBy, verify_ok}

module _ (sha256 : Bytes → Bytes) (ecdsa : Ecdsa) where
  -- The quote: under the key, in the stop domain, of the reference build, over this bundle.
  pub record IsStopQuote (t : StopTrust sha256 ecdsa) (r : Receipt) (msg : AttestationMessage)
      (q : Quote) : Type 0 where
    pub parsed : parse_quote r.quote_attest ≡ ok q
    pub signed : IsSignedBy sha256 ecdsa t.ak.vk r.quote_attest r.quote_sig
    pub extra_data : q.extra_data ≡ stop_quote_qualifying sha256 r.msg
    pub covered : Covers msg.pcr_selection msg.pcr_hash q
    pub selection : msg.pcr_selection ≡ t.pcr_selection
    pub build : msg.pcr_hash ≡ t.pcr_composite
    pub device : msg.device_id ≡ t.device_id
    pub bundle : sha256 r.bundle ≡ msg.evidence_hash

  -- The bundle: its sections, the record in them and the nonce.
  pub record IsStopBundle (t : StopTrust sha256 ecdsa) (r : Receipt) (msg : AttestationMessage)
      (slots : Slots) (body : Bytes) (rec : StopRecord) (nonce_bytes : Bytes) : Type 0 where
    pub sections : List Section
    pub parsed : parse_bundle r.bundle ≡ ok sections
    pub placed : place_all no_slots sections ≡ ok slots
    pub stop_record : slots.rec ≡ some body
    pub record_parsed : Record.parse body ≡ ok rec
    pub epoch : rec.stop_epoch ≡ msg.counter
    pub nonce : nonce_of t.nonce slots.nonce ≡ ok nonce_bytes
    pub answers : (length nonce_bytes == 0) ≡ false → rec.kind ≡ status

  -- The certify: under the key, of this record and nonce, in the boot of the quote.
  pub record IsStopCertify (t : StopTrust sha256 ecdsa) (q : Quote) (slots : Slots) (body : Bytes)
      (rec : StopRecord) (nonce_bytes : Bytes) (read_at : TpmClock) : Type 0 where
    pub cert : Bytes
    pub c : NvCertify
    pub info : NvCertifyInfo
    pub found : slots.cert ≡ some cert
    pub cert_parsed : NvCertify.parse cert ≡ ok c
    pub signed : IsSignedBy sha256 ecdsa t.ak.vk c.attest c.sig
    pub checked :
        check_counter_certify c.attest
          (certify_qualifying sha256 body nonce_bytes)
          (stop_index_name sha256)
          rec.stop_epoch
        ≡ ok tt
    pub parity : rec.stop_epoch % 2 ≡ 1 → rec.state ≡ stopped
    pub info_parsed : parse_nv_certify_info c.attest ≡ ok info
    pub boot : same_boot info.clock (quoted_clock q.clock_info) ≡ true
    pub clock : info.clock ≡ read_at

  check_quote_ok :
      (t : StopTrust sha256 ecdsa) (r : Receipt) (msg : AttestationMessage) (q : Quote)
      → check_quote sha256 ecdsa t r msg ≡ ok q
      → IsStopQuote t r msg q
  unfolding check_quote evidence_digest
  check_quote_ok t r msg q e =
      bind-elim (map_err in_quote (parse_quote r.quote_attest)) _ e λ q' e1 f1.
        then-elim (verify sha256 ecdsa t.ak.vk r.quote_attest r.quote_sig stop_quote) _ f1 λ e2 f2.
          then-elim
            (refuse_if (not (bytes_eq q'.extra_data (stop_quote_qualifying sha256 r.msg)))
              quote_other_message)
            _ f2
            λ e3 f3. then-elim (covers msg q') _ f3 λ e4 f4.
              then-elim
                (refuse_if (not (bytes_eq msg.pcr_selection t.pcr_selection)) quote_other_reference)
                _ f4
                λ e5 f5.
                  then-elim
                    (refuse_if (not (bytes_eq msg.pcr_hash t.pcr_composite)) quote_other_build) _ f5
                    λ e6 f6.
                      then-elim
                        (refuse_if (not (bytes_eq msg.device_id t.device_id))
                          (other_device msg.device_id t.device_id))
                        _ f6
                        λ e7 f7.
                          then-elim
                            (refuse_if (not (bytes_eq (sha256 r.bundle) msg.evidence_hash))
                              bundle_other_hash)
                            _ f7
                            λ e8 f8. subst (IsStopQuote t r msg) (ok-injective f8) (record {
                              parsed = map_err-eq-ok _ _ e1;
                              signed = verify_ok sha256 ecdsa _ _ _ _ e2;
                              extra_data = bytes_eq→eq _ _ (refuse_unless _ _ e3);
                              covered = covers_ok msg q' e4;
                              selection = bytes_eq→eq _ _ (refuse_unless _ _ e5);
                              build = bytes_eq→eq _ _ (refuse_unless _ _ e6);
                              device = bytes_eq→eq _ _ (refuse_unless _ _ e7);
                              bundle = bytes_eq→eq _ _ (refuse_unless _ _ e8);
                            })

  is_status→eq : (k : Kind) → is_status k ≡ true → k ≡ status
  is_status→eq status e = refl
  is_status→eq (refusal d) e = cc

  answers_of :
      (n : Bytes) (k : Kind)
      → refuse_if (not (length n == 0) && not (is_status k)) nonce_not_status ≡ ok tt
      → (length n == 0) ≡ false
      → k ≡ status
  answers_of n k e h = is_status→eq k (refuse_unless (is_status k) nonce_not_status (rw h at e))

  check_record_ok :
      (t : StopTrust sha256 ecdsa) (r : Receipt) (msg : AttestationMessage)
      (out : Slots × Bytes × StopRecord × Bytes)
      → check_record sha256 ecdsa t r msg ≡ ok out
      → IsStopBundle t r msg (out.0) (out.1) (out.2) (out.3)
  unfolding check_record
  check_record_ok t r msg out e = bind-elim (parse_bundle r.bundle) _ e λ sections e1 f1.
      bind-elim (place_all no_slots sections) _ f1 λ slots e2 f2.
        bind-elim (ok_or no_stop_record slots.rec) _ f2 λ body e3 f3.
          bind-elim (Record.parse body) _ f3 λ rec e4 f4.
            then-elim (refuse_if (not (rec.stop_epoch == msg.counter)) epoch_not_counter) _ f4
              λ e5 f5. bind-elim (nonce_of t.nonce slots.nonce) _ f5 λ nonce_bytes e6 f6.
                then-elim
                  (refuse_if (not (length nonce_bytes == 0) && not (is_status rec.kind))
                    nonce_not_status)
                  _ f6
                  λ e7 f7.
                    subst
                      (λ (o : Slots × Bytes × StopRecord × Bytes).
                        IsStopBundle t r msg (o.0) (o.1) (o.2) (o.3))
                      (ok-injective f7)
                      (record {
                        sections = sections;
                        parsed = e1;
                        placed = e2;
                        stop_record = ok_or-eq-ok _ _ e3;
                        record_parsed = e4;
                        epoch = refuse_other _ _ _ e5;
                        nonce = e6;
                        answers = answers_of nonce_bytes rec.kind e7;
                      })

  parity_of :
      (n : ℕ) (s : State)
      → refuse_if (n % 2 == 1 && says_running s) odd_running ≡ ok tt
      → n % 2 ≡ 1
      → s ≡ stopped
  parity_of n stopped e h = refl
  parity_of n running e h = absurd (err-ne-ok (rw (eq→== (n % 2) 1 h) at e))

  check_certify_ok :
      (t : StopTrust sha256 ecdsa) (q : Quote) (slots : Slots) (body : Bytes) (rec : StopRecord)
      (nonce_bytes : Bytes) (clock : TpmClock)
      → check_certify sha256 ecdsa t q slots body rec nonce_bytes ≡ ok clock
      → IsStopCertify t q slots body rec nonce_bytes clock
  unfolding check_certify
  check_certify_ok t q slots body rec nonce_bytes clock e =
      bind-elim (ok_or no_nv_certify slots.cert) _ e λ cert e1 f1.
        bind-elim (NvCertify.parse cert) _ f1 λ c e2 f2.
          then-elim (verify sha256 ecdsa t.ak.vk c.attest c.sig nv_certify) _ f2 λ e3 f3.
            then-elim
              (check_counter_certify c.attest (certify_qualifying sha256 body nonce_bytes)
                (stop_index_name sha256) rec.stop_epoch)
              _ f3
              λ e4 f4.
                then-elim
                  (refuse_if (rec.stop_epoch % 2 == 1 && says_running rec.state) odd_running) _ f4
                  λ e5 f5. bind-elim (parse_nv_certify_info c.attest) _ f5 λ i e6 f6.
                    then-elim
                      (refuse_if (not (same_boot i.clock (quoted_clock q.clock_info))) (
                        two_boots i.clock.reset_count i.clock.restart_count q.clock_info.reset_count
                          q.clock_info.restart_count))
                      _ f6
                      λ e7 f7. record {
                        cert = cert;
                        c = c;
                        info = i;
                        found = ok_or-eq-ok _ _ e1;
                        cert_parsed = e2;
                        signed = verify_ok sha256 ecdsa _ _ _ _ e3;
                        checked = e4;
                        parity = parity_of rec.stop_epoch rec.state e5;
                        info_parsed = e6;
                        boot = refuse_unless _ _ e7;
                        clock = ok-injective f7;
                      }

  -- All that a finding stands on.
  pub record IsVouched (receipt : Bytes) (t : StopTrust sha256 ecdsa) (f : StopFinding)
      : Type 0 where
    pub r : Receipt
    pub msg : AttestationMessage
    pub q : Quote
    pub slots : Slots
    pub body : Bytes
    pub rec : StopRecord
    pub nonce_bytes : Bytes
    pub receipt_parsed : Receipt.parse receipt ≡ ok r
    pub msg_parsed : Envelope.parse r.msg ≡ ok msg
    pub quote : IsStopQuote t r msg q
    pub bundle : IsStopBundle t r msg slots body rec nonce_bytes
    pub certify : IsStopCertify t q slots body rec nonce_bytes f.clock
    pub kind : f.kind ≡ rec.kind
    pub state : f.state ≡ rec.state
    pub stop_epoch : f.stop_epoch ≡ rec.stop_epoch
    pub policy_digest : f.policy_digest ≡ rec.policy_digest
    pub fresh : f.fresh ≡ not (length nonce_bytes == 0)

  pub verify_stop_receipt_sound :
      (receipt : Bytes) (t : StopTrust sha256 ecdsa) (f : StopFinding)
      → verify_stop_receipt sha256 ecdsa receipt t ≡ ok f
      → IsVouched receipt t f
  unfolding verify_stop_receipt
  verify_stop_receipt_sound receipt t f e = bind-elim (Receipt.parse receipt) _ e λ r e1 f1.
      bind-elim (Envelope.parse r.msg) _ f1 λ msg e2 f2.
        bind-elim (check_quote sha256 ecdsa t r msg) _ f2 λ q e3 f3.
          bind-elim (check_record sha256 ecdsa t r msg) _ f3 λ out e4 f4.
            bind-elim (check_certify sha256 ecdsa t q (out.0) (out.1) (out.2) (out.3)) _ f4
              λ clock e5 f5.
                let same = ok-injective f5 in
                record {
                  r = r;
                  msg = msg;
                  q = q;
                  slots = out.0;
                  body = out.1;
                  rec = out.2;
                  nonce_bytes = out.3;
                  receipt_parsed = e1;
                  msg_parsed = e2;
                  quote = check_quote_ok t r msg q e3;
                  bundle = check_record_ok t r msg out e4;
                  certify =
                      subst (IsStopCertify t q (out.0) (out.1) (out.2) (out.3))
                        (λ i. (same i).clock)
                        (check_certify_ok t q (out.0) (out.1) (out.2) (out.3) clock e5);
                  kind = sym (λ i. (same i).kind);
                  state = sym (λ i. (same i).state);
                  stop_epoch = sym (λ i. (same i).stop_epoch);
                  policy_digest = sym (λ i. (same i).policy_digest);
                  fresh = sym (λ i. (same i).fresh);
                }
