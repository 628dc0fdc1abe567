-- ===== src/Appraise/Gate1/Steps.antt =====
-- The steps of gate 1, one after the other (crates/attest-appraise/src/gate1.rs).
use tactiq_attest.Base.{
  Bytes, true, not, ◌≡◌, sym, ◌∙◌, Option, none, some, ok, length, bytes_eq, bytes_eq→eq, map_err,
  ok_or, ok_or-eq-ok, map_err-eq-ok, refuse_if, refuse_unless, bind-elim, then-elim, ok-injective,
}
use tactiq_attest.Messages.{
  not_in_trust_store, malformed_signature, signature_failed, other_evidence,
}
use tactiq_attest.Crypto.{Ecdsa}
use tactiq_attest.Envelope
use tactiq_attest.Envelope.{AttestationMessage, evidence_digest, msg_len}
use tactiq_attest.Envelope.Tpm.{Quote}
use tactiq_attest.Appraise.Gate1.{
  is_malformed, is_unknown_device, is_signature_fail, is_evidence_binding_fail, Authenticated,
  refuse, binding_of, quote_meta_of, TrustEntry, form_of, decode, authenticate_envelope,
}

module _ (sha256 : Bytes → Bytes) (ecdsa : Ecdsa) where
  open ecdsa use {Key, Signature, verify}

  -- The steps of gate 1 that an authenticated envelope has passed.
  pub record Passed (msg_bytes : Bytes) (attest : Option Bytes) (sig_bytes evidence : Bytes)
      (entry_for : Bytes → Option (TrustEntry sha256 ecdsa)) (a : Authenticated) : Type 0 where
    pub msg : AttestationMessage
    pub entry : TrustEntry sha256 ecdsa
    pub vk : Key
    pub signed : Bytes
    pub quote : Option Quote
    pub signature : Signature
    pub parsed : Envelope.parse msg_bytes ≡ ok msg
    pub known : entry_for msg.device_id ≡ some entry
    pub formed : form_of sha256 ecdsa msg msg_bytes entry attest ≡ ok (vk, signed, quote)
    pub decoded : decode sha256 ecdsa sig_bytes ≡ some signature
    pub verified : verify vk signed signature ≡ true
    pub quoted : quote_meta_of sha256 msg msg_bytes quote ≡ ok a.quote_meta
    pub bound : sha256 evidence ≡ msg.evidence_hash
    pub device_id : a.device_id ≡ msg.device_id
    pub counter : a.counter ≡ msg.counter
    pub pcr_selection : a.pcr_selection ≡ msg.pcr_selection
    pub pcr_hash : a.pcr_hash ≡ msg.pcr_hash
    pub carried : a.evidence ≡ evidence
    pub binding : a.binding ≡ binding_of a.quote_meta

  pub authenticate_envelope-Passed :
      (msg_bytes : Bytes) (attest : Option Bytes) (sig_bytes evidence : Bytes)
      (entry_for : Bytes → Option (TrustEntry sha256 ecdsa)) (a : Authenticated)
      → authenticate_envelope sha256 ecdsa msg_bytes attest sig_bytes evidence entry_for ≡ ok a
      → Passed msg_bytes attest sig_bytes evidence entry_for a
  unfolding authenticate_envelope evidence_digest
  authenticate_envelope-Passed msg_bytes attest sig_bytes evidence entry_for a e =
      bind-elim
        (map_err (λ e. record { device_id = none; reason = is_malformed; detail = e })
          (Envelope.parse msg_bytes))
        _ e
        λ msg e1 f1.
          bind-elim
            (ok_or (refuse msg is_unknown_device not_in_trust_store) (entry_for msg.device_id)) _ f1
            λ entry e2 f2.
              bind-elim (form_of sha256 ecdsa msg msg_bytes entry attest) _ f2 λ form e3 f3.
                bind-elim
                  (ok_or (refuse msg is_signature_fail malformed_signature)
                    (decode sha256 ecdsa sig_bytes))
                  _ f3
                  λ sig e4 f4.
                    then-elim
                      (refuse_if (not (verify (form.0) (form.1) sig))
                        (refuse msg is_signature_fail signature_failed))
                      _ f4
                      λ e5 f5.
                        bind-elim (quote_meta_of sha256 msg msg_bytes (form.2)) _ f5 λ meta e6 f6.
                          then-elim
                            (refuse_if (not (bytes_eq (sha256 evidence) msg.evidence_hash)) (
                              refuse msg is_evidence_binding_fail
                                (other_evidence (length evidence))))
                            _ f6
                            λ e7 f7.
                              let same = ok-injective f7 in
                              record {
                                msg = msg;
                                entry = entry;
                                vk = form.0;
                                signed = form.1;
                                quote = form.2;
                                signature = sig;
                                parsed = map_err-eq-ok _ _ e1;
                                known = ok_or-eq-ok _ _ e2;
                                formed = e3;
                                decoded = ok_or-eq-ok _ _ e4;
                                verified = refuse_unless _ _ e5;
                                quoted = e6 ∙ (λ i. ok ((same i).quote_meta));
                                bound = bytes_eq→eq _ _ (refuse_unless _ _ e7);
                                device_id = sym (λ i. (same i).device_id);
                                counter = sym (λ i. (same i).counter);
                                pcr_selection = sym (λ i. (same i).pcr_selection);
                                pcr_hash = sym (λ i. (same i).pcr_hash);
                                carried = sym (λ i. (same i).evidence);
                                binding =
                                    sym (λ i. (same i).binding)
                                    ∙ (λ i. binding_of ((same i).quote_meta));
                              }
