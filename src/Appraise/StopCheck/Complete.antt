-- ===== src/Appraise/StopCheck/Complete.antt =====
-- Every receipt with all that a finding stands on passes (crates/attest-appraise/src/stop.rs).
use tactiq_attest.Base.{
  ℕ, ◌%◌, Bytes, true, false, ◌&&◌, not, ◌≡◌, sym, ap, ◌∙◌, length, bytes_eq, bytes_eq_refl, ok,
  ◌==◌, eq→==, ==→eq, Bool-cases, inl, inr, refuse_if, ◌↔◌,
}
use tactiq_attest.Messages.{nonce_not_status, odd_running}
use tactiq_attest.Crypto.{Ecdsa}
use tactiq_attest.Envelope.{AttestationMessage, evidence_digest}
use tactiq_attest.Envelope.Tpm.{Quote}
use tactiq_attest.Stop.Record.{StopRecord, Kind, status, State, stopped}
use tactiq_attest.Stop.Receipt.{Receipt}
use tactiq_attest.Stop.Certify.{TpmClock}
use tactiq_attest.Appraise.StopCheck.{
  StopFinding, Slots, is_status, says_running, StopTrust, check_quote, check_record, check_certify,
  verify_stop_receipt,
}
use tactiq_attest.Appraise.StopCheck.Parts.{ok-covers, ok-verify}
use tactiq_attest.Appraise.StopCheck.Sound.{
  IsStopQuote, IsStopBundle, IsStopCertify, IsVouched, verify_stop_receipt_sound,
}

same_bytes : (a b : Bytes) → a ≡ b → bytes_eq a b ≡ true
same_bytes a b e = ap (bytes_eq a) (sym e) ∙ bytes_eq_refl a

ok-answers :
    (n : Bytes) (k : Kind)
    → ((length n == 0) ≡ false → k ≡ status)
    → refuse_if (not (length n == 0) && not (is_status k)) nonce_not_status ≡ ok tt
ok-answers n k h = elim (Bool-cases (length n == 0)) [ inl p ↦ rw p | inr p ↦ rw (p, h p) ]

ok-parity :
    (n : ℕ) (s : State)
    → (n % 2 ≡ 1 → s ≡ stopped)
    → refuse_if (n % 2 == 1 && says_running s) odd_running ≡ ok tt
ok-parity n s h = elim (Bool-cases (n % 2 == 1)) [ inl p ↦ rw (p, h (==→eq _ _ p)) | inr p ↦ rw p ]

module _ (sha256 : Bytes → Bytes) (ecdsa : Ecdsa) where
  ok-check_quote :
      (t : StopTrust sha256 ecdsa) (r : Receipt) (msg : AttestationMessage) (q : Quote)
      → IsStopQuote sha256 ecdsa t r msg q
      → check_quote sha256 ecdsa t r msg ≡ ok q
  unfolding check_quote evidence_digest
  ok-check_quote t r msg q s = rw (
    s.parsed,
    ok-verify sha256 ecdsa t.ak.vk r.quote_attest r.quote_sig _ s.signed,
    same_bytes _ _ s.extra_data,
    ok-covers msg q s.covered,
    same_bytes _ _ s.selection,
    same_bytes _ _ s.build,
    same_bytes _ _ s.device,
    same_bytes _ _ s.bundle,
  )

  ok-check_record :
      (t : StopTrust sha256 ecdsa) (r : Receipt) (msg : AttestationMessage) (slots : Slots)
      (body : Bytes) (rec : StopRecord) (nonce_bytes : Bytes)
      → IsStopBundle sha256 ecdsa t r msg slots body rec nonce_bytes
      → check_record sha256 ecdsa t r msg ≡ ok (slots, body, rec, nonce_bytes)
  unfolding check_record
  ok-check_record t r msg slots body rec nonce_bytes s = rw (
    s.parsed,
    s.placed,
    s.stop_record,
    s.record_parsed,
    eq→== _ _ s.epoch,
    s.nonce,
    ok-answers nonce_bytes rec.kind s.answers,
  )

  ok-check_certify :
      (t : StopTrust sha256 ecdsa) (q : Quote) (slots : Slots) (body : Bytes) (rec : StopRecord)
      (nonce_bytes : Bytes) (clock : TpmClock)
      → IsStopCertify sha256 ecdsa t q slots body rec nonce_bytes clock
      → check_certify sha256 ecdsa t q slots body rec nonce_bytes ≡ ok clock
  unfolding check_certify
  ok-check_certify t q slots body rec nonce_bytes clock s = rw (
    s.found,
    s.cert_parsed,
    ok-verify sha256 ecdsa t.ak.vk s.c.attest s.c.sig _ s.signed,
    s.checked,
    ok-parity rec.stop_epoch rec.state s.parity,
    s.info_parsed,
    s.boot,
    s.clock,
  )

  pub verify_stop_receipt_complete :
      (receipt : Bytes) (t : StopTrust sha256 ecdsa) (f : StopFinding)
      → IsVouched sha256 ecdsa receipt t f
      → verify_stop_receipt sha256 ecdsa receipt t ≡ ok f
  unfolding verify_stop_receipt
  verify_stop_receipt_complete receipt t f v =
      rw
        (
          v.receipt_parsed,
          v.msg_parsed,
          ok-check_quote t v.r v.msg v.q v.quote,
          ok-check_record t v.r v.msg v.slots v.body v.rec v.nonce_bytes v.bundle,
          ok-check_certify t v.q v.slots v.body v.rec v.nonce_bytes f.clock v.certify,
        )
        (λ i. ok (record {
          kind = sym v.kind i;
          state = sym v.state i;
          stop_epoch = sym v.stop_epoch i;
          policy_digest = sym v.policy_digest i;
          fresh = sym v.fresh i;
          clock = f.clock;
        }))

  -- A receipt passes with a finding exactly when it has all that the finding stands on: a
  -- container and a message that parse, a quote signed under the key in the stop domain over the
  -- reference build, device and bundle, a bundle with the record at the message's counter and the
  -- nonce that was sent, and a certify signed under the key of this record and nonce, in the boot
  -- of the quote, with no odd counter reported as running.
  pub verify_stop_receipt_exact :
      (receipt : Bytes) (t : StopTrust sha256 ecdsa) (f : StopFinding)
      → (verify_stop_receipt sha256 ecdsa receipt t ≡ ok f) ↔ IsVouched sha256 ecdsa receipt t f
  verify_stop_receipt_exact receipt t f =
      (verify_stop_receipt_sound sha256 ecdsa receipt t f, verify_stop_receipt_complete receipt t f)
