-- ===== src/Tests/StopChecking/Passing.antt =====
-- Receipts of a model service that pass the check of crates/attest-appraise/src/stop.rs.
use tactiq_attest.Base.{
  ℕ, List, Option, ◌≤◌, ◌<◌, ◌^◌, Bytes, [], ◌∷◌, ◌≡◌, ◌↔◌, refl, sym, ap, ◌∙◌, true, false, some,
  none, Result, ok, err, length, replicate, to_be, bytes_eq, bytes_eq→eq, leb, arith, ok-injective,
  err-ne-ok, Bool-cases, inl, inr, length-to_be,
}
use tactiq_attest.Messages.{Message, port_error}
use tactiq_attest.Envelope.Bundle.{Section}
use tactiq_attest.Envelope.Tpm.{Quote, parse_quote}
use tactiq_attest.Stop.Record.{stopped, status, refusal}
use tactiq_attest.Stop.Certify.{NvCertifyInfo, TpmClock, parse_nv_certify_info}
use tactiq_attest.Stop.Certify.Exact as CertifyExact
use tactiq_attest.Service.Core.{Gate, gate, gate_state}
use tactiq_attest.Service.Core.Verified.{IsHonest, IsCertified, IsQuoted, Expects}
use tactiq_attest.Service.Core.Verified.Answers.{admit_refused_verifies, status_answer_verifies}
use tactiq_attest.Appraise.StopCheck.{StopTrust, Slots, verify_stop_receipt}
use tactiq_attest.Appraise.StopCheck.Served.{sent}
use tactiq_attest.Appraise.StopCheck.Placing.{Holds, place_all-Holds}
use tactiq_attest.Appraise.StopCheck.Sound.{IsVouched}
use tactiq_attest.Appraise.StopCheck.Complete.{verify_stop_receipt_exact}
use tactiq_attest.Appraise.StopCheck.Interval.{IsHeld, verify_stop_interval_sound}
use tactiq_attest.Tests.Stopping.{
  hash, ecdsa, Chip, ctx, lift_stop, info, stopped_chip, read_counter_ok,
}
use tactiq_attest.Tests.StopChecking.{
  checking_all, quote_bytes, signing_tpm, trust, refused, refused_passes, answered, answered_later,
  held,
}

abbrev certified : ℕ → Bytes → NvCertifyInfo
certified counter q = record (info counter q) {
  clock = record { clock = 7; reset_count = 1; restart_count = 1; safe = true };
}

certified-IsWellFormed :
    (counter : ℕ) (q : Bytes) → length q ≤ 64 → CertifyExact.IsWellFormed (certified counter q)
unfolding checking_all
certified-IsWellFormed counter q h = record {
  qualified_signer = omega arith;
  extra_data = omega arith;
  clock = record { clock = omega arith; reset_count = omega arith; restart_count = omega arith };
  index_name = omega arith;
  offset = omega arith;
  contents = omega (arith, length-to_be 8 counter);
}

given :
    (a b a' b' : Bytes) (w v : Chip)
    → ◌≡◌ {A = Result Message (Bytes × Bytes) × Chip} (ok (a, b), w) (ok (a', b'), v)
    → (a ≡ a') × (b ≡ b')
given a b a' b' w v e =
    let same : ◌≡◌ {A = Result Message (Bytes × Bytes)} (ok (a, b)) (ok (a', b')) = λ i. (e i).0 in
    let pair : ◌≡◌ {A = Bytes × Bytes} (a, b) (a', b') = ok-injective same in
    (λ i. (pair i).0, λ i. (pair i).1)

failed :
    (a' b' : Bytes) (w v : Chip)
    → ◌≡◌ {A = Result Message (Bytes × Bytes) × Chip} (err (port_error []), w) (ok (a', b'), v)
    → ⊥
failed a' b' w v e =
    let same : ◌≡◌ {A = Result Message (Bytes × Bytes)} (err (port_error [])) (ok (a', b')) =
      λ i. (e i).0 in
    err-ne-ok same

le_of_leb : (m n : ℕ) → leb m n ≡ true → m ≤ n
le_of_leb m n e = ground arith

-- The chip certifies in boot 1, restart 1.
certify_signed :
    (t : StopTrust hash ecdsa) (qd attest sig : Bytes) (w v : Chip)
    → (signing_tpm 7).certify qd w ≡ (ok (attest, sig), v)
    → IsCertified hash ecdsa Chip (signing_tpm 7) ctx t 1 1 attest sig
unfolding checking_all
certify_signed t qd attest sig w v e = elim (Bool-cases (leb (length qd) 64)) [
  | inr p ↦ absurd (failed attest sig w v (rw p at e))
  | inl p ↦
      let (is, signed) = given _ _ attest sig w v (rw p at e) in
      let parsed : parse_nv_certify_info attest ≡ ok (certified w.counter qd) = rw (← is) (
        CertifyExact.parse-build_nv_certify_info_for_tests (certified w.counter qd)
          (certified-IsWellFormed w.counter qd (le_of_leb _ _ p))) in
      record {
        signed = (sig, refl, rw (← signed) refl);
        reset_count =
            λ i h. let same = ok-injective (sym parsed ∙ h) in λ j. (sym same j).clock.reset_count;
        restart_count = λ i h.
            let same = ok-injective (sym parsed ∙ h) in λ j. (sym same j).clock.restart_count;
      }
]

quote_parsed :
    (q : Quote) × (parse_quote (quote_bytes (1 ∷ 0 ∷ 0 ∷ []) (to_be 32 32) (to_be 32 114) 7) ≡ ok q)
unfolding checking_all
quote_parsed = (_, refl)

quote_signed :
    (sent_nonce : Option Bytes) (qd attest sig : Bytes) (w v : Chip)
    → (signing_tpm 7).quote qd ctx.pcr_spec w ≡ (ok (attest, sig), v)
    → IsQuoted hash ecdsa Chip (signing_tpm 7) ctx (trust sent_nonce) 1 1 qd attest sig
unfolding checking_all quote_parsed
quote_signed sent_nonce qd attest sig w v e = elim (Bool-cases (bytes_eq qd (to_be 32 114))) [
  | inr p ↦ absurd (failed attest sig w v (rw p at e))
  | inl p ↦
      let (is, signed) = given _ _ attest sig w v (rw p at e) in
      record {
        signed = (sig, refl, rw (← signed) refl);
        q = quote_parsed.0;
        parsed = ap parse_quote (sym is) ∙ quote_parsed.1;
        extra_data = sym (bytes_eq→eq qd (to_be 32 114) p);
        covered = record {
          alg = 11;
          bits = 1 ∷ 0 ∷ 0 ∷ [];
          rest = [];
          one_bank = refl;
          bank = refl;
          selected_alg = refl;
          selected_bits = refl;
          pcr_digest = refl;
        };
        reset_count = refl;
        restart_count = refl;
      }
]

honest :
    (sent_nonce : Option Bytes)
    → IsHonest hash ecdsa Chip (signing_tpm 7) ctx (trust sent_nonce) 1 1
unfolding checking_all
honest sent_nonce = record {
  certify_signed = certify_signed (trust sent_nonce);
  pcr_read_build = λ d w v e.
      let same : ◌≡◌ {A = Result Message Bytes} (ok (replicate 32 0)) (ok d) = λ i. (e i).0 in
      ap hash (sym (ok-injective same));
  quote_signed = quote_signed sent_nonce;
}

expects : (nonce : Bytes) → Expects hash ecdsa Chip (signing_tpm 7) ctx (trust (sent nonce)) nonce
unfolding checking_all
expects nonce = record {
  device_id = refl;
  pcr_selection = refl;
  bitmap = refl;
  index_name = refl;
  nonce_sent = refl;
  length-sha256 = λ m. length-to_be 32 (length m);
}

read_three : (u : Chip) (n : ℕ) → (signing_tpm 7).read_counter stopped_chip ≡ (ok n, u) → n < 2 ^ 64
read_three u n e = let (same, _) = read_counter_ok stopped_chip u n e in omega arith

admit_refused_verifies_example :
    (counter : ℕ) × (u : Chip) × (clock : TpmClock) × ((signing_tpm 7).read_counter stopped_chip
      ≡ (ok counter, u))
    × (verify_stop_receipt hash ecdsa (refused.0) (trust none)
        ≡ ok (record {
          kind = refusal (replicate 32 1);
          state = stopped;
          stop_epoch = counter;
          policy_digest = replicate 32 9;
          fresh = false;
          clock = clock;
        }))
admit_refused_verifies_example =
    admit_refused_verifies hash ecdsa Chip (signing_tpm 7) ctx (trust none) 1 1 (replicate 32 1)
      (refused.0) stopped_chip stopped_chip (honest none) (expects []) refl refl read_three
      (refused.1)

abbrev nonce : Bytes
nonce = replicate 16 6

status_answer_verifies_example :
    (counter : ℕ) × (g : Gate) × (u x : Chip) × (clock : TpmClock) × ((signing_tpm 7).read_counter
        stopped_chip
      ≡ (ok counter, u))
    × (gate ecdsa Chip lift_stop counter u ≡ (ok g, x))
    × (verify_stop_receipt hash ecdsa (answered.0) (trust (some nonce))
        ≡ ok (record {
          kind = status;
          state = gate_state g;
          stop_epoch = counter;
          policy_digest = replicate 32 9;
          fresh = true;
          clock = clock;
        }))
status_answer_verifies_example =
    status_answer_verifies hash ecdsa Chip (signing_tpm 7) ctx (trust (some nonce)) 1 1 nonce
      (answered.0) stopped_chip stopped_chip (honest (some nonce)) (expects nonce) refl read_three
      (answered.1)

verify_stop_receipt_exact_example :
    (verify_stop_receipt hash ecdsa (refused.0) (trust none) ≡ ok (refused_passes.0))
    ↔ IsVouched hash ecdsa (refused.0) (trust none) (refused_passes.0)
verify_stop_receipt_exact_example =
    verify_stop_receipt_exact hash ecdsa (refused.0) (trust none) (refused_passes.0)

verify_stop_interval_sound_example :
    IsHeld hash ecdsa (answered.0) nonce (answered_later.0) (replicate 16 8) (trust none) (held.0)
verify_stop_interval_sound_example =
    verify_stop_interval_sound hash ecdsa (answered.0) nonce (answered_later.0) (replicate 16 8)
      (trust none) (held.0) (held.1)

abbrev three : List Section
three =
    record { tag = 5; body = 1 ∷ [] }
    ∷ record { tag = 4; body = 2 ∷ [] }
    ∷ record { tag = 6; body = 3 ∷ [] }
    ∷ []

abbrev placed : Slots
placed = record { rec = some (2 ∷ []); cert = some (3 ∷ []); nonce = some (1 ∷ []) }

three_placed : Holds placed three
unfolding checking_all
three_placed = place_all-Holds placed three refl
