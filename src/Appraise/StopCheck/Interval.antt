-- ===== src/Appraise/StopCheck/Interval.antt =====
-- What a stop interval that passes stands on (crates/attest-appraise/src/stop.rs).
use tactiq_attest.Base.{
  ℕ, ◌+◌, ◌%◌, ◌^◌, ◌<◌, Bytes, Bool, true, false, not, ◌≡◌, ◌≢◌, refl, sym, ap, ◌∙◌, some,
  bytes_eq, bytes_eq-ne, ok, ◌==◌, ==→eq, leb, refuse_if, refuse_unless, refuse_other, map_err,
  map_err-eq-ok, bind-elim, then-elim, ok-injective, err-ne-ok, arith, Bool-cases, inl, inr,
}
use tactiq_attest.Messages.{
  Message, first_receipt, second_receipt, interval_nonce_in_trust, interval_same_challenge,
  first_not_counter, second_not_counter, interval_moved, interval_reset, interval_restart,
  interval_not_later,
}
use tactiq_attest.Crypto.{Ecdsa}
use tactiq_attest.Stop.Record.{State, running, stopped}
use tactiq_attest.Appraise.StopCheck.{
  StopFinding, StopBasis, basis, is_by_counter, is_some, StopTrust, verify_stop_receipt,
  StopInterval, held_ms, verify_stop_interval,
}
use tactiq_attest.Appraise.StopCheck.Sound.{IsVouched, verify_stop_receipt_sound}

refuse_not : (b : Bool) (m : Message) → refuse_if b m ≡ ok tt → b ≡ false
refuse_not true m e = absurd (err-ne-ok e)
refuse_not false m e = refl

module _ (sha256 : Bytes → Bytes) (ecdsa : Ecdsa) where
  by_counter_odd :
      (f : StopFinding) → is_by_counter sha256 ecdsa (basis f) ≡ true → f.stop_epoch % 2 ≡ 1
  unfolding basis
  by_counter_odd f e = elim (Bool-cases (f.stop_epoch % 2 == 1)) [
    | inl p ↦ ==→eq _ _ p
    | inr p ↦ absurd (even_no f.state (rw p at e))
  ]
    where
      even_no :
          (s : State)
          → is_by_counter sha256 ecdsa
              (elim s [ running ↦ StopBasis.is_running | stopped ↦ StopBasis.no_release ])
            ≡ true
          → ⊥
      even_no running e = cc
      even_no stopped e = cc

  -- A stop that two receipts vouch for, each bound to its own nonce.
  pub record IsHeld (first first_nonce second second_nonce : Bytes) (t : StopTrust sha256 ecdsa)
      (i : StopInterval sha256 ecdsa) : Type 0 where
    pub a : StopFinding
    pub b : StopFinding
    pub first_vouched : IsVouched sha256 ecdsa first (record t { nonce = some first_nonce }) a
    pub second_vouched : IsVouched sha256 ecdsa second (record t { nonce = some second_nonce }) b
    pub two_challenges : first_nonce ≢ second_nonce
    pub odd : i.stop_epoch % 2 ≡ 1
    pub at_first : a.stop_epoch ≡ i.stop_epoch
    pub at_second : b.stop_epoch ≡ i.stop_epoch
    pub from : i.from ≡ a.clock
    pub to : i.to ≡ b.clock
    pub no_reset : i.from.reset_count ≡ i.to.reset_count
    pub no_restart : i.from.restart_count ≡ i.to.restart_count
    pub later : i.from.clock < i.to.clock

  -- A stop interval that passes has two receipts that pass, each with its own nonce and the nonces
  -- different, both at the same odd counter, in one TPM boot, and the second read later by the
  -- TPM's clock than the first.
  pub verify_stop_interval_sound :
      (first first_nonce second second_nonce : Bytes) (t : StopTrust sha256 ecdsa)
      (i : StopInterval sha256 ecdsa)
      → verify_stop_interval sha256 ecdsa first first_nonce second second_nonce t ≡ ok i
      → IsHeld first first_nonce second second_nonce t i
  unfolding verify_stop_interval
  verify_stop_interval_sound first first_nonce second second_nonce t i e =
      then-elim (refuse_if (is_some sha256 ecdsa t.nonce) interval_nonce_in_trust) _ e λ _ f1.
        then-elim (refuse_if (bytes_eq first_nonce second_nonce) interval_same_challenge) _ f1
          λ e2 f2.
            bind-elim
              (map_err first_receipt
                (verify_stop_receipt sha256 ecdsa first (record t { nonce = some first_nonce })))
              _ f2
              λ a e3 f3.
                bind-elim
                  (map_err second_receipt (
                    verify_stop_receipt sha256 ecdsa second
                      (record t { nonce = some second_nonce })))
                  _ f3
                  λ b e4 f4.
                    then-elim
                      (refuse_if (not (is_by_counter sha256 ecdsa (basis a)))
                        (first_not_counter a.stop_epoch))
                      _ f4
                      λ e5 f5.
                        then-elim
                          (refuse_if (not (is_by_counter sha256 ecdsa (basis b)))
                            (second_not_counter b.stop_epoch))
                          _ f5
                          λ e6 f6.
                            then-elim
                              (refuse_if (not (a.stop_epoch == b.stop_epoch))
                                (interval_moved a.stop_epoch b.stop_epoch))
                              _ f6
                              λ e7 f7.
                                then-elim
                                  (refuse_if (not (a.clock.reset_count == b.clock.reset_count))
                                    (interval_reset a.clock.reset_count b.clock.reset_count))
                                  _ f7
                                  λ e8 f8.
                                    then-elim
                                      (refuse_if
                                        (not (a.clock.restart_count == b.clock.restart_count))
                                        (interval_restart a.clock.restart_count
                                          b.clock.restart_count))
                                      _ f8
                                      λ e9 f9.
                                        then-elim
                                          (refuse_if (leb b.clock.clock a.clock.clock)
                                            (interval_not_later a.clock.clock b.clock.clock))
                                          _ f9
                                          λ e10 f10.
                                            let same = ok-injective f10 in
                                            let epoch : a.stop_epoch ≡ i.stop_epoch =
                                              λ j. (same j).stop_epoch in
                                            let from : a.clock ≡ i.from = λ j. (same j).from in
                                            let to : b.clock ≡ i.to = λ j. (same j).to in
                                            let later : a.clock.clock < b.clock.clock =
                                              not_le _ _ (refuse_not _ _ e10) in
                                            record {
                                              a = a;
                                              b = b;
                                              first_vouched =
                                                  verify_stop_receipt_sound sha256 ecdsa first _ a
                                                    (map_err-eq-ok _ _ e3);
                                              second_vouched =
                                                  verify_stop_receipt_sound sha256 ecdsa second _ b
                                                    (map_err-eq-ok _ _ e4);
                                              two_challenges =
                                                  bytes_eq-ne first_nonce second_nonce
                                                    (refuse_not _ _ e2);
                                              odd =
                                                  ap (λ n. n % 2) (sym epoch)
                                                  ∙ by_counter_odd a (refuse_unless _ _ e5);
                                              at_first = epoch;
                                              at_second = sym (refuse_other _ _ _ e7) ∙ epoch;
                                              from = sym from;
                                              to = sym to;
                                              no_reset =
                                                  (λ j. (sym from j).reset_count)
                                                  ∙ refuse_other _ _ _ e8
                                                  ∙ (λ j. (to j).reset_count);
                                              no_restart =
                                                  (λ j. (sym from j).restart_count)
                                                  ∙ refuse_other _ _ _ e9
                                                  ∙ (λ j. (to j).restart_count);
                                              later = rw (← from, ← to) later;
                                            }
    where
      not_le : (m n : ℕ) → leb m n ≡ false → n < m
      not_le m n e = ground arith

  -- For a stop interval that passes, with the second clock below 2 ^ 64, the subtraction of the
  -- clocks does not wrap: the time held is positive and added to the first clock gives the second.
  pub held_ms_exact :
      (first first_nonce second second_nonce : Bytes) (t : StopTrust sha256 ecdsa)
      (i : StopInterval sha256 ecdsa)
      → verify_stop_interval sha256 ecdsa first first_nonce second second_nonce t ≡ ok i
      → i.to.clock < 2 ^ 64
      → (0 < held_ms sha256 ecdsa i) × (i.from.clock + held_ms sha256 ecdsa i ≡ i.to.clock)
  unfolding held_ms
  held_ms_exact first first_nonce second second_nonce t i e fits =
      let h : IsHeld first first_nonce second second_nonce t i =
        verify_stop_interval_sound first first_nonce second second_nonce t i e in
      let later : i.from.clock < i.to.clock = h.later in (omega arith, omega arith)
