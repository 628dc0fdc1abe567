-- ===== src/Appraise/StopCheck/Basis.antt =====
-- What the basis of a finding says of the agent (crates/attest-appraise/src/stop.rs, `StopFinding::basis`).
use tactiq_attest.Base.{
  ℕ, ◌%◌, Bytes, true, false, ◌≡◌, refl, sym, ◌==◌, eq→==, ◌≢◌, ◌∙◌, ap, ==→eq, Bool-cases, inl,
  inr,
}
use tactiq_attest.Crypto.{Ecdsa}
use tactiq_attest.Stop.Record.{State, running, stopped}
use tactiq_attest.Appraise.StopCheck.{
  StopFinding, basis, even_basis, StopBasis, by_counter, is_running, StopTrust,
}
use tactiq_attest.Appraise.StopCheck.Sound.{IsVouched}

module _ (sha256 : Bytes → Bytes) (ecdsa : Ecdsa) where
  even_stopped : (s : State) → even_basis s ≢ is_running → s ≡ stopped
  even_stopped stopped n = refl
  even_stopped running n = absurd (n refl)

  -- A finding whose basis is not that the agent runs says that it is stopped.
  pub not_running-stopped :
      (receipt : Bytes) (t : StopTrust sha256 ecdsa) (f : StopFinding)
      → IsVouched sha256 ecdsa receipt t f
      → basis f ≢ is_running
      → f.state ≡ stopped
  unfolding basis
  not_running-stopped receipt t f v n = elim (Bool-cases (f.stop_epoch % 2 == 1)) [
    | inl p ↦
        v.state
        ∙ v.certify.parity (ap (λ (k : ℕ). k % 2) (sym v.stop_epoch) ∙ ==→eq (f.stop_epoch % 2) 1 p)
    | inr p ↦ even_stopped f.state (rw p at n)
  ]

  even_running : (s : State) → even_basis s ≡ is_running → s ≡ running
  even_running running e = refl
  even_running stopped e = cc

  pub running-even :
      (f : StopFinding) → basis f ≡ is_running → ((f.stop_epoch % 2 ≢ 1) × (f.state ≡ running))
  unfolding basis
  running-even f e = elim (Bool-cases (f.stop_epoch % 2 == 1)) [
    | inl p ↦ absurd (counter_not_running (rw p at e))
    | inr p ↦ (
      (λ odd. not_both (sym (eq→== (f.stop_epoch % 2) 1 odd) ∙ p)),
      even_running f.state (rw p at e),
    )
  ]
    where
      counter_not_running : ◌≡◌ {A = StopBasis} by_counter is_running → ⊥
      counter_not_running h = cc

      not_both : true ≡ false → ⊥
      not_both h = cc
