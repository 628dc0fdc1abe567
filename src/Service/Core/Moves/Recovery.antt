-- ===== src/Service/Core/Moves/Recovery.antt =====
-- When `recover` of crates/stop/src/core.rs lifts a stop.
use tactiq_attest.Base.{
  ℕ, ◌≢◌, ◌%◌, ◌≡◌, refl, ap, ◌∙◌, true, false, Bool, Result, ok, err, ◌==◌, if◌then◌else◌, ==→eq,
  subst, sym,
}
use tactiq_attest.Messages.{Message, odd_epoch}
use tactiq_attest.Crypto.{Ecdsa}
use tactiq_attest.Stop.Record.{running}
use tactiq_attest.Service.Effects.{
  pure, raise, ◌>>=◌, attempt, or_fail, exec-elim, pure-elim, raise-ne-ok, attempt-eq, or_fail-eq,
}
use tactiq_attest.Service.Port.{StopTpm}
use tactiq_attest.Service.Core.{
  Gate, open_gate, stopped_gate, unreleased, gate, Lift, Transition, already_there,
}
use tactiq_attest.Service.Core.Gating.{state_of-even, IsOpen, gate_sound}
use tactiq_attest.Service.Core.Moves.{move_to, recover, lift_at, target_of, unread, no_lift}
use tactiq_attest.Service.Core.Moves.Laws.{epoch_of, move_to_sound}

module _ (ecdsa : Ecdsa) (W : Type 0) (tpm : StopTpm W) where
  lifted_at :
      (from : ℕ) (b : Bool) (w v : W) (t : Transition)
      → (target_of ecdsa W tpm from == from) ≡ b
      → target_of ecdsa W tpm from % 2 ≡ 0
      → (if b then pure (already_there from) else move_to W tpm running) w ≡ (ok t, v)
      → epoch_of t % 2 ≡ 0
  lifted_at from true w v t h even e =
      pure-elim (already_there from) w v e
        λ is _. subst (λ t. epoch_of t % 2 ≡ 0) is (ap (λ n. n % 2) (sym (==→eq _ _ h)) ∙ even)
  lifted_at from false w v t h even e =
      let (s, _, _) = move_to_sound W tpm running w v t e in state_of-even (epoch_of t) s

  lift_at_ok :
      (from : ℕ) (r : Result Message Gate) (w v : W) (t : Transition)
      → lift_at ecdsa W tpm from r w ≡ (ok t, v)
      → target_of ecdsa W tpm from % 2 ≡ 0
      → epoch_of t % 2 ≡ 0
  unfolding lift_at
  lift_at_ok from (ok open_gate) w v t e even =
      lifted_at from (target_of ecdsa W tpm from == from) w v t refl even e
  lift_at_ok from (ok (unreleased why)) w v t e even = absurd (raise-ne-ok _ w v e)
  lift_at_ok from (ok stopped_gate) w v t e even = absurd (raise-ne-ok _ w v e)
  lift_at_ok from (err m) w v t e even = absurd (raise-ne-ok _ w v e)

  lift_at_open :
      (from : ℕ) (r : Result Message Gate) (w v : W) (t : Transition)
      → lift_at ecdsa W tpm from r w ≡ (ok t, v)
      → r ≡ ok open_gate
  unfolding lift_at
  lift_at_open from (ok open_gate) w v t e = refl
  lift_at_open from (ok (unreleased why)) w v t e = absurd (raise-ne-ok _ w v e)
  lift_at_open from (ok stopped_gate) w v t e = absurd (raise-ne-ok _ w v e)
  lift_at_open from (err m) w v t e = absurd (raise-ne-ok _ w v e)

  -- A recovery that succeeds has read the counter, has found the release that the operator signed
  -- for the value it leads to (the counter itself if it is even, its successor if it is odd), and
  -- ends on an even counter.
  pub recover_sound :
      (l : Lift ecdsa W) (w v : W) (t : Transition)
      → recover ecdsa W tpm l w ≡ (ok t, v)
      → (from : ℕ) × (u x : W) × (tpm.read_counter w ≡ (ok from, u))
        × IsOpen ecdsa W l (target_of ecdsa W tpm from) u x
        × (epoch_of t % 2 ≡ 0)
  unfolding recover
  recover_sound l w v t e = exec-elim (or_fail unread tpm.read_counter) _ w v e λ from u read e'.
      exec-elim (attempt (gate ecdsa W l (target_of ecdsa W tpm from))) _ u v e' λ g x gated e''.
        let opened : IsOpen ecdsa W l (target_of ecdsa W tpm from) u x =
          gate_sound ecdsa W l (target_of ecdsa W tpm from) u x
            (attempt-eq _ u x gated ∙ (λ i. (lift_at_open from g x v t e'' i, x))) in
        (
          from,
          u,
          x,
          or_fail-eq unread tpm.read_counter w u read,
          opened,
          lift_at_ok from g x v t e'' opened.even,
        )

  -- When the gate at the target is not open (no release, an odd target, a gate that failed), a
  -- recovery ends in an error that carries the counter read, in the world that the gate left:
  -- nothing is incremented.
  pub recover_refused :
      (l : Lift ecdsa W) (from : ℕ) (r : Result Message Gate) (w u x : W)
      → tpm.read_counter w ≡ (ok from, u)
      → gate ecdsa W l (target_of ecdsa W tpm from) u ≡ (r, x)
      → r ≢ ok open_gate
      → (why : Message) × (recover ecdsa W tpm l w ≡ (err (no_lift ecdsa W tpm from why), x))
  unfolding recover ◌>>=◌ attempt or_fail lift_at raise
  recover_refused l from (ok open_gate) w u x read gated ne = absurd (ne refl)
  recover_refused l from (ok stopped_gate) w u x read gated ne = (odd_epoch, rw (read, gated) refl)
  recover_refused l from (ok (unreleased why)) w u x read gated ne = (why, rw (read, gated) refl)
  recover_refused l from (err m) w u x read gated ne = (m, rw (read, gated) refl)
