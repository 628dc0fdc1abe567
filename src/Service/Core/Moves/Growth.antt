-- ===== src/Service/Core/Moves/Growth.antt =====
-- The operator commands of crates/stop/src/core.rs leave the counter where it was or further on.
use tactiq_attest.Base.{ℕ, Result, ok, err}
use tactiq_attest.Messages.{Message}
use tactiq_attest.Crypto.{Ecdsa}
use tactiq_attest.Stop.Record.{State}
use tactiq_attest.Service.Port.{StopTpm}
use tactiq_attest.Service.Core.{Gate, open_gate, stopped_gate, unreleased, Lift}
use tactiq_attest.Service.Core.Moves.{
  fail, moved, incremented, move_to, trip, settle, recover, lift_at,
}
use tactiq_attest.Service.Core.Counter.{
  Grows, IsCounter, pure-Grows, raise-Grows, if-Grows, attempt-Grows, or_fail-Grows, bind-Grows,
}
use tactiq_attest.Service.Core.Counter.Operations.{gate-Grows}

module _ {W : Type 0} {tpm : StopTpm W} {value : W → ℕ} (ecdsa : Ecdsa) (l : Lift ecdsa W)
    (counts : IsCounter W tpm l.release value) where
  fail-Grows : (m : Message) → Grows value (fail W tpm m)
  unfolding fail
  fail-Grows m =
      bind-Grows value _ _ (attempt-Grows value _ _ counts.read_grows) λ now. raise-Grows value _ _

  moved-Grows : (from : ℕ) (r : Result Message ℕ) → Grows value (moved W tpm from r)
  unfolding moved
  moved-Grows from (err m) = fail-Grows _
  moved-Grows from (ok to) = if-Grows value _ _ _ (raise-Grows value _ _) (pure-Grows value _ _)

  incremented-Grows :
      (from : ℕ) (r : Result Message (Unit {0})) → Grows value (incremented W tpm from r)
  unfolding incremented
  incremented-Grows from (err m) = fail-Grows _
  incremented-Grows from (ok done) =
      bind-Grows value _ _ (attempt-Grows value _ _ counts.read_grows) λ to. moved-Grows from to

  pub move_to-Grows : (want : State) → Grows value (move_to W tpm want)
  unfolding move_to
  move_to-Grows want = bind-Grows value _ _ (or_fail-Grows value _ _ counts.read_grows) λ from.
      if-Grows value _ _ _ (pure-Grows value _ _) (
        bind-Grows value _ _ (attempt-Grows value _ _ counts.increment_grows)
          λ r. incremented-Grows from r)

  lift_at-Grows : (from : ℕ) (r : Result Message Gate) → Grows value (lift_at ecdsa W tpm from r)
  unfolding lift_at
  lift_at-Grows from (ok open_gate) = if-Grows value _ _ _ (pure-Grows value _ _) (move_to-Grows _)
  lift_at-Grows from (ok (unreleased why)) = raise-Grows value _ _
  lift_at-Grows from (ok stopped_gate) = raise-Grows value _ _
  lift_at-Grows from (err m) = raise-Grows value _ _

  pub recover-Grows : Grows value (recover ecdsa W tpm l)
  unfolding recover
  recover-Grows = bind-Grows value _ _ (or_fail-Grows value _ _ counts.read_grows) λ from.
      bind-Grows value _ _ (attempt-Grows value _ _ (gate-Grows ecdsa l counts _))
        λ g. lift_at-Grows from g

  pub trip-Grows : Grows value (trip W tpm)
  unfolding trip
  trip-Grows = move_to-Grows _

  pub settle-Grows : (want : State) → Grows value (settle W tpm want)
  unfolding settle
  settle-Grows want = move_to-Grows want
