-- ===== src/Service/Core/Moves.antt =====
-- The operator commands of crates/stop/src/core.rs: `trip`, `recover` and `settle`.
pub mod Laws
pub mod Growth
pub mod Recovery
use tactiq_attest.Base.{
  ℕ, ◌+◌, ◌%◌, ◌^◌, not, Option, none, some, Result, ok, err, ◌==◌, if◌then◌else◌,
}
use tactiq_attest.Messages.{
  Message, no_valid_release, odd_epoch, increment_failed, not_read_back, other_writer,
}
use tactiq_attest.Crypto.{Ecdsa}
use tactiq_attest.Stop.Record.{State, running, stopped}
use tactiq_attest.Service.Effects.{Exec, pure, raise, ◌>>=◌, ◌>>◌, or_fail, attempt}
use tactiq_attest.Service.Port.{StopTpm}
use tactiq_attest.Service.Core.{
  state_of, same_state, Gate, open_gate, stopped_gate, unreleased, gate, Lift, Transition, changed,
  already_there, TransitionError,
}

-- `Result::ok`
abbrev to_option : Result Message ℕ → Option ℕ
to_option (ok n) = some n
to_option (err e) = none

-- `map_err(|e| TransitionError { message: e, now: None })`
abbrev unread : Message → TransitionError
unread e = record { message = e; now = none }

module _ (W : Type 0) (tpm : StopTpm W) where
  -- The closure `fail`: the error, with the counter as it reads now.
  fail : Message → Exec TransitionError W Transition
  fail message = do
    now ← attempt tpm.read_counter
    raise (record { message = message; now = to_option now })

  -- After the second read.
  moved : ℕ → Result Message ℕ → Exec TransitionError W Transition
  moved from (err e) = fail (not_read_back e)
  moved from (ok to) =
      if not (to == (from + 1) % 2 ^ 64)
      then raise (record { message = other_writer from to ((from + 1) % 2 ^ 64); now = some to })
      else pure (changed from to)

  -- After the increment.
  incremented : ℕ → Result Message (Unit {0}) → Exec TransitionError W Transition
  incremented from (err e) = fail (increment_failed e)
  incremented from (ok _) = do to ← attempt tpm.read_counter; moved from to

  pub move_to : State → Exec TransitionError W Transition
  move_to want = do
    from ← or_fail unread tpm.read_counter
    (if same_state (state_of from) want
        then pure (already_there from)
        else (do result ← attempt tpm.increment; incremented from result))

  pub trip : Exec TransitionError W Transition
  trip = move_to stopped

  pub settle : State → Exec TransitionError W Transition
  settle want = move_to want

module _ (ecdsa : Ecdsa) (W : Type 0) (tpm : StopTpm W) where
  -- The value that a lift leads to: this one if it is even, the next one if it is odd.
  abbrev pub target_of : ℕ → ℕ
  target_of from = if same_state (state_of from) running then from else (from + 1) % 2 ^ 64

  -- The closure `refuse`.
  abbrev pub no_lift : ℕ → Message → TransitionError
  no_lift from why = record { message = no_valid_release (target_of from) why; now = some from }

  -- The `match` on the gate at the target.
  lift_at : ℕ → Result Message Gate → Exec TransitionError W Transition
  lift_at from (ok open_gate) =
      if target_of from == from then pure (already_there from) else move_to W tpm running
  lift_at from (ok (unreleased why)) = raise (no_lift from why)
  lift_at from (ok stopped_gate) = raise (no_lift from odd_epoch)
  lift_at from (err e) = raise (no_lift from e)

  pub recover : Lift ecdsa W → Exec TransitionError W Transition
  recover l = do
    from ← or_fail unread tpm.read_counter
    g ← attempt (gate ecdsa W l (target_of from))
    lift_at from g

-- Named on the line of a test, opens what this module keeps shut.
unfoldable pub computing_moves : Unit {0}
unfolding fail moved incremented move_to trip settle lift_at recover
computing_moves = tt
