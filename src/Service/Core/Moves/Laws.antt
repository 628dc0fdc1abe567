-- ===== src/Service/Core/Moves/Laws.antt =====
-- What the operator commands of crates/stop/src/core.rs establish when they succeed.
use tactiq_attest.Base.{
  ℕ, ◌≤◌, ◌+◌, ◌%◌, ◌^◌, ◌≡◌, ◌≢◌, refl, ap, ◌∙◌, true, false, not, Result, ok, err, ◌==◌,
  if◌then◌else◌, arith, ==→eq, Bool, subst, some,
}
use tactiq_attest.Messages.{Message, other_writer}
use tactiq_attest.Stop.Record.{State, running, stopped}
use tactiq_attest.Service.Effects.{
  pure, raise, ◌>>=◌, attempt, or_fail, exec-elim, pure-elim, raise-ne-ok, attempt-eq, or_fail-eq,
}
use tactiq_attest.Service.Port.{StopTpm, ReleaseStore}
use tactiq_attest.Service.Core.Counter.{IsCounter}
use tactiq_attest.Service.Core.{
  state_of, same_state, Transition, changed, already_there, TransitionError,
}
use tactiq_attest.Service.Core.Gating.{state_of-odd}
use tactiq_attest.Service.Core.Moves.{settle, fail, moved, incremented, move_to, trip, unread}

-- The counter that a command ended on.
abbrev pub epoch_of : Transition → ℕ
epoch_of (changed from to) = to
epoch_of (already_there at) = at

-- A reported change is one increment, from the other state.
abbrev pub IsOneStep : State → Transition → Type 0
IsOneStep want (changed from to) = (to ≡ (from + 1) % 2 ^ 64) × (state_of from ≢ want)
IsOneStep want (already_there at) = Unit

same_state→eq : (s t : State) → same_state s t ≡ true → s ≡ t
same_state→eq s t e = ground arith

same_state→ne : (s t : State) → same_state s t ≡ false → s ≢ t
same_state→ne s t e = ground arith

-- The parity changes with an increment, also at the wrap-around.
state_of-suc : (n : ℕ) (want : State) → state_of n ≢ want → state_of ((n + 1) % 2 ^ 64) ≡ want
unfolding state_of
state_of-suc n running h = ground arith
state_of-suc n stopped h = ground arith

module _ (W : Type 0) (tpm : StopTpm W) where
  fail_never : (m : Message) (w v : W) (t : Transition) → fail W tpm m w ≡ (ok t, v) → ⊥
  unfolding fail
  fail_never m w v t e =
      exec-elim (attempt tpm.read_counter) _ w v e λ now u _ e'. raise-ne-ok _ u v e'

  -- What was read and written on the way.
  abbrev pub Went : W → W → Transition → Type 0
  Went w v (changed from to) =
      (u x : W) × (tpm.read_counter w ≡ (ok from, u))
      × (tpm.increment u ≡ (ok tt, x))
      × (tpm.read_counter x ≡ (ok to, v))
  Went w v (already_there at) = tpm.read_counter w ≡ (ok at, v)

  moved_here :
      (from to : ℕ) (b : Bool) (w v : W) (t : Transition)
      → (to == (from + 1) % 2 ^ 64) ≡ b
      → (if not b
            then raise {E = TransitionError}
                (record { message = other_writer from to ((from + 1) % 2 ^ 64); now = some to })
            else pure (changed from to))
          w
        ≡ (ok t, v)
      → (to ≡ (from + 1) % 2 ^ 64) × (changed from to ≡ t) × (w ≡ v)
  moved_here from to true w v t h e =
      pure-elim (changed from to) w v e λ same there. (==→eq _ _ h, same, there)
  moved_here from to false w v t h e = absurd (raise-ne-ok _ w v e)

  moved_ok :
      (from : ℕ) (r : Result Message ℕ) (w v : W) (t : Transition)
      → moved W tpm from r w ≡ (ok t, v)
      → (to : ℕ) × (r ≡ ok to) × (to ≡ (from + 1) % 2 ^ 64) × (changed from to ≡ t) × (w ≡ v)
  unfolding moved
  moved_ok from (err m) w v t e = absurd (fail_never _ w v t e)
  moved_ok from (ok to) w v t e =
      let (n, same, there) = moved_here from to (to == (from + 1) % 2 ^ 64) w v t refl e in
      (to, refl, n, same, there)

  incremented_ok :
      (want : State) (from : ℕ) (r : Result Message (Unit {0})) (w u x v : W) (t : Transition)
      → state_of from ≢ want
      → tpm.read_counter w ≡ (ok from, u)
      → tpm.increment u ≡ (r, x)
      → incremented W tpm from r x ≡ (ok t, v)
      → (state_of (epoch_of t) ≡ want) × IsOneStep want t × Went w v t
  unfolding incremented
  incremented_ok want from (err m) w u x v t ne read inc e = absurd (fail_never _ x v t e)
  incremented_ok want from (ok done) w u x v t ne read inc e =
      exec-elim (attempt tpm.read_counter) _ x v e λ r y again e'.
        let (to, same, next, is, there) = moved_ok from r y v t e' in
        subst (λ t. (state_of (epoch_of t) ≡ want) × IsOneStep want t × Went w v t) is
          (
            ap state_of next ∙ state_of-suc from want ne,
            (next, ne),
            (u, x, read, inc, attempt-eq tpm.read_counter x y again ∙ (λ i. (same i, there i))),
          )

  move_at :
      (want : State) (from : ℕ) (b : Bool) (w u v : W) (t : Transition)
      → same_state (state_of from) want ≡ b
      → tpm.read_counter w ≡ (ok from, u)
      → (if b
            then pure (already_there from)
            else (do result ← attempt tpm.increment; incremented W tpm from result))
          u
        ≡ (ok t, v)
      → (state_of (epoch_of t) ≡ want) × IsOneStep want t × Went w v t
  move_at want from true w u v t h read e = pure-elim (already_there from) u v e λ is there.
      subst (λ t. (state_of (epoch_of t) ≡ want) × IsOneStep want t × Went w v t) is
        (same_state→eq (state_of from) want h, tt, read ∙ (λ i. (ok from, there i)))
  move_at want from false w u v t h read e = exec-elim (attempt tpm.increment) _ u v e λ r x inc e'.
      incremented_ok want from r w u x v t (same_state→ne (state_of from) want h) read
        (attempt-eq tpm.increment u x inc) e'

  -- A move to a state that succeeds ends on a counter of that state: either the counter that was
  -- read had it and nothing else was done, or it had the other state, was incremented once, and
  -- the second read gave its successor modulo 2 ^ 64.
  pub move_to_sound :
      (want : State) (w v : W) (t : Transition)
      → move_to W tpm want w ≡ (ok t, v)
      → (state_of (epoch_of t) ≡ want) × IsOneStep want t × Went w v t
  unfolding move_to
  move_to_sound want w v t e = exec-elim (or_fail unread tpm.read_counter) _ w v e λ from u read e'.
      move_at want from (same_state (state_of from) want) w u v t refl
        (or_fail-eq unread tpm.read_counter w u read) e'

  -- A trip that succeeds ends on an odd counter: either the counter that was read was odd and
  -- nothing else was done, or it was even, was incremented once, and the second read gave its
  -- successor.
  pub trip_sound :
      (w v : W) (t : Transition)
      → trip W tpm w ≡ (ok t, v)
      → (epoch_of t % 2 ≡ 1) × IsOneStep stopped t × Went w v t
  unfolding trip
  trip_sound w v t e =
      let (s, one, went) = move_to_sound stopped w v t e in (state_of-odd (epoch_of t) s, one, went)

  pub settle_sound :
      (want : State) (w v : W) (t : Transition)
      → settle W tpm want w ≡ (ok t, v)
      → (state_of (epoch_of t) ≡ want) × IsOneStep want t × Went w v t
  unfolding settle
  settle_sound = move_to_sound

  -- The counter has reached the value that a move reports.
  pub Went-low :
      {value : W → ℕ} {store : ReleaseStore W}
      → IsCounter W tpm store value
      → (w v : W) (t : Transition) → Went w v t
      → epoch_of t ≤ value v
  Went-low counts w v (changed from to) (u, x, _, _, read) = counts.read_high x v to read
  Went-low counts w v (already_there at) read = counts.read_high w v at read
