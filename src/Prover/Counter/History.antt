-- ===== src/Prover/Counter/History.antt =====
-- The agent of crates/prover/src/main.rs over time: every envelope counter is above all earlier ones,
-- across failed calls, restarts of the agent and other increments of the TPM's counter.
use tactiq_attest.Base.{
  ℕ, ◌+◌, ◌*◌, ◌≤◌, ◌<◌, Bytes, ◌≡◌, refl, subst, Option, none, some, ok, arith,
}
use tactiq_attest.TpmAccess.Commands.{Tools}
use tactiq_attest.Prover.Counter.{CounterAlloc, new_alloc, current, next}
use tactiq_attest.Prover.Counter.Epoch.{IsEpochTpm}
use tactiq_attest.Prover.Counter.Rises.{
  AgentState, current-low, Held, Rises, floor, floor-none, floor-some,
}
use tactiq_attest.Prover.Counter.Rises.Calls.{idle-Rises, next-Rises, next-Between}

-- The agent in its world: a call, whatever its outcome; a restart of the agent; and whatever else
-- happens to the TPM, where its counter does not go back.
module _ (W : Type 0) (tools : Tools W) (work : Bytes) (value : W → ℕ) where
  pub data Step (s : AgentState W) : AgentState W → Type 0 where
    calls : Step s (next W tools work s).1
    restarts : Step s (s.0, new_alloc)
    elsewhere : {v : W} → value s.0 ≤ value v → Step s (v, s.1)

  pub data Later (s : AgentState W) : AgentState W → Type 0 where
    now : Later s s
    then_later : {t u : AgentState W} → Later s t → Step t u → Later s u

module _ {W : Type 0} {tools : Tools W} {work nv : Bytes} {value : W → ℕ}
    (tpm : IsEpochTpm W tools work nv value) where
  new-Held : (w : W) → Held value (w, new_alloc)
  unfolding current
  new-Held w e h = cc

  restart-Rises : (w : W) (a : CounterAlloc) → Held value (w, a) → Rises value (w, a) (w, new_alloc)
  unfolding current
  restart-Rises w a held = (new-Held w, by_epoch (current a) refl)
    where
      fresh : floor value (w, new_alloc) ≡ (value w + 1) * 16777216
      fresh = floor-none value w new_alloc refl

      by_epoch : (o : Option ℕ) → current a ≡ o → floor value (w, a) ≤ floor value (w, new_alloc)
      by_epoch none e = rw (floor-none value w a e) (omega (arith, fresh))
      by_epoch (some epoch) e =
          let low = current-low a epoch e in
          let k = held epoch e in rw (floor-some value w a epoch e) (omega (arith, fresh))

  elsewhere-Rises :
      (w v : W) (a : CounterAlloc)
      → Held value (w, a)
      → value w ≤ value v
      → Rises value (w, a) (v, a)
  elsewhere-Rises w v a held h = by_epoch (current a) refl
    where
      by_epoch : (o : Option ℕ) → current a ≡ o → Rises value (w, a) (v, a)
      by_epoch none e = idle-Rises value w v a e h
      by_epoch (some epoch) e = (
        (λ x there. let k = held x there in omega arith),
        rw (floor-some value w a epoch e, floor-some value v a epoch e) (omega arith),
      )

  Step-Rises : {s t : AgentState W} → Step W tools work value s t → Held value s → Rises value s t
  Step-Rises {s} calls held = next-Rises tpm s held
  Step-Rises {s} restarts held = restart-Rises s.0 s.1 held
  Step-Rises {s} (elsewhere h) held = elsewhere-Rises s.0 _ s.1 held h

  Later-Rises : {s t : AgentState W} → Later W tools work value s t → Held value s → Rises value s t
  Later-Rises now held = (held, omega arith)
  Later-Rises (then_later before step) held =
      let (held', low) = Later-Rises before held in
      let (held'', low') = Step-Rises step held' in (held'', omega arith)

  -- Every envelope counter is above all that were issued before it, since any start of the agent:
  -- whatever calls failed or succeeded in between, across restarts of the agent and other
  -- increments of the TPM's counter. The commands are assumed not to take the counter back, an
  -- increment that succeeds to take it on, and a read to give a value that it has had during the
  -- read.
  pub next_increases :
      (w : W) (s t u v : AgentState W) (c d : ℕ)
      → Later W tools work value (w, new_alloc) s
      → next W tools work s ≡ (ok c, t)
      → Later W tools work value t u
      → next W tools work u ≡ (ok d, v)
      → c < d
  next_increases w s t u v c d before first between second =
      let (held, _) = Later-Rises before (new-Held w) in
      let (_, below) = next-Between tpm s t c held first in
      let (held', _) = Step-Rises calls held in
      let held_t : Held value t = subst (λ x. Held value x) (λ i. (first i).1) held' in
      let (held_u, rise) = Later-Rises between held_t in
      let (above, _) = next-Between tpm u v d held_u second in omega arith
