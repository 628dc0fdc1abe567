-- ===== src/Prover/Counter/Rises.antt =====
-- One call of `CounterAlloc::next` of crates/prover/src/main.rs: no counter below a floor is issued, and
-- the floor rises beyond each that is.
pub mod Calls
use tactiq_attest.Base.{
  ℕ, ◌+◌, ◌*◌, ◌^◌, ◌≤◌, ◌<◌, Bytes, ◌≡◌, refl, sym, ◌∙◌, subst, Option, none, some, Result, ok,
  err, err-ne-ok, arith,
}
use tactiq_attest.Messages.{Message, R}
use tactiq_attest.Service.Effects.{Exec, lift, ◌>>=◌, exec-elim}
use tactiq_attest.Service.Core.Counter.{Grows}
use tactiq_attest.TpmAccess.Commands.{Tools, verify_counter, nv_increment_and_read}
use tactiq_attest.Prover.Counter.{
  CounterAlloc, current, outside, put, issue, take_epoch, next, compose_counter,
}
use tactiq_attest.Prover.Counter.Order.{IsCounter, compose_counter-IsCounter}
use tactiq_attest.Prover.Counter.Epoch.{
  IsEpochTpm, verify_counter-Grows, nv_increment_and_read-Grows, nv_increment_and_read-new,
}

abbrev pub AgentState : Type 0 → Type 0
AgentState W = W × CounterAlloc

pub current-low : (a : CounterAlloc) (e : ℕ) → current a ≡ some e → a.next_seq < 16777216
unfolding current
current-low a e h = ground arith

-- What a call outside does to the state, on both outcomes.
outside_bind :
    {W A B : Type 0} (P : AgentState W → Type 0) (m : Exec Message W A)
    (f : A → Exec Message (AgentState W) B) (w : W) (a : CounterAlloc)
    → ((x : A) (v : W) → m w ≡ (ok x, v) → P (f x (v, a)).1)
    → ((v : W) → (m w).1 ≡ v → P (v, a))
    → P ((outside m >>= f) (w, a)).1
unfolding outside ◌>>=◌
outside_bind {W} {A} {B} P m f w a good bad = by_result (m w).0 refl
  where
    by_result : (r : Result Message A) → (m w).0 ≡ r → P ((outside m >>= f) (w, a)).1
    by_result (ok x) e = rw e (good x (m w).1 (λ i. (e i, (m w).1)))
    by_result (err x) e = rw e (bad (m w).1 refl)

abbrev used : ℕ → ℕ → CounterAlloc
used epoch seq = record { epoch = some epoch; next_seq = seq + 1 }

issued : {W : Type 0} → ℕ → ℕ → W → CounterAlloc → R ℕ → R ℕ × AgentState W
issued epoch seq w a (ok c) = (ok c, (w, used epoch seq))
issued epoch seq w a (err x) = (err x, (w, a))

issue_lem :
    {W : Type 0} (epoch seq : ℕ) (w : W) (a : CounterAlloc) (r : R ℕ)
    → compose_counter epoch seq ≡ r
    → issue epoch seq (w, a) ≡ issued epoch seq w a r
unfolding issue issued put lift ◌>>=◌
issue_lem epoch seq w a (ok c) e = rw e refl
issue_lem epoch seq w a (err x) e = rw e refl

-- What an issued counter is, and the allocator after it.
issue_ok :
    {W : Type 0} (epoch seq c : ℕ) (w : W) (a : CounterAlloc) (t : AgentState W)
    → issue epoch seq (w, a) ≡ (ok c, t)
    → IsCounter epoch seq c × (t ≡ (w, used epoch seq))
unfolding issued
issue_ok {W} epoch seq c w a t e = by_result (compose_counter epoch seq) refl
  where
    by_result :
        (r : R ℕ)
        → compose_counter epoch seq ≡ r
        → IsCounter epoch seq c × (t ≡ (w, used epoch seq))
    by_result (ok d) h =
        let both = sym (issue_lem epoch seq w a (ok d) h) ∙ e in
        let same : ◌≡◌ {A = R ℕ} (ok d) (ok c) = λ i. (both i).0 in
        let state : (w, used epoch seq) ≡ t = λ i. (both i).1 in
        (compose_counter-IsCounter epoch seq c (h ∙ same), sym state)
    by_result (err x) h =
        let both = sym (issue_lem epoch seq w a (err x) h) ∙ e in
        let same : ◌≡◌ {A = R ℕ} (err x) (ok c) = λ i. (both i).0 in absurd (err-ne-ok same)

module _ {W : Type 0} (value : W → ℕ) where
  -- No counter below this is issued from here on.
  pub floor : AgentState W → ℕ
  floor (w, a) = elim (current a) [
    | none ↦ (value w + 1) * 16777216
    | some e ↦ e * 16777216 + a.next_seq
  ]

  -- An epoch in use was read from the counter.
  abbrev pub Held : AgentState W → Type 0
  Held (w, a) = (e : ℕ) → current a ≡ some e → e ≤ value w

  abbrev pub Rises : AgentState W → AgentState W → Type 0
  Rises s t = Held t × (floor s ≤ floor t)

  used_floor :
      (w : W) (e q : ℕ)
      → e ≤ value w
      → q < 16777216
      → e * 16777216 + q < floor (w, record { epoch = some e; next_seq = q + 1 })
  unfolding floor current
  used_floor w e q h k = ground arith

  used-Held : (w : W) (e q : ℕ) → e ≤ value w → Held (w, record { epoch = some e; next_seq = q })
  unfolding current
  used-Held w e q h x eq = ground arith

  pub floor-none :
      (w : W) (a : CounterAlloc) → current a ≡ none → floor (w, a) ≡ (value w + 1) * 16777216
  unfolding floor
  floor-none w a h = rw (h, floor) refl

  pub floor-some :
      (w : W) (a : CounterAlloc) (e : ℕ)
      → current a ≡ some e
      → floor (w, a) ≡ e * 16777216 + a.next_seq
  unfolding floor
  floor-some w a e h = rw (h, floor) refl

  issue-Rises :
      (epoch seq : ℕ) (w : W) (a : CounterAlloc)
      → epoch ≤ value w
      → Held (w, a)
      → floor (w, a) ≤ epoch * 16777216 + seq
      → Rises (w, a) (issue epoch seq (w, a)).1
  unfolding issued
  issue-Rises epoch seq w a low held under = by_result (compose_counter epoch seq) refl
    where
      by_result :
          (r : R ℕ) → compose_counter epoch seq ≡ r → Rises (w, a) (issue epoch seq (w, a)).1
      by_result (ok c) h =
          let k = compose_counter-IsCounter epoch seq c h in
          let more = used_floor w epoch seq low k.seq_low in
          subst (λ x. Rises (w, a) x.1) (sym (issue_lem epoch seq w a (ok c) h))
            (used-Held w epoch (seq + 1) low, omega arith)
      by_result (err x) h =
          subst (λ y. Rises (w, a) y.1) (sym (issue_lem epoch seq w a (err x) h))
            (held, omega arith)
