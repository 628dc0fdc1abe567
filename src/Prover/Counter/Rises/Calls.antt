-- ===== src/Prover/Counter/Rises/Calls.antt =====
-- The arms of `CounterAlloc::next` of crates/prover/src/main.rs, and the whole call.
use tactiq_attest.Base.{
  ℕ, ◌+◌, ◌*◌, ◌^◌, ◌≤◌, ◌<◌, Bytes, ◌≡◌, refl, sym, ◌∙◌, subst, Option, none, some, ok, arith,
}
use tactiq_attest.Messages.{Message}
use tactiq_attest.Service.Effects.{Exec, ◌>>=◌, exec-elim}
use tactiq_attest.Service.Core.Counter.{Grows}
use tactiq_attest.TpmAccess.Commands.{Tools, verify_counter, nv_increment_and_read}
use tactiq_attest.Prover.Counter.{CounterAlloc, current, outside, put, issue, take_epoch, next}
use tactiq_attest.Prover.Counter.Epoch.{
  IsEpochTpm, verify_counter-Grows, nv_increment_and_read-Grows, nv_increment_and_read-new,
}
use tactiq_attest.Prover.Counter.Rises.{
  AgentState, outside_bind, issue_ok, Held, Rises, floor, used_floor, used-Held, floor-none,
  floor-some, issue-Rises,
}

pub outside_ok :
    {W A : Type 0} (m : Exec Message W A) (w : W) (a : CounterAlloc) (x : A) (t : AgentState W)
    → outside m (w, a) ≡ (ok x, t)
    → (v : W) × (m w ≡ (ok x, v)) × (t ≡ (v, a))
unfolding outside
outside_ok {W} {A} m w a x t e =
    let state : ((m w).1, a) ≡ t = λ i. (e i).1 in ((m w).1, (λ i. ((e i).0, (m w).1)), sym state)

module _ {W : Type 0} (tools : Tools W) (work : Bytes) (w : W) (a : CounterAlloc) where
  next-none : current a ≡ none → next W tools work (w, a) ≡ take_epoch W tools work (w, a)
  unfolding next
  next-none e = rw (e, next) refl

  next-some : (e : ℕ) → current a ≡ some e → next W tools work (w, a) ≡ issue e a.next_seq (w, a)
  unfolding next
  next-some e h = rw (h, next) refl

abbrev fresh_epoch : ℕ → CounterAlloc
fresh_epoch n = record { epoch = some n; next_seq = 0 }

put-issue :
    {W : Type 0} (n : ℕ) (u : W) (a : CounterAlloc)
    → (put (fresh_epoch n) >>= λ _. issue n 0) (u, a) ≡ issue n 0 (u, fresh_epoch n)
unfolding put ◌>>=◌
put-issue n u a = refl

module _ {W : Type 0} (value : W → ℕ) where
  pub idle-Rises :
      (w v : W) (a : CounterAlloc)
      → current a ≡ none
      → value w ≤ value v
      → Rises value (w, a) (v, a)
  idle-Rises w v a none_left h = (
    (λ e there. absurd (none_ne_some (sym none_left ∙ there))),
    rw (floor-none value w a none_left, floor-none value v a none_left) (omega arith),
  )
    where
      none_ne_some : {e : ℕ} → none ≡ some e → ⊥
      none_ne_some x = cc

  fresh_floor : (u : W) (n : ℕ) → floor value (u, fresh_epoch n) ≤ n * 16777216 + 0
  unfolding floor current
  fresh_floor u n = ground arith

  -- The first counter of a new epoch.
  taken :
      (w u : W) (a : CounterAlloc) (n : ℕ)
      → current a ≡ none
      → value w < n
      → floor value (w, a) ≤ floor value (u, fresh_epoch n)
  unfolding floor current
  taken w u a n none_left h = rw (floor-none value w a none_left) (omega arith)

module _ {W : Type 0} {tools : Tools W} {work nv : Bytes} {value : W → ℕ}
    (tpm : IsEpochTpm W tools work nv value) where
  -- With no epoch in use, a new one is taken.
  take_epoch-Rises :
      (w : W) (a : CounterAlloc)
      → current a ≡ none
      → Rises value (w, a) (take_epoch W tools work (w, a)).1
  unfolding take_epoch Grows
  take_epoch-Rises w a none_left =
      outside_bind (Rises value (w, a)) (verify_counter W tools) _ w a
        (λ _ v e.
          outside_bind (Rises value (w, a)) (nv_increment_and_read W tools work) _ v a
            (λ n u f. begun v u n (verified v e) (nv_increment_and_read-new tpm v u n f))
            (λ u f. idle-Rises value w u a none_left (after v u (verified v e) f)))
        (λ v e.
          idle-Rises value w v a none_left
            (subst (λ y. value w ≤ value y) e (verify_counter-Grows tpm w)))
    where
      verified : (v : W) {x : Unit {0}} → verify_counter W tools w ≡ (ok x, v) → value w ≤ value v
      verified v e = subst (λ y. value w ≤ value y) (λ i. (e i).1) (verify_counter-Grows tpm w)

      after :
          (v u : W)
          → value w ≤ value v
          → (nv_increment_and_read W tools work v).1 ≡ u
          → value w ≤ value u
      after v u h f =
          let more = nv_increment_and_read-Grows tpm v in
          subst (λ y. value w ≤ value y) f (omega arith)

      begun :
          (v u : W) (n : ℕ)
          → value w ≤ value v
          → (value v < n) × (n ≤ value u)
          → Rises value (w, a) ((put (fresh_epoch n) >>= λ _. issue n 0) (u, a)).1
      begun v u n low (new, high) =
          let (held, more) =
            issue-Rises value n 0 u (fresh_epoch n) high (used-Held value u n 0 high)
              (fresh_floor value u n) in
          let under = taken value w u a n none_left (omega arith) in
          subst (λ x. Rises value (w, a) x.1) (sym (put-issue n u a)) (held, omega arith)

  pub next-Rises : (s : AgentState W) → Held value s → Rises value s (next W tools work s).1
  next-Rises (w, a) held = by_epoch (current a) refl
    where
      by_epoch : (o : Option ℕ) → current a ≡ o → Rises value (w, a) (next W tools work (w, a)).1
      by_epoch none e =
          subst (λ x. Rises value (w, a) x.1) (sym (next-none tools work w a e))
            (take_epoch-Rises w a e)
      by_epoch (some epoch) e =
          let under = floor-some value w a epoch e in
          subst (λ x. Rises value (w, a) x.1) (sym (next-some tools work w a epoch e))
            (issue-Rises value epoch a.next_seq w a (held epoch e) held (omega arith))

  abbrev pub Between : AgentState W → ℕ → AgentState W → Type 0
  Between s c t = (floor value s ≤ c) × (c < floor value t)

  issue-Between :
      (epoch seq c : ℕ) (w : W) (a : CounterAlloc) (t : AgentState W)
      → epoch ≤ value w
      → floor value (w, a) ≤ epoch * 16777216 + seq
      → issue epoch seq (w, a) ≡ (ok c, t)
      → Between (w, a) c t
  issue-Between epoch seq c w a t low under e =
      let (k, same) = issue_ok epoch seq c w a t e in
      let more = used_floor value w epoch seq low k.seq_low in
      let is = k.is in subst (Between (w, a) c) (sym same) (omega arith, omega arith)

  take_epoch-Between :
      (w : W) (a : CounterAlloc) (c : ℕ) (t : AgentState W)
      → current a ≡ none
      → take_epoch W tools work (w, a) ≡ (ok c, t)
      → Between (w, a) c t
  unfolding take_epoch Grows
  take_epoch-Between w a c t none_left e =
      exec-elim (outside (verify_counter W tools)) _ (w, a) t e
        λ x s1 e1 r1.
          let (v, ev, same) = outside_ok (verify_counter W tools) w a x s1 e1 in
          exec-elim (outside (nv_increment_and_read W tools work)) _ s1 t r1 λ n s2 e2 r2.
            let (u, eu, same') =
              outside_ok (nv_increment_and_read W tools work) v a n s2 (
                subst (λ s. outside (nv_increment_and_read W tools work) s ≡ (ok n, s2)) same e2) in
            let low : value w ≤ value v =
              subst (λ y. value w ≤ value y) (λ i. (ev i).1) (verify_counter-Grows tpm w) in
            let (new, high) = nv_increment_and_read-new tpm v u n eu in
            let last =
              subst (λ s. (put (fresh_epoch n) >>= λ _. issue n 0) s ≡ (ok c, t)) same' r2 in
            let (floor_low, below) =
              issue-Between n 0 c u (fresh_epoch n) t high (fresh_floor value u n)
                (sym (put-issue n u a) ∙ last) in
            let under = taken value w u a n none_left (omega arith) in (omega arith, below)

  pub next-Between :
      (s t : AgentState W) (c : ℕ) → Held value s → next W tools work s ≡ (ok c, t) → Between s c t
  next-Between (w, a) t c held e = by_epoch (current a) refl
    where
      by_epoch : (o : Option ℕ) → current a ≡ o → Between (w, a) c t
      by_epoch none h = take_epoch-Between w a c t h (sym (next-none tools work w a h) ∙ e)
      by_epoch (some epoch) h =
          let under = floor-some value w a epoch h in
          issue-Between epoch a.next_seq c w a t (held epoch h) (omega arith)
            (sym (next-some tools work w a epoch h) ∙ e)

-- Every counter that is issued fits 64 bits.
pub next-lt :
    {W : Type 0} (tools : Tools W) (work : Bytes) (w : W) (a : CounterAlloc) (t : AgentState W)
    (c : ℕ)
    → next W tools work (w, a) ≡ (ok c, t)
    → c < 2 ^ 64
unfolding take_epoch
next-lt {W} tools work w a t c e = by_epoch (current a) refl
  where
    low :
        (epoch seq : ℕ) (v : W) (b : CounterAlloc) → issue epoch seq (v, b) ≡ (ok c, t) → c < 2 ^ 64
    low epoch seq v b f =
        let (k, _) = issue_ok epoch seq c v b t f in omega (arith, k.is, k.seq_low, k.epoch_low)

    by_epoch : (o : Option ℕ) → current a ≡ o → c < 2 ^ 64
    by_epoch none h =
        exec-elim (outside (verify_counter W tools)) _ (w, a) t
          (sym (next-none tools work w a h) ∙ e)
          λ x s1 e1 r1.
            exec-elim (outside (nv_increment_and_read W tools work)) _ s1 t r1
              λ n s2 e2 r2. low n 0 s2.0 (fresh_epoch n) (sym (put-issue n s2.0 s2.1) ∙ r2)
    by_epoch (some epoch) h = low epoch a.next_seq w a (sym (next-some tools work w a epoch h) ∙ e)
