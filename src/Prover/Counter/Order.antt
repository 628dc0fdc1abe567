-- ===== src/Prover/Counter/Order.antt =====
-- The order of the counters of crates/prover/src/main.rs: `compose_counter`.
use tactiq_attest.Base.{ℕ, ◌+◌, ◌*◌, ◌^◌, ◌<◌, ◌≡◌, ◌↔◌, ◌⊎◌, inl, inr, ok, Bool-cases, leb, arith}
use tactiq_attest.Prover.Counter.{compose_counter}

pub record IsCounter (epoch seq c : ℕ) : Type 0 where
  pub seq_low : seq < 16777216
  pub epoch_low : epoch < 1099511627776
  pub is : c ≡ epoch * 16777216 + seq

pub compose_counter-IsCounter :
    (epoch seq c : ℕ) → compose_counter epoch seq ≡ ok c → IsCounter epoch seq c
unfolding compose_counter
compose_counter-IsCounter epoch seq c e = ground arith

-- Two composed counters fit 64 bits and are ordered as their epochs are, and within one epoch as
-- their sequence numbers are.
pub compose_counter_order :
    (epoch seq c epoch' seq' c' : ℕ)
    → compose_counter epoch seq ≡ ok c
    → compose_counter epoch' seq' ≡ ok c'
    → (c < 2 ^ 64) × ((c < c') ↔ ((epoch < epoch') ⊎ ((epoch ≡ epoch') × (seq < seq'))))
compose_counter_order epoch seq c epoch' seq' c' e e' =
    let k = compose_counter-IsCounter epoch seq c e in
    let k' = compose_counter-IsCounter epoch' seq' c' e' in (bounded k, (ordered k k', back k k'))
  where
    bounded : IsCounter epoch seq c → c < 2 ^ 64
    bounded k = omega (arith, k.seq_low, k.epoch_low, k.is)

    ordered :
        IsCounter epoch seq c
        → IsCounter epoch' seq' c'
        → c < c'
        → (epoch < epoch') ⊎ ((epoch ≡ epoch') × (seq < seq'))
    ordered k k' h = elim (Bool-cases (leb epoch' epoch)) [
      | inl p ↦ inr (ground arith, ground arith)
      | inr p ↦ inl (ground arith)
    ]

    back :
        IsCounter epoch seq c
        → IsCounter epoch' seq' c'
        → (epoch < epoch') ⊎ ((epoch ≡ epoch') × (seq < seq'))
        → c < c'
    back k k' (inl p) = omega arith
    back k k' (inr (p, q)) = omega arith
