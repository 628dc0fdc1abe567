-- ===== src/Prover/Counter.antt =====
-- crates/prover/src/main.rs: `compose_counter` and `CounterAlloc`, which takes one epoch from the TPM
-- for many envelopes. The allocator is part of the state: it stays changed when a call fails.
pub mod Order
pub mod Epoch
pub mod Rises
pub mod History
use tactiq_attest.Base.{
  ℕ, ◌+◌, ◌*◌, ◌^◌, Bytes, Bool, Option, none, some, Result, ok, err, refuse_if, leb, if◌then◌else◌,
}
use tactiq_attest.Base
use tactiq_attest.Messages.{Message, R, seq_range, epoch_range}
use tactiq_attest.Service.Effects.{Exec, pure, lift, ◌>>=◌, ◌>>◌}
use tactiq_attest.TpmAccess.Commands.{Tools, verify_counter, nv_increment_and_read}

abbrev pub seq_bits : ℕ
seq_bits = 24

abbrev pub seq_limit : ℕ
seq_limit = 2 ^ 24

-- `(epoch << SEQ_BITS) | seq`: the low bits of the shifted epoch are zero.
pub compose_counter : ℕ → ℕ → R ℕ
compose_counter epoch seq =
    if leb seq_limit seq
    then err (seq_range seq)
    else (if leb (2 ^ 40) epoch then err (epoch_range epoch) else ok (epoch * 2 ^ 24 + seq))

pub record CounterAlloc : Type 0 where
  pub epoch : Option ℕ
  pub next_seq : ℕ

abbrev pub new_alloc : CounterAlloc
new_alloc = record { epoch = none; next_seq = 0 }

-- The epoch that still has numbers left.
pub current : CounterAlloc → Option ℕ
current a = if leb seq_limit a.next_seq then none else a.epoch

-- A call that does not see the allocator.
unfoldable pub outside : {E W S A : Type 0} → Exec E W A → Exec E (W × S) A
outside m (w, s) = let (r, w') = m w in (r, (w', s))

unfoldable pub put : {W : Type 0} → CounterAlloc → Exec Message (W × CounterAlloc) (Unit {0})
put a (w, _) = (ok tt, (w, a))

-- A counter of this epoch.
pub issue : {W : Type 0} → ℕ → ℕ → Exec Message (W × CounterAlloc) ℕ
issue epoch seq = do
  c ← lift (compose_counter epoch seq)
  put (record { epoch = some epoch; next_seq = seq + 1 })
  pure c

module _ (W : Type 0) (tools : Tools W) where
  pub take_epoch : Bytes → Exec Message (W × CounterAlloc) ℕ
  take_epoch work = do
    outside (verify_counter W tools)
    epoch ← outside (nv_increment_and_read W tools work)
    put (record { epoch = some epoch; next_seq = 0 })
    issue epoch 0

  pub next : Bytes → Exec Message (W × CounterAlloc) ℕ
  next work (w, a) = elim (current a) [
    | none ↦ take_epoch work (w, a)
    | some epoch ↦ issue epoch a.next_seq (w, a)
  ]

-- Named on the line of a test, opens what this module keeps shut.
unfoldable pub computing_counter : Unit {0}
unfolding compose_counter current issue take_epoch next
computing_counter = tt
