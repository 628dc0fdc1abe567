-- ===== src/Prover/Counter/Epoch.antt =====
-- What crates/prover/src/main.rs relies on of the epoch counter of the TPM, and what its calls make of it.
use tactiq_attest.Base.{ℕ, ◌≤◌, ◌<◌, Bytes, List, ◌≡◌, sym, ◌∙◌, subst, ok-injective, ok, arith}
use tactiq_attest.Messages.{Message}
use tactiq_attest.Service.Effects.{exec-elim, lift-elim, pure-elim, lift-bind-elim}
use tactiq_attest.Service.Core.Counter.{Grows, lift-Grows, bind-Grows, pure-Grows}
use tactiq_attest.TpmAccess.Commands.{
  Tools, increment_args, read_args, counter_file, increment_at, counter_of, verify_counter,
  nv_increment_and_read,
}

-- No command takes the counter back; a successful increment takes it on; and the file that a read
-- leaves holds a value that the counter has had during the read.
pub record IsEpochTpm (W : Type 0) (tools : Tools W) (work nv : Bytes) (value : W → ℕ)
    : Type 0 where
  pub index : tools.nv_counter ≡ ok nv
  pub run_grows : (args : List Bytes) → Grows value (tools.run args)
  pub file_grows : (p : Bytes) → Grows value (tools.read_file p)
  pub incremented :
      (w v : W) (o : Bytes) → tools.run (increment_args nv) w ≡ (ok o, v) → value w < value v
  pub read_back :
      (w v u : W) (o raw : Bytes) (n : ℕ)
      → tools.run (read_args nv (counter_file work)) w ≡ (ok o, v)
      → tools.read_file (counter_file work) v ≡ (ok raw, u)
      → counter_of raw ≡ ok n
      → (value w ≤ n) × (n ≤ value u)

module _ {W : Type 0} {tools : Tools W} {work nv : Bytes} {value : W → ℕ}
    (tpm : IsEpochTpm W tools work nv value) where
  increment_at-Grows : (h : Bytes) → Grows value (increment_at W tools h)
  unfolding increment_at
  increment_at-Grows h = bind-Grows value _ _ (tpm.run_grows _) λ o. pure-Grows value _ _

  pub verify_counter-Grows : Grows value (verify_counter W tools)
  unfolding verify_counter
  verify_counter-Grows = bind-Grows value _ _ (lift-Grows value _) λ h.
      bind-Grows value _ _ (tpm.run_grows _)
        λ o. bind-Grows value _ _ (lift-Grows value _) λ a. lift-Grows value _

  pub nv_increment_and_read-Grows : Grows value (nv_increment_and_read W tools work)
  unfolding nv_increment_and_read
  nv_increment_and_read-Grows = bind-Grows value _ _ (lift-Grows value _) λ h.
      bind-Grows value _ _ (increment_at-Grows h) λ _.
        bind-Grows value _ _ (tpm.run_grows _)
          λ o. bind-Grows value _ _ (tpm.file_grows _) λ raw. lift-Grows value _

  increment_at-lt :
      (h : Bytes) (w v : W) (u : Unit {0})
      → nv ≡ h
      → increment_at W tools h w ≡ (ok u, v)
      → value w < value v
  unfolding increment_at
  increment_at-lt h w v u same e = exec-elim (tools.run (increment_args h)) _ w v e λ o x ran done.
      pure-elim {E = Message} tt x v done λ _ stay.
        let more =
          tpm.incremented w x o
            (subst (λ i. tools.run (increment_args i) w ≡ (ok o, x)) (sym same) ran) in
        subst (λ y. value w < value y) stay more

  -- A new epoch is beyond the value before the call, and not beyond the value after it.
  pub nv_increment_and_read-new :
      (w v : W) (n : ℕ)
      → nv_increment_and_read W tools work w ≡ (ok n, v)
      → (value w < n) × (n ≤ value v)
  unfolding nv_increment_and_read
  nv_increment_and_read-new w v n e = lift-bind-elim tools.nv_counter _ w v e λ h found e1.
      let same : nv ≡ h = ok-injective (sym tpm.index ∙ found) in
      exec-elim (increment_at W tools h) _ w v e1 λ u x inc e2.
        exec-elim (tools.run (read_args h (counter_file work))) _ x v e2 λ o y ran e3.
          exec-elim (tools.read_file (counter_file work)) _ y v e3 λ raw z read e4.
            lift-elim (counter_of raw) z v e4 λ counted stay.
              let before = increment_at-lt h w x u same inc in
              let (low, high) =
                tpm.read_back x y z o raw n
                  (subst (λ i. tools.run (read_args i (counter_file work)) x ≡ (ok o, y)) (sym same)
                    ran)
                  read counted in
              (omega arith, subst (λ t. n ≤ value t) stay high)
