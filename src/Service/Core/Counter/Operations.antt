-- ===== src/Service/Core/Counter/Operations.antt =====
-- Every operation of crates/stop/src/core.rs leaves the counter where it was or further on.
use tactiq_attest.Base.{ℕ, Bytes}
use tactiq_attest.Crypto.{Ecdsa}
use tactiq_attest.Stop.Record.{StopRecord}
use tactiq_attest.Service.Port.{StopTpm}
use tactiq_attest.Service.Core.{
  Gate, open_gate, stopped_gate, unreleased, gate, Lift, Ctx, sign, admit_at, admit, status_answer,
}
use tactiq_attest.Service.Core.Counter.{
  Grows, IsCounter, pure-Grows, lift-Grows, if-Grows, bind-Grows,
}

module _ {W : Type 0} {tpm : StopTpm W} {value : W → ℕ} (ecdsa : Ecdsa) (l : Lift ecdsa W)
    (counts : IsCounter W tpm l.release value) where
  pub gate-Grows : (counter : ℕ) → Grows value (gate ecdsa W l counter)
  unfolding gate
  gate-Grows counter =
      if-Grows value _ _ _ (pure-Grows value _ _)
        (bind-Grows value _ _ counts.store_grows λ found. pure-Grows value _ _)

module _ {W : Type 0} {tpm : StopTpm W} {value : W → ℕ} (sha256 : Bytes → Bytes) (ecdsa : Ecdsa)
    (ctx : Ctx ecdsa W) (counts : IsCounter W tpm ctx.lift_stop.release value) where
  pub sign-Grows :
      (rec : StopRecord) (nonce : Bytes) → Grows value (sign sha256 ecdsa W tpm ctx rec nonce)
  unfolding sign
  sign-Grows rec nonce = bind-Grows value _ _ (lift-Grows value _) λ body.
      bind-Grows value _ _ (counts.certify_grows _) λ c.
        bind-Grows value _ _ (lift-Grows value _) λ _.
          bind-Grows value _ _ (lift-Grows value _) λ cert.
            bind-Grows value _ _ (lift-Grows value _) λ bundle.
              bind-Grows value _ _ (counts.pcr_read_grows _) λ pcr_state.
                bind-Grows value _ _ (lift-Grows value _)
                  λ _. bind-Grows value _ _ (counts.quote_grows _ _) λ q. lift-Grows value _

  refused-Grows :
      (digest : Bytes) (counter : ℕ) (g : Gate)
      → Grows value (admit_at sha256 ecdsa W tpm ctx digest counter g)
  unfolding admit_at
  refused-Grows digest counter open_gate = pure-Grows value _ _
  refused-Grows digest counter stopped_gate =
      bind-Grows value _ _ (sign-Grows _ _) λ receipt. pure-Grows value _ _
  refused-Grows digest counter (unreleased why) =
      bind-Grows value _ _ (sign-Grows _ _) λ receipt. pure-Grows value _ _

  pub admit-Grows : (digest : Bytes) → Grows value (admit sha256 ecdsa W tpm ctx digest)
  unfolding admit
  admit-Grows digest = bind-Grows value _ _ counts.read_grows λ counter.
      bind-Grows value _ _ (gate-Grows ecdsa ctx.lift_stop counts counter)
        λ g. refused-Grows digest counter g

  pub status_answer-Grows :
      (nonce : Bytes) → Grows value (status_answer sha256 ecdsa W tpm ctx nonce)
  unfolding status_answer
  status_answer-Grows nonce = bind-Grows value _ _ (lift-Grows value _) λ _.
      bind-Grows value _ _ counts.read_grows λ counter.
        bind-Grows value _ _ (gate-Grows ecdsa ctx.lift_stop counts counter) λ g. sign-Grows _ _
