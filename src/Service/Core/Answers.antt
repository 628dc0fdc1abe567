-- ===== src/Service/Core/Answers.antt =====
-- What the answers of crates/stop/src/core.rs say: the receipt of a refused call and of a status
-- request, as a caller reads it.
use tactiq_attest.Base.{ℕ, ◌^◌, ◌<◌, Bytes, [], ◌≡◌, ok, length, if◌then◌else◌, not, ◌==◌}
use tactiq_attest.Crypto.{Ecdsa}
use tactiq_attest.Stop.Record.{StopRecord, status, refusal, stopped, check_nonce}
use tactiq_attest.Stop.Record.Exact
use tactiq_attest.Service.Effects.{exec-elim, lift-bind-elim}
use tactiq_attest.Service.Port.{StopTpm}
use tactiq_attest.Service.Core.{
  Ctx, Gate, gate, gate_state, refuse, admit, status_answer, record_of, refusal_of,
}
use tactiq_attest.Service.Core.Gating.{admit_at-refuse}
use tactiq_attest.Service.Core.Signing.{record_of-sign}

pub refusal_digest : (d d' : Bytes) → refusal d ≡ refusal d' → length d ≡ 32 → length d' ≡ 32
refusal_digest d d' e h = cc

pub status_ne_refusal : (d : Bytes) → status ≡ refusal d → ⊥
status_ne_refusal d e = cc

module _ (sha256 : Bytes → Bytes) (ecdsa : Ecdsa) (W : Type 0) (tpm : StopTpm W)
    (ctx : Ctx ecdsa W) where
  -- A refused call comes with a receipt that reads back as the record of a refusal: this request
  -- digest, stopped, the counter that was read for this call, the configured policy digest. The
  -- digests are of 32 bytes and the counter of 64 bits.
  pub admit_refused :
      (digest : Bytes) (w v : W) (receipt : Bytes)
      → length digest ≡ 32
      → length ctx.policy_digest ≡ 32
      → ((u : W) (n : ℕ) → tpm.read_counter w ≡ (ok n, u) → n < 2 ^ 64)
      → admit sha256 ecdsa W tpm ctx digest w ≡ (ok (refuse receipt), v)
      → (counter : ℕ) × (u : W) × (tpm.read_counter w ≡ (ok counter, u))
        × (record_of receipt
            ≡ ok (record {
              kind = refusal digest;
              state = stopped;
              stop_epoch = counter;
              policy_digest = ctx.policy_digest;
            }))
  unfolding admit
  admit_refused digest w v receipt hd hp bounded e =
      exec-elim tpm.read_counter _ w v e λ counter u read e'.
        exec-elim (gate ecdsa W ctx.lift_stop counter) _ u v e' λ g x at e''.
          let rec : StopRecord = refusal_of sha256 ecdsa W ctx digest counter in
          let wf : Exact.IsWellFormed rec = record {
            stop_epoch = bounded u counter read;
            policy_digest = hp;
            request_digest = λ d p. refusal_digest digest d p hd;
          } in
          (
            counter,
            u,
            read,
            record_of-sign sha256 ecdsa W tpm ctx rec [] receipt x v wf
                (admit_at-refuse sha256 ecdsa W tpm ctx digest counter g x v receipt e''),
          )

  -- A status receipt reads back as a status record with the counter that was read for this request
  -- and the state that the gate gave at it. The policy digest is of 32 bytes and the counter of 64
  -- bits.
  pub status_answer_says :
      (nonce : Bytes) (w v : W) (receipt : Bytes)
      → length ctx.policy_digest ≡ 32
      → ((u : W) (n : ℕ) → tpm.read_counter w ≡ (ok n, u) → n < 2 ^ 64)
      → status_answer sha256 ecdsa W tpm ctx nonce w ≡ (ok receipt, v)
      → (counter : ℕ) × (g : Gate) × (u x : W) × (tpm.read_counter w ≡ (ok counter, u))
        × (gate ecdsa W ctx.lift_stop counter u ≡ (ok g, x))
        × (record_of receipt
            ≡ ok (record {
              kind = status;
              state = gate_state g;
              stop_epoch = counter;
              policy_digest = ctx.policy_digest;
            }))
  unfolding status_answer
  status_answer_says nonce w v receipt hp bounded e =
      lift-bind-elim (if not (length nonce == 0) then check_nonce nonce else ok tt) _ w v e
        λ _ e1 f1. exec-elim tpm.read_counter _ w v f1 λ counter u read f2.
          exec-elim (gate ecdsa W ctx.lift_stop counter) _ u v f2 λ g x at f3.
            let rec : StopRecord = record {
              kind = status;
              state = gate_state g;
              stop_epoch = counter;
              policy_digest = ctx.policy_digest;
            } in
            let wf : Exact.IsWellFormed rec = record {
              stop_epoch = bounded u counter read;
              policy_digest = hp;
              request_digest = λ d p. absurd (status_ne_refusal d p);
            } in
            (
              counter,
              g,
              u,
              x,
              read,
              at,
              record_of-sign sha256 ecdsa W tpm ctx rec nonce receipt x v wf f3,
            )
