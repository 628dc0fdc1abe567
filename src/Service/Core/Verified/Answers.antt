-- ===== src/Service/Core/Verified/Answers.antt =====
-- The answers of crates/stop/src/core.rs, a status receipt and the receipt of a refused call, checked
-- away from the device by crates/attest-appraise/src/stop.rs.
use tactiq_attest.Base.{
  ℕ, ◌%◌, ◌^◌, ◌<◌, Bytes, [], false, not, ◌≡◌, refl, length, ok, ◌==◌, if◌then◌else◌, arith,
}
use tactiq_attest.Crypto.{Ecdsa}
use tactiq_attest.Stop.Record.{StopRecord, status, refusal, stopped, check_nonce}
use tactiq_attest.Stop.Record.Exact
use tactiq_attest.Stop.Certify.{TpmClock}
use tactiq_attest.Appraise.StopCheck.{StopTrust, verify_stop_receipt}
use tactiq_attest.Service.Port.{StopTpm}
use tactiq_attest.Service.Effects.{exec-elim, lift-bind-elim}
use tactiq_attest.Service.Core.{
  Ctx, Gate, open_gate, stopped_gate, unreleased, gate, gate_state, refuse, admit, status_answer,
  refusal_of,
}
use tactiq_attest.Service.Core.Gating.{IsOpen, gate_sound, admit_at-refuse}
use tactiq_attest.Service.Core.Signing.{sign_sound}
use tactiq_attest.Service.Core.Answers.{refusal_digest, status_ne_refusal}
use tactiq_attest.Service.Core.Verified.{IsHonest, Expects, signed_verifies}

module _ (sha256 : Bytes → Bytes) (ecdsa : Ecdsa) (W : Type 0) (tpm : StopTpm W)
    (ctx : Ctx ecdsa W) where
  gate-odd :
      (counter : ℕ) (g : Gate) (u x : W)
      → gate ecdsa W ctx.lift_stop counter u ≡ (ok g, x)
      → counter % 2 ≡ 1
      → gate_state g ≡ stopped
  unfolding gate_state
  gate-odd counter open_gate u x e odd =
      let o : IsOpen ecdsa W ctx.lift_stop counter u x =
        gate_sound ecdsa W ctx.lift_stop counter u x e in
      absurd (both o.even odd)
    where
      both : counter % 2 ≡ 0 → counter % 2 ≡ 1 → ⊥
      both p q = omega arith
  gate-odd counter stopped_gate u x e odd = refl
  gate-odd counter (unreleased why) u x e odd = refl

  -- A status answer passes the verifier's check, which finds in it the counter that was read for
  -- this request, the state that the gate gave at it, the configured policy digest, and that it is
  -- fresh exactly if a nonce was given. The TPM signs with the key that the verifier holds, in one
  -- boot and on the build that the verifier accepts; the verifier expects the configured device,
  -- selection, index and this nonce; SHA-256 gives 32 bytes, the policy digest is of 32 bytes and
  -- the counter of 64 bits.
  pub status_answer_verifies :
      (t : StopTrust sha256 ecdsa) (reset restart : ℕ) (nonce receipt : Bytes) (w v : W)
      → IsHonest sha256 ecdsa W tpm ctx t reset restart
      → Expects sha256 ecdsa W tpm ctx t nonce
      → length ctx.policy_digest ≡ 32
      → ((u : W) (n : ℕ) → tpm.read_counter w ≡ (ok n, u) → n < 2 ^ 64)
      → status_answer sha256 ecdsa W tpm ctx nonce w ≡ (ok receipt, v)
      → (counter : ℕ) × (g : Gate) × (u x : W) × (clock : TpmClock) × (tpm.read_counter w
          ≡ (ok counter, u))
        × (gate ecdsa W ctx.lift_stop counter u ≡ (ok g, x))
        × (verify_stop_receipt sha256 ecdsa receipt t
            ≡ ok (record {
              kind = status;
              state = gate_state g;
              stop_epoch = counter;
              policy_digest = ctx.policy_digest;
              fresh = not (length nonce == 0);
              clock = clock;
            }))
  unfolding status_answer
  status_answer_verifies t reset restart nonce receipt w v honest expects hp bounded e =
      lift-bind-elim (if not (length nonce == 0) then check_nonce nonce else ok tt) _ w v e
        λ _ e1 f1. exec-elim tpm.read_counter _ w v f1 λ counter u read f2.
          exec-elim (gate ecdsa W ctx.lift_stop counter) _ u v f2 λ g x at f3.
            let rec : StopRecord = record {
              kind = status;
              state = gate_state g;
              stop_epoch = counter;
              policy_digest = ctx.policy_digest;
            } in
            let wf : Exact.IsWellFormed rec = record {
              stop_epoch = bounded u counter read;
              policy_digest = hp;
              request_digest = λ d p. absurd (status_ne_refusal d p);
            } in
            let (clock, verified) =
              signed_verifies sha256 ecdsa W tpm ctx t reset restart honest rec nonce receipt
                expects (sign_sound sha256 ecdsa W tpm ctx rec nonce receipt x v f3) wf
                (λ h. (asked nonce h e1, refl)) (λ odd. gate-odd counter g u x at odd) in
            (counter, g, u, x, clock, read, at, verified)
    where
      asked :
          (n : Bytes)
          → (length n == 0) ≡ false
          → (if not (length n == 0) then check_nonce n else ok tt) ≡ ok tt
          → check_nonce n ≡ ok tt
      asked n h e = rw h at e

  -- The receipt of a refused call passes the verifier's check without a nonce, which finds in it
  -- the refusal of this request digest, stopped, at the counter that was read for this call. The
  -- TPM signs with the key that the verifier holds, in one boot and on the build that the verifier
  -- accepts; the verifier expects the configured device, selection and index; SHA-256 gives 32
  -- bytes, the digests are of 32 bytes and the counter of 64 bits.
  pub admit_refused_verifies :
      (t : StopTrust sha256 ecdsa) (reset restart : ℕ) (digest receipt : Bytes) (w v : W)
      → IsHonest sha256 ecdsa W tpm ctx t reset restart
      → Expects sha256 ecdsa W tpm ctx t []
      → length digest ≡ 32
      → length ctx.policy_digest ≡ 32
      → ((u : W) (n : ℕ) → tpm.read_counter w ≡ (ok n, u) → n < 2 ^ 64)
      → admit sha256 ecdsa W tpm ctx digest w ≡ (ok (refuse receipt), v)
      → (counter : ℕ) × (u : W) × (clock : TpmClock) × (tpm.read_counter w ≡ (ok counter, u))
        × (verify_stop_receipt sha256 ecdsa receipt t
            ≡ ok (record {
              kind = refusal digest;
              state = stopped;
              stop_epoch = counter;
              policy_digest = ctx.policy_digest;
              fresh = false;
              clock = clock;
            }))
  unfolding admit
  admit_refused_verifies t reset restart digest receipt w v honest expects hd hp bounded e =
      exec-elim tpm.read_counter _ w v e λ counter u read f1.
        exec-elim (gate ecdsa W ctx.lift_stop counter) _ u v f1 λ g x at f2.
          let rec : StopRecord = refusal_of sha256 ecdsa W ctx digest counter in
          let wf : Exact.IsWellFormed rec = record {
            stop_epoch = bounded u counter read;
            policy_digest = hp;
            request_digest = λ d p. refusal_digest digest d p hd;
          } in
          let (clock, verified) =
            signed_verifies sha256 ecdsa W tpm ctx t reset restart honest rec [] receipt expects
              (sign_sound sha256 ecdsa W tpm ctx rec [] receipt x v
                (admit_at-refuse sha256 ecdsa W tpm ctx digest counter g x v receipt f2))
              wf (λ h. absurd (never h)) (λ odd. refl) in
          (counter, u, clock, read, verified)
    where
      never : (0 == 0) ≡ false → ⊥
      never h = cc
