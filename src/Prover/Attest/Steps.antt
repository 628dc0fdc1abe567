-- ===== src/Prover/Attest/Steps.antt =====
-- The steps of an attestation by crates/prover/src/main.rs, each by what it asked of the system.
use tactiq_attest.Base.{
  Bytes, Bool, true, false, List, [], ◌∷◌, codes, ok, err, err-ne-ok, ◌≡◌, refl, ◌∙◌,
}
use tactiq_attest.Messages.{Message, R}
use tactiq_attest.Service.Effects.{Exec, ◌>>=◌, exec-elim, lift-elim, raise-ne-ok}
use tactiq_attest.TpmAccess.Commands.{Tools, in_dir, pcr_read, computing_commands}
use tactiq_attest.Prover.{
  Provisioning, complete, absent, partial, inspect, read_id, computing_prover,
}
use tactiq_attest.Prover.Publish.{
  DiskOp, staging, publication, run_all, finish_publish, publish_envelope, computing_publish,
}
use tactiq_attest.Prover.Attest.{AgentDisk, look, stored_id, identity_of, identity}

module _ {W : Type 0} (disk : DiskOp → Exec Message W (Unit {0})) where
  -- All of the operations were done in this order, each with success.
  unfoldable pub Performed : List DiskOp → W → W → Type 0
  Performed [] w v = w ≡ v
  Performed (op ∷ ops) w v = (u : W) × (disk op w ≡ (ok tt, u)) × Performed ops u v

  run_all-Performed :
      (ops : List DiskOp) (w v : W) → run_all disk ops w ≡ (ok tt, v) → Performed ops w v
  unfolding computing_publish Performed
  run_all-Performed [] w v e = λ i. (e i).1
  run_all-Performed (op ∷ ops) w v e =
      by_answer (disk op w).0 (disk op w).1 refl (λ u. run_all-Performed ops u v) e
    where
      by_answer :
          (r : R (Unit {0})) (u : W)
          → disk op w ≡ (r, u)
          → ((u : W) → run_all disk ops u ≡ (ok tt, v) → Performed ops u v)
          → ◌≡◌ {A = R (Unit {0}) × W}
              (elim r [ ok _ ↦ run_all disk ops u | err x ↦ (err x, u) ])
              (ok tt, v)
          → (u : W) × (disk op w ≡ (ok tt, u)) × Performed ops u v
      by_answer (ok tt) u h ih f = (u, h, ih u f)
      by_answer (err x) u h ih f = absurd (err-ne-ok (λ i. (f i).0))

  -- A publication that succeeds has done all of its operations.
  pub publish_envelope-Performed :
      (out stem msg tag : Bytes) (w v : W)
      → publish_envelope disk out stem msg tag w ≡ (ok tt, v)
      → (u : W) × Performed (staging out stem msg tag) w u × Performed (publication out stem) u v
  unfolding computing_publish
  publish_envelope-Performed out stem msg tag w v e =
      by_result (run_all disk (staging out stem msg tag) w).0
        (run_all disk (staging out stem msg tag) w).1 refl e
    where
      by_result :
          (r : R (Unit {0})) (u : W)
          → run_all disk (staging out stem msg tag) w ≡ (r, u)
          → finish_publish disk out stem (r, u) ≡ (ok tt, v)
          → (u : W) × Performed (staging out stem msg tag) w u
            × Performed (publication out stem) u v
      by_result (ok tt) u h f = (
        u,
        run_all-Performed (staging out stem msg tag) w u h,
        run_all-Performed (publication out stem) u v f,
      )
      by_result (err x) u h f = absurd (err-ne-ok (λ i. (f i).0))

module _ (W : Type 0) (tools : Tools W) where
  pub pcr_read-run :
      (spec work : Bytes) (w v : W) (state : Bytes)
      → pcr_read W tools spec work w ≡ (ok state, v)
      → (u : W) × (o : Bytes) × (tools.run
            (codes "tpm2_pcrread" ∷ spec ∷ codes "-o" ∷ in_dir work (codes "pcrs.bin") ∷ [])
            w
          ≡ (ok o, u))
        × (tools.read_file (in_dir work (codes "pcrs.bin")) u ≡ (ok state, v))
  unfolding computing_commands
  pcr_read-run spec work w v state e =
      exec-elim
        (tools.run (codes "tpm2_pcrread" ∷ spec ∷ codes "-o" ∷ in_dir work (codes "pcrs.bin") ∷ []))
        _ w v e λ o u e1 f1. (u, o, e1, f1)

module _ (sha256 : Bytes → Bytes) (W : Type 0) (tools : Tools W) (disk : AgentDisk W) where
  -- Both files of the identity are there, and the id was read from its text.
  pub record IsIdentity (id : Bytes) (w v : W) : Type 0 where
    pub raw : Bytes
    pub has_id : disk.have_id w ≡ true
    pub has_key : disk.have_key w ≡ true
    pub text : disk.id_text w ≡ (ok raw, v)
    pub parsed : read_id raw ≡ ok id

  both_there : (a b : Bool) → inspect a b ≡ complete → (a ≡ true) × (b ≡ true)
  unfolding computing_prover
  both_there true true e = (refl, refl)
  both_there true false e = cc
  both_there false true e = cc
  both_there false false e = cc

  by_provisioning :
      (p : Provisioning) (id : Bytes) (w v : W)
      → inspect (disk.have_id w) (disk.have_key w) ≡ p
      → identity_of sha256 W tools disk p w ≡ (ok id, v)
      → IsIdentity id w v
  unfolding identity_of stored_id
  by_provisioning complete id w v h e = exec-elim disk.id_text _ w v e λ raw u e1 f1.
      lift-elim (read_id raw) u v f1 λ parsed here.
        let (has_id, has_key) = both_there (disk.have_id w) (disk.have_key w) h in
        record {
          raw = raw;
          has_id = has_id;
          has_key = has_key;
          text = e1 ∙ (λ i. (ok raw, here i));
          parsed = parsed;
        }
  by_provisioning absent id w v h e = absurd (raise-ne-ok _ w v e)
  by_provisioning (partial a b) id w v h e = absurd (raise-ne-ok _ w v e)

  pub identity-IsIdentity :
      (id : Bytes) (w v : W) → identity sha256 W tools disk w ≡ (ok id, v) → IsIdentity id w v
  unfolding identity look ◌>>=◌
  identity-IsIdentity id w v e =
      by_provisioning (inspect (disk.have_id w) (disk.have_key w)) id w v refl e
