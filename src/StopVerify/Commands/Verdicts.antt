-- ===== src/StopVerify/Commands/Verdicts.antt =====
-- What the exit codes of tools/stop-verify/src/main.rs stand on.
use tactiq_attest.Base.{
  ℕ, ◌%◌, Bytes, [], ◌∷◌, List, Option, none, ◌≡◌, ◌≢◌, ◌∙◌, refl, sym, subst, ap, codes, bytes_eq,
  bytes_eq→eq, ok, err, map_err-eq-ok, Bool-cases, inl, inr,
}
use tactiq_attest.Messages.{R}
use tactiq_attest.Crypto.{Ecdsa}
use tactiq_attest.Service.Effects.{exec-elim, lift-bind-elim, pure-elim, raise-ne-ok}
use tactiq_attest.Stop.Record.{running, stopped}
use tactiq_attest.Appraise.Gate1.{from_tpm2b_public}
use tactiq_attest.Appraise.StopCheck.{
  StopFinding, StopBasis, by_counter, no_release, is_running, basis, StopInterval, StopTrust,
  verify_stop_receipt, verify_stop_interval,
}
use tactiq_attest.Appraise.StopCheck.Sound.{IsVouched, verify_stop_receipt_sound}
use tactiq_attest.Appraise.StopCheck.Basis.{not_running-stopped, running-even}
use tactiq_attest.Appraise.StopCheck.Interval.{IsHeld, verify_stop_interval_sound}
use tactiq_attest.StopVerify.{
  Json, reference_composite, device_id, Opts, opts, IntervalOpts, interval_opts,
}
use tactiq_attest.StopVerify.Commands.{
  Files, exit_code, trust, ak_of, check, interval, nonce, alone, command, code_of_result, main,
}

module _ (json : Json) (sha256 : Bytes → Bytes) (ecdsa : Ecdsa) (W : Type 0) (files : Files W) where
  -- What the options name: the key, the device and the build, with where each was read.
  pub record IsTrusted (ak_path id_text ref_path : Bytes) (slot : Option Bytes)
      (answered : Option Bytes) (w v : W) (t : StopTrust sha256 ecdsa) : Type 0 where
    pub after_ak : W
    pub ak_bytes : Bytes
    pub ref_text : Bytes
    pub ak_read : files.read ak_path w ≡ (ok ak_bytes, after_ak)
    pub ref_read : files.read_text ref_path after_ak ≡ (ok ref_text, v)
    pub ak : from_tpm2b_public sha256 ecdsa ak_bytes ≡ ok t.ak
    pub device : device_id id_text ≡ ok t.device_id
    pub build : reference_composite json sha256 ref_text slot ≡ ok t.pcr_composite
    pub nonce : t.nonce ≡ answered

  -- A receipt that the key vouches for.
  pub record IsChecked (a : List Bytes) (w v : W) (f : StopFinding) : Type 0 where
    pub o : Opts
    pub receipt : Bytes
    pub after_receipt : W
    pub t : StopTrust sha256 ecdsa
    pub options : opts a ≡ ok o
    pub read : files.read o.receipt w ≡ (ok receipt, after_receipt)
    pub trusted : IsTrusted o.ak o.device o.pcr_ref o.slot o.nonce after_receipt v t
    pub vouched : IsVouched sha256 ecdsa receipt t f

  check_code :
      (a : List Bytes) (w v : W) (code : ℕ)
      → check json sha256 ecdsa W files a w ≡ (ok code, v)
      → (f : StopFinding) × IsChecked a w v f × (exit_code (basis f) ≡ code)
  unfolding check ak_of
  check_code a w v code e = lift-bind-elim (opts a) _ w v e λ o e1 f1.
      exec-elim (files.read o.receipt) _ w v f1 λ receipt w1 e2 f2.
        exec-elim (files.read o.ak) _ w1 v f2 λ ak_bytes w2 e3 f3.
          lift-bind-elim (ak_of json sha256 ecdsa W files o.ak ak_bytes) _ w2 v f3 λ ak e4 f4.
            exec-elim (files.read_text o.pcr_ref) _ w2 v f4 λ ref_text w3 e5 f5.
              lift-bind-elim (reference_composite json sha256 ref_text o.slot) _ w3 v f5
                λ composite e6 f6. lift-bind-elim (device_id o.device) _ w3 v f6 λ id e7 f7.
                  let t = trust json sha256 ecdsa W files ak id composite o.nonce in
                  lift-bind-elim (verify_stop_receipt sha256 ecdsa receipt t) _ w3 v f7 λ f e8 f8.
                    pure-elim (exit_code (basis f)) w3 v f8 λ same here. (
                      f,
                      record {
                        o = o;
                        receipt = receipt;
                        after_receipt = w1;
                        t = t;
                        options = e1;
                        read = e2;
                        trusted = record {
                          after_ak = w2;
                          ak_bytes = ak_bytes;
                          ref_text = ref_text;
                          ak_read = e3;
                          ref_read =
                              subst (λ u. files.read_text o.pcr_ref w2 ≡ (ok ref_text, u)) here e5;
                          ak = map_err-eq-ok _ _ e4;
                          device = e7;
                          build = e6;
                          nonce = refl;
                        };
                        vouched = verify_stop_receipt_sound sha256 ecdsa receipt t f e8;
                      },
                      same,
                    )

  pub record IsIntervalHeld (a : List Bytes) (w v : W) : Type 0 where
    pub o : IntervalOpts
    pub first : Bytes
    pub second : Bytes
    pub after_first : W
    pub after_second : W
    pub t : StopTrust sha256 ecdsa
    pub found : StopInterval sha256 ecdsa
    pub options : interval_opts a ≡ ok o
    pub first_read : files.read o.first w ≡ (ok first, after_first)
    pub second_read : files.read o.second after_first ≡ (ok second, after_second)
    pub trusted : IsTrusted o.ak o.device o.pcr_ref o.slot none after_second v t
    pub held : IsHeld sha256 ecdsa first o.first_nonce second o.second_nonce t found

  interval_code :
      (a : List Bytes) (w v : W) (code : ℕ)
      → interval json sha256 ecdsa W files a w ≡ (ok code, v)
      → IsIntervalHeld a w v × (code ≡ 0)
  unfolding interval ak_of
  interval_code a w v code e = lift-bind-elim (interval_opts a) _ w v e λ o e1 f1.
      exec-elim (files.read o.first) _ w v f1 λ r1 w1 e2 f2.
        exec-elim (files.read o.second) _ w1 v f2 λ r2 w2 e3 f3.
          exec-elim (files.read o.ak) _ w2 v f3 λ ak_bytes w3 e4 f4.
            lift-bind-elim (ak_of json sha256 ecdsa W files o.ak ak_bytes) _ w3 v f4 λ ak e5 f5.
              exec-elim (files.read_text o.pcr_ref) _ w3 v f5 λ ref_text w4 e6 f6.
                lift-bind-elim (reference_composite json sha256 ref_text o.slot) _ w4 v f6
                  λ composite e7 f7. lift-bind-elim (device_id o.device) _ w4 v f7 λ id e8 f8.
                    let t = trust json sha256 ecdsa W files ak id composite none in
                    lift-bind-elim
                      (verify_stop_interval sha256 ecdsa r1 o.first_nonce r2 o.second_nonce t) _ w4
                      v f8
                      λ i e9 f9. pure-elim 0 w4 v f9 λ same here. (
                        record {
                          o = o;
                          first = r1;
                          second = r2;
                          after_first = w1;
                          after_second = w2;
                          t = t;
                          found = i;
                          options = e1;
                          first_read = e2;
                          second_read = e3;
                          trusted = record {
                            after_ak = w3;
                            ak_bytes = ak_bytes;
                            ref_text = ref_text;
                            ak_read = e4;
                            ref_read =
                                subst (λ u. files.read_text o.pcr_ref w3 ≡ (ok ref_text, u)) here
                                  e6;
                            ak = map_err-eq-ok _ _ e5;
                            device = e8;
                            build = e7;
                            nonce = refl;
                          };
                          held =
                              verify_stop_interval_sound sha256 ecdsa r1 o.first_nonce r2
                                o.second_nonce t i e9;
                        },
                        sym same,
                      )

  -- The runs that end with another exit code than 1, and that code.
  pub data Verified (args : List Bytes) (w v : W) : ℕ → Type 0 where
    told_stopped :
        (a : List Bytes) (f : StopFinding)
        → args ≡ codes "check" ∷ a
        → IsChecked a w v f
        → f.state ≡ stopped
        → Verified args w v 0
    told_running :
        (a : List Bytes) (f : StopFinding)
        → args ≡ codes "check" ∷ a
        → IsChecked a w v f
        → f.stop_epoch % 2 ≢ 1
        → f.state ≡ running
        → Verified args w v 2
    told_held :
        (a : List Bytes) → args ≡ codes "interval" ∷ a → IsIntervalHeld a w v → Verified args w v 0
    only_nonce : args ≡ codes "nonce" ∷ [] → Verified args w v 0

  by_basis :
      (args a : List Bytes) (w v : W) (f : StopFinding) (b : StopBasis)
      → args ≡ codes "check" ∷ a
      → IsChecked a w v f
      → basis f ≡ b
      → Verified args w v (exit_code b)
  unfolding exit_code
  by_basis args a w v f is_running same c e =
      let (even, runs) = running-even sha256 ecdsa f e in told_running a f same c even runs
  by_basis args a w v f by_counter same c e =
      told_stopped a f same c
        (not_running-stopped sha256 ecdsa _ _ f c.vouched λ h. apart (sym e ∙ h))
    where
      apart : ◌≡◌ {A = StopBasis} by_counter is_running → ⊥
      apart h = cc
  by_basis args a w v f no_release same c e =
      told_stopped a f same c
        (not_running-stopped sha256 ecdsa _ _ f c.vouched λ h. apart (sym e ∙ h))
    where
      apart : ◌≡◌ {A = StopBasis} no_release is_running → ⊥
      apart h = cc

  alone_code :
      (a : List Bytes) (w v : W) (code : ℕ)
      → alone json sha256 ecdsa W files a w ≡ (ok code, v)
      → (a ≡ []) × (code ≡ 0)
  unfolding alone nonce
  alone_code [] w v code e =
      exec-elim files.random _ w v e λ b w1 e1 f1. pure-elim 0 w1 v f1 λ same here. (refl, sym same)
  alone_code (b ∷ bs) w v code e = absurd (raise-ne-ok _ w v e)

  command_code :
      (args : List Bytes) (w v : W) (code : ℕ)
      → command json sha256 ecdsa W files args w ≡ (ok code, v)
      → Verified args w v code
  unfolding command
  command_code [] w v code e = absurd (raise-ne-ok _ w v e)
  command_code (name ∷ a) w v code e = elim (Bool-cases (bytes_eq name (codes "check"))) [
    | inl p ↦
        let (f, c, same) = check_code a w v code (rw p at e) in
        subst (Verified (name ∷ a) w v) same
          (by_basis (name ∷ a) a w v f (basis f) (ap (λ n. n ∷ a) (bytes_eq→eq _ _ p)) c refl)
    | inr p ↦ elim (Bool-cases (bytes_eq name (codes "interval"))) [
      | inl q ↦
          let (held, same) = interval_code a w v code (rw (p, q) at e) in
          subst (Verified (name ∷ a) w v) (sym same)
            (told_held a (ap (λ n. n ∷ a) (bytes_eq→eq _ _ q)) held)
      | inr q ↦ elim (Bool-cases (bytes_eq name (codes "nonce"))) [
        | inl r ↦
            let (nothing, same) = alone_code a w v code (rw (p, q, r) at e) in
            subst (Verified (name ∷ a) w v) (sym same)
              (only_nonce λ i. bytes_eq→eq name (codes "nonce") r i ∷ nothing i)
        | inr r ↦ absurd (raise-ne-ok _ w v (rw (p, q, r) at e))
      ]
    ]
  ]

  -- A run of the stop verifier that ends with another exit code than 1 has verified what the code
  -- says: with 0, either check was asked, the receipt passes under the key, device, build and
  -- nonce that the options name and says that the agent is stopped, or interval was asked and the
  -- two receipts show that a stop held, or only a nonce was asked for; with 2, check was asked,
  -- the receipt passes and says at an even counter that the agent runs; there is no other code.
  pub main-Verified :
      (args : List Bytes) (w v : W) (code : ℕ)
      → main json sha256 ecdsa W files args w ≡ (code, v)
      → code ≢ 1
      → Verified args w v code
  unfolding main code_of_result
  main-Verified args w v code e n =
      by_result ((command json sha256 ecdsa W files args w).0) _ refl e
    where
      by_result :
          (r : R ℕ) (u : W)
          → command json sha256 ecdsa W files args w ≡ (r, u)
          → ◌≡◌ {A = ℕ × W} (code_of_result json sha256 ecdsa W files r, u) (code, v)
          → Verified args w v code
      by_result (ok n) u c h = command_code args w v code (c ∙ λ i. (ok ((h i).0), (h i).1))
      by_result (err x) u c h = absurd (n (sym (λ i. (h i).0)))
