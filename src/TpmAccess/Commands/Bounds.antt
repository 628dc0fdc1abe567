-- ===== src/TpmAccess/Commands/Bounds.antt =====
-- Bounds on what the commands of crates/attest-tpm/src/lib.rs and the files of crates/stop/src/port.rs give.
use tactiq_attest.Base.{
  ℕ, ◌^◌, ◌<◌, ◌≤◌, Bytes, List, IsByte, All, ◌≡◌, ap, ◌∙◌, Option, none, some, some-injective,
  length, from_be-lt, ok, ◌==◌, ==→eq, ltb, ltb→le, Bool-cases, inl, inr, ok-injective, err-ne-ok,
  subst,
}
use tactiq_attest.Service.Effects.{exec-elim, lift-elim, pure-elim}
use tactiq_attest.Service.Release.{max_record, max_sig}
use tactiq_attest.TpmAccess.Commands.{
  Tools, with_sig, counter_of, stop_nv_read, real, bounded, read_bounded, read_sig, read_release,
  release_files,
}

-- What the commands write to standard output are bytes.
abbrev pub WritesBytes : (W : Type 0) → Tools W → Type 0
WritesBytes W tools =
    (args : List Bytes) (out : Bytes) (w v : W) → tools.run args w ≡ (ok out, v) → All IsByte out

module _ (W : Type 0) (tools : Tools W) where
  counter_of-lt : (raw : Bytes) (n : ℕ) → All IsByte raw → counter_of raw ≡ ok n → n < 2 ^ 64
  unfolding counter_of
  counter_of-lt raw n h e = elim (Bool-cases (length raw == 8)) [
    | inl p ↦ subst (λ k. k < 2 ^ 64) (ok-injective (rw p at e)) (from_be-lt 8 raw (==→eq _ _ p) h)
    | inr p ↦ absurd (err-ne-ok (rw p at e))
  ]

  -- The counter that the chip gives to the service is below 2 ^ 64, if the commands write bytes.
  pub read_counter_bound :
      (scratch : Bytes) (w u : W) (n : ℕ)
      → WritesBytes W tools
      → (real W tools scratch).read_counter w ≡ (ok n, u)
      → n < 2 ^ 64
  unfolding real stop_nv_read
  read_counter_bound scratch w u n bytes e = exec-elim (tools.run _) _ w u e λ raw v e1 f1.
      lift-elim (counter_of raw) v u f1 λ e2 _. counter_of-lt raw n (bytes _ raw w v e1) e2

  bounded-le :
      (limit : ℕ) (found : Option Bytes) (b : Bytes)
      → bounded W tools limit found ≡ ok (some b)
      → length b ≤ limit
  unfolding bounded
  bounded-le limit none b e = absurd (none_ne_some (ok-injective e))
    where
      none_ne_some : none ≡ some b → ⊥
      none_ne_some h = cc
  bounded-le limit (some c) b e = elim (Bool-cases (ltb limit (length c))) [
    | inl p ↦ absurd (err-ne-ok (rw p at e))
    | inr p ↦
        subst (λ x. length x ≤ limit) (some-injective _ _ (ok-injective (rw p at e))) (ltb→le _ _ p)
  ]

  read_bounded-le :
      (p : Bytes) (limit : ℕ) (w v : W) (b : Bytes)
      → read_bounded W tools p limit w ≡ (ok (some b), v)
      → length b ≤ limit
  unfolding read_bounded
  read_bounded-le p limit w v b e = exec-elim (tools.read_if_there p) _ w v e λ found x _ f1.
      lift-elim (bounded W tools limit found) x v f1 λ e2 _. bounded-le limit found b e2

  with_sig-some :
      (rec : Bytes) (found : Option Bytes) (rec' sig : Bytes)
      → with_sig rec found ≡ some (rec', sig)
      → (rec ≡ rec') × (found ≡ some sig)
  with_sig-some rec none rec' sig e = cc
  with_sig-some rec (some s) rec' sig e =
      let pair : ◌≡◌ {A = Bytes × Bytes} (rec, s) (rec', sig) = some-injective _ _ e in
      (λ i. (pair i).0, ap some (λ i. (pair i).1))

  read_sig-bounds :
      (path : Bytes) (found : Option Bytes) (w v : W) (rec sig : Bytes)
      → read_sig W tools path found w ≡ (ok (some (rec, sig)), v)
      → (found ≡ some rec) × (length sig ≤ max_sig)
  unfolding read_sig
  read_sig-bounds path none w v rec sig e = pure-elim _ w v e λ h _. absurd (none_ne_some h)
    where
      none_ne_some : ◌≡◌ {A = Option (Bytes × Bytes)} none (some (rec, sig)) → ⊥
      none_ne_some h = cc
  read_sig-bounds path (some r) w v rec sig e =
      exec-elim (read_bounded W tools path max_sig) _ w v e λ found x e1 f1.
        pure-elim _ x v f1 λ h _.
          let (same, is) = with_sig-some r found rec sig h in
          (ap some same, read_bounded-le path max_sig w x sig (e1 ∙ (λ i. (ok (is i), x))))

  -- A release that is read from its two files has a record and a signature within their bounds.
  release_bounds :
      (rec_path sig_path : Bytes) (w v : W) (rec sig : Bytes)
      → (release_files W tools rec_path sig_path).read w ≡ (ok (some (rec, sig)), v)
      → (length rec ≤ max_record) × (length sig ≤ max_sig)
  unfolding release_files read_release
  release_bounds rec_path sig_path w v rec sig e =
      exec-elim (read_bounded W tools rec_path max_record) _ w v e λ found x e1 f1.
        let (is, short) = read_sig-bounds sig_path found x v rec sig f1 in
        (read_bounded-le rec_path max_record w x rec (e1 ∙ (λ i. (ok (is i), x))), short)
