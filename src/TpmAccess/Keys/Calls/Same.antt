-- ===== src/TpmAccess/Keys/Calls/Same.antt =====
-- `verify_ak` of crates/attest-tpm/src/lib.rs: the key at the handle is the recorded one.
use tactiq_attest.Base.{
  Bytes, [], ◌∷◌, ◌++◌, codes, bytes_eq, bytes_eq→eq, ok, map_err, map_err-eq-ok, ◌≡◌, sym, ◌∙◌,
  to_be, bind-elim, err-ne-ok, Bool-cases, inl, inr,
}
use tactiq_attest.Messages.{Message, R, recorded_unusable, handle_not_ak, no_object}
use tactiq_attest.Service.Effects.{exec-elim, lift-bind-elim, lift-elim, pure-elim, raise-ne-ok}
use tactiq_attest.Envelope.Tpm.{EccPublic, parse_tpm2b}
use tactiq_attest.Envelope.Tpm.Naming.{name_of_ok}
use tactiq_attest.TpmAccess.Commands.{Tools, in_dir, handle_exists}
use tactiq_attest.TpmAccess.Keys.{name_at, handle_or_default, same_ak}
use tactiq_attest.TpmAccess.Keys.Calls.{read_ak_public, compare_ak, verify_ak}

module _ (sha256 : Bytes → Bytes) where
  -- Two public areas, both named by SHA-256 and with one name.
  pub record HaveOneName (recorded at_handle : Bytes) : Type 0 where
    pub p : EccPublic
    pub q : EccPublic
    pub recorded_parsed : parse_tpm2b recorded ≡ ok p
    pub handle_parsed : parse_tpm2b at_handle ≡ ok q
    pub recorded_alg : p.name_alg ≡ 0x000b
    pub handle_alg : q.name_alg ≡ 0x000b
    pub one_name : to_be 2 0x000b ++ sha256 p.tpmt ≡ to_be 2 0x000b ++ sha256 q.tpmt

  Named : Bytes → Bytes → Type 0
  Named public name =
      (p : EccPublic) × (parse_tpm2b public ≡ ok p)
      × (p.name_alg ≡ 0x000b)
      × (name ≡ to_be 2 0x000b ++ sha256 p.tpmt)

  name_at-Named : (public name : Bytes) → name_at sha256 public ≡ ok name → Named public name
  unfolding name_at Named
  name_at-Named public name e =
      bind-elim (parse_tpm2b public) _ e
        λ p e1 f1. let (alg, named) = name_of_ok sha256 p name f1 in (p, e1, alg, named)

  pub same_ak-HaveOneName :
      (ak_handle : R Bytes) (recorded at_handle : Bytes)
      → same_ak sha256 ak_handle recorded at_handle ≡ ok tt
      → HaveOneName recorded at_handle
  unfolding same_ak Named
  same_ak-HaveOneName ak_handle recorded at_handle e =
      let akh = handle_or_default sha256 ak_handle in
      bind-elim (map_err recorded_unusable (name_at sha256 recorded)) _ e λ r e1 f1.
        bind-elim (map_err (handle_not_ak akh) (name_at sha256 at_handle)) _ f1 λ h e2 f2.
          let (p, parsed, alg, named) = name_at-Named recorded r (map_err-eq-ok _ _ e1) in
          let (q, parsed', alg', named') = name_at-Named at_handle h (map_err-eq-ok _ _ e2) in
          elim (Bool-cases (bytes_eq r h)) [
            | inl one ↦ record {
              p = p;
              q = q;
              recorded_parsed = parsed;
              handle_parsed = parsed';
              recorded_alg = alg;
              handle_alg = alg';
              one_name = sym named ∙ bytes_eq→eq r h one ∙ named';
            }
            | inr other ↦ absurd (err-ne-ok (rw other at f2))
          ]

  module _ (W : Type 0) (tools : Tools W) where
    -- The recorded file was read, then the public area at the handle was asked for and read, and
    -- the two have one name.
    pub record IsSameKey (recorded work : Bytes) (v : W) : Type 0 where
      pub handle : Bytes
      pub start : W
      pub after_recorded : W
      pub after_asked : W
      pub recorded_bytes : Bytes
      pub handle_bytes : Bytes
      pub output : Bytes
      pub at : tools.ak_handle ≡ ok handle
      pub recorded_read : tools.read_file recorded start ≡ (ok recorded_bytes, after_recorded)
      pub asked :
          tools.run
            (codes "tpm2_readpublic"
              ∷ codes "-c"
              ∷ handle
              ∷ codes "-o"
              ∷ in_dir work (codes "ak.handle.pub")
              ∷ [])
            after_recorded
          ≡ (ok output, after_asked)
      pub handle_read :
          tools.read_file (in_dir work (codes "ak.handle.pub")) after_asked ≡ (ok handle_bytes, v)
      pub one : HaveOneName recorded_bytes handle_bytes

    compare_ak-IsSameKey :
        (recorded work : Bytes) (w v : W)
        → compare_ak W tools sha256 recorded work w ≡ (ok tt, v)
        → IsSameKey recorded work v
    unfolding compare_ak read_ak_public
    compare_ak-IsSameKey recorded work w v e =
        exec-elim (tools.read_file recorded) _ w v e λ rec w1 e1 f1.
          exec-elim (read_ak_public W tools (in_dir work (codes "ak.handle.pub"))) _ w1 v f1
            λ u w2 e2 f2.
              exec-elim (tools.read_file (in_dir work (codes "ak.handle.pub"))) _ w2 v f2
                λ cur w3 e3 f3.
                  lift-elim (same_ak sha256 tools.ak_handle rec cur) w3 v f3 λ same here.
                    lift-bind-elim tools.ak_handle _ w1 w2 e2 λ h at r1.
                      exec-elim
                        (tools.run (
                          codes "tpm2_readpublic"
                          ∷ codes "-c"
                          ∷ h
                          ∷ codes "-o"
                          ∷ in_dir work (codes "ak.handle.pub")
                          ∷ []))
                        _ w1 w2 r1
                        λ o w2' asked r2. pure-elim {E = Message} tt w2' w2 r2 λ _ there. record {
                          handle = h;
                          start = w;
                          after_recorded = w1;
                          after_asked = w2;
                          recorded_bytes = rec;
                          handle_bytes = cur;
                          output = o;
                          at = at;
                          recorded_read = e1;
                          asked = asked ∙ (λ i. (ok o, there i));
                          handle_read = e3 ∙ (λ i. (ok cur, here i));
                          one = same_ak-HaveOneName tools.ak_handle rec cur same;
                        }

    pub verify_ak-IsSameKey :
        (recorded work : Bytes) (w v : W)
        → verify_ak W tools sha256 recorded work w ≡ (ok tt, v)
        → IsSameKey recorded work v
    unfolding verify_ak
    verify_ak-IsSameKey recorded work w v e = lift-bind-elim tools.ak_handle _ w v e λ akh _ f1.
        exec-elim (handle_exists W tools akh) _ w v f1 λ there w1 _ f2. elim (Bool-cases there) [
          | inl p ↦ compare_ak-IsSameKey recorded work w1 v (rw p at f2)
          | inr p ↦ absurd (raise-ne-ok (no_object akh) w1 v (rw p at f2))
        ]
