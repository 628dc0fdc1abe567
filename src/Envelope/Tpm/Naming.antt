-- ===== src/Envelope/Tpm/Naming.antt =====
-- `EccPublic::name` of crates/attest-envelope/src/tpm.rs.
use tactiq_attest.Base.{
  Bytes, not, ◌++◌, ◌≡◌, sym, ok, ◌==◌, to_be, refuse_if, refuse_other, then-elim, ok-injective,
}
use tactiq_attest.Messages.{name_alg_not_supported}
use tactiq_attest.Envelope.Tpm.{EccPublic, name_of}

module _ (sha256 : Bytes → Bytes) where
  pub name_of_ok :
      (p : EccPublic) (name : Bytes)
      → name_of sha256 p ≡ ok name
      → (p.name_alg ≡ 0x000b) × (name ≡ to_be 2 0x000b ++ sha256 p.tpmt)
  unfolding name_of
  name_of_ok p name e =
      then-elim (refuse_if (not (p.name_alg == 0x000b)) (name_alg_not_supported p.name_alg)) _ e
        λ e1 f1. (refuse_other _ _ _ e1, sym (ok-injective f1))
