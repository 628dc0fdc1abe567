-- ===== src/TpmAccess/Commands/Own.antt =====
-- `verify_stop_counter` of crates/attest-tpm/src/lib.rs: what the listing of the index said.
use tactiq_attest.Base.{ℕ, Bytes, [], ◌∷◌, codes, ok, ◌≡◌, subst}
use tactiq_attest.Service.Effects.{exec-elim, lift-elim}
use tactiq_attest.TpmAccess.{parse_nv_attributes, check_stop_attributes}
use tactiq_attest.TpmAccess.Attributes.{IsOwnCounter, check_stop_attributes_exact}
use tactiq_attest.TpmAccess.Attributes.Read.{parse_nv_attributes-lt}
use tactiq_attest.TpmAccess.Commands.{
  Tools, stop_nv_counter, stop_nv_attributes, verify_stop_counter,
}

module _ (W : Type 0) (tools : Tools W) where
  -- A listing of the index was read, and the attributes in it are those of a counter of its own.
  pub record IsOwn (u x : W) : Type 0 where
    pub listing : Bytes
    pub attrs : ℕ
    pub read : tools.run (codes "tpm2_nvreadpublic" ∷ stop_nv_counter ∷ []) u ≡ (ok listing, x)
    pub parsed : parse_nv_attributes listing ≡ ok attrs
    pub own : IsOwnCounter attrs

  pub verify_stop_counter-IsOwn : (u x : W) → verify_stop_counter W tools u ≡ (ok tt, x) → IsOwn u x
  unfolding verify_stop_counter stop_nv_attributes
  verify_stop_counter-IsOwn u x e = exec-elim (stop_nv_attributes W tools) _ u x e λ attrs v e1 f1.
      exec-elim (tools.run (codes "tpm2_nvreadpublic" ∷ stop_nv_counter ∷ [])) _ u v e1
        λ listing v' e2 f2. lift-elim (parse_nv_attributes listing) v' v f2 λ parsed here.
          lift-elim (check_stop_attributes attrs) v x f1 λ checked there. record {
            listing = listing;
            attrs = attrs;
            read =
                subst
                  (λ w.
                    tools.run (codes "tpm2_nvreadpublic" ∷ stop_nv_counter ∷ []) u
                    ≡ (ok listing, w))
                  there
                  (subst
                    (λ w.
                      tools.run (codes "tpm2_nvreadpublic" ∷ stop_nv_counter ∷ []) u
                      ≡ (ok listing, w))
                    here e2);
            parsed = parsed;
            own =
                (check_stop_attributes_exact attrs (parse_nv_attributes-lt listing attrs parsed)).0
                  checked;
          }
