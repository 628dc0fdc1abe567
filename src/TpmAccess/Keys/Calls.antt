-- ===== src/TpmAccess/Keys/Calls.antt =====
-- crates/attest-tpm/src/lib.rs: the calls that make the attestation key, read it and quote with it.
pub mod Same
use tactiq_attest.Base.{Bytes, not, [], ◌∷◌, codes, Result, if◌then◌else◌}
use tactiq_attest.Messages.{Message, no_object}
use tactiq_attest.Service.Effects.{Exec, pure, raise, lift, attempt, ◌>>=◌, ◌>>◌}
use tactiq_attest.Envelope.Tpm.{qualifying_data}
use tactiq_attest.TpmAccess.Commands.{Tools, in_dir, run_owner, handle_exists, quote_qualified}
use tactiq_attest.TpmAccess.Keys.{same_ak}

module _ (W : Type 0) (tools : Tools W) where
  -- `let _ = run(&["tpm2_flushcontext", "-t"])`
  flush : Exec Message W (Result Message Bytes)
  flush = attempt (tools.run (codes "tpm2_flushcontext" ∷ codes "-t" ∷ []))

  create_ek : Bytes → Exec Message W Bytes
  create_ek work = do
    let ctx = in_dir work (codes "ek.ctx")
    o ← tools.run (
        codes "tpm2_createek"
        ∷ codes "-c"
        ∷ ctx
        ∷ codes "-G"
        ∷ codes "rsa"
        ∷ codes "-u"
        ∷ in_dir work (codes "ek.pub")
        ∷ [])
    flushed ← flush
    pure ctx

  pub create_ak : Bytes → Exec Message W (Unit {0})
  create_ak work = do
    let ctx = in_dir work (codes "ak.ctx")
    ek ← create_ek work
    o ← tools.run (
        codes "tpm2_createak"
        ∷ codes "-C"
        ∷ ek
        ∷ codes "-c"
        ∷ ctx
        ∷ codes "-G"
        ∷ codes "ecc"
        ∷ codes "-g"
        ∷ codes "sha256"
        ∷ codes "-s"
        ∷ codes "ecdsa"
        ∷ codes "-u"
        ∷ in_dir work (codes "ak.pub")
        ∷ codes "-r"
        ∷ in_dir work (codes "ak.priv")
        ∷ [])
    flushed ← flush
    h ← lift tools.ak_handle
    kept ←
        run_owner W tools
          (codes "tpm2_evictcontrol" ∷ codes "-C" ∷ codes "o" ∷ codes "-c" ∷ ctx ∷ h ∷ [])
    flushed_again ← flush
    pure tt

  pub read_ak_public : Bytes → Exec Message W (Unit {0})
  read_ak_public out = do
    h ← lift tools.ak_handle
    o ← tools.run (codes "tpm2_readpublic" ∷ codes "-c" ∷ h ∷ codes "-o" ∷ out ∷ [])
    pure tt

  module _ (sha256 : Bytes → Bytes) where
    pub quote : Bytes → Bytes → Bytes → Bytes → Exec Message W (Unit {0})
    quote msg spec attest sig = do
      qd ← lift (qualifying_data sha256 msg)
      quote_qualified W tools qd spec attest sig

    -- The comparison, once there is an object at the handle.
    pub compare_ak : Bytes → Bytes → Exec Message W (Unit {0})
    compare_ak recorded work = do
      rec ← tools.read_file recorded
      read_ak_public (in_dir work (codes "ak.handle.pub"))
      cur ← tools.read_file (in_dir work (codes "ak.handle.pub"))
      lift (same_ak sha256 tools.ak_handle rec cur)

    pub verify_ak : Bytes → Bytes → Exec Message W (Unit {0})
    verify_ak recorded work = do
      akh ← lift tools.ak_handle
      there ← handle_exists W tools akh
      if not there then raise (no_object akh) else compare_ak recorded work

-- Named on the line of a test, opens what this module keeps shut.
unfoldable pub computing_keys : Unit {0}
unfolding flush create_ek create_ak read_ak_public quote compare_ak verify_ak
computing_keys = tt
