-- ===== src/Prover/Attest.antt =====
-- crates/prover/src/main.rs: the agent's commands over the TPM, its directory of keys and the audit
-- directory. What the file system does is the record `AgentDisk`.
pub mod Steps
pub mod Sound
use tactiq_attest.Base.{
  ℕ, zero, suc, ◌+◌, ◌-◌, Bytes, Bool, true, false, not, List, [], ◌∷◌, ◌++◌, codes, length,
  replicate, Result, ok, err, refuse_if, ◌==◌, ltb, if◌then◌else◌,
}
use tactiq_attest.Messages.{
  Message, R, not_provisioned, partial_state, already_provisioned, handle_occupied,
  built_other_length,
}
use tactiq_attest.Service.Effects.{Exec, pure, raise, lift, attempt, ◌>>=◌, ◌>>◌}
use tactiq_attest.Service.Text.{to_string}
use tactiq_attest.Envelope.{msg_len, encode_pcr_selection, build_canonical}
use tactiq_attest.TpmAccess.Commands.{Tools, handle_exists, nv_defined, nv_define, pcr_read}
use tactiq_attest.TpmAccess.Keys.Calls
use tactiq_attest.TpmAccess.PcrSpec.{parse_pcr_spec}
use tactiq_attest.Prover.{
  Provisioning, complete, absent, partial, inspect, validate_id, read_id, written_id,
}
use tactiq_attest.Prover.Counter.{CounterAlloc, outside, next}
use tactiq_attest.Prover.Names.{ext_msg, ext_attest, ext_sig, ext_tag, fin_name, is_part}
use tactiq_attest.Prover.Prune.{stems_to_prune}
use tactiq_attest.Prover.Publish.{
  DiskOp, create, write, sync, quote, rename, remove, sync_dir, join, publish_envelope,
}

-- The files of crates/prover: the identity, the directories, and the operations of a publication
-- other than the quote.
pub record AgentDisk (W : Type 0) : Type 0 where
  pub have_id : W → Bool
  pub have_key : W → Bool
  pub id_text : Exec Message W Bytes
  -- a new file of mode 0600, forced to disk with its directory
  pub create_id : Bytes → Exec Message W (Unit {0})
  pub finalize_pubkey : Exec Message W (Unit {0})
  pub ensure_dir : Bytes → Exec Message W (Unit {0})
  pub names : Bytes → Exec Message W (List Bytes)
  pub remove_file : Bytes → Exec Message W (Unit {0})
  -- a file that is not there is no error
  pub remove_if_there : Bytes → Exec Message W (Unit {0})
  pub operate : DiskOp → Exec Message W (Unit {0})

-- `{counter:012}`
pub stem_text : ℕ → Bytes
stem_text counter = let digits = to_string counter in replicate (12 - length digits) b'0' ++ digits

pub tag_text : Bytes → ℕ → Bytes
tag_text id counter = id ++ (codes " counter=" ++ (to_string counter ++ 10 ∷ []))

module _ (sha256 : Bytes → Bytes) (W : Type 0) (tools : Tools W) (disk : AgentDisk W) where
  look : Exec Message W Provisioning
  look w = (ok (inspect (disk.have_id w) (disk.have_key w)), w)

  pub stored_id : Exec Message W Bytes
  stored_id = do raw ← disk.id_text; lift (read_id raw)

  -- The identity that an attestation needs.
  identity_of : Provisioning → Exec Message W Bytes
  identity_of complete = stored_id
  identity_of absent = raise not_provisioned
  identity_of (partial have_id have_key) = raise (partial_state have_id have_key)

  pub identity : Exec Message W Bytes
  identity = look >>= identity_of

  remove_parts : Bytes → List Bytes → Exec Message W ℕ
  remove_parts out [] = pure 0
  remove_parts out (name ∷ names) =
      if is_part name
      then (disk.remove_file (join out name) >>= λ _. remove_parts out names >>= λ n. pure (n + 1))
      else remove_parts out names

  pub remove_partials : Bytes → Exec Message W ℕ
  remove_partials out = disk.names out >>= remove_parts out

  remove_stem : Bytes → Bytes → Exec Message W (Unit {0})
  remove_stem out stem = do
    disk.remove_if_there (join out (fin_name stem ext_msg))
    disk.remove_if_there (join out (fin_name stem ext_attest))
    disk.remove_if_there (join out (fin_name stem ext_sig))
    disk.remove_if_there (join out (fin_name stem ext_tag))

  remove_stems : Bytes → List Bytes → Exec Message W (Unit {0})
  remove_stems out [] = pure tt
  remove_stems out (stem ∷ stems) = remove_stem out stem >>= λ _. remove_stems out stems

  pub prune_audit : Bytes → ℕ → Exec Message W ℕ
  prune_audit out keep = do
    names ← disk.names out
    remove_stems out (stems_to_prune names keep)
    pure (length (stems_to_prune names keep))

  -- The operations of a publication, the quote by the TPM.
  pub publish_op : Bytes → Bytes → DiskOp → Exec Message W (Unit {0})
  publish_op msg spec (quote attest sig) = Calls.quote W tools sha256 msg spec attest sig
  publish_op msg spec op = disk.operate op

  -- From the counter on.
  pub emit : Bytes → Bytes → Bytes → Bytes → ℕ × Bytes → ℕ → Exec Message (W × CounterAlloc) ℕ
  emit work out spec id (alg_id, bitmap) counter = do
    pcr_state ← outside (pcr_read W tools spec work)
    let msg = build_canonical sha256 id counter (encode_pcr_selection alg_id bitmap) pcr_state []
    lift (refuse_if (not (length msg == msg_len)) (built_other_length (length msg)))
    outside
        (publish_envelope (publish_op msg spec) out (stem_text counter) msg (tag_text id counter))
    pure counter

  pub cmd_attest : Bytes → Bytes → Bytes → Bytes → Exec Message (W × CounterAlloc) ℕ
  cmd_attest pubkey work out spec = do
    outside (disk.ensure_dir work)
    outside (disk.ensure_dir out)
    stale ← outside (remove_partials out)
    id ← outside identity
    selection ← lift (parse_pcr_spec spec)
    outside (Calls.verify_ak W tools sha256 pubkey work)
    counter ← next W tools work
    emit work out spec id selection counter

  -- One round of the loop of `cmd_run`.
  pub cycle : Bytes → Bytes → Bytes → Bytes → ℕ → Exec Message (W × CounterAlloc) ℕ
  cycle pubkey work out spec keep = do
    counter ← cmd_attest pubkey work out spec
    pruned ← outside (prune_audit out keep)
    pure counter

  -- What `cmd_provision` does on a device without an identity.
  first_boot : Bytes → Bytes → Bytes → Bytes → Exec Message W (Unit {0})
  first_boot pubkey keys_dir work id = do
    akh ← lift tools.ak_handle
    there ← handle_exists W tools akh
    (if there then raise (handle_occupied akh) else Calls.create_ak W tools work)
    nv ← lift tools.nv_counter
    defined ← nv_defined W tools nv
    (if defined then pure tt else nv_define W tools)
    Calls.read_ak_public W tools pubkey
    disk.finalize_pubkey
    disk.operate (sync_dir keys_dir)
    line ← lift (written_id id)
    disk.create_id line

  provision_at : Bytes → Bytes → Bytes → Bytes → Provisioning → Exec Message W (Unit {0})
  provision_at pubkey keys_dir work id complete = do
    existing ← stored_id
    raise (already_provisioned existing)
  provision_at pubkey keys_dir work id (partial have_id have_key) =
      raise (partial_state have_id have_key)
  provision_at pubkey keys_dir work id absent = first_boot pubkey keys_dir work id

  pub cmd_provision : Bytes → Bytes → Bytes → Bytes → Exec Message W (Unit {0})
  cmd_provision pubkey keys_dir work id = do
    lift (validate_id id)
    disk.ensure_dir keys_dir
    disk.ensure_dir work
    state ← look
    provision_at pubkey keys_dir work id state

-- Named on the line of a test, opens what this module keeps shut.
unfoldable pub computing_attest : Unit {0}
unfolding stem_text tag_text look stored_id identity_of identity remove_parts remove_partials
    remove_stem remove_stems prune_audit publish_op emit cmd_attest cycle first_boot provision_at
    cmd_provision
computing_attest = tt
