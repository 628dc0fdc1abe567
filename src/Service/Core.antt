-- ===== src/Service/Core.antt =====
-- crates/stop/src/core.rs: the decisions of the stop service.
pub mod Gating
pub mod Signing
pub mod Moves
pub mod Counter
pub mod History
pub mod Answers
pub mod Verified
use tactiq_attest.Base.{
  ℕ, ◌+◌, ◌%◌, ◌^◌, Bytes, Bool, true, false, not, List, [], ◌∷◌, Option, none, some, length,
  Result, ok, err, refuse_if, ◌==◌, if◌then◌else◌,
}
use tactiq_attest.Base
use tactiq_attest.Messages.{
  Message, R, no_release, stop_records, built_length, no_valid_release, odd_epoch, increment_failed,
  not_read_back, other_writer,
}
use tactiq_attest.Crypto.{Ecdsa}
use tactiq_attest.Envelope.{msg_len, encode_pcr_selection, build_canonical}
use tactiq_attest.Envelope.Bundle.{
  Section, tag_stop_state, tag_tpm_nv_certify, tag_verifier_nonce, build_bundle, parse_bundle,
}
use tactiq_attest.Stop.Record
use tactiq_attest.Stop.Record.{State, running, stopped, refusal, status, StopRecord, check_nonce}
use tactiq_attest.Stop.NvCertify
use tactiq_attest.Stop.NvCertify.{NvCertify}
use tactiq_attest.Stop.Certify.{check_counter_certify, certify_qualifying, stop_quote_qualifying}
use tactiq_attest.Stop.Receipt
use tactiq_attest.Stop.Receipt.{Receipt}
use tactiq_attest.Service.Effects.{Exec, pure, raise, lift, ◌>>=◌, ◌>>◌, or_fail, attempt}
use tactiq_attest.Service.Port.{StopTpm, ReleaseStore}
use tactiq_attest.Service.Release

pub state_of : ℕ → State
state_of counter = if counter % 2 == 0 then running else stopped

pub data Gate : Type 0 where
  open_gate stopped_gate : Gate
  unreleased : Message → Gate

pub gate_state : Gate → State
gate_state open_gate = running
gate_state stopped_gate = stopped
gate_state (unreleased why) = stopped

pub data Admission : Type 0 where
  allow : Admission
  refuse : Bytes → Admission

pub data Transition : Type 0 where
  -- from, to
  changed : ℕ → ℕ → Transition
  already_there : ℕ → Transition

pub record TransitionError : Type 0 where
  pub message : Message
  pub now : Option ℕ

-- `==` of two states.
abbrev same_state : State → State → Bool
same_state running running = true
same_state stopped stopped = true
same_state _ _ = false

-- The sections of a bundle: the nonce is there only if it is not empty.
abbrev pub stop_sections : Bytes → Bytes → Bytes → List Section
stop_sections body cert nonce =
    record { tag = tag_stop_state; body = body }
    ∷ record { tag = tag_tpm_nv_certify; body = cert }
    ∷ (if length nonce == 0 then [] else record { tag = tag_verifier_nonce; body = nonce } ∷ [])

-- `sections.iter().filter(|s| s.tag == TAG_STOP_STATE)`
pub stop_records_of : List Section → List Section
stop_records_of [] = []
stop_records_of (s ∷ ss) =
    let rest = stop_records_of ss in if s.tag == tag_stop_state then s ∷ rest else rest

only_record : List Section → R StopRecord
only_record [] = err (stop_records 0)
only_record (s ∷ []) = Record.parse s.body
only_record (s ∷ (t ∷ ss)) = err (stop_records (length (s ∷ t ∷ ss)))

pub record_of : Bytes → R StopRecord
record_of receipt =
    Base.◌>>=◌ (Receipt.parse receipt)
      λ r. Base.◌>>=◌ (parse_bundle r.bundle) λ sections. only_record (stop_records_of sections)

module _ (ecdsa : Ecdsa) (W : Type 0) where
  pub record Lift : Type 0 where
    pub device_id : Bytes
    pub operator_key : ecdsa.Key
    pub release : ReleaseStore W

  pub record Ctx : Type 0 where
    pub lift_stop : Lift
    pub device_id : Bytes
    pub pcr_spec : Bytes
    pub pcr_alg : ℕ
    pub pcr_bitmap : Bytes
    pub policy_digest : Bytes
    pub stop_index_name : Bytes

  -- The `match` on what the store holds.
  released : Lift → ℕ → Option (Bytes × Bytes) → Gate
  released l counter none = unreleased no_release
  released l counter (some (rec, sig)) =
      elim (Release.check ecdsa l.operator_key rec sig l.device_id counter) [
        | ok _ ↦ open_gate
        | err e ↦ unreleased e
      ]

  pub gate : Lift → ℕ → Exec Message W Gate
  gate l counter =
      if same_state (state_of counter) stopped
      then pure stopped_gate
      else (do found ← l.release.read; pure (released l counter found))

module _ (sha256 : Bytes → Bytes) (ecdsa : Ecdsa) (W : Type 0) where
  pub sign : StopTpm W → Ctx ecdsa W → StopRecord → Bytes → Exec Message W Bytes
  sign tpm ctx rec nonce = do
    body ← lift (Record.encode rec)
    let qd = certify_qualifying sha256 body nonce
    (c_attest, c_sig) ← tpm.certify qd
    lift (check_counter_certify c_attest qd ctx.stop_index_name rec.stop_epoch)
    cert ← lift (NvCertify.encode (record { attest = c_attest; sig = c_sig }))
    bundle ← lift (build_bundle (stop_sections body cert nonce))
    pcr_state ← tpm.pcr_read ctx.pcr_spec
    let selection = encode_pcr_selection ctx.pcr_alg ctx.pcr_bitmap
    let msg = build_canonical sha256 ctx.device_id rec.stop_epoch selection pcr_state bundle
    lift (refuse_if (not (length msg == msg_len)) (built_length (length msg) msg_len))
    (q_attest, q_sig) ← tpm.quote (stop_quote_qualifying sha256 msg) ctx.pcr_spec
    lift (
        Receipt.encode
          (record { msg = msg; quote_attest = q_attest; quote_sig = q_sig; bundle = bundle }))

  -- The record that goes with a refused call.
  abbrev pub refusal_of : Ctx ecdsa W → Bytes → ℕ → StopRecord
  refusal_of ctx request_digest counter = record {
    kind = refusal request_digest;
    state = stopped;
    stop_epoch = counter;
    policy_digest = ctx.policy_digest;
  }

  -- The `match` on the gate.
  pub admit_at : StopTpm W → Ctx ecdsa W → Bytes → ℕ → Gate → Exec Message W Admission
  admit_at tpm ctx request_digest counter open_gate = pure allow
  admit_at tpm ctx request_digest counter _ = do
    receipt ← sign tpm ctx (refusal_of ctx request_digest counter) []
    pure (refuse receipt)

  pub admit : StopTpm W → Ctx ecdsa W → Bytes → Exec Message W Admission
  admit tpm ctx request_digest = do
    counter ← tpm.read_counter
    g ← gate ecdsa W ctx.lift_stop counter
    admit_at tpm ctx request_digest counter g

  pub status_answer : StopTpm W → Ctx ecdsa W → Bytes → Exec Message W Bytes
  status_answer tpm ctx nonce = do
    lift (if not (length nonce == 0) then check_nonce nonce else ok tt)
    counter ← tpm.read_counter
    g ← gate ecdsa W ctx.lift_stop counter
    let rec : StopRecord = record {
      kind = status;
      state = gate_state g;
      stop_epoch = counter;
      policy_digest = ctx.policy_digest;
    }
    sign tpm ctx rec nonce

-- Named on the line of a test, opens what this module keeps shut.
unfoldable pub computing_core : Unit {0}
unfolding state_of gate_state stop_records_of only_record record_of released gate sign admit_at
    admit status_answer
computing_core = tt
