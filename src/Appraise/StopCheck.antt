-- ===== src/Appraise/StopCheck.antt =====
-- crates/attest-appraise/src/stop.rs: the check of a stop receipt away from the device, and of a stop
-- that held between two receipts.
pub mod Parts
pub mod Placing
pub mod Sound
pub mod Basis
pub mod Complete
pub mod Interval
pub mod Served
use tactiq_attest.Base.{
  ℕ, ◌+◌, ◌-◌, ◌%◌, ◌^◌, Bytes, Bool, true, false, ◌||◌, ◌&&◌, not, List, [], ◌∷◌, Option, none,
  some, length, slice, from_be, bytes_eq, Result, ok, err, ◌>>=◌, ◌>>◌, refuse_if, ok_or, map_err,
  ◌==◌, leb, if◌then◌else◌,
}
use tactiq_attest.Messages.{
  Message, R, Part, stop_quote, nv_certify, other_selection, other_pcr_digest, in_quote,
  part_malformed, part_not_verified, quote_other_message, quote_other_reference, quote_other_build,
  other_device, bundle_other_hash, section_no_place, section_twice, no_stop_record,
  epoch_not_counter, other_challenge, nonce_missing, nonce_unexpected, nonce_not_status,
  no_nv_certify, odd_running, two_boots, interval_nonce_in_trust, interval_same_challenge,
  first_receipt, second_receipt, first_not_counter, second_not_counter, interval_moved,
  interval_reset, interval_restart, interval_not_later,
}
use tactiq_attest.Crypto.{Ecdsa}
use tactiq_attest.Envelope
use tactiq_attest.Envelope.{AttestationMessage, evidence_digest}
use tactiq_attest.Envelope.Bundle.{
  Section, tag_stop_state, tag_tpm_nv_certify, tag_verifier_nonce, parse_bundle,
}
use tactiq_attest.Envelope.Tpm.{Quote, ClockInfo, banks, parse_quote}
use tactiq_attest.Stop.Record
use tactiq_attest.Stop.Record.{
  StopRecord, Kind, refusal, status, State, running, stopped, check_nonce,
}
use tactiq_attest.Stop.NvCertify
use tactiq_attest.Stop.NvCertify.{NvCertify}
use tactiq_attest.Stop.Receipt
use tactiq_attest.Stop.Receipt.{Receipt}
use tactiq_attest.Stop.Certify.{
  TpmClock, same_boot, NvCertifyInfo, parse_nv_certify_info, check_counter_certify,
  certify_qualifying, stop_index_name, stop_quote_qualifying,
}
use tactiq_attest.Appraise.Gate1.{AkKey, only_bank, decode}

pub record StopFinding : Type 0 where
  pub kind : Kind
  pub state : State
  pub stop_epoch : ℕ
  pub policy_digest : Bytes
  pub fresh : Bool
  pub clock : TpmClock

pub data StopBasis : Type 0 where
  by_counter no_release is_running : StopBasis

-- The arms of `basis` for an even counter.
abbrev even_basis : State → StopBasis
even_basis stopped = no_release
even_basis running = is_running

pub basis : StopFinding → StopBasis
basis f = if f.stop_epoch % 2 == 1 then by_counter else even_basis f.state

-- The bodies found so far: `rec`, `cert` and `nonce`.
pub record Slots : Type 0 where
  pub rec : Option Bytes
  pub cert : Option Bytes
  pub nonce : Option Bytes

-- `if slot.replace(s.body).is_some()`
abbrev fill : Option Bytes → Section → R (Option Bytes)
fill none s = ok (some s.body)
fill (some b) s = err (section_twice s.tag)

place : Slots → Section → R Slots
place sl s =
    if s.tag == tag_stop_state
    then (do rec ← fill sl.rec s; ok (record sl { rec = rec }))
    else if s.tag == tag_tpm_nv_certify
    then (do cert ← fill sl.cert s; ok (record sl { cert = cert }))
    else if s.tag == tag_verifier_nonce
    then (do nonce ← fill sl.nonce s; ok (record sl { nonce = nonce }))
    else err (section_no_place s.tag)

-- The loop over the sections.
pub place_all : Slots → List Section → R Slots
place_all sl [] = ok sl
place_all sl (s ∷ ss) = do sl' ← place sl s; place_all sl' ss

abbrev pub no_slots : Slots
no_slots = record { rec = none; cert = none; nonce = none }

-- The `match` on the nonce that was sent and the one found.
pub nonce_of : Option Bytes → Option Bytes → R Bytes
nonce_of (some want) (some got) = do
  check_nonce got
  refuse_if (not (bytes_eq got want)) other_challenge
  ok got
nonce_of (some want) none = err nonce_missing
nonce_of none (some got) = err nonce_unexpected
nonce_of none none = ok []

-- `record.kind != Kind::Status`
abbrev pub is_status : Kind → Bool
is_status (refusal request_digest) = false
is_status status = true

-- `record.state == State::Running`
abbrev pub says_running : State → Bool
says_running running = true
says_running stopped = false

-- `TpmClock { … }` of the quote's clock.
abbrev pub quoted_clock : ClockInfo → TpmClock
quoted_clock c = record {
  clock = c.clock;
  reset_count = c.reset_count;
  restart_count = c.restart_count;
  safe = c.safe;
}

-- One bank, equal to the message's selection, and the message's digest.
pub covers : AttestationMessage → Quote → R (Unit {0})
covers msg q = do
  (alg, bits) ← only_bank q.pcr_banks.count (banks q.pcr_banks)
  refuse_if
      (not (alg == from_be (slice 0 2 msg.pcr_selection))
        || not (bytes_eq bits (slice 2 (length msg.pcr_selection) msg.pcr_selection)))
      other_selection
  refuse_if (not (bytes_eq q.pcr_digest msg.pcr_hash)) other_pcr_digest
  ok tt

module _ (sha256 : Bytes → Bytes) (ecdsa : Ecdsa) where
  pub verify : ecdsa.Key → Bytes → Bytes → Part → R (Unit {0})
  verify vk signed sig what = do
    s ← ok_or (part_malformed what) (decode sha256 ecdsa sig)
    refuse_if (not (ecdsa.verify vk signed s)) (part_not_verified what)

  pub record StopTrust : Type 0 where
    pub ak : AkKey sha256 ecdsa
    pub device_id : Bytes
    pub pcr_selection : Bytes
    pub pcr_composite : Bytes
    pub nonce : Option Bytes

  -- The steps 2 to 6: the quote, and what its message says of the device, the build and the bundle.
  pub check_quote : StopTrust → Receipt → AttestationMessage → R Quote
  check_quote t r msg = do
    q ← map_err in_quote (parse_quote r.quote_attest)
    verify t.ak.vk r.quote_attest r.quote_sig stop_quote
    refuse_if (not (bytes_eq q.extra_data (stop_quote_qualifying sha256 r.msg))) quote_other_message
    covers msg q
    refuse_if (not (bytes_eq msg.pcr_selection t.pcr_selection)) quote_other_reference
    refuse_if (not (bytes_eq msg.pcr_hash t.pcr_composite)) quote_other_build
    refuse_if (not (bytes_eq msg.device_id t.device_id)) (other_device msg.device_id t.device_id)
    refuse_if (not (bytes_eq (evidence_digest sha256 r.bundle) msg.evidence_hash)) bundle_other_hash
    ok q

  -- The steps 7 to 9 up to the certify: the sections, the record and the nonce.
  pub check_record :
      StopTrust → Receipt → AttestationMessage → R (Slots × Bytes × StopRecord × Bytes)
  check_record t r msg = do
    sections ← parse_bundle r.bundle
    slots ← place_all no_slots sections
    body ← ok_or no_stop_record slots.rec
    rec ← Record.parse body
    refuse_if (not (rec.stop_epoch == msg.counter)) epoch_not_counter
    nonce_bytes ← nonce_of t.nonce slots.nonce
    refuse_if (not (length nonce_bytes == 0) && not (is_status rec.kind)) nonce_not_status
    ok (slots, body, rec, nonce_bytes)

  -- The rest: the certify, the parity and the boot.
  pub check_certify : StopTrust → Quote → Slots → Bytes → StopRecord → Bytes → R TpmClock
  check_certify t q slots body rec nonce_bytes = do
    cert ← ok_or no_nv_certify slots.cert
    c ← NvCertify.parse cert
    verify t.ak.vk c.attest c.sig nv_certify
    check_counter_certify c.attest (certify_qualifying sha256 body nonce_bytes)
        (stop_index_name sha256) rec.stop_epoch
    refuse_if (rec.stop_epoch % 2 == 1 && says_running rec.state) odd_running
    i ← parse_nv_certify_info c.attest
    refuse_if (not (same_boot i.clock (quoted_clock q.clock_info))) (
        two_boots i.clock.reset_count i.clock.restart_count q.clock_info.reset_count
          q.clock_info.restart_count)
    ok i.clock

  pub verify_stop_receipt : Bytes → StopTrust → R StopFinding
  verify_stop_receipt receipt t = do
    r ← Receipt.parse receipt
    msg ← Envelope.parse r.msg
    q ← check_quote t r msg
    (slots, body, rec, nonce_bytes) ← check_record t r msg
    clock ← check_certify t q slots body rec nonce_bytes
    ok (record {
      kind = rec.kind;
      state = rec.state;
      stop_epoch = rec.stop_epoch;
      policy_digest = rec.policy_digest;
      fresh = not (length nonce_bytes == 0);
      clock = clock;
    })

  pub record StopInterval : Type 0 where
    pub stop_epoch : ℕ
    pub from : TpmClock
    pub to : TpmClock

  -- `self.to.clock - self.from.clock` on u64.
  pub held_ms : StopInterval → ℕ
  held_ms i = (i.to.clock + 2 ^ 64 - i.from.clock) % 2 ^ 64

  -- `f.basis() != StopBasis::Counter`
  abbrev is_by_counter : StopBasis → Bool
  is_by_counter by_counter = true
  is_by_counter no_release = false
  is_by_counter is_running = false

  -- `t.nonce.is_some()`
  abbrev is_some : Option Bytes → Bool
  is_some none = false
  is_some (some n) = true

  pub verify_stop_interval : Bytes → Bytes → Bytes → Bytes → StopTrust → R StopInterval
  verify_stop_interval first first_nonce second second_nonce t = do
    refuse_if (is_some t.nonce) interval_nonce_in_trust
    refuse_if (bytes_eq first_nonce second_nonce) interval_same_challenge
    a ← map_err first_receipt (verify_stop_receipt first (record t { nonce = some first_nonce }))
    b ← map_err second_receipt (verify_stop_receipt second (record t { nonce = some second_nonce }))
    refuse_if (not (is_by_counter (basis a))) (first_not_counter a.stop_epoch)
    refuse_if (not (is_by_counter (basis b))) (second_not_counter b.stop_epoch)
    refuse_if (not (a.stop_epoch == b.stop_epoch)) (interval_moved a.stop_epoch b.stop_epoch)
    refuse_if (not (a.clock.reset_count == b.clock.reset_count))
        (interval_reset a.clock.reset_count b.clock.reset_count)
    refuse_if (not (a.clock.restart_count == b.clock.restart_count))
        (interval_restart a.clock.restart_count b.clock.restart_count)
    refuse_if (leb b.clock.clock a.clock.clock) (interval_not_later a.clock.clock b.clock.clock)
    ok (record { stop_epoch = a.stop_epoch; from = a.clock; to = b.clock })

-- Named on the line of a test, opens what this module keeps shut.
unfoldable pub computing_stop_check : Unit {0}
unfolding basis place place_all nonce_of covers verify check_quote check_record check_certify
    verify_stop_receipt held_ms verify_stop_interval
computing_stop_check = tt
