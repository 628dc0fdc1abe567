-- ===== src/Envelope.antt =====
-- crates/attest-envelope/src/lib.rs: the canonical signed message.
-- A byte slice is a list of numbers, and `&str` is its UTF-8 bytes. SHA-256 is a parameter.
pub mod Message
pub mod Bundle
pub mod Tpm
use tactiq_attest.Base.{
  ℕ, ◌+◌, ◌-◌, ◌%◌, ◌^◌, Bytes, ◌≡◌, not, ◌++◌, length, take, replicate, slice, to_be, from_be,
  Result, ok, err, ◌==◌, if◌then◌else◌,
}
use tactiq_attest.Messages.{R, bad_message_length}

abbrev pub device_id_len : ℕ
device_id_len = 16

abbrev pub pcr_hash_len : ℕ
pcr_hash_len = 32

abbrev pub counter_len : ℕ
counter_len = 8

abbrev pub pcr_selection_len : ℕ
pcr_selection_len = 5

abbrev pub evidence_hash_len : ℕ
evidence_hash_len = 32

abbrev pub msg_len : ℕ
msg_len = device_id_len + counter_len + pcr_selection_len + pcr_hash_len + evidence_hash_len

pub record AttestationMessage : Type 0 where
  pub device_id : Bytes
  pub counter : ℕ
  pub pcr_selection : Bytes
  pub pcr_hash : Bytes
  pub evidence_hash : Bytes

-- The fields at their offsets, once the length is known.
abbrev fields_at : Bytes → AttestationMessage
fields_at bytes =
    let sel_off = device_id_len + counter_len in
    let hash_off = sel_off + pcr_selection_len in
    let ev_off = hash_off + pcr_hash_len in
    record {
      device_id = slice 0 device_id_len bytes;
      counter = from_be (slice device_id_len (device_id_len + counter_len) bytes);
      pcr_selection = slice sel_off (sel_off + pcr_selection_len) bytes;
      pcr_hash = slice hash_off (hash_off + pcr_hash_len) bytes;
      evidence_hash = slice ev_off (length bytes) bytes;
    }

unfoldable pub parse : Bytes → R AttestationMessage
parse bytes =
    if not (length bytes == msg_len)
    then err (bad_message_length (length bytes) msg_len)
    else ok (fields_at bytes)

-- `[a[0], a[1], bitmap[0], bitmap[1], bitmap[2]]`, `bitmap` being three bytes.
unfoldable pub encode_pcr_selection : ℕ → Bytes → Bytes
encode_pcr_selection alg_id bitmap = to_be 2 alg_id ++ bitmap

-- `device_id` in the zeroed field of 16 bytes, cut off if it is longer.
unfoldable pub pad_id : Bytes → Bytes
pad_id b = take device_id_len b ++ replicate (device_id_len - length b) 0

module _ (sha256 : Bytes → Bytes) where
  unfoldable pub evidence_digest : Bytes → Bytes
  evidence_digest bundle = sha256 bundle

  unfoldable pub build_canonical : Bytes → ℕ → Bytes → Bytes → Bytes → Bytes
  unfolding evidence_digest
  build_canonical device_id counter pcr_selection pcr_state evidence =
      pad_id device_id
      ++ (to_be 8 counter ++ (pcr_selection ++ (sha256 pcr_state ++ evidence_digest evidence)))

-- Named on the line of a test, opens what this module keeps shut.
unfoldable pub computing_envelope : Unit {0}
unfolding parse encode_pcr_selection pad_id evidence_digest build_canonical
computing_envelope = tt
