-- ===== src/Messages.antt =====
-- The error texts of all crates. The source's errors are strings: here each `format!` is a
-- constructor, with the numbers that it prints.
use tactiq_attest.Base.{ℕ, Bool, Bytes, Result}

-- What a length-prefixed part is, as the errors of the readers name it.
pub data Part : Type 0 where
  nv_certify_attest nv_certify_signature nv_certify : Part
  receipt_message receipt_quote_attest receipt_quote_signature receipt_bundle receipt stop_quote :
      Part

pub data Message : Type 0 where
  -- crates/attest-envelope/src/lib.rs and tpm.rs: length found, length wanted
  bad_message_length : ℕ → ℕ → Message
  -- offset, bytes left, bytes wanted
  truncated_section_header : ℕ → ℕ → ℕ → Message
  -- tag, offset
  forbidden_tag_at : ℕ → ℕ → Message
  -- tag, offset, bytes claimed, bytes that remain
  section_overrun : ℕ → ℕ → ℕ → ℕ → Message
  -- tag
  forbidden_tag : ℕ → Message
  -- tag, body length
  section_too_long : ℕ → ℕ → Message
  -- crates/attest-stop/src/lib.rs
  refusal_running : Message
  record_short : ℕ → Message
  unknown_version : ℕ → Message
  invalid_state : ℕ → Message
  reserved_byte : ℕ → Message
  status_length : ℕ → Message
  refusal_length : ℕ → Message
  invalid_kind : ℕ → Message
  nonce_length : ℕ → Message
  -- length, bound
  length_outside : Part → ℕ → ℕ → Message
  -- length, bytes left
  length_exceeds : Part → ℕ → ℕ → Message
  truncated_length : Part → Message
  trailing_bytes : Part → ℕ → Message
  bad_part_length : Part → ℕ → Message
  missing_magic : Message
  unknown_receipt_version : ℕ → Message
  -- bytes needed, bytes left
  certify_short : ℕ → ℕ → Message
  not_tpm_generated : Message
  not_nv_type : ℕ → Message
  unsafe_clock : ℕ → Message
  certify_trailing : ℕ → Message
  other_record : Message
  other_index : Message
  -- length of the contents, offset
  other_range : ℕ → ℕ → Message
  -- value certified, epoch of the record
  other_epoch : ℕ → ℕ → Message
  -- crates/stop/src/release.rs
  release_too_long : ℕ → Message
  release_not_ascii : Message
  release_no_newline : Message
  release_lines : ℕ → Message
  release_no_device : Message
  release_bad_device : Message
  release_no_epoch : Message
  release_not_number : Bytes → Message
  release_not_canonical : Bytes → Message
  release_odd : ℕ → Message
  release_signature_too_long : ℕ → Message
  release_signature_not_der : Message
  release_signature_wrong : Message
  -- device named, device expected
  release_other_device : Bytes → Bytes → Message
  -- epoch named, epoch needed
  release_other_epoch : ℕ → ℕ → Message
  -- crates/stop/src/core.rs
  no_release : Message
  stop_records : ℕ → Message
  built_length : ℕ → ℕ → Message
  no_valid_release : ℕ → Message → Message
  odd_epoch : Message
  increment_failed : Message → Message
  not_read_back : Message → Message
  -- from, to, expected
  other_writer : ℕ → ℕ → ℕ → Message
  -- crates/attest-tpm/src/lib.rs
  bad_attributes : ℕ → Message
  not_counter : ℕ → Message
  orderly_counter : ℕ → Message
  no_attributes_block : Message
  attributes_not_hex : Bytes → Message
  no_attributes_value : Message
  no_name_line : Message
  name_not_hex : Bytes → Message
  counter_length : ℕ → Message
  -- crates/stop/src/port.rs: the limit
  file_too_long : ℕ → Message
  handle_prefix : Message
  handle_not_hex : Message
  handle_range : ℕ → ℕ → Message
  -- crates/stop/src/http.rs
  head_too_long : Message
  head_not_utf8 : Message
  empty_request : Message
  bad_request_line : Bytes → Message
  unsupported_version : Bytes → Message
  bad_method : Bytes → Message
  bad_header_line : Bytes → Message
  bad_header_name : Bytes → Message
  transfer_encoding : Message
  bad_content_length : Bytes → Message
  conflicting_lengths : Message
  body_too_long : ℕ → Message
  after_request : ℕ → Message
  request_late : Message
  read_failed : Message → Message
  closed_early : Message
  request_too_large : Message
  -- crates/stop/src/main.rs
  nonce_not_hex_digits : Message
  device_id_file : Message → Message
  bad_device_id : Message
  work_dir_missing : Message → Message
  self_unknown : Message → Message
  work_dir_unsafe : ℕ → ℕ → ℕ → Message
  lock_held : Message
  lock_failed : Message → Message
  define_arguments : Message
  -- attributes
  already_defined : ℕ → Message
  still_answers_200 : Message
  service_answered : Bytes → Message
  now_stopped : Message → ℕ → Message
  now_even : Message → ℕ → Message
  state_unknown : Message → Message
  probe_failed : Message → Message
  -- the text of an error of the TPM or of a file, as the ports of crates/stop give it
  port_error : Bytes → Message
  -- crates/attest-envelope/src/tpm.rs: structure, field, bytes needed, bytes left
  truncated_at : Bytes → Bytes → ℕ → ℕ → Message
  -- structure, bytes left
  tpm_trailing : Bytes → ℕ → Message
  quote_magic : ℕ → Message
  quote_type : ℕ → Message
  quote_safe : ℕ → Message
  quote_banks : ℕ → Message
  public_type : ℕ → Message
  name_alg_not_supported : ℕ → Message
  -- crates/attest-appraise/src/gate1.rs
  ak_attributes : ℕ → Message
  ak_decrypts : Message
  ak_symmetric_or_kdf : Message
  ak_scheme : ℕ → ℕ → Message
  ak_curve : ℕ → Message
  ak_coordinate : Message
  ak_point : Message
  not_in_trust_store : Message
  ak_without_quote : Message
  quote_under_legacy : Message
  malformed_signature : Message
  signature_failed : Message
  other_extra_data : Message
  banks_not_one : ℕ → Message
  other_selection : Message
  other_pcr_digest : Message
  other_evidence : ℕ → Message
  -- crates/attest-appraise/src/stop.rs
  in_quote : Message → Message
  part_malformed : Part → Message
  part_not_verified : Part → Message
  quote_other_message : Message
  quote_other_reference : Message
  quote_other_build : Message
  other_device : Bytes → Bytes → Message
  bundle_other_hash : Message
  section_no_place : ℕ → Message
  section_twice : ℕ → Message
  no_stop_record : Message
  epoch_not_counter : Message
  other_challenge : Message
  nonce_missing : Message
  nonce_unexpected : Message
  nonce_not_status : Message
  no_nv_certify : Message
  odd_running : Message
  -- reset and restart counts of the certify and of the quote
  two_boots : ℕ → ℕ → ℕ → ℕ → Message
  interval_nonce_in_trust : Message
  interval_same_challenge : Message
  first_receipt : Message → Message
  second_receipt : Message → Message
  first_not_counter : ℕ → Message
  second_not_counter : ℕ → Message
  interval_moved : ℕ → ℕ → Message
  interval_reset : ℕ → ℕ → Message
  interval_restart : ℕ → ℕ → Message
  interval_not_later : ℕ → ℕ → Message
  -- crates/attest-tpm/src/lib.rs: the specification of a selection, and the attestation key
  spec_multi_bank spec_no_colon spec_empty_index spec_no_pcrs : Message
  spec_unknown_alg spec_bad_index : Bytes → Message
  spec_range : ℕ → Message
  -- the index, the one before it
  spec_not_ascending : ℕ → ℕ → Message
  no_object : Bytes → Message
  recorded_unusable : Message → Message
  handle_not_ak : Bytes → Message → Message
  -- handle, the name there, the name recorded
  other_ak : Bytes → Bytes → Bytes → Message
  -- crates/prover/src
  id_empty : Message
  id_too_long : Bytes → ℕ → Message
  id_not_printable : Bytes → Message
  seq_range : ℕ → Message
  epoch_range : ℕ → Message
  not_provisioned : Message
  -- is there an id, is there a key
  partial_state : Bool → Bool → Message
  already_provisioned : Bytes → Message
  handle_occupied : Bytes → Message
  built_other_length : ℕ → Message
  -- crates/stop/src/config.rs
  inline_yaml : Message
  setting_missing setting_twice other_target : Bytes → Message
  not_one_ext_authz failure_mode_open not_one_body partial_allowed : Message
  timeout_low : ℕ → Message
  timeout_bad max_not_number : Bytes → Message
  max_range : ℕ → Message
  -- tools/stop-verify/src/main.rs
  in_file : Bytes → Message → Message
  usage one_nonce not_hex not_printable_device : Message
  value_missing unknown_option option_missing : Bytes → Message
  nonce_option_length : Bytes → ℕ → Message
  reference_not_json reference_format reference_bank : Message
  reference_pcr : ℕ → Message → Message
  slot_without_value slot_needed no_pcr : ℕ → Message
  pcr_length : ℕ → ℕ → Message
  -- The model's own: a loop ran out of fuel. No operation returns it.
  out_of_fuel : Message

-- `Result<T, String>`.
abbrev pub R {ℓ} : Type ℓ → Type ℓ
R A = Result Message A
