-- ===== src/Tests/Formats.antt =====
-- The byte formats of crates/attest-envelope and crates/attest-stop on concrete inputs.
use tactiq_attest.Base.{
  Bytes, List, All, [], ◌∷◌, ◌++◌, ◌≡◌, ◌≢◌, ◌↔◌, refl, ok, err, replicate, to_be, arith, computing,
}
use tactiq_attest.Messages.{out_of_fuel, bad_message_length, refusal_running}
use tactiq_attest.Envelope
use tactiq_attest.Envelope.{
  AttestationMessage, build_canonical, encode_pcr_selection, computing_envelope,
}
use tactiq_attest.Envelope.Message
use tactiq_attest.Envelope.Message.{message_exact, parse-build_canonical, built}
use tactiq_attest.Envelope.Bundle.{Section, parse_bundle, build_bundle, computing_bundle}
use tactiq_attest.Envelope.Bundle.Exact.{parse_bundle-ne-out_of_fuel, HasTag16, bundle_exact}
use tactiq_attest.Stop.Record
use tactiq_attest.Stop.Record.{StopRecord, status, refusal, running, stopped, computing_record}
use tactiq_attest.Stop.Record.Exact as RecordExact
use tactiq_attest.Stop.Record.Exact.{record_exact}
use tactiq_attest.Stop.Reader.{computing_reader}
use tactiq_attest.Stop.NvCertify
use tactiq_attest.Stop.NvCertify.{NvCertify, computing_nv_certify}
use tactiq_attest.Stop.NvCertify.Exact.{section_exact}
use tactiq_attest.Stop.Receipt
use tactiq_attest.Stop.Receipt.{Receipt, computing_receipt}
use tactiq_attest.Stop.Receipt.Exact.{receipt_exact}

abbrev hash : Bytes → Bytes
hash m = replicate 32 7

abbrev hello : AttestationMessage
hello = record {
  device_id = b'd' ∷ b'1' ∷ replicate 14 0;
  counter = 258;
  pcr_selection = 0 ∷ 11 ∷ 255 ∷ 0 ∷ 0 ∷ [];
  pcr_hash = replicate 32 1;
  evidence_hash = replicate 32 2;
}

short_message : Envelope.parse (1 ∷ 2 ∷ []) ≡ err (bad_message_length 2 93)
unfolding computing computing_envelope
short_message = refl

message_exact_example :
    (Envelope.parse (Message.layout hello) ≡ ok hello)
    ↔ (Message.IsWellFormed hello × (Message.layout hello ≡ Message.layout hello))
unfolding to_be
message_exact_example = message_exact (Message.layout hello) hello (omega arith)

parse-build_canonical_example :
    Envelope.parse
      (build_canonical hash (b'd' ∷ []) 7 (0 ∷ 11 ∷ 255 ∷ 0 ∷ 0 ∷ []) (1 ∷ []) (2 ∷ []))
    ≡ ok (built hash (λ m. refl) (b'd' ∷ []) 7 (0 ∷ 11 ∷ 255 ∷ 0 ∷ 0 ∷ []) (1 ∷ []) (2 ∷ []))
parse-build_canonical_example =
    parse-build_canonical hash (λ m. refl) (b'd' ∷ []) 7 (0 ∷ 11 ∷ 255 ∷ 0 ∷ 0 ∷ []) (1 ∷ [])
      (2 ∷ []) (omega arith) refl

abbrev two : List Section
two = record { tag = 4; body = 9 ∷ [] } ∷ record { tag = 6; body = 8 ∷ 7 ∷ [] } ∷ []

abbrev two_bytes : Bytes
two_bytes = 0 ∷ 4 ∷ 0 ∷ 0 ∷ 0 ∷ 1 ∷ 9 ∷ 0 ∷ 6 ∷ 0 ∷ 0 ∷ 0 ∷ 2 ∷ 8 ∷ 7 ∷ []

bundle_exact_example :
    (parse_bundle two_bytes ≡ ok two) ↔ (All HasTag16 two × (build_bundle two ≡ ok two_bytes))
bundle_exact_example = bundle_exact two_bytes two (omega arith)

parse_bundle-ne-out_of_fuel_example : parse_bundle two_bytes ≢ err out_of_fuel
parse_bundle-ne-out_of_fuel_example = parse_bundle-ne-out_of_fuel two_bytes

abbrev refused : StopRecord
refused = record {
  kind = refusal (replicate 32 3);
  state = stopped;
  stop_epoch = 5;
  policy_digest = replicate 32 4;
}

abbrev refused_bytes : Bytes
refused_bytes = 1 ∷ 1 ∷ 2 ∷ 0 ∷ (0 ∷ 0 ∷ 0 ∷ 0 ∷ 0 ∷ 0 ∷ 0 ∷ 5 ∷ (replicate 32 4 ++ replicate 32 3))

running_refusal :
    Record.encode
      (record { kind = refusal []; state = running; stop_epoch = 2; policy_digest = [] })
    ≡ err refusal_running
unfolding computing_record
running_refusal = refl

record_exact_example :
    (Record.parse refused_bytes ≡ ok refused)
    ↔ (RecordExact.IsWellFormed refused × (Record.encode refused ≡ ok refused_bytes))
record_exact_example = record_exact refused_bytes refused (omega arith)

abbrev cert : NvCertify
cert = record { attest = 1 ∷ 2 ∷ []; sig = 3 ∷ [] }

abbrev cert_bytes : Bytes
cert_bytes = 0 ∷ 2 ∷ 1 ∷ 2 ∷ 0 ∷ 1 ∷ 3 ∷ []

section_read : (NvCertify.parse cert_bytes ≡ ok cert) ↔ (NvCertify.encode cert ≡ ok cert_bytes)
section_read = section_exact cert_bytes cert (omega arith)

cert_parsed : NvCertify.parse cert_bytes ≡ ok cert
unfolding computing computing_nv_certify computing_reader
cert_parsed = refl

two_parsed : parse_bundle two_bytes ≡ ok two
unfolding computing computing_bundle
two_parsed = refl

refused_parsed : Record.parse refused_bytes ≡ ok refused
unfolding computing computing_record
refused_parsed = refl

abbrev small : Receipt
small = record { msg = replicate 93 5; quote_attest = 6 ∷ []; quote_sig = 7 ∷ []; bundle = 8 ∷ [] }

abbrev small_bytes : Bytes
small_bytes =
    b'T'
    ∷ b'Q'
    ∷ b'S'
    ∷ b'R'
    ∷ 1
    ∷ 0
    ∷ 0
    ∷ 0
    ∷ 93
    ∷ (replicate 93 5 ++ (0 ∷ 0 ∷ 0 ∷ 1 ∷ 6 ∷ 0 ∷ 0 ∷ 0 ∷ 1 ∷ 7 ∷ 0 ∷ 0 ∷ 0 ∷ 1 ∷ 8 ∷ []))

receipt_exact_example :
    (Receipt.parse small_bytes ≡ ok small) ↔ (Receipt.encode small ≡ ok small_bytes)
receipt_exact_example = receipt_exact small_bytes small (omega arith)

small_parsed : Receipt.parse small_bytes ≡ ok small
unfolding computing computing_receipt computing_reader
small_parsed = refl
