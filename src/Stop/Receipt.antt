-- ===== src/Stop/Receipt.antt =====
-- The receipt container of crates/attest-stop/src/lib.rs.
pub mod Exact
use tactiq_attest.Base.{
  ℕ, ◌+◌, ◌%◌, ◌^◌, Bytes, Bool, ◌||◌, not, List, [], ◌∷◌, ◌++◌, length, slice, drop, byte_at,
  codes, bytes_eq, to_be, ok, ◌>>=◌, ◌>>◌, refuse_if, ◌==◌, ltb,
}
use tactiq_attest.Messages.{
  R, Part, receipt_message, receipt_quote_attest, receipt_quote_signature, receipt_bundle, receipt,
  bad_part_length, missing_magic, unknown_receipt_version,
}
use tactiq_attest.Stop.Reader.{take32, finish}
use tactiq_attest.Stop.NvCertify.{attest_max, sig_max, bundle_max}

abbrev pub receipt_magic : Bytes
receipt_magic = codes "TQSR"

abbrev pub receipt_version : ℕ
receipt_version = 1

abbrev pub receipt_msg_len : ℕ
receipt_msg_len = 93

pub record Receipt : Type 0 where
  pub msg : Bytes
  pub quote_attest : Bytes
  pub quote_sig : Bytes
  pub bundle : Bytes

-- One round of the loop that checks the parts.
abbrev check_part : Part → Bytes → ℕ → R (Unit {0})
check_part name v max =
    refuse_if (length v == 0 || ltb max (length v)) (bad_part_length name (length v))

-- One round of the loop that writes the parts.
abbrev put_part : Bytes → Bytes
put_part v = to_be 4 (length v % 2 ^ 32) ++ v

pub encode : Receipt → R Bytes
encode r = do
  refuse_if (not (length r.msg == receipt_msg_len)) (bad_part_length receipt_message (length r.msg))
  check_part receipt_quote_attest r.quote_attest attest_max
  check_part receipt_quote_signature r.quote_sig sig_max
  check_part receipt_bundle r.bundle bundle_max
  ok (
      receipt_magic
      ++ (receipt_version
          ∷ (put_part r.msg
              ++ (put_part r.quote_attest ++ (put_part r.quote_sig ++ put_part r.bundle)))))

pub parse : Bytes → R Receipt
parse bytes = do
  refuse_if (ltb (length bytes) 5 || not (bytes_eq (slice 0 4 bytes) receipt_magic)) missing_magic
  refuse_if (not (byte_at bytes 4 == receipt_version)) (unknown_receipt_version (byte_at bytes 4))
  (msg, r) ← take32 receipt_msg_len receipt_message (drop 5 bytes)
  refuse_if (not (length msg == receipt_msg_len)) (bad_part_length receipt_message (length msg))
  (quote_attest, r') ← take32 attest_max receipt_quote_attest r
  (quote_sig, r'') ← take32 sig_max receipt_quote_signature r'
  (bundle, r3) ← take32 bundle_max receipt_bundle r''
  finish receipt r3
  ok (record { msg = msg; quote_attest = quote_attest; quote_sig = quote_sig; bundle = bundle })

-- Named on the line of a test, opens what this module keeps shut.
unfoldable pub computing_receipt : Unit {0}
unfolding encode parse
computing_receipt = tt
