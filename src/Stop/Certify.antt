-- ===== src/Stop/Certify.antt =====
-- The TPM's statement of the stop counter, `TPM_ST_ATTEST_NV`, and its check
-- (crates/attest-stop/src/lib.rs).
pub mod Exact
pub mod Check
use tactiq_attest.Base.{
  ℕ, ◌%◌, ◌^◌, Bytes, Bool, true, false, ◌||◌, ◌&&◌, not, List, [], ◌∷◌, ◌++◌, length, replicate,
  bytes_eq, to_be, from_be, Result, ok, err, ◌>>=◌, ◌>>◌, refuse_if, ◌==◌, if◌then◌else◌, codes,
}
use tactiq_attest.Messages.{
  R, certify_short, not_tpm_generated, not_nv_type, unsafe_clock, certify_trailing, other_record,
  other_index, other_range, other_epoch,
}
use tactiq_attest.Wire

abbrev pub tpm_generated : ℕ
tpm_generated = 0xff54_4347

abbrev pub st_attest_nv : ℕ
st_attest_nv = 0x8014

pub record TpmClock : Type 0 where
  pub clock : ℕ
  pub reset_count : ℕ
  pub restart_count : ℕ
  pub safe : Bool

unfoldable pub same_boot : TpmClock → TpmClock → Bool
same_boot c d = c.reset_count == d.reset_count && c.restart_count == d.restart_count

pub record NvCertifyInfo : Type 0 where
  pub qualified_signer : Bytes
  pub extra_data : Bytes
  pub clock : TpmClock
  pub index_name : Bytes
  pub offset : ℕ
  pub contents : Bytes

-- The reader `Be`.
abbrev be_take : ℕ → Bytes → R (Bytes × Bytes)
be_take = Wire.take certify_short

abbrev be_u16 : Bytes → R (ℕ × Bytes)
be_u16 = Wire.number certify_short 2

abbrev be_u32 : Bytes → R (ℕ × Bytes)
be_u32 = Wire.number certify_short 4

abbrev be_u64 : Bytes → R (ℕ × Bytes)
be_u64 = Wire.number certify_short 8

abbrev be_tpm2b : Bytes → R (Bytes × Bytes)
be_tpm2b = Wire.tpm2b certify_short

-- `match … { 0 => false, 1 => true, v => Err }`
safe_flag : ℕ → R Bool
safe_flag v = if v == 0 then ok false else if v == 1 then ok true else err (unsafe_clock v)

read_clock : Bytes → R (TpmClock × Bytes)
read_clock b = do
  (clock, r) ← be_u64 b
  (reset_count, r') ← be_u32 r
  (restart_count, r'') ← be_u32 r'
  (v, r3) ← Wire.number certify_short 1 r''
  safe ← safe_flag v
  ok (
    record { clock = clock; reset_count = reset_count; restart_count = restart_count; safe = safe },
    r3,
  )

pub parse_nv_certify_info : Bytes → R NvCertifyInfo
parse_nv_certify_info attest = do
  (magic, r1) ← be_u32 attest
  refuse_if (not (magic == tpm_generated)) not_tpm_generated
  (t, r2) ← be_u16 r1
  refuse_if (not (t == st_attest_nv)) (not_nv_type t)
  (qualified_signer, r3) ← be_tpm2b r2
  (extra_data, r4) ← be_tpm2b r3
  (clock, r5) ← read_clock r4
  (_, r6) ← be_take 8 r5
  (index_name, r7) ← be_tpm2b r6
  (offset, r8) ← be_u16 r7
  (contents, r9) ← be_tpm2b r8
  refuse_if (not (length r9 == 0)) (certify_trailing (length r9))
  ok (record {
    qualified_signer = qualified_signer;
    extra_data = extra_data;
    clock = clock;
    index_name = index_name;
    offset = offset;
    contents = contents;
  })

pub check_counter_certify : Bytes → Bytes → Bytes → ℕ → R (Unit {0})
check_counter_certify attest qualifying index_name stop_epoch = do
  i ← parse_nv_certify_info attest
  refuse_if (not (bytes_eq i.extra_data qualifying)) other_record
  refuse_if (not (bytes_eq i.index_name index_name)) other_index
  refuse_if (not (i.offset == 0) || not (length i.contents == 8))
      (other_range (length i.contents) i.offset)
  refuse_if (not (from_be i.contents == stop_epoch)) (other_epoch (from_be i.contents) stop_epoch)
  ok tt

abbrev bool_byte : Bool → ℕ
bool_byte true = 1
bool_byte false = 0

-- `(part.len() as u16).to_be_bytes()`, then the part.
abbrev put_tpm2b : Bytes → Bytes
put_tpm2b part = to_be 2 (length part % 2 ^ 16) ++ part

pub build_nv_certify_info_for_tests : NvCertifyInfo → Bytes
build_nv_certify_info_for_tests info =
    to_be 4 tpm_generated
    ++ (to_be 2 st_attest_nv
        ++ (put_tpm2b info.qualified_signer
            ++ (put_tpm2b info.extra_data
                ++ (to_be 8 info.clock.clock
                    ++ (to_be 4 info.clock.reset_count
                        ++ (to_be 4 info.clock.restart_count
                            ++ (to_be 1 (bool_byte info.clock.safe)
                                ++ (replicate 8 0x22
                                    ++ (put_tpm2b info.index_name
                                        ++ (to_be 2 info.offset ++ put_tpm2b info.contents))))))))))

abbrev pub stop_nv_index : ℕ
stop_nv_index = 0x0150_0017

abbrev pub stop_nv_attributes_written : ℕ
stop_nv_attributes_written = 0x2004_0014

module _ (sha256 : Bytes → Bytes) where
  unfoldable pub stop_index_name : Bytes
  stop_index_name =
      to_be 2 0x000b
      ++ sha256 (
          to_be 4 stop_nv_index
          ++ (to_be 2 0x000b ++ (to_be 4 stop_nv_attributes_written ++ (to_be 2 0 ++ to_be 2 8))))

  unfoldable pub request_digest : Bytes → Bytes → Bytes → Bytes
  request_digest method path body =
      sha256 (codes "tactiq-stop/request/v1" ++ (0 ∷ (method ++ (0 ∷ (path ++ (0 ∷ body))))))

  unfoldable pub stop_quote_qualifying : Bytes → Bytes
  stop_quote_qualifying msg = sha256 (codes "tactiq-stop/quote/v1" ++ (0 ∷ msg))

  unfoldable pub certify_qualifying : Bytes → Bytes → Bytes
  certify_qualifying record_body nonce =
      sha256 (codes "tactiq-stop/certify/v1" ++ (0 ∷ (record_body ++ nonce)))

-- Named on the line of a test, opens what this module keeps shut.
unfoldable pub computing_certify : Unit {0}
unfolding same_boot safe_flag read_clock parse_nv_certify_info check_counter_certify
    build_nv_certify_info_for_tests stop_index_name request_digest stop_quote_qualifying
    certify_qualifying
computing_certify = tt
