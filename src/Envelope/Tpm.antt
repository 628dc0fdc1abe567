-- ===== src/Envelope/Tpm.antt =====
-- crates/attest-envelope/src/tpm.rs: the quote that an attestation key signs, and the public area of
-- such a key.
pub mod Naming
use tactiq_attest.Base.{
  ℕ, zero, suc, ◌+◌, ◌-◌, Bytes, Bool, true, false, not, List, [], ◌∷◌, ◌++◌, length, slice, drop,
  byte_at, from_be, to_be, codes, ok, err, ◌>>=◌, ◌>>◌, refuse_if, ◌==◌, ltb, if◌then◌else◌,
}
use tactiq_attest.Messages.{
  R, bad_message_length, truncated_at, tpm_trailing, quote_magic, quote_type, quote_safe,
  quote_banks, public_type, name_alg_not_supported,
}
use tactiq_attest.Wire
use tactiq_attest.Envelope.{msg_len}

abbrev pub tpm_generated_value : ℕ
tpm_generated_value = 0xff54_4347

abbrev pub tpm_st_attest_quote : ℕ
tpm_st_attest_quote = 0x8018

abbrev pub tpm_alg_sha256 : ℕ
tpm_alg_sha256 = 0x000b

abbrev pub tpm_alg_ecc : ℕ
tpm_alg_ecc = 0x0023

abbrev pub tpm_alg_ecdsa : ℕ
tpm_alg_ecdsa = 0x0018

abbrev pub tpm_alg_null : ℕ
tpm_alg_null = 0x0010

abbrev pub tpm_ecc_nist_p256 : ℕ
tpm_ecc_nist_p256 = 0x0003

-- The reader `Rd`, which names the structure and the field in its errors.
module _ (what : Bytes) where
  abbrev rd_take : Bytes → ℕ → Bytes → R (Bytes × Bytes)
  rd_take field = Wire.take (truncated_at what field)

  abbrev rd_number : ℕ → Bytes → Bytes → R (ℕ × Bytes)
  rd_number w field = Wire.number (truncated_at what field) w

  abbrev rd_tpm2b : Bytes → Bytes → R (Bytes × Bytes)
  rd_tpm2b field = Wire.tpm2b (truncated_at what field)

  abbrev rd_end : Bytes → R (Unit {0})
  rd_end b = refuse_if (not (length b == 0)) (tpm_trailing what (length b))

pub record ClockInfo : Type 0 where
  pub clock : ℕ
  pub reset_count : ℕ
  pub restart_count : ℕ
  pub safe : Bool

pub record PcrBanks : Type 0 where
  pub count : ℕ
  pub body : Bytes

pub record Quote : Type 0 where
  pub qualified_signer : Bytes
  pub extra_data : Bytes
  pub clock_info : ClockInfo
  pub firmware_version : ℕ
  pub pcr_banks : PcrBanks
  pub pcr_digest : Bytes

-- `PcrBanks::iter`: the algorithm and the bitmap of each bank.
pub banks_of : ℕ → Bytes → List (ℕ × Bytes)
banks_of zero b = []
banks_of (suc count) b =
    let n = byte_at b 2 in
    (from_be (slice 0 2 b), slice 3 (3 + n) b) ∷ banks_of count (drop (3 + n) b)

pub banks : PcrBanks → List (ℕ × Bytes)
banks p = banks_of p.count p.body

abbrev pub max_banks : ℕ
max_banks = 16

abbrev tpms_attest : Bytes
tpms_attest = codes "TPMS_ATTEST"

quote_safe_flag : ℕ → R Bool
quote_safe_flag v = if v == 0 then ok false else if v == 1 then ok true else err (quote_safe v)

read_clock_info : Bytes → R (ClockInfo × Bytes)
read_clock_info b = do
  (clock, r) ← rd_number tpms_attest 8 (codes "clock") b
  (reset_count, r1) ← rd_number tpms_attest 4 (codes "resetCount") r
  (restart_count, r2) ← rd_number tpms_attest 4 (codes "restartCount") r1
  (v, r3) ← rd_number tpms_attest 1 (codes "safe") r2
  safe ← quote_safe_flag v
  ok (
    record { clock = clock; reset_count = reset_count; restart_count = restart_count; safe = safe },
    r3,
  )

-- `for _ in 0..count`: what is left after so many banks.
skip_banks : ℕ → Bytes → R Bytes
skip_banks zero b = ok b
skip_banks (suc count) b = do
  (_, r) ← rd_number tpms_attest 2 (codes "pcrSelect.hash") b
  (n, r1) ← rd_number tpms_attest 1 (codes "pcrSelect.sizeofSelect") r
  (_, r2) ← rd_take tpms_attest (codes "pcrSelect.pcrSelect") n r1
  skip_banks count r2

read_banks : Bytes → R (PcrBanks × Bytes)
read_banks b = do
  (count, start) ← rd_number tpms_attest 4 (codes "pcrSelect.count") b
  refuse_if (ltb max_banks count) (quote_banks count)
  rest ← skip_banks count start
  ok (record { count = count; body = slice 0 (length start - length rest) start }, rest)

-- `Quote::parse`
pub parse_quote : Bytes → R Quote
parse_quote bytes = do
  (magic, r1) ← rd_number tpms_attest 4 (codes "magic") bytes
  refuse_if (not (magic == tpm_generated_value)) (quote_magic magic)
  (ty, r2) ← rd_number tpms_attest 2 (codes "type") r1
  refuse_if (not (ty == tpm_st_attest_quote)) (quote_type ty)
  (qualified_signer, r3) ← rd_tpm2b tpms_attest (codes "qualifiedSigner") r2
  (extra_data, r4) ← rd_tpm2b tpms_attest (codes "extraData") r3
  (clock_info, r5) ← read_clock_info r4
  (firmware_version, r6) ← rd_number tpms_attest 8 (codes "firmwareVersion") r5
  (pcr_banks, r7) ← read_banks r6
  (pcr_digest, r8) ← rd_tpm2b tpms_attest (codes "pcrDigest") r7
  rd_end tpms_attest r8
  ok (record {
    qualified_signer = qualified_signer;
    extra_data = extra_data;
    clock_info = clock_info;
    firmware_version = firmware_version;
    pcr_banks = pcr_banks;
    pcr_digest = pcr_digest;
  })

pub record EccPublic : Type 0 where
  pub tpmt : Bytes
  pub name_alg : ℕ
  pub attributes : ℕ
  pub auth_policy : Bytes
  pub symmetric : ℕ
  pub scheme : ℕ
  pub scheme_hash : ℕ
  pub curve : ℕ
  pub kdf : ℕ
  pub x : Bytes
  pub y : Bytes

abbrev tpmt_public : Bytes
tpmt_public = codes "TPMT_PUBLIC"

abbrev tpm2b_public : Bytes
tpm2b_public = codes "TPM2B_PUBLIC"

-- `if symmetric != TPM_ALG_NULL { … }`
skip_symmetric : ℕ → Bytes → R Bytes
skip_symmetric symmetric b = if symmetric == tpm_alg_null then ok b else (do
  (_, r) ← rd_number tpmt_public 2 (codes "symmetric.keyBits") b
  (_, r1) ← rd_number tpmt_public 2 (codes "symmetric.mode") r
  ok r1)

read_scheme_hash : ℕ → Bytes → R (ℕ × Bytes)
read_scheme_hash scheme b =
    if scheme == tpm_alg_null then ok (0, b) else rd_number tpmt_public 2 (codes "scheme.hashAlg") b

skip_kdf : ℕ → Bytes → R Bytes
skip_kdf kdf b =
    if kdf == tpm_alg_null
    then ok b
    else (do (_, r) ← rd_number tpmt_public 2 (codes "kdf.hashAlg") b; ok r)

-- `EccPublic::parse_tpm2b`
pub parse_tpm2b : Bytes → R EccPublic
parse_tpm2b bytes = do
  (tpmt, rest) ← rd_tpm2b tpm2b_public (codes "size") bytes
  rd_end tpm2b_public rest
  (ty, r1) ← rd_number tpmt_public 2 (codes "type") tpmt
  refuse_if (not (ty == tpm_alg_ecc)) (public_type ty)
  (name_alg, r2) ← rd_number tpmt_public 2 (codes "nameAlg") r1
  (attributes, r3) ← rd_number tpmt_public 4 (codes "objectAttributes") r2
  (auth_policy, r4) ← rd_tpm2b tpmt_public (codes "authPolicy") r3
  (symmetric, r5) ← rd_number tpmt_public 2 (codes "symmetric.algorithm") r4
  r6 ← skip_symmetric symmetric r5
  (scheme, r7) ← rd_number tpmt_public 2 (codes "scheme.scheme") r6
  (scheme_hash, r8) ← read_scheme_hash scheme r7
  (curve, r9) ← rd_number tpmt_public 2 (codes "curveID") r8
  (kdf, r10) ← rd_number tpmt_public 2 (codes "kdf.scheme") r9
  r11 ← skip_kdf kdf r10
  (x, r12) ← rd_tpm2b tpmt_public (codes "unique.x") r11
  (y, r13) ← rd_tpm2b tpmt_public (codes "unique.y") r12
  rd_end tpmt_public r13
  ok (record {
    tpmt = tpmt;
    name_alg = name_alg;
    attributes = attributes;
    auth_policy = auth_policy;
    symmetric = symmetric;
    scheme = scheme;
    scheme_hash = scheme_hash;
    curve = curve;
    kdf = kdf;
    x = x;
    y = y;
  })

module _ (sha256 : Bytes → Bytes) where
  pub qualifying_data : Bytes → R Bytes
  qualifying_data msg = do
    refuse_if (not (length msg == msg_len)) (bad_message_length (length msg) msg_len)
    ok (sha256 msg)

  -- `EccPublic::name`
  pub name_of : EccPublic → R Bytes
  name_of p = do
    refuse_if (not (p.name_alg == tpm_alg_sha256)) (name_alg_not_supported p.name_alg)
    ok (to_be 2 tpm_alg_sha256 ++ sha256 p.tpmt)

-- Named on the line of a test, opens what this module keeps shut.
unfoldable pub computing_tpm : Unit {0}
unfolding banks_of banks quote_safe_flag read_clock_info skip_banks read_banks parse_quote
    skip_symmetric read_scheme_hash skip_kdf parse_tpm2b qualifying_data name_of
computing_tpm = tt
