-- ===== src/TpmAccess/Commands.antt =====
-- The commands of crates/attest-tpm/src/lib.rs, and the chip of crates/stop/src/port.rs that runs them.
pub mod Bounds
pub mod Own
use tactiq_attest.Base.{
  ℕ, Bytes, Bool, true, false, ◌&&◌, ◌||◌, not, List, [], ◌∷◌, ◌++◌, Option, none, some, length,
  codes, bytes_eq, from_be, Result, ok, err, refuse_if, ◌==◌, ltb, if◌then◌else◌,
}
use tactiq_attest.Messages.{Message, R, counter_length, already_defined, file_too_long}
use tactiq_attest.Service.Effects.{Exec, pure, raise, lift, ◌>>=◌, ◌>>◌}
use tactiq_attest.Service.Port.{StopTpm, ReleaseStore}
use tactiq_attest.Service.Release.{max_record, max_sig}
use tactiq_attest.Stop.Record.{State}
use tactiq_attest.TpmAccess.{
  listing_has, check_counter_attributes, check_stop_attributes, stop_attributes_written,
  parse_nv_attributes, parse_nv_name,
}
use tactiq_attest.TpmAccess.Hex.{hex_of}

-- The outside: a command of tpm2-tools with its arguments and standard output, the files that it
-- leaves, and what the environment says: the owner's authorization, the handle of the attestation
-- key and the index of the epoch counter.
pub record Tools (W : Type 0) : Type 0 where
  pub run : List Bytes → Exec Message W Bytes
  pub read_file : Bytes → Exec Message W Bytes
  -- a file that may be missing
  pub read_if_there : Bytes → Exec Message W (Option Bytes)
  pub owner_auth : Exec Message W (Option Bytes)
  pub ak_handle : R Bytes
  pub nv_counter : R Bytes

abbrev pub stop_nv_counter : Bytes
stop_nv_counter = codes "0x1500017"

abbrev counter_nv_attributes_arg : Bytes
counter_nv_attributes_arg = codes "nt=counter|authread|authwrite"

-- `work.join(name)`
abbrev pub in_dir : Bytes → Bytes → Bytes
in_dir dir name = dir ++ (codes "/" ++ name)

-- A record without its signature is no release.
abbrev with_sig : Bytes → Option Bytes → Option (Bytes × Bytes)
with_sig rec none = none
with_sig rec (some sig) = some (rec, sig)

abbrev pub increment_args : Bytes → List Bytes
increment_args nv = codes "tpm2_nvincrement" ∷ nv ∷ codes "-C" ∷ nv ∷ []

abbrev pub counter_file : Bytes → Bytes
counter_file work = in_dir work (codes "counter.bin")

abbrev pub read_args : Bytes → Bytes → List Bytes
read_args nv f = codes "tpm2_nvread" ∷ nv ∷ codes "-C" ∷ nv ∷ codes "-o" ∷ f ∷ []

-- The eight bytes of a counter.
pub counter_of : Bytes → R ℕ
counter_of raw =
    if not (length raw == 8) then err (counter_length (length raw)) else ok (from_be raw)

module _ (W : Type 0) (tools : Tools W) where
  abbrev owner_args : Option Bytes → List Bytes
  owner_args none = []
  owner_args (some a) = codes "-P" ∷ a ∷ []

  pub run_owner : List Bytes → Exec Message W Bytes
  run_owner args = do auth ← tools.owner_auth; tools.run (args ++ owner_args auth)

  pub handle_exists : Bytes → Exec Message W Bool
  handle_exists handle = do
    o ← tools.run (codes "tpm2_getcap" ∷ codes "handles-persistent" ∷ [])
    pure (listing_has o handle)

  pub nv_defined : Bytes → Exec Message W Bool
  nv_defined index = do
    o ← tools.run (codes "tpm2_getcap" ∷ codes "handles-nv-index" ∷ [])
    pure (listing_has o index)

  unfoldable pub increment_at : Bytes → Exec Message W (Unit {0})
  increment_at nv = do o ← tools.run (increment_args nv); pure tt

  pub nv_define : Exec Message W (Unit {0})
  nv_define = do
    nv ← lift tools.nv_counter
    o ← run_owner (
        codes "tpm2_nvdefine"
        ∷ nv
        ∷ codes "-C"
        ∷ codes "o"
        ∷ codes "-a"
        ∷ counter_nv_attributes_arg
        ∷ [])
    increment_at nv

  unfoldable pub verify_counter : Exec Message W (Unit {0})
  verify_counter = do
    nv ← lift tools.nv_counter
    o ← tools.run (codes "tpm2_nvreadpublic" ∷ nv ∷ [])
    attrs ← lift (parse_nv_attributes o)
    lift (check_counter_attributes attrs)

  unfoldable pub nv_increment_and_read : Bytes → Exec Message W ℕ
  nv_increment_and_read work = do
    nv ← lift tools.nv_counter
    increment_at nv
    o ← tools.run (read_args nv (counter_file work))
    raw ← tools.read_file (counter_file work)
    lift (counter_of raw)

  pub stop_nv_first_write : Exec Message W (Unit {0})
  stop_nv_first_write = increment_at stop_nv_counter

  pub stop_nv_define : Exec Message W (Unit {0})
  stop_nv_define = do
    o ← run_owner (
        codes "tpm2_nvdefine"
        ∷ stop_nv_counter
        ∷ codes "-C"
        ∷ codes "o"
        ∷ codes "-a"
        ∷ counter_nv_attributes_arg
        ∷ [])
    stop_nv_first_write

  pub stop_nv_attributes : Exec Message W ℕ
  stop_nv_attributes = do
    o ← tools.run (codes "tpm2_nvreadpublic" ∷ stop_nv_counter ∷ [])
    lift (parse_nv_attributes o)

  pub verify_stop_counter : Exec Message W (Unit {0})
  verify_stop_counter = do attrs ← stop_nv_attributes; lift (check_stop_attributes attrs)

  pub stop_nv_name : Exec Message W Bytes
  stop_nv_name = do
    o ← tools.run (codes "tpm2_nvreadpublic" ∷ stop_nv_counter ∷ [])
    lift (parse_nv_name o)

  pub stop_nv_read : Exec Message W ℕ
  stop_nv_read = do
    raw ← tools.run (
        codes "tpm2_nvread"
        ∷ stop_nv_counter
        ∷ codes "-C"
        ∷ stop_nv_counter
        ∷ codes "--size"
        ∷ codes "8"
        ∷ [])
    lift (counter_of raw)

  pub stop_nv_increment : Exec Message W (Unit {0})
  stop_nv_increment = increment_at stop_nv_counter

  pub stop_nv_certify : Bytes → Bytes → Bytes → Exec Message W (Unit {0})
  stop_nv_certify qualifying attest sig = do
    h ← lift tools.ak_handle
    o ← tools.run (
        codes "tpm2_nvcertify"
        ∷ codes "-C"
        ∷ h
        ∷ codes "-c"
        ∷ stop_nv_counter
        ∷ codes "-g"
        ∷ codes "sha256"
        ∷ codes "-s"
        ∷ codes "ecdsa"
        ∷ codes "-f"
        ∷ codes "plain"
        ∷ codes "-q"
        ∷ hex_of qualifying
        ∷ codes "--size"
        ∷ codes "8"
        ∷ codes "--offset"
        ∷ codes "0"
        ∷ codes "--attestation"
        ∷ attest
        ∷ codes "-o"
        ∷ sig
        ∷ stop_nv_counter
        ∷ [])
    pure tt

  pub pcr_read : Bytes → Bytes → Exec Message W Bytes
  pcr_read spec work = do
    let f = in_dir work (codes "pcrs.bin")
    o ← tools.run (codes "tpm2_pcrread" ∷ spec ∷ codes "-o" ∷ f ∷ [])
    tools.read_file f

  pub quote_qualified : Bytes → Bytes → Bytes → Bytes → Exec Message W (Unit {0})
  quote_qualified qd spec attest sig = do
    h ← lift tools.ak_handle
    o ← tools.run (
        codes "tpm2_quote"
        ∷ codes "-c"
        ∷ h
        ∷ codes "-l"
        ∷ spec
        ∷ codes "-q"
        ∷ hex_of qd
        ∷ codes "-m"
        ∷ attest
        ∷ codes "-s"
        ∷ sig
        ∷ codes "-g"
        ∷ codes "sha256"
        ∷ codes "-f"
        ∷ codes "plain"
        ∷ [])
    pure tt

  read_pair : Bytes → Bytes → Exec Message W (Bytes × Bytes)
  read_pair a s = do attest ← tools.read_file a; sig ← tools.read_file s; pure (attest, sig)

  certify_pair : Bytes → Bytes → Exec Message W (Bytes × Bytes)
  certify_pair scratch qualifying = do
    let a = in_dir scratch (codes "certify.attest")
    let s = in_dir scratch (codes "certify.sig")
    stop_nv_certify qualifying a s
    read_pair a s

  quote_pair : Bytes → Bytes → Bytes → Exec Message W (Bytes × Bytes)
  quote_pair scratch qualifying spec = do
    let a = in_dir scratch (codes "quote.attest")
    let s = in_dir scratch (codes "quote.sig")
    quote_qualified qualifying spec a s
    read_pair a s

  -- The chip of the service: `Real`.
  pub real : Bytes → StopTpm W
  real scratch = record {
    read_counter = stop_nv_read;
    increment = stop_nv_increment;
    certify = certify_pair scratch;
    pcr_read = λ spec. pcr_read spec scratch;
    quote = quote_pair scratch;
  }

  -- A file of at most `limit` bytes, if it is there.
  bounded : ℕ → Option Bytes → R (Option Bytes)
  bounded limit none = ok none
  bounded limit (some b) = if ltb limit (length b) then err (file_too_long limit) else ok (some b)

  read_bounded : Bytes → ℕ → Exec Message W (Option Bytes)
  read_bounded p limit = do found ← tools.read_if_there p; lift (bounded limit found)

  -- The signature is read after the record.
  read_sig : Bytes → Option Bytes → Exec Message W (Option (Bytes × Bytes))
  read_sig sig none = pure none
  read_sig sig (some rec) = do found ← read_bounded sig max_sig; pure (with_sig rec found)

  pub read_release : Bytes → Bytes → Exec Message W (Option (Bytes × Bytes))
  read_release rec sig = do found ← read_bounded rec max_record; read_sig sig found

  -- `ReleaseFiles`.
  pub release_files : Bytes → Bytes → ReleaseStore W
  release_files rec sig = record { read = read_release rec sig }

-- Named on the line of a test, opens what this module keeps shut.
unfoldable pub computing_commands : Unit {0}
unfolding run_owner handle_exists nv_defined counter_of increment_at nv_define verify_counter
    nv_increment_and_read stop_nv_first_write stop_nv_define stop_nv_attributes verify_stop_counter
    stop_nv_name stop_nv_read stop_nv_increment stop_nv_certify pcr_read quote_qualified read_pair
    certify_pair quote_pair real bounded read_bounded read_sig read_release release_files
computing_commands = tt
