-- ===== src/StopVerify.antt =====
-- tools/stop-verify/src/main.rs: the command line around the verifier of stop receipts. What is read from
-- files and what serde_json makes of a text are parameters; the output is left out, the exit code is not.
pub mod Commands
use tactiq_attest.Base.{
  ℕ, ◌-◌, ◌%◌, Bytes, Bool, true, false, not, ◌&&◌, ◌||◌, List, [], ◌∷◌, ◌++◌, Option, none, some,
  codes, length, replicate, bytes_eq, Result, ok, err, map_err, ok_or, ◌==◌, ltb, ◌>>=◌, ◌>>◌,
  if◌then◌else◌,
}
use tactiq_attest.Base
use tactiq_attest.Messages.{
  Message, R, usage, one_nonce, not_hex, not_printable_device, value_missing, unknown_option,
  option_missing, nonce_option_length, reference_not_json, reference_format, reference_bank,
  reference_pcr, slot_without_value, slot_needed, no_pcr, pcr_length,
}
use tactiq_attest.Envelope.{device_id_len}
use tactiq_attest.Stop.Record.{nonce_min, nonce_max}
use tactiq_attest.Service.Text.{all, is_ascii_graphic, strip_prefix}
use tactiq_attest.Service.Front.{is_hex_digit, hex_pairs}
use tactiq_attest.TpmAccess.{trim}

-- What `serde_json::Value` is used for: reading a text, the member of a name (a null, if there is none), a
-- string, and the members of an object.
pub record Json : Type 1 where
  pub Value : Type 0
  pub from_str : Bytes → Option Value
  pub index : Value → Bytes → Value
  pub as_str : Value → Option Bytes
  pub as_object : Value → Option (Bytes → Option Value)

pub unhex : Bytes → R Bytes
unhex text =
    let s = trim text in
    if not (length s % 2 == 0) || not (all is_hex_digit s) then err not_hex else ok (hex_pairs s)

pub device_id : Bytes → R Bytes
device_id s =
    if length s == 0 || ltb device_id_len (length s) || not (all is_ascii_graphic s)
    then err not_printable_device
    else ok (s ++ replicate (device_id_len - length s) 0)

module _ (json : Json) (sha256 : Bytes → Bytes) where
  open json use {Value, from_str, index, as_str, as_object}

  -- The hex digits of a PCR.
  slot_text : ℕ → Option Bytes → (Bytes → Option Value) → R Bytes
  slot_text i none get = err (slot_needed i)
  slot_text i (some s) get = elim (get s) [
    | none ↦ err (slot_without_value i)
    | some x ↦ ok_or (slot_without_value i) (as_str x)
  ]

  value_text : ℕ → Option Bytes → Value → R Bytes
  value_text i slot v = elim (as_str v) [
    | some s ↦ ok s
    | none ↦ elim (as_object v) [ none ↦ err (no_pcr i) | some get ↦ slot_text i slot get ]
  ]

  -- One round of the loop.
  pcr_value : Value → Option Bytes → ℕ → Bytes → R Bytes
  pcr_value doc slot i name = do
    text ← value_text i slot (index (index doc (codes "pcr")) name)
    b ← map_err (reference_pcr i) (unhex text)
    (if length b == 32 then ok b else err (pcr_length i (length b)))

  is_text : Option Bytes → Bytes → Bool
  is_text none s = false
  is_text (some t) s = bytes_eq t s

  pub reference_composite : Bytes → Option Bytes → R Bytes
  reference_composite text slot = do
    doc ← ok_or reference_not_json (from_str text)
    (if is_text (as_str (index doc (codes "format"))) (codes "tactiq-pcr-reference/1")
          || is_text (as_str (index doc (codes "format"))) (codes "tactiq-pcr-reference/2")
        then ok tt
        else err reference_format)
    (if is_text (as_str (index doc (codes "bank"))) (codes "sha256")
        then ok tt
        else err reference_bank)
    b0 ← pcr_value doc slot 0 (codes "0")
    b1 ← pcr_value doc slot 1 (codes "1")
    b8 ← pcr_value doc slot 8 (codes "8")
    ok (sha256 (b0 ++ (b1 ++ b8)))

-- The options that were given so far.
pub record Given : Type 0 where
  pub ak : Option Bytes
  pub device : Option Bytes
  pub pcr_ref : Option Bytes
  pub slot : Option Bytes
  pub nonce : Option Bytes
  pub second_nonce : Option Bytes
  pub no_nonce : Bool

abbrev nothing_given : Given
nothing_given = record {
  ak = none;
  device = none;
  pcr_ref = none;
  slot = none;
  nonce = none;
  second_nonce = none;
  no_nonce = false;
}

-- The options that both commands have.
set_shared : Given → Bytes → Bytes → R Given
set_shared g o v =
    if bytes_eq o (codes "--ak")
    then ok (record g { ak = some v })
    else (if bytes_eq o (codes "--device")
        then ok (record g { device = some v })
        else (if bytes_eq o (codes "--pcr-ref")
            then ok (record g { pcr_ref = some v })
            else (if bytes_eq o (codes "--slot")
                then ok (record g { slot = some v })
                else err (unknown_option o))))

set_nonce : Given → Bytes → R Given
set_nonce g v = do n ← unhex v; ok (record g { nonce = some n })

set_second : Given → Bytes → R Given
set_second g v = do n ← unhex v; ok (record g { second_nonce = some n })

set_option : Given → Bytes → Bytes → R Given
set_option g o v = if bytes_eq o (codes "--nonce") then set_nonce g v else set_shared g o v

set_interval : Given → Bytes → Bytes → R Given
set_interval g o v =
    if bytes_eq o (codes "--nonce-first")
    then set_nonce g v
    else (if bytes_eq o (codes "--nonce-second") then set_second g v else set_shared g o v)

is_option : Bytes → Bool
is_option o =
    bytes_eq o (codes "--ak")
    || (bytes_eq o (codes "--device")
        || (bytes_eq o (codes "--pcr-ref")
            || (bytes_eq o (codes "--slot") || bytes_eq o (codes "--nonce"))))

-- The loop of `opts`.
read_options : List Bytes → Given → R Given
read_options [] g = ok g
read_options (o ∷ []) g =
    if bytes_eq o (codes "--no-nonce")
    then ok (record g { no_nonce = true })
    else (if is_option o then err (value_missing o) else err (unknown_option o))
read_options (o ∷ (v ∷ rest)) g = elim (bytes_eq o (codes "--no-nonce")) [
  | true ↦ read_options (v ∷ rest) (record g { no_nonce = true })
  | false ↦ set_option g o v >>= λ g'. read_options rest g'
]

-- The loop of `interval`.
read_interval : List Bytes → Given → R Given
read_interval [] g = ok g
read_interval (o ∷ []) g = err (value_missing o)
read_interval (o ∷ (v ∷ rest)) g = set_interval g o v >>= λ g'. read_interval rest g'

in_bounds : Bytes → Bytes → R (Unit {0})
in_bounds name n =
    if ltb (length n) nonce_min || ltb nonce_max (length n)
    then err (nonce_option_length name (length n))
    else ok tt

-- Exactly one of a nonce and the word that there is none.
chosen_nonce : Option Bytes → Bool → R (Option Bytes)
chosen_nonce (some n) false = do in_bounds (codes "--nonce") n; ok (some n)
chosen_nonce none true = ok none
chosen_nonce _ _ = err one_nonce

is_word : Bytes → Bool
is_word s = elim (strip_prefix (codes "--") s) [ none ↦ true | some _ ↦ false ]

pub record Opts : Type 0 where
  pub receipt : Bytes
  pub ak : Bytes
  pub device : Bytes
  pub pcr_ref : Bytes
  pub slot : Option Bytes
  pub nonce : Option Bytes

pub opts : List Bytes → R Opts
opts [] = err usage
opts (receipt ∷ rest) = if not (is_word receipt) then err usage else (do
  g ← read_options rest nothing_given
  nonce ← chosen_nonce g.nonce g.no_nonce
  ak ← ok_or (option_missing (codes "--ak")) g.ak
  device ← ok_or (option_missing (codes "--device")) g.device
  pcr_ref ← ok_or (option_missing (codes "--pcr-ref")) g.pcr_ref
  ok (record {
    receipt = receipt;
    ak = ak;
    device = device;
    pcr_ref = pcr_ref;
    slot = g.slot;
    nonce = nonce;
  }))

pub record IntervalOpts : Type 0 where
  pub first : Bytes
  pub second : Bytes
  pub ak : Bytes
  pub device : Bytes
  pub pcr_ref : Bytes
  pub slot : Option Bytes
  pub first_nonce : Bytes
  pub second_nonce : Bytes

interval_of : Bytes → Bytes → Given → R IntervalOpts
interval_of first second g = do
  n1 ← ok_or (option_missing (codes "--nonce-first")) g.nonce
  n2 ← ok_or (option_missing (codes "--nonce-second")) g.second_nonce
  in_bounds (codes "--nonce-first") n1
  in_bounds (codes "--nonce-second") n2
  ak ← ok_or (option_missing (codes "--ak")) g.ak
  pcr_ref ← ok_or (option_missing (codes "--pcr-ref")) g.pcr_ref
  device ← ok_or (option_missing (codes "--device")) g.device
  ok (record {
    first = first;
    second = second;
    ak = ak;
    device = device;
    pcr_ref = pcr_ref;
    slot = g.slot;
    first_nonce = n1;
    second_nonce = n2;
  })

pub interval_opts : List Bytes → R IntervalOpts
interval_opts (first ∷ (second ∷ rest)) =
    if not (is_word first) || not (is_word second)
    then err usage
    else (read_interval rest nothing_given >>= λ g. interval_of first second g)
interval_opts _ = err usage

-- Named on the line of a test, opens what this module keeps shut.
unfoldable pub computing_stop_verify : Unit {0}
unfolding unhex device_id slot_text value_text pcr_value is_text reference_composite set_shared
    set_nonce set_second set_option set_interval is_option read_options read_interval in_bounds
    chosen_nonce is_word opts interval_of interval_opts
computing_stop_verify = tt
