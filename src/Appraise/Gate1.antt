-- ===== src/Appraise/Gate1.antt =====
-- crates/attest-appraise/src/gate1.rs: authenticity of an envelope and its bindings.
pub mod Steps
pub mod Sound
pub mod Banks
pub mod Quoted
pub mod Keys
use tactiq_attest.Base.{
  ℕ, ◌+◌, ◌-◌, ◌/◌, ◌%◌, ◌^◌, Bytes, Bool, true, false, ◌&&◌, ◌||◌, not, List, [], ◌∷◌, ◌++◌,
  Option, none, some, length, replicate, slice, from_be, bytes_eq, Result, ok, err, ◌>>=◌, ◌>>◌,
  refuse_if, ok_or, map_err, ◌==◌, ltb, if◌then◌else◌,
}
use tactiq_attest.Messages.{
  Message, R, ak_attributes, ak_decrypts, ak_symmetric_or_kdf, ak_scheme, ak_curve, ak_coordinate,
  ak_point, not_in_trust_store, ak_without_quote, quote_under_legacy, malformed_signature,
  signature_failed, other_extra_data, banks_not_one, other_selection, other_pcr_digest,
  other_evidence,
}
use tactiq_attest.Crypto.{Ecdsa}
use tactiq_attest.Envelope
use tactiq_attest.Envelope.{AttestationMessage, evidence_digest}
use tactiq_attest.Envelope.Tpm.{
  ClockInfo, Quote, PcrBanks, banks, parse_quote, parse_tpm2b, name_of, qualifying_data, EccPublic,
  tpm_alg_null, tpm_alg_ecdsa, tpm_alg_sha256, tpm_ecc_nist_p256,
}
use tactiq_attest.Appraise.Verdict.{
  Reason, malformed, unknown_device, signature_fail, evidence_binding_fail, quote_binding_fail,
}

pub data Gate1Reject : Type 0 where
  is_malformed is_unknown_device is_signature_fail is_evidence_binding_fail is_quote_binding_fail :
      Gate1Reject

-- `impl From<Gate1Reject> for Reason`
pub reason_of : Gate1Reject → Reason
reason_of is_malformed = malformed
reason_of is_unknown_device = unknown_device
reason_of is_signature_fail = signature_fail
reason_of is_evidence_binding_fail = evidence_binding_fail
reason_of is_quote_binding_fail = quote_binding_fail

pub record Gate1Error : Type 0 where
  pub device_id : Option Bytes
  pub reason : Gate1Reject
  pub detail : Message

pub data Binding : Type 0 where
  self_signed bound_by_quote : Binding

pub record QuoteMeta : Type 0 where
  pub clock_info : ClockInfo
  pub firmware_version : ℕ

pub record Authenticated : Type 0 where
  pub device_id : Bytes
  pub counter : ℕ
  pub pcr_selection : Bytes
  pub pcr_hash : Bytes
  pub evidence : Bytes
  pub binding : Binding
  pub quote_meta : Option QuoteMeta

-- `1 << i` in a 32-bit word of attributes.
unfoldable pub has_bit : ℕ → ℕ → Bool
has_bit i attributes = attributes / 2 ^ i % 2 == 1

-- `attributes & AK_REQUIRED == AK_REQUIRED`: fixedTPM, fixedParent, sensitiveDataOrigin, restricted, sign.
pub has_required : ℕ → Bool
has_required attributes =
    has_bit 1 attributes
    && (has_bit 4 attributes
        && (has_bit 5 attributes && (has_bit 16 attributes && has_bit 18 attributes)))

-- `attributes & DECRYPT != 0`
abbrev pub decrypts : ℕ → Bool
decrypts attributes = has_bit 17 attributes

-- A coordinate at the end of 32 zero bytes.
abbrev coordinate : Bytes → Bytes
coordinate x = replicate (32 - length x) 0 ++ x

-- The closure `refuse`.
abbrev refuse : AttestationMessage → Gate1Reject → Message → Gate1Error
refuse msg reason detail = record {
  device_id = some msg.device_id;
  reason = reason;
  detail = detail;
}

-- The `match` on the count of banks and the first bank.
pub only_bank : ℕ → List (ℕ × Bytes) → R (ℕ × Bytes)
only_bank count [] = err (banks_not_one count)
only_bank count (b ∷ bs) = if count == 1 then ok b else err (banks_not_one count)

-- `if quote_meta.is_some()`
abbrev binding_of : Option QuoteMeta → Binding
binding_of none = self_signed
binding_of (some q) = bound_by_quote

module _ (sha256 : Bytes → Bytes) where
  -- What a quote must say of the message, in the order of the source.
  pub bind_quote : AttestationMessage → Bytes → Quote → R QuoteMeta
  bind_quote msg msg_bytes q = do
    qd ← qualifying_data sha256 msg_bytes
    refuse_if (not (bytes_eq q.extra_data qd)) other_extra_data
    (alg, bits) ← only_bank q.pcr_banks.count (banks q.pcr_banks)
    refuse_if
        (not (alg == from_be (slice 0 2 msg.pcr_selection))
          || not (bytes_eq bits (slice 2 (length msg.pcr_selection) msg.pcr_selection)))
        other_selection
    refuse_if (not (bytes_eq q.pcr_digest msg.pcr_hash)) other_pcr_digest
    ok (record { clock_info = q.clock_info; firmware_version = q.firmware_version })

  pub quote_meta_of :
      AttestationMessage → Bytes → Option Quote → Result Gate1Error (Option QuoteMeta)
  quote_meta_of msg msg_bytes none = ok none
  quote_meta_of msg msg_bytes (some q) =
      map_err (refuse msg is_quote_binding_fail)
        (do meta ← bind_quote msg msg_bytes q; ok (some meta))

module _ (sha256 : Bytes → Bytes) (ecdsa : Ecdsa) where
  open ecdsa use {Key, Signature, from_der, from_slice, verify, from_coordinates}

  pub record AkKey : Type 0 where
    pub vk : Key
    pub name : Bytes

  pub from_tpm2b_public : Bytes → R AkKey
  from_tpm2b_public bytes = do
    p ← parse_tpm2b bytes
    refuse_if (not (has_required p.attributes)) (ak_attributes p.attributes)
    refuse_if (decrypts p.attributes) ak_decrypts
    refuse_if (not (p.symmetric == tpm_alg_null) || not (p.kdf == tpm_alg_null)) ak_symmetric_or_kdf
    refuse_if (not (p.scheme == tpm_alg_ecdsa) || not (p.scheme_hash == tpm_alg_sha256))
        (ak_scheme p.scheme p.scheme_hash)
    refuse_if (not (p.curve == tpm_ecc_nist_p256)) (ak_curve p.curve)
    refuse_if (ltb 32 (length p.x) || ltb 32 (length p.y)) ak_coordinate
    vk ← ok_or ak_point (from_coordinates (coordinate p.x) (coordinate p.y))
    name ← name_of sha256 p
    ok (record { vk = vk; name = name })

  pub data TrustEntry : Type 0 where
    legacy : Key → TrustEntry
    ak : AkKey → TrustEntry

  -- The `match` on the trust entry and the form of the envelope: the key, the signed bytes and the quote.
  pub form_of :
      AttestationMessage
      → Bytes
      → TrustEntry
      → Option Bytes
      → Result Gate1Error (Key × Bytes × Option Quote)
  form_of msg msg_bytes (legacy vk) none = ok (vk, msg_bytes, none)
  form_of msg msg_bytes (legacy vk) (some a) =
      err (refuse msg is_quote_binding_fail quote_under_legacy)
  form_of msg msg_bytes (ak key) none = err (refuse msg is_quote_binding_fail ak_without_quote)
  form_of msg msg_bytes (ak key) (some a) =
      map_err (refuse msg is_malformed) (do q ← parse_quote a; ok (key.vk, a, some q))

  -- `Signature::from_der(…).or_else(|_| Signature::from_slice(…))`
  pub decode : Bytes → Option Signature
  decode sig = elim (from_der sig) [ some s ↦ some s | none ↦ from_slice sig ]

  pub authenticate_envelope :
      Bytes
      → Option Bytes
      → Bytes
      → Bytes
      → (Bytes → Option TrustEntry)
      → Result Gate1Error Authenticated
  authenticate_envelope msg_bytes attest sig_bytes evidence entry_for = do
    msg ←
        map_err (λ e. record { device_id = none; reason = is_malformed; detail = e })
          (Envelope.parse msg_bytes)
    entry ← ok_or (refuse msg is_unknown_device not_in_trust_store) (entry_for msg.device_id)
    (vk, signed, quote) ← form_of msg msg_bytes entry attest
    sig ← ok_or (refuse msg is_signature_fail malformed_signature) (decode sig_bytes)
    refuse_if (not (verify vk signed sig)) (refuse msg is_signature_fail signature_failed)
    quote_meta ← quote_meta_of sha256 msg msg_bytes quote
    refuse_if (not (bytes_eq (evidence_digest sha256 evidence) msg.evidence_hash))
        (refuse msg is_evidence_binding_fail (other_evidence (length evidence)))
    ok (record {
      device_id = msg.device_id;
      counter = msg.counter;
      pcr_selection = msg.pcr_selection;
      pcr_hash = msg.pcr_hash;
      evidence = evidence;
      binding = binding_of quote_meta;
      quote_meta = quote_meta;
    })

  -- `key_for(id).map(TrustEntry::Legacy)`
  abbrev pub legacy_entry : Option Key → Option TrustEntry
  legacy_entry none = none
  legacy_entry (some vk) = some (legacy vk)

  pub authenticate : Bytes → Bytes → Bytes → (Bytes → Option Key) → Result Gate1Error Authenticated
  authenticate msg_bytes sig_bytes evidence key_for =
      authenticate_envelope msg_bytes none sig_bytes evidence (λ id. legacy_entry (key_for id))

-- Named on the line of a test, opens what this module keeps shut.
unfoldable pub computing_gate1 : Unit {0}
unfolding reason_of has_bit has_required only_bank bind_quote quote_meta_of from_tpm2b_public
    form_of decode authenticate_envelope authenticate
computing_gate1 = tt
