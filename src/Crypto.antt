-- ===== src/Crypto.antt =====
-- The third-party ECDSA P-256 implementation (crate p256), which the program calls and does not
-- contain: keys, signatures, their decoding, and verification over SHA-256.
use tactiq_attest.Base.{Bytes, Bool, Option}

pub record Ecdsa : Type 1 where
  pub Key : Type 0
  pub Signature : Type 0
  -- `Signature::from_der` and `Signature::from_slice`
  pub from_der : Bytes → Option Signature
  pub from_slice : Bytes → Option Signature
  -- `VerifyingKey::verify`
  pub verify : Key → Bytes → Signature → Bool
  -- `VerifyingKey::from_encoded_point` of the uncompressed point with these coordinates
  pub from_coordinates : Bytes → Bytes → Option Key
