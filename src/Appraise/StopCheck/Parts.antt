-- ===== src/Appraise/StopCheck/Parts.antt =====
-- The single tests of the receipt check (crates/attest-appraise/src/stop.rs).
use tactiq_attest.Base.{
  ℕ, Bytes, true, ◌||◌, not, List, [], ◌∷◌, ◌≡◌, refl, sym, ap, ◌∙◌, subst, Option, none, some,
  length, slice, from_be, bytes_eq, bytes_eq→eq, bytes_eq_refl, ok, ◌==◌, eq→==, inl, inr, ◌⊎◌,
  refuse_if, refuse_unless, ok_or, ok_or-eq-ok, bind-elim, pair-elim, then-elim, ok-injective,
  err-ne-ok,
}
use tactiq_attest.Messages.{
  Part, other_selection, other_pcr_digest, part_malformed, other_challenge,
}
use tactiq_attest.Crypto.{Ecdsa}
use tactiq_attest.Envelope.{AttestationMessage}
use tactiq_attest.Envelope.Tpm.{Quote, banks}
use tactiq_attest.Stop.Record.{check_nonce}
use tactiq_attest.Appraise.Gate1.{only_bank, decode}
use tactiq_attest.Appraise.Gate1.Banks.{only_bank_ok, selection_ok, only_bank-one}
use tactiq_attest.Appraise.StopCheck.{covers, verify, nonce_of}

-- A quote of exactly one bank, with this selection and this digest.
pub record Covers (selection pcr_hash : Bytes) (q : Quote) : Type 0 where
  pub alg : ℕ
  pub bits : Bytes
  pub rest : List (ℕ × Bytes)
  pub one_bank : q.pcr_banks.count ≡ 1
  pub bank : banks q.pcr_banks ≡ (alg, bits) ∷ rest
  pub selected_alg : alg ≡ from_be (slice 0 2 selection)
  pub selected_bits : bits ≡ slice 2 (length selection) selection
  pub pcr_digest : q.pcr_digest ≡ pcr_hash

pub covers_ok :
    (msg : AttestationMessage) (q : Quote)
    → covers msg q ≡ ok tt
    → Covers msg.pcr_selection msg.pcr_hash q
unfolding covers
covers_ok msg q e =
    pair-elim (only_bank q.pcr_banks.count (banks q.pcr_banks)) _ e λ alg bits e1 f1.
      then-elim
        (refuse_if
          (not (alg == from_be (slice 0 2 msg.pcr_selection))
            || not (bytes_eq bits (slice 2 (length msg.pcr_selection) msg.pcr_selection)))
          other_selection)
        _ f1
        λ e2 f2.
          then-elim (refuse_if (not (bytes_eq q.pcr_digest msg.pcr_hash)) other_pcr_digest) _ f2
            λ e3 _.
              let (one, (rest, bank)) = only_bank_ok _ _ alg bits e1 in
              let (same_alg, same_bits) = selection_ok alg bits msg.pcr_selection e2 in
              record {
                alg = alg;
                bits = bits;
                rest = rest;
                one_bank = one;
                bank = bank;
                selected_alg = same_alg;
                selected_bits = same_bits;
                pcr_digest = bytes_eq→eq _ _ (refuse_unless _ _ e3);
              }

pub ok-covers :
    (msg : AttestationMessage) (q : Quote)
    → Covers msg.pcr_selection msg.pcr_hash q
    → covers msg q ≡ ok tt
unfolding covers
ok-covers msg q c =
    let alg : (c.alg == from_be (slice 0 2 msg.pcr_selection)) ≡ true = eq→== _ _ c.selected_alg in
    let bits : bytes_eq c.bits (slice 2 (length msg.pcr_selection) msg.pcr_selection) ≡ true =
      ap (bytes_eq c.bits) (sym c.selected_bits) ∙ bytes_eq_refl c.bits in
    let digest : bytes_eq q.pcr_digest msg.pcr_hash ≡ true =
      ap (bytes_eq q.pcr_digest) (sym c.pcr_digest) ∙ bytes_eq_refl q.pcr_digest in
    rw (
      only_bank-one q.pcr_banks.count (banks q.pcr_banks) c.rest (c.alg, c.bits) c.one_bank c.bank,
      alg,
      bits,
      digest,
    )

module _ (sha256 : Bytes → Bytes) (ecdsa : Ecdsa) where
  -- A signature that decodes and verifies.
  abbrev pub IsSignedBy : ecdsa.Key → Bytes → Bytes → Type 0
  IsSignedBy vk signed sig =
      (s : ecdsa.Signature) × (decode sha256 ecdsa sig ≡ some s) × (ecdsa.verify vk signed s ≡ true)

  pub verify_ok :
      (vk : ecdsa.Key) (signed sig : Bytes) (what : Part)
      → verify sha256 ecdsa vk signed sig what ≡ ok tt
      → IsSignedBy vk signed sig
  unfolding verify
  verify_ok vk signed sig what e =
      bind-elim (ok_or (part_malformed what) (decode sha256 ecdsa sig)) _ e
        λ s e1 f1. (s, ok_or-eq-ok _ _ e1, refuse_unless _ _ f1)

  pub ok-verify :
      (vk : ecdsa.Key) (signed sig : Bytes) (what : Part)
      → IsSignedBy vk signed sig
      → verify sha256 ecdsa vk signed sig what ≡ ok tt
  unfolding verify
  ok-verify vk signed sig what (s, e, v) = rw (e, v)

-- The nonce that was asked for is the one found, and a found nonce was asked for.
pub nonce_of_ok :
    (sent found : Option Bytes) (bytes : Bytes)
    → nonce_of sent found ≡ ok bytes
    → (found ≡ sent)
      × ((sent ≡ none) × (bytes ≡ []) ⊎ (sent ≡ some bytes) × (check_nonce bytes ≡ ok tt))
unfolding nonce_of
nonce_of_ok (some want) (some got) bytes e = then-elim (check_nonce got) _ e λ e1 f1.
    then-elim (refuse_if (not (bytes_eq got want)) other_challenge) _ f1 λ e2 f2.
      let same : got ≡ want = bytes_eq→eq _ _ (refuse_unless _ _ e2) in
      let is : got ≡ bytes = ok-injective f2 in
      (ap some same, inr (ap some (sym same ∙ is), subst (λ b. check_nonce b ≡ ok tt) is e1))
nonce_of_ok (some want) none bytes e = absurd (err-ne-ok e)
nonce_of_ok none (some got) bytes e = absurd (err-ne-ok e)
nonce_of_ok none none bytes e = (refl, inl (refl, sym (ok-injective e)))
