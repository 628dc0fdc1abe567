-- ===== src/Appraise/Gate1/Sound.antt =====
-- What an authenticated envelope stands on (crates/attest-appraise/src/gate1.rs).
use tactiq_attest.Base.{
  Bytes, true, ◌≡◌, refl, sym, ap, subst, ◌∙◌, ◌⊎◌, inl, inr, Option, none, some, ok, map_err-eq-ok,
  bind-elim, ok-injective, err-ne-ok,
}
use tactiq_attest.Crypto.{Ecdsa}
use tactiq_attest.Envelope
use tactiq_attest.Envelope.{AttestationMessage}
use tactiq_attest.Envelope.Tpm.{Quote, parse_quote}
use tactiq_attest.Appraise.Gate1.{
  self_signed, bound_by_quote, QuoteMeta, Authenticated, binding_of, bind_quote, quote_meta_of,
  AkKey, TrustEntry, legacy, ak, form_of, decode, authenticate_envelope, authenticate, legacy_entry,
}
use tactiq_attest.Appraise.Gate1.Steps.{Passed, authenticate_envelope-Passed}
use tactiq_attest.Appraise.Gate1.Quoted.{Commits, bind_quote_ok, bind_quote_meta}

module _ (sha256 : Bytes → Bytes) (ecdsa : Ecdsa) where
  open ecdsa use {Key, Signature, from_der, from_slice, verify}

  -- The two forms: signed by the device's own key, or a quote under an attestation key.
  pub data HasForm (msg_bytes selection pcr_hash : Bytes) (attest : Option Bytes)
      (entry : TrustEntry sha256 ecdsa) (vk : Key) (signed : Bytes) (meta : Option QuoteMeta)
      : Type 0 where
    by_key :
        entry ≡ legacy vk
        → attest ≡ none
        → signed ≡ msg_bytes
        → meta ≡ none
        → HasForm msg_bytes selection pcr_hash attest entry vk signed meta
    by_quote :
        (key : AkKey sha256 ecdsa) (q : Quote)
        → entry ≡ ak key
        → key.vk ≡ vk
        → attest ≡ some signed
        → parse_quote signed ≡ ok q
        → Commits sha256 ecdsa msg_bytes selection pcr_hash q
        → meta ≡ some (record { clock_info = q.clock_info; firmware_version = q.firmware_version })
        → HasForm msg_bytes selection pcr_hash attest entry vk signed meta

  form_lem :
      (msg : AttestationMessage) (msg_bytes : Bytes) (entry : TrustEntry sha256 ecdsa)
      (attest : Option Bytes) (vk : Key) (signed : Bytes) (quote : Option Quote)
      (meta : Option QuoteMeta)
      → form_of sha256 ecdsa msg msg_bytes entry attest ≡ ok (vk, signed, quote)
      → quote_meta_of sha256 msg msg_bytes quote ≡ ok meta
      → HasForm msg_bytes msg.pcr_selection msg.pcr_hash attest entry vk signed meta
  unfolding form_of quote_meta_of
  form_lem msg msg_bytes (legacy k) none vk signed quote meta e h =
      let same = ok-injective e in
      let bare = ap (quote_meta_of sha256 msg msg_bytes) (λ i. (same i).2) ∙ h in
      by_key (λ i. legacy ((same i).0)) refl (sym (λ i. (same i).1)) (sym (ok-injective bare))
  form_lem msg msg_bytes (legacy k) (some a) vk signed quote meta e h = absurd (err-ne-ok e)
  form_lem msg msg_bytes (ak k) none vk signed quote meta e h = absurd (err-ne-ok e)
  form_lem msg msg_bytes (ak k) (some a) vk signed quote meta e h =
      bind-elim (parse_quote a) _ (map_err-eq-ok _ _ e) λ q parsed f.
        let same = ok-injective f in
        let bytes : a ≡ signed = λ i. (same i).1 in
        let bound = ap (quote_meta_of sha256 msg msg_bytes) (λ i. (same i).2) ∙ h in
        bind-elim (bind_quote sha256 msg msg_bytes q) _ (map_err-eq-ok _ _ bound) λ m e1 f1.
          by_quote k q refl (λ i. (same i).0) (ap some bytes)
            (subst (λ b. parse_quote b ≡ ok q) bytes parsed)
            (bind_quote_ok sha256 ecdsa msg msg_bytes q m e1)
            (sym (ok-injective f1) ∙ ap some (bind_quote_meta sha256 ecdsa msg msg_bytes q m e1))

  -- An envelope that gate 1 lets through.
  pub record IsAuthentic (msg_bytes : Bytes) (attest : Option Bytes) (sig_bytes evidence : Bytes)
      (entry_for : Bytes → Option (TrustEntry sha256 ecdsa)) (a : Authenticated) : Type 0 where
    pub msg : AttestationMessage
    pub entry : TrustEntry sha256 ecdsa
    pub vk : Key
    pub signed : Bytes
    pub signature : Signature
    pub parsed : Envelope.parse msg_bytes ≡ ok msg
    pub known : entry_for msg.device_id ≡ some entry
    pub formed :
        HasForm msg_bytes msg.pcr_selection msg.pcr_hash attest entry vk signed a.quote_meta
    pub decoded :
        (from_der sig_bytes ≡ some signature)
        ⊎ ((from_der sig_bytes ≡ none) × (from_slice sig_bytes ≡ some signature))
    pub verified : verify vk signed signature ≡ true
    pub bound : sha256 evidence ≡ msg.evidence_hash
    pub device_id : a.device_id ≡ msg.device_id
    pub counter : a.counter ≡ msg.counter
    pub pcr_selection : a.pcr_selection ≡ msg.pcr_selection
    pub pcr_hash : a.pcr_hash ≡ msg.pcr_hash
    pub carried : a.evidence ≡ evidence
    pub without_quote : a.quote_meta ≡ none → a.binding ≡ self_signed
    pub with_quote : (m : QuoteMeta) → a.quote_meta ≡ some m → a.binding ≡ bound_by_quote

  decode_lem :
      (sig : Bytes) (s : Signature)
      → decode sha256 ecdsa sig ≡ some s
      → (from_der sig ≡ some s) ⊎ ((from_der sig ≡ none) × (from_slice sig ≡ some s))
  unfolding decode
  decode_lem sig s e = by_der (from_der sig) refl e
    where
      by_der :
          (o : Option Signature)
          → from_der sig ≡ o
          → elim o [ some x ↦ some x | none ↦ from_slice sig ] ≡ some s
          → (from_der sig ≡ some s) ⊎ ((from_der sig ≡ none) × (from_slice sig ≡ some s))
      by_der (some x) h f = inl (h ∙ f)
      by_der none h f = inr (h, f)

  -- An authenticated envelope has a message that parses and an entry for the device id it names.
  -- Either the entry is a device key, there is no quote and the message is signed, or the entry is
  -- an attestation key, the quote is signed, it parses and it commits to this message (its extra
  -- data is the digest of the message, it covers one bank, with the message's algorithm and
  -- bitmap, and its PCR digest is the message's), and its clock and firmware version are kept. The
  -- signature decodes, as DER or else as the two numbers, and verifies over the signed bytes, the
  -- bundle hashes to the signed digest, and the result carries the fields of the message, the
  -- bundle and which of the two forms it was.
  pub authenticate_envelope_sound :
      (msg_bytes : Bytes) (attest : Option Bytes) (sig_bytes evidence : Bytes)
      (entry_for : Bytes → Option (TrustEntry sha256 ecdsa)) (a : Authenticated)
      → authenticate_envelope sha256 ecdsa msg_bytes attest sig_bytes evidence entry_for ≡ ok a
      → IsAuthentic msg_bytes attest sig_bytes evidence entry_for a
  authenticate_envelope_sound msg_bytes attest sig_bytes evidence entry_for a e =
      let s : Passed sha256 ecdsa msg_bytes attest sig_bytes evidence entry_for a =
        authenticate_envelope-Passed sha256 ecdsa msg_bytes attest sig_bytes evidence entry_for a
          e in
      record {
        msg = s.msg;
        entry = s.entry;
        vk = s.vk;
        signed = s.signed;
        signature = s.signature;
        parsed = s.parsed;
        known = s.known;
        formed =
            form_lem s.msg msg_bytes s.entry attest s.vk s.signed s.quote a.quote_meta s.formed
              s.quoted;
        decoded = decode_lem sig_bytes s.signature s.decoded;
        verified = s.verified;
        bound = s.bound;
        device_id = s.device_id;
        counter = s.counter;
        pcr_selection = s.pcr_selection;
        pcr_hash = s.pcr_hash;
        carried = s.carried;
        without_quote = λ h. s.binding ∙ ap binding_of h;
        with_quote = λ m h. s.binding ∙ ap binding_of h;
      }

  pub authenticate_sound :
      (msg_bytes sig_bytes evidence : Bytes) (key_for : Bytes → Option Key) (a : Authenticated)
      → authenticate sha256 ecdsa msg_bytes sig_bytes evidence key_for ≡ ok a
      → IsAuthentic msg_bytes none sig_bytes evidence
          (λ id. legacy_entry sha256 ecdsa (key_for id))
          a
  unfolding authenticate
  authenticate_sound msg_bytes sig_bytes evidence key_for a e =
      authenticate_envelope_sound msg_bytes none sig_bytes evidence _ a e
