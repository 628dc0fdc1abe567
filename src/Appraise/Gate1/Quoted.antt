-- ===== src/Appraise/Gate1/Quoted.antt =====
-- What the quote of an authenticated envelope says (crates/attest-appraise/src/gate1.rs).
use tactiq_attest.Base.{
  ℕ, Bytes, true, ◌||◌, not, List, ◌∷◌, ◌≡◌, refl, sym, ap, some-injective, ◌∙◌, subst, Option,
  none, some, ok, length, slice, from_be, bytes_eq, bytes_eq→eq, ◌==◌, map_err-eq-ok, refuse_if,
  refuse_unless, bind-elim, pair-elim, then-elim, ok-injective, err-ne-ok,
}
use tactiq_attest.Messages.{other_extra_data, other_selection, other_pcr_digest, bad_message_length}
use tactiq_attest.Crypto.{Ecdsa}
use tactiq_attest.Envelope.{AttestationMessage, msg_len}
use tactiq_attest.Envelope.Tpm.{Quote, banks, parse_quote, qualifying_data, computing_tpm}
use tactiq_attest.Appraise.Gate1.{
  self_signed, bound_by_quote, QuoteMeta, Authenticated, only_bank, binding_of, bind_quote,
  quote_meta_of, AkKey, TrustEntry, legacy, ak, form_of, decode, authenticate_envelope,
}
use tactiq_attest.Appraise.Gate1.Banks.{only_bank_ok, selection_ok}
use tactiq_attest.Appraise.Gate1.Steps.{Passed, authenticate_envelope-Passed}

module _ (sha256 : Bytes → Bytes) (ecdsa : Ecdsa) where
  open ecdsa use {Key, Signature, verify}

  -- What a quote says of the message that it was bound to.
  pub record Commits (msg_bytes selection pcr_hash : Bytes) (q : Quote) : Type 0 where
    pub extra_data : q.extra_data ≡ sha256 msg_bytes
    pub one_bank : q.pcr_banks.count ≡ 1
    pub alg : ℕ
    pub bits : Bytes
    pub rest : List (ℕ × Bytes)
    pub bank : banks q.pcr_banks ≡ (alg, bits) ∷ rest
    pub selected_alg : alg ≡ from_be (slice 0 2 selection)
    pub selected_bits : bits ≡ slice 2 (length selection) selection
    pub pcr_digest : q.pcr_digest ≡ pcr_hash

  qualifying_data_ok : (m qd : Bytes) → qualifying_data sha256 m ≡ ok qd → qd ≡ sha256 m
  unfolding computing_tpm
  qualifying_data_ok m qd e =
      then-elim (refuse_if (not (length m == msg_len)) (bad_message_length (length m) msg_len)) _ e
        λ _ f. sym (ok-injective f)

  pub bind_quote_ok :
      (msg : AttestationMessage) (msg_bytes : Bytes) (q : Quote) (meta : QuoteMeta)
      → bind_quote sha256 msg msg_bytes q ≡ ok meta
      → Commits msg_bytes msg.pcr_selection msg.pcr_hash q
  unfolding bind_quote
  bind_quote_ok msg msg_bytes q meta e =
      bind-elim (qualifying_data sha256 msg_bytes) _ e λ qd e1 f1.
        then-elim (refuse_if (not (bytes_eq q.extra_data qd)) other_extra_data) _ f1 λ e2 f2.
          pair-elim (only_bank q.pcr_banks.count (banks q.pcr_banks)) _ f2 λ alg bits e3 f3.
            then-elim
              (refuse_if
                (not (alg == from_be (slice 0 2 msg.pcr_selection))
                  || not (bytes_eq bits (slice 2 (length msg.pcr_selection) msg.pcr_selection)))
                other_selection)
              _ f3
              λ e4 f4.
                then-elim (refuse_if (not (bytes_eq q.pcr_digest msg.pcr_hash)) other_pcr_digest) _
                  f4
                  λ e5 f5.
                    let (one, (rest, bank)) = only_bank_ok _ _ alg bits e3 in
                    let (same_alg, same_bits) = selection_ok alg bits msg.pcr_selection e4 in
                    record {
                      extra_data =
                          bytes_eq→eq _ _ (refuse_unless _ _ e2)
                          ∙ qualifying_data_ok msg_bytes qd e1;
                      one_bank = one;
                      alg = alg;
                      bits = bits;
                      rest = rest;
                      bank = bank;
                      selected_alg = same_alg;
                      selected_bits = same_bits;
                      pcr_digest = bytes_eq→eq _ _ (refuse_unless _ _ e5);
                    }

  -- And what is kept of it.
  pub bind_quote_meta :
      (msg : AttestationMessage) (msg_bytes : Bytes) (q : Quote) (meta : QuoteMeta)
      → bind_quote sha256 msg msg_bytes q ≡ ok meta
      → meta ≡ record { clock_info = q.clock_info; firmware_version = q.firmware_version }
  unfolding bind_quote
  bind_quote_meta msg msg_bytes q meta e =
      bind-elim (qualifying_data sha256 msg_bytes) _ e λ qd e1 f1.
        then-elim (refuse_if (not (bytes_eq q.extra_data qd)) other_extra_data) _ f1 λ e2 f2.
          pair-elim (only_bank q.pcr_banks.count (banks q.pcr_banks)) _ f2 λ alg bits e3 f3.
            then-elim
              (refuse_if
                (not (alg == from_be (slice 0 2 msg.pcr_selection))
                  || not (bytes_eq bits (slice 2 (length msg.pcr_selection) msg.pcr_selection)))
                other_selection)
              _ f3
              λ e4 f4.
                then-elim (refuse_if (not (bytes_eq q.pcr_digest msg.pcr_hash)) other_pcr_digest) _
                  f4 λ e5 f5. sym (ok-injective f5)

  -- An envelope of the second form: a quote under an attestation key.
  pub record IsQuoted (msg_bytes : Bytes) (attest : Option Bytes) (sig_bytes : Bytes)
      (entry_for : Bytes → Option (TrustEntry sha256 ecdsa)) (a : Authenticated) : Type 0 where
    pub key : AkKey sha256 ecdsa
    pub quote_bytes : Bytes
    pub quote : Quote
    pub signature : Signature
    pub trusted : entry_for a.device_id ≡ some (ak key)
    pub attached : attest ≡ some quote_bytes
    pub parsed : parse_quote quote_bytes ≡ ok quote
    pub decoded : decode sha256 ecdsa sig_bytes ≡ some signature
    pub verified : verify key.vk quote_bytes signature ≡ true
    pub commits : Commits msg_bytes a.pcr_selection a.pcr_hash quote

  abbrev HasQuote : TrustEntry sha256 ecdsa → Option Bytes → Key → Bytes → Quote → Type 0
  HasQuote entry attest vk signed q =
      (key : AkKey sha256 ecdsa) × (entry ≡ ak key)
      × (attest ≡ some signed)
      × (parse_quote signed ≡ ok q)
      × (key.vk ≡ vk)

  form_of_quote :
      (msg : AttestationMessage) (msg_bytes : Bytes) (entry : TrustEntry sha256 ecdsa)
      (attest : Option Bytes) (vk : Key) (signed : Bytes) (q : Quote)
      → form_of sha256 ecdsa msg msg_bytes entry attest ≡ ok (vk, signed, some q)
      → HasQuote entry attest vk signed q
  unfolding form_of
  form_of_quote msg msg_bytes (legacy k) none vk signed q e =
      absurd (none_ne_some (λ i. (ok-injective e i).2))
    where
      none_ne_some : none ≡ some q → ⊥
      none_ne_some e = cc
  form_of_quote msg msg_bytes (legacy k) (some a) vk signed q e = absurd (err-ne-ok e)
  form_of_quote msg msg_bytes (ak k) none vk signed q e = absurd (err-ne-ok e)
  form_of_quote msg msg_bytes (ak k) (some a) vk signed q e =
      bind-elim (parse_quote a) _ (map_err-eq-ok _ _ e) λ q' parsed f.
        let same = ok-injective f in
        let bytes : a ≡ signed = λ i. (same i).1 in
        let quote : q' ≡ q = some-injective _ _ (λ i. (same i).2) in
        (
          k,
          refl,
          ap some bytes,
          subst (λ b. parse_quote b ≡ ok q) bytes (parsed ∙ ap ok quote),
          λ i. (same i).0,
        )

  quote_meta_of_quote :
      (msg : AttestationMessage) (msg_bytes : Bytes) (quote : Option Quote)
      (meta : Option QuoteMeta)
      → quote_meta_of sha256 msg msg_bytes quote ≡ ok meta
      → binding_of meta ≡ bound_by_quote
      → (q : Quote) × (quote ≡ some q) × Commits msg_bytes msg.pcr_selection msg.pcr_hash q
  unfolding quote_meta_of
  quote_meta_of_quote msg msg_bytes none meta e b =
      absurd (self_ne_quote (ap binding_of (ok-injective e) ∙ b))
    where
      self_ne_quote : self_signed ≡ bound_by_quote → ⊥
      self_ne_quote e = cc
  quote_meta_of_quote msg msg_bytes (some q) meta e b =
      bind-elim (bind_quote sha256 msg msg_bytes q) _ (map_err-eq-ok _ _ e)
        λ m e1 _. (q, refl, bind_quote_ok msg msg_bytes q m e1)

  -- An envelope that is authenticated with the binding of a quote was trusted under an attestation
  -- key for the device id it names; its quote parses, its signature decodes and verifies under
  -- that key over the quote, and the quote commits to this message: its extra data is the digest
  -- of the message, it covers exactly one bank, with the message's algorithm and bitmap, and its
  -- PCR digest is the message's.
  pub quote_sound :
      (msg_bytes : Bytes) (attest : Option Bytes) (sig_bytes evidence : Bytes)
      (entry_for : Bytes → Option (TrustEntry sha256 ecdsa)) (a : Authenticated)
      → authenticate_envelope sha256 ecdsa msg_bytes attest sig_bytes evidence entry_for ≡ ok a
      → a.binding ≡ bound_by_quote
      → IsQuoted msg_bytes attest sig_bytes entry_for a
  quote_sound msg_bytes attest sig_bytes evidence entry_for a e b =
      let s : Passed sha256 ecdsa msg_bytes attest sig_bytes evidence entry_for a =
        authenticate_envelope-Passed sha256 ecdsa msg_bytes attest sig_bytes evidence entry_for a
          e in
      let (q, is, commits) =
        quote_meta_of_quote s.msg msg_bytes s.quote a.quote_meta s.quoted (sym s.binding ∙ b) in
      let (key, entry, attached, parsed, vk) =
        form_of_quote s.msg msg_bytes s.entry attest s.vk s.signed q
          (s.formed ∙ (λ i. ok (s.vk, s.signed, is i))) in
      record {
        key = key;
        quote_bytes = s.signed;
        quote = q;
        signature = s.signature;
        trusted = ap entry_for s.device_id ∙ s.known ∙ ap some entry;
        attached = attached;
        parsed = parsed;
        decoded = s.decoded;
        verified = ap (λ k. verify k s.signed s.signature) vk ∙ s.verified;
        commits =
            subst (λ x. Commits msg_bytes x a.pcr_hash q) (sym s.pcr_selection)
              (subst (λ x. Commits msg_bytes s.msg.pcr_selection x q) (sym s.pcr_hash) commits);
      }
