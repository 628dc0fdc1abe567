-- ===== src/Prover/Attest/Sound.antt =====
-- What an attestation of crates/prover/src/main.rs that succeeds has done, in which order, and what its
-- message says.
use tactiq_attest.Base.{
  ℕ, ◌↔◌, Member, true, ◌<◌, ◌^◌, List, ◌∷◌, codes, Bytes, [], ◌≡◌, sym, ◌∙◌, subst, length,
  length-append, to_be, length-to_be, not, refuse_if, ◌==◌, ok, arith,
}
use tactiq_attest.Messages.{Message, built_other_length}
use tactiq_attest.Service.Effects.{Exec, exec-elim, lift-bind-elim, pure-elim}
use tactiq_attest.Envelope.{msg_len, encode_pcr_selection, build_canonical, parse}
use tactiq_attest.Envelope.Message.{built, parse-build_canonical}
use tactiq_attest.TpmAccess.Commands.{Tools, in_dir, pcr_read}
use tactiq_attest.TpmAccess.Keys.Calls.Same.{IsSameKey, verify_ak-IsSameKey}
use tactiq_attest.Prover.Attest.Steps.{
  Performed, publish_envelope-Performed, pcr_read-run, IsIdentity, identity-IsIdentity,
}
use tactiq_attest.TpmAccess.Keys.Calls.{verify_ak}
use tactiq_attest.TpmAccess.PcrSpec.{parse_pcr_spec}
use tactiq_attest.TpmAccess.PcrSpec.Bits.{selects}
use tactiq_attest.TpmAccess.PcrSpec.Selected.{IsSpec, parse_pcr_spec_sound}
use tactiq_attest.Prover.Counter.{CounterAlloc, outside, next}
use tactiq_attest.Prover.Counter.Rises.{AgentState}
use tactiq_attest.Prover.Counter.Rises.Calls.{next-lt}
use tactiq_attest.Prover.Publish.{staging, publication, publish_envelope}
use tactiq_attest.Prover.Attest.{
  AgentDisk, identity, stem_text, tag_text, publish_op, remove_partials, emit, cmd_attest,
}

outside_on :
    {W A : Type 0} (m : Exec Message W A) (s : AgentState W) (x : A) (t : AgentState W)
    → outside m s ≡ (ok x, t)
    → (m s.0 ≡ (ok x, t.0)) × (t.1 ≡ s.1)
unfolding outside
outside_on m s x t e = ((λ i. ((e i).0, (e i).1.0)), sym (λ i. (e i).1.1))

module _ (sha256 : Bytes → Bytes) (W : Type 0) (tools : Tools W) (disk : AgentDisk W) where
  -- The message of an envelope.
  abbrev pub message : Bytes → ℕ → ℕ → Bytes → Bytes → Bytes
  message id counter alg bitmap pcr_state =
      build_canonical sha256 id counter (encode_pcr_selection alg bitmap) pcr_state []

  pub record IsAttested (pubkey work out spec : Bytes) (counter : ℕ) (t : AgentState W)
      : Type 0 where
    pub alloc : CounterAlloc
    pub left : CounterAlloc
    pub before_id : W
    pub after_id : W
    pub verified : W
    pub taken : W
    pub measured : W
    pub published : W
    pub id : Bytes
    pub alg : ℕ
    pub bitmap : Bytes
    pub pcr_state : Bytes
    pub staged : W
    pub after_pcrs : W
    pub printed : Bytes
    pub ns : List ℕ
    pub names : IsIdentity sha256 W tools disk id before_id after_id
    pub selection : parse_pcr_spec spec ≡ ok (alg, bitmap)
    pub selects_these : IsSpec spec alg ns
    pub bits : (i : ℕ) → (selects bitmap i ≡ true) ↔ Member i ns
    pub same_key : IsSameKey sha256 W tools pubkey work verified
    pub counts : next W tools work (verified, alloc) ≡ (ok counter, (taken, left))
    pub fits : counter < 2 ^ 64
    pub asked :
        tools.run
          (codes "tpm2_pcrread" ∷ spec ∷ codes "-o" ∷ in_dir work (codes "pcrs.bin") ∷ [])
          taken
        ≡ (ok printed, after_pcrs)
    pub measured_state :
        tools.read_file (in_dir work (codes "pcrs.bin")) after_pcrs ≡ (ok pcr_state, measured)
    pub stages :
        Performed
          (publish_op sha256 W tools disk (message id counter alg bitmap pcr_state) spec)
          (staging out
            (stem_text counter)
            (message id counter alg bitmap pcr_state)
            (tag_text id counter))
          measured
          staged
    pub publishes :
        Performed
          (publish_op sha256 W tools disk (message id counter alg bitmap pcr_state) spec)
          (publication out (stem_text counter))
          staged
          published
    pub ends : t ≡ (published, left)

  pub cmd_attest-IsAttested :
      (pubkey work out spec : Bytes) (w : W) (a : CounterAlloc) (counter : ℕ) (t : AgentState W)
      → cmd_attest sha256 W tools disk pubkey work out spec (w, a) ≡ (ok counter, t)
      → IsAttested pubkey work out spec counter t
  unfolding cmd_attest emit
  cmd_attest-IsAttested pubkey work out spec w a counter t e =
      exec-elim (outside (disk.ensure_dir work)) _ (w, a) t e
        λ _ s1 e1 r1. exec-elim (outside (disk.ensure_dir out)) _ s1 t r1 λ _ s2 e2 r2.
          exec-elim (outside (remove_partials sha256 W tools disk out)) _ s2 t r2 λ _ s3 e3 r3.
            exec-elim (outside (identity sha256 W tools disk)) _ s3 t r3 λ id s4 e4 r4.
              lift-bind-elim (parse_pcr_spec spec) _ s4 t r4 λ (alg, bitmap) chosen r5.
                exec-elim (outside (verify_ak W tools sha256 pubkey work)) _ s4 t r5 λ u s5 e5 r6.
                  exec-elim (next W tools work) _ s5 t r6 λ c s6 e6 r7.
                    exec-elim (outside (pcr_read W tools spec work)) _ s6 t r7 λ pcr_state s7 e7 r8.
                      lift-bind-elim
                        (refuse_if (not (length (message id c alg bitmap pcr_state) == msg_len))
                          (built_other_length (length (message id c alg bitmap pcr_state))))
                        _ s7 t r8
                        λ _ fits r9.
                          exec-elim
                            (outside (
                              publish_envelope
                                (publish_op sha256 W tools disk (message id c alg bitmap pcr_state)
                                  spec)
                                out (stem_text c) (message id c alg bitmap pcr_state)
                                (tag_text id c)))
                            _ s7 t r9
                            λ v s8 e8 r10. pure-elim {E = Message} c s8 t r10 λ same stay.
                              let (f4, _) = outside_on (identity sha256 W tools disk) s3 id s4 e4 in
                              let (f5, _) =
                                outside_on (verify_ak W tools sha256 pubkey work) s4 u s5 e5 in
                              let (f7, k7) =
                                outside_on (pcr_read W tools spec work) s6 pcr_state s7 e7 in
                              let (f8, k8) =
                                outside_on
                                  (publish_envelope
                                    (publish_op sha256 W tools disk
                                      (message id c alg bitmap pcr_state) spec)
                                    out (stem_text c) (message id c alg bitmap pcr_state)
                                    (tag_text id c))
                                  s7 v s8 e8 in
                              let (ns, chosen_these, three, bits) =
                                parse_pcr_spec_sound spec alg bitmap chosen in
                              let (u1, o, asked, read) =
                                pcr_read-run W tools spec work s6.0 s7.0 pcr_state f7 in
                              let (u2, stages, publishes) =
                                publish_envelope-Performed
                                  (publish_op sha256 W tools disk
                                    (message id c alg bitmap pcr_state) spec)
                                  out (stem_text c) (message id c alg bitmap pcr_state)
                                  (tag_text id c) s7.0 s8.0 f8 in
                              subst (λ n. IsAttested pubkey work out spec n t) same
                                (record {
                                  alloc = s5.1;
                                  left = s6.1;
                                  before_id = s3.0;
                                  after_id = s4.0;
                                  verified = s5.0;
                                  taken = s6.0;
                                  measured = s7.0;
                                  published = s8.0;
                                  id = id;
                                  alg = alg;
                                  bitmap = bitmap;
                                  pcr_state = pcr_state;
                                  staged = u2;
                                  after_pcrs = u1;
                                  printed = o;
                                  ns = ns;
                                  names = identity-IsIdentity sha256 W tools disk id s3.0 s4.0 f4;
                                  selection = chosen;
                                  selects_these = chosen_these;
                                  bits = bits;
                                  same_key =
                                      verify_ak-IsSameKey sha256 W tools pubkey work s4.0 s5.0 f5;
                                  counts = e6;
                                  fits = next-lt tools work s5.0 s5.1 s6 c e6;
                                  asked = asked;
                                  measured_state = read;
                                  stages = stages;
                                  publishes = publishes;
                                  ends = sym stay ∙ (λ i. (s8.0, (k8 ∙ k7) i));
                                })

  -- The message that is published is parsed as one with this counter and the digest of what was measured.
  pub message-parse :
      (length-sha256 : (m : Bytes) → length (sha256 m) ≡ 32) (pubkey work out spec : Bytes)
      (counter : ℕ) (t : AgentState W) (d : IsAttested pubkey work out spec counter t)
      → parse (message d.id counter d.alg d.bitmap d.pcr_state)
        ≡ ok (
            built sha256 length-sha256 d.id counter
              (encode_pcr_selection d.alg d.bitmap)
              d.pcr_state
              [])
  unfolding encode_pcr_selection
  message-parse length-sha256 pubkey work out spec counter t d =
      let (ns, _, three, _) = parse_pcr_spec_sound spec d.alg d.bitmap d.selection in
      parse-build_canonical sha256 length-sha256 d.id counter (encode_pcr_selection d.alg d.bitmap)
        d.pcr_state [] d.fits
        (length-append (to_be 2 d.alg) d.bitmap ∙ omega (arith, three, length-to_be 2 d.alg))

  -- An attestation that succeeds has found both files of the identity and read the id from its
  -- text; has the selection of a specification that lists just the PCRs of the bitmap; has read
  -- the recorded key and the key at the handle, which have one name by SHA-256; has taken a
  -- counter below 2^64; has then asked tpm2_pcrread for the specification and read its file; and
  -- has then done, each with success and in order, the operations that stage an envelope and those
  -- that publish it, for the message of this id, counter and selection and of what was read. That
  -- message is parsed as one with the padded id, this counter, this selection and the digest of
  -- what was read. SHA-256 gives 32 bytes.
  pub cmd_attest_sound :
      (length-sha256 : (m : Bytes) → length (sha256 m) ≡ 32) (pubkey work out spec : Bytes) (w : W)
      (a : CounterAlloc) (counter : ℕ) (t : AgentState W)
      → cmd_attest sha256 W tools disk pubkey work out spec (w, a) ≡ (ok counter, t)
      → (d : IsAttested pubkey work out spec counter t) × (parse
            (message d.id counter d.alg d.bitmap d.pcr_state)
          ≡ ok (
              built sha256 length-sha256 d.id counter
                (encode_pcr_selection d.alg d.bitmap)
                d.pcr_state
                []))
  cmd_attest_sound length-sha256 pubkey work out spec w a counter t e =
      let d = cmd_attest-IsAttested pubkey work out spec w a counter t e in
      (d, message-parse length-sha256 pubkey work out spec counter t d)
