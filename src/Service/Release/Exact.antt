-- ===== src/Service/Release/Exact.antt =====
-- A release has exactly one reading (crates/stop/src/release.rs).
use tactiq_attest.Base.{
  ℕ, ◌%◌, ◌≤◌, Bytes, true, ◌||◌, not, List, [], ◌∷◌, ◌++◌, ◌≡◌, sym, ap, ◌∙◌, subst, some, length,
  codes, ok, arith, bytes_eq, bytes_eq→eq, ◌==◌, ltb, refuse_if, ok_or, ok_or-eq-ok, bind-elim,
  refuse_unless, refuse_other, then-elim, pair-elim, ok-injective, append_assoc,
}
use tactiq_attest.Messages.{
  release_no_newline, release_no_epoch, release_not_number, release_not_canonical, release_odd,
  release_too_long, release_signature_too_long, release_signature_not_der, release_signature_wrong,
  release_other_device, release_other_epoch, release_not_ascii,
}
use tactiq_attest.Crypto.{Ecdsa}
use tactiq_attest.Service.Text.{
  newline, all, is_ascii, contains, is_ascii_graphic, strip_prefix, strip_last, split, to_string,
  parse_u64,
}
use tactiq_attest.Service.Text.Laws.{strip_prefix-some, strip_last-some, split_two}
use tactiq_attest.Service.Release.{Release, two_lines, parse_device, parse_epoch, parse, check}

-- The text of a release, byte for byte.
unfoldable pub text : Bytes → ℕ → Bytes
text device_id epoch =
    codes "device "
    ++ (device_id ++ (newline ∷ (codes "epoch " ++ (to_string epoch ++ (newline ∷ [])))))

-- What a release may name: a device id of 1 to 16 printable characters, and a running state.
pub record IsRelease (r : Release) : Type 0 where
  pub some_id : 1 ≤ length r.device_id
  pub id_fits : length r.device_id ≤ 16
  pub graphic : all is_ascii_graphic r.device_id ≡ true
  pub even : r.epoch % 2 ≡ 0

two_lines_ok : (ls : List Bytes) (dev ep : Bytes) → two_lines ls ≡ ok (dev, ep) → ls ≡ dev ∷ ep ∷ []
unfolding two_lines
two_lines_ok [] dev ep e = cc
two_lines_ok (a ∷ []) dev ep e = cc
two_lines_ok (a ∷ (b ∷ [])) dev ep e = cc
two_lines_ok (a ∷ (b ∷ (c ∷ ls))) dev ep e = cc

parse_device_ok :
    (dev id : Bytes)
    → parse_device dev ≡ ok id
    → (strip_prefix (codes "device ") dev ≡ some id)
      × (1 ≤ length id)
      × (length id ≤ 16)
      × (all is_ascii_graphic id ≡ true)
unfolding parse_device
parse_device_ok dev id e = ground arith

parse_epoch_ok :
    (ep : Bytes) (epoch : ℕ)
    → parse_epoch ep ≡ ok epoch
    → (n : Bytes) × (strip_prefix (codes "epoch ") ep ≡ some n)
      × (bytes_eq (to_string epoch) n ≡ true)
      × (epoch % 2 ≡ 0)
unfolding parse_epoch
parse_epoch_ok ep epoch e =
    bind-elim (ok_or release_no_epoch (strip_prefix (codes "epoch ") ep)) _ e λ n e1 f1.
      bind-elim (ok_or (release_not_number n) (parse_u64 n)) _ f1 λ k e2 f2.
        then-elim (refuse_if (not (bytes_eq (to_string k) n)) (release_not_canonical n)) _ f2
          λ e3 f3. then-elim (refuse_if (not (k % 2 == 0)) (release_odd k)) _ f3 λ e4 f4.
            let same : k ≡ epoch = ok-injective f4 in
            (
              n,
              ok_or-eq-ok _ _ e1,
              ap (λ x. bytes_eq (to_string x) n) (sym same) ∙ refuse_unless _ _ e3,
              ap (λ x. x % 2) (sym same) ∙ refuse_other _ _ _ e4,
            )

-- The lines of a parsed text, put together again.
text_lines :
    (t body dev ep id n : Bytes)
    → t ≡ body ++ (newline ∷ [])
    → body ≡ dev ++ (newline ∷ ep)
    → dev ≡ codes "device " ++ id
    → ep ≡ codes "epoch " ++ n
    → t ≡ codes "device " ++ (id ++ (newline ∷ (codes "epoch " ++ (n ++ (newline ∷ [])))))
text_lines t body dev ep id n a b c d = rw (a, b, c, d) (simp append_assoc)

-- A record that is read as a release is the text of that release and no other: the device line
-- with 1 to 16 printable characters, the epoch line in canonical decimal with an even epoch, and
-- not a byte more.
pub text-parse :
    (t : Bytes) (r : Release) → parse t ≡ ok r → IsRelease r × (t ≡ text r.device_id r.epoch)
unfolding parse text
text-parse t r e =
    then-elim (refuse_if (ltb 256 (length t)) (release_too_long (length t))) _ e λ e1 f1.
      then-elim (refuse_if (not (is_ascii t) || contains 13 t) release_not_ascii) _ f1 λ e2 f2.
        bind-elim (ok_or release_no_newline (strip_last newline t)) _ f2 λ body e3 f3.
          pair-elim (two_lines (split newline body)) _ f3 λ dev ep e4 f4.
            bind-elim (parse_device dev) _ f4 λ id e5 f5.
              bind-elim (parse_epoch ep) _ f5 λ epoch e6 f6.
                let (prefix, lo, hi, graphic) = parse_device_ok dev id e5 in
                let (n, prefix', canonical, even) = parse_epoch_ok ep epoch e6 in
                let lines =
                  text_lines t body dev ep id n
                    (strip_last-some newline t body (ok_or-eq-ok _ _ e3))
                    (split_two newline body dev ep (two_lines_ok _ dev ep e4))
                    (strip_prefix-some _ dev id prefix) (strip_prefix-some _ ep n prefix') in
                subst (λ (x : Release). IsRelease x × (t ≡ text x.device_id x.epoch))
                  (ok-injective f6)
                  (
                    record { some_id = lo; id_fits = hi; graphic = graphic; even = even },
                    lines
                        ∙ ap
                            (λ k.
                              codes "device "
                              ++ (id ++ (newline ∷ (codes "epoch " ++ (k ++ (newline ∷ []))))))
                            (sym (bytes_eq→eq _ _ canonical)),
                  )

module _ (ecdsa : Ecdsa) where
  open ecdsa use {Key, Signature, from_der, verify}

  -- The operator's key verified a signature over the text that names the device and the epoch.
  pub record IsSigned (key : Key) (sig_der device_id : Bytes) (epoch : ℕ) : Type 0 where
    pub signature : Signature
    pub decoded : from_der sig_der ≡ some signature
    pub verified : verify key (text device_id epoch) signature ≡ true
    pub names : IsRelease (record { device_id = device_id; epoch = epoch })

  -- A record passes the check for a device and an epoch only if it is, byte for byte, the text
  -- that names the two, its signature decodes, and the operator's key verifies the signature over
  -- it.
  pub check_sound :
      (key : Key) (t sig_der device_id : Bytes) (epoch : ℕ)
      → check ecdsa key t sig_der device_id epoch ≡ ok tt
      → (t ≡ text device_id epoch) × IsSigned key sig_der device_id epoch
  unfolding check
  check_sound key t sig_der device_id epoch e =
      then-elim (refuse_if (ltb 80 (length sig_der)) (release_signature_too_long (length sig_der)))
        _ e
        λ e1 f1. bind-elim (ok_or release_signature_not_der (from_der sig_der)) _ f1 λ sig e2 f2.
          then-elim (refuse_if (not (verify key t sig)) release_signature_wrong) _ f2 λ e3 f3.
            bind-elim (parse t) _ f3 λ r e4 f4.
              then-elim
                (refuse_if (not (bytes_eq r.device_id device_id))
                  (release_other_device r.device_id device_id))
                _ f4
                λ e5 f5.
                  then-elim (refuse_if (not (r.epoch == epoch)) (release_other_epoch r.epoch epoch))
                    _ f5
                    λ e6 f6.
                      let (names, whole) = text-parse t r e4 in
                      let device : r.device_id ≡ device_id =
                        bytes_eq→eq _ _ (refuse_unless _ _ e5) in
                      let at : r.epoch ≡ epoch = refuse_other _ _ _ e6 in
                      let same : t ≡ text device_id epoch = whole ∙ (λ i. text (device i) (at i)) in
                      (
                        same,
                        record {
                          signature = sig;
                          decoded = ok_or-eq-ok _ _ e2;
                          verified = ap (λ x. verify key x sig) (sym same) ∙ refuse_unless _ _ e3;
                          names =
                              subst (λ (x : Release). IsRelease x)
                                (λ i. record { device_id = device i; epoch = at i }) names;
                        },
                      )
