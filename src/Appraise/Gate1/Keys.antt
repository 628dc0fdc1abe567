-- ===== src/Appraise/Gate1/Keys.antt =====
-- Which keys are attestation keys (crates/attest-appraise/src/gate1.rs).
use tactiq_attest.Base.{
  ℕ, ◌-◌, ◌/◌, ◌%◌, ◌^◌, ◌≤◌, replicate, arith, Bytes, Bool, true, false, ◌||◌, not, ◌++◌, ◌≡◌,
  refl, sym, ◌∙◌, some, ok, length, ltb, ◌==◌, to_be, ok_or, ok_or-eq-ok, refuse_if, refuse_unless,
  refuse_other, bind-elim, then-elim, ok-injective, err-ne-ok, ==→eq,
}
use tactiq_attest.Messages.{
  Message, ak_attributes, ak_decrypts, ak_symmetric_or_kdf, ak_scheme, ak_curve, ak_coordinate,
  ak_point,
}
use tactiq_attest.Crypto.{Ecdsa}
use tactiq_attest.Envelope.Tpm.{EccPublic, parse_tpm2b, name_of}
use tactiq_attest.Envelope.Tpm.Naming.{name_of_ok}
use tactiq_attest.Appraise.Gate1.{
  has_bit, has_required, decrypts, coordinate, AkKey, from_tpm2b_public,
}

-- Two tests refused by one error.
both_hold :
    (a b : Bool) (m : Message) → refuse_if (not a || not b) m ≡ ok tt → (a ≡ true) × (b ≡ true)
both_hold true true m e = (refl, refl)
both_hold true false m e = absurd (err-ne-ok e)
both_hold false b m e = absurd (err-ne-ok e)

required_bits :
    (n : ℕ)
    → has_required n ≡ true
    → (n / 2 ^ 1 % 2 ≡ 1)
      × (n / 2 ^ 4 % 2 ≡ 1)
      × (n / 2 ^ 5 % 2 ≡ 1)
      × (n / 2 ^ 16 % 2 ≡ 1)
      × (n / 2 ^ 18 % 2 ≡ 1)
unfolding has_required has_bit
required_bits n h = (ground arith, ground arith, ground arith, ground arith, ground arith)

bit_clear : (i n : ℕ) → has_bit i n ≡ false → n / 2 ^ i % 2 ≡ 0
unfolding has_bit
bit_clear i n h = ground arith

both_short : (a b : ℕ) → (ltb 32 a || ltb 32 b) ≡ false → (a ≤ 32) × (b ≤ 32)
both_short a b h = (ground arith, ground arith)

module _ (sha256 : Bytes → Bytes) (ecdsa : Ecdsa) where
  -- The public area of a P-256 key that signs with ECDSA over SHA-256 only what its TPM made, and
  -- that never leaves it.
  pub record IsAk (p : EccPublic) (key : AkKey sha256 ecdsa) : Type 0 where
    pub fixed_tpm : p.attributes / 2 ^ 1 % 2 ≡ 1
    pub fixed_parent : p.attributes / 2 ^ 4 % 2 ≡ 1
    pub made_here : p.attributes / 2 ^ 5 % 2 ≡ 1
    pub restricted : p.attributes / 2 ^ 16 % 2 ≡ 1
    pub signs : p.attributes / 2 ^ 18 % 2 ≡ 1
    pub no_decrypt : p.attributes / 2 ^ 17 % 2 ≡ 0
    pub symmetric : p.symmetric ≡ 0x0010
    pub kdf : p.kdf ≡ 0x0010
    pub scheme : p.scheme ≡ 0x0018
    pub scheme_hash : p.scheme_hash ≡ 0x000b
    pub curve : p.curve ≡ 0x0003
    pub short_x : length p.x ≤ 32
    pub short_y : length p.y ≤ 32
    pub point :
        ecdsa.from_coordinates
          (replicate (32 - length p.x) 0 ++ p.x)
          (replicate (32 - length p.y) 0 ++ p.y)
        ≡ some key.vk
    pub name_alg : p.name_alg ≡ 0x000b
    pub name : key.name ≡ to_be 2 0x000b ++ sha256 p.tpmt

  -- A key that is accepted as an attestation key has a public area that parses, with the attribute
  -- bits 1, 4, 5, 16 and 18 (fixedTPM, fixedParent, sensitiveDataOrigin, restricted, sign) and
  -- without bit 17 (decrypt), no symmetric and no key derivation scheme, ECDSA with SHA-256 on
  -- P-256, coordinates of 32 bytes at most that padded in front decode to the key, and the name
  -- made of its bytes.
  pub from_tpm2b_public_sound :
      (bytes : Bytes) (key : AkKey sha256 ecdsa)
      → from_tpm2b_public sha256 ecdsa bytes ≡ ok key
      → (p : EccPublic) × (parse_tpm2b bytes ≡ ok p) × IsAk p key
  unfolding from_tpm2b_public
  from_tpm2b_public_sound bytes key e = bind-elim (parse_tpm2b bytes) _ e λ p e1 f1.
      then-elim (refuse_if (not (has_required p.attributes)) (ak_attributes p.attributes)) _ f1
        λ e2 f2. then-elim (refuse_if (decrypts p.attributes) ak_decrypts) _ f2 λ e3 f3.
          then-elim
            (refuse_if (not (p.symmetric == 0x0010) || not (p.kdf == 0x0010)) ak_symmetric_or_kdf) _
            f3
            λ e4 f4.
              then-elim
                (refuse_if (not (p.scheme == 0x0018) || not (p.scheme_hash == 0x000b))
                  (ak_scheme p.scheme p.scheme_hash))
                _ f4
                λ e5 f5.
                  then-elim (refuse_if (not (p.curve == 0x0003)) (ak_curve p.curve)) _ f5 λ e6 f6.
                    then-elim (refuse_if (ltb 32 (length p.x) || ltb 32 (length p.y)) ak_coordinate)
                      _ f6
                      λ e7 f7.
                        bind-elim
                          (ok_or ak_point
                            (ecdsa.from_coordinates (coordinate p.x) (coordinate p.y)))
                          _ f7
                          λ vk e8 f8. bind-elim (name_of sha256 p) _ f8 λ name e9 f9.
                            let same = ok-injective f9 in
                            let (sym_alg, kdf_alg) = both_hold _ _ _ e4 in
                            let (scheme, hash) = both_hold _ _ _ e5 in
                            let required = required_bits p.attributes (refuse_unless _ _ e2) in
                            let short = both_short (length p.x) (length p.y) (never _ _ e7) in
                            let (name_alg, named) = name_of_ok sha256 p name e9 in
                            (
                              p,
                              e1,
                              record {
                                fixed_tpm = required.0;
                                fixed_parent = required.1;
                                made_here = required.2;
                                restricted = required.3;
                                signs = required.4;
                                no_decrypt = bit_clear 17 p.attributes (never _ _ e3);
                                short_x = short.0;
                                short_y = short.1;
                                symmetric = ==→eq _ _ sym_alg;
                                kdf = ==→eq _ _ kdf_alg;
                                scheme = ==→eq _ _ scheme;
                                scheme_hash = ==→eq _ _ hash;
                                curve = refuse_other _ _ _ e6;
                                point = ok_or-eq-ok _ _ e8 ∙ (λ i. some ((same i).vk));
                                name_alg = name_alg;
                                name = sym (λ i. (same i).name) ∙ named;
                              },
                            )
    where
      never : (b : Bool) (m : Message) → refuse_if b m ≡ ok tt → b ≡ false
      never true m e = absurd (err-ne-ok e)
      never false m e = refl
