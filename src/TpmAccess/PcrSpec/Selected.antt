-- ===== src/TpmAccess/PcrSpec/Selected.antt =====
-- `parse_pcr_spec` of crates/attest-tpm/src/lib.rs selects the PCRs that the text lists, and no others.
use tactiq_attest.Base.{
  ℕ, ◌-◌, ◌/◌, ◌%◌, ◌<◌, Bytes, Bool, true, false, ◌||◌, List, [], ◌∷◌, ◌≡◌, ◌↔◌, ◌⊎◌, inl, inr,
  refl, sym, ap, ◌∙◌, subst, Option, none, some, length, Member, All, IsByte, ok, err, ◌>>=◌,
  ok-injective, err-ne-ok, bind-elim, then-elim, ◌==◌, ==→eq, eq→==, Bool-cases, arith,
}
use tactiq_attest.Messages.{spec_unknown_alg, spec_multi_bank, spec_no_colon}
use tactiq_attest.Service.Text.{contains, split}
use tactiq_attest.Service.Http.{split_once}
use tactiq_attest.Appraise.Gate1.{has_bit}
use tactiq_attest.TpmAccess.{trim}
use tactiq_attest.TpmAccess.PcrSpec.{
  alg_of, set_bit, index_of, after, select, selected, select_of, parse_pcr_spec,
}
use tactiq_attest.TpmAccess.PcrSpec.Bits.{
  selects, tested, of_tested, agrees, agrees→eq, set_bit-IsByte, length-set_bit, selects-set_bit,
}

-- The pieces of the text name these indices.
abbrev pub Reads : List Bytes → List ℕ → Type 0
Reads [] [] = Unit
Reads (tok ∷ toks) (n ∷ ns) = (index_of (trim tok) ≡ ok n) × Reads toks ns
Reads _ _ = ⊥

-- Strictly ascending, from behind the last.
abbrev pub Ascends : Option ℕ → List ℕ → Type 0
Ascends last [] = Unit
Ascends none (n ∷ ns) = (n < 24) × Ascends (some n) ns
Ascends (some p) (n ∷ ns) = (p < n) × (n < 24) × Ascends (some n) ns

index_of-lt : (tok : Bytes) (n : ℕ) → index_of tok ≡ ok n → n < 24
unfolding index_of
index_of-lt tok n e = ground arith

pub record IsSelected (toks : List Bytes) (last : Option ℕ) (before after' : Bytes) (ns : List ℕ)
    : Type 0 where
  pub reads : Reads toks ns
  pub ascends : Ascends last ns
  pub wide : length after' ≡ 3
  pub bits : (i : ℕ) → (selects after' i ≡ true) ↔ ((selects before i ≡ true) ⊎ Member i ns)

upward :
    (last : Option ℕ) (n : ℕ) (ns : List ℕ)
    → after last n ≡ ok tt
    → n < 24
    → Ascends (some n) ns
    → Ascends last (n ∷ ns)
unfolding after
upward none n ns asc low rest = (low, rest)
upward (some p) n ns asc low rest = (ground arith, low, rest)

or_true : (t : Bool) → (t || true) ≡ true
or_true true = refl
or_true false = refl

bits_on :
    (n i : ℕ) (bm bm' : Bytes) (ns : List ℕ)
    → selects (set_bit bm (n / 8) (n % 8)) i ≡ (i == n || selects bm i)
    → (selects bm' i ≡ true) ↔ ((selects (set_bit bm (n / 8) (n % 8)) i ≡ true) ⊎ Member i ns)
    → (selects bm' i ≡ true) ↔ ((selects bm i ≡ true) ⊎ ((i ≡ n) ⊎ Member i ns))
bits_on n i bm bm' ns one (there, back) = (
  λ h. elim (there h) [
    | inl x ↦ split_bit (Bool-cases (i == n)) (sym one ∙ x)
    | inr m ↦ inr (inr m)
  ],
  λ h. back (joined h),
)
  where
    split_bit :
        ((i == n) ≡ true) ⊎ ((i == n) ≡ false)
        → (i == n || selects bm i) ≡ true
        → (selects bm i ≡ true) ⊎ ((i ≡ n) ⊎ Member i ns)
    split_bit (inl p) x = inr (inl (==→eq i n p))
    split_bit (inr p) x = inl (rw p at x)

    joined :
        (selects bm i ≡ true) ⊎ ((i ≡ n) ⊎ Member i ns)
        → (selects (set_bit bm (n / 8) (n % 8)) i ≡ true) ⊎ Member i ns
    joined (inl x) = inl (one ∙ ap (λ t. i == n || t) x ∙ or_true (i == n))
    joined (inr (inl e)) = inl (one ∙ ap (λ t. t || selects bm i) (eq→== i n e))
    joined (inr (inr m)) = inr m

select-IsSelected :
    (toks : List Bytes) (last last' : Option ℕ) (bm bm' : Bytes)
    → length bm ≡ 3
    → All IsByte bm
    → select toks last bm ≡ ok (bm', last')
    → (ns : List ℕ) × IsSelected toks last bm bm' ns × ((last ≡ last') ⊎ (0 < length ns))
unfolding select
select-IsSelected [] last last' bm bm' w a e =
    let same = ok-injective e in
    let stay : bm ≡ bm' = λ i. (same i).0 in
    (
      [],
      record {
        reads = tt;
        ascends = tt;
        wide = ap length (sym stay) ∙ w;
        bits = λ i. (λ h. inl (subst (λ b. selects b i ≡ true) (sym stay) h), λ h. only i stay h);
      },
      inl (λ i. (same i).1),
    )
  where
    only : (i : ℕ) → bm ≡ bm' → (selects bm i ≡ true) ⊎ ⊥ → selects bm' i ≡ true
    only i stay (inl h) = subst (λ b. selects b i ≡ true) stay h
    only i stay (inr x) = elim x [ ]
select-IsSelected (tok ∷ toks) last last' bm bm' w a e =
    bind-elim (index_of (trim tok)) _ e λ n read f. then-elim (after last n) _ f λ asc rest.
      let low = index_of-lt (trim tok) n read in
      let (ns, s, _) =
        select-IsSelected toks (some n) last' (set_bit bm (n / 8) (n % 8)) bm'
          (length-set_bit bm (n / 8) (n % 8) ∙ w)
          (set_bit-IsByte bm (n / 8) (n % 8) (omega arith) a) rest in
      (
        n ∷ ns,
        record {
          reads = (read, s.reads);
          ascends = upward last n ns asc low s.ascends;
          wide = s.wide;
          bits = λ i.
              bits_on n i bm bm' ns
                (selects-set_bit bm (n / 8) (n % 8) n i (omega arith) a (omega arith) (omega arith))
                (s.bits i);
        },
        inr (omega arith),
      )

-- What the text says: an algorithm, a colon, and indices between commas.
pub record IsSpec (spec : Bytes) (alg : ℕ) (ns : List ℕ) : Type 0 where
  pub name : Bytes
  pub list : Bytes
  pub one_bank : contains b'+' spec ≡ false
  pub parts : split_once b':' spec ≡ some (name, list)
  pub algorithm : alg_of (trim name) ≡ some alg
  pub indices : Reads (split b',' list) ns
  pub ascending : Ascends none ns
  pub some_pcr : 0 < length ns

none_ne_some : {n : ℕ} → none ≡ some n → ⊥
none_ne_some e = cc

zero_bit : (i : ℕ) → i < 8 → has_bit i 0 ≡ false
unfolding tested agrees has_bit
zero_bit i h = let z = of_tested (λ i. agrees (has_bit i 0) false) 8 all_zero i h in agrees→eq _ _ z
  where
    all_zero : tested (λ i. agrees (has_bit i 0) false) 8 ≡ true
    all_zero = refl

no_bit : (i : ℕ) → selects (0 ∷ 0 ∷ 0 ∷ []) i ≡ true → ⊥
unfolding selects
no_bit i h = ground (arith, zero_bit i, zero_bit (i - 8), zero_bit (i - 8 - 8))

selected_of :
    (spec name list : Bytes) (o : Option ℕ) (alg : ℕ) (bitmap : Bytes)
    → alg_of (trim name) ≡ o
    → elim o [
      | none ↦ err (spec_unknown_alg (trim name))
      | some id ↦ select (split b',' list) none (0 ∷ 0 ∷ 0 ∷ []) >>= selected id
    ]
      ≡ ok (alg, bitmap)
    → contains b'+' spec ≡ false
    → split_once b':' spec ≡ some (name, list)
    → (ns : List ℕ) × IsSpec spec alg ns
      × (length bitmap ≡ 3)
      × ((i : ℕ) → (selects bitmap i ≡ true) ↔ Member i ns)
unfolding selected
selected_of spec name list none alg bitmap found e one parts = absurd (err-ne-ok e)
selected_of spec name list (some id) alg bitmap found e one parts =
    bind-elim (select (split b',' list) none (0 ∷ 0 ∷ 0 ∷ [])) _ e λ (bm, last) chosen f.
      let (ns, s, more) =
        select-IsSelected (split b',' list) none last (0 ∷ 0 ∷ 0 ∷ []) bm refl (omega arith)
          chosen in
      by_last last bm ns f s more
  where
    by_last :
        (last : Option ℕ) (bm : Bytes) (ns : List ℕ)
        → selected id (bm, last) ≡ ok (alg, bitmap)
        → IsSelected (split b',' list) none (0 ∷ 0 ∷ 0 ∷ []) bm ns
        → (none ≡ last) ⊎ (0 < length ns)
        → (ns : List ℕ) × IsSpec spec alg ns
          × (length bitmap ≡ 3)
          × ((i : ℕ) → (selects bitmap i ≡ true) ↔ Member i ns)
    by_last none bm ns f s more = absurd (err-ne-ok f)
    by_last (some p) bm ns f s (inl bad) = absurd (none_ne_some bad)
    by_last (some p) bm ns f s (inr long) =
        let same : (id, bm) ≡ (alg, bitmap) = ok-injective f in
        let same_bits : bm ≡ bitmap = λ i. (same i).1 in
        let same_alg : id ≡ alg = λ i. (same i).0 in
        (
          ns,
          record {
            name = name;
            list = list;
            one_bank = one;
            parts = parts;
            algorithm = found ∙ ap some same_alg;
            indices = s.reads;
            ascending = s.ascends;
            some_pcr = long;
          },
          ap length (sym same_bits) ∙ s.wide,
          λ i.
              subst (λ b. (selects b i ≡ true) ↔ Member i ns) same_bits
                ((λ h. left_out i (s.bits i).0 h), λ m. (s.bits i).1 (inr m)),
        )
      where
        left_out :
            (i : ℕ)
            → (selects bm i ≡ true → (selects (0 ∷ 0 ∷ 0 ∷ []) i ≡ true) ⊎ Member i ns)
            → selects bm i ≡ true
            → Member i ns
        left_out i there h = elim (there h) [ inl x ↦ absurd (no_bit i x) | inr m ↦ m ]

-- A specification that is accepted names one bank of a known algorithm and then indices that stand
-- strictly ascending below 24, one at least, and the bitmap of three bytes has the bits of just
-- these.
pub parse_pcr_spec_sound :
    (spec : Bytes) (alg : ℕ) (bitmap : Bytes)
    → parse_pcr_spec spec ≡ ok (alg, bitmap)
    → (ns : List ℕ) × IsSpec spec alg ns
      × (length bitmap ≡ 3)
      × ((i : ℕ) → (selects bitmap i ≡ true) ↔ Member i ns)
unfolding parse_pcr_spec select_of
parse_pcr_spec_sound spec alg bitmap e = elim (Bool-cases (contains b'+' spec)) [
  | inl p ↦ let bad : err spec_multi_bank ≡ ok (alg, bitmap) = rw p at e in absurd (err-ne-ok bad)
  | inr p ↦ by_parts p (split_once b':' spec) refl (rw p at e)
]
  where
    by_parts :
        contains b'+' spec ≡ false
        → (o : Option (Bytes × Bytes)) → split_once b':' spec ≡ o
        → elim (split_once b':' spec) [
          | none ↦ err spec_no_colon
          | some (name, list) ↦ select_of name list
        ]
          ≡ ok (alg, bitmap)
        → (ns : List ℕ) × IsSpec spec alg ns
          × (length bitmap ≡ 3)
          × ((i : ℕ) → (selects bitmap i ≡ true) ↔ Member i ns)
    by_parts p none q f =
        let bad : err spec_no_colon ≡ ok (alg, bitmap) = rw q at f in absurd (err-ne-ok bad)
    by_parts p (some (name, list)) q f =
        selected_of spec name list (alg_of (trim name)) alg bitmap refl (rw q at f) p q
