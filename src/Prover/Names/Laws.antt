-- ===== src/Prover/Names/Laws.antt =====
-- The names that crates/prover/src/main.rs writes are the ones that it reads.
use tactiq_attest.Base.{
  ℕ, Bytes, true, false, [], ◌∷◌, ◌++◌, ◌≡◌, refl, sym, ap, ◌∙◌, subst, ◌⊎◌, Option, none, some,
  some-injective, codes, bytes_eq, bytes_eq→eq, Bool-cases, not, if◌then◌else◌, inl, inr, arith,
}
use tactiq_attest.Service.Text.{contains, parse_u64, strip_suffix}
use tactiq_attest.Service.Text.Laws.{strip_suffix-append}
use tactiq_attest.Prover.Names.{
  ext_msg, ext_attest, ext_sig, ext_tag, fin_name, part_name, dot_part, rsplit_once, is_ext,
  all_digits, is_part, numbered, stem_of,
}

rsplit_once_free : (c : ℕ) (y : Bytes) → contains c y ≡ false → rsplit_once c y ≡ none
unfolding rsplit_once contains
rsplit_once_free c [] h = refl
rsplit_once_free c (b ∷ bs) h = ground (arith, rsplit_once_free c bs)

pub rsplit_once-append :
    (c : ℕ) (x y : Bytes) → contains c y ≡ false → rsplit_once c (x ++ c ∷ y) ≡ some (x, y)
unfolding rsplit_once
rsplit_once-append c [] y h = rw (rsplit_once_free c y h) (ground arith)
rsplit_once-append c (b ∷ x) y h = rw (rsplit_once-append c x y h) refl

pub ext_elim :
    (P : Bytes → Type 0)
    → P ext_msg
    → P ext_attest
    → P ext_sig
    → P ext_tag
    → (ext : Bytes) → is_ext ext ≡ true
    → P ext
ext_elim P m a s t ext h = elim (Bool-cases (bytes_eq ext ext_msg)) [
  | inl p ↦ subst P (sym (bytes_eq→eq ext ext_msg p)) m
  | inr p ↦ elim (Bool-cases (bytes_eq ext ext_attest)) [
    | inl q ↦ subst P (sym (bytes_eq→eq ext ext_attest q)) a
    | inr q ↦ elim (Bool-cases (bytes_eq ext ext_sig)) [
      | inl r ↦ subst P (sym (bytes_eq→eq ext ext_sig r)) s
      | inr r ↦ subst P (sym (bytes_eq→eq ext ext_tag (rw r at (rw q at (rw p at h))))) t
    ]
  ]
]

part_free : contains b'.' (codes "part") ≡ false
unfolding contains
part_free = refl

none_ne_some {ℓ} : {A : Type ℓ} {x : A} → none ≡ some x → ⊥
none_ne_some e = cc

ext_free : (ext : Bytes) → is_ext ext ≡ true → contains b'.' ext ≡ false
unfolding contains
ext_free = ext_elim (λ ext. contains b'.' ext ≡ false) refl refl refl refl

strip_suffix-some : (s t x : Bytes) → strip_suffix s t ≡ some x → t ≡ x ++ s
unfolding strip_suffix
strip_suffix-some s [] x e = ground (arith, bytes_eq→eq [] s)
strip_suffix-some s (b ∷ bs) x e =
    by_test (Bool-cases (bytes_eq (b ∷ bs) s)) (strip_suffix s bs) refl (strip_suffix-some s bs)
  where
    by_test :
        (bytes_eq (b ∷ bs) s ≡ true) ⊎ (bytes_eq (b ∷ bs) s ≡ false)
        → (o : Option Bytes) → strip_suffix s bs ≡ o
        → ((y : Bytes) → strip_suffix s bs ≡ some y → bs ≡ y ++ s)
        → b ∷ bs ≡ x ++ s
    by_test (inl p) o f ih =
        let none_left : [] ≡ x = some-injective _ _ (rw p at e) in
        bytes_eq→eq (b ∷ bs) s p ∙ ap (λ y. y ++ s) none_left
    by_test (inr p) none f ih =
        let bad : none ≡ some x = rw f at (rw p at e) in absurd (none_ne_some bad)
    by_test (inr p) (some y) f ih =
        let front : b ∷ y ≡ x = some-injective _ _ (rw f at (rw p at e)) in
        ap (λ t. b ∷ t) (ih y f) ∙ ap (λ z. z ++ s) front

part_no_ext : is_ext (codes "part") ≡ false
unfolding bytes_eq
part_no_ext = refl

not_ext : is_ext (codes "part") ≡ true → ⊥
not_ext h = let bad : true ≡ false = sym h ∙ part_no_ext in cc

no_part : (stem ext : Bytes) → is_ext ext ≡ true → strip_suffix dot_part (stem ++ b'.' ∷ ext) ≡ none
no_part stem ext known = by_result (strip_suffix dot_part (stem ++ b'.' ∷ ext)) refl
  where
    by_result :
        (o : Option Bytes)
        → strip_suffix dot_part (stem ++ b'.' ∷ ext) ≡ o
        → strip_suffix dot_part (stem ++ b'.' ∷ ext) ≡ none
    by_result none e = e
    by_result (some x) e =
        let whole = strip_suffix-some dot_part (stem ++ b'.' ∷ ext) x e in
        let one = rsplit_once-append b'.' stem ext (ext_free ext known) in
        let two = rsplit_once-append b'.' x (codes "part") part_free in
        let both : some (stem, ext) ≡ some (x, codes "part") =
          sym one ∙ ap (rsplit_once b'.') whole ∙ two in
        let pair : (stem, ext) ≡ (x, codes "part") = some-injective _ _ both in
        let same : ext ≡ codes "part" = λ i. (pair i).1 in
        absurd (not_ext (sym (ap is_ext same) ∙ known))

-- For a stem of digits whose number fits 64 bits, and each of the four extensions: the published
-- name is counted as an envelope with this number and is not removed as a temporary file; the
-- temporary name is removed and not counted.
pub published_names :
    (stem ext : Bytes) (n : ℕ)
    → all_digits stem ≡ true
    → is_ext ext ≡ true
    → parse_u64 stem ≡ some n
    → (stem_of (fin_name stem ext) ≡ some (n, stem))
      × (is_part (part_name stem ext) ≡ true)
      × (stem_of (part_name stem ext) ≡ none)
      × (is_part (fin_name stem ext) ≡ false)
unfolding stem_of is_part fin_name part_name numbered
published_names stem ext n digits known number =
    let free = ext_free ext known in
    (
      rw (rsplit_once-append b'.' stem ext free, known, digits, number, stem_of, numbered) refl,
      rw
          (
            strip_suffix-append dot_part (stem ++ b'.' ∷ ext),
            rsplit_once-append b'.' stem ext free,
            known,
            digits,
            is_part,
          )
          refl,
      rw
          (
            rsplit_once-append b'.' (stem ++ b'.' ∷ ext) (codes "part") part_free,
            part_no_ext,
            stem_of,
          )
          refl,
      rw (no_part stem ext known, is_part) refl,
    )

no_stem : {n : ℕ} {s : Bytes} → ◌≡◌ {A = Option (ℕ × Bytes)} none (some (n, s)) → ⊥
no_stem e = cc

numbered_lem :
    (stem : Bytes) (o : Option ℕ) (n : ℕ) (s : Bytes)
    → parse_u64 stem ≡ o
    → numbered stem o ≡ some (n, s)
    → parse_u64 s ≡ some n
unfolding numbered
numbered_lem stem none n s h e = absurd (no_stem e)
numbered_lem stem (some k) n s h e =
    let same = some-injective _ _ e in
    let here : stem ≡ s = λ i. (same i).1 in
    subst (λ t. parse_u64 t ≡ some n) here (h ∙ λ i. some ((same i).0))

-- The number of a stem is the number that it spells.
pub stem_of-number :
    (name : Bytes) (n : ℕ) (s : Bytes) → stem_of name ≡ some (n, s) → parse_u64 s ≡ some n
unfolding stem_of
stem_of-number name n s e = by_dot (rsplit_once b'.' name) e
  where
    by_dot :
        (o : Option (Bytes × Bytes))
        → elim o [
          | none ↦ none
          | some (stem, ext) ↦
              if not (is_ext ext)
              then none
              else (if not (all_digits stem) then none else numbered stem (parse_u64 stem))
        ]
          ≡ some (n, s)
        → parse_u64 s ≡ some n
    by_dot none h = absurd (no_stem h)
    by_dot (some (stem, ext)) h = elim (Bool-cases (is_ext ext)) [
      | inr p ↦ absurd (no_stem (rw p at h))
      | inl p ↦ elim (Bool-cases (all_digits stem)) [
        | inr q ↦ absurd (no_stem (rw (p, q) at h))
        | inl q ↦ numbered_lem stem (parse_u64 stem) n s refl (rw (p, q) at h)
      ]
    ]
