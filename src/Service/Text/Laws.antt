-- ===== src/Service/Text/Laws.antt =====
-- Laws of the string functions that crates/stop/src/release.rs uses.
use tactiq_attest.Base.{
  ℕ, Bytes, List, [], ◌∷◌, ◌++◌, ◌≡◌, refl, ap, sym, ◌∙◌, some, none, Option, arith, ==→eq, ◌==◌,
  Bool-cases, inl, inr, false, some-injective, length, length-append, bytes_eq, bytes_eq→eq,
  bytes_eq_refl,
}
use tactiq_attest.Service.Text.{strip_prefix, strip_last, strip_suffix, split}

pub strip_prefix-some : (p s rest : Bytes) → strip_prefix p s ≡ some rest → s ≡ p ++ rest
unfolding strip_prefix
strip_prefix-some [] s rest e = ground arith
strip_prefix-some (p ∷ ps) [] rest e = ground arith
strip_prefix-some (p ∷ ps) (b ∷ bs) rest e = ground (arith, strip_prefix-some ps bs rest)

strip_prefix-append : (p rest : Bytes) → strip_prefix p (p ++ rest) ≡ some rest
unfolding strip_prefix
strip_prefix-append [] rest = refl
strip_prefix-append (p ∷ ps) rest = ground (arith, strip_prefix-append ps rest)

pub strip_last-some :
    (c : ℕ) (s front : Bytes) → strip_last c s ≡ some front → s ≡ front ++ (c ∷ [])
unfolding strip_last
strip_last-some c [] front e = ground arith
strip_last-some c (b ∷ []) front e = ground arith
strip_last-some c (b ∷ (b' ∷ bs)) front e =
    go (strip_last c (b' ∷ bs)) refl e (strip_last-some c (b' ∷ bs))
  where
    go :
        (o : Option Bytes)
        → strip_last c (b' ∷ bs) ≡ o
        → elim o [ none ↦ none | some f ↦ some (b ∷ f) ] ≡ some front
        → ((f : Bytes) → strip_last c (b' ∷ bs) ≡ some f → b' ∷ bs ≡ f ++ (c ∷ []))
        → b ∷ b' ∷ bs ≡ front ++ (c ∷ [])
    go none p e ih = cc
    go (some f) p e ih =
        let whole : b ∷ f ≡ front = cc in ap (λ t. b ∷ t) (ih f p) ∙ ap (λ t. t ++ (c ∷ [])) whole

-- The pieces with the separator between them again.
abbrev join : ℕ → List Bytes → Bytes
join c [] = []
join c (l ∷ []) = l
join c (l ∷ (m ∷ ls)) = l ++ (c ∷ join c (m ∷ ls))

split_cons : (c : ℕ) (bs : Bytes) → (l : Bytes) × (ls : List Bytes) × (split c bs ≡ l ∷ ls)
unfolding split
split_cons c [] = ([], [], refl)
split_cons c (b ∷ bs) = elim (Bool-cases (b == c)) [
  | inl hit ↦ ([], split c bs, rw hit)
  | inr miss ↦ let (l, ls, e) = split_cons c bs in (b ∷ l, ls, rw (miss, e))
]

join-front : (c b : ℕ) (l : Bytes) (ls : List Bytes) → join c ((b ∷ l) ∷ ls) ≡ b ∷ join c (l ∷ ls)
join-front c b l [] = refl
join-front c b l (m ∷ ls) = refl

-- Nothing is lost: the pieces, with the separator between them, are the text.
join-split : (c : ℕ) (bs : Bytes) → join c (split c bs) ≡ bs
unfolding split
join-split c [] = refl
join-split c (b ∷ bs) =
    let (l, ls, e) = split_cons c bs in
    let ih : join c (l ∷ ls) ≡ bs = ap (join c) (sym e) ∙ join-split c bs in
    elim (Bool-cases (b == c)) [
      | inl hit ↦ rw (hit, e, ih, ==→eq b c hit)
      | inr miss ↦ rw (miss, e, join-front c b l ls, ih)
    ]

-- Two pieces stand on the two sides of one separator.
pub split_two : (c : ℕ) (bs x y : Bytes) → split c bs ≡ x ∷ y ∷ [] → bs ≡ x ++ (c ∷ y)
split_two c bs x y e = sym (join-split c bs) ∙ ap (join c) e

longer : (b : ℕ) (x s : Bytes) → bytes_eq (b ∷ (x ++ s)) s ≡ false
longer b x s = elim (Bool-cases (bytes_eq (b ∷ (x ++ s)) s)) [
  | inl p ↦
      let e = ap length (bytes_eq→eq (b ∷ (x ++ s)) s p) in
      absurd (omega (arith, length-append x s))
  | inr p ↦ p
]

pub strip_suffix-append : (s x : Bytes) → strip_suffix s (x ++ s) ≡ some x
unfolding strip_suffix
strip_suffix-append [] [] = rw (bytes_eq_refl []) refl
strip_suffix-append (c ∷ cs) [] = rw (bytes_eq_refl (c ∷ cs)) refl
strip_suffix-append s (b ∷ x) = rw (longer b x s) (rw (strip_suffix-append s x) refl)

none_not_some : {x : Bytes} → ◌≡◌ {A = Option Bytes} none (some x) → ⊥
none_not_some e = cc

found_behind :
    (s : Bytes) (b : ℕ) (bs front : Bytes) (o : Option Bytes)
    → strip_suffix s bs ≡ o
    → elim o [ none ↦ none | some x ↦ some (b ∷ x) ] ≡ some front
    → ((x : Bytes) → strip_suffix s bs ≡ some x → bs ≡ x ++ s)
    → b ∷ bs ≡ front ++ s
found_behind s b bs front none found e ih = cc
found_behind s b bs front (some x) found e ih =
    (λ i. b ∷ ih x found i) ∙ ap (λ y. y ++ s) (some-injective _ _ e)

-- What is left and the suffix are the text.
pub strip_suffix-some : (s bs front : Bytes) → strip_suffix s bs ≡ some front → bs ≡ front ++ s
unfolding strip_suffix
strip_suffix-some s [] front e = elim (Bool-cases (bytes_eq [] s)) [
  | inl p ↦ bytes_eq→eq [] s p ∙ ap (λ y. y ++ s) (some-injective _ _ (rw p at e))
  | inr p ↦ absurd (none_not_some (rw p at e))
]
strip_suffix-some s (b ∷ bs) front e = elim (Bool-cases (bytes_eq (b ∷ bs) s)) [
  | inl p ↦ bytes_eq→eq (b ∷ bs) s p ∙ ap (λ y. y ++ s) (some-injective _ _ (rw p at e))
  | inr p ↦
      found_behind s b bs front (strip_suffix s bs) refl (rw p at e)
        (λ x h. strip_suffix-some s bs x h)
]
