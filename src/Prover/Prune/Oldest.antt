-- ===== src/Prover/Prune/Oldest.antt =====
-- `stems_to_prune` of crates/prover/src/main.rs removes the oldest envelopes, and no more than it must.
use tactiq_attest.Base.{
  ℕ, zero, suc, ◌-◌, ◌≤◌, ◌<◌, Bytes, true, false, List, [], ◌∷◌, ◌++◌, ◌≡◌, ◌≢◌, ◌∙◌, ap, All,
  Option, none, some, some-injective, ◌↔◌, ◌⊎◌, inl, inr, refl, sym, subst, length, take, drop,
  Member, take-append-drop, length-drop, bytes_eq, bytes_eq→eq, arith,
}
use tactiq_attest.Base.Sorting.{
  sort, of_sort, sorted, of_dedup, deduped, Sorted, sort-Sorted, dedup-Sorted, Sorted-le, Distinct,
  dedup-sort-Distinct,
}
use tactiq_attest.Appraise.Manifest.{digest_lt}
use tactiq_attest.Service.Text.{parse_u64}
use tactiq_attest.Prover.Names.{stem_of}
use tactiq_attest.Prover.Names.Laws.{stem_of-number}
use tactiq_attest.Prover.Prune.{
  Stem, stem_lt, same_stem, stems_of, names_of, ordered_stems, stems_to_prune,
}

abbrev num_of : Stem → ℕ
num_of (n, _) = n

stem_lt-le : (x y : Stem) → stem_lt x y ≡ true → num_of x ≤ num_of y
unfolding stem_lt
stem_lt-le (n, s) (m, t) h = ground arith

stem_lt-ge : (x y : Stem) → stem_lt x y ≡ false → num_of y ≤ num_of x
unfolding stem_lt
stem_lt-ge (n, s) (m, t) h = ground arith

same_stem→eq : (x y : Stem) → same_stem x y ≡ true → x ≡ y
same_stem→eq (n, s) (m, t) h = ground (arith, bytes_eq→eq s t)

ordered_stems-Sorted : (names : List Bytes) → Sorted num_of (ordered_stems names)
unfolding ordered_stems
ordered_stems-Sorted names =
    dedup-Sorted num_of same_stem (sort stem_lt (stems_of names))
      (sort-Sorted num_of stem_lt stem_lt-le stem_lt-ge (stems_of names))

pub ordered_stems-Member :
    (names : List Bytes) (x : Stem) → Member x (ordered_stems names) ↔ Member x (stems_of names)
unfolding ordered_stems
ordered_stems-Member names x = (
  λ m. of_sort stem_lt x (stems_of names) (of_dedup same_stem x (sort stem_lt (stems_of names)) m),
  λ m.
      deduped same_stem same_stem→eq x (sort stem_lt (stems_of names))
        (sorted stem_lt x (stems_of names) m),
)

either : (x : Stem) (xs ys : List Stem) → Member x (xs ++ ys) → Member x xs ⊎ Member x ys
either x [] ys m = inr m
either x (y ∷ xs) ys (inl e) = inl (inl e)
either x (y ∷ xs) ys (inr m) = elim (either x xs ys m) [ inl a ↦ inl (inr a) | inr b ↦ inr b ]

joined : (x : Stem) (xs ys : List Stem) → Member x xs ⊎ Member x ys → Member x (xs ++ ys)
joined x [] ys (inl m) = elim m [ ]
joined x [] ys (inr m) = m
joined x (y ∷ xs) ys (inl (inl e)) = inl e
joined x (y ∷ xs) ys (inl (inr m)) = inr (joined x xs ys (inl m))
joined x (y ∷ xs) ys (inr m) = inr (joined x xs ys (inr m))

digest_lt-asym : (x y : Bytes) → digest_lt x y ≡ true → digest_lt y x ≡ false
unfolding digest_lt
digest_lt-asym [] [] h = refl
digest_lt-asym [] (b ∷ y) h = refl
digest_lt-asym (a ∷ x) [] h = cc
digest_lt-asym (a ∷ x) (b ∷ y) h = ground (arith, digest_lt-asym x y)

digest_lt_trans :
    (x y z : Bytes) → digest_lt z y ≡ false → digest_lt y x ≡ false → digest_lt z x ≡ false
unfolding digest_lt
digest_lt_trans [] [] z h k = h
digest_lt_trans [] (b ∷ y) [] h k = refl
digest_lt_trans [] (b ∷ y) (c ∷ z) h k = refl
digest_lt_trans (a ∷ x) [] z h k = cc
digest_lt_trans (a ∷ x) (b ∷ y) [] h k = cc
digest_lt_trans (a ∷ x) (b ∷ y) (c ∷ z) h k = ground (arith, digest_lt_trans x y z)

digest_lt-total :
    (x y : Bytes) → digest_lt x y ≡ false → digest_lt y x ≡ false → bytes_eq x y ≡ true
unfolding digest_lt bytes_eq
digest_lt-total [] [] h k = refl
digest_lt-total [] (b ∷ y) h k = cc
digest_lt-total (a ∷ x) [] h k = cc
digest_lt-total (a ∷ x) (b ∷ y) h k = ground (arith, digest_lt-total x y)

digest_lt-same : (x : Bytes) → digest_lt x x ≡ false
unfolding digest_lt
digest_lt-same [] = refl
digest_lt-same (a ∷ x) = ground (arith, digest_lt-same x)

stem_lt-asym : (x y : Stem) → stem_lt x y ≡ true → stem_lt y x ≡ false
unfolding stem_lt
stem_lt-asym (n, s) (m, t) h = ground (arith, digest_lt-asym s t)

stem_lt_trans : (x y z : Stem) → stem_lt z y ≡ false → stem_lt y x ≡ false → stem_lt z x ≡ false
unfolding stem_lt
stem_lt_trans (n, s) (m, t) (k, u) h e = ground (arith, digest_lt_trans s t u)

stem_lt-total : (x y : Stem) → stem_lt x y ≡ false → stem_lt y x ≡ false → same_stem x y ≡ true
unfolding stem_lt
stem_lt-total (n, s) (m, t) h k = ground (arith, digest_lt-total s t)

stem_lt-same : (x : Stem) → stem_lt x x ≡ false
unfolding stem_lt
stem_lt-same (n, s) = ground (arith, digest_lt-same s)

ordered_stems-Distinct : (names : List Bytes) → Distinct (ordered_stems names)
unfolding ordered_stems
ordered_stems-Distinct names =
    dedup-sort-Distinct stem_lt same_stem stem_lt-asym stem_lt_trans stem_lt-total stem_lt-same
      (stems_of names)

-- A stem with the number that it spells.
Spelled : Stem → Type 0
Spelled (n, s) = parse_u64 s ≡ some n

stems_of-Spelled : (names : List Bytes) (x : Stem) → Member x (stems_of names) → Spelled x
unfolding stems_of Spelled
stems_of-Spelled [] x m = elim m [ ]
stems_of-Spelled (name ∷ names) x m = by_name (stems_of-Spelled names x) (stem_of name) refl m
  where
    by_name :
        (Member x (stems_of names) → Spelled x)
        → (o : Option Stem) → stem_of name ≡ o
        → Member x (elim o [ none ↦ stems_of names | some s ↦ s ∷ stems_of names ])
        → Spelled x
    by_name later none h m = later m
    by_name later (some (n, s)) h (inl e) = subst Spelled (sym e) (stem_of-number name n s h)
    by_name later (some (n, s)) h (inr m) = later m

names_apart :
    (n : ℕ) (s : Bytes) (xs : List Stem)
    → parse_u64 s ≡ some n
    → ((x : Stem) → Member x xs → Spelled x)
    → All (λ y. ◌≢◌ {A = Stem} (n, s) y) xs
    → All (λ t. s ≢ t) (names_of xs)
unfolding names_of Spelled
names_apart n s [] h k a = tt
names_apart n s ((m, t) ∷ xs) h k (b, a) = (
  λ e.
      let same : ◌≡◌ {A = Option ℕ} (some n) (some m) =
        sym h ∙ ap parse_u64 e ∙ k (m, t) (inl refl) in
      b (λ i. (some-injective _ _ same i, e i)),
  names_apart n s xs h (λ x there. k x (inr there)) a,
)

names_of-Distinct :
    (xs : List Stem) → ((x : Stem) → Member x xs → Spelled x) → Distinct xs → Distinct (names_of xs)
unfolding names_of Spelled
names_of-Distinct [] k d = tt
names_of-Distinct ((n, s) ∷ xs) k (a, d) = (
  names_apart n s xs (k (n, s) (inl refl)) (λ x there. k x (inr there)) a,
  names_of-Distinct xs (λ x there. k x (inr there)) d,
)

-- The envelopes that stay, and those that go.
pub record Pruned (names : List Bytes) (keep : ℕ) (gone kept : List Stem) : Type 0 where
  pub removed : stems_to_prune names keep ≡ names_of gone
  pub all_there : (x : Stem) → Member x (stems_of names) → Member x gone ⊎ Member x kept
  pub only_there : (x : Stem) → Member x gone ⊎ Member x kept → Member x (stems_of names)
  pub oldest : (x y : Stem) → Member x gone → Member y kept → num_of x ≤ num_of y
  pub once : Distinct (names_of (gone ++ kept))
  pub few : length kept ≤ keep
  pub no_more : (x : Stem) → Member x gone → length kept ≡ keep

some_taken : (x : Stem) (n : ℕ) (xs : List Stem) → Member x (take n xs) → 0 < n
unfolding take
some_taken x zero xs m = elim m [ ]
some_taken x (suc n) xs m = omega arith

-- The envelopes in the directory fall into those that are removed and those that stay, each
-- counted once although it has several files, and none in both: none is lost or made up, none that
-- is removed has a higher number than one that stays, at most the wanted number stay, and if any
-- is removed just that many.
pub stems_to_prune-Pruned :
    (names : List Bytes) (keep : ℕ)
    → Pruned names keep
        (take (length (ordered_stems names) - keep) (ordered_stems names))
        (drop (length (ordered_stems names) - keep) (ordered_stems names))
unfolding stems_to_prune
stems_to_prune-Pruned names keep =
    let xs = ordered_stems names in
    let n = length (ordered_stems names) - keep in
    let whole = take-append-drop n xs in
    let left = length-drop n xs in
    record {
      removed = refl;
      all_there = λ x m.
          either x (take n xs) (drop n xs)
            (subst (Member x) (sym whole) ((ordered_stems-Member names x).1 m));
      only_there = λ x m.
          (ordered_stems-Member names x).0
            (subst (Member x) whole (joined x (take n xs) (drop n xs) m));
      oldest = λ x y gone kept.
          Sorted-le num_of (take n xs) (drop n xs) x y
            (subst (Sorted num_of) (sym whole) (ordered_stems-Sorted names)) gone kept;
      once =
          subst (λ ys. Distinct (names_of ys)) (sym whole)
            (names_of-Distinct xs
              (λ x m. stems_of-Spelled names x ((ordered_stems-Member names x).0 m))
              (ordered_stems-Distinct names));
      few = omega arith;
      no_more = λ x m. let some_gone = some_taken x n xs m in omega arith;
    }
