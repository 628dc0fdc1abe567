-- ===== src/Base/Sorting.antt =====
-- `sort_unstable` and `dedup` of a vector, by the test of the order and of equality: elements that are
-- equal are the same, so that the sort is stable cannot be seen.
use mathlib.Core.Path.{◌≡◌, ◌∙◌, sym, subst}
use mathlib.Core.Logic.{◌≢◌, ◌⊎◌, inl, inr}
use mathlib.Core.Bool.{Bool, true, false}
use mathlib.Core.List.{List, [], ◌∷◌, ◌++◌}
use Prim.Native.Nat.{ℕ, ◌≤◌}
use native.Mathlib.Omega.{arith}
use tactiq_attest.Base.Tests.{if◌then◌else◌, Bool-cases}
use tactiq_attest.Base.Lists.{All, Member}

module _ {A : Type 0} (lt : A → A → Bool) where
  unfoldable pub insert : A → List A → List A
  insert x [] = x ∷ []
  insert x (y ∷ ys) = let rest = insert x ys in if lt y x then y ∷ rest else x ∷ y ∷ ys

  unfoldable pub sort : List A → List A
  unfolding insert
  sort [] = []
  sort (x ∷ xs) = insert x (sort xs)

  of_insert : (x y : A) (ys : List A) → Member x (insert y ys) → Member x (y ∷ ys)
  unfolding insert
  of_insert x y [] m = m
  of_insert x y (z ∷ ys) m = elim (Bool-cases (lt z y)) [
    | inl p ↦ swapped (rw p at m) (of_insert x y ys)
    | inr p ↦ rw p at m
  ]
    where
      swapped :
          (x ≡ z) ⊎ Member x (insert y ys)
          → (Member x (insert y ys) → (x ≡ y) ⊎ Member x ys)
          → (x ≡ y) ⊎ ((x ≡ z) ⊎ Member x ys)
      swapped (inl e) ih = inr (inl e)
      swapped (inr n) ih = elim (ih n) [ inl e ↦ inl e | inr k ↦ inr (inr k) ]

  inserted : (x y : A) (ys : List A) → Member x (y ∷ ys) → Member x (insert y ys)
  unfolding insert
  inserted x y [] m = m
  inserted x y (z ∷ ys) m = elim (Bool-cases (lt z y)) [
    | inl p ↦ rw p (swapped m (inserted x y ys))
    | inr p ↦ rw p m
  ]
    where
      swapped :
          (x ≡ y) ⊎ ((x ≡ z) ⊎ Member x ys)
          → ((x ≡ y) ⊎ Member x ys → Member x (insert y ys))
          → (x ≡ z) ⊎ Member x (insert y ys)
      swapped (inl e) ih = inr (ih (inl e))
      swapped (inr (inl e)) ih = inl e
      swapped (inr (inr k)) ih = inr (ih (inr k))

  pub of_sort : (x : A) (xs : List A) → Member x (sort xs) → Member x xs
  unfolding sort
  of_sort x [] m = m
  of_sort x (y ∷ ys) m = elim (of_insert x y (sort ys) m) [
    | inl e ↦ inl e
    | inr k ↦ inr (of_sort x ys k)
  ]

  pub sorted : (x : A) (xs : List A) → Member x xs → Member x (sort xs)
  unfolding sort
  sorted x [] m = m
  sorted x (y ∷ ys) (inl e) = inserted x y (sort ys) (inl e)
  sorted x (y ∷ ys) (inr m) = inserted x y (sort ys) (inr (sorted x ys m))

module _ {A : Type 0} (same : A → A → Bool) where
  unfoldable pub dedup : List A → List A
  dedup [] = []
  dedup (x ∷ []) = x ∷ []
  dedup (x ∷ (y ∷ ys)) = let rest = dedup (y ∷ ys) in if same x y then rest else x ∷ rest

  pub of_dedup : (x : A) (xs : List A) → Member x (dedup xs) → Member x xs
  unfolding dedup
  of_dedup x [] m = m
  of_dedup x (y ∷ []) m = m
  of_dedup x (y ∷ (z ∷ ys)) m = elim (Bool-cases (same y z)) [
    | inl p ↦ inr (of_dedup x (z ∷ ys) (rw p at m))
    | inr p ↦ kept (rw p at m) (of_dedup x (z ∷ ys))
  ]
    where
      kept :
          (x ≡ y) ⊎ Member x (dedup (z ∷ ys))
          → (Member x (dedup (z ∷ ys)) → Member x (z ∷ ys))
          → Member x (y ∷ (z ∷ ys))
      kept (inl e) ih = inl e
      kept (inr n) ih = inr (ih n)

  pub deduped :
      ((x y : A) → same x y ≡ true → x ≡ y)
      → (x : A) (xs : List A) → Member x xs
      → Member x (dedup xs)
  unfolding dedup
  deduped s x [] m = m
  deduped s x (y ∷ []) m = m
  deduped s x (y ∷ (z ∷ ys)) m = elim (Bool-cases (same y z)) [
    | inl p ↦ rw p (deduped s x (z ∷ ys) (merged m (s y z p)))
    | inr p ↦ rw p (kept m (deduped s x (z ∷ ys)))
  ]
    where
      merged : Member x (y ∷ (z ∷ ys)) → y ≡ z → Member x (z ∷ ys)
      merged (inl e) e' = inl (e ∙ e')
      merged (inr n) e' = n

      kept :
          Member x (y ∷ (z ∷ ys))
          → (Member x (z ∷ ys) → Member x (dedup (z ∷ ys)))
          → (x ≡ y) ⊎ Member x (dedup (z ∷ ys))
      kept (inl e) ih = inl e
      kept (inr n) ih = inr (ih n)

-- Sorting puts the lowest key first, if the order does not go against the keys.
module _ {A : Type 0} (key : A → ℕ) where
  abbrev pub Above : ℕ → A → Type 0
  Above n x = n ≤ key x

  abbrev pub Sorted : List A → Type 0
  Sorted [] = Unit
  Sorted (x ∷ xs) = All (Above (key x)) xs × Sorted xs

  All-le : (n m : ℕ) (xs : List A) → n ≤ m → All (Above m) xs → All (Above n) xs
  All-le n m [] h a = tt
  All-le n m (x ∷ xs) h (b, a) = (omega arith, All-le n m xs h a)

  module _ (lt : A → A → Bool) (under : (x y : A) → lt x y ≡ true → key x ≤ key y)
      (over : (x y : A) → lt x y ≡ false → key y ≤ key x) where
    insert-All :
        (n : ℕ) (x : A) (xs : List A)
        → n ≤ key x
        → All (Above n) xs
        → All (Above n) (insert lt x xs)
    unfolding insert
    insert-All n x [] h a = (h, tt)
    insert-All n x (y ∷ ys) h (b, a) = elim (Bool-cases (lt y x)) [
      | inl p ↦ rw p (b, insert-All n x ys h a)
      | inr p ↦ rw p (h, (b, a))
    ]

    insert-Sorted : (x : A) (xs : List A) → Sorted xs → Sorted (insert lt x xs)
    unfolding insert
    insert-Sorted x [] s = (tt, tt)
    insert-Sorted x (y ∷ ys) (a, s) = elim (Bool-cases (lt y x)) [
      | inl p ↦ rw p (insert-All (key y) x ys (under y x p) a, insert-Sorted x ys s)
      | inr p ↦ let low = over y x p in rw p ((low, All-le (key x) (key y) ys low a), (a, s))
    ]

    pub sort-Sorted : (xs : List A) → Sorted (sort lt xs)
    unfolding sort
    sort-Sorted [] = tt
    sort-Sorted (x ∷ xs) = insert-Sorted x (sort lt xs) (sort-Sorted xs)

  module _ (same : A → A → Bool) where
    dedup-All : (n : ℕ) (xs : List A) → All (Above n) xs → All (Above n) (dedup same xs)
    unfolding dedup
    dedup-All n [] a = tt
    dedup-All n (x ∷ []) a = a
    dedup-All n (x ∷ (y ∷ ys)) (b, a) = elim (Bool-cases (same x y)) [
      | inl p ↦ rw p (dedup-All n (y ∷ ys) a)
      | inr p ↦ rw p (b, dedup-All n (y ∷ ys) a)
    ]

    pub dedup-Sorted : (xs : List A) → Sorted xs → Sorted (dedup same xs)
    unfolding dedup
    dedup-Sorted [] s = tt
    dedup-Sorted (x ∷ []) s = s
    dedup-Sorted (x ∷ (y ∷ ys)) (a, s) = elim (Bool-cases (same x y)) [
      | inl p ↦ rw p (dedup-Sorted (y ∷ ys) s)
      | inr p ↦ rw p (dedup-All (key x) (y ∷ ys) a, dedup-Sorted (y ∷ ys) s)
    ]

  All-append : (n : ℕ) (xs ys : List A) (y : A) → All (Above n) (xs ++ ys) → Member y ys → n ≤ key y
  All-append n [] [] y _ m = elim m [ ]
  All-append n [] (z ∷ ys) y (a, _) (inl e) = subst (λ t. n ≤ key t) (sym e) a
  All-append n [] (z ∷ ys) y (_, a) (inr m) = All-append n [] ys y a m
  All-append n (x ∷ xs) ys y (_, a) m = All-append n xs ys y a m

  -- What stands in front has the lower key.
  pub Sorted-le :
      (xs ys : List A) (x y : A) → Sorted (xs ++ ys) → Member x xs → Member y ys → key x ≤ key y
  Sorted-le [] ys x y _ k m = elim k [ ]
  Sorted-le (z ∷ xs) ys x y (a, s) (inl e) m =
      subst (λ t. key t ≤ key y) (sym e) (All-append (key z) xs ys y a m)
  Sorted-le (z ∷ xs) ys x y (a, s) (inr k) m = Sorted-le xs ys x y s k m

-- What a strict and total order makes of it: nothing stands before what it does not precede, and
-- after equal neighbours are dropped nothing stands there twice.
module _ {A : Type 0} where
  abbrev pub Distinct : List A → Type 0
  Distinct [] = Unit
  Distinct (x ∷ xs) = All (λ y. x ≢ y) xs × Distinct xs

  module _ (lt same : A → A → Bool) (asym : (x y : A) → lt x y ≡ true → lt y x ≡ false)
      (trans : (x y z : A) → lt z y ≡ false → lt y x ≡ false → lt z x ≡ false)
      (total : (x y : A) → lt x y ≡ false → lt y x ≡ false → same x y ≡ true)
      (reflexive : (x : A) → lt x x ≡ false) where
    abbrev NotUnder : A → A → Type 0
    NotUnder x y = lt y x ≡ false

    abbrev pub Ordered : List A → Type 0
    Ordered [] = Unit
    Ordered (x ∷ xs) = All (NotUnder x) xs × Ordered xs

    passed_on : (x y : A) (ys : List A) → lt y x ≡ false → All (NotUnder y) ys → All (NotUnder x) ys
    passed_on x y [] h a = tt
    passed_on x y (z ∷ ys) h (b, a) = (trans x y z b h, passed_on x y ys h a)

    insert-over :
        (x y : A) (ys : List A)
        → lt x y ≡ false
        → All (NotUnder y) ys
        → All (NotUnder y) (insert lt x ys)
    unfolding insert
    insert-over x y [] h a = (h, tt)
    insert-over x y (z ∷ ys) h (b, a) = elim (Bool-cases (lt z x)) [
      | inl p ↦ rw p (b, insert-over x y ys h a)
      | inr p ↦ rw p (h, (b, a))
    ]

    insert-Ordered : (x : A) (ys : List A) → Ordered ys → Ordered (insert lt x ys)
    unfolding insert
    insert-Ordered x [] o = (tt, tt)
    insert-Ordered x (y ∷ ys) (a, o) = elim (Bool-cases (lt y x)) [
      | inl p ↦ rw p (insert-over x y ys (asym y x p) a, insert-Ordered x ys o)
      | inr p ↦ rw p ((p, passed_on x y ys p a), (a, o))
    ]

    sort-Ordered : (xs : List A) → Ordered (sort lt xs)
    unfolding sort
    sort-Ordered [] = tt
    sort-Ordered (x ∷ xs) = insert-Ordered x (sort lt xs) (sort-Ordered xs)

    dedup-over : (x : A) (ys : List A) → All (NotUnder x) ys → All (NotUnder x) (dedup same ys)
    unfolding dedup
    dedup-over x [] a = tt
    dedup-over x (y ∷ []) a = a
    dedup-over x (y ∷ (z ∷ ys)) (b, a) = elim (Bool-cases (same y z)) [
      | inl p ↦ rw p (dedup-over x (z ∷ ys) a)
      | inr p ↦ rw p (b, dedup-over x (z ∷ ys) a)
    ]

    true_not_false : true ≡ false → ⊥
    true_not_false e = cc

    -- Behind one that differs from its neighbour it does not come again.
    not_again :
        (x y : A) (zs : List A)
        → same x y ≡ false
        → lt y x ≡ false
        → All (NotUnder y) zs
        → All (λ z. x ≢ z) zs
    not_again x y [] s h a = tt
    not_again x y (z ∷ zs) s h (b, a) = (
      λ e. true_not_false (sym (total x y (subst (λ t. lt t y ≡ false) (sym e) b) h) ∙ s),
      not_again x y zs s h a,
    )

    dedup-Distinct : (xs : List A) → Ordered xs → Distinct (dedup same xs)
    unfolding dedup
    dedup-Distinct [] o = tt
    dedup-Distinct (x ∷ []) o = (tt, tt)
    dedup-Distinct (x ∷ (y ∷ ys)) ((h, a), o) = elim (Bool-cases (same x y)) [
      | inl p ↦ rw p (dedup-Distinct (y ∷ ys) o)
      | inr p ↦ rw p (
        not_again x y (dedup same (y ∷ ys)) p h (dedup-over y (y ∷ ys) (reflexive y, o.0)),
        dedup-Distinct (y ∷ ys) o,
      )
    ]

    pub dedup-sort-Distinct : (xs : List A) → Distinct (dedup same (sort lt xs))
    dedup-sort-Distinct xs = dedup-Distinct (sort lt xs) (sort-Ordered xs)
