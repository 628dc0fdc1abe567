-- ===== src/Base/Lists.antt =====
-- Byte strings as lists of numbers: lengths, slices and comparison.
use Prim.Native.Nat.{ℕ, zero, suc, ◌+◌, ◌-◌, ◌≤◌, ◌<◌}
use Prim.Native.Char.{code}
use Prim.Native.String.{String}
use mathlib.Core.Path.{◌≡◌, refl, sym, ap, ◌∙◌}
use mathlib.Core.Logic.{◌⊎◌, inl, inr}
use mathlib.Core.Bool.{Bool, true, false, ◌&&◌}
use mathlib.Core.List.{List, [], ◌∷◌, ◌++◌}
use native.Mathlib.Omega.{arith}
use tactiq_attest.Base.Tests.{◌==◌}

abbrev pub IsByte : ℕ → Type 0
IsByte b = b < 256

abbrev pub Bytes : Type 0
Bytes = List ℕ

-- The code points of a text: its bytes, if it is ASCII.
abbrev pub codes : String → Bytes
codes String.[] = []
codes (String.◌∷◌ c s) = code c ∷ codes s

module _ {ℓ} {A : Type ℓ} where
  abbrev pub length : List A → ℕ
  length [] = 0
  length (x ∷ xs) = suc (length xs)

  unfoldable pub take : ℕ → List A → List A
  take zero xs = []
  take (suc n) [] = []
  take (suc n) (x ∷ xs) = x ∷ take n xs

  unfoldable pub drop : ℕ → List A → List A
  drop zero xs = xs
  drop (suc n) [] = []
  drop (suc n) (x ∷ xs) = drop n xs

  abbrev pub replicate : ℕ → A → List A
  replicate zero x = []
  replicate (suc n) x = x ∷ replicate n x

  abbrev pub All {κ} : (A → Type κ) → List A → Type κ
  All P [] = Unit {κ}
  All P (x ∷ xs) = P x × All P xs

  pub length-append : (xs ys : List A) → length (xs ++ ys) ≡ length xs + length ys
  length-append [] ys = omega arith
  length-append (x ∷ xs) ys = omega (arith, length-append xs ys)

  pub length-replicate : (n : ℕ) (x : A) → length (replicate n x) ≡ n
  length-replicate zero x = refl
  length-replicate (suc n) x = omega (arith, length-replicate n x)

  pub length-take : (n : ℕ) (xs : List A) → n ≤ length xs → length (take n xs) ≡ n
  unfolding take drop
  length-take zero xs h = refl
  length-take (suc n) [] h = absurd (omega arith)
  length-take (suc n) (x ∷ xs) h = omega (arith, length-take n xs)

  pub length-take-min :
      (n : ℕ) (xs : List A)
      → ((n ≤ length xs) × (length (take n xs) ≡ n))
        ⊎ ((length xs ≤ n) × (length (take n xs) ≡ length xs))
  unfolding take drop
  length-take-min zero xs = inl (omega arith, refl)
  length-take-min (suc n) [] = inr (omega arith, refl)
  length-take-min (suc n) (x ∷ xs) = grind (arith, length-take-min n xs)

  pub length-drop : (n : ℕ) (xs : List A) → length (drop n xs) ≡ length xs - n
  unfolding take drop
  length-drop zero xs = omega arith
  length-drop (suc n) [] = omega arith
  length-drop (suc n) (x ∷ xs) = omega (arith, length-drop n xs)

  pub take-append-drop : (n : ℕ) (xs : List A) → take n xs ++ drop n xs ≡ xs
  unfolding take drop
  take-append-drop zero xs = refl
  take-append-drop (suc n) [] = refl
  take-append-drop (suc n) (x ∷ xs) = ap (λ t. x ∷ t) (take-append-drop n xs)

  pub take-append : (n : ℕ) (xs ys : List A) → n ≡ length xs → take n (xs ++ ys) ≡ xs
  unfolding take drop
  take-append zero [] ys h = refl
  take-append zero (x ∷ xs) ys h = absurd (omega arith)
  take-append (suc n) [] ys h = absurd (omega arith)
  take-append (suc n) (x ∷ xs) ys h = ap (λ t. x ∷ t) (take-append n xs ys (omega arith))

  pub drop-append : (n : ℕ) (xs ys : List A) → n ≡ length xs → drop n (xs ++ ys) ≡ ys
  unfolding take drop
  drop-append zero [] ys h = refl
  drop-append zero (x ∷ xs) ys h = absurd (omega arith)
  drop-append (suc n) [] ys h = absurd (omega arith)
  drop-append (suc n) (x ∷ xs) ys h = drop-append n xs ys (omega arith)

  pub All-append {κ} : (P : A → Type κ) (xs ys : List A) → All P xs → All P ys → All P (xs ++ ys)
  All-append P [] ys h k = k
  All-append P (x ∷ xs) ys (p, h) k = (p, All-append P xs ys h k)

  pub drop-zero : (xs : List A) → drop 0 xs ≡ xs
  unfolding drop
  drop-zero xs = refl

  pub All-take {κ} : (P : A → Type κ) (n : ℕ) (xs : List A) → All P xs → All P (take n xs)
  unfolding take drop
  All-take P zero xs h = tt
  All-take P (suc n) [] h = tt
  All-take P (suc n) (x ∷ xs) (p, h) = (p, All-take P n xs h)

  pub All-drop {κ} : (P : A → Type κ) (n : ℕ) (xs : List A) → All P xs → All P (drop n xs)
  unfolding take drop
  All-drop P zero xs h = h
  All-drop P (suc n) [] h = tt
  All-drop P (suc n) (x ∷ xs) (p, h) = All-drop P n xs h

-- `xs[i]`, within bounds.
unfoldable pub byte_at : Bytes → ℕ → ℕ
byte_at [] i = 0
byte_at (x ∷ xs) zero = x
byte_at (x ∷ xs) (suc i) = byte_at xs i

-- Comparison of byte strings.
unfoldable pub bytes_eq : Bytes → Bytes → Bool
bytes_eq [] [] = true
bytes_eq (x ∷ xs) (y ∷ ys) = x == y && bytes_eq xs ys
bytes_eq _ _ = false

pub bytes_eq→eq : (xs ys : Bytes) → bytes_eq xs ys ≡ true → xs ≡ ys
unfolding bytes_eq
bytes_eq→eq [] [] h = refl
bytes_eq→eq [] (y ∷ ys) h = cc
bytes_eq→eq (x ∷ xs) [] h = cc
bytes_eq→eq (x ∷ xs) (y ∷ ys) h = ground (arith, bytes_eq→eq xs ys)

pub bytes_eq_refl : (xs : Bytes) → bytes_eq xs xs ≡ true
unfolding bytes_eq
bytes_eq_refl [] = refl
bytes_eq_refl (x ∷ xs) = ground (arith, bytes_eq_refl xs)

true_ne_false : true ≡ false → ⊥
true_ne_false e = cc

pub bytes_eq-ne : (xs ys : Bytes) → bytes_eq xs ys ≡ false → xs ≡ ys → ⊥
bytes_eq-ne xs ys e p = true_ne_false (sym (ap (bytes_eq xs) (sym p) ∙ bytes_eq_refl xs) ∙ e)

module _ {ℓ} {A : Type ℓ} where
  -- `xs[lo..hi]`, within bounds.
  abbrev pub slice : ℕ → ℕ → List A → List A
  slice lo hi xs = take (hi - lo) (drop lo xs)

  pub take-all : (n : ℕ) (xs : List A) → n ≡ length xs → take n xs ≡ xs
  unfolding take drop
  take-all zero [] h = refl
  take-all zero (x ∷ xs) h = absurd (omega arith)
  take-all (suc n) [] h = refl
  take-all (suc n) (x ∷ xs) h = ap (λ t. x ∷ t) (take-all n xs (omega arith))

  pub drop-all : (n : ℕ) (xs : List A) → n ≡ length xs → drop n xs ≡ []
  unfolding drop
  drop-all zero [] h = refl
  drop-all zero (x ∷ xs) h = absurd (omega arith)
  drop-all (suc n) [] h = refl
  drop-all (suc n) (x ∷ xs) h = drop-all n xs (omega arith)

  take-nil : (n : ℕ) → take {A = A} n [] ≡ []
  unfolding take drop
  take-nil zero = refl
  take-nil (suc n) = refl

  drop-append_more : (n m : ℕ) (xs ys : List A) → n ≡ length xs + m → drop n (xs ++ ys) ≡ drop m ys
  unfolding take drop
  drop-append_more n m [] ys h = let e : n ≡ m = omega arith in rw e
  drop-append_more zero m (x ∷ xs) ys h = absurd (omega arith)
  drop-append_more (suc n) m (x ∷ xs) ys h = drop-append_more n m xs ys (omega arith)

  pub slice-skip :
      (lo hi lo' hi' : ℕ) (xs ys : List A)
      → lo ≡ length xs + lo'
      → hi ≡ length xs + hi'
      → slice lo hi (xs ++ ys) ≡ slice lo' hi' ys
  slice-skip lo hi lo' hi' xs ys p q =
      let e : hi - lo ≡ hi' - lo' = omega arith in rw (e, drop-append_more lo lo' xs ys p)

  pub slice-here : (n : ℕ) (xs ys : List A) → n ≡ length xs → slice 0 n (xs ++ ys) ≡ xs
  unfolding drop
  slice-here n xs ys p = let e : n - 0 ≡ n = omega arith in rw e (take-append n xs ys p)

  pub slice-all : (n : ℕ) (xs : List A) → n ≡ length xs → slice 0 n xs ≡ xs
  unfolding drop
  slice-all n xs p = let e : n - 0 ≡ n = omega arith in rw e (take-all n xs p)

  pub slice-append-drop :
      (lo hi : ℕ) (xs : List A) → lo ≤ hi → slice lo hi xs ++ drop hi xs ≡ drop lo xs
  unfolding take drop
  slice-append-drop zero hi xs h =
      let e : hi - 0 ≡ hi = omega arith in rw e (take-append-drop hi xs)
  slice-append-drop (suc lo) zero xs h = absurd (omega arith)
  slice-append-drop (suc lo) (suc hi) [] h = rw take-nil
  slice-append-drop (suc lo) (suc hi) (x ∷ xs) h =
      let e : suc hi - suc lo ≡ hi - lo = omega arith in
      rw e (slice-append-drop lo hi xs (omega arith))

  pub slice_zero-append-drop : (hi : ℕ) (xs : List A) → slice 0 hi xs ++ drop hi xs ≡ xs
  slice_zero-append-drop hi xs = slice-append-drop 0 hi xs (omega arith) ∙ drop-zero xs

  pub length-slice :
      (lo hi : ℕ) (xs : List A) → lo ≤ hi → hi ≤ length xs → length (slice lo hi xs) ≡ hi - lo
  length-slice lo hi xs h k = length-take (hi - lo) (drop lo xs) (omega (arith, length-drop lo xs))

  pub All-slice {κ} : (P : A → Type κ) (lo hi : ℕ) (xs : List A) → All P xs → All P (slice lo hi xs)
  All-slice P lo hi xs h = All-take P (hi - lo) (drop lo xs) (All-drop P lo xs h)

-- `x` stands in the list.
abbrev pub Member : {A : Type 0} → A → List A → Type 0
Member x [] = ⊥
Member x (y ∷ ys) = (x ≡ y) ⊎ Member x ys

-- Named on the line of a test, opens what this module keeps shut.
unfoldable pub computing : Unit {0}
unfolding take drop byte_at bytes_eq
computing = tt
