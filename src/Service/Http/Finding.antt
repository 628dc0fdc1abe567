-- ===== src/Service/Http/Finding.antt =====
-- Where crates/stop/src/http.rs finds the end of the head, and what more bytes change of it.
use tactiq_attest.Base.{
  ℕ, zero, suc, ◌+◌, ◌≤◌, Bytes, true, List, [], ◌∷◌, ◌++◌, ◌≡◌, refl, sym, ap, Option, none, some,
  some-injective, length, take, drop, Bool-cases, inl, inr, arith,
}
use tactiq_attest.Service.Http.{starts_with, find, later}

module _ {ℓ} {A : Type ℓ} where
  pub take_of-append : (n : ℕ) (xs ys : List A) → n ≤ length xs → take n (xs ++ ys) ≡ take n xs
  unfolding take
  take_of-append zero xs ys h = refl
  take_of-append (suc n) [] ys h = absurd (omega arith)
  take_of-append (suc n) (x ∷ xs) ys h = ap (λ t. x ∷ t) (take_of-append n xs ys (omega arith))

  pub drop_of-append :
      (n : ℕ) (xs ys : List A) → n ≤ length xs → drop n (xs ++ ys) ≡ drop n xs ++ ys
  unfolding drop
  drop_of-append zero xs ys h = refl
  drop_of-append (suc n) [] ys h = absurd (omega arith)
  drop_of-append (suc n) (x ∷ xs) ys h = drop_of-append n xs ys (omega arith)

pub starts_with-length : (n h : Bytes) → starts_with n h ≡ true → length n ≤ length h
unfolding starts_with
starts_with-length [] h e = omega arith
starts_with-length (c ∷ n) [] e = cc
starts_with-length (c ∷ n) (b ∷ h) e = ground (arith, starts_with-length n h)

pub starts_with-append :
    (n h more : Bytes) → length n ≤ length h → starts_with n (h ++ more) ≡ starts_with n h
unfolding starts_with
starts_with-append [] h more le = refl
starts_with-append (c ∷ n) [] more le = absurd (omega arith)
starts_with-append (c ∷ n) (b ∷ h) more le = rw (starts_with-append n h more (omega arith)) refl

pub later-some : (o : Option ℕ) (i : ℕ) → later o ≡ some i → (j : ℕ) × (o ≡ some j) × (i ≡ suc j)
later-some none i e = cc
later-some (some j) i e = (j, refl, sym (some-injective _ _ e))

-- The mark that was found fits into the bytes.
pub find-length : (h n : Bytes) (i : ℕ) → find h n ≡ some i → i + length n ≤ length h
unfolding find
find-length [] n i e = cc
find-length (b ∷ h) n i e = elim (Bool-cases (starts_with n (b ∷ h))) [
  | inl p ↦
      let zero_is : 0 ≡ i = some-injective _ _ (rw p at e) in
      let le : length n ≤ suc (length h) = starts_with-length n (b ∷ h) p in omega arith
  | inr p ↦
      let (j, ej, is) = later-some (find h n) i (rw p at e) in omega (arith, find-length h n j ej)
]

-- More bytes do not move the first mark.
pub find-append : (h n more : Bytes) (i : ℕ) → find h n ≡ some i → find (h ++ more) n ≡ some i
unfolding find
find-append [] n more i e = cc
find-append (b ∷ h) n more i e =
    let fits : i + length n ≤ length (b ∷ h) = find-length (b ∷ h) n i e in
    elim (Bool-cases (starts_with n (b ∷ h))) [
      | inl p ↦ rw (starts_with-append n (b ∷ h) more (omega arith), p) (rw p at e)
      | inr p ↦
          let (j, ej, is) = later-some (find h n) i (rw p at e) in
          rw (starts_with-append n (b ∷ h) more (omega arith), p, find-append h n more j ej, is)
    ]
