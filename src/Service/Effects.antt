-- ===== src/Service/Effects.antt =====
-- Methods that call the TPM or read files and may fail. The world comes back beside an error too:
-- what was done before a failure stays done.
use tactiq_attest.Base.{◌≡◌, refl, Result, ok, err, map_err, map_err-eq-ok, ok-injective, err-ne-ok}

abbrev pub Exec {ℓ} : Type ℓ → Type ℓ → Type ℓ → Type ℓ
Exec E W A = W → Result E A × W

module _ {ℓ} {E W A : Type ℓ} where
  unfoldable pub pure : A → Exec E W A
  pure a w = (ok a, w)

  unfoldable pub raise : E → Exec E W A
  raise e w = (err e, w)

  unfoldable pub lift : Result E A → Exec E W A
  lift r w = (r, w)

module _ {ℓ} {E W A B : Type ℓ} where
  abbrev continue : Result E A → (A → Exec E W B) → Exec E W B
  continue (ok a) f w = f a w
  continue (err e) f w = (err e, w)

  infixl 10 ◌>>=◌ ◌>>◌
  unfoldable pub ◌>>=◌ : Exec E W A → (A → Exec E W B) → Exec E W B
  unfolding pure raise lift
  ◌>>=◌ m f w = let (r, w') = m w in continue r f w'

  abbrev pub ◌>>◌ : Exec E W A → Exec E W B → Exec E W B
  m >> n = m >>= λ _. n

module _ {ℓ} {E F W A : Type ℓ} where
  -- `map_err` on a call.
  unfoldable pub or_fail : (E → F) → Exec E W A → Exec F W A
  or_fail g m w = let (r, w') = m w in (map_err g r, w')

  -- A call whose result is matched on.
  unfoldable pub attempt : Exec E W A → Exec F W (Result E A)
  attempt m w = let (r, w') = m w in (ok r, w')

-- What a successful chain went through.
module _ {ℓ κ} {E W A B : Type ℓ} {P : Type κ} where
  continue-elim :
      (m : Exec E W A) (f : A → Exec E W B) (w v u : W) (r : Result E A) {b : B}
      → m w ≡ (r, v)
      → continue r f v ≡ (ok b, u)
      → ((a : A) (v : W) → m w ≡ (ok a, v) → f a v ≡ (ok b, u) → P)
      → P
  continue-elim m f w v u (ok a) e h k = k a v e h
  continue-elim m f w v u (err x) e h k = cc

  pub exec-elim :
      (m : Exec E W A) (f : A → Exec E W B) (w u : W) {b : B}
      → (m >>= f) w ≡ (ok b, u)
      → ((a : A) (v : W) → m w ≡ (ok a, v) → f a v ≡ (ok b, u) → P)
      → P
  unfolding ◌>>=◌
  exec-elim m f w u h k = continue-elim m f w (m w).1 u (m w).0 refl h k

module _ {ℓ κ} {E W A : Type ℓ} {P : Type κ} where
  pub lift-elim :
      (r : Result E A) (w v : W) {a : A} → lift r w ≡ (ok a, v) → (r ≡ ok a → w ≡ v → P) → P
  unfolding lift
  lift-elim r w v e k = k (λ i. (e i).0) (λ i. (e i).1)

  pub pure-elim : (x : A) (w v : W) {a : A} → pure {E = E} x w ≡ (ok a, v) → (x ≡ a → w ≡ v → P) → P
  unfolding pure
  pure-elim x w v {a} e k =
      let same : ◌≡◌ {A = Result E A} (ok x) (ok a) = λ i. (e i).0 in
      k (ok-injective same) (λ i. (e i).1)

pub raise-ne-ok {ℓ} : {E W A : Type ℓ} (x : E) (w v : W) {a : A} → raise {A = A} x w ≡ (ok a, v) → ⊥
unfolding raise
raise-ne-ok {E} {W} {A} x w v {a} e =
    let bad : ◌≡◌ {A = Result E A} (err x) (ok a) = λ i. (e i).0 in err-ne-ok bad

module _ {ℓ κ} {E W A B : Type ℓ} {P : Type κ} where
  -- A pure step leaves the world.
  pub lift-bind-elim :
      (r : Result E A) (f : A → Exec E W B) (w u : W) {b : B}
      → (lift r >>= f) w ≡ (ok b, u)
      → ((a : A) → r ≡ ok a → f a w ≡ (ok b, u) → P)
      → P
  unfolding ◌>>=◌
  lift-bind-elim (ok a) f w u h k = k a refl h
  lift-bind-elim (err e) f w u h k = cc

pub attempt-eq {ℓ} :
    {E F W A : Type ℓ} (m : Exec E W A) (w v : W) {r : Result E A}
    → attempt {F = F} m w ≡ (ok r, v)
    → m w ≡ (r, v)
unfolding attempt
attempt-eq {E} {F} {W} {A} m w v {r} e =
    let same : ◌≡◌ {A = Result F (Result E A)} (ok (m w).0) (ok r) = λ i. (e i).0 in
    λ i. (ok-injective same i, (e i).1)

pub or_fail-eq {ℓ} :
    {E F W A : Type ℓ} (g : E → F) (m : Exec E W A) (w v : W) {a : A}
    → or_fail g m w ≡ (ok a, v)
    → m w ≡ (ok a, v)
unfolding or_fail
or_fail-eq g m w v e = λ i. (map_err-eq-ok g (m w).0 (λ j. (e j).0) i, (e i).1)
