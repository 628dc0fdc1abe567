-- ===== src/Base/Results.antt =====
-- Results with an error value, as the source's `Result<T, String>`.
use mathlib.Core.Path.{◌≡◌, refl}
use mathlib.Core.Bool.{Bool, true, false, not}
use mathlib.Core.List.{[], ◌∷◌}
use Prim.Native.Nat.{ℕ}
use native.Mathlib.Omega.{arith}
use tactiq_attest.Base.Tests.{◌==◌}
use tactiq_attest.Base.Lists.{Bytes, length}
use mathlib.Core.Option.{Option, none, some}

pub data Result {ℓ κ} (E : Type ℓ) (A : Type κ) : Type (ℓ ⊔ κ) where
  ok : A → Result E A
  err : E → Result E A

infixl 5 ◌>>=◌ ◌>>◌
abbrev pub ◌>>=◌ {ℓ κ μ} :
    {E : Type ℓ} {A : Type κ} {B : Type μ} → Result E A → (A → Result E B) → Result E B
ok a >>= f = f a
err e >>= f = err e

abbrev pub ◌>>◌ {ℓ κ} : {E : Type ℓ} {B : Type κ} → Result E (Unit {0}) → Result E B → Result E B
m >> k = m >>= λ _. k

-- `if test { return Err(e) }`
abbrev pub refuse_if {ℓ} : {E : Type ℓ} → Bool → E → Result E (Unit {0})
refuse_if true e = err e
refuse_if false e = ok tt

abbrev pub map_err {ℓ κ μ} :
    {E : Type ℓ} {F : Type κ} {A : Type μ} → (E → F) → Result E A → Result F A
map_err g (ok a) = ok a
map_err g (err e) = err (g e)

abbrev pub ok_or {ℓ κ} : {E : Type ℓ} {A : Type κ} → E → Option A → Result E A
ok_or e (some a) = ok a
ok_or e none = err e

-- What a successful chain went through.
module _ {ℓ} {E : Type ℓ} where
  pub bind-eq-ok {κ μ} :
      {A : Type κ} {B : Type μ} (m : Result E A) (f : A → Result E B) {b : B}
      → (m >>= f) ≡ ok b
      → (a : A) × (m ≡ ok a) × (f a ≡ ok b)
  bind-eq-ok (ok a) f h = (a, refl, h)
  bind-eq-ok (err e) f h = cc

  pub pair-bind-eq-ok {κ μ ν} :
      {A : Type κ} {B : Type μ} {C : Type ν} (m : Result E (A × B)) (f : A × B → Result E C) {c : C}
      → (m >>= f) ≡ ok c
      → (a : A) × (b : B) × (m ≡ ok (a, b)) × (f (a, b) ≡ ok c)
  pair-bind-eq-ok (ok (a, b)) f h = (a, b, refl, h)
  pair-bind-eq-ok (err e) f h = cc

  -- The same, handing what was found to a continuation: chains of these stay small.
  pub then-elim {κ μ} :
      {B : Type κ} {P : Type μ} (m : Result E (Unit {0})) (f : Unit {0} → Result E B) {b : B}
      → (m >>= f) ≡ ok b
      → (m ≡ ok tt → f tt ≡ ok b → P)
      → P
  then-elim (ok u) f h k = k refl h
  then-elim (err e) f h k = cc

  pub bind-elim {κ μ ν} :
      {A : Type κ} {C : Type μ} {P : Type ν} (m : Result E A) (f : A → Result E C) {c : C}
      → (m >>= f) ≡ ok c
      → ((a : A) → m ≡ ok a → f a ≡ ok c → P)
      → P
  bind-elim (ok a) f h k = k a refl h
  bind-elim (err e) f h k = cc

  pub pair-elim {κ μ ν ξ} :
      {A : Type κ} {B : Type μ} {C : Type ν} {P : Type ξ} (m : Result E (A × B))
      (f : A × B → Result E C) {c : C}
      → (m >>= f) ≡ ok c
      → ((a : A) (b : B) → m ≡ ok (a, b) → f (a, b) ≡ ok c → P)
      → P
  pair-elim (ok (a, b)) f h k = k a b refl h
  pair-elim (err e) f h k = cc

  pub then-eq-ok {κ} :
      {B : Type κ} (t : Bool) (e : E) (k : Result E B) {b : B}
      → (refuse_if t e >> k) ≡ ok b
      → (t ≡ false) × (k ≡ ok b)
  then-eq-ok true e k h = cc
  then-eq-ok false e k h = (refl, h)

  pub ok_or-eq-ok {κ} : {A : Type κ} (e : E) (o : Option A) {a : A} → ok_or e o ≡ ok a → o ≡ some a
  ok_or-eq-ok e (some x) h = cc
  ok_or-eq-ok e none h = cc

pub map_err-eq-ok {ℓ κ μ} :
    {E : Type ℓ} {F : Type κ} {A : Type μ} (g : E → F) (r : Result E A) {a : A}
    → map_err g r ≡ ok a
    → r ≡ ok a
map_err-eq-ok g (ok x) h = cc
map_err-eq-ok g (err e) h = cc

pub ok-injective {ℓ κ} :
    {E : Type ℓ} {A : Type κ} {a b : A} → ◌≡◌ {A = Result E A} (ok a) (ok b) → a ≡ b
ok-injective e = cc

pub err-ne-ok {ℓ κ} :
    {E : Type ℓ} {A : Type κ} {e : E} {a : A} → ◌≡◌ {A = Result E A} (err e) (ok a) → ⊥
err-ne-ok e = cc

pub err-injective {ℓ κ} :
    {E : Type ℓ} {A : Type κ} {e f : E} → ◌≡◌ {A = Result E A} (err e) (err f) → e ≡ f
err-injective h = cc

-- What a passed guard says.
pub refuse_other {ℓ} : {E : Type ℓ} (n m : ℕ) (e : E) → refuse_if (not (n == m)) e ≡ ok tt → n ≡ m
refuse_other n m e h = ground arith

pub refuse_nonempty {ℓ} :
    {E : Type ℓ} (b : Bytes) (e : E) → refuse_if (not (length b == 0)) e ≡ ok tt → b ≡ []
refuse_nonempty [] e h = refl
refuse_nonempty (x ∷ b) e h = ground arith

pub refuse_unless {ℓ} : {E : Type ℓ} (b : Bool) (e : E) → refuse_if (not b) e ≡ ok tt → b ≡ true
refuse_unless true e h = refl
refuse_unless false e h = cc

pub refuse_when {ℓ} : {E : Type ℓ} (b : Bool) (e : E) → refuse_if b e ≡ ok tt → b ≡ false
refuse_when true e h = cc
refuse_when false e h = refl
