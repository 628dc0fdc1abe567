-- ===== src/Service/Core/Counter.antt =====
-- The counter behind crates/stop/src/core.rs never goes back, whatever the service does with it.
pub mod Operations
use tactiq_attest.Base.{
  ℕ, ◌+◌, ◌%◌, ◌^◌, ◌≤◌, ◌<◌, Bytes, ◌≡◌, refl, Option, true, false, Bool, Result, ok, err, ◌==◌,
  not, if◌then◌else◌, arith,
}
use tactiq_attest.Messages.{Message}
use tactiq_attest.Service.Effects.{Exec, pure, raise, lift, ◌>>=◌, attempt, or_fail}
use tactiq_attest.Service.Port.{StopTpm, ReleaseStore}

module _ {W : Type 0} (value : W → ℕ) where
  -- A call that does not take the value back, also when it fails.
  unfoldable pub Grows : {E A : Type 0} → Exec E W A → Type 0
  Grows m = (w : W) → value w ≤ value (m w).1

-- What is relied on of a TPM counter that several hosts may increment: no call takes it back, and a
-- read gives a value that the counter has had during the call.
pub record IsCounter (W : Type 0) (tpm : StopTpm W) (store : ReleaseStore W) (value : W → ℕ)
    : Type 0 where
  pub read_low : (w v : W) (n : ℕ) → tpm.read_counter w ≡ (ok n, v) → value w ≤ n
  pub read_high : (w v : W) (n : ℕ) → tpm.read_counter w ≡ (ok n, v) → n ≤ value v
  pub read_grows : Grows value tpm.read_counter
  pub increment_grows : Grows value tpm.increment
  pub certify_grows : (q : Bytes) → Grows value (tpm.certify q)
  pub pcr_read_grows : (s : Bytes) → Grows value (tpm.pcr_read s)
  pub quote_grows : (q s : Bytes) → Grows value (tpm.quote q s)
  pub store_grows : Grows value store.read

module _ {W : Type 0} (value : W → ℕ) where
  pub pure-Grows : (E : Type 0) {A : Type 0} (a : A) → Grows value (pure {E = E} a)
  unfolding Grows pure
  pure-Grows E a w = ground arith

  pub raise-Grows : {E : Type 0} (A : Type 0) (e : E) → Grows value (raise {A = A} e)
  unfolding Grows raise
  raise-Grows A e w = ground arith

  pub lift-Grows : {E A : Type 0} (r : Result E A) → Grows value (lift r)
  unfolding Grows lift
  lift-Grows r w = ground arith

  pub if-Grows :
      {E A : Type 0} (b : Bool) (m n : Exec E W A)
      → Grows value m
      → Grows value n
      → Grows value (if b then m else n)
  if-Grows true m n g h = g
  if-Grows false m n g h = h

  pub attempt-Grows :
      {E : Type 0} (F : Type 0) {A : Type 0} (m : Exec E W A)
      → Grows value m
      → Grows value (attempt {F = F} m)
  unfolding Grows attempt
  attempt-Grows F m g w = g w

  pub or_fail-Grows :
      {E F A : Type 0} (f : E → F) (m : Exec E W A) → Grows value m → Grows value (or_fail f m)
  unfolding Grows or_fail
  or_fail-Grows f m g w = g w

  module _ {E A B : Type 0} where
    bind_on :
        (m : Exec E W A) (f : A → Exec E W B) (w : W) (r : Result E A)
        → (m w).0 ≡ r
        → Grows value m
        → ((a : A) → Grows value (f a))
        → value w ≤ value ((m >>= f) w).1
    unfolding Grows ◌>>=◌
    bind_on m f w (ok a) e g h = rw e (let first = g w in let rest = h a (m w).1 in omega arith)
    bind_on m f w (err x) e g h = rw e (g w)

    pub bind-Grows :
        (m : Exec E W A) (f : A → Exec E W B)
        → Grows value m
        → ((a : A) → Grows value (f a))
        → Grows value (m >>= f)
    unfolding Grows
    bind-Grows m f g h w = bind_on m f w (m w).0 refl g h
