-- ===== src/Base/BigEndian.antt =====
-- Big-endian numbers: `to_be_bytes` and `from_be_bytes` of the unsigned integer types.
use Prim.Native.Nat.{ℕ, zero, suc, ◌+◌, ◌*◌, ◌/◌, ◌%◌, ◌^◌, ◌<◌}
use mathlib.Core.Path.{◌≡◌, refl, ◌∙◌}
use mathlib.Core.List.{[], ◌∷◌, ◌++◌, append_assoc, append-nil}
use native.Mathlib.Omega.{arith}
use native.Mathlib.Nat.{pow-suc}
use tactiq_attest.Base.Lists.{Bytes, IsByte, length, All, length-append, All-append}

-- The `w` low bytes of `n`, highest first.
unfoldable pub to_be : ℕ → ℕ → Bytes
to_be zero n = []
to_be (suc w) n = to_be w (n / 256) ++ (n % 256 ∷ [])

abbrev pub from_be_acc : ℕ → Bytes → ℕ
from_be_acc a [] = a
from_be_acc a (b ∷ bs) = from_be_acc (a * 256 + b) bs

abbrev pub from_be : Bytes → ℕ
from_be = from_be_acc 0

pub length-to_be : (w n : ℕ) → length (to_be w n) ≡ w
unfolding to_be
length-to_be zero n = refl
length-to_be (suc w) n =
    omega (arith, length-append (to_be w (n / 256)) (n % 256 ∷ []), length-to_be w (n / 256))

pub to_be-IsByte : (w n : ℕ) → All IsByte (to_be w n)
unfolding to_be
to_be-IsByte zero n = tt
to_be-IsByte (suc w) n =
    All-append IsByte (to_be w (n / 256)) (n % 256 ∷ []) (to_be-IsByte w (n / 256)) (omega arith)

from_be_acc-append :
    (a : ℕ) (xs ys : Bytes) → from_be_acc a (xs ++ ys) ≡ from_be_acc (from_be_acc a xs) ys
from_be_acc-append a [] ys = refl
from_be_acc-append a (x ∷ xs) ys = from_be_acc-append (a * 256 + x) xs ys

-- Decoding what was encoded, for a number that fits.
pub from_be-to_be : (w n : ℕ) → n < 256 ^ w → from_be (to_be w n) ≡ n
unfolding to_be
from_be-to_be zero n h = omega arith
from_be-to_be (suc w) n h =
    from_be_acc-append 0 (to_be w (n / 256)) (n % 256 ∷ [])
    ∙ omega (arith, from_be-to_be w (n / 256) (omega (arith, pow-suc 256 w)))

to_be-from_be_acc :
    (bs : Bytes) (k a : ℕ)
    → All IsByte bs
    → to_be (length bs + k) (from_be_acc a bs) ≡ to_be k a ++ bs
unfolding to_be
to_be-from_be_acc [] k a h = let e : 0 + k ≡ k = omega arith in rw (e, append-nil)
to_be-from_be_acc (b ∷ bs) k a (p, h) =
    let e : suc (length bs) + k ≡ length bs + suc k = omega arith in
    let hi : (a * 256 + b) / 256 ≡ a = omega arith in
    let lo : (a * 256 + b) % 256 ≡ b = omega arith in
    rw e (to_be-from_be_acc bs (suc k) (a * 256 + b) h ∙ rw (hi, lo, append_assoc))

-- Encoding what was decoded, for bytes.
pub to_be-from_be : (w : ℕ) (bs : Bytes) → length bs ≡ w → All IsByte bs → to_be w (from_be bs) ≡ bs
to_be-from_be w bs e h =
    let l : w ≡ length bs + 0 = omega arith in
    rw l (to_be-from_be_acc bs 0 0 h ∙ (unfold to_be in refl))

from_be_acc-lt :
    (bs : Bytes) (k a : ℕ) → All IsByte bs → a < 256 ^ k → from_be_acc a bs < 256 ^ (length bs + k)
from_be_acc-lt [] k a h lt = let e : 0 + k ≡ k = omega arith in rw e lt
from_be_acc-lt (b ∷ bs) k a (p, h) lt =
    let e : suc (length bs) + k ≡ length bs + suc k = omega arith in
    rw e (from_be_acc-lt bs (suc k) (a * 256 + b) h (rw pow-suc (omega arith)))

-- A number read from `w` bytes fits `w` bytes.
pub from_be-lt : (w : ℕ) (bs : Bytes) → length bs ≡ w → All IsByte bs → from_be bs < 256 ^ w
from_be-lt w bs e h =
    let l : w ≡ length bs + 0 = omega arith in rw l (from_be_acc-lt bs 0 0 h (omega arith))
