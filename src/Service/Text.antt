-- ===== src/Service/Text.antt =====
-- The string functions of the Rust library that crates/stop/src/release.rs uses, over bytes.
pub mod Laws
use tactiq_attest.Base.{
  ℕ, zero, suc, ◌+◌, ◌-◌, ◌*◌, ◌/◌, ◌%◌, ◌^◌, Bytes, Bool, true, false, ◌&&◌, ◌||◌, not, List, [],
  ◌∷◌, ◌++◌, Option, none, some, ltb, leb, ◌==◌, bytes_eq, if◌then◌else◌,
}

abbrev pub newline : ℕ
newline = 10

-- `bytes.all(p)`
unfoldable pub all : (ℕ → Bool) → Bytes → Bool
all p [] = true
all p (b ∷ bs) = p b && all p bs

unfoldable pub contains : ℕ → Bytes → Bool
contains c [] = false
contains c (b ∷ bs) = b == c || contains c bs

-- `is_ascii` of a string, and `is_ascii_graphic` of a byte.
abbrev pub is_ascii : Bytes → Bool
is_ascii = all (λ b. ltb b 128)

abbrev pub is_ascii_graphic : ℕ → Bool
is_ascii_graphic b = leb 33 b && leb b 126

pub strip_prefix : Bytes → Bytes → Option Bytes
strip_prefix [] s = some s
strip_prefix (p ∷ ps) [] = none
strip_prefix (p ∷ ps) (b ∷ bs) = let rest = strip_prefix ps bs in if b == p then rest else none

-- `strip_suffix(c)` for one character.
pub strip_last : ℕ → Bytes → Option Bytes
strip_last c [] = none
strip_last c (b ∷ []) = if b == c then some [] else none
strip_last c (b ∷ (b' ∷ bs)) = elim (strip_last c (b' ∷ bs)) [
  | none ↦ none
  | some front ↦ some (b ∷ front)
]

-- `strip_suffix(s)` for a string.
unfoldable pub strip_suffix : Bytes → Bytes → Option Bytes
strip_suffix suffix [] = if bytes_eq [] suffix then some [] else none
strip_suffix suffix (b ∷ bs) =
    if bytes_eq (b ∷ bs) suffix
    then some []
    else elim (strip_suffix suffix bs) [ none ↦ none | some front ↦ some (b ∷ front) ]

abbrev push_front : ℕ → List Bytes → List Bytes
push_front b [] = (b ∷ []) ∷ []
push_front b (l ∷ ls) = (b ∷ l) ∷ ls

-- `split(c)`: the pieces between the separators, one more than there are separators.
pub split : ℕ → Bytes → List Bytes
split c [] = [] ∷ []
split c (b ∷ bs) = let rest = split c bs in if b == c then [] ∷ rest else push_front b rest

-- The digits of a number, for `u64::to_string`: 20 digits hold every u64.
pub digits : ℕ → ℕ → Bytes
digits zero n = []
digits (suc fuel) n =
    let front = digits fuel (n / 10) in
    if ltb n 10 then (n + b'0') ∷ [] else front ++ ((n % 10 + b'0') ∷ [])

pub to_string : ℕ → Bytes
unfolding digits
to_string = digits 20

abbrev pub is_digit : ℕ → Bool
is_digit b = leb b'0' b && leb b b'9'

-- `checked_mul(10)` and `checked_add(digit)` over the rest of the digits.
parse_digits : ℕ → Bytes → Option ℕ
parse_digits n [] = some n
parse_digits n (b ∷ bs) =
    let n' = n * 10 + (b - b'0') in
    let rest = parse_digits n' bs in
    if not (is_digit b) then none else if ltb n' (2 ^ 64) then rest else none

-- `str::parse::<u64>`: an optional plus sign, then one digit at least.
pub parse_u64 : Bytes → Option ℕ
unfolding parse_digits
parse_u64 [] = none
parse_u64 (b ∷ bs) =
    if b == b'+'
    then elim bs [ [] ↦ none | d ∷ ds ↦ parse_digits 0 (d ∷ ds) ]
    else parse_digits 0 (b ∷ bs)

-- Named on the line of a test, opens what this module keeps shut.
unfoldable pub computing_text : Unit {0}
unfolding all contains strip_prefix strip_last strip_suffix split digits to_string parse_digits
    parse_u64
computing_text = tt
