-- ===== src/Prover/Names.antt =====
-- The file names of an envelope in crates/prover/src/main.rs, and how they are read back.
pub mod Laws
use tactiq_attest.Base.{
  ℕ, Bytes, Bool, true, false, not, ◌&&◌, ◌||◌, List, [], ◌∷◌, ◌++◌, Option, none, some, codes,
  bytes_eq, ◌==◌, if◌then◌else◌,
}
use tactiq_attest.Service.Text.{all, is_digit, parse_u64, strip_suffix}

abbrev pub ext_msg : Bytes
ext_msg = codes "msg"

abbrev pub ext_attest : Bytes
ext_attest = codes "attest"

abbrev pub ext_sig : Bytes
ext_sig = codes "sig"

abbrev pub ext_tag : Bytes
ext_tag = codes "tag"

-- `{stem}.{ext}` and `{stem}.{ext}.part`
unfoldable pub fin_name : Bytes → Bytes → Bytes
fin_name stem ext = stem ++ b'.' ∷ ext

abbrev pub dot_part : Bytes
dot_part = codes ".part"

unfoldable pub part_name : Bytes → Bytes → Bytes
unfolding fin_name
part_name stem ext = fin_name stem ext ++ dot_part

-- `rsplit_once(c)`: at the last `c`.
pub rsplit_once : ℕ → Bytes → Option (Bytes × Bytes)
rsplit_once c [] = none
rsplit_once c (b ∷ bs) = elim (rsplit_once c bs) [
  | some (front, back) ↦ some (b ∷ front, back)
  | none ↦ if b == c then some ([], bs) else none
]

abbrev pub is_ext : Bytes → Bool
is_ext ext =
    bytes_eq ext ext_msg || bytes_eq ext ext_attest || bytes_eq ext ext_sig || bytes_eq ext ext_tag

no_bytes : Bytes → Bool
no_bytes [] = true
no_bytes (b ∷ bs) = false

pub all_digits : Bytes → Bool
unfolding no_bytes
all_digits stem = not (no_bytes stem) && all is_digit stem

-- The test of `remove_partials`.
pub is_part : Bytes → Bool
is_part name = elim (strip_suffix dot_part name) [
  | none ↦ false
  | some rest ↦ elim (rsplit_once b'.' rest) [
    | none ↦ false
    | some (stem, ext) ↦ is_ext ext && all_digits stem
  ]
]

numbered : Bytes → Option ℕ → Option (ℕ × Bytes)
numbered stem none = none
numbered stem (some n) = some (n, stem)

-- The name of an envelope's file, as `stems_to_prune` reads it: the number and the stem.
pub stem_of : Bytes → Option (ℕ × Bytes)
stem_of name = elim (rsplit_once b'.' name) [
  | none ↦ none
  | some (stem, ext) ↦
      if not (is_ext ext)
      then none
      else (if not (all_digits stem) then none else numbered stem (parse_u64 stem))
]

-- Named on the line of a test, opens what this module keeps shut.
unfoldable pub computing_names : Unit {0}
unfolding fin_name part_name rsplit_once no_bytes all_digits is_part numbered stem_of
computing_names = tt
