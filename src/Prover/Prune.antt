-- ===== src/Prover/Prune.antt =====
-- crates/prover/src/main.rs: which envelopes are removed so that at most `keep` remain
-- (`stems_to_prune`), from the names in the directory.
pub mod Oldest
use tactiq_attest.Base.{
  ℕ, ◌-◌, Bytes, Bool, true, false, ◌&&◌, ◌||◌, List, [], ◌∷◌, Option, none, some, length, take,
  bytes_eq, ltb, ◌==◌, if◌then◌else◌,
}
use tactiq_attest.Base.Sorting.{insert, sort, dedup}
use tactiq_attest.Appraise.Manifest.{digest_lt}
use tactiq_attest.Prover.Names.{stem_of}

abbrev pub Stem : Type 0
Stem = ℕ × Bytes

pub stem_lt : Stem → Stem → Bool
stem_lt (n, s) (m, t) = if n == m then digest_lt s t else ltb n m

abbrev pub same_stem : Stem → Stem → Bool
same_stem (n, s) (m, t) = n == m && bytes_eq s t

pub stems_of : List Bytes → List Stem
stems_of [] = []
stems_of (name ∷ names) =
    let rest = stems_of names in elim (stem_of name) [ none ↦ rest | some s ↦ s ∷ rest ]

pub names_of : List Stem → List Bytes
names_of [] = []
names_of ((n, s) ∷ xs) = s ∷ names_of xs

-- The stems, each once, in order.
pub ordered_stems : List Bytes → List Stem
ordered_stems names = dedup same_stem (sort stem_lt (stems_of names))

pub stems_to_prune : List Bytes → ℕ → List Bytes
stems_to_prune names keep =
    let stems = ordered_stems names in names_of (take (length stems - keep) stems)

-- Named on the line of a test, opens what this module keeps shut.
unfoldable pub computing_prune : Unit {0}
unfolding digest_lt stem_lt stems_of insert sort dedup names_of ordered_stems stems_to_prune
computing_prune = tt
