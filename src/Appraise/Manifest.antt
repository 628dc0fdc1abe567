-- ===== src/Appraise/Manifest.antt =====
-- crates/attest-appraise/src/rim.rs: from the values of each PCR to the composites that a device can
-- present. The manifest's JSON text is read by another crate; what it gives is the argument here.
pub mod Composites
pub mod Slots
pub mod Exact
pub mod Total
use tactiq_attest.Base.{
  ℕ, ◌+◌, ◌/◌, ◌%◌, ◌^◌, Bytes, Bool, true, false, List, [], ◌∷◌, ◌++◌, Option, none, some,
  bytes_eq, ◌&&◌, ltb, ◌==◌, if◌then◌else◌,
}
use tactiq_attest.Base.Sorting.{insert, sort, dedup}
use tactiq_attest.Appraise.Gate1.{has_bit}
use tactiq_attest.Appraise.Reference.{PcrSelection, ReferenceSet, new}

-- A set of values, or one value for each slot.
pub data PcrValues : Type 0 where
  any : List Bytes → PcrValues
  by_slot : List (Bytes × Bytes) → PcrValues

-- `m[s]`, which panics if there is no such key.
pub lookup : Bytes → List (Bytes × Bytes) → Option Bytes
lookup s [] = none
lookup s ((k, v) ∷ m) = let rest = lookup s m in if bytes_eq k s then some v else rest

-- The values of one PCR in a slot; `none` is a panic.
pub column : Option Bytes → PcrValues → Option (List Bytes)
column slot (any ds) = some ds
column (some s) (by_slot m) = elim (lookup s m) [ none ↦ none | some v ↦ some (v ∷ []) ]
column none (by_slot m) = none

pub columns : Option Bytes → List PcrValues → Option (List (List Bytes))
columns slot [] = some []
columns slot (p ∷ ps) = elim (column slot p) [
  | none ↦ none
  | some col ↦ elim (columns slot ps) [ none ↦ none | some cols ↦ some (col ∷ cols) ]
]

pub keys : List (Bytes × Bytes) → List Bytes
keys [] = []
keys ((k, v) ∷ m) = k ∷ keys m

same_names : List Bytes → List Bytes → Bool
same_names [] [] = true
same_names (x ∷ xs) (y ∷ ys) = bytes_eq x y && same_names xs ys
same_names _ _ = false

-- The slots after a PCR that names these; `none` is a refusal.
agree : Option (List Bytes) → List Bytes → Option (List Bytes)
agree slots [] = none
agree none (n ∷ ns) = some (n ∷ ns)
agree (some s) (n ∷ ns) = if same_names s (n ∷ ns) then some s else none

-- The slots that the loop over the PCRs ends with.
pub name_slots : Option (List Bytes) → List PcrValues → Option (Option (List Bytes))
name_slots slots [] = some slots
name_slots slots (any ds ∷ ps) = name_slots slots ps
name_slots slots (by_slot m ∷ ps) = elim (agree slots (keys m)) [
  | none ↦ none
  | some s ↦ name_slots (some s) ps
]

append_each : Bytes → List Bytes → List Bytes
append_each pre [] = []
append_each pre (d ∷ ds) = (pre ++ d) ∷ append_each pre ds

-- One round of the loop over the columns.
extend : List Bytes → List Bytes → List Bytes
extend [] col = []
extend (pre ∷ pres) col = append_each pre col ++ extend pres col

pub combos : List Bytes → List (List Bytes) → List Bytes
combos acc [] = acc
combos acc (col ∷ cols) = combos (extend acc col) cols

-- The order of two digests.
unfoldable pub digest_lt : Bytes → Bytes → Bool
digest_lt [] [] = false
digest_lt [] (b ∷ bs) = true
digest_lt (a ∷ as') [] = false
digest_lt (a ∷ as') (b ∷ bs) = let rest = digest_lt as' bs in if a == b then rest else ltb a b

-- `sort_unstable`
abbrev pub sort_digests : List Bytes → List Bytes
sort_digests = sort digest_lt

abbrev pub dedup_digests : List Bytes → List Bytes
dedup_digests = dedup bytes_eq

pub hashes : (Bytes → Bytes) → List Bytes → List Bytes
hashes sha256 [] = []
hashes sha256 (c ∷ cs) = sha256 c ∷ hashes sha256 cs

-- The loop over the slots.
of_slots : (Bytes → Bytes) → List (Option Bytes) → List PcrValues → Option (List Bytes)
of_slots sha256 [] per_pcr = some []
of_slots sha256 (slot ∷ slots) per_pcr = elim (columns slot per_pcr) [
  | none ↦ none
  | some cols ↦ elim (of_slots sha256 slots per_pcr) [
    | none ↦ none
    | some rest ↦ some (hashes sha256 (combos ([] ∷ []) cols) ++ rest)
  ]
]

abbrev somes : List Bytes → List (Option Bytes)
somes [] = []
somes (s ∷ ss) = some s ∷ somes ss

-- `slot_names`: the slots, or one round without a slot.
abbrev pub slot_names : Option (List Bytes) → List (Option Bytes)
slot_names (some slots) = somes slots
slot_names none = none ∷ []

pub composites : (Bytes → Bytes) → Option (List Bytes) → List PcrValues → Option (List Bytes)
composites sha256 slots per_pcr = elim (of_slots sha256 (slot_names slots) per_pcr) [
  | none ↦ none
  | some cs ↦ some (dedup_digests (sort_digests cs))
]

-- Named on the line of a test, opens what this module keeps shut.
unfoldable pub computing_manifest : Unit {0}
unfolding lookup column columns keys same_names agree name_slots append_each extend combos digest_lt
    insert sort dedup hashes of_slots composites
computing_manifest = tt
