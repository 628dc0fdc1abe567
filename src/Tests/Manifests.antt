-- ===== src/Tests/Manifests.antt =====
-- The composites of crates/attest-appraise/src/rim.rs for two slots.
use tactiq_attest.Base.{Bytes, List, [], ◌∷◌, ◌++◌, ◌≡◌, ◌↔◌, refl, none, some, Member, computing}
use tactiq_attest.Appraise.Manifest.{
  PcrValues, any, by_slot, name_slots, slot_names, composites, computing_manifest,
}
use tactiq_attest.Appraise.Manifest.Exact.{OfSome}
use tactiq_attest.Appraise.Manifest.Total.{admitted_exact}

-- A digest that keeps what it digests.
abbrev plain : Bytes → Bytes
plain m = m

abbrev values : List PcrValues
values =
    any ((2 ∷ []) ∷ (1 ∷ []) ∷ [])
    ∷ by_slot ((b'A' ∷ [], 7 ∷ []) ∷ (b'B' ∷ [], 8 ∷ []) ∷ [])
    ∷ by_slot ((b'A' ∷ [], 5 ∷ []) ∷ (b'B' ∷ [], 6 ∷ []) ∷ [])
    ∷ []

abbrev slots : List Bytes
slots = (b'A' ∷ []) ∷ (b'B' ∷ []) ∷ []

abbrev admitted : List Bytes
admitted = (1 ∷ 7 ∷ 5 ∷ []) ∷ (1 ∷ 8 ∷ 6 ∷ []) ∷ (2 ∷ 7 ∷ 5 ∷ []) ∷ (2 ∷ 8 ∷ 6 ∷ []) ∷ []

two_slots : composites plain (some slots) values ≡ some admitted
unfolding computing computing_manifest
two_slots = refl

agreed_slots : name_slots none values ≡ some (some slots)
unfolding computing computing_manifest
agreed_slots = refl

other_slots : name_slots none (values ++ by_slot ((b'A' ∷ [], 5 ∷ []) ∷ []) ∷ []) ≡ none
unfolding computing computing_manifest
other_slots = refl

admitted_exact_example :
    (cs : List Bytes) × (composites plain (some slots) values ≡ some cs)
    × ((c : Bytes) → Member c cs ↔ OfSome plain values (slot_names (some slots)) c)
admitted_exact_example = admitted_exact plain values (some slots) agreed_slots
