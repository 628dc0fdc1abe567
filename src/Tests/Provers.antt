-- ===== src/Tests/Provers.antt =====
-- Device ids of crates/prover/src/state.rs: two of its tests, and the theorems at an id.
use tactiq_attest.Base.{Bytes, [], ◌∷◌, ◌≡◌, refl, true, false, ok, err, computing}
use tactiq_attest.Messages.{id_not_printable}
use tactiq_attest.Prover.{
  validate_id, line_of, written_id, read_id, partial, inspect, computing_prover,
}
use tactiq_attest.Prover.Ids.{read_id-written_id, pad_id_apart}

abbrev unit_a : Bytes
unit_a = b'A' ∷ b'1' ∷ []

abbrev spaced : Bytes
spaced = b'A' ∷ 32 ∷ b'1' ∷ []

unit_a_passes : validate_id unit_a ≡ ok tt
unfolding computing computing_prover
unit_a_passes = refl

spaced_fails : validate_id spaced ≡ err (id_not_printable spaced)
unfolding computing computing_prover
spaced_fails = refl

half : inspect true false ≡ partial true false
unfolding computing_prover
half = refl

written : written_id unit_a ≡ ok (line_of unit_a)
unfolding computing computing_prover
written = refl

read_back : read_id (line_of unit_a) ≡ ok unit_a
read_back = read_id-written_id unit_a (line_of unit_a) written

same_unit : unit_a ≡ unit_a
same_unit = pad_id_apart unit_a unit_a unit_a_passes unit_a_passes refl
