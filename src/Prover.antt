-- ===== src/Prover.antt =====
-- crates/prover/src/state.rs: the device id beside the attestation key, as the texts that are written
-- and read. The files and their decoding are left to the operating system; of Unicode only ASCII white
-- space is trimmed.
pub mod Ids
pub mod Counter
pub mod Names
pub mod Publish
pub mod Prune
pub mod Attest
use tactiq_attest.Base.{
  ℕ, ◌+◌, ◌/◌, ◌%◌, ◌^◌, Bytes, Bool, true, false, ◌&&◌, not, List, [], ◌∷◌, ◌++◌, length, Result,
  ok, err, ◌>>=◌, ◌>>◌, refuse_if, leb, ltb, ◌==◌, if◌then◌else◌,
}
use tactiq_attest.Base
use tactiq_attest.Messages.{Message, R, id_empty, id_too_long, id_not_printable}
use tactiq_attest.Envelope.{device_id_len}
use tactiq_attest.Service.Text.{is_ascii_graphic}
use tactiq_attest.TpmAccess.{trim}

pub data Provisioning : Type 0 where
  complete absent : Provisioning
  partial : Bool → Bool → Provisioning

pub inspect : Bool → Bool → Provisioning
inspect true true = complete
inspect false false = absent
inspect have_id have_key = partial have_id have_key

pub all_graphic : Bytes → Bool
all_graphic [] = true
all_graphic (b ∷ bs) = is_ascii_graphic b && all_graphic bs

has_no_bytes : Bytes → Bool
has_no_bytes [] = true
has_no_bytes (b ∷ bs) = false

pub validate_id : Bytes → R (Unit {0})
validate_id id =
    refuse_if (has_no_bytes id) id_empty
    >> (refuse_if (ltb device_id_len (length id)) (id_too_long id (length id))
        >> refuse_if (not (all_graphic id)) (id_not_printable id))

-- What `write_id` leaves in the file.
abbrev pub line_of : Bytes → Bytes
line_of id = id ++ 10 ∷ []

-- `write_id` on an id, up to the file: the text that it writes.
pub written_id : Bytes → R Bytes
written_id id = validate_id id >> ok (line_of id)

-- `read_id` on the text of the file.
pub read_id : Bytes → R Bytes
read_id raw = let id = trim raw in validate_id id >> ok id

-- Named on the line of a test, opens what this module keeps shut.
unfoldable pub computing_prover : Unit {0}
unfolding inspect all_graphic has_no_bytes validate_id written_id read_id
computing_prover = tt
