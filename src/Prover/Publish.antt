-- ===== src/Prover/Publish.antt =====
-- crates/prover/src/main.rs: `publish_envelope` as the operations that it asks the file system for. What
-- the system does is a parameter; as a log, the state is what was asked so far, the last
-- first, and whether it succeeded.
pub mod Safety
use tactiq_attest.Base.{
  ℕ, Bytes, Bool, true, false, ◌&&◌, ◌||◌, List, [], ◌∷◌, ◌++◌, codes, bytes_eq, Result, ok, err,
  if◌then◌else◌,
}
use tactiq_attest.Messages.{Message, R}
use tactiq_attest.Service.Effects.{Exec, raise, attempt, ◌>>=◌, ◌>>◌}
use tactiq_attest.Prover.Names.{ext_msg, ext_attest, ext_sig, ext_tag, fin_name, part_name}

-- Creating, writing and forcing a file to disk, moving and removing one, forcing a directory; and
-- the quote, which writes the attestation and the signature to two files.
pub data DiskOp : Type 0 where
  create : Bytes → DiskOp
  write : Bytes → Bytes → DiskOp
  sync : Bytes → DiskOp
  quote : Bytes → Bytes → DiskOp
  rename : Bytes → Bytes → DiskOp
  remove : Bytes → DiskOp
  sync_dir : Bytes → DiskOp

abbrev pub Log : Type 0
Log = List (DiskOp × Bool)

-- `out.join(name)`
abbrev pub join : Bytes → Bytes → Bytes
join out name = out ++ b'/' ∷ name

abbrev pub part : Bytes → Bytes → Bytes → Bytes
part out stem ext = join out (part_name stem ext)

abbrev pub fin : Bytes → Bytes → Bytes → Bytes
fin out stem ext = join out (fin_name stem ext)

-- `write_synced`
abbrev pub write_synced : Bytes → Bytes → List DiskOp
write_synced path content = create path ∷ write path content ∷ sync path ∷ []

module _ (out stem : Bytes) where
  abbrev pub staging : Bytes → Bytes → List DiskOp
  staging msg tag =
      write_synced (part out stem ext_msg) msg
      ++ (quote (part out stem ext_attest) (part out stem ext_sig)
          ∷ sync (part out stem ext_attest)
          ∷ sync (part out stem ext_sig)
          ∷ write_synced (part out stem ext_tag) tag)

  abbrev pub move : Bytes → DiskOp
  move ext = rename (part out stem ext) (fin out stem ext)

  abbrev pub publication : List DiskOp
  publication =
      move ext_msg
      ∷ move ext_attest
      ∷ move ext_sig
      ∷ sync_dir out
      ∷ move ext_tag
      ∷ sync_dir out
      ∷ []

  abbrev pub removals : List DiskOp
  removals =
      remove (part out stem ext_msg)
      ∷ remove (part out stem ext_attest)
      ∷ remove (part out stem ext_sig)
      ∷ remove (part out stem ext_tag)
      ∷ []

abbrev pub succeeded : R (Unit {0}) → Bool
succeeded (ok _) = true
succeeded (err _) = false

-- The answers of the system, and what was asked for before each.
pub logged : (Log → DiskOp → R (Unit {0})) → DiskOp → Exec Message Log (Unit {0})
logged answer op log = (answer log op, (op, succeeded (answer log op)) ∷ log)

module _ {W : Type 0} (disk : DiskOp → Exec Message W (Unit {0})) where
  -- One after the other, up to the first that fails.
  pub run_all : List DiskOp → Exec Message W (Unit {0})
  run_all [] w = (ok tt, w)
  run_all (op ∷ ops) w = elim (disk op w).0 [
    | ok _ ↦ run_all ops (disk op w).1
    | err e ↦ (err e, (disk op w).1)
  ]

  -- All of them, whatever the answers.
  pub try_all : List DiskOp → W → W
  try_all [] w = w
  try_all (op ∷ ops) w = try_all ops (disk op w).1

  pub finish_publish : Bytes → Bytes → R (Unit {0}) × W → R (Unit {0}) × W
  finish_publish out stem (err e, w) = (err e, try_all (removals out stem) w)
  finish_publish out stem (ok _, w) = run_all (publication out stem) w

  pub publish_envelope : Bytes → Bytes → Bytes → Bytes → Exec Message W (Unit {0})
  publish_envelope out stem msg tag w =
      finish_publish out stem (run_all (staging out stem msg tag) w)

-- Named on the line of a test, opens what this module keeps shut.
unfoldable pub computing_publish : Unit {0}
unfolding logged run_all try_all finish_publish publish_envelope
computing_publish = tt
