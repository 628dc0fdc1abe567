-- ===== src/Service/Port.antt =====
-- The traits of crates/stop/src/port.rs: what the service needs of the TPM and of the file system.
-- `W` is the world behind them, the chip and the files, which every call may change.
use tactiq_attest.Base.{ℕ, Bytes, Option}
use tactiq_attest.Messages.{Message}
use tactiq_attest.Service.Effects.{Exec}

pub record StopTpm (W : Type 0) : Type 0 where
  pub read_counter : Exec Message W ℕ
  pub increment : Exec Message W (Unit {0})
  -- the structure and its signature
  pub certify : Bytes → Exec Message W (Bytes × Bytes)
  pub pcr_read : Bytes → Exec Message W Bytes
  pub quote : Bytes → Bytes → Exec Message W (Bytes × Bytes)

pub record ReleaseStore (W : Type 0) : Type 0 where
  -- the record and its signature, or nothing
  pub read : Exec Message W (Option (Bytes × Bytes))
