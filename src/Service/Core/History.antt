-- ===== src/Service/Core/History.antt =====
-- The stop service of crates/stop/src/core.rs over time: its operations in any order and with any
-- outcome, between whatever else happens to the counter and to the release files.
use tactiq_attest.Base.{ℕ, ◌%◌, ◌≤◌, ◌<◌, Bytes, ◌≡◌, ok, arith}
use tactiq_attest.Crypto.{Ecdsa}
use tactiq_attest.Stop.Record.{State}
use tactiq_attest.Service.Port.{StopTpm}
use tactiq_attest.Service.Release.Exact.{IsSigned}
use tactiq_attest.Service.Core.{Ctx, Transition, allow, admit, status_answer}
use tactiq_attest.Service.Core.Gating.{admit_sound}
use tactiq_attest.Service.Core.Moves.{trip, settle, recover}
use tactiq_attest.Service.Core.Moves.Laws.{epoch_of, trip_sound, Went-low}
use tactiq_attest.Service.Core.Moves.Growth.{recover-Grows, trip-Grows, settle-Grows}
use tactiq_attest.Service.Core.Counter.{Grows, IsCounter}
use tactiq_attest.Service.Core.Counter.Operations.{admit-Grows, status_answer-Grows}

module _ (sha256 : Bytes → Bytes) (ecdsa : Ecdsa) (W : Type 0) (tpm : StopTpm W) (ctx : Ctx ecdsa W)
    (value : W → ℕ) where
  pub data Step (w : W) : W → Type 0 where
    admits : (digest : Bytes) → Step w (admit sha256 ecdsa W tpm ctx digest w).1
    answers : (nonce : Bytes) → Step w (status_answer sha256 ecdsa W tpm ctx nonce w).1
    trips : Step w (trip W tpm w).1
    settles : (want : State) → Step w (settle W tpm want w).1
    recovers : Step w (recover ecdsa W tpm ctx.lift_stop w).1
    -- the rest of the system: files replaced at will, the counter incremented
    elsewhere : {v : W} → value w ≤ value v → Step w v

  pub data Later (w : W) : W → Type 0 where
    now : Later w w
    then_later : {v u : W} → Later w v → Step v u → Later w u

  module _ (counts : IsCounter W tpm ctx.lift_stop.release value) where
    Step-le : {w v : W} → Step w v → value w ≤ value v
    unfolding Grows
    Step-le {w} (admits digest) = admit-Grows sha256 ecdsa ctx counts digest w
    Step-le {w} (answers nonce) = status_answer-Grows sha256 ecdsa ctx counts nonce w
    Step-le {w} trips = trip-Grows ecdsa ctx.lift_stop counts w
    Step-le {w} (settles want) = settle-Grows ecdsa ctx.lift_stop counts want w
    Step-le {w} recovers = recover-Grows ecdsa ctx.lift_stop counts w
    Step-le (elsewhere h) = h

    -- Over any sequence of the service's operations, whatever their outcome, and of outside
    -- changes that do not take the counter back, the counter does not go back.
    pub Later-le : {w v : W} → Later w v → value w ≤ value v
    Later-le now = omega arith
    Later-le (then_later before step) =
        let h = Later-le before in let k = Step-le step in omega arith

    -- After a trip that succeeds, at whatever later time (any operations of the service with any
    -- outcome, any change of the release files and any increment of the counter in between), a
    -- call is let through only if the operator has signed a release of this device for an even
    -- counter beyond the one that the trip ended on. The counter is assumed not to go back, and a
    -- read to give a value it has had during the call.
    pub trip_outlasts :
        (w v u x : W) (t : Transition) (digest : Bytes)
        → trip W tpm w ≡ (ok t, v)
        → Later v u
        → admit sha256 ecdsa W tpm ctx digest u ≡ (ok allow, x)
        → (counter : ℕ) × (epoch_of t < counter)
          × (counter % 2 ≡ 0)
          × (signature : Bytes) × IsSigned ecdsa ctx.lift_stop.operator_key signature
              ctx.lift_stop.device_id counter
    trip_outlasts w v u x t digest tripped later allowed =
        let (odd, _, went) = trip_sound W tpm w v t tripped in
        let (counter, y, read, opened) = admit_sound sha256 ecdsa W tpm ctx digest u x allowed in
        let before = Went-low W tpm counts w v t went in
        let meantime = Later-le later in
        let after = counts.read_low u y counter read in
        let even : counter % 2 ≡ 0 = opened.even in
        (counter, omega arith, even, opened.signature, opened.signed)
