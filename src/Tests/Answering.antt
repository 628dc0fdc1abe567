-- ===== src/Tests/Answering.antt =====
-- The answers and the operator commands of crates/stop/src/main.rs on a model chip.
use tactiq_attest.Base.{Bytes, List, [], ◌∷◌, ◌≡◌, ◌↔◌, refl, ok, codes, computing}
use tactiq_attest.Messages.{Message}
use tactiq_attest.Envelope.{computing_envelope}
use tactiq_attest.Envelope.Bundle.{computing_bundle}
use tactiq_attest.Wire.{computing_wire}
use tactiq_attest.Stop.Record.{computing_record}
use tactiq_attest.Stop.Reader.{computing_reader}
use tactiq_attest.Stop.NvCertify.{computing_nv_certify}
use tactiq_attest.Stop.Receipt.{computing_receipt}
use tactiq_attest.Stop.Certify.{computing_certify}
use tactiq_attest.Service.Text.{computing_text}
use tactiq_attest.Service.Release.{computing_release}
use tactiq_attest.Service.Release.Exact.{text}
use tactiq_attest.Service.Effects.{◌>>=◌, pure, raise, lift, attempt, or_fail}
use tactiq_attest.Service.Core.{Transition, allow, refuse, admit, computing_core}
use tactiq_attest.Service.Core.Moves.{trip, recover, computing_moves}
use tactiq_attest.Service.Http.{Event, chunk, late, computing_http}
use tactiq_attest.Service.Front.{
  handle, code_of, calls_refused, calls_pass, cmd_trip, cmd_recover, hex_decode, computing_front,
}
use tactiq_attest.Service.Front.Deny.{IsAllowed}
use tactiq_attest.Service.Front.Confirm.{
  handle-IsAllowed, served, probe_digest, trip_confirmed, recover_confirmed,
}
use tactiq_attest.Tests.Stopping.{hash, ecdsa, Chip, tpm, lift_stop, ctx, released, stopped_chip}
use tactiq_attest.Tests.Requests.{call}

-- Opens everything that an answer goes through.
unfoldable answering_all : Unit {0}
unfolding computing computing_envelope computing_bundle computing_wire computing_record
    computing_reader computing_nv_certify computing_receipt computing_certify computing_text
    computing_release computing_core computing_moves computing_http computing_front served ◌>>=◌
    pure raise lift attempt or_fail text
answering_all = tt

abbrev silent : Message → Bytes
silent m = []

abbrev calls : List Event
calls = chunk call ∷ []

handle-IsAllowed_example :
    IsAllowed hash ecdsa Chip silent tpm ctx calls released
      (handle hash ecdsa Chip silent tpm ctx calls released).1
unfolding answering_all
handle-IsAllowed_example = handle-IsAllowed hash ecdsa Chip silent tpm ctx calls released refl

late_call : code_of (handle hash ecdsa Chip silent tpm ctx (late ∷ []) released).0 ≡ codes "400"
unfolding answering_all
late_call = refl

two_bytes : hex_decode (codes "00fF") ≡ ok (0 ∷ 255 ∷ [])
unfolding answering_all
two_bytes = refl

abbrev tripped : Chip
tripped = record released { counter = 3 }

trip_confirmed_example :
    (cmd_trip Chip (served hash ecdsa Chip silent tpm ctx) (ok tt) tpm released
      ≡ (ok calls_refused, tripped))
    ↔ ((t : Transition) × (x : Chip) × (receipt : Bytes) × (trip Chip tpm released ≡ (ok t, x))
        × (admit hash ecdsa Chip tpm ctx (probe_digest hash ecdsa Chip silent tpm ctx) x
            ≡ (ok (refuse receipt), tripped)))
trip_confirmed_example = trip_confirmed hash ecdsa Chip silent tpm ctx released tripped

abbrev lifted : Chip
lifted = record stopped_chip { counter = 4 }

lifted_confirmed :
    cmd_recover Chip
      (served hash ecdsa Chip silent tpm ctx)
      ecdsa
      (ok lift_stop)
      (ok tt)
      tpm
      stopped_chip
    ≡ (ok calls_pass, lifted)
unfolding answering_all
lifted_confirmed = refl

recover_confirmed_example :
    (cmd_recover Chip
        (served hash ecdsa Chip silent tpm ctx)
        ecdsa
        (ok lift_stop)
        (ok tt)
        tpm
        stopped_chip
      ≡ (ok calls_pass, lifted))
    ↔ ((t : Transition) × (x : Chip) × (recover ecdsa Chip tpm lift_stop stopped_chip ≡ (ok t, x))
        × (admit hash ecdsa Chip tpm ctx (probe_digest hash ecdsa Chip silent tpm ctx) x
            ≡ (ok allow, lifted)))
recover_confirmed_example =
    recover_confirmed hash ecdsa Chip silent tpm ctx lift_stop stopped_chip lifted
