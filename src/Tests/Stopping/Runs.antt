-- ===== src/Tests/Stopping/Runs.antt =====
-- What the stop service of crates/stop does on a model chip.
use tactiq_attest.Base.{
  ℕ, ◌%◌, ◌^◌, ◌<◌, ◌≤◌, Bytes, [], ◌∷◌, ◌≡◌, refl, some, ok, err, replicate, codes, to_be, arith,
  computing,
}
use tactiq_attest.Messages.{Message, release_other_epoch}
use tactiq_attest.Envelope.{computing_envelope}
use tactiq_attest.Envelope.Bundle.{computing_bundle}
use tactiq_attest.Wire.{computing_wire}
use tactiq_attest.Stop.Record.{StopRecord, stopped, refusal, computing_record}
use tactiq_attest.Stop.Reader.{computing_reader}
use tactiq_attest.Stop.NvCertify.{computing_nv_certify}
use tactiq_attest.Stop.Receipt.{computing_receipt}
use tactiq_attest.Stop.Certify.{computing_certify}
use tactiq_attest.Service.Text.{computing_text}
use tactiq_attest.Service.Release.{computing_release}
use tactiq_attest.Service.Release.Exact.{IsSigned, text}
use tactiq_attest.Service.Effects.{◌>>=◌, pure, raise, lift, attempt, or_fail}
use tactiq_attest.Service.Core.{
  unreleased, gate, changed, already_there, allow, refuse, admit, status_answer, sign, record_of,
  computing_core,
}
use tactiq_attest.Service.Core.Gating.{IsOpen, admit_sound}
use tactiq_attest.Service.Core.Signing.{record_of-sign}
use tactiq_attest.Service.Core.Moves.{recover, target_of, no_lift, computing_moves}
use tactiq_attest.Service.Core.Moves.Laws.{IsOneStep, Went, trip_sound}
use tactiq_attest.Service.Core.Moves.Recovery.{recover_sound, recover_refused}
use tactiq_attest.Service.Core.History.{
  Later, now, then_later, recovers, elsewhere, Later-le, trip_outlasts,
}
use tactiq_attest.Tests.Stopping.{
  hash, ecdsa, Chip, tpm, lift_stop, ctx, released, stopped_chip, unreleased_chip, counts,
  read_counter_ok,
}

-- Opens everything that a run of the service goes through.
unfoldable running_all : Unit {0}
unfolding computing computing_envelope computing_bundle computing_wire computing_record
    computing_reader computing_nv_certify computing_receipt computing_certify computing_text
    computing_release computing_core computing_moves ◌>>=◌ pure raise lift attempt or_fail text
    to_be
running_all = tt

released_allows : admit hash ecdsa Chip tpm ctx (replicate 32 1) released ≡ (ok allow, released)
unfolding running_all
released_allows = refl

unreleased_is_shut :
    gate ecdsa Chip lift_stop 4 unreleased_chip
    ≡ (ok (unreleased (release_other_epoch 2 4)), unreleased_chip)
unfolding running_all
unreleased_is_shut = refl

abbrev refusal_record : StopRecord
refusal_record = record {
  kind = refusal (replicate 32 1);
  state = stopped;
  stop_epoch = 3;
  policy_digest = replicate 32 9;
}

stopped_refuses :
    (receipt : Bytes) × (admit hash ecdsa Chip tpm ctx (replicate 32 1) stopped_chip
      ≡ (ok (refuse receipt), stopped_chip))
unfolding running_all
stopped_refuses = (_, refl)

admit_sound_example :
    (counter : ℕ) × (u : Chip) × (tpm.read_counter released ≡ (ok counter, u))
    × IsOpen ecdsa Chip lift_stop counter u released
admit_sound_example =
    admit_sound hash ecdsa Chip tpm ctx (replicate 32 1) released released released_allows

trip_sound_example :
    (3 % 2 ≡ 1)
    × IsOneStep stopped (changed 2 3)
    × Went Chip tpm released (record released { counter = 3 }) (changed 2 3)
unfolding running_all
trip_sound_example =
    trip_sound Chip tpm released (record released { counter = 3 }) (changed 2 3) refl

abbrev lifted_chip : Chip
lifted_chip = record stopped_chip { counter = 4 }

recover_sound_example :
    (from : ℕ) × (u x : Chip) × (tpm.read_counter stopped_chip ≡ (ok from, u))
    × IsOpen ecdsa Chip lift_stop (target_of ecdsa Chip tpm from) u x
    × (4 % 2 ≡ 0)
unfolding running_all
recover_sound_example =
    recover_sound ecdsa Chip tpm lift_stop stopped_chip lifted_chip (changed 3 4) refl

refused_recovery :
    (why : Message) × (recover ecdsa Chip tpm lift_stop unreleased_chip
      ≡ (err (no_lift ecdsa Chip tpm 4 why), unreleased_chip))
unfolding running_all
refused_recovery =
    recover_refused ecdsa Chip tpm lift_stop 4 (ok (unreleased (release_other_epoch 2 4)))
      unreleased_chip unreleased_chip unreleased_chip refl refl (λ e. cc)

refusal_signed :
    (receipt : Bytes) × (sign hash ecdsa Chip tpm ctx refusal_record [] stopped_chip
      ≡ (ok receipt, stopped_chip))
unfolding running_all
refusal_signed = (_, refl)

record_of-sign_example : record_of (refusal_signed.0) ≡ ok refusal_record
record_of-sign_example =
    record_of-sign hash ecdsa Chip tpm ctx refusal_record [] (refusal_signed.0) stopped_chip
      stopped_chip
      (record { stop_epoch = omega arith; policy_digest = refl; request_digest = λ d e. cc })
      (refusal_signed.1)

read_three : (u : Chip) (n : ℕ) → tpm.read_counter stopped_chip ≡ (ok n, u) → n < 2 ^ 64
read_three u n e = let (same, _) = read_counter_ok stopped_chip u n e in omega arith

answered :
    (receipt : Bytes) × (status_answer hash ecdsa Chip tpm ctx (replicate 16 6) stopped_chip
      ≡ (ok receipt, stopped_chip))
unfolding running_all
answered = (_, refl)

abbrev value : Chip → ℕ
value c = c.counter

-- Stopped at 3, the operator recovers to 4, another host takes the counter to 6 and the files there
-- are replaced by a release for 6.
abbrev at_six : Chip
at_six = record { counter = 6; files = some (text (codes "d1") 6, 5 ∷ []) }

recovered_then : Later hash ecdsa Chip tpm ctx value stopped_chip at_six
unfolding running_all
recovered_then =
    let lifted : Later hash ecdsa Chip tpm ctx value stopped_chip lifted_chip =
      then_later now recovers in
    then_later lifted (elsewhere (omega arith))

never_back : 3 ≤ 6
never_back = Later-le hash ecdsa Chip tpm ctx value counts recovered_then

trip_outlasts_example :
    (counter : ℕ) × (3 < counter)
    × (counter % 2 ≡ 0)
    × (signature : Bytes) × IsSigned ecdsa tt signature (codes "d1") counter
unfolding running_all
trip_outlasts_example =
    trip_outlasts hash ecdsa Chip tpm ctx value counts stopped_chip stopped_chip at_six at_six
      (already_there 3) (replicate 32 1) refl recovered_then refl
