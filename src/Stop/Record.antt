-- ===== src/Stop/Record.antt =====
-- The stop record of crates/attest-stop/src/lib.rs.
pub mod Exact
use tactiq_attest.Base.{
  ℕ, ◌+◌, Bytes, Bool, true, false, not, ◌||◌, List, [], ◌∷◌, ◌++◌, length, slice, byte_at, to_be,
  from_be, ok, err, ◌>>=◌, ◌>>◌, refuse_if, ◌==◌, ltb, if◌then◌else◌,
}
use tactiq_attest.Messages.{
  R, refusal_running, record_short, unknown_version, invalid_state, reserved_byte, status_length,
  refusal_length, invalid_kind, nonce_length,
}

abbrev pub stop_record_version : ℕ
stop_record_version = 1

abbrev pub head_len : ℕ
head_len = 1 + 1 + 1 + 1 + 8 + 32

abbrev pub status_len : ℕ
status_len = head_len

abbrev pub refusal_len : ℕ
refusal_len = head_len + 32

abbrev pub nonce_min : ℕ
nonce_min = 16

abbrev pub nonce_max : ℕ
nonce_max = 64

abbrev pub kind_refusal : ℕ
kind_refusal = 1

abbrev pub kind_status : ℕ
kind_status = 2

abbrev pub state_running : ℕ
state_running = 1

abbrev pub state_stopped : ℕ
state_stopped = 2

pub data State : Type 0 where
  running stopped : State

-- `to_byte` and `from_byte`.
pub state_to_byte : State → ℕ
state_to_byte running = state_running
state_to_byte stopped = state_stopped

pub state_from_byte : ℕ → R State
state_from_byte b =
    if b == state_running
    then ok running
    else if b == state_stopped
    then ok stopped
    else err (invalid_state b)

pub data Kind : Type 0 where
  refusal : Bytes → Kind
  status : Kind

pub record StopRecord : Type 0 where
  pub kind : Kind
  pub state : State
  pub stop_epoch : ℕ
  pub policy_digest : Bytes

abbrev kind_to_byte : Kind → ℕ
kind_to_byte (refusal request_digest) = kind_refusal
kind_to_byte status = kind_status

-- `matches!(self.kind, Kind::Refusal { .. }) && self.state == State::Running`
abbrev is_running_refusal : Kind → State → Bool
is_running_refusal (refusal request_digest) running = true
is_running_refusal (refusal request_digest) stopped = false
is_running_refusal status state = false

-- `if let Kind::Refusal { request_digest } = self.kind`
abbrev request_bytes : Kind → Bytes
request_bytes (refusal request_digest) = request_digest
request_bytes status = []

pub encode : StopRecord → R Bytes
encode r = do
  refuse_if (is_running_refusal r.kind r.state) refusal_running
  ok (
      stop_record_version
      ∷ kind_to_byte r.kind
      ∷ state_to_byte r.state
      ∷ 0
      ∷ (to_be 8 r.stop_epoch ++ (r.policy_digest ++ request_bytes r.kind)))

abbrev is_stopped : State → Bool
is_stopped running = false
is_stopped stopped = true

-- The `match body[1]` of `parse`.
parse_kind : Bytes → State → R Kind
parse_kind body state =
    if byte_at body 1 == kind_status
    then (do refuse_if (not (length body == status_len)) (status_length (length body)); ok status)
    else if byte_at body 1 == kind_refusal
    then (do
      refuse_if (not (length body == refusal_len)) (refusal_length (length body))
      refuse_if (not (is_stopped state)) refusal_running
      ok (refusal (slice head_len refusal_len body)))
    else err (invalid_kind (byte_at body 1))

pub parse : Bytes → R StopRecord
parse body = do
  refuse_if (ltb (length body) head_len) (record_short (length body))
  refuse_if (not (byte_at body 0 == stop_record_version)) (unknown_version (byte_at body 0))
  state ← state_from_byte (byte_at body 2)
  refuse_if (not (byte_at body 3 == 0)) (reserved_byte (byte_at body 3))
  kind ← parse_kind body state
  ok (record {
    kind = kind;
    state = state;
    stop_epoch = from_be (slice 4 12 body);
    policy_digest = slice 12 head_len body;
  })

pub check_nonce : Bytes → R (Unit {0})
check_nonce body =
    refuse_if (ltb (length body) nonce_min || ltb nonce_max (length body))
      (nonce_length (length body))

-- Named on the line of a test, opens what this module keeps shut.
unfoldable pub computing_record : Unit {0}
unfolding state_to_byte state_from_byte encode parse_kind parse check_nonce
computing_record = tt
