-- ===== src/Service/Front.antt =====
-- crates/stop/src/main.rs: what the service answers on a connection (with `respond` of
-- crates/stop/src/http.rs), and the operator commands around the service's decisions.
pub mod Deny
pub mod Confirm
pub mod Define
use tactiq_attest.Base.{
  ℕ, ◌+◌, ◌*◌, ◌-◌, ◌/◌, ◌%◌, Bytes, Bool, true, false, ◌&&◌, ◌||◌, not, List, [], ◌∷◌, ◌++◌,
  Option, none, some, length, drop, slice, codes, bytes_eq, Result, ok, err, map_err, refuse_if,
  ◌==◌, leb, if◌then◌else◌,
}
use tactiq_attest.Base
use tactiq_attest.Messages.{
  Message, R, nonce_not_hex_digits, work_dir_missing, work_dir_unsafe, self_unknown, lock_held,
  lock_failed, define_arguments, still_answers_200, service_answered, now_stopped, now_even,
  state_unknown, probe_failed, bad_device_id, device_id_file, already_defined,
}
use tactiq_attest.Crypto.{Ecdsa}
use tactiq_attest.Stop.Record.{State, running, stopped}
use tactiq_attest.Stop.Certify.{request_digest}
use tactiq_attest.Service.Text.{all, to_string}
use tactiq_attest.Service.Effects.{Exec, pure, raise, lift, attempt, or_fail, ◌>>=◌, ◌>>◌}
use tactiq_attest.Service.Port.{StopTpm}
use tactiq_attest.Service.Core.{
  state_of, Lift, Ctx, Admission, allow, refuse, admit, Transition, TransitionError,
}
use tactiq_attest.Service.Core.Moves.{trip, recover, settle}
use tactiq_attest.Service.Http.{Request, Event, read_request}

pub record Answer : Type 0 where
  pub code : ℕ
  pub content_type : Bytes
  pub body : Bytes

abbrev crlf : Bytes
crlf = 13 ∷ 10 ∷ []

reason : ℕ → Bytes
reason code =
    if code == 200
    then codes "OK"
    else if code == 400
    then codes "Bad Request"
    else if code == 403
    then codes "Forbidden"
    else codes "Service Unavailable"

-- The bytes that `respond` writes.
pub response : Answer → Bytes
response a =
    codes "HTTP/1.1 "
    ++ (to_string a.code
        ++ (codes " "
            ++ (reason a.code
                ++ (crlf
                    ++ (codes "Content-Type: "
                        ++ (a.content_type
                            ++ (crlf
                                ++ (codes "Content-Length: "
                                    ++ (to_string (length a.body)
                                        ++ (crlf
                                            ++ (codes "Connection: close"
                                                ++ (crlf ++ (crlf ++ a.body)))))))))))))

-- The `match` on what `admit` gives.
pub answer_of : Result Message Admission → Answer
answer_of (ok allow) = record { code = 200; content_type = codes "text/plain"; body = [] }
answer_of (ok (refuse receipt)) = record {
  code = 403;
  content_type = codes "application/octet-stream";
  body = receipt;
}
answer_of (err e) = record {
  code = 503;
  content_type = codes "text/plain";
  body = codes "stop state unavailable";
}

-- The answer to a request that cannot be read: the text of the error.
pub bad_request : Bytes → Answer
bad_request text = record { code = 400; content_type = codes "text/plain"; body = text }

-- `text_of` is the text of an error.
module _ (sha256 : Bytes → Bytes) (ecdsa : Ecdsa) (W : Type 0) (text_of : Message → Bytes) where
  abbrev digest_of : Request → Bytes
  digest_of req = request_digest sha256 req.method req.path req.body

  -- The `match` on the request that was read.
  abbrev answer_to : StopTpm W → Ctx ecdsa W → R Request → W → Answer × W
  answer_to tpm ctx (err e) w = (bad_request (text_of e), w)
  answer_to tpm ctx (ok req) w =
      let (r, w') = admit sha256 ecdsa W tpm ctx (digest_of req) w in (answer_of r, w')

  pub answer : StopTpm W → Ctx ecdsa W → List Event → W → Answer × W
  answer tpm ctx es w = answer_to tpm ctx (read_request es) w

  -- What is written on the connection.
  pub handle : StopTpm W → Ctx ecdsa W → List Event → W → Bytes × W
  handle tpm ctx es w = let (a, w') = answer tpm ctx es w in (response a, w')

abbrev pub is_hex_digit : ℕ → Bool
is_hex_digit b = leb b'0' b && leb b b'9' || (leb b'a' b && leb b b'f' || leb b'A' b && leb b b'F')

-- The value of a hex digit.
unfoldable pub hex_value : ℕ → ℕ
hex_value b = if leb b b'9' then b - b'0' else if leb b b'F' then b - b'A' + 10 else b - b'a' + 10

-- `from_str_radix(.., 16)` on each two digits.
unfoldable pub hex_pairs : Bytes → Bytes
hex_pairs [] = []
hex_pairs (a ∷ []) = []
hex_pairs (a ∷ (b ∷ s)) = (hex_value a * 16 + hex_value b) ∷ hex_pairs s

unfoldable pub hex_decode : Bytes → R Bytes
hex_decode s =
    if not (all is_hex_digit s) || not (length s % 2 == 0)
    then err nonce_not_hex_digits
    else ok (hex_pairs s)

-- The metadata of the work directory.
pub record Metadata : Type 0 where
  pub is_dir : Bool
  pub uid : ℕ
  pub mode : ℕ

-- `mode & 0o022 != 0`, where the mode is cut to its permission bits.
abbrev others_write : ℕ → Bool
others_write mode = mode / 16 % 2 == 1 || mode / 2 % 2 == 1

-- The metadata of the directory and the caller's uid, as the file system gives them.
pub work_dir : R Metadata → R ℕ → R (Unit {0})
work_dir found self = Base.◌>>=◌ (map_err work_dir_missing found) λ md.
    Base.◌>>=◌ (map_err self_unknown self) λ me.
      refuse_if
        (not md.is_dir || (not (md.uid == me || (me == 0 || md.uid == 0)) || others_write md.mode))
        (work_dir_unsafe me md.uid md.mode)

-- What `try_lock` gives in one round of the loop, with the deadline before or behind.
pub data LockTry : Type 0 where
  taken : LockTry
  busy : LockTry
  busy_late : LockTry
  broken : Message → LockTry

pub admin_lock : List LockTry → R (Unit {0})
admin_lock [] = err lock_held
admin_lock (taken ∷ rest) = ok tt
admin_lock (busy ∷ rest) = admin_lock rest
admin_lock (busy_late ∷ rest) = err lock_held
admin_lock (broken e ∷ rest) = err (lock_failed e)

pub describe_failure : TransitionError → Message
describe_failure e = elim (e.now) [
  | some c ↦ elim (state_of c) [
    | stopped ↦ now_stopped e.message c
    | running ↦ now_even e.message c
  ]
  | none ↦ state_unknown e.message
]

-- What the probe of the running service showed.
pub data Confirmation : Type 0 where
  not_reachable calls_refused calls_pass : Confirmation

-- `out.get(9..12).unwrap_or(b"???")`: there are twelve bytes if there is one behind eleven.
pub code_of : Bytes → Bytes
code_of out = elim (drop 11 out) [ [] ↦ codes "???" | _ ∷ _ ↦ slice 9 12 out ]

pub confirm_code : State → Bytes → R Confirmation
confirm_code stopped c =
    if bytes_eq c (codes "403")
    then ok calls_refused
    else if bytes_eq c (codes "200")
    then err still_answers_200
    else err (service_answered c)
confirm_code running c =
    if bytes_eq c (codes "200") then ok calls_pass else err (service_answered c)

pub probe_request : Bytes
probe_request =
    codes "POST /tactiq-stop/probe HTTP/1.1"
    ++ (crlf ++ (codes "Content-Length: 0" ++ (crlf ++ crlf)))

-- `none` if nobody listens, else what was read to the end or the error of the socket.
pub confirm_through_service : State → Option (R Bytes) → R Confirmation
confirm_through_service want none = ok not_reachable
confirm_through_service want (some (err e)) = err (probe_failed e)
confirm_through_service want (some (ok out)) = confirm_code want (code_of out)

module _ (W : Type 0) (probe : W → Option (R Bytes) × W) where
  confirm_after : State → Result TransitionError Transition → Exec Message W Confirmation
  confirm_after want (err e) = raise (describe_failure e)
  confirm_after want (ok t) = λ w. let (o, w') = probe w in (confirm_through_service want o, w')

  -- `ready` is what the work directory, the lock and the check of the counter's attributes gave.
  pub admin : R (Unit {0}) → Exec TransitionError W Transition → State → Exec Message W Confirmation
  admin ready f want = do lift ready; t ← attempt f; confirm_after want t

  pub cmd_trip : R (Unit {0}) → StopTpm W → Exec Message W Confirmation
  cmd_trip ready tpm = admin ready (trip W tpm) stopped

  -- The lift holds the device id and the operator's key, or the error of reading them.
  pub cmd_recover :
      (ecdsa : Ecdsa) → R (Lift ecdsa W) → R (Unit {0}) → StopTpm W → Exec Message W Confirmation
  cmd_recover ecdsa (err e) ready tpm = raise e
  cmd_recover ecdsa (ok l) ready tpm = admin ready (recover ecdsa W tpm l) running

-- The arguments of `define`.
pub define_wants : List Bytes → R State
define_wants [] = ok stopped
define_wants (flag ∷ (v ∷ [])) =
    if bytes_eq flag (codes "--initial") && bytes_eq v (codes "stopped")
    then ok stopped
    else if bytes_eq flag (codes "--initial") && bytes_eq v (codes "running")
    then ok running
    else err define_arguments
define_wants _ = err define_arguments

-- Named on the line of a test, opens what this module keeps shut.
unfoldable pub computing_front : Unit {0}
unfolding reason response answer_of bad_request answer handle hex_value hex_pairs hex_decode
    work_dir admin_lock describe_failure code_of confirm_code probe_request confirm_through_service
    confirm_after admin cmd_trip cmd_recover define_wants
computing_front = tt
