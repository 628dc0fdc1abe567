-- ===== src/Service/Config.antt =====
-- crates/stop/src/config.rs: the guard on the gateway's configuration, a check of lines. A `usize` has
-- 64 bits, and so has the product of seconds and 1000, which wraps in a release build.
pub mod Lines
pub mod Guarded
use tactiq_attest.Base.{
  ℕ, ◌*◌, ◌%◌, ◌^◌, Bytes, Bool, true, false, not, ◌&&◌, ◌||◌, List, [], ◌∷◌, Option, none, some,
  codes, bytes_eq, Result, ok, err, ok_or, ◌==◌, leb, ltb, refuse_if, ◌>>=◌, ◌>>◌, if◌then◌else◌,
}
use tactiq_attest.Messages.{
  Message, R, inline_yaml, setting_missing, setting_twice, not_one_ext_authz, other_target,
  failure_mode_open, not_one_body, partial_allowed, timeout_low, timeout_bad, max_not_number,
  max_range,
}
use tactiq_attest.Service.Text.{contains, split, parse_u64, strip_suffix}
use tactiq_attest.Service.Http.{body_max, split_once}
use tactiq_attest.TpmAccess.{lines, trim}

abbrev pub min_timeout_ms : ℕ
min_timeout_ms = 3000

is_quote : ℕ → Bool
is_quote b = b == b'"' || b == 39

-- `trim_matches(is_quote)`, from the front and from the back.
quote_front : Bytes → Bytes
quote_front [] = []
quote_front (b ∷ bs) = let rest = quote_front bs in if is_quote b then rest else b ∷ bs

quote_back : Bytes → Bytes
quote_back [] = []
quote_back (b ∷ bs) = elim (quote_back bs) [
  | [] ↦ if is_quote b then [] else b ∷ []
  | c ∷ cs ↦ b ∷ c ∷ cs
]

norm : Bytes → Bytes
norm v = trim (quote_back (quote_front (trim v)))

-- `trim_start_matches("- ")`
trim_dashes : Bytes → Bytes
trim_dashes [] = []
trim_dashes (b ∷ []) = b ∷ []
trim_dashes (b ∷ (c ∷ bs)) =
    let rest = trim_dashes bs in if b == b'-' && c == b' ' then rest else b ∷ (c ∷ bs)

-- What stands in front of a comment.
uncommented : List Bytes → Bytes
uncommented [] = []
uncommented (l ∷ _) = l

pub entry : Bytes → Option (Bytes × Bytes)
entry l = elim (split_once b':' (trim (trim_dashes (trim (uncommented (split b'#' l)))))) [
  | none ↦ none
  | some (k, v) ↦ some (trim k, norm v)
]

entries_of : List Bytes → List (Bytes × Bytes)
entries_of [] = []
entries_of (l ∷ ls) = elim (entry l) [ none ↦ entries_of ls | some kv ↦ kv ∷ entries_of ls ]

pub entries : Bytes → List (Bytes × Bytes)
entries text = entries_of (lines text)

-- The values of a key.
pub all : List (Bytes × Bytes) → Bytes → List Bytes
all [] k = []
all ((key, v) ∷ e) k = let rest = all e k in if bytes_eq key k then v ∷ rest else rest

-- The match of `one`.
only : Bytes → List Bytes → R Bytes
only k [] = err (setting_missing k)
only k (v ∷ []) = ok v
only k (_ ∷ (_ ∷ _)) = err (setting_twice k)

one : List (Bytes × Bytes) → Bytes → R Bytes
one e k = only k (all e k)

is_single : List Bytes → Bool
is_single [] = false
is_single (_ ∷ []) = true
is_single (_ ∷ (_ ∷ _)) = false

seconds : Option ℕ → Option ℕ
seconds none = none
seconds (some s) = some (s * 1000 % 2 ^ 64)

pub parse_duration_ms : Bytes → Option ℕ
parse_duration_ms v = elim (strip_suffix (codes "ms") v) [
  | some n ↦ parse_u64 (trim n)
  | none ↦ elim (strip_suffix (codes "s") v) [ some n ↦ seconds (parse_u64 (trim n)) | none ↦ none ]
]

-- The match on the timeout.
long_enough : Bytes → Option ℕ → R (Unit {0})
long_enough t none = err (timeout_bad t)
long_enough t (some ms) = if leb min_timeout_ms ms then ok tt else err (timeout_low ms)

check_timeout : Bytes → R (Unit {0})
check_timeout t = long_enough t (parse_duration_ms t)

pub check_gateway_config : Bytes → Bytes → R (Unit {0})
check_gateway_config text listen = do
  refuse_if (contains b'{' text) inline_yaml
  let e = entries text
  refuse_if (not (is_single (all e (codes "extAuthz")))) not_one_ext_authz
  host ← one e (codes "host")
  refuse_if (not (bytes_eq host listen)) (other_target listen)
  mode ← one e (codes "failureMode")
  refuse_if (not (bytes_eq mode (codes "deny"))) failure_mode_open
  t ← one e (codes "requestTimeout")
  check_timeout t
  refuse_if (not (is_single (all e (codes "includeRequestBody")))) not_one_body
  max ← one e (codes "maxRequestBytes")
  n ← ok_or (max_not_number max) (parse_u64 max)
  refuse_if (n == 0 || ltb body_max n) (max_range n)
  partial ← one e (codes "allowPartialMessage")
  refuse_if (not (bytes_eq partial (codes "false"))) partial_allowed

-- Named on the line of a test, opens what this module keeps shut.
unfoldable pub computing_config : Unit {0}
unfolding is_quote quote_front quote_back norm trim_dashes uncommented entry entries_of entries all
    only one is_single seconds parse_duration_ms long_enough check_timeout check_gateway_config
computing_config = tt
