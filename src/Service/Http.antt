-- ===== src/Service/Http.antt =====
-- crates/stop/src/http.rs: one HTTP request, read and parsed.
pub mod Finding
pub mod Parsing
pub mod Reading
pub mod Splits
use tactiq_attest.Base.{
  ℕ, zero, suc, ◌+◌, ◌-◌, ◌*◌, ◌≤◌, Bytes, Bool, true, false, ◌&&◌, ◌||◌, not, List, [], ◌∷◌, ◌++◌,
  Option, none, some, length, take, drop, slice, codes, bytes_eq, map, Result, ok, err, ◌>>=◌, ◌>>◌,
  refuse_if, ok_or, ltb, leb, ◌==◌, if◌then◌else◌,
}
use mathlib.Core.List.{reverse}
use tactiq_attest.Messages.{
  Message, R, head_too_long, head_not_utf8, empty_request, bad_request_line, unsupported_version,
  bad_method, bad_header_line, bad_header_name, transfer_encoding, bad_content_length,
  conflicting_lengths, body_too_long, after_request, request_late, read_failed, closed_early,
  request_too_large,
}
use tactiq_attest.Service.Text.{all, split, is_ascii_graphic, is_digit, parse_u64}

abbrev pub head_max : ℕ
head_max = 16 * 1024

abbrev pub body_max : ℕ
body_max = 1024 * 1024

pub record Request : Type 0 where
  pub method : Bytes
  pub path : Bytes
  pub body : Bytes

-- `w == n` for the window at the front.
pub starts_with : Bytes → Bytes → Bool
starts_with [] h = true
starts_with (c ∷ n) [] = false
starts_with (c ∷ n) (b ∷ h) = b == c && starts_with n h

abbrev later : Option ℕ → Option ℕ
later none = none
later (some i) = some (suc i)

-- The position of the first window that is `n`.
pub find : Bytes → Bytes → Option ℕ
find [] n = none
find (b ∷ h) n = let rest = find h n in if starts_with n (b ∷ h) then some 0 else later rest

abbrev pub head_mark : Bytes
head_mark = 13 ∷ 10 ∷ 13 ∷ 10 ∷ []

-- What `str::from_utf8` looks for next: how many continuation bytes, and the bounds of the first.
record Expected : Type 0 where
  left : ℕ
  low : ℕ
  high : ℕ

abbrev rest_of_char : ℕ → Expected
rest_of_char n = record { left = n; low = 0x80; high = 0xbf }

abbrev within : ℕ → ℕ → ℕ → Bool
within lo hi b = leb lo b && leb b hi

first_byte : ℕ → Option Expected
first_byte b =
    if ltb b 0x80
    then some (rest_of_char 0)
    else if within 0xc2 0xdf b
    then some (rest_of_char 1)
    else if b == 0xe0
    then some (record { left = 2; low = 0xa0; high = 0xbf })
    else if b == 0xed
    then some (record { left = 2; low = 0x80; high = 0x9f })
    else if within 0xe1 0xef b
    then some (rest_of_char 2)
    else if b == 0xf0
    then some (record { left = 3; low = 0x90; high = 0xbf })
    else if within 0xf1 0xf3 b
    then some (rest_of_char 3)
    else if b == 0xf4
    then some (record { left = 3; low = 0x80; high = 0x8f })
    else none

utf8_step : Expected → ℕ → Option Expected
utf8_step e b =
    if e.left == 0
    then first_byte b
    else if within e.low e.high b
    then some (rest_of_char (e.left - 1))
    else none

utf8_from : Expected → Bytes → Bool
utf8_from e [] = e.left == 0
utf8_from e (b ∷ bs) = elim (utf8_step e b) [ none ↦ false | some e' ↦ utf8_from e' bs ]

pub is_utf8 : Bytes → Bool
is_utf8 = utf8_from (rest_of_char 0)

abbrev push_front : ℕ → List Bytes → List Bytes
push_front b [] = (b ∷ []) ∷ []
push_front b (l ∷ ls) = (b ∷ l) ∷ ls

-- `split("\r\n")`
pub split_lines : Bytes → List Bytes
split_lines [] = [] ∷ []
split_lines (b ∷ []) = (b ∷ []) ∷ []
split_lines (b ∷ (c ∷ bs)) =
    let after = split_lines bs in
    let on = split_lines (c ∷ bs) in if b == 13 && c == 10 then [] ∷ after else push_front b on

-- `split_once(c)`
pub split_once : ℕ → Bytes → Option (Bytes × Bytes)
split_once c [] = none
split_once c (b ∷ bs) =
    let rest = split_once c bs in
    if b == c then some ([], bs) else elim rest [ none ↦ none | some (k, v) ↦ some (b ∷ k, v) ]

abbrev is_blank : ℕ → Bool
is_blank b = b == b' ' || b == 9

trim_start : Bytes → Bytes
trim_start [] = []
trim_start (b ∷ bs) = let rest = trim_start bs in if is_blank b then rest else b ∷ bs

-- `trim_matches` of spaces and tabs.
trim : Bytes → Bytes
trim v = reverse (trim_start (reverse (trim_start v)))

is_upper : ℕ → Bool
is_upper b = leb b'A' b && leb b b'Z'

lower : ℕ → ℕ
lower b = if is_upper b then b + 32 else b

eq_ignore_ascii_case : Bytes → Bytes → Bool
eq_ignore_ascii_case a b = bytes_eq (map lower a) (map lower b)

-- The method and the path of the request line.
request_line : Bytes → List Bytes → R (Bytes × Bytes)
request_line line (method ∷ (path ∷ (version ∷ []))) = do
  refuse_if (not (bytes_eq version (codes "HTTP/1.1")) && not (bytes_eq version (codes "HTTP/1.0")))
      (unsupported_version version)
  refuse_if (length method == 0 || not (all is_upper method)) (bad_method method)
  ok (method, path)
request_line line _ = err (bad_request_line line)

-- `length.is_some_and(|m| m != n)`
abbrev conflicts : Option ℕ → ℕ → Bool
conflicts none n = false
conflicts (some m) n = not (m == n)

content_length : Option ℕ → Bytes → R (Option ℕ)
content_length seen v = do
  refuse_if (length v == 0 || (ltb 8 (length v) || not (all is_digit v))) (bad_content_length v)
  n ← ok_or (bad_content_length v) (parse_u64 v)
  refuse_if (conflicts seen n) conflicting_lengths
  ok (some n)

-- The body of the loop over the header lines.
header : Option ℕ → Bytes → R (Option ℕ)
header seen l = do
  (k, v) ← ok_or (bad_header_line l) (split_once b':' l)
  refuse_if (length k == 0 || not (all is_ascii_graphic k)) (bad_header_name k)
  refuse_if (eq_ignore_ascii_case k (codes "transfer-encoding")) transfer_encoding
  if eq_ignore_ascii_case k (codes "content-length") then content_length seen (trim v) else ok seen

headers : Option ℕ → List Bytes → R (Option ℕ)
headers seen [] = ok seen
headers seen (l ∷ ls) = do seen' ← header seen l; headers seen' ls

-- `length.unwrap_or(0)`
abbrev or_zero : Option ℕ → ℕ
or_zero none = 0
or_zero (some n) = n

head_lines : List Bytes → R (Bytes × Bytes × ℕ)
head_lines [] = err empty_request
head_lines (line ∷ lines) = do
  (method, path) ← request_line line (split b' ' line)
  seen ← headers none lines
  refuse_if (ltb body_max (or_zero seen)) (body_too_long (or_zero seen))
  ok (method, path, or_zero seen)

-- The head: method, path and length of the body.
pub parse_head : Bytes → R (Bytes × Bytes × ℕ)
parse_head head = do refuse_if (not (is_utf8 head)) head_not_utf8; head_lines (split_lines head)

-- What follows the head that ends at `head_end`.
pub parse_at : Bytes → ℕ → R (Option (Request × ℕ))
parse_at buf head_end = do
  refuse_if (ltb head_max head_end) head_too_long
  (method, path, n) ← parse_head (take head_end buf)
  let start = head_end + 4
  if ltb (length buf) (start + n)
      then ok none
      else ok (
          some (
            record { method = method; path = path; body = slice start (start + n) buf },
            start + n,
          ))

abbrev parse_found : Bytes → Option ℕ → R (Option (Request × ℕ))
parse_found buf (some head_end) = parse_at buf head_end
parse_found buf none = do refuse_if (ltb head_max (length buf)) head_too_long; ok none

pub parse : Bytes → R (Option (Request × ℕ))
parse buf = parse_found buf (find buf head_mark)

-- What the loop of `read_request` meets before and in one `read`: bytes, the end of the stream, an
-- error of the socket, or the deadline.
pub data Event : Type 0 where
  chunk : Bytes → Event
  closed : Event
  failed : Message → Event
  late : Event

-- The loop: what is parsed of the bytes so far, or the next event. A stream on which nothing more
-- happens runs into the deadline.
abbrev pub whole_request : Bytes → Request × ℕ → R Request
whole_request buf (req, used) =
    if not (used == length buf) then err (after_request (length buf - used)) else ok req

abbrev or_next : Bytes → R (Option (Request × ℕ)) → R Request → R Request
or_next buf (err e) next = err e
or_next buf (ok (some found)) next = whole_request buf found
or_next buf (ok none) next = next

pub read_from : Bytes → List Event → R Request
read_from buf [] = or_next buf (parse buf) (err request_late)
read_from buf (late ∷ es) = or_next buf (parse buf) (err request_late)
read_from buf (failed e ∷ es) = or_next buf (parse buf) (err (read_failed e))
read_from buf (closed ∷ es) = or_next buf (parse buf) (err closed_early)
read_from buf (chunk bytes ∷ es) =
    let rest = read_from (buf ++ bytes) es in
    or_next buf (parse buf) (
      if ltb (head_max + body_max + 4) (length (buf ++ bytes)) then err request_too_large else rest)

pub read_request : List Event → R Request
read_request = read_from []

-- Named on the line of a test, opens what this module keeps shut.
unfoldable pub computing_http : Unit {0}
unfolding starts_with find first_byte utf8_step utf8_from is_utf8 split_lines split_once trim_start
    trim is_upper lower eq_ignore_ascii_case request_line content_length header headers head_lines
    parse_head parse_at parse read_from read_request
computing_http = tt
