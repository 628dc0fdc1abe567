-- ===== src/Tests/Requests.antt =====
-- crates/stop/src/http.rs on concrete requests.
use tactiq_attest.Base.{
  Bytes, List, [], ◌∷◌, ◌++◌, ◌≡◌, ◌↔◌, refl, some, ok, err, length, replicate, codes, computing,
  slice, map, arith,
}
use tactiq_attest.Messages.{head_too_long}
use tactiq_attest.Service.Text.{computing_text}
use tactiq_attest.Service.Http.{Request, chunk, closed, late, parse, read_request, computing_http}
use tactiq_attest.Service.Http.Parsing.{IsRequest, parse_exact}
use tactiq_attest.Service.Http.Reading.{joined, IsRead, read_request_complete, read_request_sound}
use tactiq_attest.Service.Http.Splits.{split_decides}

-- Opens everything that a request goes through.
unfoldable requests_all : Unit {0}
unfolding computing computing_text computing_http
requests_all = tt

abbrev crlf : Bytes
crlf = 13 ∷ 10 ∷ []

abbrev pub call : Bytes
call =
    codes "POST /mcp HTTP/1.1"
    ++ (crlf ++ (codes "Content-Length: 2" ++ (crlf ++ (crlf ++ codes "{}"))))

abbrev called : Request
called = record { method = codes "POST"; path = codes "/mcp"; body = codes "{}" }

call_parsed : parse call ≡ ok (some (called, 43))
unfolding requests_all
call_parsed = refl

abbrev long_call : Bytes
long_call = codes "GET /" ++ (replicate 16370 b'a' ++ (codes " HTTP/1.1" ++ (crlf ++ crlf)))

abbrev long_called : Request
long_called = record { method = codes "GET"; path = b'/' ∷ replicate 16370 b'a'; body = [] }

parse_exact_example : (parse call ≡ ok (some (called, 43))) ↔ IsRequest call called 43
parse_exact_example = parse_exact call called 43

called_at : IsRequest call called (length call)
unfolding requests_all
called_at = record {
  head_end = 37;
  found = refl;
  head_bound = omega arith;
  head = refl;
  body_at = refl;
  used_is = refl;
  used_bound = omega arith;
  body_bound = omega arith;
}

abbrev two_reads : List Bytes
two_reads = slice 0 20 call ∷ slice 20 43 call ∷ []

read_request_complete_example : read_request (map chunk two_reads ++ (closed ∷ [])) ≡ ok called
unfolding computing called_at joined
read_request_complete_example =
    read_request_complete call called called_at (omega arith) two_reads (closed ∷ []) refl
      (omega arith, (omega arith, tt))

read_request_sound_example : IsRead [] (chunk call ∷ late ∷ []) called
unfolding requests_all
read_request_sound_example = read_request_sound (chunk call ∷ late ∷ []) called refl

-- The head of this request takes 16 KiB with its mark not counted.
long_request : IsRequest long_call long_called (length long_call)
unfolding requests_all
long_request = record {
  head_end = 16384;
  found = refl;
  head_bound = omega arith;
  head = refl;
  body_at = refl;
  used_is = refl;
  used_bound = omega arith;
  body_bound = omega arith;
}

-- Four full reads of 4096 bytes.
abbrev full_reads : List Bytes
full_reads =
    slice 0 4096 long_call
    ∷ slice 4096 8192 long_call
    ∷ slice 8192 12288 long_call
    ∷ slice 12288 16384 long_call
    ∷ []

split_decides_example :
    (read_request (map chunk full_reads ++ (chunk (crlf ++ crlf) ∷ [])) ≡ ok long_called)
    × (read_request
          (map chunk (full_reads ++ (slice 16384 16387 long_call ∷ [])) ++ (chunk (10 ∷ []) ∷ []))
        ≡ err head_too_long)
unfolding requests_all long_request joined
split_decides_example =
    split_decides long_call long_called long_request full_reads
      (full_reads ++ (slice 16384 16387 long_call ∷ [])) (crlf ++ crlf) (10 ∷ []) []
      (chunk (10 ∷ []) ∷ []) (omega arith) refl (omega arith) (omega arith) refl refl
