-- ===== src/Stop/Record/Exact.antt =====
-- Encoding and parsing stop records (crates/attest-stop/src/lib.rs) are inverse to one another.
use tactiq_attest.Base.{
  ℕ, ◌^◌, ◌<◌, ◌≤◌, ◌+◌, Bytes, IsByte, All, [], ◌∷◌, ◌++◌, ◌≡◌, refl, sym, ap, ◌∙◌, false, length,
  slice, drop, to_be, from_be, ok, to_be-from_be, length-slice, All-slice, slice-append-drop,
  byte_at, arith, ltb, le→ltb, ok-injective, from_be-lt, drop-all, take-all, length-drop,
  slice-skip, slice-here, slice-all, from_be-to_be, length-append, length-to_be, ◌↔◌,
}
use tactiq_attest.Stop.Record.{
  StopRecord, Kind, refusal, status, State, running, stopped, encode, parse, parse_kind,
  state_to_byte, state_from_byte,
}

-- The widths of the fields, and an epoch of 64 bits.
pub record IsWellFormed (r : StopRecord) : Type 0 where
  pub stop_epoch : r.stop_epoch < 2 ^ 64
  pub policy_digest : length r.policy_digest ≡ 32
  pub request_digest : (d : Bytes) → r.kind ≡ refusal d → length d ≡ 32

parse_ok :
    (body : Bytes) (r : StopRecord)
    → parse body ≡ ok r
    → (44 ≤ length body)
      × (byte_at body 0 ≡ 1)
      × (state_from_byte (byte_at body 2) ≡ ok r.state)
      × (byte_at body 3 ≡ 0)
      × (parse_kind body r.state ≡ ok r.kind)
      × (r.stop_epoch ≡ from_be (slice 4 12 body))
      × (r.policy_digest ≡ slice 12 44 body)
unfolding parse
parse_ok body r e = ground arith

parse_kind_status :
    (body : Bytes) (state : State)
    → parse_kind body state ≡ ok status
    → (byte_at body 1 ≡ 2) × (length body ≡ 44)
unfolding parse_kind
parse_kind_status body state e = ground arith

parse_kind_refusal :
    (body d : Bytes) (state : State)
    → parse_kind body state ≡ ok (refusal d)
    → (byte_at body 1 ≡ 1) × (length body ≡ 76) × (state ≡ stopped) × (d ≡ slice 44 76 body)
unfolding parse_kind
parse_kind_refusal body d state e = ground arith

state_to_byte-from :
    (b : ℕ) (state : State) → state_from_byte b ≡ ok state → state_to_byte state ≡ b
unfolding state_from_byte state_to_byte
state_to_byte-from b state e = ground arith

state_from_byte-to : (state : State) → state_from_byte (state_to_byte state) ≡ ok state
unfolding state_from_byte state_to_byte
state_from_byte-to running = refl
state_from_byte-to stopped = refl

head4 :
    (body : Bytes)
    → 4 ≤ length body
    → byte_at body 0 ∷ byte_at body 1 ∷ byte_at body 2 ∷ byte_at body 3 ∷ drop 4 body ≡ body
unfolding byte_at drop
head4 [] h = absurd (omega arith)
head4 (a ∷ []) h = absurd (omega arith)
head4 (a ∷ b ∷ []) h = absurd (omega arith)
head4 (a ∷ b ∷ c ∷ []) h = absurd (omega arith)
head4 (a ∷ b ∷ c ∷ d ∷ t) h = refl

-- The bytes of a record, given its kind byte and the request digest or nothing.
abbrev layout : ℕ → State → ℕ → Bytes → Bytes → Bytes
layout kind state epoch policy request =
    1 ∷ kind ∷ state_to_byte state ∷ 0 ∷ (to_be 8 epoch ++ (policy ++ request))

module _ (body : Bytes) (h : All IsByte body) (r : StopRecord) (e : parse body ≡ ok r) where
  layout-body :
      (kind : ℕ) (request : Bytes)
      → byte_at body 1 ≡ kind
      → drop 44 body ≡ request
      → layout kind r.state r.stop_epoch r.policy_digest request ≡ body
  layout-body kind request ek er =
      let (long, version, state, reserved, _, epoch, policy) = parse_ok body r e in
      let wide : to_be 8 (from_be (slice 4 12 body)) ≡ slice 4 12 body =
        to_be-from_be 8 (slice 4 12 body) (length-slice 4 12 body (omega arith) (omega arith))
          (All-slice IsByte 4 12 body h) in
      let tail : to_be 8 r.stop_epoch ++ (r.policy_digest ++ request) ≡ drop 4 body =
        rw (epoch, policy, ← er, wide)
          (simp (
            slice-append-drop 12 44 body (omega arith),
            slice-append-drop 4 12 body (omega arith),
          )) in
      (λ i.
        sym version i
        ∷ sym ek i
        ∷ state_to_byte-from (byte_at body 2) r.state state i
        ∷ sym reserved i
        ∷ tail i)
      ∙ head4 body (omega arith)

encode-layout_status :
    (state : State) (epoch : ℕ) (policy : Bytes)
    → encode (record { kind = status; state = state; stop_epoch = epoch; policy_digest = policy })
      ≡ ok (layout 2 state epoch policy [])
unfolding encode
encode-layout_status state epoch policy = refl

encode-layout_refusal :
    (d : Bytes) (epoch : ℕ) (policy : Bytes)
    → encode
        (record { kind = refusal d; state = stopped; stop_epoch = epoch; policy_digest = policy })
      ≡ ok (layout 1 stopped epoch policy d)
unfolding encode
encode-layout_refusal d epoch policy = refl

encode-parse_kind :
    (body : Bytes) (kind : Kind) (state : State) (epoch : ℕ) (policy : Bytes)
    → All IsByte body
    → parse body
      ≡ ok (record { kind = kind; state = state; stop_epoch = epoch; policy_digest = policy })
    → encode (record { kind = kind; state = state; stop_epoch = epoch; policy_digest = policy })
      ≡ ok body
encode-parse_kind body status state epoch policy h e =
    let (kind, n) = parse_kind_status body state (parse_ok body _ e).4 in
    encode-layout_status state epoch policy
    ∙ ap ok (layout-body body h _ e 2 [] kind (drop-all 44 body (sym n)))
encode-parse_kind body (refusal d) state epoch policy h e =
    let (kind, n, st, ed) = parse_kind_refusal body d state (parse_ok body _ e).4 in
    let rest : drop 44 body ≡ d =
      sym (take-all 32 (drop 44 body) (omega (arith, length-drop 44 body))) ∙ sym ed in
    ap
      (λ s.
        encode (record { kind = refusal d; state = s; stop_epoch = epoch; policy_digest = policy }))
      st
    ∙ encode-layout_refusal d epoch policy
    ∙ ap (λ s. ok (layout 1 s epoch policy d)) (sym st)
    ∙ ap ok (layout-body body h _ e 1 d kind rest)

-- A parsed stop record encodes to exactly the bytes it was parsed from.
pub encode-parse_record :
    (body : Bytes) (r : StopRecord) → All IsByte body → parse body ≡ ok r → encode r ≡ ok body
encode-parse_record body r h e =
    encode-parse_kind body r.kind r.state r.stop_epoch r.policy_digest h e

module _ (kind : ℕ) (state : State) (epoch : ℕ) (policy request : Bytes) (he : epoch < 2 ^ 64)
    (hp : length policy ≡ 32) where
  length-layout : length (layout kind state epoch policy request) ≡ 44 + length request
  length-layout = omega (
    arith,
    length-append (to_be 8 epoch) (policy ++ request),
    length-append policy request,
    length-to_be 8 epoch,
  )

  epoch-layout : from_be (slice 4 12 (layout kind state epoch policy request)) ≡ epoch
  epoch-layout =
      ap from_be (
        slice-skip 4 12 0 8 (1 ∷ kind ∷ state_to_byte state ∷ 0 ∷ []) _ (omega arith) (omega arith)
        ∙ slice-here 8 (to_be 8 epoch) _ (sym (length-to_be 8 epoch)))
      ∙ from_be-to_be 8 epoch he

  policy-layout : slice 12 44 (layout kind state epoch policy request) ≡ policy
  policy-layout =
      slice-skip 12 44 8 40 (1 ∷ kind ∷ state_to_byte state ∷ 0 ∷ []) _ (omega arith) (omega arith)
      ∙ slice-skip 8 40 0 32 (to_be 8 epoch) _ (omega (arith, length-to_be 8 epoch))
          (omega (arith, length-to_be 8 epoch))
      ∙ slice-here 32 policy request (sym hp)

  request-layout :
      length request ≡ 32 → slice 44 76 (layout kind state epoch policy request) ≡ request
  request-layout hr =
      slice-skip 44 76 40 72 (1 ∷ kind ∷ state_to_byte state ∷ 0 ∷ []) _ (omega arith) (omega arith)
      ∙ slice-skip 40 72 32 64 (to_be 8 epoch) _ (omega (arith, length-to_be 8 epoch))
          (omega (arith, length-to_be 8 epoch))
      ∙ slice-skip 32 64 0 32 policy request (omega arith) (omega arith)
      ∙ slice-all 32 request (sym hr)

  parse-layout :
      (k : Kind)
      → parse_kind (layout kind state epoch policy request) state ≡ ok k
      → parse (layout kind state epoch policy request)
        ≡ ok (record { kind = k; state = state; stop_epoch = epoch; policy_digest = policy })
  unfolding parse byte_at
  parse-layout k ek =
      let long : ltb (length (layout kind state epoch policy request)) 44 ≡ false =
        le→ltb _ _ (omega (arith, length-layout)) in
      rw (long, state_from_byte-to, ek)
        (λ i. ok (record {
          kind = k;
          state = state;
          stop_epoch = epoch-layout i;
          policy_digest = policy-layout i;
        }))

-- Only well-formed records with no running refusal are encoded.
encode_refusal_stopped :
    (d : Bytes) (state : State) (epoch : ℕ) (policy body : Bytes)
    → encode
        (record { kind = refusal d; state = state; stop_epoch = epoch; policy_digest = policy })
      ≡ ok body
    → state ≡ stopped
unfolding encode
encode_refusal_stopped d running epoch policy body e = cc
encode_refusal_stopped d stopped epoch policy body e = refl

parse_kind-status :
    (body : Bytes) (state : State)
    → byte_at body 1 ≡ 2
    → length body ≡ 44
    → parse_kind body state ≡ ok status
unfolding parse_kind
parse_kind-status body state hb hl = rw (hb, hl)

parse_kind-refusal :
    (body d : Bytes)
    → byte_at body 1 ≡ 1
    → length body ≡ 76
    → slice 44 76 body ≡ d
    → parse_kind body stopped ≡ ok (refusal d)
unfolding parse_kind
parse_kind-refusal body d hb hl hd = rw (hb, hl) (ap (λ t. ok (refusal t)) hd)

running-ne-stopped : running ≡ stopped → ⊥
running-ne-stopped e = cc

parse-encode_kind :
    (kind : Kind) (state : State) (epoch : ℕ) (policy body : Bytes)
    → IsWellFormed
        (record { kind = kind; state = state; stop_epoch = epoch; policy_digest = policy })
    → encode (record { kind = kind; state = state; stop_epoch = epoch; policy_digest = policy })
      ≡ ok body
    → parse body
      ≡ ok (record { kind = kind; state = state; stop_epoch = epoch; policy_digest = policy })
unfolding byte_at
parse-encode_kind status state epoch policy body w e =
    let same : layout 2 state epoch policy [] ≡ body =
      ok-injective (sym (encode-layout_status state epoch policy) ∙ e) in
    let k : parse_kind (layout 2 state epoch policy []) state ≡ ok status =
      parse_kind-status _ state refl
        (length-layout 2 state epoch policy [] w.stop_epoch w.policy_digest ∙ omega arith) in
    rw (← same) (parse-layout 2 state epoch policy [] w.stop_epoch w.policy_digest status k)
parse-encode_kind (refusal d) running epoch policy body w e =
    absurd (running-ne-stopped (encode_refusal_stopped d running epoch policy body e))
parse-encode_kind (refusal d) stopped epoch policy body w e =
    let same : layout 1 stopped epoch policy d ≡ body =
      ok-injective (sym (encode-layout_refusal d epoch policy) ∙ e) in
    let hd : length d ≡ 32 = w.request_digest d refl in
    let k : parse_kind (layout 1 stopped epoch policy d) stopped ≡ ok (refusal d) =
      parse_kind-refusal _ d refl
        (length-layout 1 stopped epoch policy d w.stop_epoch w.policy_digest ∙ omega arith)
        (request-layout 1 stopped epoch policy d w.stop_epoch w.policy_digest hd) in
    rw (← same) (parse-layout 1 stopped epoch policy d w.stop_epoch w.policy_digest (refusal d) k)

-- A record with fields of the right widths that is encoded is read back from what was written.
pub parse-encode_record :
    (r : StopRecord) (body : Bytes) → IsWellFormed r → encode r ≡ ok body → parse body ≡ ok r
parse-encode_record r body w e =
    parse-encode_kind r.kind r.state r.stop_epoch r.policy_digest body w e

-- Every parsed stop record has a 64-bit epoch and digests of 32 bytes, and none is a refusal that
-- says running.
pub parse-IsWellFormed :
    (body : Bytes) (r : StopRecord)
    → All IsByte body
    → parse body ≡ ok r
    → IsWellFormed r × ((d : Bytes) → r.kind ≡ refusal d → r.state ≡ stopped)
parse-IsWellFormed body r h e =
    let (long, _, _, _, ek, epoch, policy) = parse_ok body r e in
    (
      record {
        stop_epoch = rw epoch (
            from_be-lt 8 (slice 4 12 body) (length-slice 4 12 body (omega arith) (omega arith))
              (All-slice IsByte 4 12 body h));
        policy_digest = ap length policy ∙ length-slice 12 44 body (omega arith) long;
        request_digest = λ d p.
            let (_, n, _, ed) = parse_kind_refusal body d r.state (ek ∙ ap ok p) in
            ap length ed ∙ length-slice 44 76 body (omega arith) (omega arith);
      },
      λ d p. (parse_kind_refusal body d r.state (ek ∙ ap ok p)).2,
    )

-- Bytes are parsed as a stop record exactly when the record has a 64-bit epoch and digests of 32
-- bytes and encodes to these bytes; so no refusal that says running is parsed.
pub record_exact :
    (body : Bytes) (r : StopRecord)
    → All IsByte body
    → (parse body ≡ ok r) ↔ (IsWellFormed r × (encode r ≡ ok body))
record_exact body r h = (
  λ e. ((parse-IsWellFormed body r h e).0, encode-parse_record body r h e),
  λ (w, e). parse-encode_record r body w e,
)
