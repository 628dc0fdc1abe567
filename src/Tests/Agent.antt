-- ===== src/Tests/Agent.antt =====
-- The agent of crates/prover/src/main.rs on a model of its TPM and its files.
use tactiq_attest.Base.{
  ℕ, ◌+◌, ◌-◌, ltb, from_be, from_be-to_be, length-to_be, Bool-cases, err-ne-ok, ok-injective, sym,
  ap, ◌∙◌, ltb→lt, ◌<◌, ◌≤◌, ◌^◌, Bytes, Bool, true, false, List, [], ◌∷◌, ◌≡◌, ◌↔◌, ◌⊎◌, refl, inl,
  inr, some, none, ok, err, codes, bytes_eq, to_be, length, replicate, computing, arith,
  if◌then◌else◌, take, drop, Member,
}
use tactiq_attest.Messages.{Message, R, port_error}
use tactiq_attest.Wire.{computing_wire}
use tactiq_attest.Service.Text.{computing_text, parse_u64}
use tactiq_attest.Service.Http.{computing_http}
use tactiq_attest.Service.Front.{computing_front}
use tactiq_attest.Service.Effects.{Exec, ◌>>=◌, pure, raise, lift, attempt, or_fail}
use tactiq_attest.Envelope.{computing_envelope}
use tactiq_attest.Envelope.Tpm.{computing_tpm}
use tactiq_attest.Appraise.Gate1.{has_bit}
use tactiq_attest.TpmAccess.{computing_tpm_access}
use tactiq_attest.TpmAccess.Commands.{Tools, counter_of, computing_commands}
use tactiq_attest.TpmAccess.Keys.{computing_same_ak}
use tactiq_attest.TpmAccess.Keys.Calls.{computing_keys}
use tactiq_attest.TpmAccess.PcrSpec.{parse_pcr_spec, computing_pcr_spec}
use tactiq_attest.Prover.{computing_prover}
use tactiq_attest.Prover.Counter.{
  compose_counter, new_alloc, CounterAlloc, outside, put, next, computing_counter,
}
use tactiq_attest.Prover.Names.{stem_of, is_part, all_digits, is_ext, computing_names}
use tactiq_attest.Prover.Publish.{DiskOp, Log, computing_publish}
use tactiq_attest.Prover.Prune.{stems_to_prune, ordered_stems, computing_prune}
use tactiq_attest.Prover.Attest.{AgentDisk, cmd_attest, computing_attest}
use tactiq_attest.Envelope.{parse, encode_pcr_selection}
use tactiq_attest.Envelope.Message.{built}
use tactiq_attest.Service.Core.Counter.{Grows}
use tactiq_attest.TpmAccess.PcrSpec.Bits.{selects}
use tactiq_attest.TpmAccess.PcrSpec.Selected.{IsSpec, parse_pcr_spec_sound}
use tactiq_attest.Prover.Counter.Order.{compose_counter_order}
use tactiq_attest.Prover.Counter.Epoch.{IsEpochTpm}
use tactiq_attest.Prover.Counter.History.{
  Later, now, then_later, restarts, elsewhere, next_increases,
}
use tactiq_attest.Prover.Names.{fin_name, part_name}
use tactiq_attest.Prover.Names.Laws.{published_names}
use tactiq_attest.Prover.Publish.{publish_envelope, logged}
use tactiq_attest.Prover.Publish.Safety.{safe, publish_envelope-safe}
use tactiq_attest.Prover.Prune.Oldest.{Pruned, stems_to_prune-Pruned}
use tactiq_attest.Prover.Attest.Sound.{IsAttested, message, cmd_attest_sound}
use tactiq_attest.Tests.Appraising.{public_area}
use tactiq_attest.Tests.Commands.{public_listing}

unfoldable agent_all : Unit {0}
unfolding computing computing_wire computing_text computing_http computing_front computing_envelope
    computing_tpm computing_tpm_access computing_commands computing_same_ak computing_keys
    computing_pcr_spec computing_prover computing_counter computing_names computing_publish
    computing_prune computing_attest has_bit ◌>>=◌ pure raise lift attempt or_fail to_be outside put
agent_all = tt

abbrev is_command : Bytes → List Bytes → Bool
is_command name [] = false
is_command name (a ∷ args) = bytes_eq a name

-- The world is the value of the counter.
abbrev run : List Bytes → ℕ → R Bytes × ℕ
run args n =
    if is_command (codes "tpm2_nvincrement") args
    then (if ltb n (2 ^ 64 - 1) then (ok [], n + 1) else (err (port_error []), n))
    else if is_command (codes "tpm2_nvreadpublic") args
    then (ok public_listing, n)
    else if is_command (codes "tpm2_getcap") args
    then (ok (codes "- 0x81010100\n"), n)
    else (ok [], n)

abbrev read : Bytes → ℕ → R Bytes × ℕ
read p n =
    if bytes_eq p (codes "/w/counter.bin")
    then (if ltb n (2 ^ 64) then (ok (to_be 8 n), n) else (err (port_error []), n))
    else if bytes_eq p (codes "/w/pcrs.bin")
    then (ok (1 ∷ 2 ∷ []), n)
    else (ok (0 ∷ 26 ∷ public_area), n)

abbrev tools : Tools ℕ
tools = record {
  run = run;
  read_file = read;
  read_if_there = λ p n. (ok none, n);
  owner_auth = λ n. (ok none, n);
  ak_handle = ok (codes "0x81010100");
  nv_counter = ok (codes "0x1500016");
}

abbrev done : Exec Message ℕ (Unit {0})
done n = (ok tt, n)

abbrev disk : AgentDisk ℕ
disk = record {
  have_id = λ _. true;
  have_key = λ _. true;
  id_text = λ n. (ok (codes "unit-A1\n"), n);
  create_id = λ _. done;
  finalize_pubkey = done;
  ensure_dir = λ _. done;
  names = λ _ n. (ok (codes "000000000009.msg.part" ∷ []), n);
  remove_file = λ _. done;
  remove_if_there = λ _. done;
  operate = λ _. done;
}

abbrev hash : Bytes → Bytes
hash m = replicate 32 7

abbrev spec : Bytes
spec = codes "sha256:0,1,8"

spec_read : parse_pcr_spec spec ≡ ok (11, 3 ∷ 1 ∷ 0 ∷ [])
unfolding agent_all
spec_read = refl

abbrev after_attest : ℕ × CounterAlloc
after_attest = (5, record { epoch = some 5; next_seq = 1 })

attested :
    cmd_attest hash ℕ tools disk (codes "/k/ak.pub") (codes "/w") (codes "/o") spec (4, new_alloc)
    ≡ (ok 83886080, after_attest)
unfolding agent_all
attested = refl

cmd_attest_sound_example :
    (d : IsAttested hash ℕ tools disk
      (codes "/k/ak.pub")
      (codes "/w")
      (codes "/o")
      spec
      83886080
      after_attest)
    × (parse (message hash ℕ tools disk d.id 83886080 d.alg d.bitmap d.pcr_state)
        ≡ ok (
            built hash
              (λ m. refl)
              d.id
              83886080
              (encode_pcr_selection d.alg d.bitmap)
              d.pcr_state
              []))
cmd_attest_sound_example =
    cmd_attest_sound hash ℕ tools disk (λ m. refl) (codes "/k/ak.pub") (codes "/w") (codes "/o")
      spec 4 new_alloc 83886080 after_attest attested

parse_pcr_spec_sound_example :
    (ns : List ℕ) × IsSpec spec 11 ns
    × (length {A = ℕ} (3 ∷ 1 ∷ 0 ∷ []) ≡ 3)
    × ((i : ℕ) → (selects (3 ∷ 1 ∷ 0 ∷ []) i ≡ true) ↔ Member i ns)
parse_pcr_spec_sound_example = parse_pcr_spec_sound spec 11 (3 ∷ 1 ∷ 0 ∷ []) spec_read

first_of_five : compose_counter 5 0 ≡ ok 83886080
unfolding computing_counter
first_of_five = refl

second_of_five : compose_counter 5 1 ≡ ok 83886081
unfolding computing_counter
second_of_five = refl

compose_counter_order_example :
    (83886080 < 2 ^ 64) × ((83886080 < 83886081) ↔ ((5 < 5) ⊎ ((◌≡◌ {A = ℕ} 5 5) × (0 < 1))))
compose_counter_order_example =
    compose_counter_order 5 0 83886080 5 1 83886081 first_of_five second_of_five

-- No command fails.
abbrev willing : Log → DiskOp → R (Unit {0})
willing log op = ok tt

nothing_yet : safe (codes "/o") (codes "000083886080") [] ≡ true
unfolding safe
nothing_yet = refl

publish_envelope-safe_example :
    safe
      (codes "/o")
      (codes "000083886080")
      (publish_envelope (logged willing) (codes "/o") (codes "000083886080") (1 ∷ []) (2 ∷ []) []).1
    ≡ true
publish_envelope-safe_example =
    publish_envelope-safe (codes "/o") (codes "000083886080") willing (1 ∷ []) (2 ∷ []) []
      nothing_yet

abbrev names : List Bytes
names =
    codes "000000008039.msg"
    ∷ codes "000016777216.msg"
    ∷ codes "000000000256.tag"
    ∷ codes "notes.txt"
    ∷ []

pruned : stems_to_prune names 1 ≡ codes "000000000256" ∷ codes "000000008039" ∷ []
unfolding agent_all
pruned = refl

stems_to_prune-Pruned_example :
    Pruned names 1
      (take (length (ordered_stems names) - 1) (ordered_stems names))
      (drop (length (ordered_stems names) - 1) (ordered_stems names))
stems_to_prune-Pruned_example = stems_to_prune-Pruned names 1

abbrev stem : Bytes
stem = codes "000000000256"

stem_digits : all_digits stem ≡ true
unfolding agent_all
stem_digits = refl

stem_number : parse_u64 stem ≡ some 256
unfolding agent_all
stem_number = refl

known_ext : is_ext (codes "msg") ≡ true
unfolding agent_all
known_ext = refl

published_names_example :
    (stem_of (fin_name stem (codes "msg")) ≡ some (256, stem))
    × (is_part (part_name stem (codes "msg")) ≡ true)
    × (stem_of (part_name stem (codes "msg")) ≡ none)
    × (is_part (fin_name stem (codes "msg")) ≡ false)
published_names_example = published_names stem (codes "msg") 256 stem_digits known_ext stem_number

up :
    (w v : ℕ) (o : Bytes)
    → (ltb w (2 ^ 64 - 1) ≡ true) ⊎ (ltb w (2 ^ 64 - 1) ≡ false)
    → ◌≡◌ {A = R Bytes × ℕ}
        (if ltb w (2 ^ 64 - 1) then (ok [], w + 1) else (err (port_error []), w))
        (ok o, v)
    → w < v
up w v o (inl p) e =
    let same : ◌≡◌ {A = R Bytes × ℕ} (ok [], w + 1) (ok o, v) = rw p at e in
    let next_value : w + 1 ≡ v = λ i. (same i).1 in omega arith
up w v o (inr p) e =
    let same : ◌≡◌ {A = R Bytes × ℕ} (err (port_error []), w) (ok o, v) = rw p at e in
    absurd (err-ne-ok (λ i. (same i).0))

value_read : (v n : ℕ) → v < 2 ^ 64 → counter_of (to_be 8 v) ≡ ok n → v ≡ n
unfolding computing_commands
value_read v n h e =
    let is : counter_of (to_be 8 v) ≡ ok (from_be (to_be 8 v)) =
      rw (length-to_be 8 v, counter_of) refl in
    let same : from_be (to_be 8 v) ≡ n = ok-injective (sym is ∙ e) in
    sym (from_be-to_be 8 v (omega arith)) ∙ same

back :
    (w v u : ℕ) (o raw : Bytes) (n : ℕ)
    → (ltb v (2 ^ 64) ≡ true) ⊎ (ltb v (2 ^ 64) ≡ false)
    → ◌≡◌ {A = R Bytes × ℕ} (ok [], w) (ok o, v)
    → ◌≡◌ {A = R Bytes × ℕ}
        (if ltb v (2 ^ 64) then (ok (to_be 8 v), v) else (err (port_error []), v))
        (ok raw, u)
    → counter_of raw ≡ ok n
    → (w ≤ n) × (n ≤ u)
back w v u o raw n (inl p) ran got counted =
    let same : ◌≡◌ {A = R Bytes × ℕ} (ok (to_be 8 v), v) (ok raw, u) = rw p at got in
    let still : w ≡ v = λ i. (ran i).1 in
    let end : v ≡ u = λ i. (same i).1 in
    let bytes : to_be 8 v ≡ raw = ok-injective (λ i. (same i).0) in
    let value = value_read v n (ltb→lt v (2 ^ 64) p) (ap counter_of bytes ∙ counted) in
    (omega arith, omega arith)
back w v u o raw n (inr p) ran got counted =
    let same : ◌≡◌ {A = R Bytes × ℕ} (err (port_error []), v) (ok raw, u) = rw p at got in
    absurd (err-ne-ok (λ i. (same i).0))

-- A counter that counts, up to the last value of 64 bits.
counts : IsEpochTpm ℕ tools (codes "/w") (codes "0x1500016") (λ n. n)
unfolding bytes_eq Grows
counts = record {
  index = refl;
  run_grows = λ args n. ground arith;
  file_grows = λ p n. ground arith;
  incremented = λ w v o e. up w v o (Bool-cases (ltb w (2 ^ 64 - 1))) e;
  read_back = λ w v u o raw n ran got counted.
      back w v u o raw n (Bool-cases (ltb v (2 ^ 64))) ran got counted;
}

first_issued : next ℕ tools (codes "/w") (4, new_alloc) ≡ (ok 83886080, after_attest)
unfolding agent_all
first_issued = refl

second_issued :
    next ℕ tools (codes "/w") (7, new_alloc)
    ≡ (ok 134217728, (8, record { epoch = some 8; next_seq = 1 }))
unfolding agent_all
second_issued = refl

-- The agent is started again after two other increments.
started_again : Later ℕ tools (codes "/w") (λ n. n) after_attest (7, new_alloc)
started_again = then_later (then_later now restarts) (elsewhere {v = 7} (omega arith))

next_increases_example : 83886080 < 134217728
next_increases_example =
    next_increases counts 4 (4, new_alloc) after_attest (7, new_alloc)
      (8, record { epoch = some 8; next_seq = 1 }) 83886080 134217728 now first_issued started_again
      second_issued
