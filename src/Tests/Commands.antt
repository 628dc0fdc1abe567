-- ===== src/Tests/Commands.antt =====
-- crates/attest-tpm/src/lib.rs on a model of the commands of tpm2-tools.
use tactiq_attest.Base.{
  ℕ, ◌+◌, ◌<◌, ◌^◌, Bytes, IsByte, All, Bool, true, false, List, [], ◌∷◌, ◌≡◌, ◌↔◌, refl, some,
  none, Result, ok, err, codes, bytes_eq, to_be, to_be-IsByte, computing, arith, if◌then◌else◌,
  ok-injective, err-ne-ok, inl, inr, subst, Bool-cases,
}
use tactiq_attest.Messages.{Message, port_error, already_defined}
use tactiq_attest.Wire.{computing_wire}
use tactiq_attest.Stop.Record.{stopped}
use tactiq_attest.Service.Text.{computing_text}
use tactiq_attest.Service.Effects.{◌>>=◌, pure, raise, lift, attempt, or_fail}
use tactiq_attest.Service.Core.{already_there, computing_core}
use tactiq_attest.Service.Core.Moves.{computing_moves}
use tactiq_attest.Service.Front.{computing_front}
use tactiq_attest.Service.Front.Define.{
  define, IsDefined, define_sound, define_refused, computing_define,
}
use tactiq_attest.TpmAccess.{
  parse_nv_attributes, parse_nv_name, parse_handle, listing_has, check_counter_attributes,
  computing_tpm_access,
}
use tactiq_attest.TpmAccess.Attributes.{IsOwnCounter, check_counter_attributes_exact}
use tactiq_attest.TpmAccess.Commands.{Tools, computing_commands}
use tactiq_attest.TpmAccess.Commands.Bounds.{WritesBytes, read_counter_bound}
use tactiq_attest.Appraise.Gate1.{has_bit}

-- Opens everything that a command goes through.
unfoldable commanding_all : Unit {0}
unfolding computing computing_wire computing_text computing_core computing_moves computing_front
    computing_define computing_tpm_access computing_commands has_bit ◌>>=◌ pure raise lift attempt
    or_fail to_be
commanding_all = tt

abbrev pub public_listing : Bytes
public_listing =
    codes
      "0x1500017:\n  name: 000b\n  hash algorithm:\n    value: 0xB\n  attributes:\n    friendly: authwrite\n    value: 0x20040014\n"

attributes_read : parse_nv_attributes public_listing ≡ ok 0x20040014
unfolding commanding_all
attributes_read = refl

name_read : parse_nv_name public_listing ≡ ok (0 ∷ 11 ∷ [])
unfolding commanding_all
name_read = refl

handle_read : parse_handle (codes "0X81010200") 0x81000000 0x81ffffff ≡ ok 0x81010200
unfolding commanding_all
handle_read = refl

listed : listing_has (codes "- 0x1500016\n- 0X1500017\n") (codes "0x1500017") ≡ true
unfolding commanding_all
listed = refl

own_counter : (check_counter_attributes 0x20040014 ≡ ok tt) ↔ IsOwnCounter 0x20040014
own_counter = check_counter_attributes_exact 0x20040014 (omega arith)

-- A chip with one counter.
record Device : Type 0 where
  defined : Bool
  value : ℕ

abbrev is_command : Bytes → List Bytes → Bool
is_command name [] = false
is_command name (a ∷ args) = bytes_eq a name

abbrev run : List Bytes → Device → Result Message Bytes × Device
run args d =
    if is_command (codes "tpm2_nvread") args
    then (ok (to_be 8 d.value), d)
    else if is_command (codes "tpm2_nvincrement") args
    then (ok [], record d { value = d.value + 1 })
    else if is_command (codes "tpm2_nvdefine") args
    then (ok [], record d { defined = true })
    else if is_command (codes "tpm2_nvreadpublic") args
    then (ok public_listing, d)
    else if is_command (codes "tpm2_getcap") args
    then (ok (if d.defined then codes "- 0x1500017\n" else []), d)
    else (err (port_error []), d)

abbrev tools : Tools Device
tools = record {
  run = run;
  read_file = λ p d. (ok [], d);
  read_if_there = λ p d. (ok (some (1 ∷ [])), d);
  owner_auth = λ d. (ok none, d);
  ak_handle = ok (codes "0x81010100");
  nv_counter = ok (codes "0x1500016");
}

abbrev fresh : Device
fresh = record { defined = false; value = 6 }

abbrev made : Device
made = record { defined = true; value = 7 }

define_sound_example : IsDefined Device tools (codes "/run/tactiq-stop") [] (already_there 7) made
unfolding commanding_all
define_sound_example =
    define_sound Device tools (codes "/run/tactiq-stop") [] (ok tt) fresh made (already_there 7)
      refl

defined_again :
    define Device tools (ok tt) (codes "/run/tactiq-stop") [] made
    ≡ (err (already_defined 0x20040014), made)
unfolding commanding_all
defined_again =
    define_refused Device tools (codes "/run/tactiq-stop") [] stopped made made made 0x20040014 refl
      refl refl refl refl

given :
    (x out : Bytes) (w v : Device)
    → ◌≡◌ {A = Result Message Bytes × Device} (ok x, w) (ok out, v)
    → All IsByte x
    → All IsByte out
given x out w v e h =
    let same : ◌≡◌ {A = Result Message Bytes} (ok x) (ok out) = λ i. (e i).0 in
    subst (All IsByte) (ok-injective same) h

capabilities : (d : Bool) → All IsByte (if d then codes "- 0x1500017\n" else [])
unfolding computing
capabilities true = omega arith
capabilities false = tt

writes_bytes : WritesBytes Device tools
unfolding computing
writes_bytes args out w v e = elim (Bool-cases (is_command (codes "tpm2_nvread") args)) [
  | inl p ↦ given (to_be 8 w.value) out _ v (rw p at e) (to_be-IsByte 8 w.value)
  | inr p ↦ elim (Bool-cases (is_command (codes "tpm2_nvincrement") args)) [
    | inl q ↦ given [] out _ v (rw (p, q) at e) tt
    | inr q ↦ elim (Bool-cases (is_command (codes "tpm2_nvdefine") args)) [
      | inl r ↦ given [] out _ v (rw (p, q, r) at e) tt
      | inr r ↦ elim (Bool-cases (is_command (codes "tpm2_nvreadpublic") args)) [
        | inl s ↦ given public_listing out _ v (rw (p, q, r, s) at e) (omega arith)
        | inr s ↦ elim (Bool-cases (is_command (codes "tpm2_getcap") args)) [
          | inl t ↦ given _ out _ v (rw (p, q, r, s, t) at e) (capabilities w.defined)
          | inr t ↦ absurd (failed (rw (p, q, r, s, t) at e))
        ]
      ]
    ]
  ]
]
  where
    failed : ◌≡◌ {A = Result Message Bytes × Device} (err (port_error []), w) (ok out, v) → ⊥
    failed h =
        let same : ◌≡◌ {A = Result Message Bytes} (err (port_error [])) (ok out) = λ i. (h i).0 in
        err-ne-ok same

seven_fits : 7 < 2 ^ 64
unfolding commanding_all
seven_fits = read_counter_bound Device tools [] made made 7 writes_bytes refl
