-- ===== src/Tests/Statements.antt =====
-- The TPM's statements of crates/attest-stop and the releases of crates/stop on concrete inputs.
use tactiq_attest.Base.{
  ◌<◌, ◌^◌, ◌↔◌, Bytes, IsByte, All, [], ◌∷◌, ◌≡◌, refl, ok, err, length, replicate, to_be, codes,
  arith, computing,
}
use tactiq_attest.Messages.{release_not_canonical, release_odd}
use tactiq_attest.Stop.Certify.{
  NvCertifyInfo, parse_nv_certify_info, check_counter_certify, stop_index_name, computing_certify,
}
use tactiq_attest.Stop.Certify.Exact.{
  IsWellFormed, layout, parse_nv_certify_info-layout, parse_nv_certify_info_exact,
}
use tactiq_attest.Stop.Certify.Check.{
  States, check_counter_certify_exact, check_counter_certify_complete,
}
use tactiq_attest.Service.Text.{computing_text}
use tactiq_attest.Service.Release
use tactiq_attest.Service.Release.{Release, computing_release}
use tactiq_attest.Service.Release.Exact.{text, IsSigned, check_sound}
use tactiq_attest.Tests.Stopping.{hash, ecdsa, info}

abbrev said : NvCertifyInfo
said = info 3 (7 ∷ 7 ∷ [])

said-IsWellFormed : IsWellFormed said
unfolding computing_certify to_be
said-IsWellFormed = record {
  qualified_signer = omega arith;
  extra_data = omega arith;
  clock = record { clock = omega arith; reset_count = omega arith; restart_count = omega arith };
  index_name = omega arith;
  offset = omega arith;
  contents = omega arith;
}

abbrev said_bytes : Bytes
said_bytes = layout said (replicate 8 0)

said_bytes-IsByte : All IsByte said_bytes
unfolding computing_certify to_be
said_bytes-IsByte = omega arith

certify_read : (parse_nv_certify_info said_bytes ≡ ok said) ↔ (
    IsWellFormed said
    × ((firmware : Bytes) × (length firmware ≡ 8) × (layout said firmware ≡ said_bytes)))
certify_read = parse_nv_certify_info_exact said_bytes said said_bytes-IsByte

checked : check_counter_certify said_bytes (7 ∷ 7 ∷ []) (stop_index_name hash) 3 ≡ ok tt
checked =
    check_counter_certify_complete said_bytes (7 ∷ 7 ∷ []) (stop_index_name hash) 3 said
      (parse_nv_certify_info-layout said (replicate 8 0) said-IsWellFormed refl)
      (record { extra_data = refl; index_name = refl; offset = refl; contents = refl })
      (omega arith)

check_counter_certify_exact_example :
    (check_counter_certify said_bytes (7 ∷ 7 ∷ []) (stop_index_name hash) 3 ≡ ok tt) ↔ (
      (i : NvCertifyInfo) × (parse_nv_certify_info said_bytes ≡ ok i)
      × States (7 ∷ 7 ∷ []) (stop_index_name hash) 3 i
      × (3 < 2 ^ 64))
check_counter_certify_exact_example =
    check_counter_certify_exact said_bytes (7 ∷ 7 ∷ []) (stop_index_name hash) 3 said_bytes-IsByte

padded_epoch :
    Release.parse (codes "device d1\nepoch 042\n") ≡ err (release_not_canonical (codes "042"))
unfolding computing computing_text computing_release
padded_epoch = refl

odd_epoch : Release.parse (codes "device d1\nepoch 41\n") ≡ err (release_odd 41)
unfolding computing computing_text computing_release
odd_epoch = refl

check_sound_example :
    (codes "device d1\nepoch 42\n" ≡ text (codes "d1") 42)
    × IsSigned ecdsa tt (5 ∷ []) (codes "d1") 42
unfolding computing computing_text computing_release
check_sound_example =
    check_sound ecdsa tt (codes "device d1\nepoch 42\n") (5 ∷ []) (codes "d1") 42 refl
