-- ===== src/Tests/Guarding.antt =====
-- The guard of crates/stop/src/config.rs on the configurations of the service's own tests.
use tactiq_attest.Base.{Bytes, [], ◌∷◌, ◌++◌, ◌≡◌, refl, some, ok, err, codes, computing}
use tactiq_attest.Messages.{failure_mode_open, timeout_low}
use tactiq_attest.Service.Text.{computing_text}
use tactiq_attest.Service.Http.{computing_http}
use tactiq_attest.TpmAccess.{computing_tpm_access}
use tactiq_attest.Service.Config.{parse_duration_ms, check_gateway_config, computing_config}
use tactiq_attest.Service.Config.Guarded.{IsGuarded, check_gateway_config_sound}

unfoldable guarding_all : Unit {0}
unfolding computing computing_text computing_http computing_tpm_access computing_config
guarding_all = tt

abbrev line : Bytes → Bytes → Bytes
line s rest = s ++ (10 ∷ rest)

abbrev listen : Bytes
listen = codes "127.0.0.1:49318"

-- With the lines for the mode and for the timeout.
abbrev config : Bytes → Bytes → Bytes
config mode timeout = line (codes "binds:") (
    line (codes "- port: 49317") (
      line (codes "  - policies:") (
        line (codes "      extAuthz:") (
          line (codes "        host: 127.0.0.1:49318") (
            line mode (
              line (codes "        includeRequestBody:") (
                line (codes "          maxRequestBytes: 1048576")
                  (line (codes "          allowPartialMessage: false") (line timeout [])))))))))

accepted :
    check_gateway_config
      (config (codes "        failureMode: deny") (codes "    requestTimeout: 5s"))
      listen
    ≡ ok tt
unfolding guarding_all
accepted = refl

quoted :
    check_gateway_config
      (config (codes "  failureMode: 'deny'  # closed") (codes "- - requestTimeout: \"5000ms\""))
      listen
    ≡ ok tt
unfolding guarding_all
quoted = refl

open_mode :
    check_gateway_config (config (codes "failureMode: allow") (codes "requestTimeout: 5s")) listen
    ≡ err failure_mode_open
unfolding guarding_all
open_mode = refl

short_timeout :
    check_gateway_config (config (codes "failureMode: deny") (codes "requestTimeout: 100ms")) listen
    ≡ err (timeout_low 100)
unfolding guarding_all
short_timeout = refl

-- A key in quotes is another key: the second block and its host are passed over.
quoted_key :
    check_gateway_config
      (line (codes "      \"extAuthz\":") (
        line
          (codes "        \"host\": 10.0.0.1:80")
          (config (codes "        failureMode: deny") (codes "    requestTimeout: 5s"))))
      listen
    ≡ ok tt
unfolding guarding_all
quoted_key = refl

-- The product wraps: 2^64 / 1000, rounded up.
wrapped : parse_duration_ms (codes "18446744073709552s") ≡ some 384
unfolding guarding_all
wrapped = refl

check_gateway_config_sound_example :
    IsGuarded (config (codes "        failureMode: deny") (codes "    requestTimeout: 5s")) listen
check_gateway_config_sound_example =
    check_gateway_config_sound
      (config (codes "        failureMode: deny") (codes "    requestTimeout: 5s")) listen accepted
