-- ===== src/Tests/Stopping.antt =====
-- The stop service of crates/stop on a model chip, like the `Fake` of crates/stop/src/port.rs.
pub mod Runs
use tactiq_attest.Base.{
  ℕ, ◌+◌, ◌≤◌, Bytes, List, [], ◌∷◌, ◌++◌, ◌≡◌, refl, sym, Bool, true, false, Option, some, none,
  Result, ok, err, length, replicate, codes, to_be, bytes_eq, arith, computing, ok-injective,
}
use tactiq_attest.Messages.{Message}
use tactiq_attest.Crypto.{Ecdsa}
use tactiq_attest.Stop.Certify.{
  NvCertifyInfo, build_nv_certify_info_for_tests, stop_index_name, computing_certify,
}
use tactiq_attest.Service.Effects.{Exec}
use tactiq_attest.Service.Port.{StopTpm, ReleaseStore}
use tactiq_attest.Service.Core.{Lift, Ctx}
use tactiq_attest.Service.Core.Counter.{IsCounter, Grows}
use tactiq_attest.Service.Release.Exact.{text}

-- A digest that tells inputs apart by their length only.
abbrev pub hash : Bytes → Bytes
hash m = to_be 32 (length m)

-- Signatures that are valid when they are one given byte.
abbrev pub ecdsa : Ecdsa
ecdsa = record {
  Key = Unit {0};
  Signature = Bytes;
  from_der = λ s. some s;
  from_slice = λ s. some s;
  verify = λ k m s. bytes_eq s (5 ∷ []);
  from_coordinates = λ x y. some tt;
}

pub record Chip : Type 0 where
  pub counter : ℕ
  pub files : Option (Bytes × Bytes)

abbrev pub info : ℕ → Bytes → NvCertifyInfo
info counter q = record {
  qualified_signer = [];
  extra_data = q;
  clock = record { clock = 1; reset_count = 1; restart_count = 1; safe = true };
  index_name = stop_index_name hash;
  offset = 0;
  contents = to_be 8 counter;
}

abbrev pub tpm : StopTpm Chip
tpm = record {
  read_counter = λ c. (ok c.counter, c);
  increment = λ c. (ok tt, record c { counter = c.counter + 1 });
  certify = λ q c. (ok (build_nv_certify_info_for_tests (info c.counter q), 1 ∷ []), c);
  pcr_read = λ s c. (ok (replicate 32 0), c);
  quote = λ q s c. (ok (q, 2 ∷ []), c);
}

abbrev pub store : ReleaseStore Chip
store = record { read = λ c. (ok c.files, c) }

abbrev pub lift_stop : Lift ecdsa Chip
lift_stop = record { device_id = codes "d1"; operator_key = tt; release = store }

abbrev pub ctx : Ctx ecdsa Chip
ctx = record {
  lift_stop = lift_stop;
  device_id = codes "d1";
  pcr_spec = codes "sha256:0";
  pcr_alg = 11;
  pcr_bitmap = 1 ∷ 0 ∷ 0 ∷ [];
  policy_digest = replicate 32 9;
  stop_index_name = stop_index_name hash;
}

-- Running with a release for the counter, stopped, and even without the release.
abbrev pub released : Chip
released = record { counter = 2; files = some (text (codes "d1") 2, 5 ∷ []) }

abbrev pub stopped_chip : Chip
stopped_chip = record { counter = 3; files = some (text (codes "d1") 4, 5 ∷ []) }

abbrev pub unreleased_chip : Chip
unreleased_chip = record { counter = 4; files = some (text (codes "d1") 2, 5 ∷ []) }

pub read_counter_ok :
    (w v : Chip) (n : ℕ) → tpm.read_counter w ≡ (ok n, v) → (w.counter ≡ n) × (w ≡ v)
read_counter_ok w v n e =
    let same : ◌≡◌ {A = Result Message ℕ} (ok w.counter) (ok n) = λ i. (e i).0 in
    (ok-injective same, λ i. (e i).1)

pub counts : IsCounter Chip tpm store (λ c. c.counter)
unfolding Grows
counts = record {
  read_low = λ w v n e. let (same, _) = read_counter_ok w v n e in omega arith;
  read_high = λ w v n e.
      let (same, there) = read_counter_ok w v n e in
      let at : w.counter ≡ v.counter = λ i. (there i).counter in omega arith;
  read_grows = λ w. omega arith;
  increment_grows = λ w. omega arith;
  certify_grows = λ q w. omega arith;
  pcr_read_grows = λ s w. omega arith;
  quote_grows = λ q s w. omega arith;
  store_grows = λ w. omega arith;
}
