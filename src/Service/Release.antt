-- ===== src/Service/Release.antt =====
-- crates/stop/src/release.rs: the operator's release, which alone lifts a stop.
pub mod Exact
use tactiq_attest.Base.{
  ℕ, ◌%◌, ◌^◌, Bytes, Bool, ◌||◌, ◌&&◌, not, List, [], ◌∷◌, ◌++◌, Option, none, some, length, codes,
  bytes_eq, Result, ok, err, ◌>>=◌, ◌>>◌, refuse_if, ok_or, ◌==◌, ltb, if◌then◌else◌,
}
use tactiq_attest.Messages.{
  R, release_too_long, release_not_ascii, release_no_newline, release_lines, release_no_device,
  release_bad_device, release_no_epoch, release_not_number, release_not_canonical, release_odd,
  release_signature_too_long, release_signature_not_der, release_signature_wrong,
  release_other_device, release_other_epoch,
}
use tactiq_attest.Crypto.{Ecdsa}
use tactiq_attest.Service.Text.{
  newline, all, contains, is_ascii, is_ascii_graphic, strip_prefix, strip_last, split, to_string,
  parse_u64,
}

abbrev pub max_record : ℕ
max_record = 256

abbrev pub max_sig : ℕ
max_sig = 80

pub record Release : Type 0 where
  pub device_id : Bytes
  pub epoch : ℕ

-- `let [dev, ep] = lines.as_slice() else …`
two_lines : List Bytes → R (Bytes × Bytes)
two_lines [] = err (release_lines 0)
two_lines (a ∷ []) = err (release_lines 1)
two_lines (dev ∷ (ep ∷ [])) = ok (dev, ep)
two_lines (a ∷ (b ∷ (c ∷ ls))) = err (release_lines (length (a ∷ b ∷ c ∷ ls)))

-- The lines on `device_id` and on `epoch`.
parse_device : Bytes → R Bytes
parse_device dev = do
  device_id ← ok_or release_no_device (strip_prefix (codes "device ") dev)
  refuse_if
      (length device_id == 0 || ltb 16 (length device_id) || not (all is_ascii_graphic device_id))
      release_bad_device
  ok device_id

parse_epoch : Bytes → R ℕ
parse_epoch ep = do
  n ← ok_or release_no_epoch (strip_prefix (codes "epoch ") ep)
  epoch ← ok_or (release_not_number n) (parse_u64 n)
  refuse_if (not (bytes_eq (to_string epoch) n)) (release_not_canonical n)
  refuse_if (not (epoch % 2 == 0)) (release_odd epoch)
  ok epoch

-- A record that is no UTF-8 and one that is no ASCII get one error here, by the first byte above 127.
pub parse : Bytes → R Release
parse text = do
  refuse_if (ltb max_record (length text)) (release_too_long (length text))
  refuse_if (not (is_ascii text) || contains 13 text) release_not_ascii
  body ← ok_or release_no_newline (strip_last newline text)
  (dev, ep) ← two_lines (split newline body)
  device_id ← parse_device dev
  epoch ← parse_epoch ep
  ok (record { device_id = device_id; epoch = epoch })

module _ (ecdsa : Ecdsa) where
  open ecdsa use {Key, from_der, verify}

  pub check : Key → Bytes → Bytes → Bytes → ℕ → R (Unit {0})
  check key text sig_der device_id epoch = do
    refuse_if (ltb max_sig (length sig_der)) (release_signature_too_long (length sig_der))
    sig ← ok_or release_signature_not_der (from_der sig_der)
    refuse_if (not (verify key text sig)) release_signature_wrong
    r ← parse text
    refuse_if (not (bytes_eq r.device_id device_id)) (release_other_device r.device_id device_id)
    refuse_if (not (r.epoch == epoch)) (release_other_epoch r.epoch epoch)
    ok tt

-- Named on the line of a test, opens what this module keeps shut.
unfoldable pub computing_release : Unit {0}
unfolding two_lines parse_device parse_epoch parse check
computing_release = tt
