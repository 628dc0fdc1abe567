-- ===== src/Appraise/StopCheck/Served.antt =====
-- The sections that the stop service builds (crates/stop/src/core.rs), as the check of
-- crates/attest-appraise/src/stop.rs sorts them.
use tactiq_attest.Base.{
  Bytes, [], ◌∷◌, false, true, ◌≡◌, refl, sym, ap, Option, none, some, length, ok, ◌==◌,
  bytes_eq_refl, Bool-cases, inl, inr, if◌then◌else◌, arith,
}
use tactiq_attest.Stop.Record.{check_nonce}
use tactiq_attest.Service.Core.{stop_sections}
use tactiq_attest.Appraise.StopCheck.{place, place_all, no_slots, nonce_of}

-- The nonce as the verifier holds it: an empty one was not sent.
abbrev pub sent : Bytes → Option Bytes
sent nonce = if length nonce == 0 then none else some nonce

empty : (b : Bytes) → (length b == 0) ≡ true → b ≡ []
empty [] e = refl
empty (x ∷ b) e = ground arith

pub place_all-stop_sections :
    (body cert nonce : Bytes)
    → place_all no_slots (stop_sections body cert nonce)
      ≡ ok (record { rec = some body; cert = some cert; nonce = sent nonce })
unfolding place_all place
place_all-stop_sections body cert nonce = elim (Bool-cases (length nonce == 0)) [
  | inl p ↦ rw p
  | inr p ↦ rw p
]

pub nonce_of-sent :
    (nonce : Bytes)
    → ((length nonce == 0) ≡ false → check_nonce nonce ≡ ok tt)
    → nonce_of (sent nonce) (sent nonce) ≡ ok nonce
unfolding nonce_of
nonce_of-sent nonce h = elim (Bool-cases (length nonce == 0)) [
  | inl p ↦ rw p (ap ok (sym (empty nonce p)))
  | inr p ↦ rw (p, h p, bytes_eq_refl nonce)
]
