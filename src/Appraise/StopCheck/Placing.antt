-- ===== src/Appraise/StopCheck/Placing.antt =====
-- The sections of a stop receipt in their slots (crates/attest-appraise/src/stop.rs).
use tactiq_attest.Base.{
  ℕ, ◌+◌, Bytes, true, List, [], ◌∷◌, ◌≡◌, refl, sym, ap, ◌∙◌, subst, Option, none, some, length,
  ok, ◌==◌, ==→eq, Bool-cases, inl, inr, ◌⊎◌, Member, bind-elim, ok-injective, err-ne-ok,
  some-injective, arith,
}
use tactiq_attest.Envelope.Bundle.{Section, tag_stop_state, tag_tpm_nv_certify, tag_verifier_nonce}
use tactiq_attest.Appraise.StopCheck.{Slots, fill, place, place_all, no_slots}

-- How many slots are filled.
abbrev filled : Option Bytes → ℕ
filled none = 0
filled (some b) = 1

abbrev pub size : Slots → ℕ
size sl = filled sl.rec + (filled sl.cert + filled sl.nonce)

fill_ok : (o o' : Option Bytes) (s : Section) → fill o s ≡ ok o' → (o ≡ none) × (o' ≡ some s.body)
fill_ok none o' s e = (refl, sym (ok-injective e))
fill_ok (some b) o' s e = absurd (err-ne-ok e)

-- Where the body in a slot comes from.
abbrev FromSlot : ℕ → Option Bytes → Option Bytes → List Section → Type 0
FromSlot tag after before ss =
    (b : Bytes) → after ≡ some b → (before ≡ some b) ⊎ Member (record { tag = tag; body = b }) ss

-- What the loop over the sections has done.
pub record Placed (after before : Slots) (ss : List Section) : Type 0 where
  pub count : size after ≡ length ss + size before
  pub rec : FromSlot tag_stop_state after.rec before.rec ss
  pub cert : FromSlot tag_tpm_nv_certify after.cert before.cert ss
  pub nonce : FromSlot tag_verifier_nonce after.nonce before.nonce ss

from_fill :
    (tag : ℕ) (s : Section) (o o' : Option Bytes)
    → (s.tag == tag) ≡ true
    → fill o s ≡ ok o'
    → FromSlot tag o' o (s ∷ [])
from_fill tag s o o' t e b h =
    let (_, now) = fill_ok o o' s e in
    let body : s.body ≡ b = some-injective _ _ (sym now ∙ h) in
    inr (inl (sym (λ i. record { tag = ==→eq s.tag tag t i; body = body i })))

place_ok : (sl sl' : Slots) (s : Section) → place sl s ≡ ok sl' → Placed sl' sl (s ∷ [])
unfolding place
place_ok sl sl' s e = elim (Bool-cases (s.tag == tag_stop_state)) [
  | inl here ↦ bind-elim (fill sl.rec s) _ (rw here at e) λ o e1 f1.
      let (was, now) = fill_ok sl.rec o s e1 in
      subst (λ x. Placed x sl (s ∷ [])) (ok-injective f1)
        (record {
          count = rw (was, now) (omega arith);
          rec = from_fill _ s sl.rec o here e1;
          cert = λ b h. inl h;
          nonce = λ b h. inl h;
        })
  | inr not_rec ↦ elim (Bool-cases (s.tag == tag_tpm_nv_certify)) [
    | inl here ↦ bind-elim (fill sl.cert s) _ (rw (not_rec, here) at e) λ o e1 f1.
        let (was, now) = fill_ok sl.cert o s e1 in
        subst (λ x. Placed x sl (s ∷ [])) (ok-injective f1)
          (record {
            count = rw (was, now) (omega arith);
            rec = λ b h. inl h;
            cert = from_fill _ s sl.cert o here e1;
            nonce = λ b h. inl h;
          })
    | inr not_cert ↦ elim (Bool-cases (s.tag == tag_verifier_nonce)) [
      | inl here ↦ bind-elim (fill sl.nonce s) _ (rw (not_rec, not_cert, here) at e) λ o e1 f1.
          let (was, now) = fill_ok sl.nonce o s e1 in
          subst (λ x. Placed x sl (s ∷ [])) (ok-injective f1)
            (record {
              count = rw (was, now) (omega arith);
              rec = λ b h. inl h;
              cert = λ b h. inl h;
              nonce = from_fill _ s sl.nonce o here e1;
            })
      | inr not_nonce ↦ absurd (err-ne-ok (rw (not_rec, not_cert, not_nonce) at e))
    ]
  ]
]

from_later :
    (tag : ℕ) (s : Section) (ss : List Section) (after between before : Option Bytes)
    → FromSlot tag between before (s ∷ [])
    → FromSlot tag after between ss
    → FromSlot tag after before (s ∷ ss)
from_later tag s ss after between before first later b h = elim (later b h) [
  | inr m ↦ inr (inr m)
  | inl e ↦ elim (first b e) [
    | inl e' ↦ inl e'
    | inr (inl m) ↦ inr (inl m)
    | inr (inr m) ↦ elim m [ ]
  ]
]

place_all_ok : (sl sl' : Slots) (ss : List Section) → place_all sl ss ≡ ok sl' → Placed sl' sl ss
unfolding place_all
place_all_ok sl sl' [] e =
    subst (λ x. Placed x sl []) (ok-injective e)
      (record {
        count = omega arith;
        rec = λ b h. inl h;
        cert = λ b h. inl h;
        nonce = λ b h. inl h;
      })
place_all_ok sl sl' (s ∷ ss) e = bind-elim (place sl s) _ e λ mid e1 f1.
    let p : Placed mid sl (s ∷ []) = place_ok sl mid s e1 in
    let q : Placed sl' mid ss = place_all_ok mid sl' ss f1 in
    record {
      count = q.count ∙ ap (λ n. length ss + n) p.count ∙ omega arith;
      rec = from_later _ s ss _ _ _ p.rec q.rec;
      cert = from_later _ s ss _ _ _ p.cert q.cert;
      nonce = from_later _ s ss _ _ _ p.nonce q.nonce;
    }

-- What the slots hold at the end: every body is a section's, and there are no other sections.
pub record Holds (sl : Slots) (ss : List Section) : Type 0 where
  pub count : size sl ≡ length ss
  pub rec : (b : Bytes) → sl.rec ≡ some b → Member (record { tag = tag_stop_state; body = b }) ss
  pub cert :
      (b : Bytes) → sl.cert ≡ some b → Member (record { tag = tag_tpm_nv_certify; body = b }) ss
  pub nonce :
      (b : Bytes) → sl.nonce ≡ some b → Member (record { tag = tag_verifier_nonce; body = b }) ss

from_none :
    (tag : ℕ) (o : Option Bytes) (ss : List Section)
    → FromSlot tag o none ss
    → (b : Bytes) → o ≡ some b
    → Member (record { tag = tag; body = b }) ss
from_none tag o ss f b h = elim (f b h) [ inl e ↦ absurd (none_ne_some b e) | inr m ↦ m ]
  where
    none_ne_some : (b : Bytes) → none ≡ some b → ⊥
    none_ne_some b e = cc

-- When the loop over the sections succeeds, every slot that is filled holds the body of a section
-- of its tag, and there are as many sections as filled slots: no section was passed over.
pub place_all-Holds : (sl : Slots) (ss : List Section) → place_all no_slots ss ≡ ok sl → Holds sl ss
place_all-Holds sl ss e =
    let p : Placed sl no_slots ss = place_all_ok no_slots sl ss e in
    record {
      count = p.count ∙ omega arith;
      rec = from_none _ sl.rec ss p.rec;
      cert = from_none _ sl.cert ss p.cert;
      nonce = from_none _ sl.nonce ss p.nonce;
    }
