-- ===== src/Appraise/Manifest/Exact.antt =====
-- The composites that crates/attest-appraise/src/rim.rs admits.
use tactiq_attest.Base.{
  Bytes, bytes_eq, bytes_eq→eq, List, [], ◌∷◌, ◌++◌, ◌≡◌, ◌↔◌, refl, sym, subst, Option, none, some,
  some-injective, inl, inr, Member,
}
use tactiq_attest.Base.Sorting.{of_sort, sorted, of_dedup, deduped}
use tactiq_attest.Appraise.Manifest.{
  PcrValues, columns, combos, hashes, digest_lt, sort_digests, dedup_digests, of_slots, slot_names,
  composites,
}
use tactiq_attest.Appraise.Manifest.Composites.{IsState, front, back, either}
use tactiq_attest.Appraise.Manifest.Slots.{
  none_ne_some, IsComposite, combos-IsState, of_hashes, hashed,
}

module _ (sha256 : Bytes → Bytes) (per_pcr : List PcrValues) where
  -- Some slot has this composite.
  abbrev pub OfSome : List (Option Bytes) → Bytes → Type 0
  OfSome slots c = (slot : Option Bytes) × Member slot slots × IsComposite sha256 per_pcr c slot

  slots_ok :
      (o : Option (List (List Bytes))) (r : Option (List Bytes)) (cs : List Bytes)
      → elim o [
        | none ↦ none
        | some cols ↦ elim r [
          | none ↦ none
          | some rest ↦ some (hashes sha256 (combos ([] ∷ []) cols) ++ rest)
        ]
      ]
        ≡ some cs
      → (cols : List (List Bytes)) × (rest : List Bytes) × (o ≡ some cols)
        × (r ≡ some rest)
        × (cs ≡ hashes sha256 (combos ([] ∷ []) cols) ++ rest)
  slots_ok none r cs e = absurd (none_ne_some e)
  slots_ok (some cols) none cs e = absurd (none_ne_some e)
  slots_ok (some cols) (some rest) cs e = (cols, rest, refl, refl, sym (some-injective _ _ e))

  of_slots_sound :
      (slots : List (Option Bytes)) (cs : List Bytes) (c : Bytes)
      → of_slots sha256 slots per_pcr ≡ some cs
      → Member c cs
      → OfSome slots c
  unfolding of_slots
  of_slots_sound [] cs c e m =
      let same : [] ≡ cs = some-injective _ _ e in absurd (subst (Member c) (sym same) m)
  of_slots_sound (slot ∷ slots) cs c e m =
      let (cols, rest, ec, er, is) =
        slots_ok (columns slot per_pcr) (of_slots sha256 slots per_pcr) cs e in
      elim (either c (hashes sha256 (combos ([] ∷ []) cols)) rest (subst (Member c) is m)) [
        | inl here ↦
            let (w, mw, h) = of_hashes sha256 (combos ([] ∷ []) cols) c here in
            (slot, inl refl, (w, (combos-IsState slot per_pcr cols w ec).0 mw, h))
        | inr later ↦
            let (s, ms, found) = of_slots_sound slots rest c er later in (s, inr ms, found)
      ]

  of_slots_complete :
      (slots : List (Option Bytes)) (cs : List Bytes) (c : Bytes) (slot : Option Bytes)
      → of_slots sha256 slots per_pcr ≡ some cs
      → Member slot slots
      → IsComposite sha256 per_pcr c slot
      → Member c cs
  unfolding of_slots
  of_slots_complete [] cs c slot e m found = elim m [ ]
  of_slots_complete (s ∷ slots) cs c slot e (inl same) (w, state, h) =
      let (cols, rest, ec, er, is) =
        slots_ok (columns s per_pcr) (of_slots sha256 slots per_pcr) cs e in
      subst (Member c) (sym is) (
        front c (hashes sha256 (combos ([] ∷ []) cols)) rest (
          hashed sha256 (combos ([] ∷ []) cols) c w
            ((combos-IsState s per_pcr cols w ec).1 (subst (λ x. IsState x per_pcr w) same state))
            h))
  of_slots_complete (s ∷ slots) cs c slot e (inr m) found =
      let (cols, rest, ec, er, is) =
        slots_ok (columns s per_pcr) (of_slots sha256 slots per_pcr) cs e in
      subst (Member c) (sym is) (
        back c (hashes sha256 (combos ([] ∷ []) cols)) rest
          (of_slots_complete slots rest c slot er m found))

  composites_ok :
      (o : Option (List Bytes)) (cs : List Bytes)
      → elim o [ none ↦ none | some xs ↦ some (dedup_digests (sort_digests xs)) ] ≡ some cs
      → (xs : List Bytes) × (o ≡ some xs) × (cs ≡ dedup_digests (sort_digests xs))
  composites_ok none cs e = absurd (none_ne_some e)
  composites_ok (some xs) cs e = (xs, refl, sym (some-injective _ _ e))

  -- A composite is admitted exactly when one slot has it.
  pub composites_exact :
      (slots : Option (List Bytes)) (cs : List Bytes) (c : Bytes)
      → composites sha256 slots per_pcr ≡ some cs
      → Member c cs ↔ OfSome (slot_names slots) c
  unfolding composites
  composites_exact slots cs c e =
      let (xs, ex, is) = composites_ok (of_slots sha256 (slot_names slots) per_pcr) cs e in
      (
        λ m. of_slots_sound (slot_names slots) xs c ex (
            of_sort digest_lt c xs (of_dedup bytes_eq c (sort_digests xs) (subst (Member c) is m))),
        λ (slot, m, found). subst (Member c) (sym is) (
            deduped bytes_eq bytes_eq→eq c (sort_digests xs)
              (sorted digest_lt c xs (of_slots_complete (slot_names slots) xs c slot ex m found))),
      )
