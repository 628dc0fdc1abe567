-- ===== src/Appraise/Manifest/Total.antt =====
-- The two panics in the computation of composites (crates/attest-appraise/src/rim.rs) are not reached.
use tactiq_attest.Base.{
  Bytes, true, false, List, [], ◌∷◌, ◌++◌, ◌≡◌, ◌↔◌, ◌⊎◌, refl, sym, ap, ◌∙◌, subst, Option, none,
  some, some-injective, bytes_eq, bytes_eq→eq, bytes_eq_refl, Bool-cases, inl, inr, Member,
  if◌then◌else◌, arith,
}
use tactiq_attest.Appraise.Manifest.{
  PcrValues, any, by_slot, lookup, column, columns, keys, same_names, agree, name_slots, combos,
  hashes, sort_digests, dedup_digests, of_slots, somes, slot_names, composites,
}
use tactiq_attest.Appraise.Manifest.Slots.{none_ne_some}
use tactiq_attest.Appraise.Manifest.Exact.{OfSome, composites_exact}

same_names→eq : (xs ys : List Bytes) → same_names xs ys ≡ true → xs ≡ ys
unfolding same_names
same_names→eq [] [] h = refl
same_names→eq [] (y ∷ ys) h = cc
same_names→eq (x ∷ xs) [] h = cc
same_names→eq (x ∷ xs) (y ∷ ys) h = ground (arith, bytes_eq→eq x y, same_names→eq xs ys)

-- The names of a PCR become the slots, or are the slots that were there.
agree-Fixed :
    (slots : Option (List Bytes)) (names s : List Bytes)
    → agree slots names ≡ some s
    → (s ≡ names) × ((slots ≡ none) ⊎ (slots ≡ some s))
unfolding agree
agree-Fixed slots [] s e = absurd (none_ne_some e)
agree-Fixed none (n ∷ ns) s e = (sym (some-injective _ _ e), inl refl)
agree-Fixed (some t) (n ∷ ns) s e = elim (Bool-cases (same_names t (n ∷ ns))) [
  | inl p ↦
      let same : t ≡ s = some-injective _ _ (rw p at e) in
      (sym same ∙ same_names→eq t (n ∷ ns) p, inr (ap some same))
  | inr p ↦ absurd (none_ne_some (rw p at e))
]

lookup_there :
    (s : Bytes) (m : List (Bytes × Bytes)) → Member s (keys m) → (v : Bytes) × (lookup s m ≡ some v)
unfolding keys lookup
lookup_there s [] h = elim h [ ]
lookup_there s ((k, v) ∷ m) h = elim (Bool-cases (bytes_eq k s)) [
  | inl p ↦ (v, rw p refl)
  | inr p ↦ later p h (lookup_there s m)
]
  where
    later :
        bytes_eq k s ≡ false
        → (s ≡ k) ⊎ Member s (keys m)
        → (Member s (keys m) → (w : Bytes) × (lookup s m ≡ some w))
        → (w : Bytes) × ((if bytes_eq k s then some v else lookup s m) ≡ some w)
    later p (inl e) ih = (v, rw (ap (bytes_eq k) e ∙ bytes_eq_refl k) refl)
    later p (inr n) ih = let (w, found) = ih n in (w, rw p found)

column_there :
    (s : Bytes) (m : List (Bytes × Bytes))
    → Member s (keys m)
    → (col : List Bytes) × (column (some s) (by_slot m) ≡ some col)
unfolding column
column_there s m h = let (v, found) = lookup_there s m h in (v ∷ [], rw (found, column) refl)

columns_cons :
    (slot : Option Bytes) (p : PcrValues) (ps : List PcrValues)
    → (col : List Bytes) × (column slot p ≡ some col)
    → (cols : List (List Bytes)) × (columns slot ps ≡ some cols)
    → (cols : List (List Bytes)) × (columns slot (p ∷ ps) ≡ some cols)
unfolding columns
columns_cons slot p ps (col, e) (cols, es) = (col ∷ cols, rw (e, es, columns) refl)

somes_inv :
    (slot : Option Bytes) (ss : List Bytes)
    → Member slot (somes ss)
    → (s : Bytes) × (slot ≡ some s) × Member s ss
somes_inv slot [] h = elim h [ ]
somes_inv slot (s ∷ ss) (inl e) = (s, e, inl refl)
somes_inv slot (s ∷ ss) (inr m) = let (t, e, mt) = somes_inv slot ss m in (t, e, inr mt)

none_left : (slot : Option Bytes) → columns slot [] ≡ some []
unfolding columns
none_left slot = refl

any_column : (slot : Option Bytes) (ds : List Bytes) → column slot (any ds) ≡ some ds
unfolding column
any_column slot ds = refl

-- What the loop over the PCRs leaves: the slots it had, if any, and values of every PCR in each slot.
abbrev Agreed : Option (List Bytes) → List PcrValues → Option (List Bytes) → Type 0
Agreed slots ps found =
    ((slots ≡ none) ⊎ (found ≡ slots))
    × ((slot : Option Bytes)
        → Member slot (slot_names found)
        → (cols : List (List Bytes)) × (columns slot ps ≡ some cols))

name_slots-Agreed :
    (slots : Option (List Bytes)) (ps : List PcrValues) (found : Option (List Bytes))
    → name_slots slots ps ≡ some found
    → Agreed slots ps found
unfolding name_slots
name_slots-Agreed slots [] found e =
    (inr (sym (some-injective _ _ e)), λ slot m. ([], none_left slot))
name_slots-Agreed slots (any ds ∷ ps) found e =
    let (kept, all) = name_slots-Agreed slots ps found e in
    (kept, λ slot m. columns_cons slot (any ds) ps (ds, any_column slot ds) (all slot m))
name_slots-Agreed slots (by_slot m ∷ ps) found e =
    agreed (agree slots (keys m)) refl e (λ s h. name_slots-Agreed (some s) ps found h)
  where
    in_slot :
        (s : List Bytes)
        → s ≡ keys m
        → Agreed (some s) ps found
        → (slot : Option Bytes) → Member slot (slot_names found)
        → (cols : List (List Bytes)) × (columns slot (by_slot m ∷ ps) ≡ some cols)
    in_slot s same (inl gone, all) slot h = absurd (none_ne_some (sym gone))
    in_slot s same (inr is, all) slot h =
        let (t, et, mt) = somes_inv slot s (subst (λ f. Member slot (slot_names f)) is h) in
        let there = column_there t m (subst (Member t) same mt) in
        columns_cons slot (by_slot m) ps
          (subst (λ x. (col : List Bytes) × (column x (by_slot m) ≡ some col)) (sym et) there)
          (all slot h)

    kept_slots :
        (s : List Bytes)
        → (slots ≡ none) ⊎ (slots ≡ some s)
        → (some s ≡ none) ⊎ (found ≡ some s)
        → (slots ≡ none) ⊎ (found ≡ slots)
    kept_slots s (inl gone) is = inl gone
    kept_slots s (inr at) (inl gone) = absurd (none_ne_some (sym gone))
    kept_slots s (inr at) (inr is) = inr (is ∙ sym at)

    agreed :
        (o : Option (List Bytes))
        → agree slots (keys m) ≡ o
        → elim o [ none ↦ none | some s ↦ name_slots (some s) ps ] ≡ some found
        → ((s : List Bytes) → name_slots (some s) ps ≡ some found → Agreed (some s) ps found)
        → Agreed slots (by_slot m ∷ ps) found
    agreed none ea h ih = absurd (none_ne_some h)
    agreed (some s) ea h ih =
        let (same, was) = agree-Fixed slots (keys m) s ea in
        (kept_slots s was (ih s h).0, in_slot s same (ih s h))

module _ (sha256 : Bytes → Bytes) (per_pcr : List PcrValues) where
  of_slots_total :
      (slots : List (Option Bytes))
      → ((slot : Option Bytes)
          → Member slot slots
          → (cols : List (List Bytes)) × (columns slot per_pcr ≡ some cols))
      → (cs : List Bytes) × (of_slots sha256 slots per_pcr ≡ some cs)
  unfolding of_slots
  of_slots_total [] all = ([], refl)
  of_slots_total (slot ∷ slots) all =
      let (cols, e) = all slot (inl refl) in
      let (rest, er) = of_slots_total slots (λ s m. all s (inr m)) in
      (hashes sha256 (combos ([] ∷ []) cols) ++ rest, rw (e, er, of_slots) refl)

  composites_total :
      (slots : Option (List Bytes))
      → name_slots none per_pcr ≡ some slots
      → (cs : List Bytes) × (composites sha256 slots per_pcr ≡ some cs)
  unfolding composites
  composites_total slots e =
      let (cs, is) = of_slots_total (slot_names slots) (name_slots-Agreed none per_pcr slots e).1 in
      (dedup_digests (sort_digests cs), rw (is, composites) refl)

  -- When the loop over the PCRs accepts their slots, the composites are computed (a slot is not
  -- missing from a PCR), and a digest is among them exactly when it is the digest of what the PCRs
  -- present in one slot, one value behind the other: values of different slots are never mixed.
  pub admitted_exact :
      (slots : Option (List Bytes))
      → name_slots none per_pcr ≡ some slots
      → (cs : List Bytes) × (composites sha256 slots per_pcr ≡ some cs)
        × ((c : Bytes) → Member c cs ↔ OfSome sha256 per_pcr (slot_names slots) c)
  admitted_exact slots e =
      let (cs, is) = composites_total slots e in
      (cs, is, λ c. composites_exact sha256 per_pcr slots cs c is)
