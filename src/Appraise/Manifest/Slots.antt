-- ===== src/Appraise/Manifest/Slots.antt =====
-- The composites of a manifest (crates/attest-appraise/src/rim.rs) are the states of one slot each.
use tactiq_attest.Base.{
  Bytes, List, [], ◌∷◌, ◌++◌, ◌≡◌, ◌↔◌, ◌⊎◌, refl, sym, ap, ◌∙◌, subst, Option, none, some,
  some-injective, inl, inr, Member,
}
use tactiq_attest.Appraise.Manifest.{
  PcrValues, any, by_slot, lookup, column, columns, combos, hashes,
}
use tactiq_attest.Appraise.Manifest.Composites.{
  Presents, IsState, InColumns, combos-Member, Member-combos,
}

pub none_ne_some {ℓ} : {A : Type ℓ} {x : A} → none ≡ some x → ⊥
none_ne_some e = cc

slot_column :
    (s : Bytes) (m : List (Bytes × Bytes)) (o : Option Bytes) (col : List Bytes)
    → lookup s m ≡ o
    → elim o [ none ↦ none | some v ↦ some (v ∷ []) ] ≡ some col
    → (d : Bytes) → Member d col ↔ (lookup s m ≡ some d)
slot_column s m none col e h d = absurd (none_ne_some h)
slot_column s m (some v) col e h d =
    let same : v ∷ [] ≡ col = some-injective _ _ h in (there same, back_to same)
  where
    there : v ∷ [] ≡ col → Member d col → lookup s m ≡ some d
    there same x = only (subst (Member d) (sym same) x)
      where
        only : (d ≡ v) ⊎ ⊥ → lookup s m ≡ some d
        only (inl p) = e ∙ ap some (sym p)
        only (inr x) = elim x [ ]

    back_to : v ∷ [] ≡ col → lookup s m ≡ some d → Member d col
    back_to same x = subst (Member d) same (inl (some-injective _ _ (sym x ∙ e)))

column-Presents :
    (slot : Option Bytes) (p : PcrValues) (col : List Bytes)
    → column slot p ≡ some col
    → (d : Bytes) → Member d col ↔ Presents slot p d
unfolding column
column-Presents slot (any ds) col e d =
    let same : ds ≡ col = some-injective _ _ e in
    (λ m. subst (Member d) (sym same) m, λ m. subst (Member d) same m)
column-Presents (some s) (by_slot m) col e d = slot_column s m (lookup s m) col refl e d
column-Presents none (by_slot m) col e d = absurd (none_ne_some e)

columns_ok :
    (o : Option (List Bytes)) (r : Option (List (List Bytes))) (cols : List (List Bytes))
    → elim o [ none ↦ none | some col ↦ elim r [ none ↦ none | some cs ↦ some (col ∷ cs) ] ]
      ≡ some cols
    → (col : List Bytes) × (cs : List (List Bytes)) × (o ≡ some col)
      × (r ≡ some cs)
      × (cols ≡ col ∷ cs)
columns_ok none r cols e = absurd (none_ne_some e)
columns_ok (some col) none cols e = absurd (none_ne_some e)
columns_ok (some col) (some cs) cols e = (col, cs, refl, refl, sym (some-injective _ _ e))

columns-IsState :
    (slot : Option Bytes) (ps : List PcrValues) (cols : List (List Bytes)) (w : Bytes)
    → columns slot ps ≡ some cols
    → InColumns cols w ↔ IsState slot ps w
unfolding columns
columns-IsState slot [] cols w e =
    let same : [] ≡ cols = some-injective _ _ e in
    (λ h. subst (λ c. InColumns c w) (sym same) h, λ h. subst (λ c. InColumns c w) same h)
columns-IsState slot (p ∷ ps) cols w e =
    let (col, cs, ec, er, is) = columns_ok (column slot p) (columns slot ps) cols e in
    (
      λ h.
          let (d, rest, m, more, whole) = subst (λ c. InColumns c w) is h in
          (
            d,
            rest,
            (column-Presents slot p col ec d).0 m,
            (columns-IsState slot ps cs rest er).0 more,
            whole,
          ),
      λ (d, rest, shown, more, whole).
          subst (λ c. InColumns c w) (sym is)
            (
              d,
              rest,
              (column-Presents slot p col ec d).1 shown,
              (columns-IsState slot ps cs rest er).1 more,
              whole,
            ),
    )

pub combos-IsState :
    (slot : Option Bytes) (ps : List PcrValues) (cols : List (List Bytes)) (w : Bytes)
    → columns slot ps ≡ some cols
    → Member w (combos ([] ∷ []) cols) ↔ IsState slot ps w
combos-IsState slot ps cols w e = (
  λ m.
      let (pre, tail, mp, more, whole) = Member-combos cols ([] ∷ []) w m in
      let empty : pre ≡ [] = only pre mp in
      (columns-IsState slot ps cols w e).0
        (subst (InColumns cols) (sym (whole ∙ ap (λ t. t ++ tail) empty)) more),
  λ h. combos-Member cols ([] ∷ []) [] w (inl refl) ((columns-IsState slot ps cols w e).1 h),
)
  where
    only : (pre : Bytes) → (pre ≡ []) ⊎ ⊥ → pre ≡ []
    only pre (inl p) = p
    only pre (inr x) = elim x [ ]

-- A composite of the slot: the digest of one of its states.
abbrev pub IsComposite : (Bytes → Bytes) → List PcrValues → Bytes → Option Bytes → Type 0
IsComposite sha256 ps c slot = (w : Bytes) × IsState slot ps w × (c ≡ sha256 w)

pub of_hashes :
    (sha256 : Bytes → Bytes) (cs : List Bytes) (c : Bytes)
    → Member c (hashes sha256 cs)
    → (w : Bytes) × Member w cs × (c ≡ sha256 w)
unfolding hashes
of_hashes sha256 [] c m = elim m [ ]
of_hashes sha256 (x ∷ cs) c (inl e) = (x, inl refl, e)
of_hashes sha256 (x ∷ cs) c (inr m) = let (w, mw, e) = of_hashes sha256 cs c m in (w, inr mw, e)

pub hashed :
    (sha256 : Bytes → Bytes) (cs : List Bytes) (c w : Bytes)
    → Member w cs
    → c ≡ sha256 w
    → Member c (hashes sha256 cs)
unfolding hashes
hashed sha256 [] c w m e = elim m [ ]
hashed sha256 (x ∷ cs) c w (inl p) e = inl (e ∙ ap sha256 p)
hashed sha256 (x ∷ cs) c w (inr m) e = inr (hashed sha256 cs c w m e)
