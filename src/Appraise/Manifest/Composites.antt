-- ===== src/Appraise/Manifest/Composites.antt =====
-- Which composites crates/attest-appraise/src/rim.rs admits: exactly those of one slot.
use tactiq_attest.Base.{
  Bytes, List, [], ◌∷◌, ◌++◌, ◌≡◌, ◌⊎◌, refl, sym, ap, ◌∙◌, subst, Option, none, some, inl, inr,
  Member, append_assoc, append-nil,
}
use tactiq_attest.Appraise.Manifest.{PcrValues, any, by_slot, lookup, append_each, extend, combos}

-- A PCR presents this digest in this slot.
abbrev pub Presents : Option Bytes → PcrValues → Bytes → Type 0
Presents slot (any ds) d = Member d ds
Presents (some s) (by_slot m) d = lookup s m ≡ some d
Presents none (by_slot m) d = ⊥

-- The digests that the PCRs present in one slot, one behind the other.
abbrev pub IsState : Option Bytes → List PcrValues → Bytes → Type 0
IsState slot [] whole = whole ≡ []
IsState slot (p ∷ ps) whole =
    (d : Bytes) × (rest : Bytes) × Presents slot p d × IsState slot ps rest × (whole ≡ d ++ rest)

-- The same for columns.
abbrev pub InColumns : List (List Bytes) → Bytes → Type 0
InColumns [] whole = whole ≡ []
InColumns (col ∷ cols) whole =
    (d : Bytes) × (rest : Bytes) × Member d col × InColumns cols rest × (whole ≡ d ++ rest)

pub front : (x : Bytes) (xs ys : List Bytes) → Member x xs → Member x (xs ++ ys)
front x [] ys m = elim m [ ]
front x (y ∷ xs) ys (inl e) = inl e
front x (y ∷ xs) ys (inr m) = inr (front x xs ys m)

pub back : (x : Bytes) (xs ys : List Bytes) → Member x ys → Member x (xs ++ ys)
back x [] ys m = m
back x (y ∷ xs) ys m = inr (back x xs ys m)

pub either : (x : Bytes) (xs ys : List Bytes) → Member x (xs ++ ys) → Member x xs ⊎ Member x ys
either x [] ys m = inr m
either x (y ∷ xs) ys (inl e) = inl (inl e)
either x (y ∷ xs) ys (inr m) = elim (either x xs ys m) [ inl a ↦ inl (inr a) | inr b ↦ inr b ]

append_each-Member :
    (pre d : Bytes) (ds : List Bytes) → Member d ds → Member (pre ++ d) (append_each pre ds)
unfolding append_each
append_each-Member pre d [] m = elim m [ ]
append_each-Member pre d (x ∷ ds) (inl e) = inl (ap (λ t. pre ++ t) e)
append_each-Member pre d (x ∷ ds) (inr m) = inr (append_each-Member pre d ds m)

Member-append_each :
    (pre w : Bytes) (ds : List Bytes)
    → Member w (append_each pre ds)
    → (d : Bytes) × Member d ds × (w ≡ pre ++ d)
unfolding append_each
Member-append_each pre w [] m = elim m [ ]
Member-append_each pre w (x ∷ ds) (inl e) = (x, inl refl, e)
Member-append_each pre w (x ∷ ds) (inr m) =
    let (d, md, e) = Member-append_each pre w ds m in (d, inr md, e)

extend-Member :
    (pre d : Bytes) (pres col : List Bytes)
    → Member pre pres
    → Member d col
    → Member (pre ++ d) (extend pres col)
unfolding extend
extend-Member pre d [] col m md = elim m [ ]
extend-Member pre d (p ∷ pres) col (inl e) md =
    front _ (append_each p col) (extend pres col)
      (subst (λ q. Member (q ++ d) (append_each p col)) (sym e) (append_each-Member p d col md))
extend-Member pre d (p ∷ pres) col (inr m) md =
    back _ (append_each p col) _ (extend-Member pre d pres col m md)

Member-extend :
    (w : Bytes) (pres col : List Bytes)
    → Member w (extend pres col)
    → (pre : Bytes) × (d : Bytes) × Member pre pres × Member d col × (w ≡ pre ++ d)
unfolding extend
Member-extend w [] col m = elim m [ ]
Member-extend w (p ∷ pres) col m = elim (either w (append_each p col) (extend pres col) m) [
  | inl a ↦ let (d, md, e) = Member-append_each p w col a in (p, d, inl refl, md, e)
  | inr b ↦ let (pre, d, mp, md, e) = Member-extend w pres col b in (pre, d, inr mp, md, e)
]

pub combos-Member :
    (cols : List (List Bytes)) (acc : List Bytes) (pre tail : Bytes)
    → Member pre acc
    → InColumns cols tail
    → Member (pre ++ tail) (combos acc cols)
unfolding combos
combos-Member [] acc pre tail m e =
    subst (λ t. Member t acc) (sym (ap (λ t. pre ++ t) e ∙ append-nil pre)) m
combos-Member (col ∷ cols) acc pre tail m (d, rest, md, more, e) =
    subst (λ t. Member t (combos (extend acc col) cols))
      (append_assoc pre d rest ∙ ap (λ t. pre ++ t) (sym e))
      (combos-Member cols (extend acc col) (pre ++ d) rest (extend-Member pre d acc col m md) more)

pub Member-combos :
    (cols : List (List Bytes)) (acc : List Bytes) (w : Bytes)
    → Member w (combos acc cols)
    → (pre : Bytes) × (tail : Bytes) × Member pre acc × InColumns cols tail × (w ≡ pre ++ tail)
unfolding combos
Member-combos [] acc w m = (w, [], m, refl, sym (append-nil w))
Member-combos (col ∷ cols) acc w m =
    let (q, tail, mq, more, e) = Member-combos cols (extend acc col) w m in
    let (pre, d, mp, md, f) = Member-extend q acc col mq in
    (
      pre,
      d ++ tail,
      mp,
      (d, tail, md, more, refl),
      e ∙ ap (λ t. t ++ tail) f ∙ append_assoc pre d tail,
    )
