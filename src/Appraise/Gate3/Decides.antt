-- ===== src/Appraise/Gate3/Decides.antt =====
-- When gate 3 accepts (crates/attest-appraise/src/appraisal.rs).
use tactiq_attest.Base.{
  Bytes, Bool, true, false, not, List, [], ◌∷◌, ◌++◌, ◌≡◌, ◌⊎◌, inl, inr, refl, sym, ap, ◌∙◌, subst,
  Option, none, some, ok, err, All, Member, bytes_eq, bytes_eq→eq, bytes_eq_refl, Bool-cases, ==→eq,
  eq→==, ◌==◌, if◌then◌else◌, arith, bind-eq-ok, ok-injective, ◌↔◌,
}
use tactiq_attest.Messages.{R}
use tactiq_attest.Envelope.Bundle.{Section, parse_bundle}
use tactiq_attest.Appraise.Verdict.{
  EvidenceKind, Reason, from_tag, same_kind, accept, reject, unrecognized_state, evidence_missing,
  evidence_unparseable, computing_verdict,
}
use tactiq_attest.Appraise.Reference.{
  PcrSelection, from_canonical, same_selection, AttestedState, ReferenceSet, any_equal, contains,
  computing_reference,
}
use tactiq_attest.Appraise.Gate1.{Authenticated}
use tactiq_attest.Appraise.Gate3.{
  has_kind, collect_kinds, presented_kinds, first_missing, completeness, gate3, from_authenticated,
  appraise,
}

any_equal-Member : (gs : List Bytes) (c : Bytes) → any_equal gs c ≡ true → Member c gs
unfolding computing_reference
any_equal-Member [] c e = cc
any_equal-Member (g ∷ gs) c e = elim (Bool-cases (bytes_eq g c)) [
  | inl p ↦ inl (sym (bytes_eq→eq g c p))
  | inr p ↦ inr (any_equal-Member gs c (rw p at e))
]

Member-any_equal : (gs : List Bytes) (c : Bytes) → Member c gs → any_equal gs c ≡ true
unfolding computing_reference
Member-any_equal [] c m = elim m [ ]
Member-any_equal (g ∷ gs) c (inl p) = rw (← p, bytes_eq_refl c)
Member-any_equal (g ∷ gs) c (inr m) = elim (Bool-cases (bytes_eq g c)) [
  | inl p ↦ rw p
  | inr p ↦ rw p (Member-any_equal gs c m)
]

same_kind→eq : (a b : EvidenceKind) → same_kind a b ≡ true → a ≡ b
unfolding computing_verdict
same_kind→eq a b e = ground arith

same_kind_refl : (a : EvidenceKind) → same_kind a a ≡ true
unfolding computing_verdict
same_kind_refl a = ground arith

has_kind-Member : (ks : List EvidenceKind) (k : EvidenceKind) → has_kind ks k ≡ true → Member k ks
unfolding has_kind
has_kind-Member [] k e = cc
has_kind-Member (j ∷ ks) k e = elim (Bool-cases (same_kind j k)) [
  | inl p ↦ inl (sym (same_kind→eq j k p))
  | inr p ↦ inr (has_kind-Member ks k (rw p at e))
]

Member-has_kind : (ks : List EvidenceKind) (k : EvidenceKind) → Member k ks → has_kind ks k ≡ true
unfolding has_kind
Member-has_kind [] k m = elim m [ ]
Member-has_kind (j ∷ ks) k (inl p) = rw (← p, same_kind_refl k)
Member-has_kind (j ∷ ks) k (inr m) = elim (Bool-cases (same_kind j k)) [
  | inl p ↦ rw p
  | inr p ↦ rw p (Member-has_kind ks k m)
]

first_missing-none :
    (ks presented : List EvidenceKind)
    → first_missing ks presented ≡ none
    → All (λ k. Member k presented) ks
unfolding first_missing
first_missing-none [] presented e = tt
first_missing-none (k ∷ ks) presented e = elim (Bool-cases (has_kind presented k)) [
  | inl p ↦ (has_kind-Member presented k p, first_missing-none ks presented (rw p at e))
  | inr p ↦ absurd (some_ne_none k (rw p at e))
]
  where
    some_ne_none : (k : EvidenceKind) → some k ≡ none → ⊥
    some_ne_none k e = cc

none-first_missing :
    (ks presented : List EvidenceKind)
    → All (λ k. Member k presented) ks
    → first_missing ks presented ≡ none
unfolding first_missing
none-first_missing [] presented h = refl
none-first_missing (k ∷ ks) presented (m, h) =
    rw (Member-has_kind presented k m) (none-first_missing ks presented h)

same_selection→eq : (s t : PcrSelection) → same_selection s t ≡ true → s ≡ t
unfolding computing_reference
same_selection→eq s t e = elim (Bool-cases (s.hash_alg == t.hash_alg)) [
  | inl p ↦
      let mask : bytes_eq s.pcr_mask t.pcr_mask ≡ true = rw p at e in
      λ i. record { hash_alg = ==→eq _ _ p i; pcr_mask = bytes_eq→eq _ _ mask i }
  | inr p ↦ absurd (false_ne_true (rw p at e))
]
  where
    false_ne_true : false ≡ true → ⊥
    false_ne_true e = cc

same_selection_refl : (s : PcrSelection) → same_selection s s ≡ true
unfolding computing_reference
same_selection_refl s = rw (eq→== s.hash_alg s.hash_alg refl, bytes_eq_refl s.pcr_mask)

-- The state and the evidence that a reference set asks for.
pub record Meets (attested : AttestedState) (presented : List EvidenceKind) (refs : ReferenceSet)
    : Type 0 where
  pub selection : attested.selection ≡ refs.expected_selection
  pub composite : Member attested.composite refs.allowed
  pub evidence : All (λ k. Member k presented) refs.required_evidence

pub accept_ne_reject : (r : Reason) → reject r ≡ accept → ⊥
accept_ne_reject r e = cc

-- The three tests of gate 3 in order.
gate3_tests :
    (b c : Bool) (o : Option EvidenceKind)
    → (if not b
        then reject unrecognized_state
        else if not c
        then reject unrecognized_state
        else completeness o)
      ≡ accept
    → (b ≡ true) × (c ≡ true) × (o ≡ none)
gate3_tests true true none e = (refl, refl, refl)
gate3_tests true true (some k) e = absurd (accept_ne_reject (evidence_missing k) e)
gate3_tests true false o e = absurd (accept_ne_reject unrecognized_state e)
gate3_tests false c o e = absurd (accept_ne_reject unrecognized_state e)

-- Gate 3 accepts only a state with the expected selection and an allowed composite, with all
-- required kinds of evidence presented.
pub gate3_sound :
    (attested : AttestedState) (presented : List EvidenceKind) (refs : ReferenceSet)
    → gate3 attested presented refs ≡ accept
    → Meets attested presented refs
unfolding gate3
gate3_sound attested presented refs e =
    let (b, c, o) =
      gate3_tests (same_selection attested.selection refs.expected_selection)
        (contains refs attested.composite) (first_missing refs.required_evidence presented) e in
    record {
      selection = same_selection→eq _ _ b;
      composite = any_equal-Member refs.allowed attested.composite c;
      evidence = first_missing-none refs.required_evidence presented o;
    }

-- Gate 3 accepts every state with the expected selection and an allowed composite when all
-- required kinds of evidence are presented.
pub gate3_complete :
    (attested : AttestedState) (presented : List EvidenceKind) (refs : ReferenceSet)
    → Meets attested presented refs
    → gate3 attested presented refs ≡ accept
unfolding gate3
gate3_complete attested presented refs m =
    let same : same_selection attested.selection refs.expected_selection ≡ true =
      ap (same_selection attested.selection) (sym m.selection)
      ∙ same_selection_refl attested.selection in
    rw (
      same,
      Member-any_equal refs.allowed attested.composite m.composite,
      none-first_missing refs.required_evidence presented m.evidence,
    )

-- The sections of a bundle present a kind.
abbrev pub Presents : List Section → EvidenceKind → Type 0
Presents ss k = (s : Section) × Member s ss × (from_tag s.tag ≡ some k)

Member-append :
    (ks : List EvidenceKind) (j k : EvidenceKind)
    → Member k (ks ++ (j ∷ []))
    → Member k ks ⊎ (k ≡ j)
Member-append [] j k (inl p) = inr p
Member-append [] j k (inr m) = elim m [ ]
Member-append (i ∷ ks) j k (inl p) = inl (inl p)
Member-append (i ∷ ks) j k (inr m) = elim (Member-append ks j k m) [
  | inl n ↦ inl (inr n)
  | inr p ↦ inr p
]

pushed :
    (b : Bool) (out : List EvidenceKind) (j k : EvidenceKind)
    → Member k (if b then out else out ++ (j ∷ []))
    → Member k out ⊎ (k ≡ j)
pushed true out j k m = inl m
pushed false out j k m = Member-append out j k m

later_section :
    (s : Section) (ss : List Section) (k : EvidenceKind) → Presents ss k → Presents (s ∷ ss) k
later_section s ss k (t, m, e) = (t, inr m, e)

-- Nothing is collected that no section presents.
Member-collect_kinds :
    (out : List EvidenceKind) (ss : List Section) (k : EvidenceKind)
    → Member k (collect_kinds out ss)
    → Member k out ⊎ Presents ss k
unfolding collect_kinds
Member-collect_kinds out [] k m = inl m
Member-collect_kinds out (s ∷ ss) k m =
    at_tag (λ o. Member-collect_kinds o ss k) (from_tag s.tag) refl m
  where
    at_tag :
        ((out : List EvidenceKind) → Member k (collect_kinds out ss) → Member k out ⊎ Presents ss k)
        → (o : Option EvidenceKind) → from_tag s.tag ≡ o
        → Member k (elim o [
          | none ↦ collect_kinds out ss
          | some kind ↦ collect_kinds (if has_kind out kind then out else out ++ (kind ∷ [])) ss
        ])
        → Member k out ⊎ Presents (s ∷ ss) k
    at_tag rest none e m = elim (rest out m) [
      | inl n ↦ inl n
      | inr p ↦ inr (later_section s ss k p)
    ]
    at_tag rest (some kind) e m = elim (rest _ m) [
      | inl n ↦ elim (pushed (has_kind out kind) out kind k n) [
        | inl old ↦ inl old
        | inr new ↦ inr (s, inl refl, e ∙ ap some (sym new))
      ]
      | inr p ↦ inr (later_section s ss k p)
    ]

Presents-presented_kinds :
    (bundle : Bytes) (kinds : List EvidenceKind)
    → presented_kinds bundle ≡ ok kinds
    → (sections : List Section) × (parse_bundle bundle ≡ ok sections)
      × ((k : EvidenceKind) → Member k kinds → Presents sections k)
unfolding presented_kinds
Presents-presented_kinds bundle kinds e =
    let (sections, parsed, e') = bind-eq-ok (parse_bundle bundle) _ e in
    (
      sections,
      parsed,
      λ k m.
          only_there sections k
            (Member-collect_kinds [] sections k (subst (Member k) (sym (ok-injective e')) m)),
    )
  where
    only_there :
        (ss : List Section) (k : EvidenceKind) → Member k [] ⊎ Presents ss k → Presents ss k
    only_there ss k (inl m) = elim m [ ]
    only_there ss k (inr p) = p

All-map :
    {P Q : EvidenceKind → Type 0} (ks : List EvidenceKind)
    → ((k : EvidenceKind) → P k → Q k)
    → All P ks
    → All Q ks
All-map [] f h = tt
All-map (k ∷ ks) f (p, h) = (f k p, All-map ks f h)

-- An authenticated envelope that is accepted has the expected selection, a composite among the
-- allowed ones, and a bundle that parses and in which a section presents every required kind of
-- evidence.
pub appraise_sound :
    (auth : Authenticated) (refs : ReferenceSet)
    → appraise auth refs ≡ accept
    → (sections : List Section) × (from_canonical auth.pcr_selection ≡ refs.expected_selection)
      × Member auth.pcr_hash refs.allowed
      × (parse_bundle auth.evidence ≡ ok sections)
      × All (Presents sections) refs.required_evidence
unfolding appraise
appraise_sound auth refs e = at_kinds (presented_kinds auth.evidence) refl e
  where
    at_kinds :
        (r : R (List EvidenceKind))
        → presented_kinds auth.evidence ≡ r
        → elim r [
          | ok kinds ↦ gate3 (from_authenticated auth) kinds refs
          | err e ↦ reject evidence_unparseable
        ]
          ≡ accept
        → (sections : List Section) × (from_canonical auth.pcr_selection ≡ refs.expected_selection)
          × Member auth.pcr_hash refs.allowed
          × (parse_bundle auth.evidence ≡ ok sections)
          × All (Presents sections) refs.required_evidence
    at_kinds (ok kinds) p e =
        let met : Meets (from_authenticated auth) kinds refs =
          gate3_sound (from_authenticated auth) kinds refs e in
        let (sections, parsed, presents) = Presents-presented_kinds auth.evidence kinds p in
        (
          sections,
          met.selection,
          met.composite,
          parsed,
          All-map refs.required_evidence presents met.evidence,
        )
    at_kinds (err x) p e = absurd (accept_ne_reject evidence_unparseable e)

-- Gate 3 accepts exactly the states with the expected selection and an allowed composite for which
-- all required kinds of evidence are presented.
pub gate3_exact :
    (attested : AttestedState) (presented : List EvidenceKind) (refs : ReferenceSet)
    → (gate3 attested presented refs ≡ accept) ↔ Meets attested presented refs
gate3_exact attested presented refs =
    (gate3_sound attested presented refs, gate3_complete attested presented refs)
