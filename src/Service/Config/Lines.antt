-- ===== src/Service/Config/Lines.antt =====
-- Which lines crates/stop/src/config.rs counts for a key.
use tactiq_attest.Base.{
  Bytes, true, false, List, [], ◌∷◌, ◌++◌, Option, none, some, some-injective, bytes_eq,
  bytes_eq→eq, bytes_eq_refl, All, ◌≡◌, ◌≢◌, refl, sym, ap, ◌∙◌, Bool-cases, inl, inr,
}
use tactiq_attest.TpmAccess.{lines}
use tactiq_attest.Service.Config.{entry, entries_of, entries, all}

-- A line that does not give the key, as it is written there, any value.
abbrev pub Lacks : Bytes → Bytes → Type 0
Lacks k l = (w : Bytes) → entry l ≢ some (k, w)

-- Among the lines one gives the key this value, and no other gives it any.
pub record Once (ls : List Bytes) (k v : Bytes) : Type 0 where
  pub before : List Bytes
  pub line : Bytes
  pub after : List Bytes
  pub there : ls ≡ before ++ line ∷ after
  pub gives : entry line ≡ some (k, v)
  pub none_before : All (Lacks k) before
  pub none_after : All (Lacks k) after

abbrev put : Option (Bytes × Bytes) → List (Bytes × Bytes) → List (Bytes × Bytes)
put none e = e
put (some kv) e = kv ∷ e

entries_cons :
    (l : Bytes) (ls : List Bytes) (o : Option (Bytes × Bytes))
    → entry l ≡ o
    → entries_of (l ∷ ls) ≡ put o (entries_of ls)
unfolding entries_of
entries_cons l ls none h = rw (h, entries_of) refl
entries_cons l ls (some kv) h = rw (h, entries_of) refl

none-Lacks : (k l : Bytes) → entry l ≡ none → Lacks k l
none-Lacks k l h w e = no (sym h ∙ e)
  where
    no : ◌≡◌ {A = Option (Bytes × Bytes)} none (some (k, w)) → ⊥
    no f = cc

other-Lacks : (k l key v : Bytes) → entry l ≡ some (key, v) → bytes_eq key k ≡ false → Lacks k l
other-Lacks k l key v h other w e =
    let same = some-injective _ _ (sym h ∙ e) in
    let here : key ≡ k = λ i. (same i).0 in
    no (sym (bytes_eq_refl k) ∙ ap (λ x. bytes_eq x k) (sym here) ∙ other)
  where
    no : true ≡ false → ⊥
    no f = cc

all-hit :
    (key v k : Bytes) (e : List (Bytes × Bytes))
    → bytes_eq key k ≡ true
    → all ((key, v) ∷ e) k ≡ v ∷ all e k
unfolding all
all-hit key v k e h = rw h refl

all-miss :
    (key v k : Bytes) (e : List (Bytes × Bytes))
    → bytes_eq key k ≡ false
    → all ((key, v) ∷ e) k ≡ all e k
unfolding all
all-miss key v k e h = rw h refl

cons_not_empty : (v : Bytes) (vs : List Bytes) → v ∷ vs ≡ [] → ⊥
cons_not_empty v vs e = cc

absent : (ls : List Bytes) (k : Bytes) → all (entries_of ls) k ≡ [] → All (Lacks k) ls
absent [] k e = tt
absent (l ∷ ls) k e =
    by_entry (absent ls k) (entry l) refl
      (ap (λ x. all x k) (sym (entries_cons l ls (entry l) refl)) ∙ e)
  where
    by_entry :
        (all (entries_of ls) k ≡ [] → All (Lacks k) ls)
        → (o : Option (Bytes × Bytes)) → entry l ≡ o
        → all (put o (entries_of ls)) k ≡ []
        → All (Lacks k) (l ∷ ls)
    by_entry later none h f = (none-Lacks k l h, later f)
    by_entry later (some (key, v)) h f = elim (Bool-cases (bytes_eq key k)) [
      | inl p ↦
          absurd
            (cons_not_empty v (all (entries_of ls) k) (sym (all-hit key v k (entries_of ls) p) ∙ f))
      | inr p ↦ (other-Lacks k l key v h p, later (sym (all-miss key v k (entries_of ls) p) ∙ f))
    ]

further : (l : Bytes) (ls : List Bytes) (k v : Bytes) → Lacks k l → Once ls k v → Once (l ∷ ls) k v
further l ls k v lacks o = record {
  before = l ∷ o.before;
  line = o.line;
  after = o.after;
  there = ap (λ x. l ∷ x) o.there;
  gives = o.gives;
  none_before = (lacks, o.none_before);
  none_after = o.none_after;
}

abbrev head_or : Bytes → List Bytes → Bytes
head_or d [] = d
head_or d (x ∷ xs) = x

abbrev tail_of : List Bytes → List Bytes
tail_of [] = []
tail_of (x ∷ xs) = xs

once : (ls : List Bytes) (k v : Bytes) → all (entries_of ls) k ≡ v ∷ [] → Once ls k v
unfolding entries_of all
once [] k v e = absurd (cons_not_empty v [] (sym e))
once (l ∷ ls) k v e =
    by_entry (once ls k v) (entry l) refl
      (ap (λ x. all x k) (sym (entries_cons l ls (entry l) refl)) ∙ e)
  where
    by_entry :
        (all (entries_of ls) k ≡ v ∷ [] → Once ls k v)
        → (o : Option (Bytes × Bytes)) → entry l ≡ o
        → all (put o (entries_of ls)) k ≡ v ∷ []
        → Once (l ∷ ls) k v
    by_entry later none h f = further l ls k v (none-Lacks k l h) (later f)
    by_entry later (some (key, w)) h f = elim (Bool-cases (bytes_eq key k)) [
      | inl p ↦
          let hit : w ∷ all (entries_of ls) k ≡ v ∷ [] =
            sym (all-hit key w k (entries_of ls) p) ∙ f in
          record {
            before = [];
            line = l;
            after = ls;
            there = refl;
            gives = h ∙ (λ i. some (bytes_eq→eq key k p i, head_or w (hit i)));
            none_before = tt;
            none_after = absent ls k (ap tail_of hit);
          }
      | inr p ↦
          further l ls k v (other-Lacks k l key w h p)
            (later (sym (all-miss key w k (entries_of ls) p) ∙ f))
    ]

pub entries-Once : (text k v : Bytes) → all (entries text) k ≡ v ∷ [] → Once (lines text) k v
unfolding entries
entries-Once text k v e = once (lines text) k v e
