-- ===== src/Service/Http/Reading.antt =====
-- The loop of `read_request` (crates/stop/src/http.rs): what it answers, and that it does not depend on
-- how the bytes are split into reads.
use tactiq_attest.Base.{
  ℕ, ◌+◌, ◌≤◌, ◌<◌, Bytes, List, [], ◌∷◌, true, false, ◌≡◌, refl, sym, ap, ◌∙◌, subst, Option, none,
  some, some-injective, length, take, ◌++◌, map, All, ok, err, ◌⊎◌, ltb, ltb→le, le→ltb, lt→ltb,
  eq→==, ==→eq, ◌==◌, ok-injective, err-ne-ok, Bool-cases, inl, inr, arith, length-append,
  append_assoc, append-nil, if◌then◌else◌,
}
use tactiq_attest.Messages.{Message, R, request_late, read_failed, closed_early, request_too_large}
use tactiq_attest.Service.Http.{
  Request, Event, chunk, closed, failed, late, find, starts_with, later, head_mark, head_max,
  body_max, parse_head, parse_at, parse_found, parse, whole_request, or_next, read_from,
  read_request,
}
use tactiq_attest.Service.Http.Finding.{
  find-length, find-append, starts_with-append, later-some, take_of-append,
}
use tactiq_attest.Service.Http.Parsing.{IsRequest, parse_sound, parse_complete}

-- The bytes of some reads, one after the other.
unfoldable pub joined : List Bytes → Bytes
joined [] = []
joined (c ∷ cs) = c ++ joined cs

-- Before the first mark is complete, no bytes up to its last are missing.
pub find-prefix :
    (p q n : Bytes) (i : ℕ)
    → 1 ≤ length n
    → find p n ≡ none
    → find (p ++ q) n ≡ some i
    → length p < i + length n
unfolding find
find-prefix [] q n i some_n e f = omega arith
find-prefix (b ∷ p) q n i some_n e f = elim (Bool-cases (starts_with n (b ∷ p))) [
  | inl s ↦ absurd (some_ne_none (rw s at e))
  | inr s ↦ elim (Bool-cases (starts_with n (b ∷ (p ++ q)))) [
    | inl t ↦ elim (le_or_lt (length n) (length (b ∷ p))) [
      | inl le ↦ absurd (true_ne_false (sym t ∙ starts_with-append n (b ∷ p) q le ∙ s))
      | inr lt ↦ omega arith
    ]
    | inr t ↦
        let (j, ej, is) = later-some (find (p ++ q) n) i (rw t at f) in
        let ih : length p < j + length n =
          find-prefix p q n j some_n (later_none (find p n) (rw s at e)) ej in
        omega arith
  ]
]
  where
    some_ne_none : ◌≡◌ {A = Option ℕ} (some 0) none → ⊥
    some_ne_none h = cc

    true_ne_false : true ≡ false → ⊥
    true_ne_false h = cc

    later_none : (o : Option ℕ) → later o ≡ none → o ≡ none
    later_none none h = refl
    later_none (some j) h = cc

    le_or_lt : (m k : ℕ) → (m ≤ k) ⊎ (k < m)
    le_or_lt m k = elim (Bool-cases (ltb k m)) [
      | inl h ↦ inr (ground arith)
      | inr h ↦ inl (ltb→le k m h)
    ]

parse_at-short :
    (p q : Bytes) (req : Request) (i : ℕ)
    → i ≤ length p
    → i ≤ head_max
    → parse_head (take i (p ++ q)) ≡ ok (req.method, req.path, length req.body)
    → length p < i + 4 + length req.body
    → parse_at p i ≡ ok none
unfolding parse_at
parse_at-short p q req i fits small head short =
    let head' : parse_head (take i p) ≡ ok (req.method, req.path, length req.body) =
      ap parse_head (sym (take_of-append i p q fits)) ∙ head in
    rw (le→ltb head_max i small, head', lt→ltb _ _ short)

-- Whatever is less than a whole request asks for more, if the bytes are within the bound on the head
-- as long as its mark is not complete.
pub parse-prefix :
    (p q : Bytes) (req : Request) (r : IsRequest (p ++ q) req (length (p ++ q)))
    → 1 ≤ length q
    → (length p < r.head_end + 4 → length p ≤ head_max)
    → parse p ≡ ok none
unfolding parse
parse-prefix p q req r some_q waits = by_mark (find p head_mark) refl
  where
    by_mark : (o : Option ℕ) → find p head_mark ≡ o → parse_found p o ≡ ok none
    by_mark none e =
        let near : length p < r.head_end + 4 =
          find-prefix p q head_mark r.head_end (omega arith) e r.found in
        let small : ltb head_max (length p) ≡ false = le→ltb _ _ (waits near) in rw small
    by_mark (some i) e =
        let same : i ≡ r.head_end =
          some-injective _ _ (sym (find-append p head_mark q i e) ∙ r.found) in
        let fits : i + 4 ≤ length p = find-length p head_mark i e in
        let used : length (p ++ q) ≡ r.head_end + 4 + length req.body = r.used_is in
        parse_at-short p q req i (omega arith) (subst (λ k. k ≤ head_max) (sym same) r.head_bound)
          (subst (λ k. parse_head (take k (p ++ q)) ≡ ok (req.method, req.path, length req.body))
            (sym same) r.head)
          (omega (arith, length-append p q))

pub read_from-done :
    (buf : Bytes) (es : List Event) (found : Request × ℕ)
    → parse buf ≡ ok (some found)
    → read_from buf es ≡ whole_request buf found
unfolding read_from
read_from-done buf [] found e = rw e
read_from-done buf (late ∷ es) found e = rw e
read_from-done buf (failed m ∷ es) found e = rw e
read_from-done buf (closed ∷ es) found e = rw e
read_from-done buf (chunk c ∷ es) found e = rw e

-- The same, of the whole request `full`.
pub prefix_of :
    (p q full : Bytes) (req : Request)
    → p ++ q ≡ full
    → 1 ≤ length q
    → (r : IsRequest full req (length full)) → (length p < r.head_end + 4 → length p ≤ head_max)
    → parse p ≡ ok none
prefix_of p q full req e some_q =
    subst
      (λ f.
        (r : IsRequest f req (length f))
        → (length p < r.head_end + 4 → length p ≤ head_max)
        → parse p ≡ ok none)
      e (λ r waits. parse-prefix p q req r some_q waits)

pub whole_request_lem : (buf : Bytes) (req : Request) → whole_request buf (req, length buf) ≡ ok req
whole_request_lem buf req = rw (eq→== (length buf) (length buf) refl)

module _ (full : Bytes) (req : Request) (r : IsRequest full req (length full))
    (near_bound : r.head_end + 3 ≤ head_max) where
  -- A request is read from the bytes that came and those that come.
  read_from-split :
      (buf : Bytes) (cs : List Bytes) (es : List Event)
      → buf ++ joined cs ≡ full
      → All (λ c. 1 ≤ length c) cs
      → read_from buf (map chunk cs ++ es) ≡ ok req
  unfolding read_from joined
  read_from-split buf [] es whole some_c =
      let is : buf ≡ full = sym (append-nil buf) ∙ whole in
      read_from-done buf es (req, length full)
        (ap parse is ∙ parse_complete full req (length full) r)
      ∙ (λ i. whole_request (is i) (req, length full))
      ∙ whole_request_lem full req
  read_from-split buf (c ∷ cs) es whole (some_c, some_cs) =
      let more : parse buf ≡ ok none =
        prefix_of buf (c ++ joined cs) full req whole (omega (arith, length-append c (joined cs))) r
          (λ lt. omega arith) in
      let again : (buf ++ c) ++ joined cs ≡ full = append_assoc buf c (joined cs) ∙ whole in
      let total : length (buf ++ c) + length (joined cs) ≡ length full =
        sym (length-append (buf ++ c) (joined cs)) ∙ ap length again in
      let used : length full ≡ r.head_end + 4 + length req.body = r.used_is in
      let body : length req.body ≤ body_max = r.body_bound in
      let small : ltb (head_max + body_max + 4) (length (buf ++ c)) ≡ false =
        le→ltb _ _ (omega arith) in
      rw (more, small) (read_from-split (buf ++ c) cs es again some_cs)

  -- A whole request is read however the reads split it, if each brings a byte at least and its
  -- head ends three bytes before the bound or earlier.
  pub read_request_complete :
      (cs : List Bytes) (es : List Event)
      → joined cs ≡ full
      → All (λ c. 1 ≤ length c) cs
      → read_request (map chunk cs ++ es) ≡ ok req
  unfolding read_request
  read_request_complete cs es whole some_cs = read_from-split [] cs es whole some_cs

-- A request that was read is all of the bytes of the first reads.
pub record IsRead (buf : Bytes) (es : List Event) (req : Request) : Type 0 where
  pub cs : List Bytes
  pub rest : List Event
  pub events : es ≡ map chunk cs ++ rest
  pub whole : IsRequest (buf ++ joined cs) req (length (buf ++ joined cs))

finish_ok :
    (buf : Bytes) (found : Request × ℕ) (req : Request)
    → whole_request buf found ≡ ok req
    → (found.0 ≡ req) × (found.1 ≡ length buf)
finish_ok buf found req e = elim (Bool-cases (found.1 == length buf)) [
  | inl p ↦ (ok-injective (rw p at e), ==→eq _ _ p)
  | inr p ↦ absurd (err-ne-ok (rw p at e))
]

at_once :
    (buf : Bytes) (es : List Event) (req : Request) (found : Request × ℕ)
    → parse buf ≡ ok (some found)
    → whole_request buf found ≡ ok req
    → IsRead buf es req
unfolding joined
at_once buf es req found e h =
    let (same, used) = finish_ok buf found req h in
    record {
      cs = [];
      rest = es;
      events = refl;
      whole =
          rw (append-nil buf)
            (parse_sound buf req (length buf) (e ∙ (λ i. ok (some (same i, used i)))));
    }

stops :
    (buf : Bytes) (es : List Event) (req : Request) (m : Message) (o : R (Option (Request × ℕ)))
    → parse buf ≡ o
    → or_next buf o (err m) ≡ ok req
    → IsRead buf es req
stops buf es req m (err x) e h = absurd (err-ne-ok h)
stops buf es req m (ok (some found)) e h = at_once buf es req found e h
stops buf es req m (ok none) e h = absurd (err-ne-ok h)

reads :
    (buf c : Bytes) (es : List Event) (req : Request) (o : R (Option (Request × ℕ)))
    → parse buf ≡ o
    → or_next buf o (
        if ltb (head_max + body_max + 4) (length (buf ++ c))
        then err request_too_large
        else read_from (buf ++ c) es)
      ≡ ok req
    → (read_from (buf ++ c) es ≡ ok req → IsRead (buf ++ c) es req)
    → IsRead buf (chunk c ∷ es) req
unfolding joined
reads buf c es req (err x) e h ih = absurd (err-ne-ok h)
reads buf c es req (ok (some found)) e h ih = at_once buf (chunk c ∷ es) req found e h
reads buf c es req (ok none) e h ih =
    elim (Bool-cases (ltb (head_max + body_max + 4) (length (buf ++ c)))) [
      | inl p ↦ absurd (err-ne-ok (rw p at h))
      | inr p ↦
          let later_read : IsRead (buf ++ c) es req = ih (rw p at h) in
          record {
            cs = c ∷ later_read.cs;
            rest = later_read.rest;
            events = ap (λ t. chunk c ∷ t) later_read.events;
            whole =
                subst (λ b. IsRequest b req (length b)) (append_assoc buf c (joined later_read.cs))
                  later_read.whole;
          }
    ]

read_from_sound :
    (buf : Bytes) (es : List Event) (req : Request) → read_from buf es ≡ ok req → IsRead buf es req
unfolding read_from
read_from_sound buf [] req e = stops buf [] req request_late (parse buf) refl e
read_from_sound buf (late ∷ es) req e = stops buf (late ∷ es) req request_late (parse buf) refl e
read_from_sound buf (failed m ∷ es) req e =
    stops buf (failed m ∷ es) req (read_failed m) (parse buf) refl e
read_from_sound buf (closed ∷ es) req e =
    stops buf (closed ∷ es) req closed_early (parse buf) refl e
read_from_sound buf (chunk c ∷ es) req e =
    reads buf c es req (parse buf) refl e (read_from_sound (buf ++ c) es req)

-- A request that is accepted is all of the bytes that the first reads brought, and parses as a
-- request of just their length: nothing behind it is left over.
pub read_request_sound :
    (es : List Event) (req : Request) → read_request es ≡ ok req → IsRead [] es req
unfolding read_request
read_request_sound es req e = read_from_sound [] es req e
