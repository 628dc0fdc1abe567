-- ===== src/Service/Http/Splits.antt =====
-- The bound on the head in crates/stop/src/http.rs when the end of the head is still on its way.
use tactiq_attest.Base.{
  ℕ, ◌+◌, ◌≤◌, ◌<◌, Bytes, List, [], ◌∷◌, false, ◌≡◌, refl, sym, ap, ◌∙◌, subst, Option, none, some,
  some-injective, length, ◌++◌, map, ok, err, ltb, lt→ltb, le→ltb, Bool-cases, inl, inr, arith,
  length-append, append_assoc, append-nil,
}
use tactiq_attest.Messages.{Message, head_too_long}
use tactiq_attest.Service.Http.{
  Request, Event, chunk, closed, failed, late, find, head_mark, head_max, body_max, parse,
  whole_request, read_from, read_request,
}
use tactiq_attest.Service.Http.Finding.{find-length, find-append}
use tactiq_attest.Service.Http.Parsing.{IsRequest, parse_complete}
use tactiq_attest.Service.Http.Reading.{joined, prefix_of, read_from-done, whole_request_lem}

-- No mark in the whole, none in the front.
front_none : (p q n : Bytes) → find (p ++ q) n ≡ none → find p n ≡ none
front_none p q n e = by_mark (find p n) refl
  where
    some_ne_none : (i : ℕ) → some i ≡ none → ⊥
    some_ne_none i h = cc

    by_mark : (o : Option ℕ) → find p n ≡ o → find p n ≡ none
    by_mark none h = h
    by_mark (some i) h = absurd (some_ne_none i (sym (find-append p n q i h) ∙ e))

read_from-err :
    (buf : Bytes) (es : List Event) (m : Message) → parse buf ≡ err m → read_from buf es ≡ err m
unfolding read_from
read_from-err buf [] m e = rw e
read_from-err buf (late ∷ es) m e = rw e
read_from-err buf (failed x ∷ es) m e = rw e
read_from-err buf (closed ∷ es) m e = rw e
read_from-err buf (chunk c ∷ es) m e = rw e

parse-long :
    (buf : Bytes)
    → find buf head_mark ≡ none
    → head_max < length buf
    → parse buf ≡ err head_too_long
unfolding parse
parse-long buf e long = rw (e, lt→ltb _ _ long)

parse-unmarked :
    (buf : Bytes) → find buf head_mark ≡ none → length buf ≤ head_max → parse buf ≡ ok none
unfolding parse
parse-unmarked buf e short = rw (e, le→ltb _ _ short)

-- Reads that bring more than the bound without a mark are refused, however they are split.
unmarked_refused :
    (buf : Bytes) (cs : List Bytes) (es : List Event)
    → find (buf ++ joined cs) head_mark ≡ none
    → head_max < length (buf ++ joined cs)
    → length (buf ++ joined cs) ≤ head_max + body_max + 4
    → read_from buf (map chunk cs ++ es) ≡ err head_too_long
unfolding read_from joined
unmarked_refused buf [] es e long fits =
    let is : buf ++ [] ≡ buf = append-nil buf in
    read_from-err buf es head_too_long (
      parse-long buf (ap (λ b. find b head_mark) (sym is) ∙ e)
        (subst (λ b. head_max < length b) is long))
unmarked_refused buf (c ∷ cs) es e long fits =
    let again : (buf ++ c) ++ joined cs ≡ buf ++ (c ++ joined cs) =
      append_assoc buf c (joined cs) in
    let total : length (buf ++ c) + length (joined cs) ≡ length (buf ++ (c ++ joined cs)) =
      sym (length-append (buf ++ c) (joined cs)) ∙ ap length again in
    let none_here : find buf head_mark ≡ none = front_none buf (c ++ joined cs) head_mark e in
    let small : ltb (head_max + body_max + 4) (length (buf ++ c)) ≡ false =
      le→ltb _ _ (omega arith) in
    elim (Bool-cases (ltb head_max (length buf))) [
      | inl p ↦
          read_from-err buf (map chunk (c ∷ cs) ++ es) head_too_long
            (parse-long buf none_here (ground arith))
      | inr p ↦
          rw (parse-unmarked buf none_here (ground arith), small)
            (unmarked_refused (buf ++ c) cs es (ap (λ b. find b head_mark) again ∙ e)
              (subst (λ b. head_max < length b) (sym again) long)
              (subst (λ b. length b ≤ head_max + body_max + 4) (sym again) fits))
    ]

module _ (full : Bytes) (req : Request) (r : IsRequest full req (length full)) where
  -- Reads that stay within the bound on the head are put together.
  within_bound :
      (buf : Bytes) (cs : List Bytes) (last : Bytes) (es : List Event)
      → (buf ++ joined cs) ++ last ≡ full
      → 1 ≤ length last
      → length (buf ++ joined cs) ≤ head_max
      → read_from buf (map chunk cs ++ es) ≡ read_from (buf ++ joined cs) es
  unfolding read_from joined
  within_bound buf [] last es whole some_last small =
      ap (λ b. read_from b es) (sym (append-nil buf))
  within_bound buf (c ∷ cs) last es whole some_last small =
      let again : (buf ++ c) ++ joined cs ≡ buf ++ (c ++ joined cs) =
        append_assoc buf c (joined cs) in
      let total : length (buf ++ c) + length (joined cs) ≡ length (buf ++ (c ++ joined cs)) =
        sym (length-append (buf ++ c) (joined cs)) ∙ ap length again in
      let front : length buf ≤ length (buf ++ c) = omega (arith, length-append buf c) in
      let split : buf ++ ((c ++ joined cs) ++ last) ≡ full =
        sym (append_assoc buf (c ++ joined cs) last) ∙ whole in
      let more : parse buf ≡ ok none =
        prefix_of buf ((c ++ joined cs) ++ last) full req split
          (omega (arith, length-append (c ++ joined cs) last)) r (λ lt. omega arith) in
      let fits : ltb (head_max + body_max + 4) (length (buf ++ c)) ≡ false =
        le→ltb _ _ (omega arith) in
      rw (more, fits)
        (within_bound (buf ++ c) cs last es (ap (λ b. b ++ last) again ∙ whole) some_last
            (subst (λ b. length b ≤ head_max) (sym again) small)
          ∙ ap (λ b. read_from b es) again)

  whole_at_last :
      (front last : Bytes) (es : List Event)
      → front ++ last ≡ full
      → 1 ≤ length last
      → length front ≤ head_max
      → read_from front (chunk last ∷ es) ≡ ok req
  unfolding read_from
  whole_at_last front last es whole some_last small =
      let more : parse front ≡ ok none =
        prefix_of front last full req whole some_last r (λ lt. small) in
      let used : length full ≡ r.head_end + 4 + length req.body = r.used_is in
      let body : length req.body ≤ body_max = r.body_bound in
      let head : r.head_end ≤ head_max = r.head_bound in
      let fits : ltb (head_max + body_max + 4) (length (front ++ last)) ≡ false =
        le→ltb _ _ (rw (ap length whole) (omega arith)) in
      rw (more, fits)
        (read_from-done (front ++ last) es (req, length full)
            (ap parse whole ∙ parse_complete full req (length full) r)
          ∙ (λ i. whole_request (whole i) (req, length full))
          ∙ whole_request_lem full req)

-- Two ways to bring the same bytes: a request whose head ends within the bound, but fewer than
-- three bytes before it, is read when the reads up to the bound are followed by one that brings
-- the rest, and refused for a head that is too long when the reads pause before the last byte of
-- the mark.
pub split_decides :
    (full : Bytes) (req : Request) (r : IsRequest full req (length full)) (cs bs : List Bytes)
    (x y : Bytes) (es es' : List Event)
    → head_max < r.head_end + 3
    → joined cs ++ x ≡ full
    → 1 ≤ length x
    → length (joined cs) ≤ head_max
    → joined bs ++ y ≡ full
    → length (joined bs) ≡ r.head_end + 3
    → (read_request (map chunk cs ++ (chunk x ∷ es)) ≡ ok req)
      × (read_request (map chunk bs ++ es') ≡ err head_too_long)
unfolding read_request
split_decides full req r cs bs x y es es' over whole some_x small whole' pause =
    let head : r.head_end ≤ head_max = r.head_bound in
    (
      within_bound full req r [] cs x (chunk x ∷ es) whole some_x small
          ∙ whole_at_last full req r (joined cs) x es whole some_x small,
      unmarked_refused [] bs es' (unmarked (find (joined bs) head_mark) refl) (omega arith)
          (omega arith),
    )
  where
    unmarked : (o : Option ℕ) → find (joined bs) head_mark ≡ o → find (joined bs) head_mark ≡ none
    unmarked none e = e
    unmarked (some i) e =
        let there : find full head_mark ≡ some i =
          ap (λ b. find b head_mark) (sym whole') ∙ find-append (joined bs) head_mark y i e in
        let same : i ≡ r.head_end = some-injective _ _ (sym there ∙ r.found) in
        let fits : i + 4 ≤ length (joined bs) = find-length (joined bs) head_mark i e in
        absurd (omega arith)
