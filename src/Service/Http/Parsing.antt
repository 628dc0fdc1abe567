-- ===== src/Service/Http/Parsing.antt =====
-- What `parse` of crates/stop/src/http.rs takes for a request.
use tactiq_attest.Base.{
  ℕ, ◌+◌, ◌-◌, ◌≤◌, Bytes, List, [], ◌∷◌, not, false, ◌≡◌, ◌↔◌, refl, sym, ap, ◌∙◌, subst, Option,
  none, some, some-injective, length, take, drop, slice, ◌++◌, ok, ltb, ltb→le, le→ltb, refuse_if,
  refuse_when, bind-elim, then-elim, ok-injective, err-ne-ok, Bool-cases, inl, inr, arith,
  length-append, length-take, length-drop, if◌then◌else◌,
}
use tactiq_attest.Messages.{R, head_too_long, head_not_utf8, body_too_long}
use tactiq_attest.Service.Http.{
  Request, find, head_mark, head_max, body_max, or_zero, request_line, headers, head_lines,
  parse_head, parse_at, parse_found, parse, is_utf8,
}
use tactiq_attest.Service.Text.{split}
use tactiq_attest.Service.Http.Finding.{find-length, find-append, take_of-append, drop_of-append}

-- A request at the front of the bytes: where its head ends, and what it says.
pub record IsRequest (buf : Bytes) (req : Request) (used : ℕ) : Type 0 where
  pub head_end : ℕ
  pub found : find buf head_mark ≡ some head_end
  pub head_bound : head_end ≤ head_max
  pub head : parse_head (take head_end buf) ≡ ok (req.method, req.path, length req.body)
  pub body_at : take (length req.body) (drop (head_end + 4) buf) ≡ req.body
  pub used_is : used ≡ head_end + 4 + length req.body
  pub used_bound : used ≤ length buf
  pub body_bound : length req.body ≤ body_max

head_lines-bound :
    (lines : List Bytes) (out : Bytes × Bytes × ℕ) → head_lines lines ≡ ok out → out.2 ≤ body_max
unfolding head_lines
head_lines-bound [] out e = absurd (err-ne-ok e)
head_lines-bound (line ∷ lines) out e =
    bind-elim (request_line line (split b' ' line)) _ e λ mp e1 f1.
      bind-elim (headers none lines) _ f1 λ seen e2 f2.
        then-elim (refuse_if (ltb body_max (or_zero seen)) (body_too_long (or_zero seen))) _ f2
          λ e3 f3.
            subst (λ (o : Bytes × Bytes × ℕ). o.2 ≤ body_max) (ok-injective f3)
              (ltb→le _ _ (refuse_when _ _ e3))

parse_head-bound :
    (head : Bytes) (out : Bytes × Bytes × ℕ) → parse_head head ≡ ok out → out.2 ≤ body_max
unfolding parse_head
parse_head-bound head out e =
    then-elim (refuse_if (not (is_utf8 head)) head_not_utf8) _ e λ _ f1. head_lines-bound _ out f1

-- What `parse_at` gives once the head is read.
abbrev body_from : Bytes → ℕ → Bytes × Bytes × ℕ → R (Option (Request × ℕ))
body_from buf start mpn =
    if ltb (length buf) (start + mpn.2)
    then ok none
    else ok (
        some (
          record { method = mpn.0; path = mpn.1; body = slice start (start + mpn.2) buf },
          start + mpn.2,
        ))

parse_at_ok :
    (buf : Bytes) (head_end : ℕ) (o : Option (Request × ℕ))
    → parse_at buf head_end ≡ ok o
    → (head_end ≤ head_max)
      × (mpn : Bytes × Bytes × ℕ) × (parse_head (take head_end buf) ≡ ok mpn)
      × (body_from buf (head_end + 4) mpn ≡ ok o)
unfolding parse_at
parse_at_ok buf head_end o e =
    then-elim (refuse_if (ltb head_max head_end) head_too_long) _ e λ e1 f1.
      bind-elim (parse_head (take head_end buf)) _ f1
        λ mpn e2 f2. (ltb→le _ _ (refuse_when _ _ e1), mpn, e2, f2)

body_from-some :
    (buf : Bytes) (start : ℕ) (mpn : Bytes × Bytes × ℕ) (req : Request) (used : ℕ)
    → body_from buf start mpn ≡ ok (some (req, used))
    → (start + mpn.2 ≤ length buf)
      × (◌≡◌ {A = Request × ℕ}
          (
            record { method = mpn.0; path = mpn.1; body = slice start (start + mpn.2) buf },
            start + mpn.2,
          )
          (req, used))
body_from-some buf start mpn req used e = elim (Bool-cases (ltb (length buf) (start + mpn.2))) [
  | inl p ↦ absurd (none_ne_some _ (ok-injective (rw p at e)))
  | inr p ↦ (ltb→le _ _ p, some-injective _ _ (ok-injective (rw p at e)))
]
  where
    none_ne_some : (x : Request × ℕ) → none ≡ some x → ⊥
    none_ne_some x h = cc

found_request :
    (buf : Bytes) (head_end : ℕ) (req : Request) (used : ℕ)
    → find buf head_mark ≡ some head_end
    → parse_at buf head_end ≡ ok (some (req, used))
    → IsRequest buf req used
found_request buf head_end req used found e =
    let (small, mpn, head, rest) = parse_at_ok buf head_end _ e in
    let (fits, same) = body_from-some buf (head_end + 4) mpn req used rest in
    let n : ℕ = mpn.2 in
    let method : mpn.0 ≡ req.method = λ i. (same i).0.method in
    let path : mpn.1 ≡ req.path = λ i. (same i).0.path in
    let body : slice (head_end + 4) (head_end + 4 + n) buf ≡ req.body = λ i. (same i).0.body in
    let cut : head_end + 4 + n - (head_end + 4) ≡ n = omega arith in
    let long : length req.body ≡ n =
      ap length (sym body)
      ∙ length-take (head_end + 4 + n - (head_end + 4)) (drop (head_end + 4) buf)
          (omega (arith, length-drop (head_end + 4) buf))
      ∙ cut in
    record {
      head_end = head_end;
      found = found;
      head_bound = small;
      head = head ∙ (λ i. ok (method i, path i, sym long i));
      body_at = (λ i. take ((long ∙ sym cut) i) (drop (head_end + 4) buf)) ∙ body;
      used_is = (λ i. (sym same i).1) ∙ ap (λ k. head_end + 4 + k) (sym long);
      used_bound = subst (λ u. u ≤ length buf) (λ i. (same i).1) fits;
      body_bound = rw long (parse_head-bound (take head_end buf) mpn head);
    }

pub parse_sound :
    (buf : Bytes) (req : Request) (used : ℕ)
    → parse buf ≡ ok (some (req, used))
    → IsRequest buf req used
unfolding parse
parse_sound buf req used e = by_mark (find buf head_mark) refl e
  where
    none_ne_some : (x : Request × ℕ) → none ≡ some x → ⊥
    none_ne_some x h = cc

    by_mark :
        (o : Option ℕ)
        → find buf head_mark ≡ o
        → parse_found buf o ≡ ok (some (req, used))
        → IsRequest buf req used
    by_mark (some head_end) found h = found_request buf head_end req used found h
    by_mark none found h =
        then-elim (refuse_if (ltb head_max (length buf)) head_too_long) _ h
          λ _ g. absurd (none_ne_some (req, used) (ok-injective g))

pub parse_complete :
    (buf : Bytes) (req : Request) (used : ℕ)
    → IsRequest buf req used
    → parse buf ≡ ok (some (req, used))
unfolding parse parse_at
parse_complete buf req used r =
    let n : ℕ = length req.body in
    let small : ltb head_max r.head_end ≡ false = le→ltb _ _ r.head_bound in
    let whole : ltb (length buf) (r.head_end + 4 + n) ≡ false =
      le→ltb _ _ (subst (λ u. u ≤ length buf) r.used_is r.used_bound) in
    let cut : r.head_end + 4 + n - (r.head_end + 4) ≡ n = omega arith in
    rw (r.found, small, r.head, whole, cut)
      (λ i. ok (
        some
          (record { method = req.method; path = req.path; body = r.body_at i }, sym r.used_is i)))

-- Bytes are taken for a request of some length exactly when one stands at their front: the first
-- mark ends a head within the bound that reads as this method, path and length of body, the body
-- follows within its bound, and the three fill this length, which is within the bytes.
pub parse_exact :
    (buf : Bytes) (req : Request) (used : ℕ)
    → (parse buf ≡ ok (some (req, used))) ↔ IsRequest buf req used
parse_exact buf req used = (parse_sound buf req used, parse_complete buf req used)

IsRequest-append :
    (buf more : Bytes) (req : Request) (used : ℕ)
    → IsRequest buf req used
    → IsRequest (buf ++ more) req used
IsRequest-append buf more req used r =
    let fits : r.head_end + 4 ≤ length buf = find-length buf head_mark r.head_end r.found in
    let whole : r.head_end + 4 + length req.body ≤ length buf =
      subst (λ u. u ≤ length buf) r.used_is r.used_bound in
    record {
      head_end = r.head_end;
      found = find-append buf head_mark more r.head_end r.found;
      head_bound = r.head_bound;
      head = ap parse_head (take_of-append r.head_end buf more (omega arith)) ∙ r.head;
      body_at =
          ap (take (length req.body)) (drop_of-append (r.head_end + 4) buf more fits)
          ∙ take_of-append (length req.body) (drop (r.head_end + 4) buf) more
              (omega (arith, length-drop (r.head_end + 4) buf))
          ∙ r.body_at;
      used_is = r.used_is;
      used_bound =
          let u : used ≤ length buf = r.used_bound in omega (arith, length-append buf more);
      body_bound = r.body_bound;
    }

-- Bytes that come later do not change a request that is complete.
pub parse-append :
    (buf more : Bytes) (req : Request) (used : ℕ)
    → parse buf ≡ ok (some (req, used))
    → parse (buf ++ more) ≡ ok (some (req, used))
parse-append buf more req used e =
    parse_complete (buf ++ more) req used
      (IsRequest-append buf more req used (parse_sound buf req used e))
