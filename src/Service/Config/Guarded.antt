-- ===== src/Service/Config/Guarded.antt =====
-- What a gateway configuration that crates/stop/src/config.rs accepts is like.
use tactiq_attest.Base.{
  ℕ, ◌≤◌, ◌<◌, Bytes, true, false, not, List, [], ◌∷◌, ◌++◌, Option, none, some, codes, bytes_eq,
  bytes_eq→eq, ok, ok_or, ok_or-eq-ok, ◌≡◌, ◌||◌, inl, inr, refl, ◌∙◌, ◌==◌, leb, ltb, refuse_if,
  refuse_unless, refuse_when, bind-elim, then-elim, err-ne-ok, ok-injective, some-injective,
  Bool-cases, arith,
}
use tactiq_attest.Messages.{
  inline_yaml, not_one_ext_authz, other_target, failure_mode_open, not_one_body, max_not_number,
  max_range,
}
use tactiq_attest.Service.Text.{contains, parse_u64, strip_suffix}
use tactiq_attest.Service.Text.Laws.{strip_suffix-some}
use tactiq_attest.Service.Http.{body_max}
use tactiq_attest.TpmAccess.{trim, lines}
use tactiq_attest.Service.Config.Lines.{Once, entries-Once}
use tactiq_attest.Service.Config.{
  entries, all, only, one, is_single, seconds, parse_duration_ms, min_timeout_ms, long_enough,
  check_timeout, check_gateway_config,
}

-- A text for three seconds at least: a number of milliseconds or of seconds.
pub data IsLong (t : Bytes) : Type 0 where
  in_ms :
      (n : Bytes) (k : ℕ) → t ≡ n ++ codes "ms" → parse_u64 (trim n) ≡ some k → 3000 ≤ k → IsLong t
  in_s : (n : Bytes) (k : ℕ) → t ≡ n ++ codes "s" → parse_u64 (trim n) ≡ some k → 3 ≤ k → IsLong t

-- The settings, each given by one line; a key in quotes is another key.
pub record IsGuarded (text listen : Bytes) : Type 0 where
  pub authz : Bytes
  pub timeout : Bytes
  pub body : Bytes
  pub max : Bytes
  pub n : ℕ
  pub no_inline : contains b'{' text ≡ false
  pub one_block : Once (lines text) (codes "extAuthz") authz
  pub asks_here : Once (lines text) (codes "host") listen
  pub fails_closed : Once (lines text) (codes "failureMode") (codes "deny")
  pub waits : Once (lines text) (codes "requestTimeout") timeout
  pub waits_long : IsLong timeout
  pub sends_body : Once (lines text) (codes "includeRequestBody") body
  pub bounds_body : Once (lines text) (codes "maxRequestBytes") max
  pub number : parse_u64 max ≡ some n
  pub positive : 0 < n
  pub at_most : n ≤ body_max
  pub whole_body : Once (lines text) (codes "allowPartialMessage") (codes "false")

only-eq : (k : Bytes) (vs : List Bytes) (v : Bytes) → only k vs ≡ ok v → vs ≡ v ∷ []
unfolding only
only-eq k [] v e = absurd (err-ne-ok e)
only-eq k (x ∷ []) v e = λ i. ok-injective e i ∷ []
only-eq k (x ∷ (y ∷ vs)) v e = absurd (err-ne-ok e)

single-eq : (vs : List Bytes) → is_single vs ≡ true → (v : Bytes) × (vs ≡ v ∷ [])
unfolding is_single
single-eq [] e = cc
single-eq (v ∷ []) e = (v, refl)
single-eq (v ∷ (w ∷ vs)) e = cc

-- A product that is long before or after it wraps comes from three seconds at least.
seconds_long :
    (o : Option ℕ) (ms : ℕ) → seconds o ≡ some ms → 3000 ≤ ms → (k : ℕ) × (o ≡ some k) × (3 ≤ k)
unfolding seconds
seconds_long none ms e h = cc
seconds_long (some s) ms e h = (s, refl, omega (arith, some-injective _ _ e))

in_seconds :
    (t : Bytes) (o : Option Bytes) (ms : ℕ)
    → strip_suffix (codes "s") t ≡ o
    → elim o [ none ↦ none | some n ↦ seconds (parse_u64 (trim n)) ] ≡ some ms
    → 3000 ≤ ms
    → IsLong t
in_seconds t none ms found e h = cc
in_seconds t (some n) ms found e h =
    let (k, parsed, long) = seconds_long (parse_u64 (trim n)) ms e h in
    in_s n k (strip_suffix-some (codes "s") t n found) parsed long

duration-IsLong :
    (t : Bytes) (o : Option Bytes) (ms : ℕ)
    → strip_suffix (codes "ms") t ≡ o
    → elim o [
      | some n ↦ parse_u64 (trim n)
      | none ↦ elim (strip_suffix (codes "s") t) [
        | none ↦ none
        | some n ↦ seconds (parse_u64 (trim n))
      ]
    ]
      ≡ some ms
    → 3000 ≤ ms
    → IsLong t
duration-IsLong t none ms found e h = in_seconds t (strip_suffix (codes "s") t) ms refl e h
duration-IsLong t (some n) ms found e h = in_ms n ms (strip_suffix-some (codes "ms") t n found) e h

of_long_enough :
    (t : Bytes) (o : Option ℕ) → parse_duration_ms t ≡ o → long_enough t o ≡ ok tt → IsLong t
unfolding long_enough parse_duration_ms
of_long_enough t none found h = absurd (err-ne-ok h)
of_long_enough t (some ms) found h = elim (Bool-cases (leb min_timeout_ms ms)) [
  | inl p ↦ duration-IsLong t (strip_suffix (codes "ms") t) ms refl found (ground arith)
  | inr p ↦ absurd (err-ne-ok (rw p at h))
]

timeout-IsLong : (t : Bytes) → check_timeout t ≡ ok tt → IsLong t
unfolding check_timeout
timeout-IsLong t e = of_long_enough t (parse_duration_ms t) refl e

-- A text that the guard accepts has no opening brace, and for each of the following keys exactly
-- one line that gives the key a value, where a key counts as it is written on the line, so that
-- one in quotes is another key: extAuthz; host with the listening address; failureMode with deny;
-- requestTimeout with three seconds at least, even though the product of seconds and 1000 may
-- wrap; includeRequestBody; maxRequestBytes with a number from 1 to the most that the service
-- reads; and allowPartialMessage with false.
pub check_gateway_config_sound :
    (text listen : Bytes) → check_gateway_config text listen ≡ ok tt → IsGuarded text listen
unfolding check_gateway_config one
check_gateway_config_sound text listen e =
    then-elim (refuse_if (contains b'{' text) inline_yaml) _ e λ e1 f1.
      then-elim
        (refuse_if (not (is_single (all (entries text) (codes "extAuthz")))) not_one_ext_authz) _ f1
        λ e2 f2.
          bind-elim (only (codes "host") (all (entries text) (codes "host"))) _ f2 λ host e3 f3.
            then-elim (refuse_if (not (bytes_eq host listen)) (other_target listen)) _ f3 λ e4 f4.
              bind-elim (only (codes "failureMode") (all (entries text) (codes "failureMode"))) _ f4
                λ mode e5 f5.
                  then-elim (refuse_if (not (bytes_eq mode (codes "deny"))) failure_mode_open) _ f5
                    λ e6 f6.
                      bind-elim
                        (only (codes "requestTimeout")
                          (all (entries text) (codes "requestTimeout")))
                        _ f6
                        λ t e7 f7. then-elim (check_timeout t) _ f7 λ e8 f8.
                          then-elim
                            (refuse_if
                              (not (is_single (all (entries text) (codes "includeRequestBody"))))
                              not_one_body)
                            _ f8
                            λ e9 f9.
                              bind-elim
                                (only (codes "maxRequestBytes")
                                  (all (entries text) (codes "maxRequestBytes")))
                                _ f9
                                λ max e10 f10.
                                  bind-elim (ok_or (max_not_number max) (parse_u64 max)) _ f10
                                    λ n e11 f11.
                                      then-elim (refuse_if (n == 0 || ltb body_max n) (max_range n))
                                        _ f11
                                        λ e12 f12.
                                          bind-elim
                                            (only (codes "allowPartialMessage")
                                              (all (entries text) (codes "allowPartialMessage")))
                                            _ f12
                                            λ partial e13 f13.
                                              let (authz, block) =
                                                single-eq _ (refuse_unless _ _ e2) in
                                              let (body, sends) =
                                                single-eq _ (refuse_unless _ _ e9) in
                                              let bounds = refuse_when _ _ e12 in
                                              record {
                                                authz = authz;
                                                timeout = t;
                                                body = body;
                                                max = max;
                                                n = n;
                                                no_inline = refuse_when _ _ e1;
                                                one_block = entries-Once text _ _ block;
                                                asks_here = entries-Once text _ _ (
                                                    only-eq _ _ _ e3 ∙ (λ i.
                                                      bytes_eq→eq _ _ (refuse_unless _ _ e4) i
                                                      ∷ []));
                                                fails_closed = entries-Once text _ _ (
                                                    only-eq _ _ _ e5 ∙ (λ i.
                                                      bytes_eq→eq _ _ (refuse_unless _ _ e6) i
                                                      ∷ []));
                                                waits = entries-Once text _ _ (only-eq _ _ _ e7);
                                                waits_long = timeout-IsLong t e8;
                                                sends_body = entries-Once text _ _ sends;
                                                bounds_body =
                                                    entries-Once text _ _ (only-eq _ _ _ e10);
                                                number = ok_or-eq-ok _ _ e11;
                                                positive = ground arith;
                                                at_most = ground arith;
                                                whole_body = entries-Once text _ _ (
                                                    only-eq _ _ _ e13 ∙ (λ i.
                                                      bytes_eq→eq _ _ (refuse_unless _ _ f13) i
                                                      ∷ []));
                                              }
