-- ===== src/Service/Front/Confirm.antt =====
-- The operator commands of crates/stop/src/main.rs, confirmed by the service that runs on the same
-- device: the probe is a request to `handle`.
use tactiq_attest.Base.{
  Bytes, List, [], ◌∷◌, ◌≡◌, ◌↔◌, refl, sym, ap, ◌∙◌, Option, some, codes, Result, ok, err,
  bytes_eq-ne, err-ne-ok, computing,
}
use tactiq_attest.Messages.{Message, R}
use tactiq_attest.Crypto.{Ecdsa}
use tactiq_attest.Stop.Record.{State, running, stopped}
use tactiq_attest.Service.Port.{StopTpm}
use tactiq_attest.Service.Text.{computing_text}
use tactiq_attest.Service.Effects.{raise, lift, attempt, ◌>>=◌}
use tactiq_attest.Service.Core.{
  Ctx, Lift, Admission, allow, refuse, admit, Transition, TransitionError,
}
use tactiq_attest.Service.Core.Moves.{trip, recover}
use tactiq_attest.Service.Http.{Request, Event, chunk, read_request, computing_http}
use tactiq_attest.Service.Front.{
  answer_of, answer, digest_of, response, handle, code_of, Confirmation, calls_refused, calls_pass,
  confirm_code, confirm_through_service, probe_request, confirm_after, admin, cmd_trip, cmd_recover,
  computing_front, bad_request, answer_to,
}
use tactiq_attest.Service.Front.Deny.{IsAllowed, answer-IsAllowed}

abbrev pub probe_read : Request
probe_read = record { method = codes "POST"; path = codes "/tactiq-stop/probe"; body = [] }

read_request-probe : read_request (chunk probe_request ∷ []) ≡ ok probe_read
unfolding computing computing_text computing_http computing_front
read_request-probe = refl

-- The code as the probe reads it.
abbrev shown : Result Message Admission → Bytes
shown (ok allow) = codes "200"
shown (ok (refuse receipt)) = codes "403"
shown (err e) = codes "503"

code_of-answer_of : (r : Result Message Admission) → code_of (response (answer_of r)) ≡ shown r
unfolding computing computing_text computing_front
code_of-answer_of (ok allow) = refl
code_of-answer_of (ok (refuse receipt)) = refl
code_of-answer_of (err e) = refl

code_of-bad_request : (text : Bytes) → code_of (response (bad_request text)) ≡ codes "400"
unfolding computing computing_text computing_front
code_of-bad_request text = refl

shown-200 : (r : Result Message Admission) → shown r ≡ codes "200" → r ≡ ok allow
unfolding computing
shown-200 (ok allow) e = refl
shown-200 (ok (refuse receipt)) e = absurd (bytes_eq-ne (codes "403") (codes "200") refl e)
shown-200 (err m) e = absurd (bytes_eq-ne (codes "503") (codes "200") refl e)

confirm_stopped :
    (r : Result Message Admission)
    → confirm_code stopped (shown r) ≡ ok calls_refused
    → (receipt : Bytes) × (r ≡ ok (refuse receipt))
unfolding confirm_code computing
confirm_stopped (ok allow) e = absurd (err-ne-ok e)
confirm_stopped (ok (refuse receipt)) e = (receipt, refl)
confirm_stopped (err m) e = absurd (err-ne-ok e)

confirm_running :
    (r : Result Message Admission) → confirm_code running (shown r) ≡ ok calls_pass → r ≡ ok allow
unfolding confirm_code computing
confirm_running (ok allow) e = refl
confirm_running (ok (refuse receipt)) e = absurd (err-ne-ok e)
confirm_running (err m) e = absurd (err-ne-ok e)

raised_ne_ok :
    {W : Type 0} (m : Message) (c : Confirmation) (u v : W)
    → ◌≡◌ {A = Result Message Confirmation × W} (err m, u) (ok c, v)
    → ⊥
raised_ne_ok {W} m c u v e =
    let same : ◌≡◌ {A = Result Message Confirmation} (err m) (ok c) = λ i. (e i).0 in err-ne-ok same

module _ (sha256 : Bytes → Bytes) (ecdsa : Ecdsa) (W : Type 0) (text_of : Message → Bytes)
    (tpm : StopTpm W) (ctx : Ctx ecdsa W) where
  allowed_at :
      (es : List Event) (w : W) (r : R Request)
      → read_request es ≡ r
      → code_of (response (answer_to sha256 ecdsa W text_of tpm ctx r w).0) ≡ codes "200"
      → (answer_to sha256 ecdsa W text_of tpm ctx r w).0.code ≡ 200
  unfolding answer_of computing
  allowed_at es w (err m) e h =
      absurd
        (bytes_eq-ne (codes "400") (codes "200") refl (sym (code_of-bad_request (text_of m)) ∙ h))
  allowed_at es w (ok req) e h =
      let digest : Bytes = digest_of sha256 ecdsa W text_of req in
      let r : Result Message Admission = (admit sha256 ecdsa W tpm ctx digest w).0 in
      ap (λ x. (answer_of x).code) (shown-200 r (sym (code_of-answer_of r) ∙ h))

  -- A response with the code 200 is written only for a request that was read whole from the
  -- connection, after the counter was read for it and the gate at that value found it even with
  -- the operator's signed release for it.
  pub handle-IsAllowed :
      (es : List Event) (w : W)
      → code_of (handle sha256 ecdsa W text_of tpm ctx es w).0 ≡ codes "200"
      → IsAllowed sha256 ecdsa W text_of tpm ctx es w (handle sha256 ecdsa W text_of tpm ctx es w).1
  unfolding handle answer
  handle-IsAllowed es w e =
      answer-IsAllowed sha256 ecdsa W text_of tpm ctx es w
        (allowed_at es w (read_request es) refl e)

  -- The service that runs on the same device, as the probe meets it.
  unfoldable pub served : W → Option (R Bytes) × W
  unfolding probe_request
  served w =
      let (out, w') = handle sha256 ecdsa W text_of tpm ctx (chunk probe_request ∷ []) w in
      (some (ok out), w')

  abbrev pub probe_digest : Bytes
  probe_digest = digest_of sha256 ecdsa W text_of probe_read

  abbrev probed : W → Result Message Admission × W
  probed = admit sha256 ecdsa W tpm ctx probe_digest

  confirm-served :
      (want : State) (u : W)
      → confirm_through_service want (served u).0 ≡ confirm_code want (shown (probed u).0)
  unfolding served handle answer confirm_through_service
  confirm-served want u =
      rw (read_request-probe) (ap (confirm_code want) (code_of-answer_of (probed u).0))

  served-world : (u : W) → (served u).1 ≡ (probed u).1
  unfolding served handle answer
  served-world u = rw (read_request-probe)

  after_trip :
      (w v : W) (r : Result TransitionError Transition) (u : W)
      → trip W tpm w ≡ (r, u)
      → confirm_after W served stopped r u ≡ (ok calls_refused, v)
      → (t : Transition) × (x : W) × (receipt : Bytes) × (trip W tpm w ≡ (ok t, x))
        × (probed x ≡ (ok (refuse receipt), v))
  unfolding confirm_after raise
  after_trip w v (err m) u e h = absurd (raised_ne_ok _ calls_refused u v h)
  after_trip w v (ok t) u e h =
      let same : confirm_through_service stopped (served u).0 ≡ ok calls_refused = λ i. (h i).0 in
      let there : (served u).1 ≡ v = λ i. (h i).1 in
      let (receipt, refused) =
        confirm_stopped (probed u).0 (sym (confirm-served stopped u) ∙ same) in
      (t, u, receipt, e, λ i. (refused i, (sym (served-world u) ∙ there) i))

  -- With the service answering on the same device, the command trip confirms that calls are
  -- refused exactly when the trip succeeded and the service then refused the probe with a receipt.
  pub trip_confirmed :
      (w v : W)
      → (cmd_trip W served (ok tt) tpm w ≡ (ok calls_refused, v)) ↔ (
          (t : Transition) × (x : W) × (receipt : Bytes) × (trip W tpm w ≡ (ok t, x))
          × (admit sha256 ecdsa W tpm ctx probe_digest x ≡ (ok (refuse receipt), v)))
  unfolding cmd_trip admin lift attempt ◌>>=◌ confirm_after confirm_code computing
  trip_confirmed w v = (
    λ e. after_trip w v (trip W tpm w).0 (trip W tpm w).1 refl e,
    λ (t, x, receipt, e, p). rw e (back t x receipt p),
  )
    where
      back :
          (t : Transition) (x : W) (receipt : Bytes)
          → probed x ≡ (ok (refuse receipt), v)
          → confirm_after W served stopped (ok t) x ≡ (ok calls_refused, v)
      back t x receipt p =
          let same : confirm_through_service stopped (served x).0 ≡ ok calls_refused =
            confirm-served stopped x ∙ ap (λ r. confirm_code stopped (shown r)) (λ i. (p i).0) in
          let there : (served x).1 ≡ v = served-world x ∙ (λ i. (p i).1) in λ i. (same i, there i)

  after_recover :
      (l : Lift ecdsa W) (w v : W) (r : Result TransitionError Transition) (u : W)
      → recover ecdsa W tpm l w ≡ (r, u)
      → confirm_after W served running r u ≡ (ok calls_pass, v)
      → (t : Transition) × (x : W) × (recover ecdsa W tpm l w ≡ (ok t, x))
        × (probed x ≡ (ok allow, v))
  unfolding confirm_after raise
  after_recover l w v (err m) u e h = absurd (raised_ne_ok _ calls_pass u v h)
  after_recover l w v (ok t) u e h =
      let same : confirm_through_service running (served u).0 ≡ ok calls_pass = λ i. (h i).0 in
      let there : (served u).1 ≡ v = λ i. (h i).1 in
      let passed = confirm_running (probed u).0 (sym (confirm-served running u) ∙ same) in
      (t, u, e, λ i. (passed i, (sym (served-world u) ∙ there) i))

  -- With the service answering on the same device, the command recover confirms that calls pass
  -- exactly when the recovery succeeded and the service then let the probe pass.
  pub recover_confirmed :
      (l : Lift ecdsa W) (w v : W)
      → (cmd_recover W served ecdsa (ok l) (ok tt) tpm w ≡ (ok calls_pass, v)) ↔ (
          (t : Transition) × (x : W) × (recover ecdsa W tpm l w ≡ (ok t, x))
          × (admit sha256 ecdsa W tpm ctx probe_digest x ≡ (ok allow, v)))
  unfolding cmd_recover admin lift attempt ◌>>=◌ confirm_after confirm_code computing
  recover_confirmed l w v = (
    λ e. after_recover l w v (recover ecdsa W tpm l w).0 (recover ecdsa W tpm l w).1 refl e,
    λ (t, x, e, p). rw e (back t x p),
  )
    where
      back :
          (t : Transition) (x : W)
          → probed x ≡ (ok allow, v)
          → confirm_after W served running (ok t) x ≡ (ok calls_pass, v)
      back t x p =
          let same : confirm_through_service running (served x).0 ≡ ok calls_pass =
            confirm-served running x ∙ ap (λ r. confirm_code running (shown r)) (λ i. (p i).0) in
          let there : (served x).1 ≡ v = served-world x ∙ (λ i. (p i).1) in λ i. (same i, there i)
