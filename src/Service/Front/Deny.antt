-- ===== src/Service/Front/Deny.antt =====
-- What an answer of crates/stop/src/main.rs stands on.
use tactiq_attest.Base.{ℕ, Bytes, List, [], ◌≡◌, refl, Result, ok, err, arith}
use tactiq_attest.Messages.{Message, R}
use tactiq_attest.Crypto.{Ecdsa}
use tactiq_attest.Service.Port.{StopTpm}
use tactiq_attest.Service.Core.{Ctx, Admission, allow, refuse, admit}
use tactiq_attest.Service.Core.Gating.{IsOpen, admit_sound}
use tactiq_attest.Service.Http.{Request, Event, read_request}
use tactiq_attest.Service.Http.Reading.{IsRead, read_request_sound}
use tactiq_attest.Service.Front.{answer_of, bad_request, answer, answer_to, digest_of}

answer_of-200 : (r : Result Message Admission) → (answer_of r).code ≡ 200 → r ≡ ok allow
unfolding answer_of
answer_of-200 (ok allow) e = refl
answer_of-200 (ok (refuse receipt)) e = absurd (omega arith)
answer_of-200 (err m) e = absurd (omega arith)

answer_of-403 :
    (r : Result Message Admission)
    → (answer_of r).code ≡ 403
    → (receipt : Bytes) × (r ≡ ok (refuse receipt)) × ((answer_of r).body ≡ receipt)
unfolding answer_of
answer_of-403 (ok allow) e = absurd (omega arith)
answer_of-403 (ok (refuse receipt)) e = (receipt, refl, refl)
answer_of-403 (err m) e = absurd (omega arith)

module _ (sha256 : Bytes → Bytes) (ecdsa : Ecdsa) (W : Type 0) (text_of : Message → Bytes)
    (tpm : StopTpm W) (ctx : Ctx ecdsa W) where
  -- What stands behind an answer with the code 200.
  pub record IsAllowed (es : List Event) (w v : W) : Type 0 where
    pub req : Request
    pub read : IsRead [] es req
    pub counter : ℕ
    pub u : W
    pub counter_read : tpm.read_counter w ≡ (ok counter, u)
    pub open_at : IsOpen ecdsa W ctx.lift_stop counter u v

  answer_to-IsAllowed :
      (es : List Event) (w : W) (r : R Request)
      → read_request es ≡ r
      → (answer_to sha256 ecdsa W text_of tpm ctx r w).0.code ≡ 200
      → IsAllowed es w (answer_to sha256 ecdsa W text_of tpm ctx r w).1
  unfolding bad_request
  answer_to-IsAllowed es w (err m) e h = absurd (omega arith)
  answer_to-IsAllowed es w (ok req) e h =
      let digest : Bytes = digest_of sha256 ecdsa W text_of req in
      let allowed : (admit sha256 ecdsa W tpm ctx digest w).0 ≡ ok allow = answer_of-200 _ h in
      let (counter, u, read, at) =
        admit_sound sha256 ecdsa W tpm ctx digest w (admit sha256 ecdsa W tpm ctx digest w).1
          (λ i. (allowed i, (admit sha256 ecdsa W tpm ctx digest w).1)) in
      record {
        req = req;
        read = read_request_sound es req e;
        counter = counter;
        u = u;
        counter_read = read;
        open_at = at;
      }

  pub answer-IsAllowed :
      (es : List Event) (w : W)
      → (answer sha256 ecdsa W text_of tpm ctx es w).0.code ≡ 200
      → IsAllowed es w (answer sha256 ecdsa W text_of tpm ctx es w).1
  unfolding answer
  answer-IsAllowed es w e = answer_to-IsAllowed es w (read_request es) refl e
