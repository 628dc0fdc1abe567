-- ===== src/Service/Core/Gating.antt =====
-- When the gate of crates/stop/src/core.rs is open.
use tactiq_attest.Base.{
  ℕ, ◌%◌, Bytes, [], ◌≡◌, refl, sym, ◌∙◌, Option, none, some, ok, if◌then◌else◌, arith,
}
use tactiq_attest.Crypto.{Ecdsa}
use tactiq_attest.Stop.Record.{State, running, stopped}
use tactiq_attest.Service.Effects.{pure, ◌>>=◌, exec-elim, pure-elim}
use tactiq_attest.Service.Release
use tactiq_attest.Service.Release.Exact.{text, IsSigned, check_sound}
use tactiq_attest.Service.Core.{
  state_of, same_state, Gate, open_gate, stopped_gate, unreleased, Lift, released, gate, Admission,
  allow, refuse, Ctx, admit, admit_at, refusal_of, sign,
}
use tactiq_attest.Service.Port.{StopTpm}

pub state_of-even : (n : ℕ) → state_of n ≡ running → n % 2 ≡ 0
unfolding state_of
state_of-even n e = ground arith

pub state_of-odd : (n : ℕ) → state_of n ≡ stopped → n % 2 ≡ 1
unfolding state_of
state_of-odd n e = ground arith

shut_ne_open : stopped_gate ≡ open_gate → ⊥
shut_ne_open e = cc

allow_ne_refuse : {b : Bytes} → allow ≡ refuse b → ⊥
allow_ne_refuse e = cc

refuse-injective : {a b : Bytes} → refuse a ≡ refuse b → b ≡ a
refuse-injective e = cc

module _ (ecdsa : Ecdsa) (W : Type 0) where
  -- What an open gate at a counter stands on: the files held the text that names this device and this
  -- counter, and a signature over it that the operator's key verified.
  pub record IsOpen (l : Lift ecdsa W) (counter : ℕ) (w v : W) : Type 0 where
    pub even : counter % 2 ≡ 0
    pub signature : Bytes
    pub stored : l.release.read w ≡ (ok (some (text l.device_id counter, signature)), v)
    pub signed : IsSigned ecdsa l.operator_key signature l.device_id counter

  released_open :
      (l : Lift ecdsa W) (counter : ℕ) (rec sig : Bytes)
      → released ecdsa W l counter (some (rec, sig)) ≡ open_gate
      → Release.check ecdsa l.operator_key rec sig l.device_id counter ≡ ok tt
  unfolding released
  released_open l counter rec sig e = ground arith

  released-none : (l : Lift ecdsa W) (counter : ℕ) → released ecdsa W l counter none ≡ open_gate → ⊥
  unfolding released
  released-none l counter e = cc

  IsOpen-found :
      (l : Lift ecdsa W) (counter : ℕ) (w v : W) (found : Option (Bytes × Bytes))
      → counter % 2 ≡ 0
      → l.release.read w ≡ (ok found, v)
      → released ecdsa W l counter found ≡ open_gate
      → IsOpen l counter w v
  IsOpen-found l counter w v none even r e = absurd (released-none l counter e)
  IsOpen-found l counter w v (some (rec, sig)) even r e =
      let (same, signed) =
        check_sound ecdsa l.operator_key rec sig l.device_id counter
          (released_open l counter rec sig e) in
      record {
        even = even;
        signature = sig;
        stored = r ∙ (λ i. (ok (some (same i, sig)), v));
        signed = signed;
      }

  gate_at :
      (l : Lift ecdsa W) (counter : ℕ) (w v : W) (s : State)
      → state_of counter ≡ s
      → (if same_state s stopped
            then pure stopped_gate
            else (do found ← l.release.read; pure (released ecdsa W l counter found)))
          w
        ≡ (ok open_gate, v)
      → IsOpen l counter w v
  gate_at l counter w v stopped h e = pure-elim stopped_gate w v e λ p _. absurd (shut_ne_open p)
  gate_at l counter w v running h e =
      exec-elim l.release.read (λ found. pure (released ecdsa W l counter found)) w v e
        λ found u r e'. pure-elim (released ecdsa W l counter found) u v e' λ opened same.
          IsOpen-found l counter w v found (state_of-even counter h) (r ∙ (λ i. (ok found, same i)))
            opened

  -- The gate opens at a counter only if the counter is even and the release store holds, at that
  -- moment, the text of this device and this counter with a signature that the operator's key
  -- verifies.
  pub gate_sound :
      (l : Lift ecdsa W) (counter : ℕ) (w v : W)
      → gate ecdsa W l counter w ≡ (ok open_gate, v)
      → IsOpen l counter w v
  unfolding gate
  gate_sound l counter w v e = gate_at l counter w v (state_of counter) refl e

module _ (sha256 : Bytes → Bytes) (ecdsa : Ecdsa) (W : Type 0) (tpm : StopTpm W)
    (ctx : Ctx ecdsa W) where
  -- A refused call carries a receipt that `sign` made, whatever the gate.
  refused_by :
      (digest : Bytes) (counter : ℕ) (w v : W) (a : Admission)
      → (do
        receipt ← sign sha256 ecdsa W tpm ctx (refusal_of sha256 ecdsa W ctx digest counter) []
        pure (refuse receipt))
          w
        ≡ (ok a, v)
      → (receipt : Bytes) × (a ≡ refuse receipt)
        × (sign sha256 ecdsa W tpm ctx (refusal_of sha256 ecdsa W ctx digest counter) [] w
            ≡ (ok receipt, v))
  refused_by digest counter w v a e =
      exec-elim (sign sha256 ecdsa W tpm ctx (refusal_of sha256 ecdsa W ctx digest counter) [])
        (λ receipt. pure (refuse receipt)) w v e
        λ receipt u s e'.
          pure-elim (refuse receipt) u v e'
            λ same there. (receipt, sym same, s ∙ (λ i. (ok receipt, there i)))

  -- What `admit_at` answers, by the gate.
  admit_at-allow :
      (digest : Bytes) (counter : ℕ) (g : Gate) (w v : W)
      → admit_at sha256 ecdsa W tpm ctx digest counter g w ≡ (ok allow, v)
      → (g ≡ open_gate) × (w ≡ v)
  unfolding admit_at
  admit_at-allow digest counter open_gate w v e = pure-elim allow w v e λ _ there. (refl, there)
  admit_at-allow digest counter stopped_gate w v e =
      let (receipt, same, _) = refused_by digest counter w v allow e in
      absurd (allow_ne_refuse same)
  admit_at-allow digest counter (unreleased why) w v e =
      let (receipt, same, _) = refused_by digest counter w v allow e in
      absurd (allow_ne_refuse same)

  pub admit_at-refuse :
      (digest : Bytes) (counter : ℕ) (g : Gate) (w v : W) (receipt : Bytes)
      → admit_at sha256 ecdsa W tpm ctx digest counter g w ≡ (ok (refuse receipt), v)
      → sign sha256 ecdsa W tpm ctx (refusal_of sha256 ecdsa W ctx digest counter) [] w
        ≡ (ok receipt, v)
  unfolding admit_at
  admit_at-refuse digest counter open_gate w v receipt e =
      pure-elim allow w v e λ same _. absurd (allow_ne_refuse same)
  admit_at-refuse digest counter stopped_gate w v receipt e =
      let (r, same, s) = refused_by digest counter w v (refuse receipt) e in
      s ∙ (λ i. (ok (refuse-injective same (i)), v))
  admit_at-refuse digest counter (unreleased why) w v receipt e =
      let (r, same, s) = refused_by digest counter w v (refuse receipt) e in
      s ∙ (λ i. (ok (refuse-injective same (i)), v))

  -- A call is let through only after the TPM's counter was read for this call and the gate at that
  -- very value found it even and found the stored release for it, signed by the operator and byte
  -- for byte the text of this device and this counter.
  pub admit_sound :
      (digest : Bytes) (w v : W)
      → admit sha256 ecdsa W tpm ctx digest w ≡ (ok allow, v)
      → (counter : ℕ) × (u : W) × (tpm.read_counter w ≡ (ok counter, u))
        × IsOpen ecdsa W ctx.lift_stop counter u v
  unfolding admit
  admit_sound digest w v e = exec-elim tpm.read_counter _ w v e λ counter u read e'.
      exec-elim (gate ecdsa W ctx.lift_stop counter) _ u v e' λ g x at e''.
        let (opened, there) = admit_at-allow digest counter g x v e'' in
        (
          counter,
          u,
          read,
          gate_sound ecdsa W ctx.lift_stop counter u v (at ∙ (λ i. (ok (opened i), there i))),
        )
