-- ===== src/Service/Front/Define.antt =====
-- The command `define` of crates/stop/src/main.rs, on the chip behind the commands of
-- crates/attest-tpm/src/lib.rs.
use tactiq_attest.Base.{
  ℕ, Bytes, List, [], ◌∷◌, Bool, true, false, ◌≡◌, sym, subst, codes, bytes_eq, bytes_eq→eq,
  Bool-cases, inl, inr, ok-injective, err-ne-ok, ok, err, if◌then◌else◌,
}
use tactiq_attest.Messages.{Message, R, already_defined}
use tactiq_attest.Stop.Record.{State, stopped, running}
use tactiq_attest.Service.Effects.{
  Exec, raise, lift, or_fail, ◌>>=◌, ◌>>◌, exec-elim, lift-bind-elim, or_fail-eq,
}
use tactiq_attest.Service.Core.{state_of, Transition}
use tactiq_attest.Service.Core.Moves.{settle}
use tactiq_attest.Service.Core.Moves.Laws.{epoch_of, IsOneStep, Went, settle_sound}
use tactiq_attest.Service.Front.{define_wants, describe_failure}
use tactiq_attest.TpmAccess.{check_stop_attributes, stop_attributes_written}
use tactiq_attest.TpmAccess.Commands.Own.{IsOwn, verify_stop_counter-IsOwn}
use tactiq_attest.TpmAccess.Commands.{
  Tools, stop_nv_counter, nv_defined, stop_nv_attributes, stop_nv_first_write, stop_nv_define,
  verify_stop_counter, real,
}

module _ (W : Type 0) (tools : Tools W) where
  -- An index that is there already: only one that was never written is finished.
  finish_defined : Exec Message W (Unit {0})
  finish_defined = do
    attrs ← stop_nv_attributes W tools
    lift (check_stop_attributes attrs)
    if stop_attributes_written attrs
        then raise (already_defined attrs)
        else stop_nv_first_write W tools

  make_index : Bool → Exec Message W (Unit {0})
  make_index true = finish_defined
  make_index false = stop_nv_define W tools

  -- `ready` is what the work directory and the lock gave.
  pub define : R (Unit {0}) → Bytes → List Bytes → Exec Message W Transition
  define ready work args = do
    want ← lift (define_wants args)
    lift ready
    there ← nv_defined W tools stop_nv_counter
    make_index there
    verify_stop_counter W tools
    or_fail describe_failure (settle W (real W tools work) want)

  -- The states that the arguments ask for.
  pub data Asks : List Bytes → State → Type 0 where
    by_default : Asks [] stopped
    for_stopped : Asks (codes "--initial" ∷ codes "stopped" ∷ []) stopped
    for_running : Asks (codes "--initial" ∷ codes "running" ∷ []) running

  define_wants-Asks :
      (args : List Bytes) (want : State) → define_wants args ≡ ok want → Asks args want
  unfolding define_wants
  define_wants-Asks [] want e = subst (Asks []) (ok-injective e) by_default
  define_wants-Asks (flag ∷ []) want e = absurd (err-ne-ok e)
  define_wants-Asks (flag ∷ (v ∷ [])) want e =
      elim (Bool-cases (bytes_eq flag (codes "--initial"))) [
        | inl p ↦
            let start : flag ≡ codes "--initial" = bytes_eq→eq _ _ p in
            elim (Bool-cases (bytes_eq v (codes "stopped"))) [
              | inl q ↦ subst (Asks (flag ∷ v ∷ [])) (ok-injective (rw (p, q) at e)) (
                  subst (λ a. Asks a stopped)
                    (λ i. sym start i ∷ sym (bytes_eq→eq v (codes "stopped") q) i ∷ []) for_stopped)
              | inr q ↦ elim (Bool-cases (bytes_eq v (codes "running"))) [
                | inl r ↦ subst (Asks (flag ∷ v ∷ [])) (ok-injective (rw (p, q, r) at e)) (
                    subst (λ a. Asks a running)
                      (λ i. sym start i ∷ sym (bytes_eq→eq v (codes "running") r) i ∷ [])
                      for_running)
                | inr r ↦ absurd (err-ne-ok (rw (p, q, r) at e))
              ]
            ]
        | inr p ↦ absurd (err-ne-ok (rw p at e))
      ]
  define_wants-Asks (flag ∷ (v ∷ (x ∷ xs))) want e = absurd (err-ne-ok e)

  -- What a definition that succeeded stands on.
  pub record IsDefined (work : Bytes) (args : List Bytes) (t : Transition) (v : W) : Type 0 where
    pub want : State
    pub wanted : Asks args want
    pub u : W
    pub x : W
    pub verified : IsOwn W tools u x
    pub state : state_of (epoch_of t) ≡ want
    pub one_step : IsOneStep want t
    pub went : Went W (real W tools work) x v t

  -- A definition that succeeds ends on the state that its arguments ask for, which is stopped
  -- without arguments and else the one behind --initial, by one increment at most, from a world in
  -- which a listing of the index was read whose attributes are just those of a counter that its
  -- own authorization writes and reads, written or not.
  pub define_sound :
      (work : Bytes) (args : List Bytes) (ready : R (Unit {0})) (w v : W) (t : Transition)
      → define ready work args w ≡ (ok t, v)
      → IsDefined work args t v
  unfolding define
  define_sound work args ready w v t e = lift-bind-elim (define_wants args) _ w v e λ want e1 f1.
      lift-bind-elim ready _ w v f1 λ _ _ f2.
        exec-elim (nv_defined W tools stop_nv_counter) _ w v f2 λ there w1 _ f3.
          exec-elim (make_index there) _ w1 v f3 λ _ w2 _ f4.
            exec-elim (verify_stop_counter W tools) _ w2 v f4 λ _ w3 e5 f5.
              let settled =
                or_fail-eq describe_failure (settle W (real W tools work) want) w3 v f5 in
              let (state, one, went) = settle_sound W (real W tools work) want w3 v t settled in
              record {
                want = want;
                wanted = define_wants-Asks args want e1;
                u = w2;
                x = w3;
                verified = verify_stop_counter-IsOwn W tools w2 w3 e5;
                state = state;
                one_step = one;
                went = went;
              }

  -- When the index is there with the attributes of the program's own counter and was written, a
  -- definition for valid arguments ends in the error that says so, in the world after the
  -- attributes were read: nothing is written or incremented.
  pub define_refused :
      (work : Bytes) (args : List Bytes) (want : State) (w u x : W) (attrs : ℕ)
      → define_wants args ≡ ok want
      → nv_defined W tools stop_nv_counter w ≡ (ok true, u)
      → stop_nv_attributes W tools u ≡ (ok attrs, x)
      → check_stop_attributes attrs ≡ ok tt
      → stop_attributes_written attrs ≡ true
      → define (ok tt) work args w ≡ (err (already_defined attrs), x)
  unfolding define finish_defined make_index ◌>>=◌ lift raise
  define_refused work args want w u x attrs e1 e2 e3 e4 e5 = rw (e1, e2, e3, e4, e5)

-- Named on the line of a test, opens what this module keeps shut.
unfoldable pub computing_define : Unit {0}
unfolding finish_defined make_index define
computing_define = tt
