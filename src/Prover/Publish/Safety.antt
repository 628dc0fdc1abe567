-- ===== src/Prover/Publish/Safety.antt =====
-- What is on disk at any moment of a publication by crates/prover/src/main.rs.
use tactiq_attest.Base.{
  ℕ, Bytes, Bool, true, false, not, ◌&&◌, ◌||◌, List, [], ◌∷◌, ◌++◌, ◌≡◌, refl, sym, ap, ◌∙◌,
  bytes_eq, bytes_eq_refl, ok, err, err-ne-ok, if◌then◌else◌, arith, append_assoc,
}
use tactiq_attest.Messages.{Message, R}
use tactiq_attest.Prover.Names.{
  ext_msg, ext_attest, ext_sig, ext_tag, fin_name, part_name, dot_part,
}
use tactiq_attest.Prover.Publish.{
  DiskOp, create, write, sync, quote, rename, remove, sync_dir, Log, part, fin, staging,
  publication, removals, logged, succeeded, run_all, try_all, finish_publish, publish_envelope,
}

-- The operation changes the file of this name.
pub touches : Bytes → DiskOp → Bool
touches p (create q) = bytes_eq p q
touches p (write q _) = bytes_eq p q
touches p (sync q) = false
touches p (quote q r) = bytes_eq p q || bytes_eq p r
touches p (rename q r) = bytes_eq p q || bytes_eq p r
touches p (remove q) = bytes_eq p q
touches p (sync_dir _) = false

is_sync : Bytes → DiskOp → Bool
is_sync p (sync q) = bytes_eq p q
is_sync p _ = false

is_sync_dir : Bytes → DiskOp → Bool
is_sync_dir d (sync_dir q) = bytes_eq d q
is_sync_dir d _ = false

moves_to : Bytes → DiskOp → Bool
moves_to p (rename _ q) = bytes_eq p q
moves_to p _ = false

-- The file was forced to disk with success, and no operation that changes it was tried since.
pub forced : Bytes → Log → Bool
forced p [] = false
forced p ((op, worked) ∷ log) = worked && is_sync p op || not (touches p op) && forced p log

pub moved_to : Bytes → Log → Bool
moved_to p [] = false
moved_to p ((op, worked) ∷ log) = worked && moves_to p op || moved_to p log

-- The three files of an envelope were moved to their names, and then the directory was forced, all
-- with success.
pub listed : Bytes → Bytes → Log → Bool
listed out stem [] = false
listed out stem ((op, worked) ∷ log) =
    worked
      && (is_sync_dir out op
          && (moved_to (fin out stem ext_msg) log
              && (moved_to (fin out stem ext_attest) log && moved_to (fin out stem ext_sig) log)))
    || listed out stem log

-- What is given a name of the envelope is the file of the temporary name, and was forced to disk
-- before; and the tag comes last.
pub allowed : Bytes → Bytes → DiskOp → Log → Bool
allowed out stem (rename a b) log =
    if bytes_eq b (fin out stem ext_tag)
    then bytes_eq a (part out stem ext_tag) && (forced a log && listed out stem log)
    else (if bytes_eq b (fin out stem ext_msg)
        then bytes_eq a (part out stem ext_msg) && forced a log
        else (if bytes_eq b (fin out stem ext_attest)
            then bytes_eq a (part out stem ext_attest) && forced a log
            else (if bytes_eq b (fin out stem ext_sig)
                then bytes_eq a (part out stem ext_sig) && forced a log
                else true)))
allowed out stem _ log = true

-- At every moment of the log.
unfoldable pub safe : Bytes → Bytes → Log → Bool
safe out stem [] = true
safe out stem ((op, _) ∷ log) = allowed out stem op log && safe out stem log

safe_cons :
    (out stem : Bytes) (op : DiskOp) (worked : Bool) (log : Log)
    → allowed out stem op log ≡ true
    → safe out stem log ≡ true
    → safe out stem ((op, worked) ∷ log) ≡ true
unfolding safe
safe_cons out stem op worked log h s = rw (h, s)

-- The operations of a list are each allowed where they stand, if those before it succeeded.
all_allowed : Bytes → Bytes → List DiskOp → Log → Bool
all_allowed out stem [] log = true
all_allowed out stem (op ∷ ops) log =
    allowed out stem op log && all_allowed out stem ops ((op, true) ∷ log)

-- Operations that are allowed wherever they stand.
never_moves : List DiskOp → Bool
never_moves [] = true
never_moves (remove _ ∷ ops) = never_moves ops
never_moves (_ ∷ ops) = false

-- The log after all of them.
abbrev onto : List DiskOp → Log → Log
onto [] log = log
onto (op ∷ ops) log = onto ops ((op, true) ∷ log)

ap2 : (f : Bytes → Bytes → Bool) {x x' y y' : Bytes} → x ≡ x' → y ≡ y' → f x y ≡ f x' y'
ap2 f e e' = λ i. f (e i) (e' i)

bytes_eq-append : (p x y : Bytes) → bytes_eq (p ++ x) (p ++ y) ≡ bytes_eq x y
unfolding bytes_eq
bytes_eq-append [] x y = refl
bytes_eq-append (b ∷ p) x y = ground (arith, bytes_eq-append p x y)

behind : (p x y : Bytes) (c : ℕ) → bytes_eq (p ++ c ∷ x) (p ++ c ∷ y) ≡ bytes_eq x y
behind p x y c = bytes_eq-append p (c ∷ x) (c ∷ y) ∙ same_head c x y
  where
    same_head : (c : ℕ) (x y : Bytes) → bytes_eq (c ∷ x) (c ∷ y) ≡ bytes_eq x y
    same_head c x y = bytes_eq-append (c ∷ []) x y

module _ (out stem : Bytes) where
  part-part :
      (e e' : Bytes)
      → bytes_eq (part out stem e) (part out stem e') ≡ bytes_eq (e ++ dot_part) (e' ++ dot_part)
  unfolding part_name fin_name
  part-part e e' =
      behind out (part_name stem e) (part_name stem e') b'/'
      ∙ ap2 bytes_eq (append_assoc stem (b'.' ∷ e) dot_part)
          (append_assoc stem (b'.' ∷ e') dot_part)
      ∙ behind stem (e ++ dot_part) (e' ++ dot_part) b'.'

  fin-fin : (e e' : Bytes) → bytes_eq (fin out stem e) (fin out stem e') ≡ bytes_eq e e'
  unfolding fin_name
  fin-fin e e' = behind out (fin_name stem e) (fin_name stem e') b'/' ∙ behind stem e e' b'.'

  part-fin :
      (e e' : Bytes) → bytes_eq (part out stem e) (fin out stem e') ≡ bytes_eq (e ++ dot_part) e'
  unfolding part_name fin_name
  part-fin e e' =
      behind out (part_name stem e) (fin_name stem e') b'/'
      ∙ ap2 bytes_eq (append_assoc stem (b'.' ∷ e) dot_part) refl
      ∙ behind stem (e ++ dot_part) e' b'.'

  staging_allowed :
      (msg tag : Bytes) (log : Log) → all_allowed out stem (staging out stem msg tag) log ≡ true
  unfolding all_allowed allowed
  staging_allowed msg tag log = refl

  publication_allowed :
      (msg tag : Bytes) (log : Log)
      → all_allowed out stem (publication out stem) (onto (staging out stem msg tag) log) ≡ true
  unfolding all_allowed allowed forced listed moved_to moves_to touches is_sync is_sync_dir bytes_eq
  publication_allowed msg tag log = simp (part-part, fin-fin, part-fin, bytes_eq_refl)

  module _ (answer : Log → DiskOp → R (Unit {0})) where
    go_on :
        (op : DiskOp) (ops : List DiskOp) (log : Log) (u : Unit {0})
        → answer log op ≡ ok u
        → run_all (logged answer) (op ∷ ops) log ≡ run_all (logged answer) ops ((op, true) ∷ log)
    unfolding run_all logged
    go_on op ops log u e =
        rw (e, run_all) (λ i. run_all (logged answer) ops ((op, succeeded (e i)) ∷ log))

    stop_here :
        (op : DiskOp) (ops : List DiskOp) (log : Log) (x : Message)
        → answer log op ≡ err x
        → run_all (logged answer) (op ∷ ops) log ≡ (err x, (op, false) ∷ log)
    unfolding run_all logged
    stop_here op ops log x e = rw (e, run_all) (λ i. (err x, (op, succeeded (e i)) ∷ log))

    run_all-safe :
        (ops : List DiskOp) (log : Log)
        → all_allowed out stem ops log ≡ true
        → safe out stem log ≡ true
        → safe out stem (run_all (logged answer) ops log).1 ≡ true
    unfolding all_allowed run_all logged
    run_all-safe [] log h s = s
    run_all-safe (op ∷ ops) log h s =
        let allowed_now : allowed out stem op log ≡ true = ground arith in
        let allowed_then : all_allowed out stem ops ((op, true) ∷ log) ≡ true = ground arith in
        by_answer (answer log op) refl (safe_cons out stem op false log allowed_now s) (
          run_all-safe ops ((op, true) ∷ log) allowed_then
            (safe_cons out stem op true log allowed_now s))
      where
        by_answer :
            (r : R (Unit {0}))
            → answer log op ≡ r
            → safe out stem ((op, false) ∷ log) ≡ true
            → safe out stem (run_all (logged answer) ops ((op, true) ∷ log)).1 ≡ true
            → safe out stem (run_all (logged answer) (op ∷ ops) log).1 ≡ true
        by_answer (ok u) e here rest = rw (go_on op ops log u e) rest
        by_answer (err x) e here rest = rw (stop_here op ops log x e) here

    run_all-ok :
        (ops : List DiskOp) (log log' : Log) (u : Unit {0})
        → run_all (logged answer) ops log ≡ (ok u, log')
        → log' ≡ onto ops log
    unfolding run_all logged
    run_all-ok [] log log' u e = let same : log ≡ log' = λ i. (e i).1 in sym same
    run_all-ok (op ∷ ops) log log' u e =
        by_answer (answer log op) refl (λ h. run_all-ok ops ((op, true) ∷ log) log' u h)
      where
        by_answer :
            (r : R (Unit {0}))
            → answer log op ≡ r
            → (run_all (logged answer) ops ((op, true) ∷ log) ≡ (ok u, log')
                → log' ≡ onto (op ∷ ops) log)
            → log' ≡ onto (op ∷ ops) log
        by_answer (ok v) h ih = ih (sym (go_on op ops log v h) ∙ e)
        by_answer (err x) h ih =
            let bad : ◌≡◌ {A = R (Unit {0}) × Log} (err x, (op, false) ∷ log) (ok u, log') =
              sym (stop_here op ops log x h) ∙ e in
            absurd (err-ne-ok (λ i. (bad i).0))

    try_all-safe :
        (ops : List DiskOp) (log : Log)
        → never_moves ops ≡ true
        → safe out stem log ≡ true
        → safe out stem (try_all (logged answer) ops log) ≡ true
    unfolding never_moves allowed try_all logged
    try_all-safe [] log h s = s
    try_all-safe (remove q ∷ ops) log h s =
        let next = safe_cons out stem (remove q) (succeeded (answer log (remove q))) log refl s in
        try_all-safe ops ((remove q, succeeded (answer log (remove q))) ∷ log) h next
    try_all-safe (create q ∷ ops) log h s = cc
    try_all-safe (write q c ∷ ops) log h s = cc
    try_all-safe (sync q ∷ ops) log h s = cc
    try_all-safe (quote q r ∷ ops) log h s = cc
    try_all-safe (rename q r ∷ ops) log h s = cc
    try_all-safe (sync_dir q ∷ ops) log h s = cc

    removals-safe :
        (log : Log)
        → safe out stem log ≡ true
        → safe out stem (try_all (logged answer) (removals out stem) log) ≡ true
    unfolding never_moves
    removals-safe log s = try_all-safe (removals out stem) log refl s

    -- Whatever the system answers, at every moment of a publication: what is moved to a name of
    -- the envelope is the file of its temporary name, which was forced to disk with success and
    -- which no operation tried since changes; and the tag is moved only after the other three were
    -- moved and then the directory was forced, with success. This is assumed of what was done
    -- before.
    pub publish_envelope-safe :
        (msg tag : Bytes) (log : Log)
        → safe out stem log ≡ true
        → safe out stem (publish_envelope (logged answer) out stem msg tag log).1 ≡ true
    unfolding publish_envelope finish_publish
    publish_envelope-safe msg tag log s =
        by_result (run_all (logged answer) (staging out stem msg tag) log).0
          (run_all (logged answer) (staging out stem msg tag) log).1 refl
          (run_all-safe (staging out stem msg tag) log (staging_allowed msg tag log) s)
      where
        by_result :
            (r : R (Unit {0})) (log' : Log)
            → run_all (logged answer) (staging out stem msg tag) log ≡ (r, log')
            → safe out stem log' ≡ true
            → safe out stem
                (finish_publish
                  (logged answer)
                  out
                  stem
                  (run_all (logged answer) (staging out stem msg tag) log)).1
              ≡ true
        by_result (ok u) log' e here = rw e (
            run_all-safe (publication out stem) log'
              (rw (run_all-ok (staging out stem msg tag) log log' u e)
                (publication_allowed msg tag log))
              here)
        by_result (err x) log' e here = rw e (removals-safe log' here)

    -- A publication that succeeds has asked for just these operations, in this order.
    pub publish_envelope-ok :
        (msg tag : Bytes) (log log' : Log) (u : Unit {0})
        → publish_envelope (logged answer) out stem msg tag log ≡ (ok u, log')
        → log' ≡ onto (publication out stem) (onto (staging out stem msg tag) log)
    unfolding publish_envelope finish_publish
    publish_envelope-ok msg tag log log' u e =
        by_result (run_all (logged answer) (staging out stem msg tag) log).0
          (run_all (logged answer) (staging out stem msg tag) log).1 refl
      where
        by_result :
            (r : R (Unit {0})) (x : Log)
            → run_all (logged answer) (staging out stem msg tag) log ≡ (r, x)
            → log' ≡ onto (publication out stem) (onto (staging out stem msg tag) log)
        by_result (ok v) x h =
            let rest : run_all (logged answer) (publication out stem) x ≡ (ok u, log') =
              rw h at e in
            run_all-ok (publication out stem) x log' u rest
            ∙ ap (onto (publication out stem)) (run_all-ok (staging out stem msg tag) log x v h)
        by_result (err y) x h =
            let bad : ◌≡◌ {A = R (Unit {0}) × Log}
                (err y, try_all (logged answer) (removals out stem) x) (ok u, log') =
              rw h at e in
            absurd (err-ne-ok (λ i. (bad i).0))
