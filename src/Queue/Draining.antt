-- ===== src/Queue/Draining.antt =====
-- `CallQueued`: what is in the queue is run.
use glisp.Prelude.{ℕ, ◌≡◌, refl, sym, ap, ◌∙◌, true, List, [], ◌∷◌, ◌++◌, append-nil, append_assoc}
use glisp.Queue.System.{
  System, outside, calling, init, take_queue, drain, call, Reach, here, later, Reach-trans,
}
use glisp.Queue.Order.{in_hand, Reach-IsOrdered}

-- The loop has run `fns`.
abbrev looped : List ℕ → List ℕ → System → System
looped done fns s = record s { runner = calling fns; ran = done }

loop-Reach :
    (s : System) (fns done : List ℕ) → Reach (looped done fns s) (looped (done ++ fns) [] s)
loop-Reach s [] done = rw (append-nil done) here
loop-Reach s (fn ∷ fns) done =
    let rest = loop-Reach s fns (done ++ fn ∷ []) in
    let joined : (done ++ fn ∷ []) ++ fns ≡ done ++ fn ∷ fns = append_assoc done (fn ∷ []) fns in
    Reach-trans (later here (call fn fns refl)) (rw (sym joined) rest)

-- The calls that were queued when the interpreter finds the flag set are run: from every reachable
-- state in which it is outside of `CallQueued` and the flag is set, a state is reachable in which
-- it is at the end of its loop and all of them have been run, in the order of their queuing.
pub queued-run :
    (s : System)
    → Reach init s
    → s.runner ≡ outside
    → s.queued_has ≡ true
    → (t : System) × Reach s t × (t.runner ≡ calling []) × (t.ran ≡ s.added)
unfolding take_queue
queued-run s r e flag = (
  _,
  Reach-trans (later here (drain e flag)) (loop-Reach (take_queue s) s.queued s.ran),
  refl,
  sym (
      (Reach-IsOrdered r).in_order
      ∙ ap (λ runner. s.ran ++ in_hand runner ++ s.queued) e
      ∙ ap (λ xs. xs ++ s.queued) (append-nil s.ran)),
)
