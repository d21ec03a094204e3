-- ===== src/Queue/Order.antt =====
-- The queued calls under every interleaving: none is lost, doubled or overtaken.
use glisp.Prelude.{
  ℕ, ◌≡◌, refl, sym, ap, ◌∙◌, Bool, true, false, List, [], ◌∷◌, ◌++◌, append-nil, append_assoc,
  if◌then◌else◌,
}
use glisp.Queue.Cond.{is_set}
use glisp.Queue.System.{
  System, Runner, outside, calling, making, init, queue_run, take_queue, swap_step, Step, enqueue,
  swap, close, drain, call, reset, test, make, clear, Reach, here, later,
}

-- The calls that the interpreter has taken and not yet run.
abbrev pub in_hand : Runner → List ℕ
in_hand (calling fns) = fns
in_hand _ = []

abbrev pub has_any : List ℕ → Bool
has_any [] = false
has_any (_ ∷ _) = true

pub record IsOrdered (s : System) : Type 0 where
  pub in_order : s.added ≡ s.ran ++ in_hand s.runner ++ s.queued
  pub flag : s.queued_has ≡ has_any s.queued

has_any-append : (xs : List ℕ) (x : ℕ) → has_any (xs ++ x ∷ []) ≡ true
has_any-append [] x = refl
has_any-append (y ∷ xs) x = refl

init-IsOrdered : IsOrdered init
unfolding init
init-IsOrdered = record { in_order = refl; flag = refl }

-- The order, where it is known where the interpreter stands.
module _ {s : System} (h : IsOrdered s) {r : Runner} (e : s.runner ≡ r) where
  order_at : s.added ≡ s.ran ++ in_hand r ++ s.queued
  order_at = h.in_order ∙ ap (λ runner. s.ran ++ in_hand runner ++ s.queued) e

  order_after_drain : in_hand r ≡ [] → s.added ≡ s.ran ++ s.queued ++ []
  order_after_drain none =
      order_at ∙ rw (none, append-nil s.ran, append-nil (s.ran ++ s.queued)) refl

in_hand_test : (b : Bool) → in_hand (if b then making else outside) ≡ []
in_hand_test true = refl
in_hand_test false = refl

Step-IsOrdered : {s t : System} → Step s t → IsOrdered s → IsOrdered t
unfolding queue_run take_queue swap_step
Step-IsOrdered {s} (enqueue fn) h = record {
  in_order =
      ap (λ xs. xs ++ fn ∷ []) h.in_order
      ∙ append_assoc (s.ran ++ in_hand s.runner) s.queued (fn ∷ []);
  flag = sym (has_any-append s.queued fn);
}
Step-IsOrdered (swap n e) h = record { in_order = h.in_order; flag = h.flag }
Step-IsOrdered (close n c e e') h = record { in_order = h.in_order; flag = h.flag }
Step-IsOrdered {s} (drain e e') h = record { in_order = order_after_drain h e refl; flag = refl }
Step-IsOrdered {s} (call fn rest e) h = record {
  in_order = order_at h e ∙ ap (λ xs. xs ++ s.queued) (sym (append_assoc s.ran (fn ∷ []) rest));
  flag = h.flag;
}
Step-IsOrdered (reset e) h = record { in_order = order_at h e; flag = h.flag }
Step-IsOrdered {s} (test e) h = record {
  in_order = order_at h e ∙ ap (λ xs. s.ran ++ xs ++ s.queued) (sym (in_hand_test (is_set s.cond)));
  flag = h.flag;
}
Step-IsOrdered (make e) h = record { in_order = order_at h e; flag = h.flag }
Step-IsOrdered (clear e) h = record { in_order = order_at h e; flag = h.flag }

-- Whatever the interleaving, the calls that were queued are, in their order, those that were run,
-- those that the interpreter has taken and those in the queue; and the flag that the interpreter
-- looks at says whether the queue holds any.
pub Reach-IsOrdered : {s : System} → Reach init s → IsOrdered s
Reach-IsOrdered here = init-IsOrdered
Reach-IsOrdered (later r st) = Step-IsOrdered st (Reach-IsOrdered r)
