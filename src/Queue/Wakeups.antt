-- ===== src/Queue/Wakeups.antt =====
-- The wait condition of the queue under the interleavings: what its channels are, and how a
-- `Reset` that meets a `Signal` loses a wakeup or closes a channel twice.
use glisp.Prelude.{
  ℕ, suc, ◌<◌, ◌≡◌, refl, sym, Bool, true, false, List, [], ◌∷◌, arith, All, ◌==◌, ok, panic, ==_ne,
  ==_refl, if◌then◌else◌,
}
use glisp.Queue.Cond.{
  Cond, is_closed, is_set, is_signalled, signal_swap, signal_close, reset_trapper, reset_state,
  new_wait_cond,
}
use glisp.Queue.System.{
  System, outside, calling, testing, init, queue_run, take_queue, swap_step, Step, enqueue, swap,
  close, drain, call, reset, test, make, clear, Reach, here, later, Panics,
}

-- The channels that are closed, and the trapper, have been made.
pub record IsMade (c : Cond) : Type 0 where
  pub trapper_made : c.trapper < c.made
  pub closed_made : All (λ ch. ch < c.made) c.closed

closed_below : (ds : List ℕ) (n : ℕ) → All (λ ch. ch < n) ds → is_closed ds n ≡ false
closed_below [] n h = refl
closed_below (d ∷ ds) n h = rw (==_ne d n (ground arith), closed_below ds n h.1) refl

made_later : (ds : List ℕ) (n : ℕ) → All (λ ch. ch < n) ds → All (λ ch. ch < suc n) ds
made_later [] n h = tt
made_later (d ∷ ds) n h = (omega (arith, h.0), made_later ds n h.1)

swapped-IsMade :
    (b : Bool) (n : ℕ) (c : Cond)
    → IsMade c
    → IsMade ((if◌then◌else◌ {A = Bool × Cond} b (true, record c { state = n }) (false, c)).1)
swapped-IsMade true n c h = record { trapper_made = h.trapper_made; closed_made = h.closed_made }
swapped-IsMade false n c h = h

closed-IsMade : (b : Bool) {c d : Cond} → (if b then panic else ok c) ≡ ok d → IsMade c → IsMade d
closed-IsMade true e h = cc
closed-IsMade false {c} {d} e h = let same : c ≡ d = cc in rw (sym same) h

Step-IsMade : {s t : System} → Step s t → IsMade s.cond → IsMade t.cond
unfolding queue_run take_queue swap_step signal_swap signal_close reset_trapper reset_state
Step-IsMade (enqueue fn) h = h
Step-IsMade {s} (swap n e) h = swapped-IsMade (s.cond.state == 0) 1 s.cond h
Step-IsMade {s} (close n c e e') h =
    closed-IsMade (is_closed s.cond.closed s.cond.trapper) e'
      (record { trapper_made = h.trapper_made; closed_made = (h.trapper_made, h.closed_made) })
Step-IsMade (drain e e') h = h
Step-IsMade (call fn rest e) h = h
Step-IsMade (reset e) h = h
Step-IsMade (test e) h = h
Step-IsMade {s} (make e) h = record {
  trapper_made = omega arith;
  closed_made = made_later s.cond.closed s.cond.made h.closed_made;
}
Step-IsMade {s} (clear e) h = swapped-IsMade (s.cond.state == 1) 0 s.cond h

pub Reach-IsMade : {s : System} → Reach init s → IsMade s.cond
unfolding init new_wait_cond
Reach-IsMade here = record { trapper_made = omega arith; closed_made = tt }
Reach-IsMade (later r st) = Step-IsMade st (Reach-IsMade r)

-- A call waits in the queue, no producer is under way, and the interpreter, if it waits for the
-- condition, is not woken.
abbrev pub IsLost : System → Type 0
IsLost t =
    (t.queued_has ≡ true)
    × (t.runner ≡ outside)
    × (t.signalling ≡ 0)
    × (t.closing ≡ 0)
    × (is_signalled t.cond ≡ false)

-- The interpreter at the end of its loop, the condition signalled.
abbrev ended : System → System
ended s = record s {
  runner = calling [];
  signalling = 0;
  closing = 0;
  cond = record s.cond { state = 1 };
}

ended-IsLost : (s : System) (fn : ℕ) → IsMade s.cond → (t : System) × Reach (ended s) t × IsLost t
unfolding queue_run swap_step signal_swap is_set reset_trapper reset_state is_signalled
ended-IsLost s fn h = (
  _,
  later
      (later
        (later (later (later (later here (enqueue fn)) (swap 0 refl)) (reset refl)) (test refl))
        (make refl))
      (clear refl),
  (refl, refl, refl, refl, closed_below s.cond.closed s.cond.made h.closed_made),
)

-- A call that is queued while the interpreter runs those it took, before it resets the condition,
-- may stay in the queue without a wakeup: from every reachable state in which the interpreter is
-- at the end of its loop, the condition is signalled and no producer is under way, a state is
-- reachable in which a call is in the queue, the interpreter may wait for the condition, and the
-- condition is not signalled.
pub queue-IsLost :
    (s : System) (fn : ℕ)
    → Reach init s
    → s.runner ≡ calling []
    → s.signalling ≡ 0
    → s.closing ≡ 0
    → s.cond.state ≡ 1
    → (t : System) × Reach s t × IsLost t
queue-IsLost s fn r e e₁ e₂ e₃ =
    let same : ended s ≡ s = rw (e, e₁, e₂, e₃) refl in
    rw (sym same) (ended-IsLost s fn (Reach-IsMade r))

-- The condition behind a reset that was followed by the late `close`.
abbrev closed_late : Cond → Cond
closed_late c = record {
  trapper = c.made;
  state = 0;
  made = suc c.made;
  closed = c.made ∷ c.closed;
}

-- The interpreter at the test of `Reset`, with `n` producers before their `close` and one more.
abbrev overtaken : System → ℕ → System
overtaken s n = record s {
  runner = testing;
  signalling = 0;
  closing = suc n;
  cond = record s.cond { state = 1 };
}

overtaken-Panics :
    (s : System) (n fn : ℕ) → IsMade s.cond → (t : System) × Reach (overtaken s n) t × Panics t
unfolding queue_run swap_step signal_swap signal_close is_set reset_trapper reset_state
overtaken-Panics s n fn h = (
  _,
  later
      (later
        (later (later (later (later here (test refl)) (make refl)) (clear refl)) (
          close n (closed_late s.cond) refl
            (rw (closed_below s.cond.closed s.cond.made h.closed_made) refl)))
        (enqueue fn))
      (swap 0 refl),
  (n, refl, rw (==_refl s.cond.made) refl),
)

-- A `Signal` that a `Reset` overtakes between its swap and its `close` closes the new channel, and
-- the next `Signal` closes it again: from every reachable state in which the interpreter is at the
-- test of `Reset`, the condition is set, a producer stands before its `close` and none before its
-- swap, a state is reachable in which a producer's `close` panics.
pub overtaken_signal-Panics :
    (s : System) (n fn : ℕ)
    → Reach init s
    → s.runner ≡ testing
    → s.signalling ≡ 0
    → s.closing ≡ suc n
    → s.cond.state ≡ 1
    → (t : System) × Reach s t × Panics t
overtaken_signal-Panics s n fn r e e₁ e₂ e₃ =
    let same : overtaken s n ≡ s = rw (e, e₁, e₂, e₃) refl in
    rw (sym same) (overtaken-Panics s n fn (Reach-IsMade r))
