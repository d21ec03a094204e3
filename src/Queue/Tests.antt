-- ===== src/Queue/Tests.antt =====
-- Runs of the queue: two calls are queued, and the interpreter takes them.
use glisp.Prelude.{◌≡◌, refl, true, false, [], ◌∷◌}
use glisp.Queue.Cond.{Cond, new_wait_cond, signal_swap, signal_close, is_set, wait, returns, waits}
use glisp.Queue.System.{
  System, outside, calling, testing, init, queue_run, take_queue, swap_step, enqueue, swap, close,
  drain, call, reset, Reach, here, later, Panics,
}
use glisp.Queue.Order.{IsOrdered, Reach-IsOrdered}
use glisp.Queue.Draining.{queued-run}
use glisp.Queue.Wakeups.{IsLost, queue-IsLost, overtaken_signal-Panics}

abbrev signalled : Cond
signalled = record { trapper = 0; state = 1; made = 1; closed = 0 ∷ [] }

-- The call 7 is queued and signalled.
abbrev one_queued : System
one_queued = record {
  queued = 7 ∷ [];
  queued_has = true;
  cond = signalled;
  runner = outside;
  signalling = 0;
  closing = 0;
  added = 7 ∷ [];
  ran = [];
}

one_queued-Reach : Reach init one_queued
unfolding init new_wait_cond queue_run take_queue swap_step signal_swap signal_close
one_queued-Reach =
    later (later (later here (enqueue 7)) (swap 0 refl)) (close 0 signalled refl refl)

abbrev one_run : System
one_run = record {
  queued = [];
  queued_has = false;
  cond = signalled;
  runner = calling [];
  signalling = 0;
  closing = 0;
  added = 7 ∷ [];
  ran = 7 ∷ [];
}

one_run-Reach : Reach init one_run
unfolding init new_wait_cond queue_run take_queue swap_step signal_swap signal_close
one_run-Reach = later (later one_queued-Reach (drain refl refl)) (call 7 [] refl)

-- The call 7 is run before its producer has signalled it.
abbrev early_run : System
early_run = record {
  queued = [];
  queued_has = false;
  cond = record { trapper = 0; state = 1; made = 1; closed = [] };
  runner = testing;
  signalling = 0;
  closing = 1;
  added = 7 ∷ [];
  ran = 7 ∷ [];
}

early_run-Reach : Reach init early_run
unfolding init new_wait_cond queue_run take_queue swap_step signal_swap signal_close
early_run-Reach =
    later
      (later (later (later (later here (enqueue 7)) (drain refl refl)) (call 7 [] refl))
        (swap 0 refl))
      (reset refl)

Reach-IsOrdered_example : IsOrdered one_run
Reach-IsOrdered_example = Reach-IsOrdered one_run-Reach

queued-run_example : (t : System) × Reach one_queued t × (t.runner ≡ calling []) × (t.ran ≡ 7 ∷ [])
queued-run_example = queued-run one_queued one_queued-Reach refl refl

queue-IsLost_example : (t : System) × Reach one_run t × IsLost t
queue-IsLost_example = queue-IsLost one_run 8 one_run-Reach refl refl refl refl

overtaken_signal-Panics_example : (t : System) × Reach early_run t × Panics t
overtaken_signal-Panics_example =
    overtaken_signal-Panics early_run 0 8 early_run-Reach refl refl refl refl

-- A wait that is set free by a signal, and looks again only after a reset.
abbrev reset_behind : Cond
reset_behind = record { trapper = 1; state = 0; made = 2; closed = 0 ∷ [] }

freed : wait 0 new_wait_cond reset_behind ≡ returns true
unfolding wait new_wait_cond is_set
freed = refl

missed : wait 5 new_wait_cond reset_behind ≡ returns false
unfolding wait new_wait_cond is_set
missed = refl

still_waiting : wait 0 new_wait_cond new_wait_cond ≡ waits
unfolding wait new_wait_cond is_set
still_waiting = refl
