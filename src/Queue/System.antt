-- ===== src/Queue/System.antt =====
-- The queue of environment.go: any number of producers in `QueueRun`, and the interpreter in
-- `CallQueued`, a shared access at a time. What the lock of the queue covers is one step.
use glisp.Prelude.{ℕ, suc, ◌≡◌, Bool, true, false, List, [], ◌∷◌, ◌++◌, if◌then◌else◌, ok, panic}
use glisp.Queue.Cond.{
  Cond, new_wait_cond, signal_swap, signal_close, is_set, reset_trapper, reset_state,
}

-- Where the interpreter stands in `CallQueued`.
pub data Runner : Type 0 where
  outside : Runner
  -- in the loop, with the calls to go; `queuedDrain` holds here
  calling : List ℕ → Runner
  -- in `Reset`, at its test, at its first and at its second write
  testing making swapping : Runner

-- A queued call is known by a number. Producers are not told apart: `signalling` of them stand
-- before the swap of `Signal`, `closing` before its `close`.
pub record System : Type 0 where
  pub queued : List ℕ
  pub queued_has : Bool
  pub cond : Cond
  pub runner : Runner
  pub signalling : ℕ
  pub closing : ℕ
  -- the calls of `QueueRun` and those that were run, in their order
  pub added : List ℕ
  pub ran : List ℕ

unfoldable pub init : System
unfolding new_wait_cond
init = record {
  queued = [];
  queued_has = false;
  cond = new_wait_cond;
  runner = outside;
  signalling = 0;
  closing = 0;
  added = [];
  ran = [];
}

-- `QueueRun` up to its call of `Signal`.
unfoldable pub queue_run : ℕ → System → System
queue_run fn s = record s {
  queued_has = true;
  queued = s.queued ++ fn ∷ [];
  signalling = suc s.signalling;
  added = s.added ++ fn ∷ [];
}

-- The start of `CallQueued`, behind its guard.
unfoldable pub take_queue : System → System
take_queue s = record s { queued_has = false; queued = []; runner = calling s.queued }

-- A producer's swap, where `n` others stand before theirs.
unfoldable pub swap_step : ℕ → System → System
unfolding signal_swap
swap_step n s =
    let (won, c) = signal_swap s.cond in
    record s { cond = c; signalling = n; closing = if won then suc s.closing else s.closing }

-- The steps. A guard on a place of the interpreter is an equation on `runner`.
pub data Step (s : System) : System → Type 0 where
  enqueue : (fn : ℕ) → Step s (queue_run fn s)
  swap : (n : ℕ) → s.signalling ≡ suc n → Step s (swap_step n s)
  close :
      (n : ℕ) (c : Cond)
      → s.closing ≡ suc n
      → signal_close s.cond ≡ ok c
      → Step s (record s { cond = c; closing = n })
  drain : s.runner ≡ outside → s.queued_has ≡ true → Step s (take_queue s)
  call :
      (fn : ℕ) (rest : List ℕ)
      → s.runner ≡ calling (fn ∷ rest)
      → Step s (record s { runner = calling rest; ran = s.ran ++ fn ∷ [] })
  reset : s.runner ≡ calling [] → Step s (record s { runner = testing })
  test :
      s.runner ≡ testing → Step s (record s { runner = if is_set s.cond then making else outside })
  make : s.runner ≡ making → Step s (record s { runner = swapping; cond = reset_trapper s.cond })
  clear : s.runner ≡ swapping → Step s (record s { runner = outside; cond = reset_state s.cond })

pub data Reach (s : System) : System → Type 0 where
  here : Reach s s
  later : {t u : System} → Reach s t → Step t u → Reach s u

pub Reach-trans : {s t u : System} → Reach s t → Reach t u → Reach s u
Reach-trans r here = r
Reach-trans r (later q st) = later (Reach-trans r q) st

-- A producer at its `close` whose channel is closed: the program panics.
abbrev pub Panics : System → Type 0
Panics s = (n : ℕ) × (s.closing ≡ suc n) × (signal_close s.cond ≡ panic)
