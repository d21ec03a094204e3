-- ===== src/Queue/Cond.antt =====
-- waitcond.go, one shared access at a time. A channel is a number: those below `made` are there,
-- and those of `closed` are closed.
use glisp.Prelude.{
  ℕ, suc, ◌==◌, ltb, Bool, true, false, ◌||◌, List, [], ◌∷◌, if◌then◌else◌, Outcome, ok, panic,
}

pub record Cond : Type 0 where
  pub trapper : ℕ
  pub state : ℕ
  pub made : ℕ
  pub closed : List ℕ

abbrev pub is_closed : List ℕ → ℕ → Bool
is_closed [] ch = false
is_closed (d ∷ ds) ch = (d == ch) || is_closed ds ch

unfoldable pub new_wait_cond : Cond
new_wait_cond = record { trapper = 0; state = 0; made = 1; closed = [] }

-- `atomic.CompareAndSwapInt64(&c.state, old, new)`
abbrev pub swap_state : ℕ → ℕ → Cond → Bool × Cond
swap_state old new c = if c.state == old then (true, record c { state = new }) else (false, c)

-- The two accesses of `Signal`: the swap says if the channel is to be closed.
unfoldable pub signal_swap : Cond → Bool × Cond
signal_swap c = swap_state 0 1 c

unfoldable pub signal_close : Cond → Outcome Cond
signal_close c =
    if is_closed c.closed c.trapper then panic else ok (record c { closed = c.trapper ∷ c.closed })

unfoldable pub is_set : Cond → Bool
is_set c = ltb 0 c.state

-- The two writes of `Reset`, behind its test.
unfoldable pub reset_trapper : Cond → Cond
reset_trapper c = record c { trapper = c.made; made = suc c.made }

unfoldable pub reset_state : Cond → Cond
reset_state c = (swap_state 1 0 c).1

-- A receive from `Channel()` goes on.
unfoldable pub is_signalled : Cond → Bool
is_signalled c = is_closed c.closed c.trapper

-- What `Wait` does in the end, or that it still waits.
pub data Waited : Type 0 where
  returns : Bool → Waited
  waits : Waited

-- `Wait`: the condition as it begins and, where it has to wait, as it is when the channel that it
-- holds is closed or the delay is over.
unfoldable pub wait : ℕ → Cond → Cond → Waited
unfolding is_set
wait delay c woken =
    if is_set c
    then returns true
    else if delay == 0
    then (if is_closed woken.closed c.trapper then returns true else waits)
    else returns (is_set woken)
