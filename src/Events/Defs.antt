-- ===== src/Events/Defs.antt =====
-- functions.go: `EventFunction` and `WaitFunction`.
use glisp.Prelude.{
  ℕ, zero, ℤ, pos, ◌+ℤ◌, wrap, ◌==◌, Bool, false, Bytes, List, [], ◌∷◌, ◌++◌, Option, none, some,
  length, if◌then◌else◌, wrong_nargs, unknown_event, event_arguments,
}
use glisp.Sexp.{Sexp, sexp_null, sentinel, event, int}
use glisp.Events.Channels.{
  Events, Reply, done, refused, panics, blocks, find, remove, empty_channel, send_and_close, value,
  nil, nothing, receive, take_out,
}

-- `strings.HasPrefix(name, "?")`
abbrev pub tries : Bytes → Bool
tries [] = false
tries (c ∷ _) = c == b'?'

unfoldable pub make_event : Events → Reply (Sexp × Events)
unfolding wrap ◌+ℤ◌
make_event s =
    let id = wrap 64 (s.event_id +ℤ pos 1) in
    done (
      event id,
      record {
        event_id = id;
        events = (id, length s.channels) ∷ s.events;
        channels = s.channels ++ empty_channel ∷ [];
      },
    )

-- A send to the nil channel of an event that is not in the table waits for ever.
unfoldable pub fire : Sexp → Sexp → Events → Reply (Sexp × Events)
unfolding find send_and_close
fire (event id) val s = elim (find s.events id) [
  | none ↦ blocks
  | some ch ↦ elim (send_and_close ch val s) [
    | done t ↦ done (sexp_null, t)
    | refused why ↦ refused why
    | panics ↦ panics
    | blocks ↦ blocks
  ]
]
fire _ val s = panics

-- The switch on the number of arguments.
unfoldable pub event_call : List Sexp → Events → Reply (Sexp × Events)
unfolding make_event fire
event_call [] s = make_event s
event_call (e ∷ val ∷ []) s = fire e val s
event_call _ s = refused event_arguments

-- In a try, a single argument stands for none.
unfoldable pub try_event : List Sexp → Events → Reply (Sexp × Events)
unfolding event_call
try_event [] s = panics
try_event (sentinel _ ∷ _) s = done (sexp_null, s)
try_event (_ ∷ []) s = event_call [] s
try_event args s = event_call args s

unfoldable pub event_function : Bytes → List Sexp → Events → Reply (Sexp × Events)
unfolding event_call try_event
event_function name args s = if tries name then try_event args s else event_call args s

-- What happens while a call waits: the queued calls are run, or the receive is tried.
pub data Turn : Type 0 where
  call_queued : (Events → Events) → Turn
  try_receive : Turn

module _ (id : ℤ) (ch : ℕ) where
  -- `ret = val; delete(events, event)`; nil is the result `none`.
  unfoldable pub finish_wait : Option Sexp → Events → Reply (Option Sexp × Events)
  unfolding take_out remove
  finish_wait val s = let t = take_out ch s in done (val, record t { events = remove id t.events })

  -- The loops, on the turns that they get: without a delay a turn is one case of the `select`, with
  -- one the receive is tried behind the queued calls of each turn.
  unfoldable pub wait_turns : List Turn → Events → Reply (Option Sexp × Events)
  unfolding receive finish_wait
  wait_turns [] s = blocks
  wait_turns (call_queued calls ∷ turns) s = wait_turns turns (calls s)
  wait_turns (try_receive ∷ turns) s =
      let later = wait_turns turns s in
      elim (receive ch s) [
        | value val ↦ finish_wait (some val) s
        | nil ↦ finish_wait none s
        | nothing ↦ later
      ]

-- The turns of the second loop.
unfoldable pub polled : List (Events → Events) → List Turn
polled [] = []
polled (calls ∷ rounds) = call_queued calls ∷ try_receive ∷ polled rounds

-- `turns` is what the first loop is given, `rounds` what the queue does in the second.
module _ (turns : List Turn) (rounds : List (Events → Events)) where
  unfoldable pub turns_for : ℤ → List Turn
  unfolding polled
  turns_for (pos zero) = turns
  turns_for _ = polled rounds

  unfoldable pub wait_on : Sexp → Sexp → Events → Reply (Option Sexp × Events)
  unfolding find wait_turns turns_for
  wait_on (event id) (int ms) s = elim (find s.events id) [
    | none ↦ refused unknown_event
    | some ch ↦ wait_turns id ch (turns_for ms) s
  ]
  wait_on _ _ s = panics

  unfoldable pub try_wait : Sexp → Sexp → Events → Reply (Option Sexp × Events)
  unfolding wait_on
  try_wait (sentinel _) delay s = done (some sexp_null, s)
  try_wait e delay s = wait_on e delay s

  unfoldable pub wait_function : Bytes → List Sexp → Events → Reply (Option Sexp × Events)
  unfolding wait_on try_wait
  wait_function name (e ∷ delay ∷ []) s =
      if tries name then try_wait e delay s else wait_on e delay s
  wait_function name _ s = refused wrong_nargs
