-- ===== src/Events/Tests.antt =====
-- Runs of events: one is made, fired and waited for.
use glisp.Prelude.{
  List, ◌≢◌, pos, ◌≡◌, refl, [], ◌∷◌, none, some, codes, unknown_event, event_arguments,
}
use glisp.Sexp.{Sexp, sexp_null, int, str, event}
use glisp.Events.Channels.{
  send_and_close, Events, done, refused, panics, blocks, find, remove, empty_channel, receive,
  take_out,
}
use glisp.Events.Defs.{
  Turn, fire, make_event, fire, event_call, try_event, event_function, call_queued, try_receive,
  finish_wait, wait_turns, polled, turns_for, wait_on, wait_function,
}
use glisp.Events.Life.{fired, over, event-wait}
use glisp.Events.Pairing.{IsPaired, Leaves, event_function-Leaves}
use glisp.Events.Waiting.{wait_function-Receives}

abbrev no_events : Events
no_events = record { event_id = pos 0; events = []; channels = [] }

no_events-IsPaired : IsPaired no_events
unfolding find
no_events-IsPaired = record { channel = λ id ch h. cc h; distinct = λ i j ch h. cc h }

abbrev one_event : Events
one_event = record { event_id = pos 1; events = (pos 1, 0) ∷ []; channels = empty_channel ∷ [] }

abbrev seven : Sexp
seven = int (pos 7)

made : event_function (codes "event") [] no_events ≡ done (event (pos 1), one_event)
unfolding event_function event_call make_event
made = refl

-- A try without arguments panics, with one argument it makes an event.
try_panics : event_function (codes "?event") [] no_events ≡ panics
unfolding event_function try_event
try_panics = refl

try_makes : event_function (codes "?event") (seven ∷ []) no_events ≡ done (event (pos 1), one_event)
unfolding event_function try_event event_call make_event
try_makes = refl

try_null :
    event_function (codes "?event") (sexp_null ∷ seven ∷ []) no_events ≡ done (sexp_null, no_events)
unfolding event_function try_event
try_null = refl

not_an_event : event_function (codes "event") (seven ∷ seven ∷ []) no_events ≡ panics
unfolding event_function event_call fire
not_an_event = refl

three_arguments :
    event_function (codes "event") (seven ∷ seven ∷ seven ∷ []) no_events ≡ refused event_arguments
unfolding event_function event_call
three_arguments = refl

never_made :
    wait_function [] [] (codes "wait") (event (pos 3) ∷ int (pos 0) ∷ []) no_events
    ≡ refused unknown_event
unfolding wait_function wait_on find
never_made = refl

-- The queued calls fire the event, with a delay and without one.
abbrev fires : Events → Events
fires s = fired 0 seven s

fired_while_waiting :
    wait_function
      (try_receive ∷ call_queued fires ∷ try_receive ∷ [])
      []
      (codes "wait")
      (event (pos 1) ∷ int (pos 0) ∷ [])
      one_event
    ≡ done (some seven, over (pos 1) 0 one_event)
unfolding wait_function wait_on turns_for wait_turns find remove receive finish_wait take_out
fired_while_waiting = refl

fired_while_polling :
    wait_function [] (fires ∷ []) (codes "wait") (event (pos 1) ∷ int (pos 5) ∷ []) one_event
    ≡ done (some seven, over (pos 1) 0 one_event)
unfolding wait_function wait_on turns_for polled wait_turns find remove receive finish_wait take_out
fired_while_polling = refl

-- A queued call that waits for the same event takes its value: the call that waited first gets nil.
abbrev waits : Events → Events
waits s = over (pos 1) 0 s

overtaken_wait :
    wait_function
      (call_queued waits ∷ try_receive ∷ [])
      []
      (codes "wait")
      (event (pos 1) ∷ int (pos 0) ∷ [])
      (fired 0 seven one_event)
    ≡ done (none, over (pos 1) 0 one_event)
unfolding wait_function wait_on turns_for wait_turns find remove receive finish_wait take_out
overtaken_wait = refl

event-wait_example :
    (event_function (codes "event") (event (pos 1) ∷ seven ∷ []) one_event
      ≡ done (sexp_null, fired 0 seven one_event))
    × (wait_function
          (try_receive ∷ [])
          []
          (codes "wait")
          (event (pos 1) ∷ int (pos 0) ∷ [])
          (fired 0 seven one_event)
        ≡ done (some seven, over (pos 1) 0 one_event))
    × (event_function
          (codes "event")
          (event (pos 1) ∷ str (codes "x") ∷ [])
          (fired 0 seven one_event)
        ≡ panics)
    × (event_function
          (codes "event")
          (event (pos 1) ∷ str (codes "x") ∷ [])
          (over (pos 1) 0 one_event)
        ≡ blocks)
    × (wait_function [] []
          (codes "wait")
          (event (pos 1) ∷ int (pos 0) ∷ [])
          (over (pos 1) 0 one_event)
        ≡ refused unknown_event)
unfolding find
event-wait_example = event-wait [] [] one_event (pos 1) 0 seven (str (codes "x")) refl refl

event_function-Leaves_example : Leaves (event_function (codes "event") [] no_events)
event_function-Leaves_example =
    event_function-Leaves (codes "event") [] no_events no_events-IsPaired

one_event-IsPaired : IsPaired one_event
unfolding event_function event_call make_event
one_event-IsPaired = event_function-Leaves (codes "event") [] no_events no_events-IsPaired

-- The queued calls make another event, and then fire the first, between two receives.
abbrev makes : Events → Events
unfolding make_event
makes s = elim (make_event s) [ done (_, t) ↦ t | _ ↦ s ]

abbrev busy : List Turn
busy = call_queued makes ∷ try_receive ∷ call_queued fires ∷ try_receive ∷ []

abbrev two_events : Events
two_events = makes one_event

two_events-IsPaired : IsPaired two_events
unfolding event_function event_call make_event
two_events-IsPaired = event_function-Leaves (codes "event") [] one_event one_event-IsPaired

fired-IsPaired : IsPaired (fires two_events)
unfolding event_function event_call make_event fire find send_and_close
fired-IsPaired =
    event_function-Leaves (codes "event") (event (pos 1) ∷ seven ∷ []) two_events
      two_events-IsPaired

busy_wait :
    wait_function busy [] (codes "wait") (event (pos 1) ∷ int (pos 0) ∷ []) one_event
    ≡ done (some seven, over (pos 1) 0 (fires two_events))
unfolding wait_function wait_on turns_for wait_turns find remove receive finish_wait take_out
    make_event
busy_wait = refl

wait_function-Receives_example : (some seven ≢ none) × IsPaired (over (pos 1) 0 (fires two_events))
unfolding wait_function wait_on turns_for wait_turns find remove receive finish_wait take_out
    make_event
wait_function-Receives_example =
    wait_function-Receives busy [] (codes "wait") (event (pos 1) ∷ int (pos 0) ∷ []) one_event
      (two_events-IsPaired, refl, (fired-IsPaired, refl, tt)) one_event-IsPaired
