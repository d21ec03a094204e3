-- ===== src/Events/Life.antt =====
-- The life of an event: made, fired, waited for.
use glisp.Prelude.{
  ℕ, ℤ, pos, eq_ℤ, ◌≡◌, refl, ap, ◌∙◌, true, List, [], ◌∷◌, none, some, get_elem?, get_elem?-lt,
  get_elem?-set, set-set, inl, inr, ==_refl, set, codes, Bool-cases, unknown_event,
}
use glisp.Sexp.{Sexp, sexp_null, event, int}
use glisp.Events.Channels.{
  Channel, Events, done, refused, panics, blocks, find, remove, empty_channel, send_and_close,
  receive, take_out,
}
use glisp.Events.Defs.{
  event_call, event_function, fire, Turn, try_receive, finish_wait, wait_turns, wait_on, turns_for,
  wait_function,
}

pub find-remove : (xs : List (ℤ × ℕ)) (id : ℤ) → find (remove id xs) id ≡ none
unfolding find remove
find-remove [] id = refl
find-remove ((key, ch) ∷ rest) id =
    let ih = find-remove rest id in
    elim (Bool-cases (eq_ℤ key id)) [ inl e ↦ rw (e) ih | inr e ↦ rw (e, e) ih ]

abbrev pub fired_channel : Sexp → Channel
fired_channel val = record { buffer = some val; closed = true }

abbrev pub drained_channel : Channel
drained_channel = record { buffer = none; closed = true }

-- The event is fired, and waited for.
abbrev pub fired : ℕ → Sexp → Events → Events
fired ch val s = record s { channels = set s.channels ch (fired_channel val) }

abbrev pub over : ℤ → ℕ → Events → Events
over id ch s = record s {
  events = remove id s.events;
  channels = set s.channels ch drained_channel;
}

set-known :
    (s : Events) (ch : ℕ) (c v : Channel)
    → get_elem? s.channels ch ≡ some c
    → get_elem? (set s.channels ch v) ch ≡ some v
set-known s ch c v h =
    rw (get_elem?-set s.channels ch ch v (get_elem?-lt s.channels ch h), ==_refl ch) refl

module _ (s : Events) (id : ℤ) (ch : ℕ) (mapped : find s.events id ≡ some ch) where
  fire-empty :
      (val : Sexp)
      → get_elem? s.channels ch ≡ some empty_channel
      → fire (event id) val s ≡ done (sexp_null, fired ch val s)
  unfolding fire
  fire-empty val h = rw (fire, mapped, send_and_close, h) refl

  fire-fired :
      (val val' : Sexp)
      → get_elem? s.channels ch ≡ some (fired_channel val)
      → fire (event id) val' s ≡ panics
  unfolding fire
  fire-fired val val' h = rw (fire, mapped, send_and_close, h) refl

  wait_on-fired :
      (turns : List Turn) (rounds : List (Events → Events)) (val : Sexp)
      → get_elem? s.channels ch ≡ some (fired_channel val)
      → wait_on (try_receive ∷ turns) rounds (event id) (int (pos 0)) s
        ≡ done (some val, over id ch s)
  unfolding wait_on remove
  wait_on-fired turns rounds val h =
      rw (wait_on, mapped, turns_for, wait_turns, receive, h, finish_wait, take_out, h) refl

-- Without its entry an event is never fired, and never waited for.
fire-unmapped :
    (s : Events) (id : ℤ) (val : Sexp) → find s.events id ≡ none → fire (event id) val s ≡ blocks
unfolding fire
fire-unmapped s id val h = rw (fire, h) refl

wait_on-unmapped :
    (turns : List Turn) (rounds : List (Events → Events)) (s : Events) (id ms : ℤ)
    → find s.events id ≡ none
    → wait_on turns rounds (event id) (int ms) s ≡ refused unknown_event
unfolding wait_on
wait_on-unmapped turns rounds s id ms h = rw (wait_on, h) refl

over-fired :
    (s : Events) (id : ℤ) (ch : ℕ) (val : Sexp) → over id ch (fired ch val s) ≡ over id ch s
over-fired s id ch val =
    ap (λ cs. record s { events = remove id s.events; channels = cs })
      (set-set s.channels ch (fired_channel val) drained_channel)

-- An event that is in the table and has not been fired: a call of `event` with a value fires it, and
-- then a wait without a delay whose first turn is a receive returns that value and takes the event
-- out of the table. To fire it a second time panics before that wait; after it, it waits for ever,
-- and a second wait is an error.
pub event-wait :
    (turns : List Turn) (rounds : List (Events → Events)) (s : Events) (id : ℤ) (ch : ℕ)
    (val val' : Sexp)
    → find s.events id ≡ some ch
    → get_elem? s.channels ch ≡ some empty_channel
    → let f : Events = fired ch val s in
      let o : Events = over id ch s in
      (event_function (codes "event") (event id ∷ val ∷ []) s ≡ done (sexp_null, f))
      × (wait_function (try_receive ∷ turns) rounds (codes "wait") (event id ∷ int (pos 0) ∷ []) f
          ≡ done (some val, o))
      × (event_function (codes "event") (event id ∷ val' ∷ []) f ≡ panics)
      × (event_function (codes "event") (event id ∷ val' ∷ []) o ≡ blocks)
      × (wait_function turns rounds (codes "wait") (event id ∷ int (pos 0) ∷ []) o
          ≡ refused unknown_event)
unfolding event_function event_call wait_function
event-wait turns rounds s id ch val val' mapped empty =
    let known = set-known s ch empty_channel (fired_channel val) empty in
    let gone = find-remove s.events id in
    (
      fire-empty s id ch mapped val empty,
      wait_on-fired (fired ch val s) id ch mapped turns rounds val known
          ∙ ap (λ o. done (some val, o)) (over-fired s id ch val),
      fire-fired (fired ch val s) id ch mapped val val' known,
      fire-unmapped (over id ch s) id val' gone,
      wait_on-unmapped turns rounds (over id ch s) id (pos 0) gone,
    )
