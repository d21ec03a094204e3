-- ===== src/Events/Waiting.antt =====
-- What a wait receives, and what it leaves.
use glisp.Prelude.{
  ℤ, ℕ, ◌≡◌, refl, List, [], ◌∷◌, Option, none, some, Bytes, Bool-cases, Option-cases, inl, inr,
  ◌⊎◌,
}
use mathlib.Core.Path.{subst}
use glisp.Sexp.{Sexp, event, int, sentinel}
use glisp.Events.Channels.{Channel, Events, find, value, nothing, received, receive}
use glisp.Events.Defs.{
  Turn, call_queued, try_receive, wait_turns, turns_for, wait_on, try_wait, wait_function, tries,
}
use glisp.Events.Pairing.{IsPaired, Receives, holds, finish_wait-Receives}

-- A receive from a sound channel finds what it holds, and never nil.
received_sound :
    (c : Channel)
    → c.closed ≡ holds c
    → ((val : Sexp) × (received c ≡ value val)) ⊎ (received c ≡ nothing)
received_sound c sound = elim (Option-cases c.buffer) [
  | inl e ↦ inr (rw (e, sound, e) refl)
  | inr (val, e) ↦ inl (val, rw (e) refl)
]

module _ (id : ℤ) (ch : ℕ) where
  -- The queued calls of a run of turns, each on the table that it meets: they leave a sound table,
  -- and in it the event that is waited for, with its channel.
  abbrev pub CalmRun : List Turn → Events → Type 0
  CalmRun [] s = Unit
  CalmRun (call_queued calls ∷ turns) s =
      IsPaired (calls s) × (find (calls s).events id ≡ some ch) × CalmRun turns (calls s)
  CalmRun (try_receive ∷ turns) s = CalmRun turns s

  -- In a run of turns the channel holds nothing whenever a receive is tried.
  abbrev pub NeverFired : List Turn → Events → Type 0
  NeverFired [] s = Unit
  NeverFired (call_queued calls ∷ turns) s = NeverFired turns (calls s)
  NeverFired (try_receive ∷ turns) s = (receive ch s ≡ nothing) × NeverFired turns s

  wait_turns-Receives :
      (turns : List Turn) (s : Events) (Still : Type 0)
      → (NeverFired turns s → Still)
      → CalmRun turns s
      → IsPaired s
      → find s.events id ≡ some ch
      → Receives Still (wait_turns id ch turns s)
  unfolding wait_turns
  wait_turns-Receives [] s Still so calm p mapped = so tt
  wait_turns-Receives (call_queued calls ∷ turns) s Still so (p', found, rest) p mapped =
      wait_turns-Receives turns (calls s) Still so rest p' found
  wait_turns-Receives (try_receive ∷ turns) s Still so rest p mapped =
      let (c, at, sound) = p.channel id ch mapped in
      elim (received_sound c sound) [
        | inl (val, e) ↦
            rw (wait_turns, receive, at, e) (finish_wait-Receives Still s id ch c val mapped at p)
        | inr e ↦
            let empty : receive ch s ≡ nothing = rw (receive, at) e in
            rw (wait_turns, empty)
              (wait_turns-Receives turns s Still (λ never. so (empty, never)) rest p mapped)
      ]

module _ (turns : List Turn) (rounds : List (Events → Events)) where
  abbrev CalmFound : ℤ → ℤ → Events → Option ℕ → Type 0
  CalmFound id ms s (some ch) = CalmRun id ch (turns_for turns rounds ms) s
  CalmFound id ms s none = Unit

  abbrev NeverFound : ℤ → ℤ → Events → Option ℕ → Type 0
  NeverFound id ms s (some ch) = NeverFired id ch (turns_for turns rounds ms) s
  NeverFound id ms s none = ⊥

  -- The queued calls that are run while a wait for an event of the table lasts are calm.
  abbrev pub CalmWait : List Sexp → Events → Type 0
  CalmWait (event id ∷ int ms ∷ []) s = CalmFound id ms s (find s.events id)
  CalmWait _ s = Unit

  -- The arguments are an event of the table and a delay, and the event is never found fired.
  abbrev pub NeverWoken : List Sexp → Events → Type 0
  NeverWoken (event id ∷ int ms ∷ []) s = NeverFound id ms s (find s.events id)
  NeverWoken _ s = ⊥

  wait_on-Receives :
      (e delay : Sexp) (s : Events)
      → CalmWait (e ∷ delay ∷ []) s
      → IsPaired s
      → Receives (NeverWoken (e ∷ delay ∷ []) s) (wait_on turns rounds e delay s)
  unfolding wait_on
  wait_on-Receives (event id) (int ms) s calm p = elim (Option-cases (find s.events id)) [
    | inl e ↦ rw (wait_on, e) tt
    | inr (ch, e) ↦
        rw (wait_on, e)
          (wait_turns-Receives id ch (turns_for turns rounds ms) s _ (λ never. never)
            (subst (CalmFound id ms s) e calm) p e)
  ]
  wait_on-Receives _ _ s calm p = tt

  try_wait-Receives :
      (e delay : Sexp) (s : Events)
      → CalmWait (e ∷ delay ∷ []) s
      → IsPaired s
      → Receives (NeverWoken (e ∷ delay ∷ []) s) (try_wait turns rounds e delay s)
  unfolding try_wait
  try_wait-Receives (sentinel x) delay s calm p = (λ e. cc e, p)
  try_wait-Receives e delay s calm p = wait_on-Receives e delay s calm p

  -- A call of `wait` or `?wait` on a sound table, with a delay or without, during which the queued
  -- calls leave the table sound and the event in it; they may make and fire events. When the call
  -- returns, it returns a value and not the nil of a closed channel, and the table is sound again.
  -- It waits on only if its arguments are an event of the table and a delay and the channel of the
  -- event holds nothing whenever a receive is tried.
  pub wait_function-Receives :
      (name : Bytes) (args : List Sexp) (s : Events)
      → CalmWait args s
      → IsPaired s
      → Receives (NeverWoken args s) (wait_function turns rounds name args s)
  unfolding wait_function
  wait_function-Receives name (e ∷ delay ∷ []) s calm p = elim (Bool-cases (tries name)) [
    | inl t ↦ rw (wait_function, t) (try_wait-Receives e delay s calm p)
    | inr t ↦ rw (wait_function, t) (wait_on-Receives e delay s calm p)
  ]
  wait_function-Receives name [] s calm p = tt
  wait_function-Receives name (e ∷ []) s calm p = tt
  wait_function-Receives name (e ∷ delay ∷ x ∷ args) s calm p = tt
