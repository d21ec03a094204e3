-- ===== src/Events/Pairing.antt =====
-- What keeps an event sound: its channel is there, is closed as soon as it holds a value, and no two
-- events share one.
use glisp.Prelude.{
  ℕ, ◌<◌, ◌==◌, ==_ne, ℤ, eq_ℤ, eq_ℤ_iff, ◌≡◌, ◌≢◌, refl, sym, ap, ◌∙◌, Bool, true, false, List, [],
  ◌∷◌, ◌++◌, Option, none, some, length, get_elem?, get_elem?-lt, get_elem?-set, get_elem?-append,
  get_elem?-last, set, Bytes, Bool-cases, Option-cases, arith, if◌then◌else◌, inl, inr, ◌⊎◌,
}
use glisp.Sexp.{Sexp, event, sentinel}
use glisp.Events.Channels.{
  Channel, Events, Reply, done, blocks, find, remove, empty_channel, send_and_close, take_out,
}
use glisp.Events.Life.{fired_channel, find-remove}
use glisp.Events.Defs.{make_event, event_call, try_event, event_function, fire, finish_wait, tries}

abbrev pub holds : Channel → Bool
holds c = elim c.buffer [ some _ ↦ true | none ↦ false ]

pub record IsPaired (s : Events) : Type 0 where
  pub channel :
      (id : ℤ) (ch : ℕ)
      → find s.events id ≡ some ch
      → (c : Channel) × (get_elem? s.channels ch ≡ some c) × (c.closed ≡ holds c)
  pub distinct : (i j : ℤ) (ch : ℕ) → find s.events i ≡ some ch → find s.events j ≡ some ch → i ≡ j

-- What a call leaves, where it returns.
abbrev pub Leaves : Reply (Sexp × Events) → Type 0
Leaves (done (_, t)) = IsPaired t
Leaves _ = Unit

-- What a wait leaves, where it returns, and that what it returns is not nil; and what is known where
-- it still waits.
abbrev pub Receives : Type 0 → Reply (Option Sexp × Events) → Type 0
Receives Still (done (got, t)) = (got ≢ none) × IsPaired t
Receives Still blocks = Still
Receives Still _ = Unit

eq_ℤ_ne : (i j : ℤ) → i ≢ j → eq_ℤ i j ≡ false
eq_ℤ_ne i j h = ground (arith, eq_ℤ_iff i j)

find-remove_other : (xs : List (ℤ × ℕ)) (id i : ℤ) → id ≢ i → find (remove id xs) i ≡ find xs i
unfolding find remove
find-remove_other [] id i ne = refl
find-remove_other ((key, k) ∷ rest) id i ne =
    let ih = find-remove_other rest id i ne in
    elim (Bool-cases (eq_ℤ key id)) [
      | inl e ↦
          let off : eq_ℤ key i ≡ false =
            eq_ℤ_ne key i (λ h. ne (sym ((eq_ℤ_iff key id).0 e) ∙ h)) in
          rw (e, off) ih
      | inr e ↦ elim (Bool-cases (eq_ℤ key i)) [ inl f ↦ rw (e, f) refl | inr f ↦ rw (e, f) ih ]
    ]

find-remove_back :
    (xs : List (ℤ × ℕ)) (id i : ℤ) (ch : ℕ)
    → find (remove id xs) i ≡ some ch
    → (id ≢ i) × (find xs i ≡ some ch)
find-remove_back xs id i ch h = elim (Bool-cases (eq_ℤ id i)) [
  | inl e ↦
      let same = (eq_ℤ_iff id i).0 e in
      (λ _. cc (find-remove xs id, same, h), cc (find-remove xs id, same, h))
  | inr e ↦
      let ne : id ≢ i = λ same. cc ((eq_ℤ_iff id i).1 same, e) in
      (ne, sym (find-remove_other xs id i ne) ∙ h)
]

-- Where an event of the table with a new entry leads.
find-made :
    (s : Events) (id i : ℤ) (ch : ℕ)
    → IsPaired s
    → find ((id, length s.channels) ∷ s.events) i ≡ some ch
    → ((id ≡ i) × (length s.channels ≡ ch))
      ⊎ ((ch < length s.channels) × (find s.events i ≡ some ch))
unfolding find
find-made s id i ch p h = elim (Bool-cases (eq_ℤ id i)) [
  | inl e ↦
      let front : find ((id, length s.channels) ∷ s.events) i ≡ some (length s.channels) =
        rw (find, e) refl in
      inl ((eq_ℤ_iff id i).0 e, cc (front, h))
  | inr e ↦
      let back : find ((id, length s.channels) ∷ s.events) i ≡ find s.events i =
        rw (find, e) refl in
      let old : find s.events i ≡ some ch = sym back ∙ h in
      let (c, at, _) = p.channel i ch old in inr (get_elem?-lt s.channels ch at, old)
]

make_event-Leaves : (s : Events) → IsPaired s → Leaves (make_event s)
unfolding make_event
make_event-Leaves s p = record {
  channel = λ i ch h. elim (find-made s _ i ch p h) [
    | inl (_, new) ↦ (
      empty_channel,
      ap (get_elem? (s.channels ++ empty_channel ∷ [])) (sym new)
          ∙ get_elem?-last s.channels empty_channel,
      refl,
    )
    | inr (low, old) ↦
        let (c, at, pair) = p.channel i ch old in
        (c, get_elem?-append s.channels empty_channel ch low ∙ at, pair)
  ];
  distinct = λ i j ch hi hj. elim (find-made s _ i ch p hi) [
    | inl (is, new) ↦ elim (find-made s _ j ch p hj) [
      | inl (js, _) ↦ sym is ∙ js
      | inr (low, _) ↦ grind (arith, new, low)
    ]
    | inr (low, old) ↦ elim (find-made s _ j ch p hj) [
      | inl (_, new) ↦ grind (arith, new, low)
      | inr (_, other) ↦ p.distinct i j ch old other
    ]
  ];
}

set-at :
    (s : Events) (ch q : ℕ) (c v : Channel)
    → get_elem? s.channels ch ≡ some c
    → get_elem? (set s.channels ch v) q ≡ (if ch == q then some v else get_elem? s.channels q)
set-at s ch q c v at = get_elem?-set s.channels ch q v (get_elem?-lt s.channels ch at)

-- A write of a sound channel.
set-IsPaired :
    (s : Events) (ch : ℕ) (c v : Channel)
    → get_elem? s.channels ch ≡ some c
    → v.closed ≡ holds v
    → IsPaired s
    → IsPaired (record s { channels = set s.channels ch v })
set-IsPaired s ch c v at sound p = record {
  channel = λ i q h. elim (Bool-cases (ch == q)) [
    | inl e ↦ (v, rw (set-at s ch q c v at, e) refl, sound)
    | inr e ↦
        let (d, there, pair) = p.channel i q h in (d, rw (set-at s ch q c v at, e) there, pair)
  ];
  distinct = p.distinct;
}

-- The open channel of an event is empty.
fire_into-Leaves :
    (ch : ℕ) (val : Sexp) (s : Events) (c : Channel)
    → get_elem? s.channels ch ≡ some c
    → c.closed ≡ holds c
    → IsPaired s
    → (id : ℤ) → find s.events id ≡ some ch
    → Leaves (fire (event id) val s)
unfolding fire
fire_into-Leaves ch val s c at pair p id mapped = elim (Bool-cases c.closed) [
  | inl shut ↦ rw (fire, mapped, send_and_close, at, shut) tt
  | inr ajar ↦ elim (Option-cases c.buffer) [
    | inl e ↦
        rw (fire, mapped, send_and_close, at, ajar, e)
          (set-IsPaired s ch c (fired_channel val) at refl p)
    | inr (_, e) ↦ rw (fire, mapped, send_and_close, at, ajar, e) tt
  ]
]

fire-Leaves : (e val : Sexp) (s : Events) → IsPaired s → Leaves (fire e val s)
unfolding fire
fire-Leaves (event id) val s p = elim (Option-cases (find s.events id)) [
  | inl e ↦ rw (fire, e) tt
  | inr (ch, e) ↦
      let (c, at, pair) = p.channel id ch e in fire_into-Leaves ch val s c at pair p id e
]
fire-Leaves _ val s p = tt

event_call-Leaves : (args : List Sexp) (s : Events) → IsPaired s → Leaves (event_call args s)
unfolding event_call
event_call-Leaves [] s p = make_event-Leaves s p
event_call-Leaves (e ∷ val ∷ []) s p = fire-Leaves e val s p
event_call-Leaves (e ∷ []) s p = tt
event_call-Leaves (e ∷ val ∷ x ∷ args) s p = tt

try_event-Leaves : (args : List Sexp) (s : Events) → IsPaired s → Leaves (try_event args s)
unfolding try_event
try_event-Leaves [] s p = tt
try_event-Leaves (sentinel x ∷ args) s p = p
try_event-Leaves (_ ∷ []) s p = event_call-Leaves [] s p
try_event-Leaves (e ∷ x ∷ args) s p = event_call-Leaves (e ∷ x ∷ args) s p

-- In a table in which every event has a channel of its own that is closed when it holds a value,
-- and not before, a call of `event` or `?event` that returns leaves such a table.
pub event_function-Leaves :
    (name : Bytes) (args : List Sexp) (s : Events)
    → IsPaired s
    → Leaves (event_function name args s)
unfolding event_function
event_function-Leaves name args s p = elim (Bool-cases (tries name)) [
  | inl e ↦ rw (event_function, e) (try_event-Leaves args s p)
  | inr e ↦ rw (event_function, e) (event_call-Leaves args s p)
]

-- The end of a wait: the channel that is drained belongs to no event any more.
pub finish_wait-Receives :
    (Still : Type 0) (s : Events) (id : ℤ) (ch : ℕ) (c : Channel) (val : Sexp)
    → find s.events id ≡ some ch
    → get_elem? s.channels ch ≡ some c
    → IsPaired s
    → Receives Still (finish_wait id ch (some val) s)
unfolding finish_wait take_out
finish_wait-Receives Still s id ch c val mapped at p = (
  λ e. cc e,
  rw (finish_wait, take_out, at)
      (record {
        channel = λ i q h.
            let (ne, old) = find-remove_back s.events id i q h in
            let (d, there, pair) = p.channel i q old in
            let off : ch ≢ q = λ e. ne (p.distinct id i q (mapped ∙ ap some e) old) in
            (d, rw (set-at s ch q c (record c { buffer = none }) at, ==_ne ch q off) there, pair);
        distinct = λ i j q hi hj.
            p.distinct i j q (find-remove_back s.events id i q hi).1
              (find-remove_back s.events id j q hj).1;
      }),
)
