-- ===== src/Events/Channels.antt =====
-- functions.go: the table `events`, and the channels of one place that it leads to. A channel is a
-- reference into a store: `WaitFunction` keeps the one that it has found, whatever becomes of the
-- table.
use glisp.Prelude.{
  ℕ, ℤ, eq_ℤ, Bool, true, false, List, [], ◌∷◌, Option, none, some, get_elem?, set, if◌then◌else◌,
  Error,
}
use glisp.Sexp.{Sexp}

pub record Channel : Type 0 where
  pub buffer : Option Sexp
  pub closed : Bool

-- `eventId`, `events`, and the store.
pub record Events : Type 0 where
  pub event_id : ℤ
  pub events : List (ℤ × ℕ)
  pub channels : List Channel

-- What a call does: it returns, it returns an error, it panics, or it waits for others.
pub data Reply {ℓ} (A : Type ℓ) : Type ℓ where
  done : A → Reply A
  refused : Error → Reply A
  panics : Reply A
  blocks : Reply A

unfoldable pub find : List (ℤ × ℕ) → ℤ → Option ℕ
find [] id = none
find ((key, ch) ∷ rest) id = if eq_ℤ key id then some ch else find rest id

unfoldable pub remove : ℤ → List (ℤ × ℕ) → List (ℤ × ℕ)
remove id [] = []
remove id ((key, ch) ∷ rest) =
    let kept = remove id rest in if eq_ℤ key id then kept else (key, ch) ∷ kept

abbrev pub empty_channel : Channel
empty_channel = record { buffer = none; closed = false }

-- `ch <- val; close(ch)`
unfoldable pub send_and_close : ℕ → Sexp → Events → Reply Events
send_and_close ch val s = elim (get_elem? s.channels ch) [
  | none ↦ panics
  | some c ↦ if c.closed then panics else elim c.buffer [
    | some _ ↦ blocks
    | none ↦
        done (record s {
          channels = set s.channels ch (record c { buffer = some val; closed = true });
        })
  ]
]

-- What a receive finds: a value, the nil that a closed channel gives, or nothing yet.
pub data Received : Type 0 where
  value : Sexp → Received
  nil : Received
  nothing : Received

abbrev pub received : Channel → Received
received c = elim c.buffer [ some val ↦ value val | none ↦ if c.closed then nil else nothing ]

unfoldable pub receive : ℕ → Events → Received
receive ch s = elim (get_elem? s.channels ch) [ some c ↦ received c | none ↦ nothing ]

-- The channel without the value that was received.
unfoldable pub take_out : ℕ → Events → Events
take_out ch s = elim (get_elem? s.channels ch) [
  | some c ↦ record s { channels = set s.channels ch (record c { buffer = none }) }
  | none ↦ s
]
