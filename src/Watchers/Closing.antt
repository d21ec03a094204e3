-- ===== src/Watchers/Closing.antt =====
-- How a reader ends: what its callers can rely on, and what they cannot.
use glisp.Prelude.{ℤ, ℕ, ◌≡◌, refl, sym, ap, ◌∙◌, Bool, true, false, List, [], ◌∷◌, ◌⊎◌, inl, inr}
use glisp.Watchers.System.{
  Reader, reading, calling, ending, storing, closing_add, closing_rem, over, System, init,
  add_watcher, rem_watcher, note_call, after_calls, Step, test_add, test_rem, take_add, take_rem,
  end_add, end_rem, read, read_error, call, called_all, call_end, ended, store, close_add,
  close_rem, Reach, here, later, Panics,
}

-- What the place of the reader says of the flag and of the channels.
abbrev pub dead_at : Reader → Bool
dead_at closing_add = true
dead_at closing_rem = true
dead_at over = true
dead_at _ = false

abbrev pub add_closed_at : Reader → Bool
add_closed_at closing_rem = true
add_closed_at over = true
add_closed_at _ = false

abbrev pub rem_closed_at : Reader → Bool
rem_closed_at over = true
rem_closed_at _ = false

-- The loop that adds and removes ends only when a channel is closed.
pub record IsOrderly (s : System) : Type 0 where
  pub flag : s.dead ≡ dead_at s.reader
  pub adds : s.add_closed ≡ add_closed_at s.reader
  pub rems : s.rem_closed ≡ rem_closed_at s.reader
  pub loop : s.working ≡ false → s.add_closed ≡ true

after_calls-open :
    (empty : Bool)
    → (dead_at (after_calls empty) ≡ false)
      × (add_closed_at (after_calls empty) ≡ false)
      × (rem_closed_at (after_calls empty) ≡ false)
after_calls-open true = (refl, refl, refl)
after_calls-open false = (refl, refl, refl)

rem→add : (r : Reader) → rem_closed_at r ≡ true → add_closed_at r ≡ true
rem→add over h = refl
rem→add closing_rem h = refl
rem→add reading h = cc
rem→add (calling _ _ _) h = cc
rem→add (ending _) h = cc
rem→add storing h = cc
rem→add closing_add h = cc

add→dead : (r : Reader) → add_closed_at r ≡ true → dead_at r ≡ true
add→dead over h = refl
add→dead closing_rem h = refl
add→dead reading h = cc
add→dead (calling _ _ _) h = cc
add→dead (ending _) h = cc
add→dead storing h = cc
add→dead closing_add h = cc

-- The reader goes from a place where all is open to another.
moves :
    (s : System) (p r : Reader)
    → s.reader ≡ p
    → dead_at p ≡ dead_at r
    → add_closed_at p ≡ add_closed_at r
    → rem_closed_at p ≡ rem_closed_at r
    → IsOrderly s
    → IsOrderly (record s { reader = r })
moves s p r e d a b h = record {
  flag = h.flag ∙ ap dead_at e ∙ d;
  adds = h.adds ∙ ap add_closed_at e ∙ a;
  rems = h.rems ∙ ap rem_closed_at e ∙ b;
  loop = h.loop;
}

called_moves :
    (s : System) (r : Reader) (k : ℤ) (fn : ℕ) (bytes : List ℕ)
    → IsOrderly (record s { reader = r })
    → IsOrderly (note_call k fn bytes r s)
unfolding note_call
called_moves s r k fn bytes h = record {
  flag = h.flag;
  adds = h.adds;
  rems = h.rems;
  loop = h.loop;
}

Step-IsOrderly : {s t : System} → Step s t → IsOrderly s → IsOrderly t
unfolding add_watcher rem_watcher note_call
Step-IsOrderly (test_add fn e) h = record {
  flag = h.flag;
  adds = h.adds;
  rems = h.rems;
  loop = h.loop;
}
Step-IsOrderly (test_rem id e) h = record {
  flag = h.flag;
  adds = h.adds;
  rems = h.rems;
  loop = h.loop;
}
Step-IsOrderly (take_add fn xs ys e e' e'') h = record {
  flag = h.flag;
  adds = h.adds;
  rems = h.rems;
  loop = h.loop;
}
Step-IsOrderly (take_rem id xs ys e e' e'') h = record {
  flag = h.flag;
  adds = h.adds;
  rems = h.rems;
  loop = h.loop;
}
Step-IsOrderly (end_add e) h = record { flag = h.flag; adds = h.adds; rems = h.rems; loop = λ _. e }
Step-IsOrderly {s} (end_rem e) h = record {
  flag = h.flag;
  adds = h.adds;
  rems = h.rems;
  loop = λ _. h.adds ∙ rem→add s.reader (sym h.rems ∙ e);
}
Step-IsOrderly {s} (read c bytes e) h = moves s _ _ e refl refl refl h
Step-IsOrderly {s} (read_error e) h = moves s _ _ e refl refl refl h
Step-IsOrderly {s} (call k fn xs ys bytes empty e) h =
    called_moves s _ k fn bytes (moves s _ _ e refl refl refl h)
Step-IsOrderly {s} (called_all bytes empty e) h =
    let (d, a, b) = after_calls-open empty in moves s _ _ e (sym d) (sym a) (sym b) h
Step-IsOrderly {s} (call_end k fn xs ys e) h =
    called_moves s _ k fn [] (moves s _ _ e refl refl refl h)
Step-IsOrderly {s} (ended e) h = moves s _ _ e refl refl refl h
Step-IsOrderly (store e) h = record {
  flag = refl;
  adds = h.adds ∙ ap add_closed_at e;
  rems = h.rems ∙ ap rem_closed_at e;
  loop = h.loop;
}
Step-IsOrderly (close_add e) h = record {
  flag = h.flag ∙ ap dead_at e;
  adds = refl;
  rems = h.rems ∙ ap rem_closed_at e;
  loop = λ _. refl;
}
Step-IsOrderly (close_rem e) h = record {
  flag = h.flag ∙ ap dead_at e;
  adds = h.adds ∙ ap add_closed_at e;
  rems = refl;
  loop = λ w. h.loop w;
}

pub Reach-IsOrderly : {s : System} → Reach init s → IsOrderly s
Reach-IsOrderly here = record { flag = refl; adds = refl; rems = refl; loop = λ e. cc e }
Reach-IsOrderly (later r st) = Step-IsOrderly st (Reach-IsOrderly r)

-- Whatever the interleaving: when a channel of a reader is closed, or the loop that takes the sends
-- has ended, the flag `dead` is set, so that no call that comes later sends.
pub ended-dead :
    (s : System)
    → Reach init s
    → (s.add_closed ≡ true) ⊎ (s.rem_closed ≡ true) ⊎ (s.working ≡ false)
    → s.dead ≡ true
ended-dead s r (inl e) = let h = Reach-IsOrderly r in h.flag ∙ add→dead s.reader (sym h.adds ∙ e)
ended-dead s r (inr (inl e)) =
    let h = Reach-IsOrderly r in h.flag ∙ add→dead s.reader (rem→add s.reader (sym h.rems ∙ e))
ended-dead s r (inr (inr e)) =
    let h = Reach-IsOrderly r in h.flag ∙ add→dead s.reader (sym h.adds ∙ h.loop e)

-- A state can be reached in which a call of `AddWatcher` has found the flag clear and stands before
-- its send, while the reader has closed the channel: the program panics.
pub overtaken_add-Panics : (s : System) × Reach init s × Panics s
overtaken_add-Panics = (
  _,
  later
      (later
        (later (later (later here (test_add 7 refl)) (read 65 [] refl))
          (called_all (65 ∷ []) true refl))
        (store refl))
      (close_add refl),
  (7, [], refl, refl),
)
