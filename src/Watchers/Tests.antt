-- ===== src/Watchers/Tests.antt =====
-- A reader with one watcher.
use glisp.Prelude.{pos, arith, ◌≡◌, refl, true, false, [], ◌∷◌, inl}
use glisp.Watchers.System.{
  System, reading, closing_rem, init, add_watcher, rem_watcher, delete, note_call, Reach, here,
  later, test_add, test_rem, take_add, take_rem, read, call, called_all, store, close_add,
}
use glisp.Watchers.Ids.{IsNumbered, Reach-IsNumbered}
use glisp.Watchers.Closing.{ended-dead}

-- The callback 7 is registered, called with a byte, and removed.
abbrev one_watcher : System
one_watcher = record {
  watchers = (pos 1, 7) ∷ [];
  watcher_id = pos 1;
  dead = false;
  add_closed = false;
  rem_closed = false;
  reader = reading;
  working = true;
  adding = [];
  removing = [];
  called = [];
  added = 1;
}

one_watcher-Reach : Reach init one_watcher
unfolding add_watcher
one_watcher-Reach = later (later here (test_add 7 refl)) (take_add 7 [] [] refl refl refl)

abbrev removed : System
removed = record one_watcher { watchers = []; called = (pos 1, 7, 65 ∷ []) ∷ [] }

removed-Reach : Reach init removed
unfolding note_call rem_watcher delete
removed-Reach =
    later
      (later
        (later
          (later (later one_watcher-Reach (read 65 [] refl))
            (call (pos 1) 7 [] [] (65 ∷ []) false refl))
          (called_all (65 ∷ []) false refl))
        (test_rem (pos 1) refl))
      (take_rem (pos 1) [] [] refl refl refl)

-- With no watcher left the reader stops when something is read.
abbrev stopped : System
stopped = record removed { dead = true; add_closed = true; reader = closing_rem }

stopped-Reach : Reach init stopped
stopped-Reach =
    later
      (later (later (later removed-Reach (read 66 [] refl)) (called_all (66 ∷ []) true refl))
        (store refl))
      (close_add refl)

Reach-IsNumbered_example : IsNumbered removed
Reach-IsNumbered_example = Reach-IsNumbered removed-Reach (omega arith)

ended-dead_example : stopped.dead ≡ true
ended-dead_example = ended-dead stopped stopped-Reach (inl refl)
