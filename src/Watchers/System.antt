-- ===== src/Watchers/System.antt =====
-- extensions/watchers.go: a `ReadWatcher` with the two goroutines of `run` and any number of callers
-- of `AddWatcher` and `RemWatcher`, a shared access at a time. A callback is known by a number.
use glisp.Prelude.{
  ℤ, pos, ◌+ℤ◌, eq_ℤ, wrap, ℕ, suc, ◌≡◌, Bool, true, false, Bytes, List, [], ◌∷◌, ◌++◌,
  if◌then◌else◌,
}

-- `map[int]ReadOnData`
abbrev pub Watchers : Type 0
Watchers = List (ℤ × ℕ)

unfoldable pub delete : ℤ → Watchers → Watchers
delete id [] = []
delete id ((k, fn) ∷ rest) = let kept = delete id rest in if eq_ℤ k id then kept else (k, fn) ∷ kept

-- Where the inner goroutine stands, which reads: it calls the watchers that it has copied, with what
-- was read or, at the end, with nothing; then it stores `dead` and closes the channels.
pub data Reader : Type 0 where
  reading : Reader
  calling : Bytes → Watchers → Bool → Reader
  ending : Watchers → Reader
  storing closing_add closing_rem over : Reader

-- `adding` and `removing` are the sends under way, `called` the calls of callbacks, the last
-- first, and `added` counts the watchers that were added.
pub record System : Type 0 where
  pub watchers : Watchers
  pub watcher_id : ℤ
  pub dead : Bool
  pub add_closed : Bool
  pub rem_closed : Bool
  pub reader : Reader
  pub working : Bool
  pub adding : List ℕ
  pub removing : List ℤ
  pub called : List (ℤ × ℕ × Bytes)
  pub added : ℕ

abbrev pub init : System
init = record {
  watchers = [];
  watcher_id = pos 0;
  dead = false;
  add_closed = false;
  rem_closed = false;
  reader = reading;
  working = true;
  adding = [];
  removing = [];
  called = [];
  added = 0;
}

-- `addWatcher` and `remWatcher` of `run`, with the sends that are over.
unfoldable pub add_watcher : ℕ → List ℕ → System → System
unfolding wrap ◌+ℤ◌ delete
add_watcher fn left s =
    let id = wrap 64 (s.watcher_id +ℤ pos 1) in
    record s {
      watcher_id = id;
      watchers = (id, fn) ∷ delete id s.watchers;
      adding = left;
      added = suc s.added;
    }

unfoldable pub rem_watcher : ℤ → List ℤ → System → System
unfolding delete
rem_watcher id left s = record s { watchers = delete id s.watchers; removing = left }

abbrev pub is_empty : Watchers → Bool
is_empty [] = true
is_empty (_ ∷ _) = false

-- A step of `callWatchers` behind its last call: without watchers the reader stops.
abbrev pub after_calls : Bool → Reader
after_calls empty = if empty then storing else reading

unfoldable pub note_call : ℤ → ℕ → Bytes → Reader → System → System
note_call k fn bytes next s = record s { reader = next; called = (k, fn, bytes) ∷ s.called }

pub data Step (s : System) : System → Type 0 where
  -- the tests of `AddWatcher` and `RemWatcher`; of one that finds `dead` set nothing is left
  test_add : (fn : ℕ) → s.dead ≡ false → Step s (record s { adding = fn ∷ s.adding })
  test_rem : (id : ℤ) → s.dead ≡ false → Step s (record s { removing = id ∷ s.removing })
  -- the cases of the `select`
  take_add :
      (fn : ℕ) (before after : List ℕ)
      → s.adding ≡ before ++ fn ∷ after
      → s.working ≡ true
      → s.add_closed ≡ false
      → Step s (add_watcher fn (before ++ after) s)
  take_rem :
      (id : ℤ) (before after : List ℤ)
      → s.removing ≡ before ++ id ∷ after
      → s.working ≡ true
      → s.rem_closed ≡ false
      → Step s (rem_watcher id (before ++ after) s)
  end_add : s.add_closed ≡ true → Step s (record s { working = false })
  end_rem : s.rem_closed ≡ true → Step s (record s { working = false })
  -- the reader; Go's loop over a map takes its entries in any order
  read :
      (c : ℕ) (bytes : Bytes)
      → s.reader ≡ reading
      → Step s (record s { reader = calling (c ∷ bytes) s.watchers (is_empty s.watchers) })
  read_error : s.reader ≡ reading → Step s (record s { reader = ending s.watchers })
  call :
      (k : ℤ) (fn : ℕ) (before after : Watchers) (bytes : Bytes) (empty : Bool)
      → s.reader ≡ calling bytes (before ++ (k, fn) ∷ after) empty
      → Step s (note_call k fn bytes (calling bytes (before ++ after) empty) s)
  called_all :
      (bytes : Bytes) (empty : Bool)
      → s.reader ≡ calling bytes [] empty
      → Step s (record s { reader = after_calls empty })
  call_end :
      (k : ℤ) (fn : ℕ) (before after : Watchers)
      → s.reader ≡ ending (before ++ (k, fn) ∷ after)
      → Step s (note_call k fn [] (ending (before ++ after)) s)
  ended : s.reader ≡ ending [] → Step s (record s { reader = storing })
  store : s.reader ≡ storing → Step s (record s { reader = closing_add; dead = true })
  close_add : s.reader ≡ closing_add → Step s (record s { reader = closing_rem; add_closed = true })
  close_rem : s.reader ≡ closing_rem → Step s (record s { reader = over; rem_closed = true })

pub data Reach (s : System) : System → Type 0 where
  here : Reach s s
  later : {t u : System} → Reach s t → Step t u → Reach s u

-- A send under way on a closed channel: the program panics.
abbrev pub Panics : System → Type 0
Panics s = (fn : ℕ) × (rest : List ℕ) × (s.adding ≡ fn ∷ rest) × (s.add_closed ≡ true)
