-- ===== src/Watchers/Ids.antt =====
-- The numbers of the watchers.
use glisp.Prelude.{
  ℤ, pos, ◌+ℤ◌, ◌<ℤ◌, ◌≤ℤ◌, eq_ℤ, wrap, wrap64-eq_of_Fits, ◌^◌, ap, sym, ◌∙◌, ℕ, suc, ◌≤◌, ◌<◌, ◌≡◌,
  refl, Bool, true, false, Bytes, List, [], ◌∷◌, ◌++◌, All, Bool-cases, inl, inr, arith,
}
use mathlib.Core.Path.{subst}
use glisp.Watchers.System.{
  Watchers, delete, Reader, calling, ending, System, init, add_watcher, rem_watcher, note_call,
  after_calls, Step, test_add, test_rem, take_add, take_rem, end_add, end_rem, read, read_error,
  call, called_all, call_end, ended, store, close_add, close_rem, Reach, here, later,
}

-- Numbers fall along the list, so that no two are the same, and none is above the bound.
abbrev pub Below : ℤ → Watchers → Type 0
Below bound [] = Unit
Below bound ((k, _) ∷ rest) = (k <ℤ bound) × Below k rest

Below-mono : (a b : ℤ) (ws : Watchers) → a ≤ℤ b → Below a ws → Below b ws
Below-mono a b [] le h = tt
Below-mono a b ((k, fn) ∷ rest) le (low, h) = (omega arith, h)

delete-Below : (bound id : ℤ) (ws : Watchers) → Below bound ws → Below bound (delete id ws)
unfolding delete
delete-Below bound id [] h = tt
delete-Below bound id ((k, fn) ∷ rest) (low, h) =
    let ih = delete-Below k id rest h in
    elim (Bool-cases (eq_ℤ k id)) [
      | inl e ↦ rw (e) (Below-mono k bound (delete id rest) (omega arith) ih)
      | inr e ↦ rw (e) (low, ih)
    ]

abbrev pub Low : ℤ → ℤ × ℕ → Type 0
Low bound w = w.0 <ℤ bound

abbrev pub CalledLow : ℤ → ℤ × ℕ × Bytes → Type 0
CalledLow bound c = c.0 <ℤ bound

module _ {ℓ κ} {A : Type ℓ} where
  All-pick :
      (P : A → Type κ) (xs : List A) (x : A) (ys : List A)
      → All P (xs ++ x ∷ ys)
      → P x × All P (xs ++ ys)
  All-pick P [] x ys h = h
  All-pick P (y ∷ xs) x ys (first, h) = let (px, rest) = All-pick P xs x ys h in (px, (first, rest))

  All-mono : {P Q : A → Type κ} → ((a : A) → P a → Q a) → (xs : List A) → All P xs → All Q xs
  All-mono f [] h = tt
  All-mono f (x ∷ xs) (first, h) = (f x first, All-mono f xs h)

Below-Low : (bound : ℤ) (ws : Watchers) → Below bound ws → All (Low bound) ws
Below-Low bound [] h = tt
Below-Low bound ((k, fn) ∷ rest) (low, h) =
    (low, Below-Low bound rest (Below-mono k bound rest (omega arith) h))

-- The watchers that the reader has copied and not yet called.
abbrev pub copied : Reader → Watchers
copied (calling _ ws _) = ws
copied (ending ws) = ws
copied _ = []

-- The last number is that of the additions. The numbers of the watchers are distinct; the next
-- number is above all of them, and above those of the watchers that are to be called or were called.
pub record IsNumbered (s : System) : Type 0 where
  pub count : s.watcher_id ≡ pos s.added
  pub registered : Below (pos (suc s.added)) s.watchers
  pub snapshot : All (Low (pos (suc s.added))) (copied s.reader)
  pub before : All (CalledLow (pos (suc s.added))) s.called

-- The reader goes on with what it had copied, or with nothing.
goes_on :
    (s : System) (r : Reader)
    → IsNumbered s
    → All (Low (pos (suc s.added))) (copied r)
    → IsNumbered (record s { reader = r })
goes_on s r h low = record {
  count = h.count;
  registered = h.registered;
  snapshot = low;
  before = h.before;
}

after_calls-Low : (bound : ℤ) (empty : Bool) → All (Low bound) (copied (after_calls empty))
after_calls-Low bound true = tt
after_calls-Low bound false = tt

called-IsNumbered :
    (s : System) (k : ℤ) (fn : ℕ) (bytes : Bytes) (xs ys : Watchers) (next r : Reader)
    → s.reader ≡ r
    → copied r ≡ xs ++ (k, fn) ∷ ys
    → copied next ≡ xs ++ ys
    → IsNumbered s
    → IsNumbered (note_call k fn bytes next s)
unfolding note_call
called-IsNumbered s k fn bytes xs ys next r e from to h =
    let here : All (Low (pos (suc s.added))) (xs ++ (k, fn) ∷ ys) =
      subst (All (Low (pos (suc s.added)))) (ap copied e ∙ from) h.snapshot in
    let (low, rest) = All-pick (Low (pos (suc s.added))) xs (k, fn) ys here in
    record {
      count = h.count;
      registered = h.registered;
      snapshot = subst (All (Low (pos (suc s.added)))) (sym to) rest;
      before = (low, h.before);
    }

-- The number behind the last, where it is still an int.
next_number : (n : ℕ) → suc n < 2 ^ 63 → wrap 64 (pos n +ℤ pos 1) ≡ pos (suc n)
unfolding ◌+ℤ◌
next_number n h =
    let sum : pos n +ℤ pos 1 ≡ pos (suc n) = ground arith in
    ap (wrap 64) sum ∙ wrap64-eq_of_Fits (pos (suc n)) h

Step-IsNumbered : {s t : System} → Step s t → t.added < 2 ^ 63 → IsNumbered s → IsNumbered t
unfolding add_watcher rem_watcher note_call
Step-IsNumbered (test_add fn e) small h = record {
  count = h.count;
  registered = h.registered;
  snapshot = h.snapshot;
  before = h.before;
}
Step-IsNumbered (test_rem id e) small h = record {
  count = h.count;
  registered = h.registered;
  snapshot = h.snapshot;
  before = h.before;
}
Step-IsNumbered {s} (take_add fn xs ys e e' e'') small h =
    let next = ap (λ i. wrap 64 (i +ℤ pos 1)) h.count ∙ next_number s.added small in
    record {
      count = next;
      registered = rw (next) (
        omega arith,
        delete-Below (pos (suc s.added)) (wrap 64 (s.watcher_id +ℤ pos 1)) s.watchers h.registered,
      );
      snapshot = All-mono (λ w low. omega arith) (copied s.reader) h.snapshot;
      before = All-mono (λ c low. omega arith) s.called h.before;
    }
Step-IsNumbered {s} (take_rem id xs ys e e' e'') small h = record {
  count = h.count;
  registered = delete-Below (pos (suc s.added)) id s.watchers h.registered;
  snapshot = h.snapshot;
  before = h.before;
}
Step-IsNumbered (end_add e) small h = record {
  count = h.count;
  registered = h.registered;
  snapshot = h.snapshot;
  before = h.before;
}
Step-IsNumbered (end_rem e) small h = record {
  count = h.count;
  registered = h.registered;
  snapshot = h.snapshot;
  before = h.before;
}
Step-IsNumbered {s} (read c bytes e) small h =
    goes_on s _ h (Below-Low (pos (suc s.added)) s.watchers h.registered)
Step-IsNumbered {s} (read_error e) small h =
    goes_on s _ h (Below-Low (pos (suc s.added)) s.watchers h.registered)
Step-IsNumbered {s} (call k fn xs ys bytes empty e) small h =
    called-IsNumbered s k fn bytes xs ys _ _ e refl refl h
Step-IsNumbered {s} (called_all bytes empty e) small h =
    goes_on s _ h (after_calls-Low (pos (suc s.added)) empty)
Step-IsNumbered {s} (call_end k fn xs ys e) small h =
    called-IsNumbered s k fn [] xs ys _ _ e refl refl h
Step-IsNumbered {s} (ended e) small h = goes_on s _ h tt
Step-IsNumbered (store e) small h = record {
  count = h.count;
  registered = h.registered;
  snapshot = tt;
  before = h.before;
}
Step-IsNumbered (close_add e) small h = record {
  count = h.count;
  registered = h.registered;
  snapshot = tt;
  before = h.before;
}
Step-IsNumbered (close_rem e) small h = record {
  count = h.count;
  registered = h.registered;
  snapshot = tt;
  before = h.before;
}

-- Watchers are never taken off the count.
Step-added : {s t : System} → Step s t → s.added ≤ t.added
unfolding add_watcher rem_watcher note_call
Step-added (test_add fn e) = omega arith
Step-added (test_rem id e) = omega arith
Step-added (take_add fn xs ys e e' e'') = omega arith
Step-added (take_rem id xs ys e e' e'') = omega arith
Step-added (end_add e) = omega arith
Step-added (end_rem e) = omega arith
Step-added (read c bytes e) = omega arith
Step-added (read_error e) = omega arith
Step-added (call k fn xs ys bytes empty e) = omega arith
Step-added (called_all bytes empty e) = omega arith
Step-added (call_end k fn xs ys e) = omega arith
Step-added (ended e) = omega arith
Step-added (store e) = omega arith
Step-added (close_add e) = omega arith
Step-added (close_rem e) = omega arith

-- Whatever the interleaving, as long as fewer than 2^63 watchers were added to a reader, so that
-- the count of them has not wrapped around: the last number that was given is the number of
-- additions, the numbers of its watchers are distinct, and the number behind the last is greater
-- than those of all watchers that are registered, are to be called or were ever called.
pub Reach-IsNumbered : {s : System} → Reach init s → s.added < 2 ^ 63 → IsNumbered s
Reach-IsNumbered here small = record { count = refl; registered = tt; snapshot = tt; before = tt }
Reach-IsNumbered (later r st) small =
    let grown = Step-added st in Step-IsNumbered st small (Reach-IsNumbered r (omega arith))
