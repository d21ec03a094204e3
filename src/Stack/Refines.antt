-- ===== src/Stack/Refines.antt =====
-- The array stack beside the list that it stands for, the first pushed first.
use glisp.Prelude.{
  ℕ, suc, ◌+◌, ◌-◌, ◌≤◌, ◌<◌, List, [], ◌∷◌, ◌++◌, Option, none, some, ◌==◌, if◌then◌else◌, length,
  get_elem?, set, replicate, length-append, ok, err, invalid_stack_access, not_enough_items, lt→ltb,
  le→ltb, ==_refl, ==_ne, append-nil, append_assoc, ◌≡◌, refl, ap, sym, ◌∙◌, arith, map,
}
use glisp.Stack.Array.{
  Stack, new_stack, copy_elements, clone, is_empty, push, get, pop, read_slots, get_expressions,
  pop_expressions, push_slots, push_all_to,
}

module _ {ℓ} {A : Type ℓ} where
  -- The stack holds `xs`, the first pushed first: they fill the array from its start.
  pub record Holds (s : Stack A) (xs : List A) : Type ℓ where
    pub high : s.height ≡ length xs
    pub rest : List (Option A)
    pub filled : s.elements ≡ map some xs ++ rest

module _ {ℓ} {A : Type ℓ} where
  get_elem?-at :
      (xs : List A) (x : A) (rest : List (Option A))
      → get_elem? (map some xs ++ some x ∷ rest) (length xs) ≡ some (some x)
  get_elem?-at [] x rest = refl
  get_elem?-at (y ∷ xs) x rest = get_elem?-at xs x rest

  set-at :
      (xs : List A) (old new : Option A) (rest : List (Option A))
      → set (map some xs ++ old ∷ rest) (length xs) new ≡ map some xs ++ new ∷ rest
  set-at [] old new rest = refl
  set-at (y ∷ xs) old new rest = ap (◌∷◌ (some y)) (set-at xs old new rest)

  length-map-some : (xs : List A) → length (map {B = Option A} some xs) ≡ length xs
  length-map-some [] = refl
  length-map-some (x ∷ xs) = ap suc (length-map-some xs)

  map-some_snoc :
      (xs : List A) (x : A) (rest : List (Option A))
      → map some (xs ++ x ∷ []) ++ rest ≡ map some xs ++ some x ∷ rest
  map-some_snoc [] x rest = refl
  map-some_snoc (y ∷ xs) x rest = ap (◌∷◌ (some y)) (map-some_snoc xs x rest)

  map-some_append :
      (xs ys : List A) (rest : List (Option A))
      → map some (xs ++ ys) ++ rest ≡ map some xs ++ (map some ys ++ rest)
  map-some_append [] ys rest = refl
  map-some_append (x ∷ xs) ys rest = ap (◌∷◌ (some x)) (map-some_append xs ys rest)

  push_snoc : (xs : List A) (x : A) → map some (xs ++ x ∷ []) ≡ map some xs ++ some x ∷ []
  push_snoc [] x = refl
  push_snoc (y ∷ xs) x = ap (◌∷◌ (some y)) (push_snoc xs x)

  pub new_stack-Holds : (size : ℕ) → Holds (new_stack {A = A} size) []
  unfolding new_stack
  new_stack-Holds size = record { high = refl; rest = replicate size none; filled = refl }

  -- A push at the end of the filled part, in a full array and in one with room.
  push_filled :
      (xs : List A) (x : A) (rest : List (Option A))
      → (rest' : List (Option A)) × ((if length xs == length (map some xs ++ rest)
            then (map some xs ++ rest) ++ some x ∷ []
            else set (map some xs ++ rest) (length xs) (some x))
          ≡ map some (xs ++ x ∷ []) ++ rest')
  push_filled xs x [] = (
    [],
    rw (append-nil (map some xs), append-nil (map some (xs ++ x ∷ [])), length-map-some, ==_refl)
        (sym (push_snoc xs x)),
  )
  push_filled xs x (r ∷ rest) = (
    rest,
    rw
        (
          length-append,
          length-map-some,
          ==_ne (length xs) (length xs + suc (length rest)) (omega arith),
        )
        (set-at xs r (some x) rest ∙ sym (map-some_snoc xs x rest)),
  )

  -- A push, in a full array or in one with room: the stack holds the new value after the others.
  pub push-Holds :
      {s : Stack A} {xs : List A} (x : A) → Holds s xs → Holds (push s x) (xs ++ x ∷ [])
  unfolding push
  push-Holds {s} {xs} x h =
      let (rest, filled) = push_filled xs x h.rest in
      record {
        high = omega (arith, length-append xs (x ∷ []), h.high);
        rest = rest;
        filled = rw (h.high, h.filled) filled;
      }

  -- The n-th element below the top.
  pub get-Holds :
      {s : Stack A} (xs : List A) (x : A) (ys : List A)
      → Holds s (xs ++ x ∷ ys)
      → get s (length ys) ≡ ok x
  unfolding get
  get-Holds {s} xs x ys h =
      let tall : s.height ≡ length xs + suc (length ys) = h.high ∙ length-append xs (x ∷ ys) in
      let place : s.height - 1 - length ys ≡ length xs = omega arith in
      rw
        (
          place,
          h.filled,
          le→ltb (length ys + 1) s.height (omega arith),
          map-some_append xs (x ∷ ys) h.rest,
          get_elem?-at,
        )
        refl

  -- A read below the bottom of the stack is an error.
  pub get-error :
      {s : Stack A} {xs : List A} (n : ℕ)
      → Holds s xs
      → length xs ≤ n
      → get s n ≡ err invalid_stack_access
  unfolding get
  get-error {s} n h le = rw (lt→ltb s.height (n + 1) (omega (arith, h.high))) refl

  pub is_empty-Holds : {s : Stack A} {xs : List A} → Holds s xs → is_empty s ≡ (length xs == 0)
  unfolding is_empty
  is_empty-Holds h = rw (h.high)

  -- A pop gives the element last pushed, and leaves the others.
  pub pop-Holds :
      {s : Stack A} (xs : List A) (x : A)
      → Holds s (xs ++ x ∷ [])
      → (s' : Stack A) × (pop s ≡ ok (x, s')) × Holds s' xs
  unfolding pop
  pop-Holds {s} xs x h = (
    record s { height = s.height - 1 },
    rw (get-Holds xs x [] h),
    record {
      high = omega (arith, h.high, length-append xs (x ∷ []));
      rest = some x ∷ h.rest;
      filled = h.filled ∙ map-some_snoc xs x h.rest;
    },
  )

  pub pop-error : {s : Stack A} → Holds s [] → pop s ≡ err invalid_stack_access
  unfolding pop
  pop-error h = rw (get-error 0 h (omega arith))

  read_slots-at :
      (pre ys : List A) (rest : List (Option A))
      → read_slots (map some (pre ++ ys) ++ rest) (length pre) (length ys) ≡ ok ys
  unfolding read_slots
  read_slots-at pre [] rest = refl
  read_slots-at pre (y ∷ ys) rest =
      let elements = map some (pre ++ y ∷ ys) ++ rest in
      let head : get_elem? elements (length pre) ≡ some (some y) =
        rw (map-some_append pre (y ∷ ys) rest) (get_elem?-at pre y _) in
      let later : read_slots elements (length pre + 1) (length ys) ≡ ok ys =
        rw (append_assoc, length-append) at (read_slots-at (pre ++ y ∷ []) ys rest) in
      rw (head, later)

  -- The topmost elements, in the order in which they were pushed.
  pub get_expressions-Holds :
      {s : Stack A} (xs ys : List A) → Holds s (xs ++ ys) → get_expressions s (length ys) ≡ ok ys
  unfolding get_expressions
  get_expressions-Holds {s} xs ys h =
      let tall : s.height ≡ length xs + length ys = h.high ∙ length-append xs ys in
      let start : s.height - length ys ≡ length xs = omega arith in
      rw (start, h.filled, le→ltb (length ys) s.height (omega arith)) (read_slots-at xs ys h.rest)

  pub get_expressions-error :
      {s : Stack A} {xs : List A} (n : ℕ)
      → Holds s xs
      → length xs < n
      → get_expressions s n ≡ err not_enough_items
  unfolding get_expressions
  get_expressions-error {s} n h lt = rw (lt→ltb s.height n (omega (arith, h.high)))

  -- Popping several: the values last pushed, in the order in which they were pushed; the others
  -- stay.
  pub pop_expressions-Holds :
      {s : Stack A} (xs ys : List A)
      → Holds s (xs ++ ys)
      → (s' : Stack A) × (pop_expressions s (length ys) ≡ ok (ys, s')) × Holds s' xs
  unfolding pop_expressions
  pop_expressions-Holds {s} xs ys h = (
    record s { height = s.height - length ys },
    rw (get_expressions-Holds xs ys h),
    record {
      high = omega (arith, h.high, length-append xs ys);
      rest = map some ys ++ h.rest;
      filled = h.filled ∙ map-some_append xs ys h.rest;
    },
  )

  push_slots-Holds :
      (xs : List A) (rest : List (Option A)) (t : Stack A) (ys : List A)
      → Holds t ys
      → (t' : Stack A) × (push_slots (map some xs ++ rest) (length xs) t ≡ ok t')
        × Holds t' (ys ++ xs)
  unfolding push_slots
  push_slots-Holds [] rest t ys h = (t, refl, rw append-nil h)
  push_slots-Holds (x ∷ xs) rest t ys h =
      let (t', ran, held) = push_slots-Holds xs rest (push t x) (ys ++ x ∷ []) (push-Holds x h) in
      (t', ran, rw append_assoc at held)

  -- `PushAllTo` copies the whole stack onto the target, in order, and counts what it copied.
  pub push_all_to-Holds :
      {s t : Stack A} (xs ys : List A)
      → Holds s xs
      → Holds t ys
      → (t' : Stack A) × (push_all_to s t ≡ ok (t', length xs)) × Holds t' (ys ++ xs)
  unfolding push_all_to
  push_all_to-Holds {s} {t} [] ys h k = (t, rw h.high, rw append-nil k)
  push_all_to-Holds {s} {t} (x ∷ xs) ys h k =
      let (t', ran, held) = push_slots-Holds (x ∷ xs) h.rest t ys k in
      (t', rw (h.high, h.filled, ==_ne (suc (length xs)) 0 (omega arith), ran), held)

  copy_elements_lem : (xs : List (Option A)) → copy_elements xs ≡ xs
  unfolding copy_elements
  copy_elements_lem [] = refl
  copy_elements_lem (x ∷ xs) = ap (◌∷◌ x) (copy_elements_lem xs)

  pub clone_lem : (s : Stack A) → clone s ≡ s
  unfolding clone
  clone_lem s = rw (copy_elements_lem s.elements)
