-- ===== src/Stack/Array.antt =====
-- The stack as the source keeps it: an array that may be longer than the stack is high, and the
-- height, which is the field `tos` plus one. A slot that was never written is `none`.
use glisp.Prelude.{
  ℕ, zero, suc, ◌+◌, ◌-◌, Bool, List, [], ◌∷◌, ◌++◌, Option, none, some, ltb, ◌==◌, if◌then◌else◌,
  length, get_elem?, set, replicate, Outcome, ok, err, panic, ◌>>=◌, invalid_stack_access,
  not_enough_items,
}

pub record Stack {ℓ} (A : Type ℓ) : Type ℓ where
  pub height : ℕ
  pub elements : List (Option A)

module _ {ℓ} {A : Type ℓ} where
  -- `NewStack`.
  unfoldable pub new_stack : ℕ → Stack A
  new_stack size = record { height = 0; elements = replicate size none }

  -- The copying loop of `Clone`.
  unfoldable pub copy_elements : List (Option A) → List (Option A)
  copy_elements [] = []
  copy_elements (x ∷ xs) = x ∷ copy_elements xs

  unfoldable pub clone : Stack A → Stack A
  unfolding copy_elements
  clone s = record { height = s.height; elements = copy_elements s.elements }

  unfoldable pub is_empty : Stack A → Bool
  is_empty s = s.height == 0

  -- `Push` grows the array only where it is full.
  unfoldable pub push : Stack A → A → Stack A
  push s x = record {
    height = s.height + 1;
    elements =
        if s.height == length s.elements
        then s.elements ++ some x ∷ []
        else set s.elements s.height (some x);
  }

  -- A type assertion on a slot that was never written panics, and so does an index out of range.
  unfoldable pub slot : Option (Option A) → Outcome A
  slot (some (some x)) = ok x
  slot _ = panic

  -- `Get`: the element `n` places below the top.
  unfoldable pub get : Stack A → ℕ → Outcome A
  unfolding slot
  get s n =
      if ltb s.height (n + 1)
      then err invalid_stack_access
      else slot (get_elem? s.elements (s.height - 1 - n))

  -- `Pop`, and with a type assertion on the result `PopExpr` and `PopAddr`.
  unfoldable pub pop : Stack A → Outcome (A × Stack A)
  unfolding get
  pop s = do x ← get s 0; ok (x, record s { height = s.height - 1 })

  -- The loop of `GetExpressions`, over `n` slots from `start`.
  unfoldable pub read_slots : List (Option A) → ℕ → ℕ → Outcome (List A)
  unfolding slot
  read_slots elements start zero = ok []
  read_slots elements start (suc n) = slot (get_elem? elements start) >>= λ x.
      read_slots elements (start + 1) n >>= λ xs. ok (x ∷ xs)

  unfoldable pub get_expressions : Stack A → ℕ → Outcome (List A)
  unfolding read_slots
  get_expressions s n =
      if ltb s.height n then err not_enough_items else read_slots s.elements (s.height - n) n

  unfoldable pub pop_expressions : Stack A → ℕ → Outcome (List A × Stack A)
  unfolding get_expressions
  pop_expressions s n = do
    expressions ← get_expressions s n
    ok (expressions, record s { height = s.height - n })

  -- The pushing loop of `PushAllTo`, over the slots up to the top.
  unfoldable pub push_slots : List (Option A) → ℕ → Stack A → Outcome (Stack A)
  unfolding push slot
  push_slots elements zero target = ok target
  push_slots [] (suc n) target = panic
  push_slots (x ∷ xs) (suc n) target = slot (some x) >>= λ v. push_slots xs n (push target v)

  -- `PushAllTo`: the target, and how many elements were pushed.
  unfoldable pub push_all_to : Stack A → Stack A → Outcome (Stack A × ℕ)
  unfolding push_slots
  push_all_to s target =
      if s.height == 0
      then ok (target, 0)
      else (push_slots s.elements s.height target >>= λ t. ok (t, s.height))
