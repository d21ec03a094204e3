-- ===== src/Stack/Tests.antt =====
-- The array stack at concrete values.
use glisp.Prelude.{ℕ, [], ◌∷◌, ok, ◌≡◌, refl}
use glisp.Stack.Array.{Stack, new_stack, push, pop}
use glisp.Stack.Refines.{Holds, new_stack-Holds, push-Holds, pop-Holds}

-- The second push finds the array full.
abbrev two : Stack ℕ
two = push (push (new_stack 1) 5) 7

two-Holds : Holds two (5 ∷ 7 ∷ [])
two-Holds = push-Holds 7 (push-Holds 5 (new_stack-Holds 1))

two_height : two.height ≡ 2
unfolding push new_stack
two_height = refl

push-Holds_example : Holds (push two 9) (5 ∷ 7 ∷ 9 ∷ [])
push-Holds_example = push-Holds 9 two-Holds

pop-Holds_example : (s' : Stack ℕ) × (pop two ≡ ok (7, s')) × Holds s' (5 ∷ [])
pop-Holds_example = pop-Holds (5 ∷ []) 7 two-Holds
