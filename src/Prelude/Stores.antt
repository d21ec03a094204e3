-- ===== src/Prelude/Stores.antt =====
-- A list as a store: what a reference, which is a place in it, leads to behind a write, and behind a
-- new place at its end.
use Prim.Native.Nat.{ℕ, zero, suc, ◌<◌}
use mathlib.Core.Path.{◌≡◌, refl}
use mathlib.Core.List.{List, [], ◌∷◌, ◌++◌}
use mathlib.Core.Option.{some}
use native.Mathlib.Omega.{arith}
use glisp.Prelude.Tests.{◌==◌, if◌then◌else◌}
use glisp.Prelude.Lists.{length, get_elem?, set}

module _ {ℓ} {A : Type ℓ} where
  pub get_elem?-lt : (xs : List A) (n : ℕ) {x : A} → get_elem? xs n ≡ some x → n < length xs
  get_elem?-lt [] n e = cc
  get_elem?-lt (y ∷ xs) zero e = omega arith
  get_elem?-lt (y ∷ xs) (suc n) e = omega (arith, get_elem?-lt xs n e)

  pub get_elem?-set :
      (xs : List A) (r q : ℕ) (v : A)
      → r < length xs
      → get_elem? (set xs r v) q ≡ (if r == q then some v else get_elem? xs q)
  get_elem?-set [] r q v h = elim h [ ]
  get_elem?-set (x ∷ xs) zero zero v h = refl
  get_elem?-set (x ∷ xs) zero (suc q) v h = ground arith
  get_elem?-set (x ∷ xs) (suc r) zero v h = ground arith
  get_elem?-set (x ∷ xs) (suc r) (suc q) v h = ground (arith, get_elem?-set xs r q v)

  pub set-set : (xs : List A) (r : ℕ) (v w : A) → set (set xs r v) r w ≡ set xs r w
  set-set [] r v w = refl
  set-set (x ∷ xs) zero v w = refl
  set-set (x ∷ xs) (suc r) v w = cc (set-set xs r v w)

  pub get_elem?-append :
      (xs : List A) (v : A) (q : ℕ) → q < length xs → get_elem? (xs ++ v ∷ []) q ≡ get_elem? xs q
  get_elem?-append [] v q h = elim h [ ]
  get_elem?-append (x ∷ xs) v zero h = refl
  get_elem?-append (x ∷ xs) v (suc q) h = get_elem?-append xs v q (omega arith)

  pub get_elem?-last : (xs : List A) (v : A) → get_elem? (xs ++ v ∷ []) (length xs) ≡ some v
  get_elem?-last [] v = refl
  get_elem?-last (x ∷ xs) v = get_elem?-last xs v
