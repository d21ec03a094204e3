-- ===== src/Vm/Iterations.antt =====
-- The iterations beside one another.
use mathlib.Core.List.{reverse, reverse-append}
use glisp.Prelude.{
  List, [], ◌∷◌, ◌++◌, Outcome, ok, err, panic, out_of_fuel, ◌>>=◌, >>=-cong, ◌≡◌, refl, ap, sym,
  ◌∙◌,
}
use glisp.Sexp.{Sexp, make_list}
use glisp.Vm.State.{Env}
use glisp.Vm.Iterate.{Call, foldl_pair, foldr_pair, foldl_array, foldr_array, map_list, map_array}

abbrev pub listed : List Sexp × Env → Outcome (Sexp × Env)
listed (es, env) = ok (make_list es, env)

abbrev paired : Sexp → Sexp × Env → Outcome (Sexp × Env)
paired y (t, env) = ok (Sexp.pair y t, env)

abbrev consed : Sexp → List Sexp × Env → Outcome (List Sexp × Env)
consed y (es, env) = ok (y ∷ es, env)

regrouped :
    (y : Sexp) (m : Outcome (List Sexp × Env))
    → ((m >>= listed) >>= paired y) ≡ ((m >>= consed y) >>= listed)
unfolding make_list
regrouped y (ok m) = refl
regrouped y (err e) = refl
regrouped y panic = refl
regrouped y out_of_fuel = refl

module _ (call : Call) where
  foldl_list :
      (xs : List Sexp) (acc : Sexp) (env : Env)
      → foldl_pair call (make_list xs) acc env ≡ foldl_array call xs acc env
  unfolding foldl_pair foldl_array make_list
  foldl_list [] acc env = refl
  foldl_list (x ∷ xs) acc env =
      >>=-cong (call (x ∷ acc ∷ []) env) _ _ λ (acc', env'). foldl_list xs acc' env'

  foldr_list :
      (xs : List Sexp) (acc : Sexp) (env : Env)
      → foldr_pair call (make_list xs) acc env ≡ foldr_array call xs acc env
  unfolding foldr_pair foldr_array make_list
  foldr_list [] acc env = refl
  foldr_list (x ∷ xs) acc env =
      ap (λ m. m >>= λ (acc', env'). call (x ∷ acc' ∷ []) env') (foldr_list xs acc env)

  -- The folds over a list are those over the array of the same values: the same calls in the same
  -- order, with the same result, errors and panics included, whatever the function does.
  pub folds-make_list :
      (xs : List Sexp) (acc : Sexp) (env : Env)
      → (foldl_pair call (make_list xs) acc env ≡ foldl_array call xs acc env)
        × (foldr_pair call (make_list xs) acc env ≡ foldr_array call xs acc env)
  folds-make_list xs acc env = (foldl_list xs acc env, foldr_list xs acc env)

  -- A map over a list is the map over the array of the same values, its results in a list.
  pub map_list-make_list :
      (xs : List Sexp) (env : Env)
      → map_list call (make_list xs) env ≡ (map_array call xs env >>= listed)
  unfolding map_list map_array make_list
  map_list-make_list [] env = refl
  map_list-make_list (x ∷ xs) env =
      >>=-cong (call (x ∷ []) env) _ _ (λ (y, env₁).
        ap (λ m. m >>= paired y) (map_list-make_list xs env₁)
        ∙ regrouped y (map_array call xs env₁))
      ∙ >>=-assoc (call (x ∷ []) env)
    where
      >>=-assoc :
          (m : Outcome (Sexp × Env))
          → (m >>= λ (y, e). (map_array call xs e >>= consed y) >>= listed)
            ≡ ((m >>= λ (y, e). map_array call xs e >>= consed y) >>= listed)
      >>=-assoc (ok m) = refl
      >>=-assoc (err e) = refl
      >>=-assoc panic = refl
      >>=-assoc out_of_fuel = refl

  pub foldl_array-append :
      (xs ys : List Sexp) (acc : Sexp) (env : Env)
      → foldl_array call (xs ++ ys) acc env
        ≡ foldl_array call xs acc env >>= λ (acc', env'). foldl_array call ys acc' env'
  unfolding foldl_array
  foldl_array-append [] ys acc env = refl
  foldl_array-append (x ∷ xs) ys acc env =
      >>=-cong (call (x ∷ acc ∷ []) env) _ _ (λ (acc', env'). foldl_array-append xs ys acc' env')
      ∙ >>=-assoc (call (x ∷ acc ∷ []) env)
    where
      >>=-assoc :
          (m : Outcome (Sexp × Env))
          → (m >>= λ (a, e). foldl_array call xs a e >>= λ (a', e'). foldl_array call ys a' e')
            ≡ (m >>= λ (a, e). foldl_array call xs a e) >>= λ (a', e'). foldl_array call ys a' e'
      >>=-assoc (ok m) = refl
      >>=-assoc (err e) = refl
      >>=-assoc panic = refl
      >>=-assoc out_of_fuel = refl

  foldl_array-single :
      (x acc : Sexp) (env : Env) → foldl_array call (x ∷ []) acc env ≡ call (x ∷ acc ∷ []) env
  unfolding foldl_array
  foldl_array-single x acc env = unit (call (x ∷ acc ∷ []) env)
    where
      unit : (m : Outcome (Sexp × Env)) → (m >>= λ (a, e). ok (a, e)) ≡ m
      unit (ok m) = refl
      unit (err e) = refl
      unit panic = refl
      unit out_of_fuel = refl

  -- `FoldrArray` is `FoldlArray` over the values in reverse: the calls are made from the last value
  -- to the first.
  pub foldr_array-reverse :
      (xs : List Sexp) (acc : Sexp) (env : Env)
      → foldr_array call xs acc env ≡ foldl_array call (reverse xs) acc env
  unfolding foldr_array foldl_array
  foldr_array-reverse [] acc env = refl
  foldr_array-reverse (x ∷ xs) acc env =
      ap (λ m. m >>= λ (acc', env'). call (x ∷ acc' ∷ []) env') (foldr_array-reverse xs acc env)
      ∙ >>=-cong (foldl_array call (reverse xs) acc env) _ _
          (λ (a, e). sym (foldl_array-single x a e))
      ∙ sym (foldl_array-append (reverse xs) (x ∷ []) acc env)
      ∙ ap (λ l. foldl_array call l acc env) (sym (reverse-append (x ∷ []) xs))
