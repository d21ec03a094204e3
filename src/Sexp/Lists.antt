-- ===== src/Sexp/Lists.antt =====
-- `MakeList`, `ListToArray`, `AppendList`, `ConcatList` and `WalkList` of listutils.go.
use glisp.Prelude.{
  List, [], ◌∷◌, ◌++◌, true, not, ◌≡◌, refl, ap, arith, Outcome, ok, err, panic, ◌>>=◌, not_a_list,
  first_not_a_list, if◌then◌else◌,
}
use glisp.Sexp.Values.{Sexp, pair, sentinel, null, sexp_null}
use glisp.Sexp.Kinds.{is_list}

unfoldable pub make_list : List Sexp → Sexp
make_list [] = sexp_null
make_list (x ∷ xs) = pair x (make_list xs)

-- The loop of `ListToArray`, behind its test; `panic` is a failed type assertion.
unfoldable pub collect : Sexp → Outcome (List Sexp)
collect (sentinel null) = ok []
collect (pair h t) = do arr ← collect t; ok (h ∷ arr)
collect _ = panic

unfoldable pub list_to_array : Sexp → Outcome (List Sexp)
unfolding is_list collect
list_to_array e = let arr = collect e in if not (is_list e) then err not_a_list else arr

-- `AppendList` stops the process where the first argument is no list.
unfoldable pub append_list : Sexp → List Sexp → Outcome Sexp
unfolding is_list collect make_list
append_list e adds =
    let joined = (collect e >>= λ cargs. ok (make_list (cargs ++ adds))) in
    if not (is_list e) then panic else joined

unfoldable pub concat_list : Sexp → Sexp → Sexp → Outcome Sexp
unfolding is_list
concat_list h (sentinel null) b = if not (is_list b) then err not_a_list else ok (pair h b)
concat_list h (pair h' t) b =
    let rest = concat_list h' t b in
    let joined = (rest >>= λ newtail. ok (pair h newtail)) in
    if not (is_list b) then err not_a_list else joined
concat_list h _ b = if not (is_list b) then err not_a_list else err first_not_a_list

-- The values that `WalkList` visits, in order.
unfoldable pub walk_list : Sexp → List Sexp
walk_list (pair h t) = h ∷ walk_list t
walk_list _ = []

pub is_list-make_list : (xs : List Sexp) → is_list (make_list xs) ≡ true
unfolding is_list make_list
is_list-make_list [] = refl
is_list-make_list (x ∷ xs) = is_list-make_list xs

pub collect-make_list : (xs : List Sexp) → collect (make_list xs) ≡ ok xs
unfolding collect make_list
collect-make_list [] = refl
collect-make_list (x ∷ xs) = rw (collect-make_list xs)

-- A list is the list of the values that a walk over it visits.
pub make_list-walk_list : (e : Sexp) → is_list e ≡ true → make_list (walk_list e) ≡ e
unfolding make_list walk_list is_list
make_list-walk_list (pair h t) l = ap (pair h) (make_list-walk_list t l)
make_list-walk_list (sentinel null) l = refl
make_list-walk_list _ l = cc

pub list_to_array-make_list : (xs : List Sexp) → list_to_array (make_list xs) ≡ ok xs
unfolding list_to_array
list_to_array-make_list xs = rw (is_list-make_list xs, collect-make_list xs)

-- `ListToArray` never fails its type assertion: on a list it gives the values of a walk, and on
-- any other value it returns its error.
pub list_to_array_lem :
    (e : Sexp) → list_to_array e ≡ (if is_list e then ok (walk_list e) else err not_a_list)
unfolding list_to_array is_list collect walk_list
list_to_array_lem (pair h t) = ground (arith, list_to_array_lem t)
list_to_array_lem (sentinel null) = refl
list_to_array_lem _ = refl

-- `AppendList` on a list gives the list with the values behind it.
pub append_list-make_list :
    (xs ys : List Sexp) → append_list (make_list xs) ys ≡ ok (make_list (xs ++ ys))
unfolding append_list
append_list-make_list xs ys = rw (is_list-make_list xs, collect-make_list xs)

-- `ConcatList` on two lists appends them, the first not empty.
pub concat_list-make_list :
    (x : Sexp) (xs ys : List Sexp)
    → concat_list x (make_list xs) (make_list ys) ≡ ok (make_list (x ∷ xs ++ ys))
unfolding concat_list make_list
concat_list-make_list x [] ys = rw (is_list-make_list ys)
concat_list-make_list x (y ∷ xs) ys = rw (is_list-make_list ys, concat_list-make_list y xs ys)
