-- ===== src/Builtins/Sequences.antt =====
-- `slice`, `append`, `concat` and `make-data` of functions.go on sequences.
use Prim.Native.Nat.{min}
use glisp.Prelude.{
  ℕ, ◌-◌, ◌≤◌, ◌≡◌, ◌≢◌, >>=-eq-ok, refl, ap, sym, ◌∙◌, leb, pos, true, false, Bytes, codes, List,
  [], ◌∷◌, ◌++◌, map, append-nil, append_assoc, length, take, drop, take-append-drop, length-take,
  length-drop, arith, ok, ◌>>=◌,
}
use glisp.Sexp.{Sexp, sentinel, null, pair, int, str, is_list, make_list, concat_list-make_list}
use glisp.Hash.{Hash}
use glisp.Builtins.Arguments.{int_argument, coalesces, kept}
use glisp.Builtins.Access.{slice_of, slice_function}
use glisp.Builtins.Encoding.{make_data}
use glisp.Builtins.Joins.{concat_pair, join_all, concat_str, concat_to, concat_function}

le→leb : (a b : ℕ) → a ≤ b → leb a b ≡ true
le→leb a b h = ground arith

take_all : (d : Bytes) → take (length d) d ≡ d
take_all [] = refl
take_all (c ∷ d) = ap (◌∷◌ c) (take_all d)

kept_plain : (hashes : List Hash) (args : List Sexp) → kept hashes false args ≡ args
unfolding kept
kept_plain hashes [] = refl
kept_plain hashes (arg ∷ args) = ap (◌∷◌ arg) (kept_plain hashes args)

-- The two parts of a text before and behind a place in it are slices, and `concat` joins them to
-- the text.
pub slice-concat :
    (items : List Sexp) (bytes : Bytes) (hashes : List Hash) (s : Bytes) (i : ℕ)
    → i ≤ length s
    → (a b : Bytes) × (slice_function items bytes
          (codes "slice")
          (str s ∷ int (pos 0) ∷ int (pos i) ∷ [])
        ≡ ok (str a))
      × (slice_function items bytes
            (codes "slice")
            (str s ∷ int (pos i) ∷ int (pos (length s)) ∷ [])
          ≡ ok (str b))
      × (concat_function hashes (codes "concat") (str a ∷ str b ∷ []) ≡ ok (str s))
      × (length a ≡ i)
unfolding slice_function int_argument slice_of concat_function coalesces concat_to join_all
    concat_str
slice-concat items bytes hashes s i h =
    let low : leb i (length s) ≡ true = le→leb i (length s) h in
    let all : drop i s ≡ take (length s - i) (drop i s) =
      sym (take_all (drop i s)) ∙ ap (λ k. take k (drop i s)) (length-drop i s) in
    let whole : i - 0 ≡ i = omega arith in
    let part : min i (length s) ≡ i = omega arith in
    (
      take i s,
      drop i s,
      rw (append-nil s, le→leb 0 i (omega arith), low) (ap (λ k. ok (str (take k s))) whole),
      rw (append-nil s, low, le→leb (length s) (length s) (omega arith))
          (ap (λ b. ok (str b)) (sym all)),
      ap (λ t. ok (str t)) (take-append-drop i s),
      length-take i s ∙ part,
    )

abbrev pub flatten : List (List Sexp) → List Sexp
flatten [] = []
flatten (xs ∷ xss) = xs ++ flatten xss

concat_first :
    (x : Sexp) (xs ys : List Sexp)
    → concat_pair (make_list (x ∷ xs)) (make_list ys) ≡ ok (make_list (x ∷ (xs ++ ys)))
unfolding make_list
concat_first x xs ys = concat_list-make_list x xs ys

concat_pair-lists :
    (x : Sexp) (xs : List Sexp) (yss : List (List Sexp))
    → join_all concat_pair (make_list (x ∷ xs)) (map make_list yss)
      ≡ ok (make_list (x ∷ (xs ++ flatten yss)))
unfolding join_all
concat_pair-lists x xs [] = ap (λ zs. ok (make_list (x ∷ zs))) (sym (append-nil xs))
concat_pair-lists x xs (ys ∷ yss) =
    ap (λ m. m >>= λ t. join_all concat_pair t (map make_list yss)) (concat_first x xs ys)
    ∙ concat_pair-lists x (xs ++ ys) yss
    ∙ ap (λ zs. ok (make_list (x ∷ zs))) (append_assoc xs ys (flatten yss))

-- `concat` on two lists or more gives the list of all their values, in order, if the first is not
-- empty.
pub concat_function-lists :
    (hashes : List Hash) (x : Sexp) (xs ys : List Sexp) (yss : List (List Sexp))
    → concat_function hashes (codes "concat") (make_list (x ∷ xs) ∷ map make_list (ys ∷ yss))
      ≡ ok (make_list (x ∷ (xs ++ flatten (ys ∷ yss))))
unfolding concat_function coalesces concat_to make_list
concat_function-lists hashes x xs ys yss =
    rw (kept_plain hashes (map make_list yss)) (concat_pair-lists x xs (ys ∷ yss))

-- `make-data` gives no data for a list that is not empty, whatever its values: it fails at the null
-- behind the last one at the latest.
pub make_data_never_list : (h t : Sexp) (d : Bytes) → is_list t ≡ true → make_data (pair h t) ≢ ok d
unfolding make_data is_list
make_data_never_list h (sentinel null) d l =
    λ same. let (head, _, failed) = >>=-eq-ok (make_data h) _ same in cc
make_data_never_list h (pair h' t') d l = λ same.
    let (head, _, ran) = >>=-eq-ok (make_data h) _ same in
    let (tail, made, _) = >>=-eq-ok (make_data (pair h' t')) _ ran in
    make_data_never_list h' t' tail l made
make_data_never_list h _ d l = λ same. cc
