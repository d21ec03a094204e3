-- ===== src/Hash/Counting.antt =====
-- The counter and the order of the keys, in `HashSet` and `MakeHash`.
use glisp.Prelude.{
  ℕ, ◌+◌, ℤ, pos, eq_ℤ_iff, ◌+ℤ◌, true, List, [], ◌∷◌, ◌++◌, Option, none, some, length,
  length-append, ok, >>=-eq-ok, ◌≡◌, refl, ap, sym, ◌∙◌, arith, Bool-cases, inl, inr, ◌↔◌, Bytes,
  ◌%◌, ◌==◌, not,
}
use glisp.Sexp.{Sexp}
use glisp.Numbers.{Floats}
use glisp.Hash.Defs.{
  Hash, Bucket, bucket_at, put_bucket, total, hash_expression, found, replace, set_in, hash_set,
  empty_hash, hash_count_keys, hash_is_empty, set_pairs, make_hash,
}
use glisp.Hash.Buckets.{size_of, total-put_bucket, length-replace, all_empty-total, total-all_empty}

-- The counter is the number of pairs, and the order names as many keys.
pub record IsCounted (h : Hash) : Type 0 where
  pub counter : h.num_keys ≡ pos (total h.buckets)
  pub ordered : length h.key_order ≡ total h.buckets

pos_suc : (n : ℕ) → pos n +ℤ pos 1 ≡ pos (n + 1)
unfolding ◌+ℤ◌
pos_suc n = ground arith

pos_injective : {m n : ℕ} → pos m ≡ pos n → m ≡ n
pos_injective e = cc e

pub hash_count_keys-IsCounted :
    {h : Hash} → IsCounted h → hash_count_keys h ≡ ok (length h.key_order)
unfolding hash_count_keys
hash_count_keys-IsCounted {h} c =
    rw (c.counter, (eq_ℤ_iff (pos (total h.buckets)) (pos (total h.buckets))).1 refl, c.ordered)

ok_injective : {h h' : Hash} → ok h ≡ ok h' → h ≡ h'
ok_injective e = cc e

pub empty_hash-IsCounted : (typename : Bytes) → IsCounted (empty_hash typename)
unfolding empty_hash total
empty_hash-IsCounted typename = record { counter = refl; ordered = refl }

-- A table is empty for `HashIsEmpty` exactly when its counter is 0.
pub hash_is_empty_iff : {h : Hash} → IsCounted h → (hash_is_empty h ≡ true) ↔ (h.num_keys ≡ pos 0)
unfolding hash_is_empty
hash_is_empty_iff {h} c = (
  λ e. c.counter ∙ ap pos (all_empty-total h.buckets e),
  λ z. total-all_empty h.buckets (pos_injective (sym c.counter ∙ z)),
)

module _ (f : Floats) where
  grown :
      (h : Hash) (key : Sexp) (n : ℤ) (arr : Bucket)
      → IsCounted h
      → length arr ≡ size_of (bucket_at n h.buckets) + 1
      → IsCounted (record h {
        buckets = put_bucket n arr h.buckets;
        key_order = h.key_order ++ key ∷ [];
        num_keys = h.num_keys +ℤ pos 1;
      })
  grown h key n arr c longer =
      let more : total (put_bucket n arr h.buckets) ≡ total h.buckets + 1 =
        omega (arith, total-put_bucket n arr h.buckets) in
      record {
        counter = rw c.counter (pos_suc (total h.buckets) ∙ ap pos (sym more));
        ordered = omega (arith, length-append h.key_order (key ∷ []), c.ordered);
      }

  set_in-IsCounted :
      (h : Hash) (key val : Sexp) (n : ℤ) (o : Option Bucket)
      → bucket_at n h.buckets ≡ o
      → IsCounted h
      → IsCounted (set_in f h key val n o)
  unfolding set_in
  set_in-IsCounted h key val n none e c = grown h key n ((key, val) ∷ []) c (rw e (omega arith))
  set_in-IsCounted h key val n (some arr) e c = elim (Bool-cases (found f key arr)) [
    | inl old ↦
        let same : total (put_bucket n (replace f key val arr) h.buckets) ≡ total h.buckets =
          omega (
            arith,
            rw e at (total-put_bucket n (replace f key val arr) h.buckets),
            length-replace f key val arr,
          ) in
        rw old
          (record { counter = c.counter ∙ ap pos (sym same); ordered = omega (arith, c.ordered) })
    | inr new ↦ rw new (
        grown h key n (replace f key val arr ++ (key, val) ∷ []) c (
          rw e (
            omega (
              arith,
              length-append (replace f key val arr) ((key, val) ∷ []),
              length-replace f key val arr,
            ))))
  ]

  -- Where `HashSet` succeeds on a table whose counter is the number of its pairs and whose order
  -- has as many keys, it keeps both right.
  pub hash_set-IsCounted :
      (h : Hash) (key val : Sexp) {h' : Hash}
      → IsCounted h
      → hash_set f h key val ≡ ok h'
      → IsCounted h'
  unfolding hash_set
  hash_set-IsCounted h key val {h'} c e =
      let (n, _, r) = >>=-eq-ok (hash_expression key) _ e in
      let made : set_in f h key val n (bucket_at n h.buckets) ≡ h' = cc r in
      rw made at (set_in-IsCounted h key val n (bucket_at n h.buckets) refl c)

  set_pairs-IsCounted :
      (args : List Sexp) (h : Hash) {h' : Hash}
      → IsCounted h
      → set_pairs f h args ≡ ok h'
      → IsCounted h'
  unfolding set_pairs
  set_pairs-IsCounted [] h c e = rw (ok_injective e) at c
  set_pairs-IsCounted (x ∷ []) h c e = rw (ok_injective e) at c
  set_pairs-IsCounted (key ∷ val ∷ args) h c e =
      let (next, r, later) = >>=-eq-ok (hash_set f h key val) (λ h'. set_pairs f h' args) e in
      set_pairs-IsCounted args next (hash_set-IsCounted h key val c r) later

  -- A table that `MakeHash` returns can be counted, and has as many keys as its order names.
  pub make_hash-count :
      (args : List Sexp) (typename : Bytes) {h : Hash}
      → make_hash f args typename ≡ ok h
      → IsCounted h × (hash_count_keys h ≡ ok (length h.key_order))
  unfolding make_hash
  make_hash-count args typename {h} e = elim (Bool-cases (not (length args % 2 == 0))) [
    | inl odd ↦ cc (rw odd at e)
    | inr even ↦
        let c : IsCounted h =
          set_pairs-IsCounted args (empty_hash typename) (empty_hash-IsCounted typename)
            (rw even at e) in
        (c, hash_count_keys-IsCounted c)
  ]
