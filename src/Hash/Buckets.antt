-- ===== src/Hash/Buckets.antt =====
-- Laws of the buckets, and of the loops over one bucket.
use glisp.Prelude.{
  ℕ, suc, ◌+◌, ℤ, eq_ℤ, eq_ℤ_iff, true, false, List, [], ◌∷◌, ◌++◌, Option, none, some, length,
  if◌then◌else◌, ◌≡◌, ◌≢◌, refl, ap, sym, ◌∙◌, arith, Bool-cases, inl, inr,
}
use glisp.Sexp.{Sexp}
use glisp.Numbers.{Floats}
use glisp.Compare.{compare}
use glisp.Compare.Keys.{is_match, KeyId, IsKey, is_match-compare}
use glisp.Hash.Defs.{
  Bucket, bucket_at, put_bucket, total, find_value, replace, found, cut, all_empty,
}

pub bucket_at-put_bucket :
    (n m : ℤ) (arr : Bucket) (bs : List (ℤ × Bucket))
    → bucket_at n (put_bucket m arr bs) ≡ (if eq_ℤ m n then some arr else bucket_at n bs)
unfolding bucket_at put_bucket
bucket_at-put_bucket n m arr [] = refl
bucket_at-put_bucket n m arr ((k, old) ∷ bs) =
    ground (arith, eq_ℤ_iff k m, eq_ℤ_iff k n, eq_ℤ_iff m n, bucket_at-put_bucket n m arr bs)

-- How many pairs a bucket has, if it is there.
abbrev pub size_of : Option Bucket → ℕ
size_of none = 0
size_of (some arr) = length arr

pub total-put_bucket :
    (n : ℤ) (arr : Bucket) (bs : List (ℤ × Bucket))
    → total (put_bucket n arr bs) + size_of (bucket_at n bs) ≡ total bs + length arr
unfolding total put_bucket bucket_at
total-put_bucket n arr [] = omega arith
total-put_bucket n arr ((m, old) ∷ bs) = elim (Bool-cases (eq_ℤ m n)) [
  | inl same ↦ rw same (omega arith)
  | inr other ↦ rw other (omega (arith, total-put_bucket n arr bs))
]

pub all_empty-total : (bs : List (ℤ × Bucket)) → all_empty bs ≡ true → total bs ≡ 0
unfolding all_empty total
all_empty-total [] h = refl
all_empty-total ((_, []) ∷ bs) h = omega (arith, all_empty-total bs h)
all_empty-total ((_, x ∷ arr) ∷ bs) h = ground arith

pub total-all_empty : (bs : List (ℤ × Bucket)) → total bs ≡ 0 → all_empty bs ≡ true
unfolding all_empty total
total-all_empty [] h = refl
total-all_empty ((_, []) ∷ bs) h = total-all_empty bs (omega arith)
total-all_empty ((_, x ∷ arr) ∷ bs) h = absurd (omega arith)

-- Every key of the bucket is a key that can be hashed.
abbrev pub Keyed : Bucket → Type 0
Keyed [] = Unit
Keyed ((head, _) ∷ arr) = ((k : KeyId) × IsKey head k) × Keyed arr

module _ (f : Floats) where
  pub length-replace : (key val : Sexp) (arr : Bucket) → length (replace f key val arr) ≡ length arr
  unfolding replace
  length-replace key val [] = refl
  length-replace key val (p ∷ arr) = ap suc (length-replace key val arr)

  pub length-cut :
      (key : Sexp) (arr : Bucket)
      → found f key arr ≡ true
      → suc (length (cut f key arr)) ≡ length arr
  unfolding cut found
  length-cut key [] h = cc
  length-cut key ((head, tail) ∷ arr) h = ground (arith, length-cut key arr)

  -- Two keys that stand for one thing match the same keys of the bucket.
  module _ {key other : Sexp} {k : KeyId} (is_key : IsKey key k) (is_other : IsKey other k) where
    same_match : is_match (compare f key other) ≡ true
    same_match = (is_match-compare f is_key is_other).1 refl

    agree :
        {head : Sexp} {i : KeyId}
        → IsKey head i
        → is_match (compare f head other) ≡ is_match (compare f head key)
    agree {head} is_head =
        let m = is_match-compare f is_head is_key in
        let n = is_match-compare f is_head is_other in
        elim (Bool-cases (is_match (compare f head key))) [
          | inl y ↦ n.1 (m.0 y) ∙ sym y
          | inr z ↦ elim (Bool-cases (is_match (compare f head other))) [
            | inl y ↦ cc (m.1 (n.0 y))
            | inr w ↦ w ∙ sym z
          ]
        ]

    -- After a replacement, or an addition where there was nothing to replace, the value is the
    -- new one.
    pub find_value-replace :
        (val default : Sexp) (arr : Bucket)
        → Keyed arr
        → found f key arr ≡ true
        → find_value f other (replace f key val arr) default ≡ val
    unfolding find_value replace found
    find_value-replace val default [] keyed h = cc
    find_value-replace val default ((head, tail) ∷ arr) ((i, is_head), keyed) h =
        ground (arith, same_match, agree is_head, find_value-replace val default arr keyed)

    pub find_value-append :
        (val default : Sexp) (arr : Bucket)
        → Keyed arr
        → found f key arr ≡ false
        → find_value f other (replace f key val arr ++ (key, val) ∷ []) default ≡ val
    unfolding find_value replace found
    find_value-append val default [] keyed h = ground (arith, same_match)
    find_value-append val default ((head, tail) ∷ arr) ((i, is_head), keyed) h =
        ground (arith, agree is_head, find_value-append val default arr keyed)

    -- A bucket without the key gives the default for it.
    pub find_value-not_found :
        (default : Sexp) (arr : Bucket)
        → Keyed arr
        → found f key arr ≡ false
        → find_value f other arr default ≡ default
    unfolding find_value found
    find_value-not_found default [] keyed h = refl
    find_value-not_found default ((head, tail) ∷ arr) ((i, is_head), keyed) h =
        ground (arith, agree is_head, find_value-not_found default arr keyed)

  module _ {key other : Sexp} {k j : KeyId} (is_key : IsKey key k) (is_other : IsKey other j)
      (ne : k ≢ j) where
    differs : is_match (compare f key other) ≡ false
    differs = elim (Bool-cases (is_match (compare f key other))) [
      | inl same ↦ absurd (ne ((is_match-compare f is_key is_other).0 same))
      | inr no_match ↦ no_match
    ]

    -- A key of the bucket that matches `key` does not match `other`.
    excludes :
        {head : Sexp} {i : KeyId}
        → IsKey head i
        → is_match (compare f head key) ≡ true
        → is_match (compare f head other) ≡ false
    excludes {head} is_head m = elim (Bool-cases (is_match (compare f head other))) [
      | inl same ↦ absurd (
          ne (
            sym ((is_match-compare f is_head is_key).0 m)
            ∙ (is_match-compare f is_head is_other).0 same))
      | inr no_match ↦ no_match
    ]

    pub find_value-replace_ne :
        (val default : Sexp) (arr : Bucket)
        → Keyed arr
        → find_value f other (replace f key val arr) default ≡ find_value f other arr default
    unfolding find_value replace
    find_value-replace_ne val default [] keyed = refl
    find_value-replace_ne val default ((head, tail) ∷ arr) ((i, is_head), keyed) =
        ground (arith, differs, excludes is_head, find_value-replace_ne val default arr keyed)

    pub find_value-append_ne :
        (val default : Sexp) (arr : Bucket)
        → Keyed arr
        → find_value f other (replace f key val arr ++ (key, val) ∷ []) default
          ≡ find_value f other arr default
    unfolding find_value replace
    find_value-append_ne val default [] keyed = ground (arith, differs)
    find_value-append_ne val default ((head, tail) ∷ arr) ((i, is_head), keyed) =
        ground (arith, differs, excludes is_head, find_value-append_ne val default arr keyed)

    pub find_value-cut_ne :
        (default : Sexp) (arr : Bucket)
        → Keyed arr
        → find_value f other (cut f key arr) default ≡ find_value f other arr default
    unfolding find_value cut
    find_value-cut_ne default [] keyed = refl
    find_value-cut_ne default ((head, tail) ∷ arr) ((i, is_head), keyed) =
        ground (arith, excludes is_head, find_value-cut_ne default arr keyed)

  pub Keyed-replace :
      {key : Sexp} {k : KeyId} (val : Sexp) (arr : Bucket)
      → IsKey key k
      → Keyed arr
      → Keyed (replace f key val arr)
  unfolding replace
  Keyed-replace val [] is_key keyed = tt
  Keyed-replace {key} {k} val ((head, tail) ∷ arr) is_key (is_head, keyed) =
      elim (Bool-cases (is_match (compare f head key))) [
        | inl m ↦ rw m ((k, is_key), Keyed-replace val arr is_key keyed)
        | inr m ↦ rw m (is_head, Keyed-replace val arr is_key keyed)
      ]

  pub Keyed-append :
      {key : Sexp} {k : KeyId} (val : Sexp) (arr : Bucket)
      → IsKey key k
      → Keyed arr
      → Keyed (arr ++ (key, val) ∷ [])
  Keyed-append {k} val [] is_key keyed = ((k, is_key), tt)
  Keyed-append val (p ∷ arr) is_key (is_head, keyed) = (is_head, Keyed-append val arr is_key keyed)

  pub Keyed-cut : (key : Sexp) (arr : Bucket) → Keyed arr → Keyed (cut f key arr)
  unfolding cut
  Keyed-cut key [] keyed = tt
  Keyed-cut key ((head, tail) ∷ arr) (is_head, keyed) =
      elim (Bool-cases (is_match (compare f head key))) [
        | inl m ↦ rw m keyed
        | inr m ↦ rw m (is_head, Keyed-cut key arr keyed)
      ]
