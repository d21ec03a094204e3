-- ===== src/Hash/Lookup.antt =====
-- `HashSet` and the lookups after it, by what the keys stand for.
use glisp.Prelude.{
  ℤ, pos, eq_ℤ, eq_ℤ_iff, List, [], ◌∷◌, ◌++◌, Option, none, some, if◌then◌else◌, ok, ◌≡◌, ◌≢◌,
  refl, ap, sym, ◌∙◌, Bool-cases, inl, inr,
}
use glisp.Sexp.{Sexp}
use glisp.Numbers.{Floats}
use glisp.Compare.Keys.{KeyId, number, name, text, IsKey, int_key, char_key, symbol_key, str_key}
use glisp.Hash.Defs.{
  Hash, Bucket, bucket_at, put_bucket, fnv32, hash_expression, find_value, hash_get_default, found,
  replace, set_in, hash_set,
}
use glisp.Hash.Buckets.{
  Keyed, Keyed-replace, Keyed-append, bucket_at-put_bucket, find_value-replace, find_value-append,
  find_value-replace_ne, find_value-append_ne,
}

-- The hash value depends only on what the key stands for.
abbrev pub hash_of : KeyId → ℤ
hash_of (number i) = i
hash_of (name n) = pos n
hash_of (text s) = pos (fnv32 2166136261 s)

pub hash_expression-IsKey :
    {key : Sexp} {k : KeyId} → IsKey key k → hash_expression key ≡ ok (hash_of k)
unfolding hash_expression
hash_expression-IsKey (int_key h) = refl
hash_expression-IsKey (char_key h) = refl
hash_expression-IsKey (symbol_key h) = refl
hash_expression-IsKey str_key = refl

-- Every key of the table can be hashed.
abbrev pub AllKeyed : List (ℤ × Bucket) → Type 0
AllKeyed [] = Unit
AllKeyed ((_, arr) ∷ bs) = Keyed arr × AllKeyed bs

abbrev pub KeyedAt : Option Bucket → Type 0
KeyedAt none = Unit
KeyedAt (some arr) = Keyed arr

pub bucket_at-KeyedAt : (n : ℤ) (bs : List (ℤ × Bucket)) → AllKeyed bs → KeyedAt (bucket_at n bs)
unfolding bucket_at
bucket_at-KeyedAt n [] keyed = tt
bucket_at-KeyedAt n ((m, arr) ∷ bs) (here, later) = elim (Bool-cases (eq_ℤ m n)) [
  | inl same ↦ rw same here
  | inr differ ↦ rw differ (bucket_at-KeyedAt n bs later)
]

pub put_bucket-AllKeyed :
    (n : ℤ) (arr : Bucket) (bs : List (ℤ × Bucket))
    → Keyed arr
    → AllKeyed bs
    → AllKeyed (put_bucket n arr bs)
unfolding put_bucket
put_bucket-AllKeyed n arr [] new keyed = (new, tt)
put_bucket-AllKeyed n arr ((m, old) ∷ bs) new (here, later) = elim (Bool-cases (eq_ℤ m n)) [
  | inl same ↦ rw same (new, later)
  | inr differ ↦ rw differ (here, put_bucket-AllKeyed n arr bs new later)
]

-- What a lookup gives in a bucket that may not be there.
abbrev pub found_in : Floats → Sexp → Option Bucket → Sexp → Sexp
found_in f key none default = default
found_in f key (some arr) default = find_value f key arr default

module _ (f : Floats) where
  pub get_lem :
      {key : Sexp} {k : KeyId} (h : Hash) (default : Sexp)
      → IsKey key k
      → hash_get_default f h key default
        ≡ ok (found_in f key (bucket_at (hash_of k) h.buckets) default)
  unfolding hash_get_default
  get_lem {key} {k} h default is_key =
      rw (hash_expression-IsKey is_key) (go (bucket_at (hash_of k) h.buckets))
    where
      go :
          (o : Option Bucket)
          → (elim o [ none ↦ ok default | some arr ↦ ok (find_value f key arr default) ])
            ≡ ok (found_in f key o default)
      go none = refl
      go (some arr) = refl

  module _ {key : Sexp} {k : KeyId} (is_key : IsKey key k) where
    pub set_lem :
        (h : Hash) (val : Sexp)
        → hash_set f h key val
          ≡ ok (set_in f h key val (hash_of k) (bucket_at (hash_of k) h.buckets))
    unfolding hash_set
    set_lem h val = rw (hash_expression-IsKey is_key)

    -- The bucket of a key after the table was written at another key, or at this one.
    bucket_of_set :
        (h : Hash) (val : Sexp) (o : Option Bucket) (n : ℤ)
        → bucket_at n (set_in f h key val (hash_of k) o).buckets ≡ (
            if eq_ℤ (hash_of k) n
            then some (elim o [
              | none ↦ (key, val) ∷ []
              | some arr ↦
                  if found f key arr
                  then replace f key val arr
                  else replace f key val arr ++ (key, val) ∷ []
            ])
            else bucket_at n h.buckets)
    unfolding set_in
    bucket_of_set h val none n = bucket_at-put_bucket n (hash_of k) _ h.buckets
    bucket_of_set h val (some arr) n = elim (Bool-cases (found f key arr)) [
      | inl old ↦ rw old (bucket_at-put_bucket n (hash_of k) _ h.buckets)
      | inr new ↦ rw new (bucket_at-put_bucket n (hash_of k) _ h.buckets)
    ]

    Keyed-set_in :
        (val : Sexp) (o : Option Bucket)
        → KeyedAt o
        → (h : Hash) → AllKeyed h.buckets
        → AllKeyed (set_in f h key val (hash_of k) o).buckets
    unfolding set_in
    Keyed-set_in val none at h keyed =
        put_bucket-AllKeyed (hash_of k) _ h.buckets ((k, is_key), tt) keyed
    Keyed-set_in val (some arr) at h keyed = elim (Bool-cases (found f key arr)) [
      | inl old ↦
          rw old
            (put_bucket-AllKeyed (hash_of k) _ h.buckets (Keyed-replace f val arr is_key at) keyed)
      | inr new ↦ rw new (
          put_bucket-AllKeyed (hash_of k) _ h.buckets
            (Keyed-append f val _ is_key (Keyed-replace f val arr is_key at)) keyed)
    ]

  module _ {key other : Sexp} {k : KeyId} (is_key : IsKey key k) (is_other : IsKey other k) where
    get_same :
        (h : Hash) (val default : Sexp) (o : Option Bucket)
        → KeyedAt o
        → found_in f other
            (bucket_at (hash_of k) (set_in f h key val (hash_of k) o).buckets)
            default
          ≡ val
    unfolding found replace
    get_same h val default none at =
        rw (bucket_of_set is_key h val none (hash_of k), (eq_ℤ_iff (hash_of k) (hash_of k)).1 refl)
          (find_value-append f is_key is_other val default [] tt refl)
    get_same h val default (some arr) at =
        rw
          (
            bucket_of_set is_key h val (some arr) (hash_of k),
            (eq_ℤ_iff (hash_of k) (hash_of k)).1 refl,
          )
          (elim (Bool-cases (found f key arr)) [
            | inl old ↦ rw old (find_value-replace f is_key is_other val default arr at old)
            | inr new ↦ rw new (find_value-append f is_key is_other val default arr at new)
          ])

  module _ {key other : Sexp} {k j : KeyId} (is_key : IsKey key k) (is_other : IsKey other j)
      (ne : k ≢ j) where
    -- In the bucket that is written, the other key's value stays.
    found_in_ne :
        (val default : Sexp) (o : Option Bucket)
        → KeyedAt o
        → found_in f other
            (some (elim o [
              | none ↦ (key, val) ∷ []
              | some arr ↦
                  if found f key arr
                  then replace f key val arr
                  else replace f key val arr ++ (key, val) ∷ []
            ]))
            default
          ≡ found_in f other o default
    unfolding find_value replace
    found_in_ne val default none at = find_value-append_ne f is_key is_other ne val default [] tt
    found_in_ne val default (some arr) at = elim (Bool-cases (found f key arr)) [
      | inl old ↦ rw old (find_value-replace_ne f is_key is_other ne val default arr at)
      | inr new ↦ rw new (find_value-append_ne f is_key is_other ne val default arr at)
    ]

    get_other :
        (h : Hash) (val default : Sexp)
        → AllKeyed h.buckets
        → found_in f other
            (bucket_at
              (hash_of j)
              (set_in f h key val (hash_of k) (bucket_at (hash_of k) h.buckets)).buckets)
            default
          ≡ found_in f other (bucket_at (hash_of j) h.buckets) default
    get_other h val default keyed =
        rw (bucket_of_set is_key h val (bucket_at (hash_of k) h.buckets) (hash_of j))
          (elim (Bool-cases (eq_ℤ (hash_of k) (hash_of j))) [
            | inl same ↦ rw same (
                rw (← (eq_ℤ_iff (hash_of k) (hash_of j)).0 same)
                  (found_in_ne val default _ (bucket_at-KeyedAt (hash_of k) h.buckets keyed)))
            | inr differ ↦ rw differ
          ])

  -- In a table all of whose keys can be hashed, `HashSet` at a key that can be hashed succeeds.
  -- Afterwards every key that stands for the same thing has the new value, and all keys of the
  -- table can still be hashed.
  pub hash_set-same :
      {key other : Sexp} {k : KeyId} (h : Hash) (val default : Sexp)
      → IsKey key k
      → IsKey other k
      → AllKeyed h.buckets
      → (h' : Hash) × (hash_set f h key val ≡ ok h')
        × AllKeyed h'.buckets
        × (hash_get_default f h' other default ≡ ok val)
  hash_set-same {key} {other} {k} h val default is_key is_other keyed =
      let o = bucket_at (hash_of k) h.buckets in
      let at = bucket_at-KeyedAt (hash_of k) h.buckets keyed in
      (
        set_in f h key val (hash_of k) o,
        set_lem is_key h val,
        Keyed-set_in is_key val o at h keyed,
        get_lem _ default is_other ∙ ap ok (get_same is_key is_other h val default o at),
      )

  -- In a table all of whose keys can be hashed, `HashSet` at one key leaves the lookup of every
  -- key that stands for something else, also of one in the same bucket.
  pub hash_set-other :
      {key other : Sexp} {k j : KeyId} (h : Hash) (val default : Sexp)
      → IsKey key k
      → IsKey other j
      → k ≢ j
      → AllKeyed h.buckets
      → (h' : Hash) × (hash_set f h key val ≡ ok h')
        × (hash_get_default f h' other default ≡ hash_get_default f h other default)
  hash_set-other {key} {other} {k} h val default is_key is_other ne keyed = (
    set_in f h key val (hash_of k) (bucket_at (hash_of k) h.buckets),
    set_lem is_key h val,
    get_lem _ default is_other
        ∙ ap ok (get_other is_key is_other ne h val default keyed)
        ∙ sym (get_lem h default is_other),
  )
