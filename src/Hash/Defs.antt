-- ===== src/Hash/Defs.antt =====
-- hashutils.go. What the pointers of a `SexpHash` lead to is a record here, and a method returns
-- the new one. The Go map is an association list: no operation modelled depends on its order.
use Prim.Native.Nat.{bit_xor}
use glisp.Prelude.{
  ℕ, ◌+◌, ◌*◌, ◌%◌, ◌^◌, ◌==◌, ltb, ℤ, pos, ◌+ℤ◌, ◌-ℤ◌, eq_ℤ, Bool, true, false, not, Bytes, List,
  [], ◌∷◌, ◌++◌, Option, none, some, length, if◌then◌else◌, Outcome, ok, err, panic, ◌>>=◌,
  cannot_hash, odd_arguments, key_order_not_array,
}
use glisp.Sexp.{Sexp, sentinel, end, array, int, char, symbol, str, sexp_null, is_sentinel, to_list}
use glisp.Numbers.{Floats}
use glisp.Compare.{compare}
use glisp.Compare.Keys.{is_match}

abbrev pub Bucket : Type 0
Bucket = List (Sexp × Sexp)

pub record Hash : Type 0 where
  pub type_name : Bytes
  pub buckets : List (ℤ × Bucket)
  pub key_order : List Sexp
  pub num_keys : ℤ

-- `fnv.New32`, `Write` and `Sum32`: the 32-bit FNV-1 hash.
unfoldable pub fnv32 : ℕ → Bytes → ℕ
fnv32 h [] = h
fnv32 h (c ∷ cs) = fnv32 (bit_xor (h * 16777619 % 2 ^ 32) c) cs

unfoldable pub hash_expression : Sexp → Outcome ℤ
unfolding fnv32
hash_expression (int i) = ok i
hash_expression (char c) = ok c
hash_expression (symbol s) = ok (pos s.number)
hash_expression (str s) = ok (pos (fnv32 2166136261 s))
hash_expression _ = err cannot_hash

-- `hash.Map[hashval]`, read and written.
unfoldable pub bucket_at : ℤ → List (ℤ × Bucket) → Option Bucket
bucket_at n [] = none
bucket_at n ((m, arr) ∷ bs) = if eq_ℤ m n then some arr else bucket_at n bs

unfoldable pub put_bucket : ℤ → Bucket → List (ℤ × Bucket) → List (ℤ × Bucket)
put_bucket n arr [] = (n, arr) ∷ []
put_bucket n arr ((m, old) ∷ bs) =
    if eq_ℤ m n then (m, arr) ∷ bs else (m, old) ∷ put_bucket n arr bs

unfoldable pub total : List (ℤ × Bucket) → ℕ
total [] = 0
total ((_, arr) ∷ bs) = length arr + total bs

unfoldable pub all_empty : List (ℤ × Bucket) → Bool
all_empty [] = true
all_empty ((_, arr) ∷ bs) = if ltb 0 (length arr) then false else all_empty bs

unfoldable pub hash_is_empty : Hash → Bool
unfolding all_empty
hash_is_empty h = all_empty h.buckets

unfoldable pub empty_hash : Bytes → Hash
empty_hash typename = record {
  type_name = typename;
  buckets = [];
  key_order = [];
  num_keys = pos 0;
}

unfoldable pub hash_count_keys : Hash → Outcome ℕ
unfolding total
hash_count_keys h = let num = total h.buckets in if eq_ℤ (pos num) h.num_keys then ok num else panic

-- The order of the keys is left as it is.
unfoldable pub clear : Hash → Hash
clear h = record h { buckets = []; num_keys = pos 0 }

unfoldable pub set_hash_key_order : Hash → Sexp → Outcome Hash
set_hash_key_order h (array keys) = ok (record h { key_order = to_list keys })
set_hash_key_order h _ = err key_order_not_array

module _ (f : Floats) where
  -- The loop of `HashGetDefault`: the value of the first pair that matches.
  unfoldable pub find_value : Sexp → Bucket → Sexp → Sexp
  find_value key [] default = default
  find_value key ((head, tail) ∷ arr) default =
      if is_match (compare f head key) then tail else find_value key arr default

  unfoldable pub hash_get_default : Hash → Sexp → Sexp → Outcome Sexp
  unfolding hash_expression bucket_at find_value
  hash_get_default h key default = do
    hashval ← hash_expression key
    elim (bucket_at hashval h.buckets) [
      | none ↦ ok default
      | some arr ↦ ok (find_value key arr default)
    ]

  unfoldable pub hash_get : Hash → Sexp → Outcome Sexp
  unfolding hash_get_default
  hash_get h key = do
    val ← hash_get_default h key (sentinel end)
    ok (if is_sentinel end val then sexp_null else val)

  -- The loop of `HashSet`: every pair that matches is replaced, and `found` says if one did.
  unfoldable pub replace : Sexp → Sexp → Bucket → Bucket
  replace key val [] = []
  replace key val ((head, tail) ∷ arr) =
      (if is_match (compare f head key) then (key, val) else (head, tail)) ∷ replace key val arr

  unfoldable pub found : Sexp → Bucket → Bool
  found key [] = false
  found key ((head, tail) ∷ arr) = if is_match (compare f head key) then true else found key arr

  -- The rest of `HashSet`, on the bucket of the key.
  unfoldable pub set_in : Hash → Sexp → Sexp → ℤ → Option Bucket → Hash
  unfolding put_bucket replace found
  set_in h key val hashval none = record h {
    buckets = put_bucket hashval ((key, val) ∷ []) h.buckets;
    key_order = h.key_order ++ key ∷ [];
    num_keys = h.num_keys +ℤ pos 1;
  }
  set_in h key val hashval (some arr) =
      if found key arr
      then record h { buckets = put_bucket hashval (replace key val arr) h.buckets }
      else record h {
        buckets = put_bucket hashval (replace key val arr ++ (key, val) ∷ []) h.buckets;
        key_order = h.key_order ++ key ∷ [];
        num_keys = h.num_keys +ℤ pos 1;
      }

  unfoldable pub hash_set : Hash → Sexp → Sexp → Outcome Hash
  unfolding hash_expression bucket_at set_in
  hash_set h key val = do
    hashval ← hash_expression key
    ok (set_in h key val hashval (bucket_at hashval h.buckets))

  -- The loop of `HashDelete`: the first pair that matches is cut out.
  unfoldable pub cut : Sexp → Bucket → Bucket
  cut key [] = []
  cut key ((head, tail) ∷ arr) =
      if is_match (compare f head key) then arr else (head, tail) ∷ cut key arr

  unfoldable pub delete_in : Hash → Sexp → ℤ → Option Bucket → Hash
  unfolding put_bucket cut found
  delete_in h key hashval none = h
  delete_in h key hashval (some arr) = record h {
    buckets = if found key arr then put_bucket hashval (cut key arr) h.buckets else h.buckets;
    num_keys = h.num_keys -ℤ pos 1;
  }

  -- The counter goes down whenever the bucket is there, and the order of the keys is left.
  unfoldable pub hash_delete : Hash → Sexp → Outcome Hash
  unfolding hash_expression bucket_at delete_in
  hash_delete h key = do
    hashval ← hash_expression key
    ok (delete_in h key hashval (bucket_at hashval h.buckets))

  -- The loop of `MakeHash`, over an even number of arguments.
  unfoldable pub set_pairs : Hash → List Sexp → Outcome Hash
  unfolding hash_set
  set_pairs h (key ∷ val ∷ args) = hash_set h key val >>= λ h'. set_pairs h' args
  set_pairs h _ = ok h

  unfoldable pub make_hash : List Sexp → Bytes → Outcome Hash
  unfolding set_pairs empty_hash
  make_hash args typename =
      if not (length args % 2 == 0) then err odd_arguments else set_pairs (empty_hash typename) args
