-- ===== src/Hash/Deletion.antt =====
-- What `HashDelete` does to the pairs and to the counter.
use glisp.Prelude.{ℕ, suc, pos, eq_ℤ, ◌-ℤ◌, true, false, none, some, ok, panic, ◌≡◌, refl, arith}
use glisp.Sexp.{Sexp}
use glisp.Numbers.{Floats}
use glisp.Compare.Keys.{KeyId, IsKey}
use glisp.Hash.Defs.{
  Hash, Bucket, bucket_at, put_bucket, total, found, cut, delete_in, hash_delete, hash_count_keys,
}
use glisp.Hash.Buckets.{total-put_bucket, length-cut}
use glisp.Hash.Lookup.{hash_of, hash_expression-IsKey}

-- The counter is the number of pairs.
abbrev pub Counts : Hash → Type 0
Counts h = h.num_keys ≡ pos (total h.buckets)

pred_of_suc : (n m : ℕ) → n ≡ suc m → pos n -ℤ pos 1 ≡ pos m
unfolding ◌-ℤ◌
pred_of_suc n m h = ground arith

pred_ne : (n : ℕ) → eq_ℤ (pos n) (pos n -ℤ pos 1) ≡ false
unfolding ◌-ℤ◌
pred_ne n = ground arith

module _ (f : Floats) where
  -- `HashDelete` of a key that is in its bucket, in a table whose counter is the number of its
  -- pairs: one pair goes, the counter stays right, and the order of the keys is left as it was.
  pub hash_delete-found :
      {key : Sexp} {k : KeyId} (h : Hash) (arr : Bucket)
      → IsKey key k
      → bucket_at (hash_of k) h.buckets ≡ some arr
      → found f key arr ≡ true
      → Counts h
      → (h' : Hash) × (hash_delete f h key ≡ ok h')
        × Counts h'
        × (total h.buckets ≡ suc (total h'.buckets))
        × (h'.key_order ≡ h.key_order)
  unfolding hash_delete delete_in
  hash_delete-found {key} {k} h arr is_key at there c =
      let fewer : total h.buckets ≡ suc (total (put_bucket (hash_of k) (cut f key arr) h.buckets)) =
        omega (
          arith,
          rw at at (total-put_bucket (hash_of k) (cut f key arr) h.buckets),
          length-cut f key arr there,
        ) in
      (
        record h {
          buckets = put_bucket (hash_of k) (cut f key arr) h.buckets;
          num_keys = h.num_keys -ℤ pos 1;
        },
        rw (hash_expression-IsKey is_key, at, there) refl,
        rw c (pred_of_suc _ _ fewer),
        fewer,
        refl,
      )

  -- `HashDelete` of a key that is not in the table although its bucket is, where the counter is
  -- the number of the pairs: the counter still goes down, and the next count of the keys panics.
  pub hash_delete_absent :
      {key : Sexp} {k : KeyId} (h : Hash) (arr : Bucket)
      → IsKey key k
      → bucket_at (hash_of k) h.buckets ≡ some arr
      → found f key arr ≡ false
      → Counts h
      → (h' : Hash) × (hash_delete f h key ≡ ok h') × (hash_count_keys h' ≡ panic)
  unfolding hash_delete delete_in hash_count_keys
  hash_delete_absent {key} {k} h arr is_key at absent c = (
    record h { num_keys = h.num_keys -ℤ pos 1 },
    rw (hash_expression-IsKey is_key, at, absent) refl,
    rw (c, pred_ne (total h.buckets)) refl,
  )

  -- A key without a bucket: nothing changes.
  pub hash_delete_no_bucket :
      {key : Sexp} {k : KeyId} (h : Hash)
      → IsKey key k
      → bucket_at (hash_of k) h.buckets ≡ none
      → hash_delete f h key ≡ ok h
  unfolding hash_delete delete_in
  hash_delete_no_bucket h is_key at = rw (hash_expression-IsKey is_key, at) refl
