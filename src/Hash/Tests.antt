-- ===== src/Hash/Tests.antt =====
-- Hash tables at concrete values: a table in which a number and a symbol share a bucket.
use glisp.Prelude.{pos, true, false, codes, [], ◌∷◌, some, ok, ◌≡◌, refl, arith, wrap, ◌-ℤ◌, ◌+ℤ◌}
use glisp.Sexp.{Sexp, int, char, symbol}
use glisp.Numbers.{whole_floats}
use glisp.Compare.{compare}
use glisp.Compare.Keys.{number, name, IsKey, int_key, char_key, symbol_key}
use glisp.Hash.Defs.{Hash, Bucket, hash_set, hash_get_default, make_hash, total, found, bucket_at}
use glisp.Hash.Lookup.{AllKeyed, hash_set-same, hash_set-other}
use glisp.Hash.Counting.{IsCounted, hash_set-IsCounted}
use glisp.Hash.Deletion.{Counts}

abbrev number_key : Sexp
number_key = int (pos 65)

abbrev letter_key : Sexp
letter_key = char (pos 65)

abbrev name_key : Sexp
name_key = symbol (record { name = codes "x"; number = 65 })

abbrev bucket : Bucket
bucket = (number_key, int (pos 1)) ∷ []

abbrev table : Hash
table = record {
  type_name = codes "hash";
  buckets = (pos 65, bucket) ∷ [];
  key_order = number_key ∷ [];
  num_keys = pos 1;
}

number_IsKey : IsKey number_key (number (pos 65))
number_IsKey = int_key {i = pos 65} (omega arith)

letter_IsKey : IsKey letter_key (number (pos 65))
letter_IsKey = char_key {c = pos 65} (omega arith)

name_IsKey : IsKey name_key (name 65)
name_IsKey = symbol_key (omega arith)

table_Keyed : AllKeyed table.buckets
table_Keyed = (((number (pos 65), number_IsKey), tt), tt)

table-IsCounted : IsCounted table
unfolding total
table-IsCounted = record { counter = refl; ordered = refl }

in_bucket : found whole_floats letter_key bucket ≡ true
unfolding found compare wrap ◌-ℤ◌
in_bucket = refl

not_in_bucket : found whole_floats name_key bucket ≡ false
unfolding found compare
not_in_bucket = refl

its_bucket : bucket_at (pos 65) table.buckets ≡ some bucket
unfolding bucket_at
its_bucket = refl

table-Counts : Counts table
unfolding total
table-Counts = refl

-- The character `A` is the key 65.
hash_set-same_example :
    (h' : Hash) × (hash_set whole_floats table number_key (int (pos 2)) ≡ ok h')
    × AllKeyed h'.buckets
    × (hash_get_default whole_floats h' letter_key (int (pos 0)) ≡ ok (int (pos 2)))
hash_set-same_example =
    hash_set-same whole_floats table (int (pos 2)) (int (pos 0)) number_IsKey letter_IsKey
      table_Keyed

hash_set-other_example :
    (h' : Hash) × (hash_set whole_floats table name_key (int (pos 2)) ≡ ok h')
    × (hash_get_default whole_floats h' number_key (int (pos 0))
        ≡ hash_get_default whole_floats table number_key (int (pos 0)))
hash_set-other_example =
    hash_set-other whole_floats table (int (pos 2)) (int (pos 0)) name_IsKey number_IsKey
      (λ e. cc e) table_Keyed

abbrev larger : Hash
larger = record table {
  buckets = (pos 65, (number_key, int (pos 1)) ∷ (name_key, int (pos 2)) ∷ []) ∷ [];
  key_order = number_key ∷ name_key ∷ [];
  num_keys = pos 2;
}

sets_larger : hash_set whole_floats table name_key (int (pos 2)) ≡ ok larger
unfolding hash_set compare ◌+ℤ◌
sets_larger = refl

hash_set-IsCounted_example : IsCounted larger
hash_set-IsCounted_example =
    hash_set-IsCounted whole_floats table name_key (int (pos 2)) table-IsCounted sets_larger

makes_larger :
    make_hash whole_floats (number_key ∷ int (pos 1) ∷ name_key ∷ int (pos 2) ∷ []) (codes "hash")
    ≡ ok larger
unfolding make_hash compare ◌+ℤ◌
makes_larger = refl
