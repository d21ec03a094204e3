-- ===== src/Builtins/Indexing.antt =====
-- `aget` of functions.go: which element an index names.
use native.Mathlib.Nat.{mod-eq_of_lt, mod-eq-sub-mod, mod-lt}
use native.Mathlib.Decide.{dec_lt}
use glisp.Prelude.{
  ℕ, zero, suc, ◌-◌, ◌%◌, ◌≤◌, ◌<◌, ◌≡◌, refl, ap, ◌∙◌, ==_ne, lt→leb, ℤ, pos, negsuc, ◌+ℤ◌,
  neg_part, arith, Outcome, ok, panic, out_of_fuel,
}
use glisp.Builtins.Access.{raise_index, array_index}

-- The place of an index in an array that goes round: -1 names the last element.
abbrev pub place : ℕ → ℤ → ℕ
place alen (pos i) = i % alen
place alen (negsuc i) = alen - 1 - i % alen

-- What becomes of an index.
abbrev pub indexed : ℕ → ℤ → Outcome ℕ
indexed zero (pos i) = panic
indexed zero (negsuc i) = out_of_fuel
indexed (suc n) i = ok (place (suc n) i)

raise_low : (i alen : ℕ) → i < alen → negsuc i +ℤ pos alen ≡ pos (alen - suc i)
unfolding ◌+ℤ◌
raise_low i alen h = ground arith

raise_high : (i alen : ℕ) → alen ≤ i → negsuc i +ℤ pos alen ≡ negsuc (i - alen)
unfolding ◌+ℤ◌
raise_high i alen h = ground arith

-- What the loop ends with has the place of the index.
abbrev Raised : ℕ → ℕ → ℤ → Type 0
Raised fuel alen i = (j : ℕ) × (raise_index fuel alen i ≡ ok j) × (j % alen ≡ place alen i)

raise_step :
    (fuel alen i : ℕ)
    → raise_index (suc fuel) alen (negsuc i) ≡ raise_index fuel alen (negsuc i +ℤ pos alen)
unfolding raise_index
raise_step fuel alen i = refl

raise_done : (fuel alen i : ℕ) → raise_index fuel alen (pos i) ≡ ok i
unfolding raise_index
raise_done fuel alen i = refl

raise-low : (fuel alen i : ℕ) → i < alen → Raised (suc fuel) alen (negsuc i)
raise-low fuel alen i h = (
  alen - suc i,
  rw (raise_step fuel alen i, raise_low i alen h, raise_done fuel alen (alen - suc i)) refl,
  rw (mod-eq_of_lt h, mod-eq_of_lt {n = alen - suc i} {m = alen} (omega arith)) (omega arith),
)

raise-place : (fuel alen : ℕ) (i : ℤ) → 0 < alen → neg_part i ≤ fuel → Raised fuel alen i
raise-place fuel alen (pos i) h enough = (i, raise_done fuel alen i, refl)
raise-place zero alen (negsuc i) h enough = absurd (omega arith)
raise-place (suc fuel) alen (negsuc i) h enough = elim (dec_lt i alen) [
  | yes low ↦ raise-low fuel alen i low
  | no high ↦
      let (j, e, e') = raise-place fuel alen (negsuc (i - alen)) h (omega arith) in
      (
        j,
        rw (raise_step fuel alen i, raise_high i alen (omega arith)) e,
        rw (e', mod-eq-sub-mod {n = i} {m = alen} (omega arith)) refl,
      )
]

index_round :
    (fuel alen : ℕ) (i : ℤ)
    → 0 < alen
    → neg_part i ≤ fuel
    → array_index fuel alen i ≡ ok (place alen i)
unfolding array_index
index_round fuel alen i h enough =
    let (j, e, e') = raise-place fuel alen i h enough in
    let low : j % alen < alen = mod-lt j h in
    rw (e, ==_ne alen 0 (omega arith), lt→leb (j % alen) alen low, e') refl

raise_none : (i : ℕ) → negsuc i +ℤ pos 0 ≡ negsuc i
unfolding ◌+ℤ◌
raise_none i = ground arith

raise_empty : (fuel i : ℕ) → raise_index fuel 0 (negsuc i) ≡ out_of_fuel
unfolding raise_index
raise_empty zero i = refl
raise_empty (suc fuel) i =
    raise_step fuel 0 i ∙ ap (raise_index fuel 0) (raise_none i) ∙ raise_empty fuel i

index_empty : (fuel : ℕ) (i : ℤ) → array_index fuel 0 i ≡ indexed 0 i
unfolding array_index
index_empty fuel (pos i) = refl
index_empty fuel (negsuc i) = rw (raise_empty fuel i) refl

-- `aget` and `aset!` go round the array: within as many rounds as an index is below zero, it is
-- known which element it names. In an array that is not empty it names the element at its remainder,
-- counted from the end if it is negative. In an empty array an index that is not negative panics,
-- and the loop never ends on a negative one, however many rounds it is given.
pub array_index-indexed :
    (fuel alen : ℕ) (i : ℤ) → neg_part i ≤ fuel → array_index fuel alen i ≡ indexed alen i
array_index-indexed fuel zero i enough = index_empty fuel i
array_index-indexed fuel (suc n) i enough = index_round fuel (suc n) i (omega arith) enough
