-- ===== src/Prelude/Errors.antt =====
-- What a Go function can do: return a value, return an error, or panic.
use mathlib.Core.Path.{◌≡◌, refl}

-- One constructor for each error of the source that the model returns.
pub data Error : Type 0 where
  invalid_stack_access not_enough_items symbol_not_found no_scope : Error
  cannot_compare wrong_type wrong_nargs unexpected_result not_an_integer : Error
  not_a_list not_an_array not_a_string not_a_char first_not_a_list : Error
  cannot_hash odd_arguments key_order_not_array inconsistent_hash : Error
  invalid_escape not_a_char_literal unrecognized_atom unexpected_quote : Error
  unexpected_backtick unexpected_tilde unexpected_end extra_value : Error
  invalid_syntax bad_number : Error
  out_of_bounds not_a_function argument_count bindlist_count returned : Error
  no_expressions bad_argument malformed_function arguments_not_vector : Error
  wrong_definition name_not_symbol malformed_let let_not_array uneven_let : Error
  missing_default syntax_quote_argument include_expected import_expected : Error
  bad_first_argument bad_second_argument bad_third_argument invalid_constructor : Error
  no_conversion short_data different_types unsupported_type failed_to_compile : Error
  unknown_event event_arguments not_a_source not_found not_glisp_function cannot_open : Error

pub data Outcome {ℓ} (A : Type ℓ) : Type ℓ where
  ok : A → Outcome A
  err : Error → Outcome A
  panic : Outcome A
  -- the fuel of a loop of the model ran out
  out_of_fuel : Outcome A

infixl 5 ◌>>=◌
abbrev pub ◌>>=◌ {ℓa ℓb} : {A : Type ℓa} {B : Type ℓb} → Outcome A → (A → Outcome B) → Outcome B
panic >>= _ = panic
out_of_fuel >>= _ = out_of_fuel
err why >>= _ = err why
ok value >>= next = next value

module _ {ℓa ℓb} {A : Type ℓa} {B : Type ℓb} where
  -- What a sequence returns, its first part has made possible.
  pub >>=-eq-ok :
      (first : Outcome A) (next : A → Outcome B) {result : B}
      → (first >>= next) ≡ ok result
      → (value : A) × (first ≡ ok value) × (next value ≡ ok result)
  >>=-eq-ok panic next ran = cc
  >>=-eq-ok out_of_fuel next ran = cc
  >>=-eq-ok (err why) next ran = cc
  >>=-eq-ok (ok value) next ran = (value, refl, ran)

  pub >>=-cong :
      (m : Outcome A) (k k' : A → Outcome B) → ((a : A) → k a ≡ k' a) → (m >>= k) ≡ (m >>= k')
  >>=-cong (ok a) k k' h = h a
  >>=-cong (err e) k k' h = refl
  >>=-cong panic k k' h = refl
  >>=-cong out_of_fuel k k' h = refl

pub >>=-ok {ℓ} : {A : Type ℓ} (m : Outcome A) → (m >>= λ a. ok a) ≡ m
>>=-ok (ok a) = refl
>>=-ok (err e) = refl
>>=-ok panic = refl
>>=-ok out_of_fuel = refl
