-- ===== src/Ring/Ntt/Tests.antt =====
-- Runs of the transform at the values of the source's own tests.
use phantom_fhe.Base.{ℕ, List, [], ◌∷◌, ok, Result, ◌>>=◌, ◌≡◌, refl}
use phantom_fhe.Ring.Error.{RingError}
use phantom_fhe.Ring.Types.{Modulus, supports_ntt}
use phantom_fhe.Ring.Reduce.{add_mod, sub_mod, mul_mod, pow_mod, inv_mod}
use phantom_fhe.Ring.Barrett.{
  BarrettReducer, barrett_new, reduce, mul_wide_128, mul_rows, mul_row, propagate, accumulate,
  halves, correct_once,
}
use phantom_fhe.Ring.BigUint
use phantom_fhe.Ring.Ntt.{
  ntt_table_new, primitive_root_of_order, search_root, is_primitive, or_else, power_table,
}
use phantom_fhe.Ring.Ntt.Transform.{
  radix2_ntt_inplace, negacyclic_forward, negacyclic_inverse, mul_residue, bit_reverse_permute,
  trailing_zeros_below, butterflies, blocks, stages, twist_from, untwist_from,
  forward_transform_in_place, inverse_transform_in_place,
}

abbrev reducer_five : BarrettReducer
reducer_five = record { modulus = 5; mu = 68056473384187692692674921486353642291 }

radix2_five : radix2_ntt_inplace reducer_five 5 2 (1 ∷ 2 ∷ 3 ∷ 4 ∷ []) ≡ ok (0 ∷ 4 ∷ 3 ∷ 2 ∷ [])
unfolding radix2_ntt_inplace bit_reverse_permute trailing_zeros_below butterflies blocks stages
    mul_residue reduce mul_wide_128 mul_rows mul_row propagate accumulate halves correct_once
    add_mod sub_mod mul_mod pow_mod
radix2_five = refl

abbrev modulus_97 : Modulus
modulus_97 = record { value = 97 }

abbrev sample : List ℕ
sample = 3 ∷ 1 ∷ 4 ∷ 1 ∷ 5 ∷ 9 ∷ 2 ∷ 6 ∷ []

forward_back : Result RingError (List ℕ)
forward_back = do
  table ← ntt_table_new 8 modulus_97
  a ← negacyclic_forward sample table
  negacyclic_inverse a table

forward_back-sample : forward_back ≡ ok sample
unfolding forward_back negacyclic_forward negacyclic_inverse forward_transform_in_place
    inverse_transform_in_place twist_from untwist_from ntt_table_new primitive_root_of_order
    search_root is_primitive or_else power_table supports_ntt inv_mod barrett_new BigUint.divmod_u64
    BigUint.divmod_limbs BigUint.shl_limbs BigUint.from_u64 BigUint.is_zero BigUint.normalized
    BigUint.pop_zeros BigUint.push_limb BigUint.to_u128 radix2_ntt_inplace bit_reverse_permute
    trailing_zeros_below butterflies blocks stages mul_residue reduce mul_wide_128 mul_rows mul_row
    propagate accumulate halves correct_once add_mod sub_mod mul_mod pow_mod
forward_back-sample = refl

root_of_eight : primitive_root_of_order 8 97 ≡ ok 33
unfolding primitive_root_of_order search_root is_primitive or_else pow_mod mul_mod
root_of_eight = refl
