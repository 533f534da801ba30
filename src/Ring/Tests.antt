-- ===== src/Ring/Tests.antt =====
-- The properties of arithmetic at values on which the code runs.
use phantom_fhe.Base.{◌%◌, ◌^◌, ◌≤◌, ◌<◌, ◌≡◌, ◌⊎◌, ok, err, arith}
use phantom_fhe.Ring.Error.{modulus_too_small, modulus_too_large_for_reducer}
use phantom_fhe.Ring.Reduce.{montgomery_max_modulus, mul_mod, pow_mod}
use phantom_fhe.Ring.Reduce.Power.{pow_mod_lem}
use phantom_fhe.Ring.Barrett.{BarrettReducer, barrett_new, reduce}
use phantom_fhe.Ring.Barrett.Setup.{barrett_new-reduce}
use phantom_fhe.Ring.Montgomery.{MontgomeryReducer, montgomery_new, montgomery_mul}
use phantom_fhe.Ring.Montgomery.Setup.{montgomery_new-montgomery_mul}

barrett_new-reduce_example :
    ((97 < 2) × (barrett_new 97 ≡ err (modulus_too_small 97)))
    ⊎ ((r : BarrettReducer) × (barrett_new 97 ≡ ok r) × (reduce r 9000 ≡ ok (9000 % 97)))
barrett_new-reduce_example = barrett_new-reduce 97 9000 (omega arith) (omega arith)

montgomery_new-montgomery_mul_example :
    (((97 % 2 ≡ 0) ⊎ (montgomery_max_modulus ≤ 97))
      × (montgomery_new 97 ≡ err (modulus_too_large_for_reducer 97 montgomery_max_modulus)))
    ⊎ ((r : MontgomeryReducer) × (montgomery_new 97 ≡ ok r)
        × (montgomery_mul r 200 300 ≡ mul_mod 200 300 97))
montgomery_new-montgomery_mul_example =
    montgomery_new-montgomery_mul 97 200 300 (omega arith) (omega arith) (omega arith)

pow_mod_lem_example : pow_mod 5 13 97 ≡ 5 ^ 13 % 97
pow_mod_lem_example = pow_mod_lem 97 (omega arith) (omega arith) 5 13
