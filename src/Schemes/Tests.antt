-- ===== src/Schemes/Tests.antt =====
-- The parameters, the objects and their byte forms at fixed inputs.
use phantom_fhe.Base.{
  ℕ, ◌≡◌, refl, Bool, false, List, [], ◌∷◌, ◌++◌, some, ok, err, panic, ◌>>=◌, map, to_option, All,
  arith, ◌%◌, ◌^◌, ◌<◌,
}
use phantom_fhe.Base.Bytes.{to_le_bytes}
use phantom_fhe.Utils.Error.{invalid_domain}
use phantom_fhe.Ring.Types.{Modulus, degree_new, is_power_of_two, modulus_new}
use phantom_fhe.Ring.Gcd.{gcd}
use phantom_fhe.Ring.Barrett.{barrett_new}
use phantom_fhe.Ring.Ntt.{ntt_table_new}
use phantom_fhe.Ring.Context.{Ring, ring_new}
use phantom_fhe.Schemes.Error.{utils_error}
use phantom_fhe.Schemes.Float.{Scale, Precision, scale_new, is_finite}
use phantom_fhe.Schemes.Params.{
  BgvParams, bgv_params_new, has_no_moduli, min_modulus, least_value, rotation_element, is_repeated,
  check_distinct_moduli, check_coprime,
}
use phantom_fhe.Schemes.Builder.{BgvParamsBuilder, bgv_build, moduli_new, check_security}
use phantom_fhe.Schemes.Builder.Accepted.{AreInRange, Distinct, Cancels, bgv_build_sound}
use phantom_fhe.Schemes.Params.Rotation.{rotation_element_lem}
use phantom_fhe.Schemes.Types.{RlweCiphertext, BgvCiphertext, BfvCiphertext, ciphertext_new_real}
use phantom_fhe.Schemes.Serialization.{bgv_ct, bfv_ct}
use phantom_fhe.Schemes.Serialization.RoundTrip.{header_bytes, IsStored, IsFinite}
use phantom_fhe.Schemes.Serialization.Objects.{IsStoredCiphertext, IsStoredRing}
use phantom_fhe.Schemes.Codec.{
  encode_bgv_params, decode_bgv_params, encode_bgv_ciphertext, decode_bgv_ciphertext,
  encode_bfv_ciphertext, decode_bfv_ciphertext, encode_ckks_ciphertext_real,
  decode_ckks_ciphertext_real,
}
use phantom_fhe.Schemes.Codec.RoundTrip.{
  decode_bgv_params-encode_bgv_params, decode_bgv_ciphertext-encode_bgv_ciphertext,
}
use phantom_fhe.Schemes.Codec.CkksRoundTrip.{
  AreStamps, decode_ckks_ciphertext_real-encode_ckks_ciphertext_real,
}
use phantom_fhe.Schemes.Codec.Refusals.{decode_ciphertext-other_scheme, decode_bgv_ciphertext-panic}

-- Two polynomials of degree 2 at two moduli.
abbrev two_polys : RlweCiphertext
two_polys = record {
  value =
      (record { degree = 2; coeffs = (1 ∷ 2 ∷ []) ∷ (3 ∷ 4 ∷ []) ∷ [] })
      ∷ (record { degree = 2; coeffs = (5 ∷ 6 ∷ []) ∷ (7 ∷ 8 ∷ []) ∷ [] })
      ∷ [];
}

poly-IsStored :
    (a b c d : ℕ)
    → a < 2 ^ 64
    → b < 2 ^ 64
    → c < 2 ^ 64
    → d < 2 ^ 64
    → IsStored record { degree = 2; coeffs = (a ∷ b ∷ []) ∷ (c ∷ d ∷ []) ∷ [] }
poly-IsStored a b c d ha hb hc hd = record {
  degree_pos = omega arith;
  rows_pos = omega arith;
  rows = (refl, (refl, tt));
  words = ((ha, (hb, tt)), ((hc, (hd, tt)), tt));
  row_size = omega arith;
  size = omega arith;
}

two_polys-IsStored : IsStoredCiphertext two_polys
two_polys-IsStored = record {
  polys = (
    poly-IsStored 1 2 3 4 (omega arith) (omega arith) (omega arith) (omega arith),
    (poly-IsStored 5 6 7 8 (omega arith) (omega arith) (omega arith) (omega arith), tt),
  );
  size = omega arith;
}

abbrev bgv_two : BgvCiphertext
bgv_two = record { inner = two_polys }

abbrev bfv_two : BfvCiphertext
bfv_two = record { inner = record { inner = two_polys } }

decode_bgv_ciphertext-encode_bgv_ciphertext_example :
    (encode_bgv_ciphertext bgv_two >>= decode_bgv_ciphertext) ≡ ok bgv_two
decode_bgv_ciphertext-encode_bgv_ciphertext_example =
    decode_bgv_ciphertext-encode_bgv_ciphertext bgv_two two_polys-IsStored

decode_ciphertext-other_scheme_example :
    ((encode_bgv_ciphertext bgv_two >>= decode_bfv_ciphertext)
      ≡ err (utils_error (invalid_domain bfv_ct.bytes bgv_ct.bytes)))
    × ((encode_bfv_ciphertext bfv_two >>= decode_bgv_ciphertext)
        ≡ err (utils_error (invalid_domain bgv_ct.bytes bfv_ct.bytes)))
decode_ciphertext-other_scheme_example =
    decode_ciphertext-other_scheme bgv_two bfv_two two_polys-IsStored two_polys-IsStored

decode_bgv_ciphertext-panic_example :
    decode_bgv_ciphertext (header_bytes bgv_ct ++ (to_le_bytes 8 (2 ^ 60) ++ [])) ≡ panic
decode_bgv_ciphertext-panic_example =
    decode_bgv_ciphertext-panic (2 ^ 60) [] (omega arith) (omega arith)

-- 2 ^ 30 and 4 as floats.
abbrev scale_two_30 : Scale
scale_two_30 = record { value = 4746794007248502784 }

abbrev four : Precision
four = record { bits = 4616189618054758400 }

two_30-IsFinite : IsFinite scale_two_30.value
unfolding is_finite
two_30-IsFinite = record { word = omega arith; finite = refl }

four-IsFinite : IsFinite four.bits
unfolding is_finite
four-IsFinite = record { word = omega arith; finite = refl }

two_30-accepted : scale_new scale_two_30.value ≡ ok scale_two_30
unfolding scale_new is_finite
two_30-accepted = refl

stamps_ok : AreStamps scale_two_30 1 four
stamps_ok = record {
  scaled = record { finite = two_30-IsFinite; accepted = two_30-accepted };
  levelled = omega arith;
  precise = four-IsFinite;
}

decode_ckks_ciphertext_real-encode_ckks_ciphertext_real_example :
    (encode_ckks_ciphertext_real (ciphertext_new_real two_polys scale_two_30 1 four 1)
      >>= decode_ckks_ciphertext_real)
    ≡ ok (ciphertext_new_real two_polys scale_two_30 1 four 1)
decode_ckks_ciphertext_real-encode_ckks_ciphertext_real_example =
    decode_ckks_ciphertext_real-encode_ckks_ciphertext_real two_polys scale_two_30 1 four 1
      two_polys-IsStored stamps_ok (omega arith)

-- The ring of a degree of 8 modulo 7 and 11.
abbrev moduli_7_11 : List Modulus
moduli_7_11 = record { value = 7 } ∷ record { value = 11 } ∷ []

abbrev ring_8 : Ring
ring_8 = record {
  degree = record { get = 8 };
  moduli = moduli_7_11;
  reducers = map (λ modulus. to_option (barrett_new modulus.value)) moduli_7_11;
  ntt_tables = map (λ modulus. to_option (ntt_table_new 8 modulus)) moduli_7_11;
}

abbrev params_8 : BgvParams
params_8 = record { ring = ring_8; plaintext_modulus = 3 }

accepted_8 : bgv_params_new ring_8 3 ≡ ok params_8
unfolding bgv_params_new has_no_moduli min_modulus least_value
accepted_8 = refl

degree_8 : degree_new 8 ≡ ok record { get = 8 }
unfolding degree_new is_power_of_two
degree_8 = refl

ring_8-IsStored : IsStoredRing ring_8
unfolding modulus_new ring_new
ring_8-IsStored = record {
  degree_word = omega arith;
  degree_accepted = degree_8;
  moduli_accepted = (
    record { word = omega arith; accepted = refl },
    (record { word = omega arith; accepted = refl }, tt),
  );
  built = refl;
  size = omega arith;
}

decode_bgv_params-encode_bgv_params_example :
    (encode_bgv_params params_8 >>= decode_bgv_params) ≡ ok params_8
decode_bgv_params-encode_bgv_params_example =
    decode_bgv_params-encode_bgv_params params_8
      record { stored_ring = ring_8-IsStored; modulus_word = omega arith; accepted = accepted_8 }

rotation_element_lem_example :
    (rotation_element params_8 7 ≡ 5 ^ (7 % 4) % 16) × (rotation_element params_8 7 % 2 ≡ 1)
rotation_element_lem_example = rotation_element_lem params_8 7 (omega arith)

abbrev builder_8 : BgvParamsBuilder
builder_8 = record {
  degree = some 8;
  moduli = 7 ∷ 11 ∷ [];
  plaintext_modulus = some 3;
  require_128_bit_security = false;
}

abbrev never : List Modulus → ℕ → Bool
never moduli limit = false

built_8 : bgv_build never builder_8 ≡ ok params_8
unfolding bgv_build moduli_new modulus_new check_distinct_moduli is_repeated check_coprime gcd
    check_security ring_new
built_8 = rw (degree_8) accepted_8

bgv_build_sound_example : AreInRange params_8 × Distinct moduli_7_11 × All (Cancels 3) moduli_7_11
bgv_build_sound_example = bgv_build_sound never builder_8 built_8
