-- ===== src/Schemes/Codec.antt =====
-- crates/phantom-schemes/src/serialization.rs: the encoding and the decoding of each public object.
pub mod RoundTrip
pub mod Refusals
pub mod CkksRoundTrip
use phantom_fhe.Base.{
  ℕ, Bool, true, false, List, [], Result, ok, err, ◌>>=◌, ok_or, if◌then◌else◌, ◌==◌, u64,
}
use phantom_fhe.Utils.Buffer.{BufferReader, BufferWriter, read_u8, write_u8}
use phantom_fhe.Schemes.Error.{
  SchemesError, invalid_parameters, lift_utils, invalid_boolean, plaintext_without_poly,
  ciphertext_without_poly,
}
use phantom_fhe.Schemes.Float.{Scale, scale_new, Precision, precision_new}
use phantom_fhe.Schemes.Params.{
  BgvParams, bgv_params_new, BfvParams, bfv_params_new, CkksParams, ckks_params_new,
}
use phantom_fhe.Schemes.Types.{
  BgvPlaintext, BgvCiphertext, BfvPlaintext, BfvCiphertext, CkksPlaintext, plaintext_new,
  plaintext_new_real, CkksCiphertext, ciphertext_new, ciphertext_new_real,
}
use phantom_fhe.Schemes.Serialization.{
  bgv_params, bfv_params, ckks_params, bgv_pt, bfv_pt, ckks_pt, bgv_ct, bfv_ct, ckks_ct,
  ckks_pt_real, ckks_ct_real, Reading, writer_of, reader_of, write_u64, read_u64, read_usize,
  write_f64, read_f64, write_ring, read_ring, write_poly, read_poly, write_ciphertext,
  read_ciphertext, write_ckks_slots, read_ckks_slots,
}

-- `writer.into_inner()`
abbrev pub into_inner : BufferWriter → Result SchemesError (List ℕ)
into_inner writer = ok writer.output

unfoldable pub encode_bgv_params : BgvParams → Result SchemesError (List ℕ)
encode_bgv_params params = do
  w1 ← writer_of bgv_params
  w2 ← write_ring params.ring w1
  w3 ← write_u64 params.plaintext_modulus w2
  into_inner w3

unfoldable pub decode_bgv_params : List ℕ → Result SchemesError BgvParams
decode_bgv_params bytes = do
  r1 ← reader_of bytes bgv_params
  (r, r2) ← read_ring r1
  (plaintext_modulus, r3) ← read_u64 r2
  bgv_params_new r plaintext_modulus

unfoldable pub encode_bfv_params : BfvParams → Result SchemesError (List ℕ)
encode_bfv_params params = do
  w1 ← writer_of bfv_params
  w2 ← write_ring params.inner.ring w1
  w3 ← write_u64 params.inner.plaintext_modulus w2
  into_inner w3

unfoldable pub decode_bfv_params : List ℕ → Result SchemesError BfvParams
decode_bfv_params bytes = do
  r1 ← reader_of bytes bfv_params
  (r, r2) ← read_ring r1
  (plaintext_modulus, r3) ← read_u64 r2
  bfv_params_new r plaintext_modulus

-- `u8::from`
unfoldable pub byte_of_bool : Bool → ℕ
byte_of_bool b = if b then 1 else 0

unfoldable pub bool_of_byte : ℕ → Result SchemesError Bool
bool_of_byte byte =
    if byte == 0
    then ok false
    else (if byte == 1 then ok true else err (invalid_parameters invalid_boolean))

unfoldable pub encode_ckks_params : CkksParams → Result SchemesError (List ℕ)
encode_ckks_params params = do
  w1 ← writer_of ckks_params
  w2 ← write_ring params.ring w1
  w3 ← write_f64 params.default_scale.value w2
  w4 ← lift_utils (write_u8 (byte_of_bool params.conjugate_invariant) w3)
  into_inner w4

-- `ckks::Scale::new(read_f64(reader)?)?`
unfoldable pub read_scale : Reading Scale
read_scale reader = do (value, next) ← read_f64 reader; scale ← scale_new value; ok (scale, next)

unfoldable pub read_precision : Reading Precision
read_precision reader = do (bits, next) ← read_f64 reader; ok (precision_new bits, next)

unfoldable pub decode_ckks_params : List ℕ → Result SchemesError CkksParams
decode_ckks_params bytes = do
  r1 ← reader_of bytes ckks_params
  (r, r2) ← read_ring r1
  (scale, r3) ← read_scale r2
  (byte, r4) ← lift_utils (read_u8 r3)
  conjugate_invariant ← bool_of_byte byte
  ckks_params_new r scale conjugate_invariant

unfoldable pub encode_bgv_plaintext : BgvPlaintext → Result SchemesError (List ℕ)
encode_bgv_plaintext plaintext = do
  w1 ← writer_of bgv_pt
  w2 ← write_poly plaintext.inner.value w1
  into_inner w2

unfoldable pub decode_bgv_plaintext : List ℕ → Result SchemesError BgvPlaintext
decode_bgv_plaintext bytes = do
  r1 ← reader_of bytes bgv_pt
  (value, r2) ← read_poly r1
  ok record { inner = record { value = value } }

unfoldable pub encode_bfv_plaintext : BfvPlaintext → Result SchemesError (List ℕ)
encode_bfv_plaintext plaintext = do
  w1 ← writer_of bfv_pt
  w2 ← write_poly plaintext.inner.inner.value w1
  into_inner w2

unfoldable pub decode_bfv_plaintext : List ℕ → Result SchemesError BfvPlaintext
decode_bfv_plaintext bytes = do
  r1 ← reader_of bytes bfv_pt
  (value, r2) ← read_poly r1
  ok record { inner = record { inner = record { value = value } } }

unfoldable pub encode_bgv_ciphertext : BgvCiphertext → Result SchemesError (List ℕ)
encode_bgv_ciphertext ciphertext = do
  w1 ← writer_of bgv_ct
  w2 ← write_ciphertext ciphertext.inner w1
  into_inner w2

unfoldable pub decode_bgv_ciphertext : List ℕ → Result SchemesError BgvCiphertext
decode_bgv_ciphertext bytes = do
  r1 ← reader_of bytes bgv_ct
  (inner, r2) ← read_ciphertext r1
  ok record { inner = inner }

unfoldable pub encode_bfv_ciphertext : BfvCiphertext → Result SchemesError (List ℕ)
encode_bfv_ciphertext ciphertext = do
  w1 ← writer_of bfv_ct
  w2 ← write_ciphertext ciphertext.inner.inner w1
  into_inner w2

unfoldable pub decode_bfv_ciphertext : List ℕ → Result SchemesError BfvCiphertext
decode_bfv_ciphertext bytes = do
  r1 ← reader_of bytes bfv_ct
  (inner, r2) ← read_ciphertext r1
  ok record { inner = record { inner = inner } }

unfoldable pub encode_ckks_plaintext : CkksPlaintext → Result SchemesError (List ℕ)
encode_ckks_plaintext plaintext = do
  w1 ← writer_of ckks_pt
  w2 ← write_ckks_slots plaintext.slots w1
  w3 ← write_f64 plaintext.scale.value w2
  w4 ← write_u64 (u64 plaintext.level) w3
  w5 ← write_f64 plaintext.precision.bits w4
  into_inner w5

unfoldable pub decode_ckks_plaintext : List ℕ → Result SchemesError CkksPlaintext
decode_ckks_plaintext bytes = do
  r1 ← reader_of bytes ckks_pt
  (slots, r2) ← read_ckks_slots r1
  (scale, r3) ← read_scale r2
  (level, r4) ← read_usize r3
  (precision, r5) ← read_precision r4
  ok (plaintext_new slots scale level precision)

unfoldable pub encode_ckks_plaintext_real : CkksPlaintext → Result SchemesError (List ℕ)
encode_ckks_plaintext_real plaintext = do
  poly ← ok_or plaintext.poly (invalid_parameters plaintext_without_poly)
  w1 ← writer_of ckks_pt_real
  w2 ← write_poly poly w1
  w3 ← write_f64 plaintext.scale.value w2
  w4 ← write_u64 (u64 plaintext.level) w3
  w5 ← write_f64 plaintext.precision.bits w4
  into_inner w5

unfoldable pub decode_ckks_plaintext_real : List ℕ → Result SchemesError CkksPlaintext
decode_ckks_plaintext_real bytes = do
  r1 ← reader_of bytes ckks_pt_real
  (poly, r2) ← read_poly r1
  (scale, r3) ← read_scale r2
  (level, r4) ← read_usize r3
  (precision, r5) ← read_precision r4
  ok (plaintext_new_real [] scale level precision poly)

unfoldable pub encode_ckks_ciphertext : CkksCiphertext → Result SchemesError (List ℕ)
encode_ckks_ciphertext ciphertext = do
  w1 ← writer_of ckks_ct
  w2 ← write_ckks_slots ciphertext.slots w1
  w3 ← write_f64 ciphertext.scale.value w2
  w4 ← write_u64 (u64 ciphertext.level) w3
  w5 ← write_f64 ciphertext.precision.bits w4
  w6 ← write_u64 (u64 ciphertext.degree) w5
  into_inner w6

unfoldable pub decode_ckks_ciphertext : List ℕ → Result SchemesError CkksCiphertext
decode_ckks_ciphertext bytes = do
  r1 ← reader_of bytes ckks_ct
  (slots, r2) ← read_ckks_slots r1
  (scale, r3) ← read_scale r2
  (level, r4) ← read_usize r3
  (precision, r5) ← read_precision r4
  (degree, r6) ← read_usize r5
  ok (ciphertext_new slots scale level precision degree)

unfoldable pub encode_ckks_ciphertext_real : CkksCiphertext → Result SchemesError (List ℕ)
encode_ckks_ciphertext_real ciphertext = do
  poly ← ok_or ciphertext.poly (invalid_parameters ciphertext_without_poly)
  w1 ← writer_of ckks_ct_real
  w2 ← write_ciphertext poly w1
  w3 ← write_f64 ciphertext.scale.value w2
  w4 ← write_u64 (u64 ciphertext.level) w3
  w5 ← write_f64 ciphertext.precision.bits w4
  w6 ← write_u64 (u64 ciphertext.degree) w5
  into_inner w6

unfoldable pub decode_ckks_ciphertext_real : List ℕ → Result SchemesError CkksCiphertext
decode_ckks_ciphertext_real bytes = do
  r1 ← reader_of bytes ckks_ct_real
  (poly, r2) ← read_ciphertext r1
  (scale, r3) ← read_scale r2
  (level, r4) ← read_usize r3
  (precision, r5) ← read_precision r4
  (degree, r6) ← read_usize r5
  ok (ciphertext_new_real poly scale level precision degree)
