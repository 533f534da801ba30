-- ===== src/Schemes/Serialization.antt =====
-- crates/phantom-schemes/src/serialization.rs. A loop of the source that reads or writes a fixed
-- number of items is `read_each` or `write_each`.
pub mod Loops
pub mod RoundTrip
pub mod Objects
use phantom_fhe.Base.{
  ℕ, zero, suc, ◌-◌, ◌*◌, ◌^◌, Bool, true, false, not, ◌||◌, ◌&&◌, List, [], ◌∷◌, Option, Result,
  ok, err, panic, ◌>>=◌, ◌>>◌, guard, ok_or, if◌then◌else◌, ltb, ◌==◌, length, u64,
}
use phantom_fhe.Utils.Buffer.{BufferReader, BufferWriter, read_le, write_le, read_u8, write_u8}
use phantom_fhe.Utils.Header.{DomainTag, from_array, header_new, write_to, read_expected}
use phantom_fhe.Ring.Types.{Degree, Modulus, degree_new, modulus_new}
use phantom_fhe.Ring.Poly.{Poly, from_coeffs, moduli_count}
use phantom_fhe.Ring.Context.{Ring, ring_new}
use phantom_fhe.Schemes.Error.{
  SchemesError, invalid_parameters, lift_ring, lift_utils, invalid_boolean, invalid_shape,
  non_finite_slot, non_finite_float, size_overflow, plaintext_without_poly, ciphertext_without_poly,
}
use phantom_fhe.Schemes.Float.{
  is_finite, Scale, scale_new, Precision, precision_new, Complex64, complex_new,
}
use phantom_fhe.Schemes.Params.{
  BgvParams, bgv_params_new, BfvParams, bfv_params_new, CkksParams, ckks_params_new,
}
use phantom_fhe.Schemes.Types.{
  RlwePlaintext, RlweCiphertext, BgvPlaintext, BgvCiphertext, BfvPlaintext, BfvCiphertext,
  CkksPlaintext, plaintext_new, plaintext_new_real, CkksCiphertext, ciphertext_new,
  ciphertext_new_real,
}

abbrev pub Reading : Type 0 → Type 0
Reading A = BufferReader → Result SchemesError (A × BufferReader)

abbrev pub Writing : Type 0
Writing = BufferWriter → Result SchemesError BufferWriter

unfoldable pub version : ℕ
version = 1

-- `b"BGVPRM01"`, and so on.
unfoldable pub bgv_params : DomainTag
unfolding from_array
bgv_params = from_array (66 ∷ 71 ∷ 86 ∷ 80 ∷ 82 ∷ 77 ∷ 48 ∷ 49 ∷ [])

unfoldable pub bfv_params : DomainTag
unfolding from_array
bfv_params = from_array (66 ∷ 70 ∷ 86 ∷ 80 ∷ 82 ∷ 77 ∷ 48 ∷ 49 ∷ [])

unfoldable pub ckks_params : DomainTag
unfolding from_array
ckks_params = from_array (67 ∷ 75 ∷ 75 ∷ 83 ∷ 80 ∷ 82 ∷ 48 ∷ 49 ∷ [])

unfoldable pub bgv_pt : DomainTag
unfolding from_array
bgv_pt = from_array (66 ∷ 71 ∷ 86 ∷ 80 ∷ 76 ∷ 84 ∷ 48 ∷ 49 ∷ [])

unfoldable pub bfv_pt : DomainTag
unfolding from_array
bfv_pt = from_array (66 ∷ 70 ∷ 86 ∷ 80 ∷ 76 ∷ 84 ∷ 48 ∷ 49 ∷ [])

unfoldable pub ckks_pt : DomainTag
unfolding from_array
ckks_pt = from_array (67 ∷ 75 ∷ 75 ∷ 83 ∷ 80 ∷ 76 ∷ 48 ∷ 49 ∷ [])

unfoldable pub bgv_ct : DomainTag
unfolding from_array
bgv_ct = from_array (66 ∷ 71 ∷ 86 ∷ 67 ∷ 84 ∷ 88 ∷ 84 ∷ 49 ∷ [])

unfoldable pub bfv_ct : DomainTag
unfolding from_array
bfv_ct = from_array (66 ∷ 70 ∷ 86 ∷ 67 ∷ 84 ∷ 88 ∷ 84 ∷ 49 ∷ [])

unfoldable pub ckks_ct : DomainTag
unfolding from_array
ckks_ct = from_array (67 ∷ 75 ∷ 75 ∷ 83 ∷ 67 ∷ 84 ∷ 48 ∷ 49 ∷ [])

unfoldable pub ckks_pt_real : DomainTag
unfolding from_array
ckks_pt_real = from_array (67 ∷ 75 ∷ 75 ∷ 80 ∷ 76 ∷ 82 ∷ 48 ∷ 49 ∷ [])

unfoldable pub ckks_ct_real : DomainTag
unfolding from_array
ckks_ct_real = from_array (67 ∷ 75 ∷ 75 ∷ 67 ∷ 84 ∷ 82 ∷ 48 ∷ 49 ∷ [])

unfoldable pub writer_of : DomainTag → Result SchemesError BufferWriter
unfolding version
writer_of domain = lift_utils (write_to (header_new domain version) record { output = [] })

unfoldable pub reader_of : List ℕ → DomainTag → Result SchemesError BufferReader
unfolding version
reader_of bytes domain = do
  (header, reader) ← lift_utils (read_expected record { inner = bytes } domain version)
  ok reader

unfoldable pub write_u64 : ℕ → Writing
write_u64 value writer = lift_utils (write_le 8 value writer)

unfoldable pub read_u64 : Reading ℕ
read_u64 reader = lift_utils (read_le 8 reader)

unfoldable pub read_usize : Reading ℕ
unfolding read_u64
read_usize reader = do
  (value, next) ← read_u64 reader
  guard (ltb value (2 ^ 64)) (invalid_parameters size_overflow)
  ok (value, next)

unfoldable pub write_f64 : ℕ → Writing
unfolding write_u64
write_f64 value writer = do
  guard (is_finite value) (invalid_parameters non_finite_float)
  write_u64 value writer

unfoldable pub read_f64 : Reading ℕ
unfolding read_u64
read_f64 reader = do
  (value, next) ← read_u64 reader
  guard (is_finite value) (invalid_parameters non_finite_float)
  ok (value, next)

unfoldable pub write_each : {A : Type 0} → (A → Writing) → List A → Writing
write_each write [] writer = ok writer
write_each write (x ∷ xs) writer = do next ← write x writer; write_each write xs next

-- Each turn needs more of the input, so no run is longer than that, whatever `count`.
unfoldable pub read_each : {A : Type 0} → Reading A → ℕ → Reading (List A)
read_each read zero reader = ok ([], reader)
read_each read (suc count) reader = do
  (x, next) ← read reader
  (xs, last) ← read_each read count next
  ok (x ∷ xs, last)

-- `Vec::with_capacity(count)` of items of `size` bytes, which panics above `isize::MAX` bytes.
unfoldable pub with_capacity : ℕ → ℕ → Result SchemesError (Unit {0})
with_capacity size count = if ltb (2 ^ 63 - 1) (count * size) then panic else ok tt

unfoldable pub write_ring : Ring → Writing
write_ring r writer = do
  w1 ← write_u64 r.degree.get writer
  w2 ← write_u64 (u64 (length r.moduli)) w1
  write_each (λ (modulus : Modulus). write_u64 modulus.value) r.moduli w2

unfoldable pub read_modulus : Reading Modulus
read_modulus reader = do
  (value, next) ← read_u64 reader
  modulus ← lift_ring (modulus_new value)
  ok (modulus, next)

unfoldable pub read_ring : Reading Ring
read_ring reader = do
  (raw_degree, r1) ← read_usize reader
  degree ← lift_ring (degree_new raw_degree)
  (count, r2) ← read_usize r1
  with_capacity 8 count
  (moduli, last) ← read_each read_modulus count r2
  r ← lift_ring (ring_new degree moduli)
  ok (r, last)

unfoldable pub write_poly : Poly → Writing
write_poly poly writer = do
  w1 ← write_u64 (u64 (moduli_count poly)) writer
  w2 ← write_u64 poly.degree w1
  write_each (write_each write_u64) poly.coeffs w2

-- `vec![vec![0u64; degree]; moduli_count]` asks for both sizes before anything is read.
unfoldable pub read_poly : Reading Poly
read_poly reader = do
  (count, r1) ← read_usize reader
  (degree, r2) ← read_usize r1
  guard (not (count == 0 || degree == 0)) (invalid_parameters invalid_shape)
  with_capacity 8 degree
  with_capacity 24 count
  (coeffs, last) ← read_each (read_each read_u64 degree) count r2
  poly ← lift_ring (from_coeffs coeffs)
  ok (poly, last)

unfoldable pub write_ciphertext : RlweCiphertext → Writing
write_ciphertext ciphertext writer = do
  next ← write_u64 (u64 (length ciphertext.value)) writer
  write_each write_poly ciphertext.value next

unfoldable pub read_ciphertext : Reading RlweCiphertext
read_ciphertext reader = do
  (count, next) ← read_usize reader
  with_capacity 32 count
  (value, last) ← read_each read_poly count next
  ok (record { value = value }, last)

unfoldable pub write_slot : Complex64 → Writing
write_slot slot writer = do next ← write_f64 slot.re writer; write_f64 slot.im next

unfoldable pub write_ckks_slots : List Complex64 → Writing
write_ckks_slots slots writer = do
  next ← write_u64 (u64 (length slots)) writer
  write_each write_slot slots next

unfoldable pub read_slot : Reading Complex64
read_slot reader = do
  (re, next) ← read_f64 reader
  (im, last) ← read_f64 next
  guard (is_finite re && is_finite im) (invalid_parameters non_finite_slot)
  ok (complex_new re im, last)

unfoldable pub read_ckks_slots : Reading (List Complex64)
read_ckks_slots reader = do
  (count, next) ← read_usize reader
  with_capacity 16 count
  read_each read_slot count next
