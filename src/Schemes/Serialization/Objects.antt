-- ===== src/Schemes/Serialization/Objects.antt =====
-- The readers of rings, ciphertexts and slots read back what their writers wrote.
use phantom_fhe.Base.{
  ◌*◌, ◌^◌, ◌<◌, ◌≡◌, refl, List, ◌++◌, ok, length, All, All-map, IsU64, u64, u64_mod, arith,
  append_assoc,
}
use phantom_fhe.Base.Residues.{mod-eq_small}
use phantom_fhe.Base.Bytes.{to_le_bytes}
use phantom_fhe.Ring.Types.{Modulus, degree_new, modulus_new}
use phantom_fhe.Ring.Context.{Ring, ring_new}
use phantom_fhe.Schemes.Float.{Complex64, complex_new}
use phantom_fhe.Schemes.Types.{RlweCiphertext}
use phantom_fhe.Schemes.Serialization.{
  write_u64, write_ring, read_modulus, read_ring, write_poly, read_poly, write_ciphertext,
  read_ciphertext, write_slot, write_ckks_slots, read_slot, read_ckks_slots,
}
use phantom_fhe.Schemes.Serialization.Loops.{Agrees, Writes-then, Reads-assoc, loop-Agrees}
use phantom_fhe.Schemes.Serialization.RoundTrip.{
  write_u64-Writes, read_u64-Reads, read_usize-Reads, write_f64-Writes, read_f64-Reads, IsFinite,
  with_capacity-fits, IsStored, poly-Agrees,
}

count_word : {A : Type 0} (xs : List A) → length xs < 2 ^ 63 → u64 (length xs) ≡ length xs
count_word xs h = mod-eq_small _ u64_mod (omega (arith, h))

-- Polynomials as they are stored, and a length that a vector can have.
pub record IsStoredCiphertext (c : RlweCiphertext) : Type 0 where
  pub polys : All IsStored c.value
  pub size : length c.value * 32 < 2 ^ 63

pub ciphertext-Agrees :
    (c : RlweCiphertext) → IsStoredCiphertext c → Agrees (write_ciphertext c) read_ciphertext c
unfolding write_ciphertext read_ciphertext
ciphertext-Agrees c h =
    let small = count_word c.value (omega (arith, h.size)) in
    let (bytes, w, r) =
      loop-Agrees write_poly read_poly c.value (u64 (length c.value)) small
        (All-map poly-Agrees c.value h.polys) in
    let count = to_le_bytes 8 (u64 (length c.value)) in
    (
      count ++ bytes,
      Writes-then count bytes (write_u64-Writes _) w,
      Reads-assoc read_ciphertext count bytes (λ rest. rw (
        read_usize-Reads (u64 (length c.value)) (omega arith) (bytes ++ rest),
        with_capacity-fits 32 (u64 (length c.value)) (omega (arith, small, h.size)),
        r rest,
      )),
    )

-- A modulus of a word that its constructor accepts.
pub record IsStoredModulus (m : Modulus) : Type 0 where
  pub word : IsU64 m.value
  pub accepted : modulus_new m.value ≡ ok m

modulus-Agrees : (m : Modulus) → IsStoredModulus m → Agrees (write_u64 m.value) read_modulus m
unfolding read_modulus
modulus-Agrees m h = (
  to_le_bytes 8 m.value,
  write_u64-Writes m.value,
  λ rest. rw (read_u64-Reads m.value h.word rest, h.accepted) refl,
)

-- A ring that its constructors give for its own degree and moduli.
pub record IsStoredRing (r : Ring) : Type 0 where
  pub degree_word : IsU64 r.degree.get
  pub degree_accepted : degree_new r.degree.get ≡ ok r.degree
  pub moduli_accepted : All IsStoredModulus r.moduli
  pub built : ring_new r.degree r.moduli ≡ ok r
  pub size : length r.moduli * 8 < 2 ^ 63

pub ring-Agrees : (r : Ring) → IsStoredRing r → Agrees (write_ring r) read_ring r
unfolding write_ring read_ring
ring-Agrees r h =
    let small = count_word r.moduli (omega (arith, h.size)) in
    let (bytes, w, reads) =
      loop-Agrees (λ (m : Modulus). write_u64 m.value) read_modulus r.moduli (u64 (length r.moduli))
        small (All-map modulus-Agrees r.moduli h.moduli_accepted) in
    let degree = to_le_bytes 8 r.degree.get in
    let count = to_le_bytes 8 (u64 (length r.moduli)) in
    (
      degree ++ (count ++ bytes),
      Writes-then degree (count ++ bytes) (write_u64-Writes _)
          (Writes-then count bytes (write_u64-Writes _) w),
      Reads-assoc read_ring degree (count ++ bytes) (λ rest. rw (
        append_assoc count bytes rest,
        read_usize-Reads r.degree.get h.degree_word (count ++ (bytes ++ rest)),
        h.degree_accepted,
        read_usize-Reads (u64 (length r.moduli)) (omega arith) (bytes ++ rest),
        with_capacity-fits 8 (u64 (length r.moduli)) (omega (arith, small, h.size)),
        reads rest,
        h.built,
      )),
    )

pub record IsFiniteSlot (slot : Complex64) : Type 0 where
  pub re_finite : IsFinite slot.re
  pub im_finite : IsFinite slot.im

slot-Agrees : (slot : Complex64) → IsFiniteSlot slot → Agrees (write_slot slot) read_slot slot
unfolding write_slot read_slot complex_new
slot-Agrees slot h =
    let re = to_le_bytes 8 slot.re in
    let im = to_le_bytes 8 slot.im in
    (
      re ++ im,
      Writes-then re im (write_f64-Writes slot.re h.re_finite)
          (write_f64-Writes slot.im h.im_finite),
      Reads-assoc read_slot re im (λ rest. rw (
        read_f64-Reads slot.re h.re_finite (im ++ rest),
        read_f64-Reads slot.im h.im_finite rest,
        h.re_finite.finite,
        h.im_finite.finite,
      )),
    )

-- Finite slots, and a length that a vector can have.
pub record AreSlots (slots : List Complex64) : Type 0 where
  pub finite : All IsFiniteSlot slots
  pub size : length slots * 16 < 2 ^ 63

pub slots-Agrees :
    (slots : List Complex64)
    → AreSlots slots
    → Agrees (write_ckks_slots slots) read_ckks_slots slots
unfolding write_ckks_slots read_ckks_slots
slots-Agrees slots h =
    let small = count_word slots (omega (arith, h.size)) in
    let (bytes, w, r) =
      loop-Agrees write_slot read_slot slots (u64 (length slots)) small
        (All-map slot-Agrees slots h.finite) in
    let count = to_le_bytes 8 (u64 (length slots)) in
    (
      count ++ bytes,
      Writes-then count bytes (write_u64-Writes _) w,
      Reads-assoc read_ckks_slots count bytes (λ rest. rw (
        read_usize-Reads (u64 (length slots)) (omega arith) (bytes ++ rest),
        with_capacity-fits 16 (u64 (length slots)) (omega (arith, small, h.size)),
        r rest,
      )),
    )
