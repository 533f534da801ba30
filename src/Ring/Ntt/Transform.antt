-- ===== src/Ring/Ntt/Transform.antt =====
-- crates/phantom-ring/src/ntt/cpu.rs and mod.rs: the in-place transforms. A function that writes
-- to a buffer returns the buffer, and an index out of range is a panic.
use phantom_fhe.Base.{
  ℕ, zero, suc, ◌+◌, ◌*◌, ◌/◌, ◌%◌, ◌&&◌, List, Result, ok, ◌>>=◌, ◌>>◌, guard, if◌then◌else◌, ltb,
  leb, ◌==◌, length, set, index,
}
use phantom_fhe.Ring.Error.{RingError, dimension_mismatch}
use phantom_fhe.Ring.Reduce.{add_mod, sub_mod, mul_mod, pow_mod}
use phantom_fhe.Ring.Barrett.{BarrettReducer, reduce}
use phantom_fhe.Ring.Ntt.{NttTable}

unfoldable pub mul_residue : BarrettReducer → ℕ → ℕ → ℕ → Result RingError ℕ
mul_residue reducer a b modulus =
    if ltb a modulus && ltb b modulus then reduce reducer (a * b) else ok (mul_mod a b modulus)

-- `reverse_bits` over its variables.
unfoldable pub reverse_bits_from : ℕ → ℕ → ℕ → ℕ
reverse_bits_from result x zero = result
reverse_bits_from result x (suc bits) = reverse_bits_from (result * 2 + x % 2) (x / 2) bits

unfoldable pub reverse_bits : ℕ → ℕ → ℕ
unfolding reverse_bits_from
reverse_bits x bits = reverse_bits_from 0 x bits

unfoldable pub swap : List ℕ → ℕ → ℕ → Result RingError (List ℕ)
swap a i j = do x ← index a i; y ← index a j; ok (set (set a i y) j x)

-- `for i in i..i + rounds`.
unfoldable pub permute_from : ℕ → ℕ → ℕ → List ℕ → Result RingError (List ℕ)
permute_from log_n zero i a = ok a
permute_from log_n (suc rounds) i a =
    let j = reverse_bits i log_n in
    (if ltb i j then swap a i j else ok a) >>= permute_from log_n rounds (i + 1)

unfoldable pub bit_reverse_permute : List ℕ → ℕ → Result RingError (List ℕ)
unfolding permute_from reverse_bits swap
bit_reverse_permute a log_n = permute_from log_n (length a) 0 a

-- `n.trailing_zeros()` for a word that is not 0.
unfoldable pub trailing_zeros_below : ℕ → ℕ → ℕ
trailing_zeros_below zero n = 0
trailing_zeros_below (suc bits) n =
    let more = suc (trailing_zeros_below bits (n / 2)) in if n % 2 == 0 then more else 0

module _ (reducer : BarrettReducer) (q : ℕ) where
  -- The butterflies of one block: `j` counts up from 0, and `w` runs through the twiddle factors.
  unfoldable pub butterflies : ℕ → ℕ → ℕ → ℕ → ℕ → ℕ → List ℕ → Result RingError (List ℕ)
  butterflies half w_m k zero j w a = ok a
  butterflies half w_m k (suc rounds) j w a = do
    high ← index a (k + j + half)
    t ← mul_residue reducer w high q
    u ← index a (k + j)
    w' ← mul_residue reducer w w_m q
    butterflies half w_m k rounds (j + 1) w'
        (set (set a (k + j) (add_mod u t q)) (k + j + half) (sub_mod u t q))

  -- `while k < n`, a block of `m` at a time; `n` rounds are enough, since `m` is not 0.
  unfoldable pub blocks : ℕ → ℕ → ℕ → ℕ → ℕ → List ℕ → Result RingError (List ℕ)
  blocks zero n m w_m k a = ok a
  blocks (suc fuel) n m w_m k a =
      let next = butterflies (m / 2) w_m k (m / 2) 0 1 a >>= blocks fuel n m w_m (k + m) in
      if ltb k n then next else ok a

  -- `while m <= n`; `m` doubles, so that `log2 n` rounds are enough.
  unfoldable pub stages : ℕ → ℕ → ℕ → ℕ → List ℕ → Result RingError (List ℕ)
  stages zero root n m a = ok a
  stages (suc fuel) root n m a =
      let next = blocks n n m (pow_mod root (n / m) q) 0 a >>= stages fuel root n (m * 2) in
      if leb m n then next else ok a

  unfoldable pub radix2_ntt_inplace : ℕ → List ℕ → Result RingError (List ℕ)
  radix2_ntt_inplace root a =
      let n = length a in
      let log_n = trailing_zeros_below 64 n in
      if leb n 1 then ok a else (bit_reverse_permute a log_n >>= stages 64 root n 2)

  -- `buf[j] = buf[j] * powers[j]` for `j` in `j..j + rounds`.
  unfoldable pub twist_from : List ℕ → ℕ → ℕ → List ℕ → Result RingError (List ℕ)
  twist_from powers zero j buf = ok buf
  twist_from powers (suc rounds) j buf = do
    x ← index buf j
    p ← index powers j
    y ← mul_residue reducer x p q
    twist_from powers rounds (j + 1) (set buf j y)

  -- Scale by the inverse degree and untwist, over the whole buffer.
  unfoldable pub untwist_from : List ℕ → ℕ → ℕ → ℕ → List ℕ → Result RingError (List ℕ)
  untwist_from powers inv_degree zero j buf = ok buf
  untwist_from powers inv_degree (suc rounds) j buf = do
    x ← index buf j
    scaled ← mul_residue reducer x inv_degree q
    p ← index powers j
    y ← mul_residue reducer scaled p q
    untwist_from powers inv_degree rounds (j + 1) (set buf j y)

unfoldable pub forward_transform_in_place : List ℕ → NttTable → Result RingError (List ℕ)
forward_transform_in_place buf table = do
  twisted ← twist_from table.reducer table.modulus.value table.psi_powers table.degree 0 buf
  radix2_ntt_inplace table.reducer table.modulus.value table.omega_root twisted

unfoldable pub inverse_transform_in_place : List ℕ → NttTable → Result RingError (List ℕ)
inverse_transform_in_place buf table = do
  a ← radix2_ntt_inplace table.reducer table.modulus.value table.inv_omega buf
  untwist_from table.reducer table.modulus.value table.inv_psi_powers table.inv_degree (length a) 0
      a

unfoldable pub negacyclic_forward : List ℕ → NttTable → Result RingError (List ℕ)
negacyclic_forward buf table = do
  guard (length buf == table.degree) dimension_mismatch
  forward_transform_in_place buf table

unfoldable pub negacyclic_inverse : List ℕ → NttTable → Result RingError (List ℕ)
negacyclic_inverse buf table = do
  guard (length buf == table.degree) dimension_mismatch
  inverse_transform_in_place buf table
