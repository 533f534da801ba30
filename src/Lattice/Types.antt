-- ===== src/Lattice/Types.antt =====
-- crates/phantom-lattice/src/rlwe/plaintext.rs and ciphertext.rs, with the errors of error.rs that
-- arise in what is modelled.
use phantom_fhe.Base.{ℕ, zero, suc, ◌-◌, List, [], ◌∷◌, Result, ok, err, panic, length}
use phantom_fhe.Ring.Error.{RingError}
use phantom_fhe.Ring.Poly.{Poly}
use phantom_fhe.Ring.Context.{Ring, ring_zero}

pub data LatticeError : Type 0 where
  ring_failure : RingError → LatticeError
  ciphertext_mismatch : LatticeError

-- `?` on a result of the ring crate.
abbrev pub lift {ℓ} : {A : Type ℓ} → Result RingError A → Result LatticeError A
lift (ok a) = ok a
lift (err e) = err (ring_failure e)
lift panic = panic

pub record RlwePlaintext : Type 0 where
  pub value : Poly

pub record RlweCiphertext : Type 0 where
  pub value : List Poly

-- `saturating_sub`
unfoldable pub ciphertext_degree : RlweCiphertext → ℕ
ciphertext_degree ciphertext = length ciphertext.value - 1

-- `(0..=degree).map(|_| ring.zero())`
unfoldable pub zeros : Ring → ℕ → List Poly
zeros r zero = ring_zero r ∷ []
zeros r (suc degree) = ring_zero r ∷ zeros r degree

unfoldable pub ciphertext_zero : Ring → ℕ → RlweCiphertext
ciphertext_zero r degree = record { value = zeros r degree }
