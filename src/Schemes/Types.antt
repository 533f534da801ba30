-- ===== src/Schemes/Types.antt =====
-- Plaintexts and ciphertexts of the three schemes: the files of that name in
-- crates/phantom-schemes/src, which wrap those of the lattice crate.
use phantom_fhe.Base.{ℕ, List, [], Option, none, some}
use phantom_fhe.Ring.Poly.{Poly}
pub use phantom_fhe.Lattice.Types.{RlwePlaintext, RlweCiphertext}
use phantom_fhe.Schemes.Float.{Scale, Precision, Complex64}

pub record BgvPlaintext : Type 0 where
  pub inner : RlwePlaintext

pub record BgvCiphertext : Type 0 where
  pub inner : RlweCiphertext

pub record BfvPlaintext : Type 0 where
  pub inner : BgvPlaintext

pub record BfvCiphertext : Type 0 where
  pub inner : BgvCiphertext

pub record CkksPlaintext : Type 0 where
  pub slots : List Complex64
  pub scale : Scale
  pub level : ℕ
  pub precision : Precision
  pub poly : Option Poly

unfoldable pub plaintext_new : List Complex64 → Scale → ℕ → Precision → CkksPlaintext
plaintext_new slots scale level precision = record {
  slots = slots;
  scale = scale;
  level = level;
  precision = precision;
  poly = none;
}

unfoldable pub plaintext_new_real : List Complex64 → Scale → ℕ → Precision → Poly → CkksPlaintext
plaintext_new_real slots scale level precision poly = record {
  slots = slots;
  scale = scale;
  level = level;
  precision = precision;
  poly = some poly;
}

pub record CkksCiphertext : Type 0 where
  pub slots : List Complex64
  pub scale : Scale
  pub level : ℕ
  pub precision : Precision
  pub degree : ℕ
  pub poly : Option RlweCiphertext

unfoldable pub ciphertext_new : List Complex64 → Scale → ℕ → Precision → ℕ → CkksCiphertext
ciphertext_new slots scale level precision degree = record {
  slots = slots;
  scale = scale;
  level = level;
  precision = precision;
  degree = degree;
  poly = none;
}

unfoldable pub ciphertext_new_real : RlweCiphertext → Scale → ℕ → Precision → ℕ → CkksCiphertext
ciphertext_new_real poly scale level precision degree = record {
  slots = [];
  scale = scale;
  level = level;
  precision = precision;
  degree = degree;
  poly = some poly;
}
