-- ===== src/Ring/Rns/RescaleTests.antt =====
-- Rescaling and modulus switching over small moduli.
use phantom_fhe.Base.{ℕ, ◌+◌, ◌*◌, ◌/◌, ◌%◌, ◌<◌, ◌≡◌, refl, [], ◌∷◌, ok, tabulate, arith}
use phantom_fhe.Base.Signed.{negsuc}
use phantom_fhe.Ring.Types.{Modulus}
use phantom_fhe.Ring.Poly.{Poly, moduli_count}
use phantom_fhe.Ring.Reduce.{neg_mod, mul_mod, sub_mod, inv_mod, pow_mod}
use phantom_fhe.Ring.BigUint.{BigUint}
use phantom_fhe.Ring.BigUint.Value.{IsNormal}
use phantom_fhe.Ring.BigUint.Bits.{divmod}
use phantom_fhe.Ring.BigUint.LongDivision.{IsQuotient, divmod_lem}
use phantom_fhe.Ring.Rns.{RnsBasis, extend_basis}
use phantom_fhe.Ring.Rns.Value.{AreWords, HasEntries}
use phantom_fhe.Ring.Rns.Values.{crt_value, IsReadable}
use phantom_fhe.Ring.Rns.Scaling.{extend_basis_lem}
use phantom_fhe.Ring.Rns.Rescale.{
  switch_correction, mod_down, modulus_switch_down, rescale_and_round, decode_scaled_value,
}
use phantom_fhe.Ring.Rns.Decoding.{scaled, decode_scaled_value_lem, rescale_and_round_lem}
use phantom_fhe.Ring.Rns.Down.{IsWhole}
use phantom_fhe.Ring.Rns.ModDown.{rest_value, mod_down-quotient}
use phantom_fhe.Ring.Rns.Switching.{IsCorrection}
use phantom_fhe.Ring.Rns.SwitchDown.{modulus_switch_down-quotient}
use phantom_fhe.Ring.Rns.Cofactors.{residue_at}
use phantom_fhe.Ring.Rns.Centered.{centered_value}
use phantom_fhe.Ring.Rns.CenteredValue.{centered_value_lem}

abbrev first_modulus : Modulus
first_modulus = record { value = 17 }

abbrev second_modulus : Modulus
second_modulus = record { value = 97 }

abbrev plain_modulus : Modulus
plain_modulus = record { value = 5 }

abbrev q_basis : RnsBasis
q_basis = record { moduli = first_modulus ∷ [] }

abbrev p_basis : RnsBasis
p_basis = record { moduli = second_modulus ∷ [] }

abbrev both : RnsBasis
both = record { moduli = first_modulus ∷ second_modulus ∷ [] }

abbrev poly : Poly
poly = record { degree = 2; coeffs = (3 ∷ 16 ∷ []) ∷ (5 ∷ 96 ∷ []) ∷ [] }

both-AreWords : AreWords both.moduli
both-AreWords = ((omega arith, omega arith), ((omega arith, omega arith), tt))

entries : (i : ℕ) → i < 2 → HasEntries i poly.coeffs both.moduli
entries i h = (h, (h, tt))

poly-IsReadable : IsReadable poly both.moduli
unfolding moduli_count
poly-IsReadable = record {
  counted = refl;
  words = both-AreWords;
  positive = omega arith;
  entries = entries;
}

poly-IsWhole : IsWhole poly 2
poly-IsWhole = record { counted = refl; positive = omega arith; rows = (refl, (refl, tt)) }

extend_basis_lem_example :
    extend_basis poly both (record { moduli = plain_modulus ∷ [] })
    ≡ ok (record {
      degree = 2;
      coeffs = tabulate (λ j. crt_value poly.coeffs both.moduli j % 5) 2 0 ∷ [];
    })
extend_basis_lem_example =
    extend_basis_lem poly both (record { moduli = plain_modulus ∷ [] }) poly-IsReadable
      ((omega arith, omega arith), tt) (omega arith)

decode_scaled_value_lem_example :
    decode_scaled_value poly both plain_modulus
    ≡ ok (tabulate (λ i. scaled 1649 1649 5 5 (crt_value poly.coeffs both.moduli i)) 2 0)
decode_scaled_value_lem_example =
    decode_scaled_value_lem poly both plain_modulus poly-IsReadable (omega arith) (omega arith)

rescale_and_round_lem_example :
    rescale_and_round poly q_basis p_basis plain_modulus
    ≡ ok (record {
      degree = 2;
      coeffs = tabulate (λ i. scaled 1649 17 5 17 (crt_value poly.coeffs both.moduli i)) 2 0 ∷ [];
    })
rescale_and_round_lem_example =
    rescale_and_round_lem poly q_basis p_basis plain_modulus poly-IsReadable
      ((omega arith, omega arith), tt) (omega arith) (omega arith)

mod_down-quotient_example :
    (out : Poly) × (mod_down poly q_basis p_basis ≡ ok out)
    × ((residue_at out.coeffs 0 1 * 97 + rest_value poly 1 p_basis.moduli 1) % 17 ≡ 16)
mod_down-quotient_example =
    mod_down-quotient poly q_basis p_basis 0 1 ((omega arith, omega arith), tt)
      ((omega arith, omega arith), tt) (omega arith) poly-IsWhole (omega arith) (omega arith)
      (omega arith) (omega arith) refl

modulus_switch_down-quotient_example :
    (out : Poly) × (correction : ℕ) × (modulus_switch_down poly both plain_modulus ≡ ok out)
    × IsCorrection 97 5 96 (crt_value poly.coeffs both.moduli 1 % 5) correction
    × (residue_at out.coeffs 0 1 * 97 % 17 ≡ (16 + correction) % 17)
modulus_switch_down-quotient_example =
    modulus_switch_down-quotient poly both plain_modulus 1 0 1 both-AreWords refl poly-IsWhole
      (omega arith) (omega arith) refl (omega arith) (omega arith) (omega arith) (omega arith) refl

abbrev dividend : BigUint
dividend = record { limbs = 5 ∷ 7 ∷ 9 ∷ [] }

abbrev divisor : BigUint
divisor = record { limbs = 3 ∷ 2 ∷ [] }

dividend-IsNormal : IsNormal dividend
dividend-IsNormal = record {
  words = (omega arith, (omega arith, (omega arith, tt)));
  trimmed = omega arith;
}

divisor-IsNormal : IsNormal divisor
divisor-IsNormal = record { words = (omega arith, (omega arith, tt)); trimmed = omega arith }

divmod_lem_example :
    (q : BigUint) × (r : BigUint) × (divmod dividend divisor ≡ ok (q, r))
    × IsQuotient dividend divisor q r
divmod_lem_example = divmod_lem dividend divisor dividend-IsNormal divisor-IsNormal (omega arith)

abbrev modulus_number : BigUint
modulus_number = record { limbs = 1649 ∷ [] }

abbrev large_number : BigUint
large_number = record { limbs = 1640 ∷ [] }

modulus_number-IsNormal : IsNormal modulus_number
modulus_number-IsNormal = record { words = (omega arith, tt); trimmed = omega arith }

large_number-IsNormal : IsNormal large_number
large_number-IsNormal = record { words = (omega arith, tt); trimmed = omega arith }

centered_value_lem_example : centered_value modulus_number large_number ≡ ok (negsuc 8)
centered_value_lem_example =
    centered_value_lem modulus_number large_number modulus_number-IsNormal large_number-IsNormal
      (omega arith)

-- Of 10 at the moduli 7 and 5 the corrected quotient is 5, though 0 is nearer to 10 / 7.
corrected_ten : (10 + switch_correction 7 5 (10 % 7) (10 % 5)) / 7 ≡ 5
unfolding switch_correction neg_mod mul_mod sub_mod inv_mod pow_mod
corrected_ten = refl
