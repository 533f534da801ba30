-- ===== src/Lattice/Evaluator/Additive.antt =====
-- Sums and differences of ciphertexts, component by component.
use phantom_fhe.Base.{
  suc, ◌<◌, ◌≡◌, refl, ap, true, false, ◌==◌, ==_iff, Result, List, [], ◌∷◌, ok, length, All, arith,
}
use phantom_fhe.Ring.Error.{RingError}
use phantom_fhe.Ring.Poly.{Poly}
use phantom_fhe.Ring.Context.{Ring, ring_add, ring_sub}
use phantom_fhe.Ring.Context.WellFormed.{HasModuli, IsPoly, check_poly_lem}
use phantom_fhe.Ring.Context.Additive.{ring_sub-ring_add}
use phantom_fhe.Lattice.Types.{RlweCiphertext}
use phantom_fhe.Lattice.Evaluator.{
  check_polys, check_ciphertext, zip_polys, binary_zip, evaluator_add, evaluator_sub,
}

-- Components that are all of the ring, one at least.
pub record IsCiphertext (r : Ring) (ct : RlweCiphertext) : Type 0 where
  pub polys : All (IsPoly r) ct.value
  pub some_poly : 0 < length ct.value

check_polys_lem : (r : Ring) (ps : List Poly) → All (IsPoly r) ps → check_polys r ps ≡ ok tt
unfolding check_polys
check_polys_lem r [] h = refl
check_polys_lem r (p ∷ ps) h = rw (check_poly_lem r p h.0) (check_polys_lem r ps h.1)

check_ciphertext_lem :
    (r : Ring) (ct : RlweCiphertext) → IsCiphertext r ct → check_ciphertext r ct ≡ ok tt
unfolding check_ciphertext
check_ciphertext_lem r ct h =
    let nonempty : (length ct.value == 0) ≡ false = ground (arith, h.some_poly) in
    rw nonempty (check_polys_lem r ct.value h.polys)

zip_polys-sub-add :
    (r : Ring) (xs ys : List Poly)
    → HasModuli r
    → length xs ≡ length ys
    → All (IsPoly r) xs
    → All (IsPoly r) ys
    → (zs : List Poly) × (zip_polys (ring_add r) xs ys ≡ ok zs)
      × All (IsPoly r) zs
      × (length zs ≡ length ys)
      × (zip_polys (ring_sub r) zs ys ≡ ok xs)
unfolding zip_polys
zip_polys-sub-add r [] [] hm e hx hy = ([], refl, tt, refl, refl)
zip_polys-sub-add r [] (y ∷ ys) hm e hx hy = absurd (omega arith)
zip_polys-sub-add r (x ∷ xs) [] hm e hx hy = absurd (omega arith)
zip_polys-sub-add r (x ∷ xs) (y ∷ ys) hm e hx hy =
    let (z, added, vz, back) = ring_sub-ring_add r hm x y hx.0 hy.0 in
    let (zs, added', vzs, same, back') = zip_polys-sub-add r xs ys hm (omega arith) hx.1 hy.1 in
    (z ∷ zs, rw (added, added') refl, (vz, vzs), ap suc same, rw (back, back') refl)

binary_zip_lem :
    (r : Ring) (lhs rhs : RlweCiphertext) (f : Ring → Poly → Poly → Result RingError Poly)
    {zs : List Poly}
    → IsCiphertext r lhs
    → IsCiphertext r rhs
    → length lhs.value ≡ length rhs.value
    → zip_polys (f r) lhs.value rhs.value ≡ ok zs
    → binary_zip r lhs rhs f ≡ ok record { value = zs }
unfolding binary_zip
binary_zip_lem r lhs rhs f hl hr e zipped =
    let same : (length lhs.value == length rhs.value) ≡ true =
      (==_iff (length lhs.value) (length rhs.value)).1 e in
    rw (check_ciphertext_lem r lhs hl, check_ciphertext_lem r rhs hr, same, zipped) refl

-- In a ring whose moduli are words above 1, two ciphertexts of as many components, all of the
-- ring, have a sum, it is such a ciphertext too, and subtracting the second gives back the first.
pub evaluator_sub-evaluator_add :
    (r : Ring) (lhs rhs : RlweCiphertext)
    → HasModuli r
    → IsCiphertext r lhs
    → IsCiphertext r rhs
    → length lhs.value ≡ length rhs.value
    → (sum : RlweCiphertext) × (evaluator_add r lhs rhs ≡ ok sum)
      × IsCiphertext r sum
      × (evaluator_sub r sum rhs ≡ ok lhs)
unfolding evaluator_add evaluator_sub
evaluator_sub-evaluator_add r lhs rhs hm hl hr e =
    let (zs, added, vzs, same, back) =
      zip_polys-sub-add r lhs.value rhs.value hm e hl.polys hr.polys in
    let is_sum : IsCiphertext r record { value = zs } = record {
      polys = vzs;
      some_poly = omega (arith, same, hr.some_poly);
    } in
    (
      record { value = zs },
      binary_zip_lem r lhs rhs ring_add hl hr e added,
      is_sum,
      binary_zip_lem r record { value = zs } rhs ring_sub is_sum hr same back,
    )
