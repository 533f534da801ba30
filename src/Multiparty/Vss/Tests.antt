-- ===== src/Multiparty/Vss/Tests.antt =====
-- Runs of the sharing at concrete curves and inputs.
use native.Mathlib.Nat
use phantom_fhe.Base.{
  ℕ, ◌+◌, ◌-◌, ◌*◌, ◌^◌, ◌<◌, ◌≡◌, ◌≢◌, ◌⊎◌, Result, refl, List, [], ◌∷◌, false, ◌==◌, ==_iff,
  if◌then◌else◌, Option, some, none, ok, err, length, arith,
}
use phantom_fhe.Base.Bytes.{to_le_bytes, from_le_bytes}
use phantom_fhe.Base.Signed.{ℤ, pos, negsuc}
use phantom_fhe.Multiparty.Error.{MultipartyError, duplicate_participant, invalid_vss_share}
use phantom_fhe.Multiparty.Participant.{ParticipantId, elem}
use phantom_fhe.Multiparty.Vss.{Curve, CompressedPoint, PedersenGenerators, vector_len}
use phantom_fhe.Multiparty.Vss.Embed.{embed_centered, recover_centered}
use phantom_fhe.Multiparty.Vss.Commitments.{VssCommitmentSet, combine}
use phantom_fhe.Multiparty.Vss.Share.{
  VssShare, verify, verify_equation, verify_combined, weigh_commitments,
}
use phantom_fhe.Multiparty.Vss.Polynomial.{VectorPolynomial, sample, commit, create_share}
use phantom_fhe.Multiparty.Vss.Accumulator.{
  ShareAccumulator, accumulator_new, add_values, accumulate_share, see_dealer, after_verify,
  add_verified_share, finalize,
}
use phantom_fhe.Multiparty.Vss.Laws.{CurveLaws}
use phantom_fhe.Multiparty.Vss.Sampling.{sample-verify}
use phantom_fhe.Multiparty.Vss.Collective.{accept, no_more, verify_combined-finalize}
use phantom_fhe.Multiparty.Vss.Recovery.{ScalarBytes, group_order, recover_centered-embed_centered}
use phantom_fhe.Multiparty.Vss.Accepting.{IsAdmitted, add_verified_share-finalize, failed_share_lem}

-- Points and scalars are numbers: a semimodule over itself.
abbrev dot : List ℕ → List ℕ → ℕ
dot [] ps = 0
dot (s ∷ ss) [] = 0
dot (s ∷ ss) (p ∷ ps) = s * p + dot ss ps

abbrev first_byte : List ℕ → Option ℕ
first_byte [] = none
first_byte (p ∷ ps) = some p

abbrev counting : Curve
counting = record {
  Scalar = ℕ;
  Point = ℕ;
  zero = 0;
  one = 1;
  plus = λ a b. a + b;
  times = λ a b. a * b;
  minus = λ a b. a - b;
  negate = λ s. if s == 0 then 0 else 2 ^ 252 + 27742317777372353535851937790883648493 - s;
  invert = λ s. s;
  scalar_eq = λ a b. a == b;
  scalar_from = λ n. n;
  as_bytes = λ s. to_le_bytes 32 s;
  from_canonical_bytes = λ bs. some (from_le_bytes bs);
  plus_points = λ p q. p + q;
  point_eq = λ p q. p == q;
  multiscalar_mul = dot;
  vartime_multiscalar_mul = dot;
  compress = λ p. p ∷ [];
  decompress = first_byte;
  from_uniform_bytes = from_le_bytes;
  sha512 = λ bytes. bytes;
}

abbrev counting_laws : CurveLaws counting
counting_laws = record {
  scale = λ s p. s * p;
  identity = 0;
  points_assoc = λ p q r. Nat.add_assoc p q r;
  points_comm = λ p q. Nat.add_comm p q;
  points_identity = λ p. Nat.zero-add p;
  scale_plus = λ s t p. Nat.add-mul s t p;
  scale_points = λ s p q. Nat.mul-add s p q;
  scale_times = λ s t p. Nat.mul_assoc s t p;
  scale_one = λ p. Nat.one-mul p;
  scale_zero = λ p. Nat.zero-mul p;
  scale_identity = λ s. Nat.mul-zero s;
  times_comm = λ s t. Nat.mul_comm s t;
  multiscalar_nil = refl;
  multiscalar_cons = λ s p ss ps. refl;
  vartime_eq = λ ss ps. refl;
  point_eq_iff = λ p q. ==_iff p q;
  decompress_compress = λ p. refl;
}

-- Draws count up.
abbrev counter : ℕ → ℕ × ℕ
counter rng = (rng, rng + 1)

abbrev generators : PedersenGenerators ℕ
generators = record { g = 7 ∷ 11 ∷ []; h = 13 }

abbrev secret : List ℤ
secret = pos 3 ∷ pos 8 ∷ []

sample-verify_example :
    (polynomial : VectorPolynomial ℕ) × (last : ℕ) × (set : VssCommitmentSet) × (sample counting
        counter 5 1 secret 2
      ≡ ok (polynomial, last))
    × (commit counting polynomial generators ≡ ok set)
    × ((recipient : ParticipantId)
        → verify counting (create_share counting polynomial recipient) set generators ≡ ok tt)
unfolding vector_len
sample-verify_example =
    sample-verify counting counting_laws counter 5 1 secret 2 generators (omega arith) (omega arith)
      (omega arith, omega arith) refl

-- Two dealers' commitments and their shares for participant 4.
abbrev first_set : VssCommitmentSet
first_set = record { dealer = 1; commitments = (100 ∷ []) ∷ (20 ∷ []) ∷ [] }

abbrev second_set : VssCommitmentSet
second_set = record { dealer = 2; commitments = (13 ∷ []) ∷ (7 ∷ []) ∷ [] }

-- 7 * 5 + 11 * 12 + 13 * 1 = 100 + 4 * 20
abbrev first_share : VssShare ℕ
first_share = record { dealer = 1; recipient = 4; values = 5 ∷ 12 ∷ []; blinding = 1 }

-- 7 * 4 + 11 * 0 + 13 * 1 = 13 + 4 * 7
abbrev second_share : VssShare ℕ
second_share = record { dealer = 2; recipient = 4; values = 4 ∷ 0 ∷ []; blinding = 1 }

abbrev forged_share : VssShare ℕ
forged_share = record { dealer = 1; recipient = 4; values = 5 ∷ 11 ∷ []; blinding = 1 }

first_share_verifies : verify counting first_share first_set generators ≡ ok tt
unfolding verify verify_equation weigh_commitments vector_len
first_share_verifies = refl

abbrev after_first : ShareAccumulator ℕ
after_first = record {
  participant = 4;
  sum_values = 5 ∷ 12 ∷ [];
  sum_blinding = 1;
  dealers_seen = 1 ∷ [];
}

abbrev after_second : ShareAccumulator ℕ
after_second = record {
  participant = 4;
  sum_values = 9 ∷ 12 ∷ [];
  sum_blinding = 2;
  dealers_seen = 2 ∷ 1 ∷ [];
}

first_accepted :
    add_verified_share counting (accumulator_new counting 4 2) first_share first_set generators
    ≡ (ok tt, after_first)
unfolding add_verified_share accumulator_new see_dealer after_verify accumulate_share add_values
    verify verify_equation weigh_commitments vector_len elem
first_accepted = refl

second_accepted :
    add_verified_share counting after_first second_share second_set generators
    ≡ (ok tt, after_second)
unfolding add_verified_share see_dealer after_verify accumulate_share add_values verify
    verify_equation weigh_commitments vector_len elem
second_accepted = refl

verify_combined-finalize_example :
    (combined : List CompressedPoint) × (combine counting (first_set ∷ second_set ∷ [])
      ≡ ok combined)
    × (verify_combined counting 4 (9 ∷ 12 ∷ []) 2 combined generators ≡ ok tt)
unfolding finalize vector_len
verify_combined-finalize_example =
    verify_combined-finalize counting generators counting_laws 4 first_share first_set
      ((second_share, second_set) ∷ []) after_second
      (accept first_accepted (accept second_accepted no_more)) (refl, tt)

negative_bytes :
    (k : ℕ)
    → 0 < k
    → counting.as_bytes (counting.negate (counting.scalar_from k))
      ≡ to_le_bytes 32 (group_order - k)
negative_bytes k h = let named : (k == 0) ≡ false = ground (arith, h) in rw named refl

negate_twice :
    (k : ℕ)
    → k < 2 ^ 128
    → counting.negate (counting.negate (counting.scalar_from k)) ≡ counting.scalar_from k
negate_twice k h = ground (arith, h)

counting_bytes : ScalarBytes counting
counting_bytes = record {
  bytes_from = λ k h. refl;
  bytes_negate = λ k pos_k h. negative_bytes k pos_k;
  negate_negate = λ k h. negate_twice k h;
}

recover_centered-embed_centered_example :
    (s : ℕ) × (embed_centered counting (negsuc 6) ≡ ok s)
    × (recover_centered counting s (pos 10) ≡ ok (negsuc 6))
recover_centered-embed_centered_example =
    recover_centered-embed_centered counting counting_bytes (negsuc 6) 10 (omega arith)

abbrev call : Result MultipartyError (Unit {0}) × ShareAccumulator ℕ
call = add_verified_share counting after_first second_share second_set generators

add_verified_share-finalize_example :
    ((call.0 ≡ ok tt)
      × (second_share.recipient ≡ after_first.participant)
      × (verify counting second_share second_set generators ≡ ok tt)
      × (finalize call.1 ≡ (
        add_values counting after_first.sum_values second_share.values,
        after_first.sum_blinding + second_share.blinding,
      )))
    ⊎ ((call.0 ≢ ok tt) × (finalize call.1 ≡ finalize after_first))
add_verified_share-finalize_example =
    add_verified_share-finalize counting after_first second_share second_set generators

forged-IsAdmitted : IsAdmitted counting (accumulator_new counting 4 2) forged_share
unfolding accumulator_new elem
forged-IsAdmitted = record { addressed = refl; sized = refl; fresh = refl }

forged_fails : verify counting forged_share first_set generators ≡ err invalid_vss_share
unfolding verify verify_equation weigh_commitments vector_len
forged_fails = refl

first_sized : length first_share.values ≡ length (accumulator_new counting 4 2).sum_values
unfolding accumulator_new
first_sized = refl

first_addressed : first_share.recipient ≡ (accumulator_new counting 4 2).participant
unfolding accumulator_new
first_addressed = refl

failed_share_lem_example :
    (next : ShareAccumulator ℕ) × (add_verified_share counting
        (accumulator_new counting 4 2)
        forged_share
        first_set
        generators
      ≡ (err invalid_vss_share, next))
    × (finalize next ≡ finalize (accumulator_new counting 4 2))
    × (add_verified_share counting next first_share first_set generators
        ≡ (err duplicate_participant, next))
failed_share_lem_example =
    failed_share_lem counting (accumulator_new counting 4 2) forged_share first_set generators
      invalid_vss_share first_share first_set forged-IsAdmitted forged_fails refl first_addressed
      first_sized
