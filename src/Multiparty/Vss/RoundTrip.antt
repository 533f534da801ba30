-- ===== src/Multiparty/Vss/RoundTrip.antt =====
-- Commitment sets are decoded from their encodings.
use phantom_fhe.Base.{
  ℕ, ◌-◌, ◌*◌, ◌^◌, ◌≤◌, ◌<◌, ◌≡◌, refl, sym, ap, ◌∙◌, subst, List, [], ◌∷◌, ◌++◌, true, false, ltb,
  ◌==◌, ok, panic, length, u64, u64_mod, IsU64, All, arith, Result, append_assoc, append-nil,
  length-append,
}
use phantom_fhe.Base.Bytes.{to_le_bytes}
use phantom_fhe.Base.Residues.{mod-eq_small}
use phantom_fhe.Multiparty.Error.{MultipartyError}
use phantom_fhe.Multiparty.Participant.{participant_id_new}
use phantom_fhe.Multiparty.Wire.{ByteReader, reader_new, advance}
use phantom_fhe.Multiparty.Wire.Reading.{
  IsAt, take_bytes-IsAt, expect-IsAt, read_u64-IsAt, is_finished-IsAt, reader_new-IsAt,
}
use phantom_fhe.Multiparty.Vss.{CompressedPoint}
use phantom_fhe.Multiparty.Vss.Commitments.{VssCommitmentSet}
use phantom_fhe.Multiparty.Vss.Codec.{
  commitment_set_magic, with_capacity32, bytes32, encode_points, commitment_set_encode, read_points,
  commitment_set_decode,
}

-- A reader that the result leaves before `rest`.
abbrev pub Reads : {A : Type 0} → Result MultipartyError (A × ByteReader) → A → List ℕ → Type 0
Reads m a rest = (next : ByteReader) × (m ≡ ok (a, next)) × IsAt next rest

pub with_capacity32-fits : (n : ℕ) → n * 32 < 2 ^ 63 → with_capacity32 n ≡ ok tt
unfolding with_capacity32
with_capacity32-fits n h = ground (arith, h)

read_points-IsAt :
    (commitments : List CompressedPoint) (reader : ByteReader) (ys : List ℕ)
    → All (λ p. length p ≡ 32) commitments
    → IsAt reader (encode_points commitments ++ ys)
    → Reads (read_points (length commitments) reader) commitments ys
unfolding read_points encode_points bytes32
read_points-IsAt [] reader ys h at = (reader, refl, at)
read_points-IsAt (p ∷ ps) reader ys h at =
    let (read, at') =
      take_bytes-IsAt reader 32 p (encode_points ps ++ ys) h.0
        (subst (IsAt reader) (append_assoc p (encode_points ps) ys) at) in
    let (next, others, at'') = read_points-IsAt ps (advance reader 32) ys h.1 at' in
    (next, rw (read, others) refl, at'')

read_points_counted :
    (n : ℕ) (commitments : List CompressedPoint) (reader : ByteReader) (ys : List ℕ)
    → n ≡ length commitments
    → All (λ p. length p ≡ 32) commitments
    → IsAt reader (encode_points commitments ++ ys)
    → Reads (read_points n reader) commitments ys
read_points_counted n commitments reader ys e h at =
    subst (λ (k : ℕ). Reads (read_points k reader) commitments ys) (sym e)
      (read_points-IsAt commitments reader ys h at)

-- What the source's types give, and a length that a vector can have.
pub record IsCommitmentSet (set : VssCommitmentSet) : Type 0 where
  pub dealer_pos : 0 < set.dealer
  pub dealer_word : IsU64 set.dealer
  pub points : All (λ p. length p ≡ 32) set.commitments
  pub bounded : length (commitment_set_encode set) < 2 ^ 63

length-encode_points :
    (ps : List CompressedPoint)
    → All (λ p. length p ≡ 32) ps
    → length (encode_points ps) ≡ 32 * length ps
unfolding encode_points
length-encode_points [] h = refl
length-encode_points (p ∷ ps) h =
    omega (arith, length-append p (encode_points ps), h.0, length-encode_points ps h.1)

-- A commitment set with a nonzero word as dealer, points of 32 bytes and an encoding below 2 ^ 63
-- bytes is decoded from its encoding just as it was.
pub commitment_set_decode-commitment_set_encode :
    (set : VssCommitmentSet)
    → IsCommitmentSet set
    → commitment_set_decode (commitment_set_encode set) ≡ ok set
unfolding commitment_set_decode commitment_set_encode participant_id_new
commitment_set_decode-commitment_set_encode set h =
    let count : length set.commitments * 32 < 2 ^ 63 = omega (
      arith,
      h.bounded,
      length-encode_points set.commitments h.points,
      length-append (to_le_bytes 8 (u64 (length set.commitments))) (encode_points set.commitments),
      length-append (to_le_bytes 8 set.dealer)
          (to_le_bytes 8 (u64 (length set.commitments)) ++ encode_points set.commitments),
      length-append commitment_set_magic (
          to_le_bytes 8 set.dealer
          ++ (to_le_bytes 8 (u64 (length set.commitments)) ++ encode_points set.commitments)),
    ) in
    let small : u64 (length set.commitments) ≡ length set.commitments =
      mod-eq_small _ u64_mod (omega (arith, count)) in
    let (e1, a1) =
      expect-IsAt (reader_new (commitment_set_encode set)) commitment_set_magic _
        (reader_new-IsAt (commitment_set_encode set) (omega (arith, h.bounded))) in
    let (e2, a2) = read_u64-IsAt _ set.dealer _ h.dealer_word a1 in
    let (e3, a3) = read_u64-IsAt _ (u64 (length set.commitments)) _ (omega arith) a2 in
    let (last, e4, a4) =
      read_points_counted _ set.commitments _ [] small h.points
        (subst (IsAt _) (sym (append-nil (encode_points set.commitments))) a3) in
    let dealer : (set.dealer == 0) ≡ false = ground (arith, h.dealer_pos) in
    rw (
      e1,
      e2,
      dealer,
      e3,
      ap with_capacity32 small ∙ with_capacity32-fits (length set.commitments) count,
      e4,
      is_finished-IsAt last a4,
    )

magic-length : length commitment_set_magic ≡ 6
unfolding commitment_set_magic
magic-length = refl

-- An input of the right prefix, a nonzero word as dealer, a word of 2 ^ 58 or more as count, and
-- fewer than 2 ^ 62 bytes more ends the decoder in a panic.
pub commitment_set_decode-panic :
    (dealer count : ℕ) (rest : List ℕ)
    → 0 < dealer
    → IsU64 dealer
    → IsU64 count
    → 2 ^ 58 ≤ count
    → length rest < 2 ^ 62
    → commitment_set_decode
        (commitment_set_magic ++ (to_le_bytes 8 dealer ++ (to_le_bytes 8 count ++ rest)))
      ≡ panic
unfolding commitment_set_decode participant_id_new with_capacity32
commitment_set_decode-panic dealer count rest pos word word' large short =
    let counted = to_le_bytes 8 count ++ rest in
    let input = commitment_set_magic ++ (to_le_bytes 8 dealer ++ counted) in
    let bounded : length input < 2 ^ 64 = omega (
      arith,
      length-append (to_le_bytes 8 count) rest,
      length-append (to_le_bytes 8 dealer) counted,
      length-append commitment_set_magic (to_le_bytes 8 dealer ++ counted),
      short,
      magic-length,
    ) in
    let (e1, a1) =
      expect-IsAt (reader_new input) commitment_set_magic _ (reader_new-IsAt input bounded) in
    let (e2, a2) = read_u64-IsAt _ dealer _ word a1 in
    let (e3, a3) = read_u64-IsAt _ count _ word' a2 in
    let named : (dealer == 0) ≡ false = ground (arith, pos) in
    let overflow : ltb (2 ^ 63 - 1) (count * 32) ≡ true = ground (arith, large) in
    rw (e1, e2, named, e3, overflow)
