-- ===== src/Schemes/Codec/CkksRoundTrip.antt =====
-- The decoders of the CKKS objects on what their encoders give.
use phantom_fhe.Base.{
  ℕ, ◌≡◌, refl, true, false, List, [], ◌∷◌, ◌++◌, Bool, Result, ok, ◌>>=◌, IsU64, u64, u64_mod,
}
use phantom_fhe.Base.Residues.{mod-eq_small}
use phantom_fhe.Base.Bytes.{to_le_bytes}
use phantom_fhe.Utils.Header.{from_array}
use phantom_fhe.Utils.Buffer.{BufferWriter, write_u8, write_all, read_u8}
use phantom_fhe.Utils.Buffer.RoundTrip.{read_exact-append}
use phantom_fhe.Ring.Poly.{Poly}
use phantom_fhe.Schemes.Error.{SchemesError, lift_utils}
use phantom_fhe.Schemes.Float.{Scale, scale_new, Precision, precision_new, Complex64}
use phantom_fhe.Schemes.Params.{CkksParams, ckks_params_new}
use phantom_fhe.Schemes.Types.{
  RlweCiphertext, plaintext_new, plaintext_new_real, ciphertext_new, ciphertext_new_real,
}
use phantom_fhe.Schemes.Serialization.{
  ckks_params, ckks_pt, ckks_ct, ckks_pt_real, ckks_ct_real, write_u64, read_usize, write_f64,
}
use phantom_fhe.Schemes.Serialization.Loops.{Reads, Puts, Puts-then, Puts-done}
use phantom_fhe.Schemes.Serialization.RoundTrip.{
  reader_of_lem, write_u64-Writes, read_usize-Reads, IsFinite, write_f64-Writes, read_f64-Reads,
  IsStored, poly-Agrees,
}
use phantom_fhe.Schemes.Serialization.Objects.{
  IsStoredCiphertext, ciphertext-Agrees, AreSlots, slots-Agrees, IsStoredRing, ring-Agrees,
}
use phantom_fhe.Schemes.Codec.{
  byte_of_bool, bool_of_byte, into_inner, read_scale, read_precision, encode_ckks_params,
  decode_ckks_params, encode_ckks_plaintext, decode_ckks_plaintext, encode_ckks_plaintext_real,
  decode_ckks_plaintext_real, encode_ckks_ciphertext, decode_ckks_ciphertext,
  encode_ckks_ciphertext_real, decode_ckks_ciphertext_real,
}
use phantom_fhe.Schemes.Codec.RoundTrip.{encoder_lem, IsTag}

IsTag-lengths :
    IsTag ckks_params × IsTag ckks_pt × IsTag ckks_ct × IsTag ckks_pt_real × IsTag ckks_ct_real
unfolding ckks_params ckks_pt ckks_ct ckks_pt_real ckks_ct_real from_array
IsTag-lengths = (refl, refl, refl, refl, refl)

pub record IsScale (scale : Scale) : Type 0 where
  pub finite : IsFinite scale.value
  pub accepted : scale_new scale.value ≡ ok scale

read_scale-Reads : (s : Scale) → IsScale s → Reads read_scale (to_le_bytes 8 s.value) s
unfolding read_scale
read_scale-Reads s h rest = rw (read_f64-Reads s.value h.finite rest, h.accepted)

read_precision-Reads :
    (p : Precision) → IsFinite p.bits → Reads read_precision (to_le_bytes 8 p.bits) p
unfolding read_precision precision_new
read_precision-Reads p h rest = rw (read_f64-Reads p.bits h rest)

-- `level as u64`, read by `read_usize`.
read_usize-u64 : (n : ℕ) → IsU64 n → Reads read_usize (to_le_bytes 8 (u64 n)) n
read_usize-u64 n h = rw (mod-eq_small n u64_mod h) (read_usize-Reads n h)

-- A valid scale, a level of a word and a finite precision.
pub record AreStamps (scale : Scale) (level : ℕ) (precision : Precision) : Type 0 where
  pub scaled : IsScale scale
  pub levelled : IsU64 level
  pub precise : IsFinite precision.bits

abbrev stamps : Scale → ℕ → Precision → List ℕ → List ℕ
stamps scale level precision rest =
    to_le_bytes 8 scale.value
    ++ (to_le_bytes 8 (u64 level) ++ (to_le_bytes 8 precision.bits ++ rest))

stamps-Puts :
    (s : Scale) (n : ℕ) (p : Precision) (put : BufferWriter → Result SchemesError (List ℕ))
    (rest : List ℕ)
    → AreStamps s n p
    → Puts put rest
    → Puts
        (λ w. write_f64 s.value w >>= λ v. write_u64 (u64 n) v >>= λ u. write_f64 p.bits u >>= put)
        (stamps s n p rest)
stamps-Puts s n p put rest h k =
    Puts-then (to_le_bytes 8 s.value) _ (write_f64-Writes s.value h.scaled.finite) (
      Puts-then (to_le_bytes 8 (u64 n)) _ (write_u64-Writes _)
        (Puts-then (to_le_bytes 8 p.bits) rest (write_f64-Writes p.bits h.precise) k))

-- The bytes of a degree at the end.
degree-Puts : (n : ℕ) → Puts (λ w. write_u64 (u64 n) w >>= into_inner) (to_le_bytes 8 (u64 n) ++ [])
degree-Puts n = Puts-then (to_le_bytes 8 (u64 n)) [] (write_u64-Writes _) Puts-done

-- A ciphertext in the clear with finite slots, a valid scale, a finite precision, and a level and a
-- degree of a word is decoded from its encoding just as it was.
pub decode_ckks_ciphertext-encode_ckks_ciphertext :
    (slots : List Complex64) (scale : Scale) (level : ℕ) (precision : Precision) (degree : ℕ)
    → AreSlots slots
    → AreStamps scale level precision
    → IsU64 degree
    → (encode_ckks_ciphertext (ciphertext_new slots scale level precision degree)
        >>= decode_ckks_ciphertext)
      ≡ ok (ciphertext_new slots scale level precision degree)
unfolding encode_ckks_ciphertext decode_ckks_ciphertext ciphertext_new
decode_ckks_ciphertext-encode_ckks_ciphertext slots s n p d hs h hd =
    let (bytes, w, r) = slots-Agrees slots hs in
    let last = to_le_bytes 8 (u64 d) ++ [] in
    rw (
      encoder_lem ckks_ct _ _ (Puts-then bytes _ w (stamps-Puts s n p _ last h (degree-Puts d))),
      reader_of_lem ckks_ct (bytes ++ stamps s n p last) IsTag-lengths.2,
      r (stamps s n p last),
      read_scale-Reads s h.scaled (to_le_bytes 8 (u64 n) ++ (to_le_bytes 8 p.bits ++ last)),
      read_usize-u64 n h.levelled (to_le_bytes 8 p.bits ++ last),
      read_precision-Reads p h.precise last,
      read_usize-u64 d hd [],
    )

-- A ciphertext of polynomials as vectors hold them, with a valid scale, a finite precision, and a
-- level and a degree of a word, is decoded from its encoding just as it was.
pub decode_ckks_ciphertext_real-encode_ckks_ciphertext_real :
    (poly : RlweCiphertext) (scale : Scale) (level : ℕ) (precision : Precision) (degree : ℕ)
    → IsStoredCiphertext poly
    → AreStamps scale level precision
    → IsU64 degree
    → (encode_ckks_ciphertext_real (ciphertext_new_real poly scale level precision degree)
        >>= decode_ckks_ciphertext_real)
      ≡ ok (ciphertext_new_real poly scale level precision degree)
unfolding encode_ckks_ciphertext_real decode_ckks_ciphertext_real ciphertext_new_real
decode_ckks_ciphertext_real-encode_ckks_ciphertext_real poly s n p d hc h hd =
    let (bytes, w, r) = ciphertext-Agrees poly hc in
    let last = to_le_bytes 8 (u64 d) ++ [] in
    rw (
      encoder_lem ckks_ct_real _ _
          (Puts-then bytes _ w (stamps-Puts s n p _ last h (degree-Puts d))),
      reader_of_lem ckks_ct_real (bytes ++ stamps s n p last) IsTag-lengths.4,
      r (stamps s n p last),
      read_scale-Reads s h.scaled (to_le_bytes 8 (u64 n) ++ (to_le_bytes 8 p.bits ++ last)),
      read_usize-u64 n h.levelled (to_le_bytes 8 p.bits ++ last),
      read_precision-Reads p h.precise last,
      read_usize-u64 d hd [],
    )

decode_ckks_plaintext-encode_ckks_plaintext :
    (slots : List Complex64) (scale : Scale) (level : ℕ) (precision : Precision)
    → AreSlots slots
    → AreStamps scale level precision
    → (encode_ckks_plaintext (plaintext_new slots scale level precision) >>= decode_ckks_plaintext)
      ≡ ok (plaintext_new slots scale level precision)
unfolding encode_ckks_plaintext decode_ckks_plaintext plaintext_new
decode_ckks_plaintext-encode_ckks_plaintext slots s n p hs h =
    let (bytes, w, r) = slots-Agrees slots hs in
    rw (
      encoder_lem ckks_pt _ _ (Puts-then bytes _ w (stamps-Puts s n p _ [] h Puts-done)),
      reader_of_lem ckks_pt (bytes ++ stamps s n p []) IsTag-lengths.1,
      r (stamps s n p []),
      read_scale-Reads s h.scaled (to_le_bytes 8 (u64 n) ++ (to_le_bytes 8 p.bits ++ [])),
      read_usize-u64 n h.levelled (to_le_bytes 8 p.bits ++ []),
      read_precision-Reads p h.precise [],
    )

-- The slots that a real plaintext was made from are not encoded.
decode_ckks_plaintext_real-encode_ckks_plaintext_real :
    (slots : List Complex64) (scale : Scale) (level : ℕ) (precision : Precision) (poly : Poly)
    → IsStored poly
    → AreStamps scale level precision
    → (encode_ckks_plaintext_real (plaintext_new_real slots scale level precision poly)
        >>= decode_ckks_plaintext_real)
      ≡ ok (plaintext_new_real [] scale level precision poly)
unfolding encode_ckks_plaintext_real decode_ckks_plaintext_real plaintext_new_real
decode_ckks_plaintext_real-encode_ckks_plaintext_real slots s n p poly hp h =
    let (bytes, w, r) = poly-Agrees poly hp in
    rw (
      encoder_lem ckks_pt_real _ _ (Puts-then bytes _ w (stamps-Puts s n p _ [] h Puts-done)),
      reader_of_lem ckks_pt_real (bytes ++ stamps s n p []) IsTag-lengths.3,
      r (stamps s n p []),
      read_scale-Reads s h.scaled (to_le_bytes 8 (u64 n) ++ (to_le_bytes 8 p.bits ++ [])),
      read_usize-u64 n h.levelled (to_le_bytes 8 p.bits ++ []),
      read_precision-Reads p h.precise [],
    )

write_u8-Writes :
    (x : ℕ) (w : BufferWriter) → write_u8 x w ≡ ok record { output = w.output ++ (x ∷ []) }
unfolding write_u8 write_all
write_u8-Writes x w = refl

read_u8-Reads :
    (x : ℕ) (rest : List ℕ) → read_u8 record { inner = x ∷ rest } ≡ ok (x, record { inner = rest })
unfolding read_u8
read_u8-Reads x rest = rw (read_exact-append 1 (x ∷ []) rest refl)

bool_of_byte-byte_of_bool : (b : Bool) → bool_of_byte (byte_of_bool b) ≡ ok b
unfolding bool_of_byte byte_of_bool
bool_of_byte-byte_of_bool true = refl
bool_of_byte-byte_of_bool false = refl

decode_ckks_params-encode_ckks_params :
    (params : CkksParams)
    → IsStoredRing params.ring
    → IsScale params.default_scale
    → ckks_params_new params.ring params.default_scale params.conjugate_invariant ≡ ok params
    → (encode_ckks_params params >>= decode_ckks_params) ≡ ok params
unfolding encode_ckks_params decode_ckks_params
decode_ckks_params-encode_ckks_params params hr hs accepted =
    let (bytes, w, r) = ring-Agrees params.ring hr in
    let scale = to_le_bytes 8 params.default_scale.value in
    let byte = byte_of_bool params.conjugate_invariant in
    rw (
      encoder_lem ckks_params _ _ (
          Puts-then bytes _ w (
            Puts-then scale _ (write_f64-Writes _ hs.finite) (
              Puts-then {m = λ w. lift_utils (write_u8 byte w)} (byte ∷ []) []
                (λ w. rw (write_u8-Writes byte w)) Puts-done))),
      reader_of_lem ckks_params (bytes ++ (scale ++ (byte ∷ []))) IsTag-lengths.0,
      r (scale ++ (byte ∷ [])),
      read_scale-Reads params.default_scale hs (byte ∷ []),
      read_u8-Reads byte [],
      bool_of_byte-byte_of_bool params.conjugate_invariant,
      accepted,
    )
