-- ===== src/Schemes/Codec/RoundTrip.antt =====
-- The decoders of the BGV and BFV objects on what their encoders give.
use phantom_fhe.Base.{ℕ, ◌≡◌, refl, List, [], ◌++◌, Result, ok, ◌>>=◌, length, IsU64}
use phantom_fhe.Base.Bytes.{to_le_bytes}
use phantom_fhe.Utils.Header.{DomainTag, from_array}
use phantom_fhe.Utils.Buffer.{BufferWriter}
use phantom_fhe.Schemes.Error.{SchemesError}
use phantom_fhe.Schemes.Params.{BgvParams, bgv_params_new, BfvParams, bfv_params_new}
use phantom_fhe.Schemes.Types.{BgvPlaintext, BfvPlaintext, BgvCiphertext, BfvCiphertext}
use phantom_fhe.Schemes.Serialization.{
  bgv_params, bfv_params, bgv_pt, bfv_pt, bgv_ct, bfv_ct, writer_of, write_u64, write_ring,
}
use phantom_fhe.Schemes.Serialization.Loops.{Puts, Puts-then, Puts-done}
use phantom_fhe.Schemes.Serialization.RoundTrip.{
  header_bytes, writer_of_lem, reader_of_lem, write_u64-Writes, read_u64-Reads, IsStored,
  poly-Agrees,
}
use phantom_fhe.Schemes.Serialization.Objects.{
  IsStoredCiphertext, ciphertext-Agrees, IsStoredRing, ring-Agrees,
}
use phantom_fhe.Schemes.Codec.{
  into_inner, encode_bgv_params, decode_bgv_params, encode_bfv_params, decode_bfv_params,
  encode_bgv_plaintext, decode_bgv_plaintext, encode_bfv_plaintext, decode_bfv_plaintext,
  encode_bgv_ciphertext, decode_bgv_ciphertext, encode_bfv_ciphertext, decode_bfv_ciphertext,
}

-- The parts of an encoder: the header, then what `put` writes.
pub encoder_lem :
    (domain : DomainTag) (put : BufferWriter → Result SchemesError (List ℕ)) (bytes : List ℕ)
    → Puts put bytes
    → (writer_of domain >>= put) ≡ ok (header_bytes domain ++ bytes)
encoder_lem domain put bytes h =
    rw (writer_of_lem domain) (h record { output = header_bytes domain })

-- Parameters as `BgvParams::new` gives them, of a ring as its constructors give it.
pub record IsStoredParams (params : BgvParams) : Type 0 where
  pub stored_ring : IsStoredRing params.ring
  pub modulus_word : IsU64 params.plaintext_modulus
  pub accepted : bgv_params_new params.ring params.plaintext_modulus ≡ ok params

params_bytes :
    (params : BgvParams) (h : IsStoredParams params)
    → Puts
        (λ w. write_ring params.ring w >>= λ v. write_u64 params.plaintext_modulus v >>= into_inner)
        ((ring-Agrees params.ring h.stored_ring).0
          ++ (to_le_bytes 8 params.plaintext_modulus ++ []))
params_bytes params h =
    let (bytes, w, r) = ring-Agrees params.ring h.stored_ring in
    Puts-then bytes (to_le_bytes 8 params.plaintext_modulus ++ []) w
      (Puts-then (to_le_bytes 8 params.plaintext_modulus) [] (write_u64-Writes _) Puts-done)

abbrev pub IsTag : DomainTag → Type 0
IsTag tag = length tag.bytes ≡ 8

IsTag-lengths :
    IsTag bgv_params × IsTag bfv_params × IsTag bgv_pt × IsTag bfv_pt × IsTag bgv_ct × IsTag bfv_ct
unfolding bgv_params bfv_params bgv_pt bfv_pt bgv_ct bfv_ct from_array
IsTag-lengths = (refl, refl, refl, refl, refl, refl)

-- Parameters that their constructors accept and that fit words and vectors are decoded from their
-- encoding just as they were.
pub decode_bgv_params-encode_bgv_params :
    (params : BgvParams)
    → IsStoredParams params
    → (encode_bgv_params params >>= decode_bgv_params) ≡ ok params
unfolding encode_bgv_params decode_bgv_params
decode_bgv_params-encode_bgv_params params h = rw (
  encoder_lem bgv_params _ _ (params_bytes params h),
  reader_of_lem bgv_params _ IsTag-lengths.0,
  (ring-Agrees params.ring h.stored_ring).2 (to_le_bytes 8 params.plaintext_modulus ++ []),
  read_u64-Reads params.plaintext_modulus h.modulus_word [],
  h.accepted,
)

decode_bfv_params-encode_bfv_params :
    (params : BfvParams)
    → IsStoredParams params.inner
    → (encode_bfv_params params >>= decode_bfv_params) ≡ ok params
unfolding encode_bfv_params decode_bfv_params bfv_params_new
decode_bfv_params-encode_bfv_params params h = rw (
  encoder_lem bfv_params _ _ (params_bytes params.inner h),
  reader_of_lem bfv_params _ IsTag-lengths.1,
  (ring-Agrees params.inner.ring h.stored_ring).2
      (to_le_bytes 8 params.inner.plaintext_modulus ++ []),
  read_u64-Reads params.inner.plaintext_modulus h.modulus_word [],
  h.accepted,
)

decode_bgv_plaintext-encode_bgv_plaintext :
    (plaintext : BgvPlaintext)
    → IsStored plaintext.inner.value
    → (encode_bgv_plaintext plaintext >>= decode_bgv_plaintext) ≡ ok plaintext
unfolding encode_bgv_plaintext decode_bgv_plaintext
decode_bgv_plaintext-encode_bgv_plaintext plaintext h =
    let (bytes, w, r) = poly-Agrees plaintext.inner.value h in
    rw (
      encoder_lem bgv_pt _ _ (Puts-then bytes [] w Puts-done),
      reader_of_lem bgv_pt _ IsTag-lengths.2,
      r [],
    )

decode_bfv_plaintext-encode_bfv_plaintext :
    (plaintext : BfvPlaintext)
    → IsStored plaintext.inner.inner.value
    → (encode_bfv_plaintext plaintext >>= decode_bfv_plaintext) ≡ ok plaintext
unfolding encode_bfv_plaintext decode_bfv_plaintext
decode_bfv_plaintext-encode_bfv_plaintext plaintext h =
    let (bytes, w, r) = poly-Agrees plaintext.inner.inner.value h in
    rw (
      encoder_lem bfv_pt _ _ (Puts-then bytes [] w Puts-done),
      reader_of_lem bfv_pt _ IsTag-lengths.3,
      r [],
    )

-- A ciphertext of polynomials as vectors hold them is decoded from its encoding just as it was.
pub decode_bgv_ciphertext-encode_bgv_ciphertext :
    (ciphertext : BgvCiphertext)
    → IsStoredCiphertext ciphertext.inner
    → (encode_bgv_ciphertext ciphertext >>= decode_bgv_ciphertext) ≡ ok ciphertext
unfolding encode_bgv_ciphertext decode_bgv_ciphertext
decode_bgv_ciphertext-encode_bgv_ciphertext ciphertext h =
    let (bytes, w, r) = ciphertext-Agrees ciphertext.inner h in
    rw (
      encoder_lem bgv_ct _ _ (Puts-then bytes [] w Puts-done),
      reader_of_lem bgv_ct _ IsTag-lengths.4,
      r [],
    )

decode_bfv_ciphertext-encode_bfv_ciphertext :
    (ciphertext : BfvCiphertext)
    → IsStoredCiphertext ciphertext.inner.inner
    → (encode_bfv_ciphertext ciphertext >>= decode_bfv_ciphertext) ≡ ok ciphertext
unfolding encode_bfv_ciphertext decode_bfv_ciphertext
decode_bfv_ciphertext-encode_bfv_ciphertext ciphertext h =
    let (bytes, w, r) = ciphertext-Agrees ciphertext.inner.inner h in
    rw (
      encoder_lem bfv_ct _ _ (Puts-then bytes [] w Puts-done),
      reader_of_lem bfv_ct _ IsTag-lengths.5,
      r [],
    )
