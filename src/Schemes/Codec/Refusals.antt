-- ===== src/Schemes/Codec/Refusals.antt =====
-- What the decoders refuse: the bytes of another scheme, and counts that no vector can have.
use phantom_fhe.Base.{
  ℕ, ◌*◌, ◌-◌, ◌^◌, ◌≤◌, ◌≡◌, refl, true, false, ltb, List, [], ◌++◌, err, panic, ◌>>=◌, length,
  IsU64, arith, append_assoc,
}
use phantom_fhe.Base.Bytes.{to_le_bytes, bytes_eq}
use phantom_fhe.Utils.Error.{invalid_domain}
use phantom_fhe.Utils.Header.{DomainTag, from_array, read_expected}
use phantom_fhe.Utils.Buffer.{read_array}
use phantom_fhe.Utils.Buffer.RoundTrip.{read_exact-append}
use phantom_fhe.Schemes.Error.{utils_error}
use phantom_fhe.Schemes.Types.{BgvCiphertext, BfvCiphertext}
use phantom_fhe.Schemes.Serialization.{bgv_ct, bfv_ct, reader_of, read_ciphertext, with_capacity}
use phantom_fhe.Schemes.Serialization.Loops.{Puts-then, Puts-done}
use phantom_fhe.Schemes.Serialization.RoundTrip.{header_bytes, reader_of_lem, read_usize-Reads}
use phantom_fhe.Schemes.Serialization.Objects.{IsStoredCiphertext, ciphertext-Agrees}
use phantom_fhe.Schemes.Codec.{
  encode_bgv_ciphertext, decode_bgv_ciphertext, encode_bfv_ciphertext, decode_bfv_ciphertext,
}
use phantom_fhe.Schemes.Codec.RoundTrip.{encoder_lem}

-- A header of another tag is refused with both tags.
reader_of-other :
    (found wanted : DomainTag) (rest : List ℕ)
    → length found.bytes ≡ 8
    → bytes_eq found.bytes wanted.bytes ≡ false
    → reader_of (header_bytes found ++ rest) wanted
      ≡ err (utils_error (invalid_domain wanted.bytes found.bytes))
unfolding reader_of read_expected read_array from_array
reader_of-other found wanted rest e other = rw (
  append_assoc found.bytes (to_le_bytes 2 1) rest,
  read_exact-append 8 found.bytes (to_le_bytes 2 1 ++ rest) e,
  other,
)

tags :
    (length bgv_ct.bytes ≡ 8)
    × (length bfv_ct.bytes ≡ 8)
    × (bytes_eq bgv_ct.bytes bfv_ct.bytes ≡ false)
    × (bytes_eq bfv_ct.bytes bgv_ct.bytes ≡ false)
unfolding bgv_ct bfv_ct from_array
tags = (refl, refl, refl, refl)

-- The bytes of a BGV ciphertext are refused by the BFV decoder, and those of a BFV ciphertext by
-- the BGV decoder, as an invalid domain with the tag wanted and the tag found, for ciphertexts
-- that vectors hold.
pub decode_ciphertext-other_scheme :
    (bgv : BgvCiphertext) (bfv : BfvCiphertext)
    → IsStoredCiphertext bgv.inner
    → IsStoredCiphertext bfv.inner.inner
    → ((encode_bgv_ciphertext bgv >>= decode_bfv_ciphertext)
        ≡ err (utils_error (invalid_domain bfv_ct.bytes bgv_ct.bytes)))
      × ((encode_bfv_ciphertext bfv >>= decode_bgv_ciphertext)
          ≡ err (utils_error (invalid_domain bgv_ct.bytes bfv_ct.bytes)))
unfolding encode_bgv_ciphertext decode_bgv_ciphertext encode_bfv_ciphertext decode_bfv_ciphertext
decode_ciphertext-other_scheme bgv bfv h k =
    let (bytes, w, _) = ciphertext-Agrees bgv.inner h in
    let (bytes', w', _) = ciphertext-Agrees bfv.inner.inner k in
    (
      rw (
        encoder_lem bgv_ct _ _ (Puts-then bytes [] w Puts-done),
        reader_of-other bgv_ct bfv_ct _ tags.0 tags.2,
      ),
      rw (
        encoder_lem bfv_ct _ _ (Puts-then bytes' [] w' Puts-done),
        reader_of-other bfv_ct bgv_ct _ tags.1 tags.3,
      ),
    )

-- The right header with a count that is a word of 2 ^ 58 or more ends the BGV decoder in a panic,
-- whatever follows.
pub decode_bgv_ciphertext-panic :
    (count : ℕ) (rest : List ℕ)
    → IsU64 count
    → 2 ^ 58 ≤ count
    → decode_bgv_ciphertext (header_bytes bgv_ct ++ (to_le_bytes 8 count ++ rest)) ≡ panic
unfolding decode_bgv_ciphertext read_ciphertext with_capacity
decode_bgv_ciphertext-panic count rest word large =
    let overflow : ltb (2 ^ 63 - 1) (count * 32) ≡ true = ground (arith, large) in
    rw (
      reader_of_lem bgv_ct (to_le_bytes 8 count ++ rest) tags.0,
      read_usize-Reads count word rest,
      overflow,
    )
