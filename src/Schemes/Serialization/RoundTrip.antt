-- ===== src/Schemes/Serialization/RoundTrip.antt =====
-- The readers of headers, words, floats and polynomials read back what their writers wrote.
use phantom_fhe.Base.{
  ℕ, ◌-◌, ◌*◌, ◌^◌, ◌<◌, ◌≡◌, refl, sym, true, false, ◌==◌, ltb, List, [], ◌∷◌, ◌++◌, ok, length,
  All, IsU64, u64, u64_mod, arith, append_assoc, All-map,
}
use phantom_fhe.Base.Residues.{mod-eq_small}
use phantom_fhe.Base.Bytes.{to_le_bytes, bytes_eq_refl}
use phantom_fhe.Utils.Buffer.{write_le, write_all, read_array}
use phantom_fhe.Utils.Buffer.RoundTrip.{read_exact-append, read_le-append}
use phantom_fhe.Utils.Header.{DomainTag, header_new, write_to, read_expected, from_array}
use phantom_fhe.Ring.Poly.{Poly, moduli_count}
use phantom_fhe.Ring.Rns.Scaling.{from_coeffs-rows}
use phantom_fhe.Schemes.Float.{is_finite}
use phantom_fhe.Schemes.Serialization.{
  version, writer_of, reader_of, write_u64, read_u64, read_usize, write_f64, read_f64,
  with_capacity, write_poly, read_poly, write_each, read_each,
}
use phantom_fhe.Schemes.Serialization.Loops.{
  Writes, Reads, Agrees, Writes-then, Reads-assoc, loop-Agrees,
}

-- The tag, and the version in two bytes.
abbrev pub header_bytes : DomainTag → List ℕ
header_bytes domain = domain.bytes ++ to_le_bytes 2 1

pub writer_of_lem :
    (domain : DomainTag) → writer_of domain ≡ ok record { output = header_bytes domain }
unfolding writer_of version write_to header_new write_all write_le
writer_of_lem domain = refl

pub reader_of_lem :
    (domain : DomainTag) (rest : List ℕ)
    → length domain.bytes ≡ 8
    → reader_of (header_bytes domain ++ rest) domain ≡ ok record { inner = rest }
unfolding reader_of version read_expected read_array from_array header_new
reader_of_lem domain rest e = rw (
  append_assoc domain.bytes (to_le_bytes 2 1) rest,
  read_exact-append 8 domain.bytes (to_le_bytes 2 1 ++ rest) e,
  bytes_eq_refl domain.bytes,
  read_le-append 2 1 rest (omega arith),
)

pub write_u64-Writes : (x : ℕ) → Writes (write_u64 x) (to_le_bytes 8 x)
unfolding write_u64 write_le write_all
write_u64-Writes x writer = refl

pub read_u64-Reads : (x : ℕ) → IsU64 x → Reads read_u64 (to_le_bytes 8 x) x
unfolding read_u64
read_u64-Reads x h rest = rw (read_le-append 8 x rest (omega (arith, h)))

pub read_usize-Reads : (x : ℕ) → IsU64 x → Reads read_usize (to_le_bytes 8 x) x
unfolding read_usize
read_usize-Reads x h rest =
    let word : ltb x (2 ^ 64) ≡ true = ground (arith, h) in rw (read_u64-Reads x h rest, word)

pub u64-Agrees : (x : ℕ) → IsU64 x → Agrees (write_u64 x) read_u64 x
u64-Agrees x h = (to_le_bytes 8 x, write_u64-Writes x, read_u64-Reads x h)

-- A word that is a finite float.
pub record IsFinite (x : ℕ) : Type 0 where
  pub word : IsU64 x
  pub finite : is_finite x ≡ true

pub write_f64-Writes : (x : ℕ) → IsFinite x → Writes (write_f64 x) (to_le_bytes 8 x)
unfolding write_f64
write_f64-Writes x h writer = rw h.finite (write_u64-Writes x writer)

pub read_f64-Reads : (x : ℕ) → IsFinite x → Reads read_f64 (to_le_bytes 8 x) x
unfolding read_f64
read_f64-Reads x h rest = rw (read_u64-Reads x h.word rest, h.finite)

pub with_capacity-fits : (size count : ℕ) → count * size < 2 ^ 63 → with_capacity size count ≡ ok tt
unfolding with_capacity
with_capacity-fits size count h =
    let fits : ltb (2 ^ 63 - 1) (count * size) ≡ false = ground (arith, h) in rw fits

-- A polynomial as the source's types hold it: rows of one positive length, entries of a word, and
-- sizes that a vector can have.
pub record IsStored (p : Poly) : Type 0 where
  pub degree_pos : 0 < p.degree
  pub rows_pos : 0 < length p.coeffs
  pub rows : All (λ row. length row ≡ p.degree) p.coeffs
  pub words : All (λ row. All IsU64 row) p.coeffs
  pub row_size : p.degree * 8 < 2 ^ 63
  pub size : length p.coeffs * 24 < 2 ^ 63

rows-Agrees :
    (n : ℕ) (rows : List (List ℕ))
    → All (λ row. length row ≡ n) rows
    → All (λ row. All IsU64 row) rows
    → All (λ row. Agrees (write_each write_u64 row) (read_each read_u64 n) row) rows
rows-Agrees n [] h k = tt
rows-Agrees n (row ∷ rows) h k = (
  loop-Agrees write_u64 read_u64 row n (sym h.0) (All-map u64-Agrees row k.0),
  rows-Agrees n rows h.1 k.1,
)

pub poly-Agrees : (p : Poly) → IsStored p → Agrees (write_poly p) read_poly p
unfolding write_poly read_poly moduli_count
poly-Agrees p h =
    let small : u64 (length p.coeffs) ≡ length p.coeffs =
      mod-eq_small _ u64_mod (omega (arith, h.size)) in
    let (bytes, w, r) =
      loop-Agrees (write_each write_u64) (read_each read_u64 p.degree) p.coeffs
        (u64 (length p.coeffs)) small (rows-Agrees p.degree p.coeffs h.rows h.words) in
    let count = to_le_bytes 8 (u64 (length p.coeffs)) in
    let degree = to_le_bytes 8 p.degree in
    let some_rows : (u64 (length p.coeffs) == 0) ≡ false = ground (arith, small, h.rows_pos) in
    let some_degree : (p.degree == 0) ≡ false = ground (arith, h.degree_pos) in
    (
      count ++ (degree ++ bytes),
      Writes-then count (degree ++ bytes) (write_u64-Writes _)
          (Writes-then degree bytes (write_u64-Writes _) w),
      Reads-assoc read_poly count (degree ++ bytes) (λ rest. rw (
        append_assoc degree bytes rest,
        read_usize-Reads (u64 (length p.coeffs)) (omega arith) (degree ++ (bytes ++ rest)),
        read_usize-Reads p.degree (omega (arith, h.row_size)) (bytes ++ rest),
        some_rows,
        some_degree,
        with_capacity-fits 8 p.degree h.row_size,
        with_capacity-fits 24 (u64 (length p.coeffs)) (omega (arith, small, h.size)),
        r rest,
        from_coeffs-rows p.degree p.coeffs h.degree_pos h.rows_pos h.rows,
      )),
    )
