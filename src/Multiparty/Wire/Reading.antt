-- ===== src/Multiparty/Wire/Reading.antt =====
-- A reader that stands before a field reads it and stands behind it.
use native.Mathlib.Nat
use phantom_fhe.Base.{
  ℕ, zero, suc, ◌+◌, ◌-◌, ◌^◌, ◌<◌, ◌≡◌, refl, sym, ap, subst, ◌∙◌, List, [], ◌∷◌, ◌++◌, true,
  false, ltb, leb, some, ok, length, drop, u64, u64_mod, IsU64, arith, take-append, drop-append,
  length-append, append_assoc, append-nil,
}
use phantom_fhe.Base.Bytes.{
  to_le_bytes, get_range, length-to_le_bytes, from_le_bytes-to_le_bytes, bytes_eq_refl,
}
use phantom_fhe.Base.Residues.{mod-eq_small}
use phantom_fhe.Multiparty.Wire.{
  ByteReader, encode_bytes, reader_new, advance, expect, checked_add, take_bytes, read_u32,
  read_u64, read_framed, is_finished,
}

-- What the reader has not read yet is `rest`.
pub record IsAt (reader : ByteReader) (rest : List ℕ) : Type 0 where
  pub unread : drop reader.offset reader.input ≡ rest
  pub inside : reader.offset + length rest ≡ length reader.input
  pub bounded : length reader.input < 2 ^ 64

drop-drop : (a b : ℕ) (xs : List ℕ) → drop (a + b) xs ≡ drop b (drop a xs)
drop-drop zero b xs = rw (Nat.zero-add b)
drop-drop (suc a) zero [] = rw (Nat.suc-add a zero)
drop-drop (suc a) (suc b) [] = rw (Nat.suc-add a (suc b))
drop-drop (suc a) b (x ∷ xs) = rw (Nat.suc-add a b) (drop-drop a b xs)

get_range-IsAt :
    (reader : ByteReader) (xs ys : List ℕ)
    → IsAt reader (xs ++ ys)
    → get_range reader.input reader.offset (reader.offset + length xs) ≡ some xs
get_range-IsAt reader xs ys at =
    let total : reader.offset + (length xs + length ys) ≡ length reader.input =
      omega (arith, at.inside, length-append xs ys) in
    let ordered : ltb (reader.offset + length xs) reader.offset ≡ false = ground arith in
    let within : ltb (length reader.input) (reader.offset + length xs) ≡ false =
      ground (arith, total) in
    let count : reader.offset + length xs - reader.offset ≡ length xs = omega arith in
    rw (ordered, within, count, at.unread) (ap some (take-append xs ys))

advance-IsAt :
    (reader : ByteReader) (xs ys : List ℕ)
    → IsAt reader (xs ++ ys)
    → IsAt (advance reader (length xs)) ys
unfolding advance
advance-IsAt reader xs ys at = record {
  unread = drop-drop reader.offset (length xs) reader.input ∙ (rw at.unread (drop-append xs ys));
  inside = omega (arith, at.inside, length-append xs ys);
  bounded = at.bounded;
}

pub take_bytes-IsAt :
    (reader : ByteReader) (n : ℕ) (xs ys : List ℕ)
    → length xs ≡ n
    → IsAt reader (xs ++ ys)
    → (take_bytes reader n ≡ ok (xs, advance reader n)) × IsAt (advance reader n) ys
unfolding take_bytes advance checked_add
take_bytes-IsAt reader n xs ys e at =
    let fits : leb (2 ^ 64) (reader.offset + length xs) ≡ false =
      ground (arith, at.inside, at.bounded, length-append xs ys) in
    rw (sym e) (rw (fits, get_range-IsAt reader xs ys at) refl, advance-IsAt reader xs ys at)

pub expect-IsAt :
    (reader : ByteReader) (xs ys : List ℕ)
    → IsAt reader (xs ++ ys)
    → (expect reader xs ≡ ok (advance reader (length xs))) × IsAt (advance reader (length xs)) ys
unfolding expect
expect-IsAt reader xs ys at =
    let word : u64 (reader.offset + length xs) ≡ reader.offset + length xs =
      mod-eq_small _ u64_mod (omega (arith, at.inside, at.bounded, length-append xs ys)) in
    (
      rw (word, expect, get_range-IsAt reader xs ys at, bytes_eq_refl xs),
      advance-IsAt reader xs ys at,
    )

pub read_u32-IsAt :
    (reader : ByteReader) (x : ℕ) (ys : List ℕ)
    → x < 2 ^ 32
    → IsAt reader (to_le_bytes 4 x ++ ys)
    → (read_u32 reader ≡ ok (x, advance reader 4)) × IsAt (advance reader 4) ys
unfolding read_u32
read_u32-IsAt reader x ys h at =
    let (taken, next) = take_bytes-IsAt reader 4 (to_le_bytes 4 x) ys (length-to_le_bytes 4 x) at in
    (rw (taken, from_le_bytes-to_le_bytes 4 x (omega (arith, h))), next)

pub read_u64-IsAt :
    (reader : ByteReader) (x : ℕ) (ys : List ℕ)
    → IsU64 x
    → IsAt reader (to_le_bytes 8 x ++ ys)
    → (read_u64 reader ≡ ok (x, advance reader 8)) × IsAt (advance reader 8) ys
unfolding read_u64
read_u64-IsAt reader x ys h at =
    let (taken, next) = take_bytes-IsAt reader 8 (to_le_bytes 8 x) ys (length-to_le_bytes 8 x) at in
    (rw (taken, from_le_bytes-to_le_bytes 8 x (omega (arith, h))), next)

framed-IsU64 :
    (reader : ByteReader) (xs ys : List ℕ) → IsAt reader (encode_bytes xs ++ ys) → IsU64 (length xs)
unfolding encode_bytes
framed-IsU64 reader xs ys at = omega (
  arith,
  at.inside,
  at.bounded,
  length-append (to_le_bytes 8 (u64 (length xs)) ++ xs) ys,
  length-append (to_le_bytes 8 (u64 (length xs))) xs,
)

pub read_framed-IsAt :
    (reader : ByteReader) (xs ys : List ℕ)
    → IsAt reader (encode_bytes xs ++ ys)
    → (read_framed reader ≡ ok (xs, advance (advance reader 8) (length xs)))
      × IsAt (advance (advance reader 8) (length xs)) ys
unfolding read_framed encode_bytes
read_framed-IsAt reader xs ys at =
    let h = framed-IsU64 reader xs ys at in
    let start : IsAt reader (to_le_bytes 8 (length xs) ++ (xs ++ ys)) =
      subst (IsAt reader)
        (append_assoc (to_le_bytes 8 (u64 (length xs))) xs ys
          ∙ ap (λ (t : ℕ). to_le_bytes 8 t ++ (xs ++ ys)) (mod-eq_small (length xs) u64_mod h))
        at in
    let (size, next) = read_u64-IsAt reader (length xs) (xs ++ ys) h start in
    let (taken, last) = take_bytes-IsAt (advance reader 8) (length xs) xs ys refl next in
    (rw (size, taken), last)

pub is_finished-IsAt : (reader : ByteReader) → IsAt reader [] → is_finished reader ≡ true
unfolding is_finished
is_finished-IsAt reader at = ground (arith, at.inside)

pub reader_new-IsAt : (input : List ℕ) → length input < 2 ^ 64 → IsAt (reader_new input) input
unfolding reader_new
reader_new-IsAt input h = record { unread = refl; inside = omega arith; bounded = h }

-- A framed field at the end of the input.
pub read_framed-last :
    (reader : ByteReader) (xs : List ℕ)
    → IsAt reader (encode_bytes xs)
    → (read_framed reader ≡ ok (xs, advance (advance reader 8) (length xs)))
      × (is_finished (advance (advance reader 8) (length xs)) ≡ true)
read_framed-last reader xs at =
    let (read, end) = read_framed-IsAt reader xs [] (subst (IsAt reader) (sym (append-nil _)) at) in
    (read, is_finished-IsAt _ end)
