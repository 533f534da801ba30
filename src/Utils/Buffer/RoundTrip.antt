-- ===== src/Utils/Buffer/RoundTrip.antt =====
-- Reading gives back what was written, and stops where the writing stopped.
use phantom_fhe.Base.{
  ℕ, ◌^◌, ◌<◌, ◌≡◌, refl, sym, ap, List, [], ◌++◌, ok, ◌>>=◌, ltb, leb, length, u64, u64_mod, arith,
  true, false, take-append, drop-append, length-append, append_assoc,
}
use phantom_fhe.Base.Bytes.{to_le_bytes, length-to_le_bytes, from_le_bytes-to_le_bytes}
use phantom_fhe.Base.Residues.{mod-eq_small}
use phantom_fhe.Utils.Buffer.{
  BufferWriter, read_exact, read_le, usize_try_from, read_bytes, write_all, write_le, write_bytes,
}

pub read_exact-append :
    (n : ℕ) (xs ys : List ℕ)
    → length xs ≡ n
    → read_exact n record { inner = xs ++ ys } ≡ ok (xs, record { inner = ys })
unfolding read_exact
read_exact-append n xs ys e =
    let fits : ltb (length (xs ++ ys)) n ≡ false = ground (arith, length-append xs ys) in
    rw (fits, sym e, take-append xs ys, drop-append xs ys)

pub read_le-append :
    (n x : ℕ) (ys : List ℕ)
    → x < 256 ^ n
    → read_le n record { inner = to_le_bytes n x ++ ys } ≡ ok (x, record { inner = ys })
unfolding read_le
read_le-append n x ys h = rw (
  read_exact-append n (to_le_bytes n x) ys (length-to_le_bytes n x),
  from_le_bytes-to_le_bytes n x h,
)

write_bytes_lem :
    (bytes : List ℕ) (writer : BufferWriter)
    → write_bytes bytes writer
      ≡ ok record { output = writer.output ++ (to_le_bytes 8 (u64 (length bytes)) ++ bytes) }
unfolding write_bytes write_le write_all
write_bytes_lem bytes writer =
    ap (λ (t : List ℕ). ok record { output = t }) (append_assoc writer.output _ bytes)

read_bytes-framed :
    (bytes rest : List ℕ)
    → length bytes < 2 ^ 63
    → read_bytes record { inner = (to_le_bytes 8 (length bytes) ++ bytes) ++ rest }
      ≡ ok (bytes, record { inner = rest })
unfolding read_bytes usize_try_from
read_bytes-framed bytes rest h =
    let small : leb (2 ^ 63) (length bytes) ≡ false = ground arith in
    let word : ltb (length bytes) (2 ^ 64) ≡ true = ground arith in
    rw
      (
        append_assoc (to_le_bytes 8 (length bytes)) bytes rest,
        read_le-append 8 (length bytes) (bytes ++ rest) (omega arith),
        word,
        small,
      )
      (read_exact-append (length bytes) bytes rest refl)

-- A byte string shorter than 2 ^ 63 is read back from what `write_bytes` puts on an empty writer,
-- and the reader is left at what follows.
pub read_bytes-write_bytes :
    (bytes rest : List ℕ)
    → length bytes < 2 ^ 63
    → (write_bytes bytes record { output = [] } >>= λ writer.
        read_bytes record { inner = writer.output ++ rest })
      ≡ ok (bytes, record { inner = rest })
read_bytes-write_bytes bytes rest h =
    rw
      (
        write_bytes_lem bytes record { output = [] },
        mod-eq_small (length bytes) u64_mod (omega arith),
      )
      (read_bytes-framed bytes rest h)
