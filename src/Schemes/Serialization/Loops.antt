-- ===== src/Schemes/Serialization/Loops.antt =====
-- What is written is read back: the loops, and one step after another.
use phantom_fhe.Base.{
  ℕ, suc, ◌≡◌, refl, sym, ap, ◌∙◌, List, [], ◌∷◌, ◌++◌, Result, ok, ◌>>=◌, length, All,
  append_assoc, append-nil,
}
use phantom_fhe.Utils.Buffer.{BufferWriter}
use phantom_fhe.Schemes.Error.{SchemesError}
use phantom_fhe.Schemes.Serialization.{Reading, Writing, write_each, read_each}

abbrev pub Writes : Writing → List ℕ → Type 0
Writes write bytes =
    (writer : BufferWriter) → write writer ≡ ok record { output = writer.output ++ bytes }

abbrev pub Reads : {A : Type 0} → Reading A → List ℕ → A → Type 0
Reads read bytes x =
    (rest : List ℕ) → read record { inner = bytes ++ rest } ≡ ok (x, record { inner = rest })

-- What `write` puts out, `read` takes for `x`.
abbrev pub Agrees : {A : Type 0} → Writing → Reading A → A → Type 0
Agrees write read x = (bytes : List ℕ) × Writes write bytes × Reads read bytes x

pub Writes-then :
    {m n : Writing} (b c : List ℕ) → Writes m b → Writes n c → Writes (λ w. m w >>= n) (b ++ c)
Writes-then {n = n} b c h k w =
    ap (λ (r : Result SchemesError BufferWriter). r >>= n) (h w)
    ∙ k record { output = w.output ++ b }
    ∙ ap (λ (t : List ℕ). ok record { output = t }) (append_assoc w.output b c)

pub Reads-assoc :
    {A : Type 0} (read : Reading A) {x : A} (b c : List ℕ)
    → ((rest : List ℕ) → read record { inner = b ++ (c ++ rest) } ≡ ok (x, record { inner = rest }))
    → Reads read (b ++ c) x
Reads-assoc read b c h rest =
    ap (λ (t : List ℕ). read record { inner = t }) (append_assoc b c rest) ∙ h rest

each-Agrees :
    {A : Type 0} (write : A → Writing) (read : Reading A) (xs : List A)
    → All (λ x. Agrees (write x) read x) xs
    → Agrees (write_each write xs) (read_each read (length xs)) xs
unfolding write_each read_each
each-Agrees write read [] h = (
  [],
  (λ w. ap (λ (t : List ℕ). ok record { output = t }) (sym (append-nil w.output))),
  λ rest. refl,
)
each-Agrees write read (x ∷ xs) ((b, w, r), h) =
    let (bs, ws, rs) = each-Agrees write read xs h in
    (
      b ++ bs,
      Writes-then b bs w ws,
      Reads-assoc (read_each read (suc (length xs))) b bs
          (λ rest. rw (r (bs ++ rest), rs rest) refl),
    )

-- A loop of `count` rounds reads back what a loop over as many items wrote.
pub loop-Agrees :
    {A : Type 0} (write : A → Writing) (read : Reading A) (xs : List A) (count : ℕ)
    → count ≡ length xs
    → All (λ x. Agrees (write x) read x) xs
    → Agrees (write_each write xs) (read_each read count) xs
loop-Agrees write read xs count e h =
    let (bytes, w, r) = each-Agrees write read xs h in (bytes, w, rw e r)

-- The writing of an encoder, ended by `into_inner`.
abbrev pub Puts : (BufferWriter → Result SchemesError (List ℕ)) → List ℕ → Type 0
Puts put bytes = (writer : BufferWriter) → put writer ≡ ok (writer.output ++ bytes)

pub Puts-then :
    {m : Writing} {put : BufferWriter → Result SchemesError (List ℕ)} (b c : List ℕ)
    → Writes m b
    → Puts put c
    → Puts (λ w. m w >>= put) (b ++ c)
Puts-then {put = put} b c h k w =
    ap (λ (r : Result SchemesError BufferWriter). r >>= put) (h w)
    ∙ k record { output = w.output ++ b }
    ∙ ap (λ (t : List ℕ). ok t) (append_assoc w.output b c)

pub Puts-done : Puts (λ w. ok w.output) []
Puts-done w = ap (λ (t : List ℕ). ok t) (sym (append-nil w.output))
