-- ===== src/Base/Fallible.antt =====
-- `Result<T, E>` of the source, with `?` as the bind of a `do` block. `panic` is a run that ends
-- in a panic: an index out of range, a failed assertion, a division by zero.
use Prim.Native.Nat.{ℕ, zero, suc, ◌+◌, ◌<◌}
use mathlib.Core.Path.{◌≡◌, refl, ap, ◌∙◌}
use mathlib.Core.Bool.{Bool, true, false}
use mathlib.Core.List.{List, [], ◌∷◌}
use mathlib.Core.Option.{Option, none, some}
use native.Mathlib.Omega.{arith}
use phantom_fhe.Base.Lists.{get_elem?, get_or, length, get_elem?-eq-get_or}

pub data Result {ℓ} (E : Type 0) (A : Type ℓ) : Type ℓ where
  ok : A → Result E A
  err : E → Result E A
  panic : Result E A

infixl 5 ◌>>=◌ ◌>>◌
abbrev pub ◌>>=◌ {ℓ κ} :
    {E : Type 0} {A : Type ℓ} {B : Type κ} → Result E A → (A → Result E B) → Result E B
ok a >>= f = f a
err e >>= f = err e
panic >>= f = panic

abbrev pub ◌>>◌ {ℓ} : {E : Type 0} {B : Type ℓ} → Result E (Unit {0}) → Result E B → Result E B
m >> k = m >>= λ _. k

-- `if !test { return Err(e) }`.
abbrev pub guard : {E : Type 0} → Bool → E → Result E (Unit {0})
guard true e = ok tt
guard false e = err e

-- `option.ok_or(e)`.
abbrev pub ok_or {ℓ} : {E : Type 0} {A : Type ℓ} → Option A → E → Result E A
ok_or none e = err e
ok_or (some a) e = ok a

-- `result.ok()`.
abbrev pub to_option {ℓ} : {E : Type 0} {A : Type ℓ} → Result E A → Option A
to_option (ok a) = some a
to_option (err e) = none
to_option panic = none

-- `items[i]`, which panics out of range.
abbrev pub or_panic {ℓ} : {E : Type 0} {A : Type ℓ} → Option A → Result E A
or_panic none = panic
or_panic (some a) = ok a

abbrev pub index {ℓ} : {E : Type 0} {A : Type ℓ} → List A → ℕ → Result E A
index xs i = or_panic (get_elem? xs i)

pub index_lem {ℓ} :
    {E : Type 0} {A : Type ℓ} (xs : List A) (i : ℕ) (d : A)
    → i < length xs
    → index {E = E} xs i ≡ ok (get_or xs i d)
index_lem xs i d h = ground (arith, get_elem?-eq-get_or xs i d h)

-- Inversion of a passed guard.
pub guard-eq-ok {ℓ} :
    {E : Type 0} {B : Type ℓ} (test : Bool) (e : E) (m : Result E B) {b : B}
    → (guard test e >> m) ≡ ok b
    → (test ≡ true) × (m ≡ ok b)
guard-eq-ok true e m h = (refl, h)
guard-eq-ok false e m h = absurd (ground arith)

-- Inversion of a passed check.
pub >>-eq-ok {ℓ} :
    {E : Type 0} {B : Type ℓ} (check : Result E (Unit {0})) (m : Result E B) {b : B}
    → (check >> m) ≡ ok b
    → (check ≡ ok tt) × (m ≡ ok b)
>>-eq-ok (ok tt) m h = (refl, h)
>>-eq-ok (err e) m h = absurd (ground arith)
>>-eq-ok panic m h = absurd (ground arith)

pub ok_inj {ℓ} : {E : Type 0} {A : Type ℓ} {a b : A} → ◌≡◌ {A = Result E A} (ok a) (ok b) → a ≡ b
ok_inj h = ground (arith, h)

-- Inversion of `?`.
pub >>=-eq-ok {ℓ κ} :
    {E : Type 0} {A : Type ℓ} {B : Type κ} (step : Result E A) (after : A → Result E B) {out : B}
    → (step >>= after) ≡ ok out
    → (value : A) × (step ≡ ok value) × (after value ≡ ok out)
>>=-eq-ok (ok value) after eq = (value, refl, eq)
>>=-eq-ok (err _) after eq = absurd (ground arith)
>>=-eq-ok panic after eq = absurd (ground arith)

pub guard-passed : {E : Type 0} (test : Bool) (e : E) → guard test e ≡ ok tt → test ≡ true
guard-passed true e h = refl
guard-passed false e h = absurd (ground arith)

pub ok_or-eq-ok {ℓ} :
    {E : Type 0} {A : Type ℓ} (o : Option A) (e : E) {a : A} → ok_or o e ≡ ok a → o ≡ some a
ok_or-eq-ok none e h = absurd (ground arith)
ok_or-eq-ok (some x) e h = ap some (ok_inj h)

-- `for j in i..i + rounds`, the results collected.
abbrev pub collect {ℓ} : {E : Type 0} {A : Type ℓ} → (ℕ → Result E A) → ℕ → ℕ → Result E (List A)
collect f zero i = ok []
collect f (suc rounds) i = do a ← f i; rest ← collect f rounds (i + 1); ok (a ∷ rest)

abbrev pub tabulate {ℓ} : {A : Type ℓ} → (ℕ → A) → ℕ → ℕ → List A
tabulate g zero i = []
tabulate g (suc rounds) i = g i ∷ tabulate g rounds (i + 1)

pub collect-tabulate {ℓ} :
    {E : Type 0} {A : Type ℓ} (f : ℕ → Result E A) (g : ℕ → A) (rounds i : ℕ)
    → ((j : ℕ) → j < i + rounds → f j ≡ ok (g j))
    → collect f rounds i ≡ ok (tabulate g rounds i)
collect-tabulate f g zero i h = refl
collect-tabulate f g (suc rounds) i h =
    rw (h i (omega arith), collect-tabulate f g rounds (i + 1) (λ j l. h j (omega arith))) refl

pub tabulate-length {ℓ} :
    {A : Type ℓ} (g : ℕ → A) (rounds i : ℕ) → length (tabulate g rounds i) ≡ rounds
tabulate-length g zero i = refl
tabulate-length g (suc rounds) i = ap suc (tabulate-length g rounds (i + 1))

pub get_or-tabulate {ℓ} :
    {A : Type ℓ} (g : ℕ → A) (rounds i j : ℕ) (d : A)
    → j < rounds
    → get_or (tabulate g rounds i) j d ≡ g (i + j)
get_or-tabulate g zero i j d h = absurd (omega arith)
get_or-tabulate g (suc rounds) i zero d h = ap g (omega arith)
get_or-tabulate g (suc rounds) i (suc j) d h =
    get_or-tabulate g rounds (i + 1) j d (omega arith) ∙ ap g (omega arith)
