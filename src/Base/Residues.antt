-- ===== src/Base/Residues.antt =====
-- Congruences: laws of `%` under products and powers, at a variable modulus.
use Prim.Native.Nat.{ℕ, zero, suc, ◌+◌, ◌-◌, ◌*◌, ◌/◌, ◌%◌, ◌^◌, ◌≤◌, ◌<◌}
use mathlib.Core.Path.{◌≡◌, sym, ap, ◌∙◌}
use native.Mathlib.Nat
use native.Mathlib.Omega.{arith}

pub mod-mul-mod : (a b m : ℕ) → a % m * b % m ≡ a * b % m
mod-mul-mod a b m = sym (ap (λ (t : ℕ). t * b % m) (sym (Nat.div-add-mod a m)) ∙ step)
  where
    step : (m * (a / m) + a % m) * b % m ≡ a % m * b % m
    step = ap (λ (t : ℕ). t % m) (grind arith) ∙ Nat.mul-add-mod_self_left m (a / m * b) (a % m * b)

pub mul-mod-mod : (a b m : ℕ) → a * (b % m) % m ≡ a * b % m
mul-mod-mod a b m = rw (Nat.mul_comm a (b % m), Nat.mul_comm a b) (mod-mul-mod b a m)

pub mul-mod : (a b m : ℕ) → a % m * (b % m) % m ≡ a * b % m
mul-mod a b m = mod-mul-mod a (b % m) m ∙ mul-mod-mod a b m

-- Equal residues stay equal under a product and a sum.
pub mul-mod_cong : (a b c m : ℕ) → a % m ≡ b % m → a * c % m ≡ b * c % m
mul-mod_cong a b c m h = sym (mod-mul-mod a c m) ∙ ap (λ (t : ℕ). t * c % m) h ∙ mod-mul-mod b c m

pub mul-mod_cong₂ : (a b c d m : ℕ) → a % m ≡ b % m → c % m ≡ d % m → a * c % m ≡ b * d % m
mul-mod_cong₂ a b c d m h k =
    mul-mod_cong a b c m h ∙ (rw (Nat.mul_comm b c, Nat.mul_comm b d) (mul-mod_cong c d b m k))

pub add-mod_cong : (a b c m : ℕ) → a % m ≡ b % m → (a + c) % m ≡ (b + c) % m
add-mod_cong a b c m h =
    sym (Nat.mod-add-mod a m c) ∙ ap (λ (t : ℕ). (t + c) % m) h ∙ Nat.mod-add-mod b m c

-- Equal residues after adding the same number were equal before.
pub add-mod_cancel : (a b c m : ℕ) → 0 < m → (a + c) % m ≡ (b + c) % m → a % m ≡ b % m
add-mod_cancel a b c m pos h = sym (back a) ∙ add-mod_cong (a + c) (b + c) (m - c % m) m h ∙ back b
  where
    whole : c + (m - c % m) ≡ m * (c / m + 1)
    whole = grind (arith, Nat.div-add-mod c m, Nat.mod-lt c pos)

    back : (x : ℕ) → (x + c + (m - c % m)) % m ≡ x % m
    back x =
        ap (λ (t : ℕ). t % m) (Nat.add_assoc x c (m - c % m) ∙ ap (λ (t : ℕ). x + t) whole)
        ∙ Nat.add-mul-mod_self_left x m (c / m + 1)

pub pow-add : (a n k : ℕ) → a ^ (n + k) ≡ a ^ n * a ^ k
pow-add a n zero = rw (Nat.add-zero, Nat.pow-zero, Nat.mul-one)
pow-add a n (suc k) =
    rw (Nat.add-suc, Nat.pow-suc a (n + k), Nat.pow-suc a k, pow-add a n k)
      (Nat.mul_assoc (a ^ n) (a ^ k) a)

pub mod-pow : (a n m : ℕ) → (a % m) ^ n % m ≡ a ^ n % m
mod-pow a zero m = rw (Nat.pow-zero (a % m), Nat.pow-zero a)
mod-pow a (suc n) m =
    rw (Nat.pow-suc (a % m) n, Nat.pow-suc a n)
      (mul-mod_cong₂ ((a % m) ^ n) (a ^ n) (a % m) a m (mod-pow a n m) (Nat.mod-mod a m))

-- A multiple and a small rest have that quotient and that remainder.
pub div_unique : (q r m : ℕ) → r < m → (q * m + r) / m ≡ q
div_unique q r m h =
    Nat.mul-add-div_right (omega arith) q r
    ∙ ap (λ (t : ℕ). q + t) (Nat.div-eq_of_lt h)
    ∙ Nat.add-zero q

pub mod_unique : (q r m : ℕ) → r < m → (q * m + r) % m ≡ r
mod_unique q r m h = Nat.mul-add-mod_self_right q m r ∙ Nat.mod-eq_of_lt h

-- A number below twice the modulus is reduced by one subtraction at most.
pub mod-sub : (x m : ℕ) → m ≤ x → x < m + m → x % m ≡ x - m
mod-sub x m h k = Nat.mod-eq-sub-mod h ∙ Nat.mod-eq_of_lt (omega arith)

pub mod-eq_small : (x m : ℕ) → x < m → x % m ≡ x
mod-eq_small x m h = Nat.mod-eq_of_lt h

-- A remainder by an even number keeps the parity.
pub even-mod-odd : (x n : ℕ) → x % 2 ≡ 1 → x % (2 * n) % 2 ≡ 1
even-mod-odd x n h = omega (arith, h, Nat.div-add-mod x (2 * n), regroup)
  where
    regroup : 2 * n * (x / (2 * n)) ≡ 2 * (n * (x / (2 * n)))
    regroup = Nat.mul_assoc 2 n (x / (2 * n))
