-- ===== src/Prelude/Xor.antt =====
-- Laws of `^` and `&` on numbers that are not negative.
use Prim.Native.Nat.{
  ℕ, zero, suc, ◌+◌, ◌*◌, ◌/◌, ◌%◌, ◌^◌, ◌≤◌, ◌<◌, min, bit_and, bit_xor, differ, digits,
  bit_and-bitwise, bit_xor-bitwise,
}
use mathlib.Core.Path.{◌≡◌, refl, sym, ap, ◌∙◌}
use native.Mathlib.Omega.{arith}

differ_bits : (x y : ℕ) → x < 2 → y < 2 → differ x y ≡ (x + y) % 2
differ_bits zero zero p q = refl
differ_bits zero (suc zero) p q = refl
differ_bits (suc zero) zero p q = refl
differ_bits (suc zero) (suc zero) p q = refl
differ_bits (suc (suc x)) y p q = absurd (omega arith)
differ_bits zero (suc (suc y)) p q = absurd (omega arith)
differ_bits (suc zero) (suc (suc y)) p q = absurd (omega arith)

-- more digits to go than the first number has change nothing
digits_enough :
    (m k a b : ℕ) → a ≤ m → a ≤ k → digits (λ y. y) differ m a b ≡ digits (λ y. y) differ k a b
digits_enough zero zero a b p q = refl
digits_enough zero (suc k) zero b p q = refl
digits_enough (suc m) zero zero b p q = refl
digits_enough (suc m) (suc k) zero b p q = refl
digits_enough zero k (suc a) b p q = absurd (omega arith)
digits_enough (suc m) zero (suc a) b p q = absurd (omega arith)
digits_enough (suc m) (suc k) (suc a) b p q =
    ap (λ y. y * 2 + differ (suc a % 2) (b % 2))
      (digits_enough m k (suc a / 2) (b / 2) (omega arith) (omega arith))

-- one digit at a time
bit_xor_digit : (a b : ℕ) → bit_xor a b ≡ bit_xor (a / 2) (b / 2) * 2 + (a + b) % 2
bit_xor_digit zero b = omega (arith, bit_xor-bitwise 0 b, bit_xor-bitwise 0 (b / 2))
bit_xor_digit (suc a) b = omega (
  arith,
  bit_xor-bitwise (suc a) b,
  bit_xor-bitwise (suc a / 2) (b / 2),
  digits_enough a (suc a / 2) (suc a / 2) (b / 2) (omega arith) (omega arith),
  differ_bits (suc a % 2) (b % 2) (omega arith) (omega arith),
)

pub zero-bit_xor : (b : ℕ) → bit_xor 0 b ≡ b
zero-bit_xor b = bit_xor-bitwise 0 b

comm_upto : (n a b : ℕ) → a ≤ n → b ≤ n → bit_xor a b ≡ bit_xor b a
comm_upto zero zero zero p q = refl
comm_upto zero (suc a) b p q = absurd (omega arith)
comm_upto zero zero (suc b) p q = absurd (omega arith)
comm_upto (suc n) a b p q = omega (
  arith,
  bit_xor_digit a b,
  bit_xor_digit b a,
  comm_upto n (a / 2) (b / 2) (omega arith) (omega arith),
)

pub bit_xor_comm : (a b : ℕ) → bit_xor a b ≡ bit_xor b a
bit_xor_comm a b = comm_upto (a + b) a b (omega arith) (omega arith)

twice_upto : (n a b : ℕ) → a ≤ n → bit_xor a (bit_xor a b) ≡ b
twice_upto n zero b p = zero-bit_xor (bit_xor 0 b) ∙ zero-bit_xor b
twice_upto zero (suc a) b p = absurd (omega arith)
twice_upto (suc n) (suc a) b p =
    let half : bit_xor (suc a) b / 2 ≡ bit_xor (suc a / 2) (b / 2) =
      omega (arith, bit_xor_digit (suc a) b) in
    let rest = ap (bit_xor (suc a / 2)) half ∙ twice_upto n (suc a / 2) (b / 2) (omega arith) in
    omega (arith, rest, bit_xor_digit (suc a) b, bit_xor_digit (suc a) (bit_xor (suc a) b))

-- a number cancels itself
pub bit_xor_twice : (a b : ℕ) → bit_xor a (bit_xor a b) ≡ b
bit_xor_twice a b = twice_upto a a b (omega arith)

pub bit_xor_self : (a : ℕ) → bit_xor a a ≡ 0
bit_xor_self a = ap (bit_xor a) (sym (bit_xor_comm a 0 ∙ zero-bit_xor a)) ∙ bit_xor_twice a 0

pub bit_xor_left : (a b c : ℕ) → bit_xor a b ≡ bit_xor a c → b ≡ c
bit_xor_left a b c e = sym (bit_xor_twice a b) ∙ ap (bit_xor a) e ∙ bit_xor_twice a c

pub bit_xor_right : (a b c : ℕ) → bit_xor a c ≡ bit_xor b c → a ≡ b
bit_xor_right a b c e = bit_xor_left c a b (bit_xor_comm c a ∙ e ∙ bit_xor_comm b c)

pub bit_xor_lt : (k a b : ℕ) → a < 2 ^ k → b < 2 ^ k → bit_xor a b < 2 ^ k
bit_xor_lt zero zero zero p q = omega (arith, zero-bit_xor 0)
bit_xor_lt zero (suc a) b p q = absurd (omega arith)
bit_xor_lt zero zero (suc b) p q = absurd (omega arith)
bit_xor_lt (suc k) a b p q =
    omega (arith, bit_xor_digit a b, bit_xor_lt k (a / 2) (b / 2) (omega arith) (omega arith))

and_digits-le : (n a b : ℕ) → digits (λ y. zero) min n a b ≤ b
and_digits-le zero a b = omega arith
and_digits-le (suc n) zero b = omega arith
and_digits-le (suc n) (suc a) b = omega (arith, and_digits-le n (suc a / 2) (b / 2))

pub bit_and-le : (a b : ℕ) → bit_and a b ≤ b
bit_and-le a b = omega (arith, bit_and-bitwise a b, and_digits-le a a b)
