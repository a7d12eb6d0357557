-- ===== src/Prelude/Bits.antt =====
-- `&` with a mask that clears the low byte, and `|` of a byte into a word, as arithmetic.
use Prim.Native.Nat.{
  ℕ, zero, suc, ◌+◌, ◌-◌, ◌*◌, ◌/◌, ◌%◌, ◌^◌, ◌≤◌, ◌<◌, min, max, bit_and, bit_or, digits, bitwise,
  bit_and-bitwise, bit_or-bitwise,
}
use mathlib.Core.Path.{◌≡◌, refl}
use native.Mathlib.Nat.{pow-suc, one-le-pow}
use native.Mathlib.Omega.{arith}

-- Any fuel that reaches the first argument gives the same digits.
module _ (end : ℕ → ℕ) (op : ℕ → ℕ → ℕ) where
  digits-any_fuel : (k l x y : ℕ) → x ≤ k → x ≤ l → digits end op k x y ≡ digits end op l x y
  digits-any_fuel k l zero y hk hl = go k l
    where
      go : (k l : ℕ) → digits end op k zero y ≡ digits end op l zero y
      go zero zero = refl
      go zero (suc l) = refl
      go (suc k) zero = refl
      go (suc k) (suc l) = refl
  digits-any_fuel zero l (suc x) y hk hl = absurd (omega arith)
  digits-any_fuel (suc k) zero (suc x) y hk hl = absurd (omega arith)
  digits-any_fuel (suc k) (suc l) (suc x) y hk hl =
      omega (arith, digits-any_fuel k l (suc x / 2) (y / 2) (omega arith) (omega arith))

  bitwise_step :
      (x y : ℕ)
      → bitwise end op (suc x) y ≡ bitwise end op (suc x / 2) (y / 2) * 2 + op (suc x % 2) (y % 2)
  bitwise_step x y =
      omega (arith, digits-any_fuel x (suc x / 2) (suc x / 2) (y / 2) (omega arith) (omega arith))

pub bit_and_digit : (x y : ℕ) → bit_and x y ≡ bit_and (x / 2) (y / 2) * 2 + min (x % 2) (y % 2)
bit_and_digit zero y = simp bit_and-bitwise (omega arith)
bit_and_digit (suc x) y = simp bit_and-bitwise (bitwise_step (λ _. 0) min x y)

pub bit_or_digit : (x y : ℕ) → bit_or x y ≡ bit_or (x / 2) (y / 2) * 2 + max (x % 2) (y % 2)
bit_or_digit zero y = simp bit_or-bitwise (omega arith)
bit_or_digit (suc x) y = simp bit_or-bitwise (bitwise_step (λ b. b) max x y)

pub bit_and-zero : (n x : ℕ) → x ≤ n → bit_and x 0 ≡ 0
bit_and-zero n zero h = refl
bit_and-zero zero (suc x) h = absurd (omega arith)
bit_and-zero (suc n) (suc x) h =
    omega (arith, bit_and_digit (suc x) 0, bit_and-zero n (suc x / 2) (omega arith))

bit_or-zero : (n x : ℕ) → x ≤ n → bit_or x 0 ≡ x
bit_or-zero n zero h = refl
bit_or-zero zero (suc x) h = absurd (omega arith)
bit_or-zero (suc n) (suc x) h =
    omega (arith, bit_or_digit (suc x) 0, bit_or-zero n (suc x / 2) (omega arith))

-- A mask of `k` ones keeps a number of `k` digits.
pub bit_and_ones : (k x : ℕ) → x < 2 ^ k → bit_and x (2 ^ k - 1) ≡ x
bit_and_ones zero x h = omega (arith, bit_and-zero x x)
bit_and_ones (suc k) x h =
    ground
      (arith, bit_and_digit x (2 ^ suc k - 1), pow-suc 2 k, one-le-pow k 2, bit_and_ones k (x / 2))

bit_and_double : (x m : ℕ) → bit_and x (2 * m) ≡ bit_and (x / 2) m * 2
bit_and_double x m = ground (arith, bit_and_digit x (2 * m))

bit_or_double : (a v : ℕ) → bit_or (2 * a) v ≡ bit_or a (v / 2) * 2 + v % 2
bit_or_double a v = ground (arith, bit_or_digit (2 * a) v)

abbrev pub halved : ℕ → ℕ → ℕ
halved zero x = x
halved (suc k) x = halved k (x / 2)

abbrev pub doubled : ℕ → ℕ → ℕ
doubled zero x = x
doubled (suc k) x = 2 * doubled k x

pub bit_and-doubled : (k x m : ℕ) → bit_and x (doubled k m) ≡ doubled k (bit_and (halved k x) m)
bit_and-doubled zero x m = refl
bit_and-doubled (suc k) x m =
    omega (arith, bit_and_double x (doubled k m), bit_and-doubled k (x / 2) m)

bit_or-doubled : (k a v : ℕ) → v < 2 ^ k → bit_or (doubled k a) v ≡ doubled k a + v
bit_or-doubled zero a v h = ground (arith, bit_or-zero a a)
bit_or-doubled (suc k) a v h =
    ground (arith, bit_or_double (doubled k a) v, pow-suc 2 k, bit_or-doubled k a (v / 2))

pub put_low_byte :
    (x v : ℕ)
    → x < 2 ^ 64
    → v < 256
    → bit_or (bit_and x 0xffff_ffff_ffff_ff00) v ≡ x / 256 * 256 + v
put_low_byte x v hx hv = rw (bit_and-doubled 8 x (2 ^ 56 - 1)) (
    rw (bit_and_ones 56 (halved 8 x) (omega arith))
      (rw (bit_or-doubled 8 (halved 8 x) v hv) (omega arith)))
