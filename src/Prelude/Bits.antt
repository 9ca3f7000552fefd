-- ===== src/Prelude/Bits.antt =====
-- The binary digits of a number, and the bitwise operations digit by digit.
use Prim.Native.Nat.{
  ℕ, zero, suc, ◌+◌, ◌-◌, ◌*◌, ◌/◌, ◌%◌, ◌^◌, ◌≤◌, ◌<◌, min, max, bit_and, bit_or, digits,
  bit_and-bitwise, bit_or-bitwise,
}
use mathlib.Core.Path.{◌≡◌, refl, sym, ap, ◌∙◌}
use mathlib.Core.Logic.{inl, inr}
use native.Mathlib.Nat.{pow-suc}
use mathlib.Core.Bool.{Bool, false, not, ◌&&◌, ◌||◌}
use native.Mathlib.Omega.{arith}
use targetd.Prelude.Tests.{◌==◌, Bool-cases}

-- Digit `k`, the lowest being 0.
unfoldable pub bit : ℕ → ℕ → Bool
bit zero x = x % 2 == 1
bit (suc k) x = bit k (x / 2)

-- A digitwise operation `op`, where `rest` gives what is above the last digit of the first number.
module _ (rest : ℕ → ℕ) (op : ℕ → ℕ → ℕ) where
  digits-zero : (fuel y : ℕ) → digits rest op fuel 0 y ≡ rest y
  digits-zero zero y = refl
  digits-zero (suc fuel) y = refl

  -- More fuel than the first number changes nothing.
  digits_more :
      (fuel extra x y : ℕ) → x ≤ fuel → digits rest op (fuel + extra) x y ≡ digits rest op fuel x y
  digits_more fuel extra zero y le = digits-zero (fuel + extra) y ∙ sym (digits-zero fuel y)
  digits_more zero extra (suc x) y le = absurd (omega arith)
  digits_more (suc fuel) extra (suc x) y le =
      let shifted : suc fuel + extra ≡ suc (fuel + extra) = omega arith in
      ap (λ f. digits rest op f (suc x) y) shifted
      ∙ ap (λ high. high * 2 + op (suc x % 2) (y % 2))
          (digits_more fuel extra (suc x / 2) (y / 2) (omega arith))

  digits_enough : (fuel x y : ℕ) → x ≤ fuel → digits rest op fuel x y ≡ digits rest op x x y
  digits_enough fuel x y le =
      let all : fuel ≡ x + (fuel - x) = omega arith in
      ap (λ f. digits rest op f x y) all ∙ digits_more x (fuel - x) x y (omega arith)

  -- The last digit, and those above it.
  digits_last :
      (x y : ℕ)
      → digits rest op (suc x) (suc x) y
        ≡ digits rest op (suc x / 2) (suc x / 2) (y / 2) * 2 + op (suc x % 2) (y % 2)
  digits_last x y =
      ap (λ high. high * 2 + op (suc x % 2) (y % 2))
        (digits_enough x (suc x / 2) (y / 2) (omega arith))

none-bit_and : (y : ℕ) → bit_and 0 y ≡ 0
none-bit_and y = bit_and-bitwise 0 y

pub zero-bit_or : (y : ℕ) → bit_or 0 y ≡ y
zero-bit_or y = bit_or-bitwise 0 y

last-bit_and : (x y : ℕ) → bit_and x y ≡ bit_and (x / 2) (y / 2) * 2 + min (x % 2) (y % 2)
last-bit_and zero y = omega (arith, none-bit_and y, none-bit_and (y / 2))
last-bit_and (suc x) y =
    bit_and-bitwise (suc x) y
    ∙ digits_last (λ b. zero) min x y
    ∙ ap (λ high. high * 2 + min (suc x % 2) (y % 2)) (sym (bit_and-bitwise (suc x / 2) (y / 2)))

last-bit_or : (x y : ℕ) → bit_or x y ≡ bit_or (x / 2) (y / 2) * 2 + max (x % 2) (y % 2)
last-bit_or zero y = omega (arith, zero-bit_or y, zero-bit_or (y / 2))
last-bit_or (suc x) y =
    bit_or-bitwise (suc x) y
    ∙ digits_last (λ b. b) max x y
    ∙ ap (λ high. high * 2 + max (suc x % 2) (y % 2)) (sym (bit_or-bitwise (suc x / 2) (y / 2)))

half-bit_and : (a b : ℕ) → bit_and a b / 2 ≡ bit_and (a / 2) (b / 2)
half-bit_and a b = omega (arith, last-bit_and a b)

half-bit_or : (a b : ℕ) → bit_or a b / 2 ≡ bit_or (a / 2) (b / 2)
half-bit_or a b = omega (arith, last-bit_or a b)

pub bit-bit_and : (k a b : ℕ) → bit k (bit_and a b) ≡ (bit k a && bit k b)
unfolding bit
bit-bit_and zero a b = ground (arith, last-bit_and a b)
bit-bit_and (suc k) a b = rw half-bit_and (bit-bit_and k (a / 2) (b / 2))

pub bit-bit_or : (k a b : ℕ) → bit k (bit_or a b) ≡ (bit k a || bit k b)
unfolding bit
bit-bit_or zero a b = ground (arith, last-bit_or a b)
bit-bit_or (suc k) a b = rw half-bit_or (bit-bit_or k (a / 2) (b / 2))

-- Numbers with the same digits are equal.
eq_of_bit_below : (n a b : ℕ) → a ≤ n → b ≤ n → ((k : ℕ) → bit k a ≡ bit k b) → a ≡ b
unfolding bit
eq_of_bit_below zero a b p q h = omega arith
eq_of_bit_below (suc n) a b p q h =
    ground
      (arith, h 0, eq_of_bit_below n (a / 2) (b / 2) (omega arith) (omega arith) (λ k. h (suc k)))

pub eq_of_bit : (a b : ℕ) → ((k : ℕ) → bit k a ≡ bit k b) → a ≡ b
eq_of_bit a b h = eq_of_bit_below (a + b) a b (omega arith) (omega arith) h

-- `a & ~b`: the digits of `a` that `b` lacks.
unfoldable pub and_not : ℕ → ℕ → ℕ
and_not a b = a - bit_and a b

bit_and-le_below : (n a b : ℕ) → a ≤ n → bit_and a b ≤ a
bit_and-le_below zero a b h = ground (arith, none-bit_and b)
bit_and-le_below (suc n) zero b h = omega (arith, none-bit_and b)
bit_and-le_below (suc n) (suc a) b h =
    omega (arith, last-bit_and (suc a) b, bit_and-le_below n (suc a / 2) (b / 2) (omega arith))

bit_and-le : (a b : ℕ) → bit_and a b ≤ a
bit_and-le a b = bit_and-le_below a a b (omega arith)

half-and_not : (a b : ℕ) → and_not a b / 2 ≡ and_not (a / 2) (b / 2)
unfolding and_not
half-and_not a b = omega (arith, last-bit_and a b, bit_and-le (a / 2) (b / 2))

pub bit-and_not : (k a b : ℕ) → bit k (and_not a b) ≡ (bit k a && not (bit k b))
unfolding bit
bit-and_not zero a b =
    unfold and_not in ground (arith, last-bit_and a b, bit_and-le (a / 2) (b / 2))
bit-and_not (suc k) a b = rw half-and_not (bit-and_not k (a / 2) (b / 2))

pub bit-zero : (k : ℕ) → bit k 0 ≡ false
unfolding bit
bit-zero zero = refl
bit-zero (suc k) = bit-zero k

pub bit-pow : (j k : ℕ) → bit k (2 ^ j) ≡ (k == j)
unfolding bit
bit-pow zero zero = refl
bit-pow zero (suc k) = rw bit-zero (ground arith)
bit-pow (suc j) zero = ground (arith, pow-suc 2 j)
bit-pow (suc j) (suc k) =
    let half : 2 ^ suc j / 2 ≡ 2 ^ j = omega (arith, pow-suc 2 j) in
    rw half (bit-pow j k ∙ ground arith)

-- A mask of one digit is not met exactly where the digit is missing.
pub bit_and-pow_iff : (x j : ℕ) → (bit_and x (2 ^ j) == 0) ≡ not (bit j x)
bit_and-pow_iff x j = elim (Bool-cases (bit j x)) [
  | inl set ↦ ground (
    arith,
    set,
    bit-bit_and j x (2 ^ j),
    bit-pow j j,
    bit-zero j,
    ap (bit j) {x = bit_and x (2 ^ j)} {y = 0},
  )
  | inr unset ↦ ground (arith, eq_of_bit (bit_and x (2 ^ j)) 0 (missing unset))
]
  where
    missing : bit j x ≡ false → (k : ℕ) → bit k (bit_and x (2 ^ j)) ≡ bit k 0
    missing e k = ground (arith, bit-bit_and k x (2 ^ j), bit-pow j k, bit-zero k)

-- A number below 2 ^ j has no digit from `j` on.
pub bit_of_lt : (k j x : ℕ) → x < 2 ^ j → j ≤ k → bit k x ≡ false
unfolding bit
bit_of_lt zero zero x h l = ground arith
bit_of_lt zero (suc j) x h l = absurd (omega arith)
bit_of_lt (suc k) zero x h l = let e : x / 2 ≡ 0 = omega arith in rw e (bit-zero k)
bit_of_lt (suc k) (suc j) x h l = bit_of_lt k j (x / 2) (omega (arith, pow-suc 2 j)) (omega arith)
