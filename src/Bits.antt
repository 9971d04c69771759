-- ===== src/Bits.antt =====
-- `&` with a mask and `|` of disjoint fields as arithmetic, at every width: what the shifts and
-- masks of src/cants/CanTsCodec.hpp do to a word.
use Prim.Native.Nat.{digits, bitwise, bit_and-bitwise, bit_or-bitwise}
use native.Mathlib.Nat.{pow-suc, mul-one, div-one, div-div-eq-div-mul, div-add-mod, mul_comm}
use cannect.Base.{
  ℕ, zero, suc, ◌+◌, ◌*◌, ◌/◌, ◌%◌, ◌^◌, ◌≤◌, ◌<◌, min, max, bit_and, bit_or, ◌≡◌, refl, ap, sym,
  ◌∙◌, arith, Bool, true, ◌&&◌,
}

-- The digit recursion does not depend on fuel that is enough.
module _ (base : ℕ → ℕ) (step : ℕ → ℕ → ℕ) where
  enough_digits : (n m x y : ℕ) → x ≤ n → x ≤ m → digits base step n x y ≡ digits base step m x y
  enough_digits zero m (suc x) y p q = absurd (omega arith)
  enough_digits n zero (suc x) y p q = absurd (omega arith)
  enough_digits zero zero zero y p q = refl
  enough_digits zero (suc m) zero y p q = refl
  enough_digits (suc n) zero zero y p q = refl
  enough_digits (suc n) (suc m) zero y p q = refl
  enough_digits (suc n) (suc m) (suc x) y p q =
      rw (enough_digits n m (suc x / 2) (y / 2) (omega arith) (omega arith))

  bitwise_lowest :
      (x y : ℕ)
      → bitwise base step (suc x) y
        ≡ bitwise base step (suc x / 2) (y / 2) * 2 + step (suc x % 2) (y % 2)
  bitwise_lowest x y =
      omega (arith, enough_digits x (suc x / 2) (suc x / 2) (y / 2) (omega arith) (omega arith))

pub bit_or_lowest : (a b : ℕ) → bit_or a b ≡ bit_or (a / 2) (b / 2) * 2 + max (a % 2) (b % 2)
bit_or_lowest zero b = simp bit_or-bitwise (omega arith)
bit_or_lowest (suc a) b = simp bit_or-bitwise (bitwise_lowest (λ y. y) max a b)

pub bit_and_lowest : (a b : ℕ) → bit_and a b ≡ bit_and (a / 2) (b / 2) * 2 + min (a % 2) (b % 2)
bit_and_lowest zero b = simp bit_and-bitwise (omega arith)
bit_and_lowest (suc a) b = simp bit_and-bitwise (bitwise_lowest (λ y. 0) min a b)

zero_masks_fuel : (n a : ℕ) → a ≤ n → bit_and a 0 ≡ 0
zero_masks_fuel n zero h = refl
zero_masks_fuel zero (suc a) h = absurd (omega arith)
zero_masks_fuel (suc n) (suc a) h =
    omega (arith, bit_and_lowest (suc a) 0, zero_masks_fuel n (suc a / 2) (omega arith))

pub bit_and-zero : (a : ℕ) → bit_and a 0 ≡ 0
bit_and-zero a = zero_masks_fuel a a (omega arith)

bit_or_zero_fuel : (n a : ℕ) → a ≤ n → bit_or a 0 ≡ a
bit_or_zero_fuel n zero h = refl
bit_or_zero_fuel zero (suc a) h = absurd (omega arith)
bit_or_zero_fuel (suc n) (suc a) h =
    omega (arith, bit_or_lowest (suc a) 0, bit_or_zero_fuel n (suc a / 2) (omega arith))

pub bit_or-zero : (a : ℕ) → bit_or a 0 ≡ a
bit_or-zero a = bit_or_zero_fuel a a (omega arith)

pub zero-bit_or : (a : ℕ) → bit_or 0 a ≡ a
zero-bit_or a = simp bit_or-bitwise (omega arith)

-- Shifting one place up doubles.
double_pow : (q k : ℕ) → q * 2 ^ suc k ≡ 2 * (q * 2 ^ k)
double_pow q k = omega (arith, ap (λ (t : ℕ). q * t) (pow-suc 2 k))

-- A field below bit `k` joins by `|` as by `+`.
pub bit_or_disjoint : (k q r : ℕ) → r < 2 ^ k → bit_or (q * 2 ^ k) r ≡ q * 2 ^ k + r
bit_or_disjoint zero q r h = ground (arith, bit_or-zero q)
bit_or_disjoint (suc k) q r h = ground (
  arith,
  bit_or_lowest (q * 2 ^ suc k) r,
  double_pow q k,
  pow-suc 2 k,
  bit_or_disjoint k q (r / 2) (omega (arith, pow-suc 2 k)),
)

or_swapped_fuel : (n a b : ℕ) → a ≤ n → bit_or a b ≡ bit_or b a
or_swapped_fuel n zero b h = zero-bit_or b ∙ sym (bit_or-zero b)
or_swapped_fuel zero (suc a) b h = absurd (omega arith)
or_swapped_fuel (suc n) (suc a) b h = omega (
  arith,
  bit_or_lowest (suc a) b,
  bit_or_lowest b (suc a),
  or_swapped_fuel n (suc a / 2) (b / 2) (omega arith),
)

pub bit_or_swapped : (a b : ℕ) → bit_or a b ≡ bit_or b a
bit_or_swapped a b = or_swapped_fuel a a b (omega arith)

mod_double : (p a : ℕ) → a % (2 * p) ≡ 2 * (a / 2 % p) + a % 2
mod_double p a = omega (
  arith,
  div-add-mod a (2 * p),
  ap (λ t. 2 * p * t) (div-div-eq-div-mul a 2 p),
  div-add-mod (a / 2) p,
)

half_double : (x y : ℕ) → y ≡ 2 * x → y / 2 ≡ x
half_double x y e = omega arith

div_twice : (a s : ℕ) → a / 2 / 2 ^ s ≡ a / 2 ^ suc s
div_twice a s = div-div-eq-div-mul a 2 (2 ^ s) ∙ ap (λ t. a / t) (sym (pow-suc 2 s ∙ mul_comm _ _))

pow_pos : (k : ℕ) → 0 < 2 ^ k
pow_pos zero = omega arith
pow_pos (suc k) = omega (arith, pow-suc 2 k, pow_pos k)

-- A mask of `k` ones is the remainder by `2 ^ k`.
pub bit_and_ones : (k a m : ℕ) → m + 1 ≡ 2 ^ k → bit_and a m ≡ a % 2 ^ k
bit_and_ones zero a m h = let e : m ≡ 0 = omega arith in rw e (omega (arith, bit_and-zero a))
bit_and_ones (suc k) a m h = omega (
  arith,
  bit_and_lowest a m,
  pow-suc 2 k,
  bit_and_ones k (a / 2) (m / 2) (omega (arith, pow-suc 2 k)),
  mod_double (2 ^ k) a,
  ap (λ t. a % t) (pow-suc 2 k ∙ mul_comm _ _),
  pow_pos k,
)

-- A mask shifted by `s` places reads the word shifted down.
pub bit_and_shifted : (s a m : ℕ) → bit_and a (m * 2 ^ s) ≡ bit_and (a / 2 ^ s) m * 2 ^ s
bit_and_shifted zero a m = simp (mul-one, div-one)
bit_and_shifted (suc s) a m = omega (
  arith,
  bit_and_lowest a (m * 2 ^ suc s),
  double_pow m s,
  double_pow (bit_and (a / 2 ^ suc s) m) s,
  ap (λ t. bit_and (a / 2) t) (half_double (m * 2 ^ s) (m * 2 ^ suc s) (double_pow m s)),
  bit_and_shifted s (a / 2) m,
  ap (λ t. bit_and t m * 2 ^ s) (div_twice a s),
)

-- A mask of `w` ones at bit `s` cuts that field out, in place.
pub bit_and_field :
    (w s a m : ℕ) → m + 1 ≡ 2 ^ w → bit_and a (m * 2 ^ s) ≡ a / 2 ^ s % 2 ^ w * 2 ^ s
bit_and_field w s a m e =
    bit_and_shifted s a m ∙ ap (λ t. t * 2 ^ s) (bit_and_ones w (a / 2 ^ s) m e)

-- Over a small range, every value by evaluation.
unfoldable pub all_below : ℕ → (ℕ → Bool) → Bool
all_below zero p = true
all_below (suc n) p = p n && all_below n p

pub all_below_sound :
    (bound : ℕ) (test : ℕ → Bool) (i : ℕ) → all_below bound test ≡ true → i < bound → test i ≡ true
unfolding all_below
all_below_sound zero test i all below = absurd (omega arith)
all_below_sound (suc bound) test i all below = ground (arith, all_below_sound bound test i)
