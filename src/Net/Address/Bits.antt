-- ===== src/Net/Address/Bits.antt =====
-- Laws of `bit_and` with the masks of address prefixes.
use Prim.Native.Nat.{
  ℕ, zero, suc, ◌+◌, ◌-◌, ◌*◌, ◌/◌, ◌%◌, ◌^◌, ◌≤◌, ◌<◌, min, bit_and, digits, bit_and-bitwise,
}
use weakforced.Prelude.{◌≡◌, refl, ap, arith, sym, ◌∙◌}
use native.Mathlib.Nat.{pow-suc, div-div-eq-div-mul, zero-add}

-- The bits of a conjunction, the lowest first, at most `n` of them.
abbrev conjunction : ℕ → ℕ → ℕ → ℕ
conjunction n x y = digits (λ _. zero) min n x y

conjunction-suc : (x n y : ℕ) → x ≤ n → conjunction (suc n) x y ≡ conjunction n x y
conjunction-suc zero n y le = elim n as (λ k. conjunction (suc k) 0 y ≡ conjunction k 0 y) [
  | zero ↦ refl
  | suc k ↦ refl
]
conjunction-suc (suc x) zero y le = absurd (omega arith)
conjunction-suc (suc x) (suc n) y le =
    omega (arith, conjunction-suc (suc x / 2) n (y / 2) (omega arith))

conjunction-more : (more x y : ℕ) → conjunction (more + x) x y ≡ bit_and x y
conjunction-more zero x y = rw zero-add (sym (bit_and-bitwise x y))
conjunction-more (suc more) x y =
    let next : suc more + x ≡ suc (more + x) = omega arith in
    rw next (conjunction-suc x (more + x) y (omega arith) ∙ conjunction-more more x y)

-- As many bits as the number itself are enough.
conjunction-enough : (n x y : ℕ) → x ≤ n → conjunction n x y ≡ bit_and x y
conjunction-enough n x y le =
    let all : n - x + x ≡ n = omega arith in
    ap (λ (t : ℕ). conjunction t x y) (sym all) ∙ conjunction-more (n - x) x y

conjunction-zero : (n x : ℕ) → conjunction n x 0 ≡ 0
conjunction-zero zero x = refl
conjunction-zero (suc n) zero = refl
conjunction-zero (suc n) (suc x) = omega (arith, conjunction-zero n (suc x / 2))

bit_and-zero : (x : ℕ) → bit_and x 0 ≡ 0
bit_and-zero x = bit_and-bitwise x 0 ∙ conjunction-zero x x

-- The lowest bit, and the others.
bit_and-halves : (x y : ℕ) → bit_and x y ≡ min (x % 2) (y % 2) + 2 * bit_and (x / 2) (y / 2)
bit_and-halves zero y =
    let none_left : bit_and 0 y ≡ 0 = bit_and-bitwise 0 y in
    let none_later : bit_and 0 (y / 2) ≡ 0 = bit_and-bitwise 0 (y / 2) in omega arith
bit_and-halves (suc x) y =
    let whole = conjunction-enough (suc (suc x)) (suc x) y (omega arith) in
    let rest = conjunction-enough (suc x) (suc x / 2) (y / 2) (omega arith) in
    omega (arith, whole, rest)

pub two_pow_suc : (n : ℕ) → 2 ^ suc n ≡ 2 ^ n * 2
two_pow_suc n = omega (arith, pow-suc 2 n)

pub two_pow_pos : (n : ℕ) → 1 ≤ 2 ^ n
two_pow_pos zero = omega arith
two_pow_pos (suc n) = omega (arith, two_pow_suc n, two_pow_pos n)

pub div-pow_suc : (k a : ℕ) → a / 2 ^ suc k ≡ a / 2 / 2 ^ k
div-pow_suc k a =
    let double : 2 ^ suc k ≡ 2 * 2 ^ k = omega (arith, two_pow_suc k) in
    rw double (sym (div-div-eq-div-mul a 2 (2 ^ k)))

-- A mask of `n` ones keeps a number below `2 ^ n`.
pub bit_and-ones : (n a : ℕ) → a < 2 ^ n → bit_and a (2 ^ n - 1) ≡ a
bit_and-ones zero zero h = refl
bit_and-ones zero (suc a) h = absurd (omega arith)
bit_and-ones (suc n) a h =
    let half : (2 ^ suc n - 1) / 2 ≡ 2 ^ n - 1 = omega (arith, two_pow_suc n, two_pow_pos n) in
    omega (
      arith,
      bit_and-halves a (2 ^ suc n - 1),
      ap (bit_and (a / 2)) half,
      bit_and-ones n (a / 2) (omega (arith, two_pow_suc n)),
      two_pow_suc n,
      two_pow_pos n,
    )

-- Zeros at the low end of the mask.
pub bit_and-shift : (k a m : ℕ) → bit_and a (m * 2 ^ k) ≡ bit_and (a / 2 ^ k) m * 2 ^ k
bit_and-shift zero a m =
    let low : m * 2 ^ 0 ≡ m = omega arith in
    let whole : a / 2 ^ 0 ≡ a = omega arith in rw (low, whole) (omega arith)
bit_and-shift (suc k) a m =
    let twice : m * 2 ^ suc k ≡ m * 2 ^ k * 2 =
      omega (arith, ap (λ (t : ℕ). m * t) (two_pow_suc k)) in
    let half : m * 2 ^ suc k / 2 ≡ m * 2 ^ k = omega (arith, twice) in
    let deep : a / 2 ^ suc k ≡ a / 2 / 2 ^ k = div-pow_suc k a in
    omega (
      arith,
      bit_and-halves a (m * 2 ^ suc k),
      ap (bit_and (a / 2)) half,
      bit_and-shift k (a / 2) m,
      ap (λ (t : ℕ). bit_and t m) deep,
      twice,
      ap (λ (t : ℕ). bit_and (a / 2 ^ suc k) m * t) (two_pow_suc k),
      ap (λ (t : ℕ). t * 2 ^ k) (ap (λ (t : ℕ). bit_and t m) deep),
    )
