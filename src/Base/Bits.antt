-- ===== src/Base/Bits.antt =====
-- The bits of a machine word, for the masks that the source tests with `&`, `|` and `!`.
use mathlib.Core.Logic.{◌⊎◌}
use Prim.Native.Nat.{ℕ, zero, suc, ◌+◌, ◌-◌, ◌*◌, ◌/◌, ◌%◌, ◌^◌, ◌≤◌, ◌<◌, min, max}
use Prim.Native.Nat.{bit_and, bit_or, bit_xor, digits, bitwise, differ}
use Prim.Native.Nat.{bit_and-bitwise, bit_or-bitwise, bit_xor-bitwise}
use mathlib.Core.Path.{◌≡◌, refl, ap, ◌∙◌}
use mathlib.Core.Logic.{◌≢◌}
use native.Mathlib.Omega.{arith}
use native.Mathlib.Nat.{pow-suc, one-le-pow, add-suc, div-div-eq-div-mul}

-- Bit `n` of `x`, as a number.
abbrev pub test_bit : ℕ → ℕ → ℕ
test_bit x zero = x % 2
test_bit x (suc n) = test_bit (x / 2) n

module _ (z : ℕ → ℕ) (f : ℕ → ℕ → ℕ) where
  fuel_irrelevant : (n m a b : ℕ) → a ≤ n → a ≤ m → digits z f n a b ≡ digits z f m a b
  fuel_irrelevant zero zero a b p q = refl
  fuel_irrelevant (suc n) zero zero b p q = refl
  fuel_irrelevant zero (suc m) zero b p q = refl
  fuel_irrelevant (suc n) zero (suc a) b p q = absurd (omega arith)
  fuel_irrelevant zero (suc m) (suc a) b p q = absurd (omega arith)
  fuel_irrelevant (suc n) (suc m) zero b p q = refl
  fuel_irrelevant (suc n) (suc m) (suc a) b p q =
      rw (fuel_irrelevant n m (suc a / 2) (b / 2) (omega arith) (omega arith))

  bitwise_unfold :
      (a b : ℕ)
      → bitwise z f (suc a) b ≡ bitwise z f (suc a / 2) (b / 2) * 2 + f (suc a % 2) (b % 2)
  bitwise_unfold a b =
      omega (arith, fuel_irrelevant a (suc a / 2) (suc a / 2) (b / 2) (omega arith) (omega arith))

pub bit_and_halves : (a b : ℕ) → bit_and a b ≡ bit_and (a / 2) (b / 2) * 2 + min (a % 2) (b % 2)
bit_and_halves zero b = simp bit_and-bitwise (omega arith)
bit_and_halves (suc a) b = simp bit_and-bitwise (bitwise_unfold (λ y. 0) min a b)

pub bit_or_halves : (a b : ℕ) → bit_or a b ≡ bit_or (a / 2) (b / 2) * 2 + max (a % 2) (b % 2)
bit_or_halves zero b = simp bit_or-bitwise (omega arith)
bit_or_halves (suc a) b = simp bit_or-bitwise (bitwise_unfold (λ y. y) max a b)

differ_bits : (x y : ℕ) → x < 2 → y < 2 → differ x y ≡ (x + y) % 2
differ_bits zero y h k = omega arith
differ_bits (suc zero) zero h k = refl
differ_bits (suc zero) (suc zero) h k = refl
differ_bits (suc zero) (suc (suc y)) h k = absurd (omega arith)
differ_bits (suc (suc x)) y h k = absurd (omega arith)

pub bit_xor_halves : (a b : ℕ) → bit_xor a b ≡ bit_xor (a / 2) (b / 2) * 2 + (a + b) % 2
bit_xor_halves zero b = simp bit_xor-bitwise (omega arith)
bit_xor_halves (suc a) b =
    let low = differ_bits (suc a % 2) (b % 2) (omega arith) (omega arith) in
    simp bit_xor-bitwise (omega (arith, bitwise_unfold (λ y. y) differ a b, low))

pub test_bit-bit_and : (n x y : ℕ) → test_bit (bit_and x y) n ≡ min (test_bit x n) (test_bit y n)
test_bit-bit_and zero x y = omega (arith, bit_and_halves x y)
test_bit-bit_and (suc n) x y =
    let e : bit_and x y / 2 ≡ bit_and (x / 2) (y / 2) = omega (arith, bit_and_halves x y) in
    rw e (test_bit-bit_and n (x / 2) (y / 2))

pub test_bit-bit_or : (n x y : ℕ) → test_bit (bit_or x y) n ≡ max (test_bit x n) (test_bit y n)
test_bit-bit_or zero x y = omega (arith, bit_or_halves x y)
test_bit-bit_or (suc n) x y =
    let e : bit_or x y / 2 ≡ bit_or (x / 2) (y / 2) = omega (arith, bit_or_halves x y) in
    rw e (test_bit-bit_or n (x / 2) (y / 2))

pub test_bit-le : (n x : ℕ) → test_bit x n ≤ 1
test_bit-le zero x = omega arith
test_bit-le (suc n) x = test_bit-le n (x / 2)

pub test_bit-zero : (n : ℕ) → test_bit 0 n ≡ 0
test_bit-zero zero = refl
test_bit-zero (suc n) = test_bit-zero n

-- The complement within a word of `w` bits.
pub test_bit-complement :
    (w n x : ℕ) → n < w → x < 2 ^ w → test_bit (2 ^ w - 1 - x) n ≡ 1 - test_bit x n
test_bit-complement zero n x h k = absurd (omega arith)
test_bit-complement (suc w) zero x h k = omega (arith, pow-suc 2 w)
test_bit-complement (suc w) (suc n) x h k =
    let e : (2 ^ suc w - 1 - x) / 2 ≡ 2 ^ w - 1 - x / 2 = omega (arith, pow-suc 2 w) in
    rw e (test_bit-complement w n (x / 2) (omega arith) (omega (arith, pow-suc 2 w)))

bit_and-zero_within : (k a : ℕ) → a ≤ k → bit_and a 0 ≡ 0
bit_and-zero_within k zero h = refl
bit_and-zero_within zero (suc a) h = absurd (omega arith)
bit_and-zero_within (suc k) (suc a) h =
    omega (arith, bit_and_halves (suc a) 0, bit_and-zero_within k (suc a / 2) (omega arith))

pub bit_and-zero : (a : ℕ) → bit_and a 0 ≡ 0
bit_and-zero a = bit_and-zero_within a a (omega arith)

bit_or-zero_within : (k a : ℕ) → a ≤ k → bit_or a 0 ≡ a
bit_or-zero_within k zero h = refl
bit_or-zero_within zero (suc a) h = absurd (omega arith)
bit_or-zero_within (suc k) (suc a) h =
    omega (arith, bit_or_halves (suc a) 0, bit_or-zero_within k (suc a / 2) (omega arith))

pub bit_or-zero : (a : ℕ) → bit_or a 0 ≡ a
bit_or-zero a = bit_or-zero_within a a (omega arith)

-- Masking with one bit.
pub bit_and-pow : (n x : ℕ) → bit_and x (2 ^ n) ≡ test_bit x n * 2 ^ n
bit_and-pow zero x = omega (arith, bit_and_halves x 1, bit_and-zero (x / 2))
bit_and-pow (suc n) x =
    let half : 2 ^ suc n / 2 ≡ 2 ^ n = omega (arith, pow-suc 2 n) in
    let low : 2 ^ suc n % 2 ≡ 0 = omega (arith, pow-suc 2 n) in
    let ih : bit_and (x / 2) (2 ^ suc n / 2) ≡ test_bit (x / 2) n * 2 ^ n =
      rw half (bit_and-pow n (x / 2)) in
    omega (
      arith,
      bit_and_halves x (2 ^ suc n),
      ih,
      low,
      ap (λ (t : ℕ). test_bit (x / 2) n * t) (pow-suc 2 n),
    )

zero_within : (k x : ℕ) → x ≤ k → ((n : ℕ) → test_bit x n ≡ 0) → x ≡ 0
zero_within k zero h e = refl
zero_within zero (suc x) h e = absurd (omega arith)
zero_within (suc k) (suc x) h e =
    omega (arith, e 0, zero_within k (suc x / 2) (omega arith) (λ n. e (suc n)))

-- A word with no bit set is zero.
pub zero_of_bits : (x : ℕ) → ((n : ℕ) → test_bit x n ≡ 0) → x ≡ 0
zero_of_bits x = zero_within x x (omega arith)

-- The bit of a power of two.
pub test_bit-pow_self : (n : ℕ) → test_bit (2 ^ n) n ≡ 1
test_bit-pow_self zero = refl
test_bit-pow_self (suc n) =
    let half : 2 ^ suc n / 2 ≡ 2 ^ n = omega (arith, pow-suc 2 n) in rw half (test_bit-pow_self n)

pub test_bit-pow_ne : (n m : ℕ) → n ≢ m → test_bit (2 ^ n) m ≡ 0
test_bit-pow_ne zero zero h = absurd (h refl)
test_bit-pow_ne zero (suc m) h = test_bit-zero m
test_bit-pow_ne (suc n) zero h = omega (arith, pow-suc 2 n)
test_bit-pow_ne (suc n) (suc m) h =
    let half : 2 ^ suc n / 2 ≡ 2 ^ n = omega (arith, pow-suc 2 n) in
    rw half (test_bit-pow_ne n m (λ e. h (ap suc e)))

-- A word is its own conjunction with all ones.
pub bit_and-ones : (w x : ℕ) → x < 2 ^ w → bit_and x (2 ^ w - 1) ≡ x
bit_and-ones zero zero h = refl
bit_and-ones zero (suc x) h = absurd (omega arith)
bit_and-ones (suc w) x h =
    let half : (2 ^ suc w - 1) / 2 ≡ 2 ^ w - 1 = omega (arith, pow-suc 2 w) in
    let low : (2 ^ suc w - 1) % 2 ≡ 1 = omega (arith, pow-suc 2 w, one-le-pow w 2) in
    let ih : bit_and (x / 2) ((2 ^ suc w - 1) / 2) ≡ x / 2 =
      rw half (bit_and-ones w (x / 2) (omega (arith, pow-suc 2 w))) in
    omega (arith, bit_and_halves x (2 ^ suc w - 1), low, ih)

-- `x & !(2^k - 1)` rounds down to a multiple of `2^k`. The word has `w + k` bits.
pub bit_and-high_mask :
    (k w x : ℕ) → x < 2 ^ (w + k) → bit_and x (2 ^ (w + k) - 2 ^ k) ≡ x / 2 ^ k * 2 ^ k
bit_and-high_mask zero w x h =
    let e : w + 0 ≡ w = omega arith in rw e (omega (arith, bit_and-ones w x (rw e at h)))
bit_and-high_mask (suc k) w x h =
    let p : 2 ^ (w + suc k) ≡ 2 ^ (w + k) * 2 = rw add-suc (pow-suc 2 (w + k)) in
    let half : (2 ^ (w + suc k) - 2 ^ suc k) / 2 ≡ 2 ^ (w + k) - 2 ^ k =
      omega (arith, p, pow-suc 2 k) in
    let low : (2 ^ (w + suc k) - 2 ^ suc k) % 2 ≡ 0 = omega (arith, p, pow-suc 2 k) in
    let ih : bit_and (x / 2) ((2 ^ (w + suc k) - 2 ^ suc k) / 2) ≡ x / 2 / 2 ^ k * 2 ^ k =
      rw half (bit_and-high_mask k w (x / 2) (omega (arith, p))) in
    let steps : x / 2 / 2 ^ k ≡ x / 2 ^ suc k =
      div-div-eq-div-mul x 2 (2 ^ k) ∙ ap (λ (t : ℕ). x / t) (omega (arith, pow-suc 2 k)) in
    omega (
      arith,
      bit_and_halves x (2 ^ (w + suc k) - 2 ^ suc k),
      low,
      ih,
      steps,
      ap (λ (t : ℕ). x / 2 / 2 ^ k * t) (pow-suc 2 k),
      ap (λ (t : ℕ). t * 2 ^ suc k) steps,
    )

-- Exclusive or: bounds, and that it can be undone.
pub bit_xor-lt : (w a b : ℕ) → a < 2 ^ w → b < 2 ^ w → bit_xor a b < 2 ^ w
bit_xor-lt zero zero zero h k = omega arith
bit_xor-lt zero zero (suc b) h k = absurd (omega arith)
bit_xor-lt zero (suc a) b h k = absurd (omega arith)
bit_xor-lt (suc w) a b h k = omega (
  arith,
  pow-suc 2 w,
  bit_xor_halves a b,
  bit_xor-lt w (a / 2) (b / 2) (omega (arith, pow-suc 2 w)) (omega (arith, pow-suc 2 w)),
)

-- The top bit of the second word survives where the first has none.
pub bit_xor_top : (w a b : ℕ) → a < 2 ^ w → 2 ^ w ≤ b → b < 2 ^ suc w → 2 ^ w ≤ bit_xor a b
bit_xor_top zero zero (suc zero) h k l = omega arith
bit_xor_top zero zero zero h k l = absurd (omega arith)
bit_xor_top zero zero (suc (suc b)) h k l = absurd (omega arith)
bit_xor_top zero (suc a) b h k l = absurd (omega arith)
bit_xor_top (suc w) a b h k l =
    let p = pow-suc 2 w in
    let q = pow-suc 2 (suc w) in
    omega (
      arith,
      p,
      bit_xor_halves a b,
      bit_xor_top w (a / 2) (b / 2) (omega (arith, p)) (omega (arith, p)) (omega (arith, p, q)),
    )

xor_cancel_within : (k a b c : ℕ) → a ≤ k → b ≤ k → bit_xor a c ≡ bit_xor b c → a ≡ b
xor_cancel_within zero zero zero c h l e = refl
xor_cancel_within zero zero (suc b) c h l e = absurd (omega arith)
xor_cancel_within zero (suc a) b c h l e = absurd (omega arith)
xor_cancel_within (suc k) a b c h l e =
    let p = bit_xor_halves a c in
    let q = bit_xor_halves b c in
    omega (
      arith,
      p,
      q,
      xor_cancel_within k (a / 2) (b / 2) (c / 2) (omega arith) (omega arith) (omega (arith, p, q)),
    )

pub bit_xor_cancel : (a b c : ℕ) → bit_xor a c ≡ bit_xor b c → a ≡ b
bit_xor_cancel a b c = xor_cancel_within (a + b) a b c (omega arith) (omega arith)

bit_xor_comm_within : (k a b : ℕ) → a ≤ k → b ≤ k → bit_xor a b ≡ bit_xor b a
bit_xor_comm_within zero zero zero h l = refl
bit_xor_comm_within zero zero (suc b) h l = absurd (omega arith)
bit_xor_comm_within zero (suc a) b h l = absurd (omega arith)
bit_xor_comm_within (suc k) a b h l = omega (
  arith,
  bit_xor_halves a b,
  bit_xor_halves b a,
  bit_xor_comm_within k (a / 2) (b / 2) (omega arith) (omega arith),
)

pub bit_xor_comm : (a b : ℕ) → bit_xor a b ≡ bit_xor b a
bit_xor_comm a b = bit_xor_comm_within (a + b) a b (omega arith) (omega arith)

pub zero-bit_xor : (a : ℕ) → bit_xor 0 a ≡ a
zero-bit_xor a = simp bit_xor-bitwise refl

half_div : (k x : ℕ) → x / 2 / 2 ^ k ≡ x / 2 ^ suc k
half_div k x = div-div-eq-div-mul x 2 (2 ^ k) ∙ ap (λ (t : ℕ). x / t) (omega (arith, pow-suc 2 k))

mod_double : (k x : ℕ) → x % 2 ^ suc k ≡ x / 2 % 2 ^ k * 2 + x % 2
mod_double k x = omega (
  arith,
  half_div k x,
  pow-suc 2 k,
  ap (λ (t : ℕ). t * 2 ^ suc k) (half_div k x),
  ap (λ (t : ℕ). x / 2 / 2 ^ k * t) (pow-suc 2 k),
)

-- `x & (2^k - 1)` is the remainder.
pub bit_and-low_mask : (k x : ℕ) → bit_and x (2 ^ k - 1) ≡ x % 2 ^ k
bit_and-low_mask zero x = omega (arith, bit_and-zero x)
bit_and-low_mask (suc k) x =
    let half : (2 ^ suc k - 1) / 2 ≡ 2 ^ k - 1 = omega (arith, pow-suc 2 k) in
    let low : (2 ^ suc k - 1) % 2 ≡ 1 = omega (arith, pow-suc 2 k, one-le-pow k 2) in
    let ih : bit_and (x / 2) ((2 ^ suc k - 1) / 2) ≡ x / 2 % 2 ^ k =
      rw half (bit_and-low_mask k (x / 2)) in
    omega (arith, bit_and_halves x (2 ^ suc k - 1), low, ih, mod_double k x)

pub bit_or-lt : (w x y : ℕ) → x < 2 ^ w → y < 2 ^ w → bit_or x y < 2 ^ w
bit_or-lt zero zero zero p q = omega arith
bit_or-lt zero zero (suc y) p q = absurd (omega arith)
bit_or-lt zero (suc x) y p q = absurd (omega arith)
bit_or-lt (suc w) x y p q = omega (
  arith,
  pow-suc 2 w,
  bit_or_halves x y,
  bit_or-lt w (x / 2) (y / 2) (omega (arith, pow-suc 2 w)) (omega (arith, pow-suc 2 w)),
)

pub pow_pos : (k : ℕ) → 0 < 2 ^ k
pow_pos zero = omega arith
pow_pos (suc k) = omega (arith, pow-suc 2 k, pow_pos k)

pub pow_lt : (k w : ℕ) → k < w → 2 ^ k < 2 ^ w
pow_lt k zero h = absurd (omega arith)
pow_lt zero (suc w) h = omega (arith, pow-suc 2 w, pow_pos w)
pow_lt (suc k) (suc w) h = omega (arith, pow-suc 2 k, pow-suc 2 w, pow_lt k w (omega arith))

pub zero_or_one : (x n : ℕ) → (test_bit x n ≡ 0) ⊎ (test_bit x n ≡ 1)
zero_or_one x zero = ground arith
zero_or_one x (suc n) = zero_or_one (x / 2) n

-- Bits put side by side.
pub bit_or-add : (k h l : ℕ) → l < 2 ^ k → bit_or (h * 2 ^ k) l ≡ h * 2 ^ k + l
bit_or-add zero h zero p = omega (arith, bit_or-zero (h * 2 ^ 0))
bit_or-add zero h (suc l) p = absurd (omega arith)
bit_or-add (suc k) h l p =
    let twice : h * 2 ^ suc k ≡ h * 2 ^ k * 2 =
      omega (arith, pow-suc 2 k, ap (λ (t : ℕ). h * t) (pow-suc 2 k)) in
    let half : h * 2 ^ k * 2 / 2 ≡ h * 2 ^ k = omega arith in
    let ih = bit_or-add k h (l / 2) (omega (arith, pow-suc 2 k)) in
    let step : bit_or (h * 2 ^ k * 2) l
        ≡ bit_or (h * 2 ^ k) (l / 2) * 2 + max (h * 2 ^ k * 2 % 2) (l % 2) =
      rw half at (bit_or_halves (h * 2 ^ k * 2) l) in
    rw twice (omega (arith, step, ih))

bit_or_comm_within : (k a b : ℕ) → a ≤ k → b ≤ k → bit_or a b ≡ bit_or b a
bit_or_comm_within zero zero zero h l = refl
bit_or_comm_within zero zero (suc b) h l = absurd (omega arith)
bit_or_comm_within zero (suc a) b h l = absurd (omega arith)
bit_or_comm_within (suc k) a b h l = omega (
  arith,
  bit_or_halves a b,
  bit_or_halves b a,
  bit_or_comm_within k (a / 2) (b / 2) (omega arith) (omega arith),
)

pub bit_or_comm : (a b : ℕ) → bit_or a b ≡ bit_or b a
bit_or_comm a b = bit_or_comm_within (a + b) a b (omega arith) (omega arith)

bit_and-bit_or_halves :
    (n x a b : ℕ) → x ≤ n → bit_and x a ≡ 0 → bit_and x b ≡ 0 → bit_and x (bit_or a b) ≡ 0
bit_and-bit_or_halves zero zero a b h k l = simp bit_and-bitwise refl
bit_and-bit_or_halves zero (suc x) a b h k l = absurd (omega arith)
bit_and-bit_or_halves (suc n) x a b h k l =
    let either = bit_or_halves a b in
    let e : bit_or a b / 2 ≡ bit_or (a / 2) (b / 2) = omega (arith, either) in
    let ih =
      bit_and-bit_or_halves n (x / 2) (a / 2) (b / 2) (omega arith)
        (omega (arith, bit_and_halves x a)) (omega (arith, bit_and_halves x b)) in
    let whole : bit_and (x / 2) (bit_or a b / 2) ≡ 0 = rw e ih in
    omega
      (arith, whole, either, bit_and_halves x (bit_or a b), bit_and_halves x a, bit_and_halves x b)

-- A word that has no bit of two masks has none of their union.
pub bit_and-bit_or : (x a b : ℕ) → bit_and x a ≡ 0 → bit_and x b ≡ 0 → bit_and x (bit_or a b) ≡ 0
bit_and-bit_or x a b h k = bit_and-bit_or_halves x x a b (omega arith) h k
