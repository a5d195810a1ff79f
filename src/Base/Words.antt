-- ===== src/Base/Words.antt =====
-- Machine words in byte slices: `from_le_bytes`, `from_be_bytes`, their inverses, and the checked
-- additions of `u32` and of the 64-bit `usize`.
use mathlib.Core.Path.{◌≡◌, refl, ap}
use mathlib.Core.List.{List, [], ◌∷◌, ◌++◌}
use mathlib.Core.Option.{Option, none, some}
use Prim.Native.Nat.{ℕ, zero, suc, ◌+◌, ◌*◌, ◌/◌, ◌%◌, ◌^◌, ◌<◌}
use native.Mathlib.Nat.{pow-suc}
use native.Mathlib.Omega.{arith}
use rp1_bootloader_po_c.Base.Tests.{ltb, if◌then◌else◌}
use rp1_bootloader_po_c.Base.Lists.{length, length-append, All-append, IsBytes}

abbrev pub u32_mod : ℕ
u32_mod = 2 ^ 32

abbrev pub usize_mod : ℕ
usize_mod = 2 ^ 64

abbrev pub checked_add32 : ℕ → ℕ → Option ℕ
checked_add32 a b = if ltb (a + b) u32_mod then some (a + b) else none

abbrev pub checked_add : ℕ → ℕ → Option ℕ
checked_add a b = if ltb (a + b) usize_mod then some (a + b) else none

abbrev pub checked_mul : ℕ → ℕ → Option ℕ
checked_mul a b = if ltb (a * b) usize_mod then some (a * b) else none

abbrev pub from_le_bytes : List ℕ → ℕ
from_le_bytes [] = 0
from_le_bytes (b ∷ bs) = b + 256 * from_le_bytes bs

abbrev pub to_le_bytes : ℕ → ℕ → List ℕ
to_le_bytes zero v = []
to_le_bytes (suc n) v = v % 256 ∷ to_le_bytes n (v / 256)

abbrev be_onto : ℕ → List ℕ → ℕ
be_onto acc [] = acc
be_onto acc (b ∷ bs) = be_onto (acc * 256 + b) bs

abbrev pub from_be_bytes : List ℕ → ℕ
from_be_bytes = be_onto 0

abbrev pub to_be_bytes : ℕ → ℕ → List ℕ
to_be_bytes zero v = []
to_be_bytes (suc n) v = to_be_bytes n (v / 256) ++ v % 256 ∷ []

pub from_le_bytes-to_le_bytes : (n v : ℕ) → v < 256 ^ n → from_le_bytes (to_le_bytes n v) ≡ v
from_le_bytes-to_le_bytes zero v h = omega arith
from_le_bytes-to_le_bytes (suc n) v h =
    omega (arith, from_le_bytes-to_le_bytes n (v / 256) (omega (arith, pow-suc 256 n)))

be_onto-append :
    (acc : ℕ) (bs : List ℕ) (b : ℕ) → be_onto acc (bs ++ b ∷ []) ≡ be_onto acc bs * 256 + b
be_onto-append acc [] b = refl
be_onto-append acc (c ∷ bs) b = be_onto-append (acc * 256 + c) bs b

pub from_be_bytes-to_be_bytes : (n v : ℕ) → v < 256 ^ n → from_be_bytes (to_be_bytes n v) ≡ v
from_be_bytes-to_be_bytes zero v h = omega arith
from_be_bytes-to_be_bytes (suc n) v h = omega (
  arith,
  be_onto-append 0 (to_be_bytes n (v / 256)) (v % 256),
  from_be_bytes-to_be_bytes n (v / 256) (omega (arith, pow-suc 256 n)),
)

pub from_le_bytes-lt : (bs : List ℕ) → IsBytes bs → from_le_bytes bs < 256 ^ length bs
from_le_bytes-lt [] h = omega arith
from_le_bytes-lt (b ∷ bs) h = omega (arith, pow-suc 256 (length bs), from_le_bytes-lt bs h.1, h.0)

pub length-to_le_bytes : (n v : ℕ) → length (to_le_bytes n v) ≡ n
length-to_le_bytes zero v = refl
length-to_le_bytes (suc n) v = ap suc (length-to_le_bytes n (v / 256))

pub length-to_be_bytes : (n v : ℕ) → length (to_be_bytes n v) ≡ n
length-to_be_bytes zero v = refl
length-to_be_bytes (suc n) v =
    omega (
      arith,
      length-append (to_be_bytes n (v / 256)) (v % 256 ∷ []),
      length-to_be_bytes n (v / 256),
    )

pub to_le_bytes-IsBytes : (n v : ℕ) → IsBytes (to_le_bytes n v)
to_le_bytes-IsBytes zero v = tt
to_le_bytes-IsBytes (suc n) v = (omega arith, to_le_bytes-IsBytes n (v / 256))

pub to_be_bytes-IsBytes : (n v : ℕ) → IsBytes (to_be_bytes n v)
to_be_bytes-IsBytes zero v = tt
to_be_bytes-IsBytes (suc n) v =
    All-append (λ b. b < 256) (to_be_bytes n (v / 256)) (v % 256 ∷ [])
      (to_be_bytes-IsBytes n (v / 256)) (omega arith, tt)
