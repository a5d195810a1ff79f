-- ===== src/Rp1Image/Crc.antt =====
-- `crc32_ieee`: its state stays a 32-bit word, and every step of it can be undone, so a payload
-- with one changed byte has another checksum.
use rp1_bootloader_po_c.Base.{
  ℕ, zero, suc, ◌-◌, ◌/◌, ◌%◌, ◌^◌, ◌<◌, ◌≡◌, ◌≢◌, refl, bit_and, bit_xor, List, [], ◌∷◌, ◌++◌,
  arith, IsBytes, if◌then◌else◌, ◌==◌, Bool-cases, inl, inr, sym, ◌∙◌, All-append,
}
use rp1_bootloader_po_c.Base.Bits.{
  bit_and-pow, bit_xor-lt, bit_xor_top, bit_xor_cancel, bit_xor_comm, zero-bit_xor,
}
use rp1_bootloader_po_c.Rp1Image.{crc_bit, crc_bits, crc_byte, crc_loop, crc32_ieee}

abbrev poly : ℕ
poly = 0xedb8_8320

-- One round by a test on the low bit instead of a mask.
abbrev pub crc_step : ℕ → ℕ
crc_step crc = if crc % 2 == 1 then bit_xor (crc / 2) poly else crc / 2

xor-zero : (a : ℕ) → bit_xor a 0 ≡ a
xor-zero a = bit_xor_comm a 0 ∙ zero-bit_xor a

-- A round of the source, which selects the polynomial by a mask of `crc & 1`, is the textbook
-- round: shift right, and subtract the polynomial if the bit that falls out is set.
pub crc_bit-crc_step : (crc : ℕ) → crc_bit crc ≡ crc_step crc
unfolding crc_bit
crc_bit-crc_step crc =
    let low : bit_and crc 1 ≡ crc % 2 = omega (arith, bit_and-pow 0 crc) in
    elim (Bool-cases (crc % 2 == 1)) [
      | inl odd ↦ let one : crc % 2 ≡ 1 = ground arith in rw (odd, low, one) refl
      | inr even ↦
          let none : crc % 2 ≡ 0 = ground arith in rw (even, low, none) (xor-zero (crc / 2))
    ]

crc_bit-lt : (crc : ℕ) → crc < 2 ^ 32 → crc_bit crc < 2 ^ 32
crc_bit-lt crc h =
    rw crc_bit-crc_step (ground (arith, bit_xor-lt 32 (crc / 2) poly (omega arith) (omega arith)))

crc_bit_cancel : (x y : ℕ) → x < 2 ^ 32 → y < 2 ^ 32 → crc_bit x ≡ crc_bit y → x ≡ y
crc_bit_cancel x y h k e =
    let s : crc_step x ≡ crc_step y = sym (crc_bit-crc_step x) ∙ e ∙ crc_bit-crc_step y in
    ground (
      arith,
      s,
      bit_xor_cancel (x / 2) (y / 2) poly,
      bit_xor_top 31 (x / 2) poly (omega arith) (omega arith) (omega arith),
      bit_xor_top 31 (y / 2) poly (omega arith) (omega arith) (omega arith),
    )

crc_bits-lt : (n crc : ℕ) → crc < 2 ^ 32 → crc_bits n crc < 2 ^ 32
unfolding crc_bits
crc_bits-lt zero crc h = h
crc_bits-lt (suc n) crc h = crc_bits-lt n (crc_bit crc) (crc_bit-lt crc h)

crc_bits_cancel : (n x y : ℕ) → x < 2 ^ 32 → y < 2 ^ 32 → crc_bits n x ≡ crc_bits n y → x ≡ y
unfolding crc_bits
crc_bits_cancel zero x y h k e = e
crc_bits_cancel (suc n) x y h k e =
    crc_bit_cancel x y h k
      (crc_bits_cancel n (crc_bit x) (crc_bit y) (crc_bit-lt x h) (crc_bit-lt y k) e)

crc_byte-lt : (crc b : ℕ) → crc < 2 ^ 32 → b < 256 → crc_byte crc b < 2 ^ 32
unfolding crc_byte
crc_byte-lt crc b h k = crc_bits-lt 8 (bit_xor crc b) (bit_xor-lt 32 crc b h (omega arith))

crc_byte_cancel :
    (x y b c : ℕ)
    → x < 2 ^ 32
    → y < 2 ^ 32
    → b < 256
    → c < 256
    → crc_byte x b ≡ crc_byte y c
    → bit_xor x b ≡ bit_xor y c
unfolding crc_byte
crc_byte_cancel x y b c hx hy hb hc =
    crc_bits_cancel 8 (bit_xor x b) (bit_xor y c) (bit_xor-lt 32 x b hx (omega arith))
      (bit_xor-lt 32 y c hy (omega arith))

crc_loop-lt :
    (bytes : List ℕ) (crc : ℕ) → IsBytes bytes → crc < 2 ^ 32 → crc_loop crc bytes < 2 ^ 32
unfolding crc_loop
crc_loop-lt [] crc h k = k
crc_loop-lt (b ∷ bytes) crc h k = crc_loop-lt bytes (crc_byte crc b) h.1 (crc_byte-lt crc b k h.0)

crc_loop_cancel :
    (bytes : List ℕ) (x y : ℕ)
    → IsBytes bytes
    → x < 2 ^ 32
    → y < 2 ^ 32
    → crc_loop x bytes ≡ crc_loop y bytes
    → x ≡ y
unfolding crc_loop
crc_loop_cancel [] x y h hx hy e = e
crc_loop_cancel (b ∷ bytes) x y h hx hy e = bit_xor_cancel x y b (
    crc_byte_cancel x y b b hx hy h.0 h.0 (
      crc_loop_cancel bytes (crc_byte x b) (crc_byte y b) h.1 (crc_byte-lt x b hx h.0)
        (crc_byte-lt y b hy h.0) e))

crc_loop_detects :
    (xs ys : List ℕ) (b c crc : ℕ)
    → IsBytes xs
    → IsBytes ys
    → b < 256
    → c < 256
    → crc < 2 ^ 32
    → crc_loop crc (xs ++ b ∷ ys) ≡ crc_loop crc (xs ++ c ∷ ys)
    → b ≡ c
unfolding crc_loop
crc_loop_detects [] ys b c crc hx hy hb hc h e =
    let same : bit_xor crc b ≡ bit_xor crc c = crc_byte_cancel crc crc b c h h hb hc (
      crc_loop_cancel ys (crc_byte crc b) (crc_byte crc c) hy (crc_byte-lt crc b h hb)
        (crc_byte-lt crc c h hc) e) in
    bit_xor_cancel b c crc (bit_xor_comm b crc ∙ same ∙ bit_xor_comm crc c)
crc_loop_detects (x ∷ xs) ys b c crc hx hy hb hc h e =
    crc_loop_detects xs ys b c (crc_byte crc x) hx.1 hy hb hc (crc_byte-lt crc x h hx.0) e

pub crc32_ieee-lt : (bytes : List ℕ) → crc32_ieee bytes < 2 ^ 32
unfolding crc32_ieee
crc32_ieee-lt bytes = omega arith

crc32_ieee_lem : (bytes : List ℕ) → crc32_ieee bytes ≡ 2 ^ 32 - 1 - crc_loop 0xffff_ffff bytes
unfolding crc32_ieee
crc32_ieee_lem bytes = refl

-- Changing any one byte of a payload changes its checksum.
pub crc32_ieee_detects :
    (xs ys : List ℕ) (b c : ℕ)
    → IsBytes xs
    → IsBytes ys
    → b < 256
    → c < 256
    → b ≢ c
    → crc32_ieee (xs ++ b ∷ ys) ≢ crc32_ieee (xs ++ c ∷ ys)
crc32_ieee_detects xs ys b c hx hy hb hc ne e =
    let p = crc32_ieee_lem (xs ++ b ∷ ys) in
    let q = crc32_ieee_lem (xs ++ c ∷ ys) in
    let hp =
      crc_loop-lt (xs ++ b ∷ ys) 0xffff_ffff (All-append _ xs (b ∷ ys) hx (hb, hy)) (omega arith) in
    let hq =
      crc_loop-lt (xs ++ c ∷ ys) 0xffff_ffff (All-append _ xs (c ∷ ys) hx (hc, hy)) (omega arith) in
    ne (
      crc_loop_detects xs ys b c 0xffff_ffff hx hy hb hc (omega arith)
        (omega (arith, e, p, q, hp, hq)))
