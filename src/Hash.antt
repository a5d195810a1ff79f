-- ===== src/Hash.antt =====
-- The printing of digests and lengths in rp1_chainboot_poc/src/hash.rs.
use rp1_bootloader_po_c.Base.{sym}
use rp1_bootloader_po_c.Base.{inr}
use rp1_bootloader_po_c.Base.{==_iff}
use rp1_bootloader_po_c.Base.{inl}
use rp1_bootloader_po_c.Base.{Bool-cases}
use rp1_bootloader_po_c.Base.{
  ℕ, zero, suc, ◌+◌, ◌-◌, ◌*◌, ◌/◌, ◌%◌, ◌^◌, ◌<◌, ◌≡◌, refl, ap, ◌∙◌, ltb, if◌then◌else◌, List, [],
  ◌∷◌, arith,
}
use rp1_bootloader_po_c.Base.{◌==◌}
use native.Mathlib.Nat.{pow-suc}

-- A digit of `HEX`.
digest_digit : ℕ → ℕ
digest_digit n = if ltb n 10 then 48 + n else 87 + n

hex_digest : List ℕ → List ℕ
hex_digest [] = []
hex_digest (b ∷ bs) = digest_digit (b / 16) ∷ digest_digit (b % 16) ∷ hex_digest bs

-- The loop fills the buffer from its end: the digits so far are `out`. The 20 digits of the buffer are
-- enough for 64 bits.
decimal_loop : ℕ → ℕ → List ℕ → List ℕ
decimal_loop zero value out = out
decimal_loop (suc k) value out =
    let digit = 48 + value % 10 in
    let more = decimal_loop k (value / 10) (digit ∷ out) in if value == 0 then out else more

decimal_usize : ℕ → List ℕ
decimal_usize value = if value == 0 then 48 ∷ [] else decimal_loop 20 value []

-- The number that a text of digits stands for.
read_decimal : List ℕ → ℕ → ℕ
read_decimal [] value = value
read_decimal (d ∷ ds) value = read_decimal ds (value * 10 + (d - 48))

decimal_loop-read :
    (k value : ℕ) (out : List ℕ)
    → value < 10 ^ k
    → read_decimal (decimal_loop k value out) 0 ≡ read_decimal out value
unfolding decimal_loop read_decimal
decimal_loop-read zero value out h = ap (read_decimal out) (omega arith)
decimal_loop-read (suc k) value out h = elim (Bool-cases (value == 0)) [
  | inl none_left ↦ let e : value ≡ 0 = (==_iff _ _).0 none_left in rw (none_left, e) refl
  | inr some_left ↦
      let digit = 48 + value % 10 in
      let ih = decimal_loop-read k (value / 10) (digit ∷ out) (omega (arith, pow-suc 10 k)) in
      let shifted : value / 10 * 10 + (48 + value % 10 - 48) ≡ value = omega arith in
      rw some_left (ih ∙ ap (read_decimal out) shifted)
]

-- The digits of a 64-bit number stand for the number.
decimal_usize-read : (value : ℕ) → value < 2 ^ 64 → read_decimal (decimal_usize value) 0 ≡ value
unfolding decimal_usize read_decimal
decimal_usize-read value h = elim (Bool-cases (value == 0)) [
  | inl is_zero ↦ let e : value ≡ 0 = (==_iff _ _).0 is_zero in rw is_zero (sym e)
  | inr not_zero ↦ rw not_zero (decimal_loop-read 20 value [] (omega arith))
]
