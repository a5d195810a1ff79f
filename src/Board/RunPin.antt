-- ===== src/Board/RunPin.antt =====
-- `Rp1RunPin` of rp1_chainboot_poc/src/bcm2712_aon.rs: the reset line of RP1, one bit of a GPIO
-- block's direction and data registers.
use rp1_bootloader_po_c.Base.{==_iff}
use rp1_bootloader_po_c.Base.{inr}
use rp1_bootloader_po_c.Base.{inl}
use rp1_bootloader_po_c.Base.{Bool-cases}
use rp1_bootloader_po_c.Base.Bits.{test_bit-le}
use rp1_bootloader_po_c.Base.{◌∙◌}
use rp1_bootloader_po_c.Base.{
  ℕ, ◌+◌, ◌-◌, ◌^◌, ◌<◌, ◌≡◌, ◌≢◌, refl, Bool, true, false, not, if◌then◌else◌, Result, BootError,
  ok, bit_and, bit_or, arith,
}
use rp1_bootloader_po_c.Base.{◌==◌}
use rp1_bootloader_po_c.Base.Bits.{
  test_bit, test_bit-bit_and, test_bit-bit_or, test_bit-complement, test_bit-pow_ne,
}
use rp1_bootloader_po_c.Board.{Mmio}

pub record Rp1RunPin : Type 0 where
  pub base : ℕ
  pub pin_mask : ℕ
  pub active_low : Bool

abbrev pub gio_data : ℕ
gio_data = 0x04

abbrev pub gio_iodir : ℕ
gio_iodir = 0x08

-- `from_dtb_or_fallback`: the fallback is always used.
unfoldable pub run_pin : Rp1RunPin
run_pin = record { base = 0x107d517c00; pin_mask = 2 ^ 2; active_low = false }

-- `!mask` of a 32-bit word.
unfoldable pub complement32 : ℕ → ℕ
complement32 mask = 2 ^ 32 - 1 - mask

differ_of_test : (n : ℕ) → (n == 2) ≡ false → 2 ≢ n
differ_of_test n h = ground arith

module _ {S : Type 0} (mmio : Mmio S) (pin : Rp1RunPin) where
  unfoldable pub configure_output : S → S
  configure_output s =
      let (iodir, s1) = mmio.read s (pin.base + gio_iodir) in
      mmio.write s1 (pin.base + gio_iodir) (bit_and iodir (complement32 pin.pin_mask))

  unfoldable pub write_level : Bool → S → S
  write_level high s =
      let asserted_high = if pin.active_low then not high else high in
      let (value, s1) = mmio.read s (pin.base + gio_data) in
      mmio.write s1 (pin.base + gio_data) (
        if asserted_high
        then bit_or value pin.pin_mask
        else bit_and value (complement32 pin.pin_mask))

  unfoldable pub set_low : S → Result BootError (Unit {0}) × S
  set_low s = (ok tt, write_level false (configure_output s))

  unfoldable pub set_high : S → Result BootError (Unit {0}) × S
  set_high s = (ok tt, write_level true (configure_output s))

-- Registers that keep what is written to them.
unfoldable pub register_file : Mmio (ℕ → ℕ)
register_file = record { read = λ s a. (s a, s); write = λ s a v. λ b. if b == a then v else s b }

pin_bit : (n : ℕ) → test_bit (2 ^ 2) n ≡ (if n == 2 then 1 else 0)
pin_bit n = elim (Bool-cases (n == 2)) [
  | inl h ↦ let e : n ≡ 2 = (==_iff _ _).0 h in rw e refl
  | inr h ↦ rw h (test_bit-pow_ne 2 n (differ_of_test n h))
]

clear_bit :
    (x n : ℕ)
    → n < 32
    → test_bit (bit_and x (complement32 (2 ^ 2))) n ≡ (if n == 2 then 0 else test_bit x n)
unfolding complement32
clear_bit x n h =
    let whole = test_bit-complement 32 n (2 ^ 2) h (omega arith) in
    let small = test_bit-le n x in
    elim (Bool-cases (n == 2)) [
      | inl e ↦
          rw e
            (test_bit-bit_and n x (2 ^ 32 - 1 - 2 ^ 2) ∙ omega (arith, whole, rw e at (pin_bit n)))
      | inr e ↦ rw e (
          test_bit-bit_and n x (2 ^ 32 - 1 - 2 ^ 2)
          ∙ omega (arith, whole, small, rw e at (pin_bit n)))
    ]

set_bit : (x n : ℕ) → test_bit (bit_or x (2 ^ 2)) n ≡ (if n == 2 then 1 else test_bit x n)
set_bit x n =
    let small = test_bit-le n x in
    elim (Bool-cases (n == 2)) [
      | inl e ↦ rw e (test_bit-bit_or n x (2 ^ 2) ∙ omega (arith, small, rw e at (pin_bit n)))
      | inr e ↦ rw e (test_bit-bit_or n x (2 ^ 2) ∙ omega (arith, small, rw e at (pin_bit n)))
    ]

-- Driving the line high makes it an output with its data bit set, low one with its data bit clear,
-- and neither changes another bit of the two registers.
pub run_pin_levels :
    (regs : ℕ → ℕ) (n : ℕ)
    → n < 32
    → (test_bit ((set_high register_file run_pin regs).1 (0x107d517c00 + gio_iodir)) n
        ≡ (if n == 2 then 0 else test_bit (regs (0x107d517c00 + gio_iodir)) n))
      × (test_bit ((set_high register_file run_pin regs).1 (0x107d517c00 + gio_data)) n
          ≡ (if n == 2 then 1 else test_bit (regs (0x107d517c00 + gio_data)) n))
      × (test_bit ((set_low register_file run_pin regs).1 (0x107d517c00 + gio_iodir)) n
          ≡ (if n == 2 then 0 else test_bit (regs (0x107d517c00 + gio_iodir)) n))
      × (test_bit ((set_low register_file run_pin regs).1 (0x107d517c00 + gio_data)) n
          ≡ (if n == 2 then 0 else test_bit (regs (0x107d517c00 + gio_data)) n))
unfolding set_high set_low write_level configure_output register_file run_pin
run_pin_levels regs n h = (clear_bit _ n h, set_bit _ n, clear_bit _ n h, clear_bit _ n h)
