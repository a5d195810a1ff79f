-- ===== src/Board/Pins.antt =====
-- The pin set-up of rp1_chainboot_poc/src/bcm2712_i2c.rs, and its `from_dtb_or_fallback`.
use rp1_bootloader_po_c.Base.{refl, ◌≡◌}
use rp1_bootloader_po_c.Base.{◌≡◌}
use rp1_bootloader_po_c.Base.{ℕ, ◌+◌, ◌*◌, ◌-◌, ◌^◌, bit_and, bit_or}
use rp1_bootloader_po_c.Board.{Mmio}
use rp1_bootloader_po_c.Board.I2c.{init}

abbrev aon_pinctrl_base : ℕ
aon_pinctrl_base = 0x107d510700

abbrev aon_i2c3_mux_func : ℕ
aon_i2c3_mux_func = 4

abbrev aon_pull_up : ℕ
aon_pull_up = 2

-- `(before & !(mask << low | mask << high)) | value << low | value << high`.
set_fields : ℕ → ℕ → ℕ → ℕ → ℕ → ℕ
set_fields before mask value low high =
    let cleared = 2 ^ 32 - 1 - bit_or (mask * 2 ^ low) (mask * 2 ^ high) in
    bit_or (bit_or (bit_and before cleared) (value * 2 ^ low)) (value * 2 ^ high)

module _ {S : Type 0} (mmio : Mmio S) where
  configure_aon_i2c3_pins : S → S
  configure_aon_i2c3_pins s =
      let (mux_before, s) = mmio.read s (aon_pinctrl_base + 0x0c) in
      let (pull14_before, s) = mmio.read s (aon_pinctrl_base + 0x14) in
      let (pull18_before, s) = mmio.read s (aon_pinctrl_base + 0x18) in
      let mux = set_fields mux_before 0xf aon_i2c3_mux_func 0 4 in
      let s = mmio.write s (aon_pinctrl_base + 0x0c) mux in
      let s =
        mmio.write s (aon_pinctrl_base + 0x14) (set_fields pull14_before 3 aon_pull_up 18 20) in
      let s =
        mmio.write s (aon_pinctrl_base + 0x18) (set_fields pull18_before 3 aon_pull_up 20 22) in
      let s = (mmio.read s (aon_pinctrl_base + 0x0c)).1 in
      let s = (mmio.read s (aon_pinctrl_base + 0x14)).1 in (mmio.read s (aon_pinctrl_base + 0x18)).1

  from_dtb_or_fallback : S → S
  from_dtb_or_fallback s = init mmio (configure_aon_i2c3_pins s)

-- A pin register with its two fields set.
mux_fields : set_fields 0xffffffff 0xf 4 0 4 ≡ 0xffffff44
unfolding set_fields
mux_fields = refl
