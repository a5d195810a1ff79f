-- ===== src/Linux/Sdhc.antt =====
-- `quiesce_sdhc_from_dtb_or_fallback` of rp1_chainboot_poc/src/linux.rs, over the accesses that it makes
-- to the registers of the host controller.
use rp1_bootloader_po_c.Base.{
  ℕ, zero, suc, ◌+◌, if◌then◌else◌, Result, BootError, ok, err, bit_and, bit_or, ◌==◌,
  sdhc_quiesce_failure,
}

abbrev sdhc_host_fallback_base : ℕ
sdhc_host_fallback_base = 0x1000fff000

abbrev sdhci_present_state : ℕ
sdhci_present_state = 0x24

abbrev sdhci_software_reset : ℕ
sdhci_software_reset = 0x2f

abbrev sdhci_int_status : ℕ
sdhci_int_status = 0x30

abbrev sdhci_int_enable : ℕ
sdhci_int_enable = 0x34

abbrev sdhci_signal_enable : ℕ
sdhci_signal_enable = 0x38

abbrev sdhci_cmd_inhibit : ℕ
sdhci_cmd_inhibit = 1

abbrev sdhci_data_inhibit : ℕ
sdhci_data_inhibit = 2

abbrev sdhci_reset_cmd : ℕ
sdhci_reset_cmd = 0x02

abbrev sdhci_reset_data : ℕ
sdhci_reset_data = 0x04

abbrev sdhci_int_all_mask : ℕ
sdhci_int_all_mask = 0xffffffff

-- Reads and writes of 32 and of 8 bits.
pub record SdhcRegisters (S : Type 0) : Type 0 where
  pub mmio_read32 : ℕ → S → ℕ × S
  pub mmio_write32 : ℕ → ℕ → S → S
  pub mmio_read8 : ℕ → S → ℕ × S
  pub mmio_write8 : ℕ → ℕ → S → S

module _ {S : Type 0} (registers : SdhcRegisters S) where
  -- The first loop: it ends after the given number of looks as well.
  idle_loop : ℕ → S → S
  idle_loop zero s = s
  idle_loop (suc looks) s =
      let state = registers.mmio_read32 (sdhc_host_fallback_base + sdhci_present_state) s in
      let more = idle_loop looks state.1 in
      if bit_and state.0 (bit_or sdhci_cmd_inhibit sdhci_data_inhibit) == 0 then state.1 else more

  -- The second loop, which fails when the reset bits stay set.
  reset_loop : ℕ → S → Result BootError (Unit {0}) × S
  reset_loop zero s = (err sdhc_quiesce_failure, s)
  reset_loop (suc looks) s =
      let state = registers.mmio_read8 (sdhc_host_fallback_base + sdhci_software_reset) s in
      let more = reset_loop looks state.1 in
      if bit_and state.0 (bit_or sdhci_reset_cmd sdhci_reset_data) == 0
      then (ok tt, state.1)
      else more

  mask_interrupts : S → S
  mask_interrupts s =
      registers.mmio_write32 (sdhc_host_fallback_base + sdhci_signal_enable) 0
        (registers.mmio_write32 (sdhc_host_fallback_base + sdhci_int_enable) 0 s)

  start_reset : S → S
  start_reset s =
      registers.mmio_write8 (sdhc_host_fallback_base + sdhci_software_reset)
        (bit_or sdhci_reset_cmd sdhci_reset_data)
        (registers.mmio_write32 (sdhc_host_fallback_base + sdhci_int_status) sdhci_int_all_mask s)

  quiesce_sdhc_from_dtb_or_fallback : S → Result BootError (Unit {0}) × S
  quiesce_sdhc_from_dtb_or_fallback s =
      reset_loop 100000 (start_reset (idle_loop 100000 (mask_interrupts s)))
