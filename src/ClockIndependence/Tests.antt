-- ===== src/ClockIndependence/Tests.antt =====
-- The checksums of the source's self-check, and a record with one changed word.
use rp1_bootloader_po_c.ClockIndependence.{log_and_validate_iff}
use rp1_bootloader_po_c.ClockIndependence.{checksum_valid}
use rp1_bootloader_po_c.ClockIndependence.{spi_snapshot_valid}
use rp1_bootloader_po_c.ClockIndependence.{pwm_snapshots_valid}
use rp1_bootloader_po_c.ClockIndependence.{uart_valid}
use rp1_bootloader_po_c.ClockIndependence.{clock_snapshots_valid}
use rp1_bootloader_po_c.ClockIndependence.{timing_valid}
use rp1_bootloader_po_c.ClockIndependence.{rotate_left}
use rp1_bootloader_po_c.ClockIndependence.{done_valid}
use rp1_bootloader_po_c.ClockIndependence.{mix}
use rp1_bootloader_po_c.ClockIndependence.{sequence_valid}
use rp1_bootloader_po_c.ClockIndependence.{checksum_loop}
use rp1_bootloader_po_c.ClockIndependence.{header_valid}
use rp1_bootloader_po_c.ClockIndependence.{Words}
use rp1_bootloader_po_c.ClockIndependence.{checksum}
use rp1_bootloader_po_c.ClockIndependence.{log_and_validate}
use rp1_bootloader_po_c.Base.{ℕ, ◌<◌, ◌≡◌, ◌≢◌, refl, ◌&&◌, if◌then◌else◌, arith}
use rp1_bootloader_po_c.Base.{◌==◌}
use rp1_bootloader_po_c.ClockIndependence.Checksum.{checksum_detects}

abbrev zeros : Words
zeros i = 0

abbrev one_changed : Words
one_changed i = if i == 42 then 1 else 0

abbrev completed : Words
completed i = if i == 7 then 0x454e4f44 else 0

-- `checksum_self_check`.
zeros_sum : checksum zeros ≡ 0x665ff975
unfolding checksum checksum_loop mix rotate_left
zeros_sum = refl

completed_sum : checksum completed ≡ 0x665ff975
unfolding checksum checksum_loop mix rotate_left
completed_sum = refl

small : (i : ℕ) → one_changed i < 0x100000000
small i = ground arith

elsewhere : (i : ℕ) → i ≢ 42 → zeros i ≡ one_changed i
elsewhere i h = ground arith

checksum_detects_example : checksum zeros ≢ checksum one_changed
checksum_detects_example =
    checksum_detects zeros one_changed 42 (λ i. omega arith) small (omega arith)
      (λ e. absurd (omega arith)) elsewhere (λ e. absurd (omega arith))

log_and_validate_iff_example : log_and_validate zeros 0 ≡ (
    header_valid zeros
    && sequence_valid zeros 0
    && done_valid zeros
    && zeros 9 == 0
    && zeros 8 == 0xffff
    && timing_valid zeros
    && clock_snapshots_valid zeros
    && uart_valid zeros
    && pwm_snapshots_valid zeros
    && spi_snapshot_valid zeros
    && checksum_valid zeros)
log_and_validate_iff_example = log_and_validate_iff zeros 0
