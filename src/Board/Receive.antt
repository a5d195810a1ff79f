-- ===== src/Board/Receive.antt =====
-- A device on which the loop of `transfer_read` of rp1_chainboot_poc/src/bcm2712_i2c.rs, which has no
-- bound of its own, does not end.
use rp1_bootloader_po_c.Board.I2c.{read32}
use rp1_bootloader_po_c.Board.I2c.{check_error}
use rp1_bootloader_po_c.Board.I2c.{s_done}
use rp1_bootloader_po_c.Board.I2c.{for_loop}
use rp1_bootloader_po_c.Board.I2c.{s_reg}
use rp1_bootloader_po_c.Board.I2c.{wait_for}
use rp1_bootloader_po_c.Base.{false}
use rp1_bootloader_po_c.Board.I2c.{drain_fifo}
use rp1_bootloader_po_c.Board.I2c.{i2c3_fallback_base}
use rp1_bootloader_po_c.Board.I2c.{receive_loop}
use rp1_bootloader_po_c.Board.I2c.{transfer_read}
use rp1_bootloader_po_c.Board.I2c.{ready_to_read}
use rp1_bootloader_po_c.Base.{
  ℕ, zero, suc, ◌+◌, ◌≤◌, ◌≡◌, refl, if◌then◌else◌, List, [], none, ltb, arith,
}
use rp1_bootloader_po_c.Base.{◌==◌}
use rp1_bootloader_po_c.Board.{Mmio}

-- A controller whose status is DONE and nothing else.
unfoldable pub done_without_data : Mmio (Unit {0})
done_without_data = record {
  read = λ s a. (if a == i2c3_fallback_base + s_reg then s_done else 0, s);
  write = λ s a v. s;
}

receive_loop_stuck :
    (fuel k : ℕ) (got : List ℕ) → receive_loop done_without_data fuel (suc k) got tt ≡ none
unfolding receive_loop ready_to_read wait_for for_loop check_error read32 drain_fifo
    done_without_data
receive_loop_stuck zero k got = refl
receive_loop_stuck (suc fuel) k got = receive_loop_stuck fuel k got

-- A read of one byte or more does not end, whatever the fuel, on a controller that reports DONE, no
-- error and no data.
pub transfer_read_stuck :
    (fuel addr k : ℕ) → suc k ≤ 0xffff → transfer_read done_without_data fuel addr (suc k) tt ≡ none
unfolding transfer_read
transfer_read_stuck fuel addr k h =
    let fits : ltb 0xffff (suc k) ≡ false = ground arith in rw fits (receive_loop_stuck fuel k [])
