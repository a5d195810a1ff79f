-- ===== src/Board/Tests.antt =====
-- Runs of the I2C controller and the reset pin.
use rp1_bootloader_po_c.Board.I2c.{s_rxd, fifo_reg, dlen_reg, receive_start}
use rp1_bootloader_po_c.Base.{bit_and, ◌≢◌, ◌-◌, ◌<◌}
use rp1_bootloader_po_c.Board.I2c.{write32}
use rp1_bootloader_po_c.Board.I2c.{done_loop}
use rp1_bootloader_po_c.Board.I2c.{wait_done}
use rp1_bootloader_po_c.Board.I2c.{check_error}
use rp1_bootloader_po_c.Board.I2c.{for_loop}
use rp1_bootloader_po_c.Board.I2c.{wait_for}
use rp1_bootloader_po_c.Board.I2c.{send_loop}
use rp1_bootloader_po_c.Board.I2c.{send_start}
use rp1_bootloader_po_c.Board.I2c.{s_reg}
use rp1_bootloader_po_c.Board.I2c.{read32}
use rp1_bootloader_po_c.Board.I2c.{transfer_write}
use rp1_bootloader_po_c.Board.I2c.{transfer_read}
use rp1_bootloader_po_c.Board.I2c.{i2c3_fallback_base}
use rp1_bootloader_po_c.Base.{
  ℕ, zero, suc, ◌+◌, ◌≡◌, refl, if◌then◌else◌, Result, BootError, ok, List, [], ◌∷◌, ◌++◌, some,
  none, arith,
}
use rp1_bootloader_po_c.Base.{◌==◌}
use rp1_bootloader_po_c.Base.Bits.{test_bit}
use rp1_bootloader_po_c.Board.{Mmio}
use rp1_bootloader_po_c.Board.RunPin.{run_pin_levels, register_file, run_pin, set_high, set_low}
use rp1_bootloader_po_c.Board.Protocol.{Traced, traced, IsSent, start_writes, transfer_write-IsSent}
use rp1_bootloader_po_c.Board.Delivery.{IsDelivering, IsWhole, transfer_read_ends}
use rp1_bootloader_po_c.Board.Receive.{transfer_read_stuck, done_without_data}

-- A controller that always has room and is always done.
abbrev willing : List (ℕ × ℕ) → ℕ → ℕ → ℕ
willing writes reads a = 0x12

abbrev three_bytes : List ℕ
three_bytes = 1 ∷ 2 ∷ 3 ∷ []

abbrev fresh : Traced
fresh = record { writes = []; reads = 0 }

transfer_write-succeeds : (transfer_write (traced willing) 0x43 three_bytes fresh).0 ≡ ok tt
unfolding transfer_write send_start send_loop wait_for for_loop check_error wait_done done_loop
    read32 write32 traced
transfer_write-succeeds = refl

transfer_write-IsSent_example :
    IsSent three_bytes
      ([] ++ start_writes 0x43 3)
      (transfer_write (traced willing) 0x43 three_bytes fresh)
transfer_write-IsSent_example = transfer_write-IsSent willing 0x43 three_bytes fresh (omega arith)

abbrev regs : ℕ → ℕ
regs a = 0xffff

run_pin_levels_example :
    (test_bit ((set_high register_file run_pin regs).1 0x107d517c08) 2 ≡ 0)
    × (test_bit ((set_high register_file run_pin regs).1 0x107d517c04) 2 ≡ 1)
    × (test_bit ((set_low register_file run_pin regs).1 0x107d517c08) 2 ≡ 0)
    × (test_bit ((set_low register_file run_pin regs).1 0x107d517c04) 2 ≡ 0)
run_pin_levels_example = run_pin_levels regs 2 (omega arith)

transfer_read_stuck_example : transfer_read done_without_data 100 0x43 4 tt ≡ none
transfer_read_stuck_example = transfer_read_stuck 100 0x43 3 (omega arith)

-- A controller that has the bytes of a read ready when it starts, and is done when they are taken. Its
-- state is how many are left.
abbrev register : ℕ → ℕ
register off = i2c3_fallback_base + off

abbrev status_of : ℕ → ℕ
status_of zero = 0x02
status_of (suc k) = 0x22

with_data : Mmio ℕ
with_data = record {
  read = λ s a.
      if a == register s_reg
      then (status_of s, s)
      else (7, if a == register fifo_reg then s - 1 else s);
  write = λ s a v. if a == register dlen_reg then v else s;
}

taken_one :
    (s : ℕ) → bit_and (with_data.read s (i2c3_fallback_base + s_reg)).0 s_rxd ≢ 0 → s ≡ suc (s - 1)
unfolding with_data
taken_one zero h = absurd (h refl)
taken_one (suc s) h = omega arith

has_bytes : (s : ℕ) → 0 < s → bit_and (with_data.read s (i2c3_fallback_base + s_reg)).0 s_rxd ≢ 0
unfolding with_data
has_bytes zero h e = omega arith
has_bytes (suc s) h e = let no : 0x20 ≡ 0 = e in absurd (omega (arith, no))

with_data-IsDelivering : IsDelivering with_data (λ s. s)
unfolding with_data read32
with_data-IsDelivering = record {
  kept = λ s. refl;
  sticky = λ mask s m h. h;
  taken = λ s h. taken_one s h;
  complete = λ s h d e c. has_bytes s h;
}

transfer_read_ends_example :
    (outcome : Result BootError (List ℕ) × ℕ) × (transfer_read with_data 5 0x43 4 0 ≡ some outcome)
    × IsWhole 4 outcome
unfolding with_data receive_start write32
transfer_read_ends_example =
    transfer_read_ends with_data (λ s. s) with_data-IsDelivering 0x43 4 0 refl
