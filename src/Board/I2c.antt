-- ===== src/Board/I2c.antt =====
-- `Bcm2712I2c` of rp1_chainboot_poc/src/bcm2712_i2c.rs: the controller's registers, its polling
-- loops and the two transfers. The log lines of a failure read two registers, which is kept.
use rp1_bootloader_po_c.Base.{bit_or}
use rp1_bootloader_po_c.Base.{
  ℕ, zero, suc, ◌+◌, ◌%◌, ◌&&◌, not, if◌then◌else◌, Result, BootError, ok, err, List, [], ◌∷◌, ◌++◌,
  bit_and, length, ltb, Option, none, some, i2c_write, i2c_read, i2c_nack, i2c_timeout,
}
use rp1_bootloader_po_c.Base.{◌==◌}
use rp1_bootloader_po_c.Board.{Mmio}

abbrev pub i2c3_fallback_base : ℕ
i2c3_fallback_base = 0x107d005600

-- The registers: control, status, length, address, FIFO, divider and clock stretch.
abbrev pub c_reg : ℕ
c_reg = 0x00

abbrev pub s_reg : ℕ
s_reg = 0x04

abbrev pub dlen_reg : ℕ
dlen_reg = 0x08

abbrev pub a_reg : ℕ
a_reg = 0x0c

abbrev pub fifo_reg : ℕ
fifo_reg = 0x10

abbrev pub div_reg : ℕ
div_reg = 0x14

abbrev pub clkt_reg : ℕ
clkt_reg = 0x1c

-- The control bits: enable, start, clear, read; and the status bits.
abbrev pub c_i2cen : ℕ
c_i2cen = 0x8000

abbrev pub c_st : ℕ
c_st = 0x80

abbrev pub c_clear : ℕ
c_clear = 0x30

abbrev pub c_read : ℕ
c_read = 1

abbrev pub s_clkt : ℕ
s_clkt = 0x200

abbrev pub s_err : ℕ
s_err = 0x100

abbrev pub s_done : ℕ
s_done = 2

abbrev pub s_ta : ℕ
s_ta = 1

abbrev pub s_txd : ℕ
s_txd = 0x10

abbrev pub s_rxd : ℕ
s_rxd = 0x20

abbrev pub u32_max : ℕ
u32_max = 0xffffffff

abbrev pub poll_limit : ℕ
poll_limit = 100000

module _ {S : Type 0} (mmio : Mmio S) where
  abbrev pub Outcome : Type 0 → Type 0
  Outcome A = Result BootError A × S

  unfoldable pub read32 : ℕ → S → ℕ × S
  read32 off s = mmio.read s (i2c3_fallback_base + off)

  unfoldable pub write32 : ℕ → ℕ → S → S
  write32 off value s = mmio.write s (i2c3_fallback_base + off) value

  unfoldable pub init : S → S
  init s =
      let s = write32 c_reg c_clear s in
      let s = write32 div_reg 2500 s in
      let s = write32 clkt_reg 0x40 s in
      let s = write32 s_reg u32_max s in
      let s = write32 c_reg c_i2cen s in (read32 div_reg (read32 s_reg (read32 c_reg s).1).1).1

  unfoldable pub done_loop : ℕ → S → Outcome (Unit {0})
  done_loop zero s = (err i2c_timeout, s)
  done_loop (suc k) s =
      let (status, s1) = read32 s_reg s in
      let more = done_loop k s1 in
      if not (bit_and status (bit_or s_err s_clkt) == 0)
      then (err i2c_nack, s1)
      else if not (bit_and status s_done == 0) && bit_and status s_ta == 0
      then (ok tt, write32 s_reg u32_max s1)
      else more

  unfoldable pub wait_done : S → Outcome (Unit {0})
  wait_done s = done_loop poll_limit s

  unfoldable pub for_loop : ℕ → ℕ → S → Outcome (Unit {0})
  for_loop zero mask s = (err i2c_timeout, s)
  for_loop (suc k) mask s =
      let (status, s1) = read32 s_reg s in
      let more = for_loop k mask s1 in if not (bit_and status mask == 0) then (ok tt, s1) else more

  unfoldable pub wait_for : ℕ → S → Outcome (Unit {0})
  wait_for mask s = for_loop poll_limit mask s

  unfoldable pub check_error : S → Outcome (Unit {0})
  check_error s =
      let (status, s1) = read32 s_reg s in
      if not (bit_and status s_clkt == 0)
      then (err i2c_timeout, s1)
      else if not (bit_and status s_err == 0)
      then (err i2c_nack, s1)
      else (ok tt, s1)

  -- `if let Err(err) = step { log; return Err(err); }`.
  abbrev pub or_log : Outcome (Unit {0}) → (S → Outcome (Unit {0})) → Outcome (Unit {0})
  or_log (ok t, s) next = next s
  or_log (err e, s) next = (err e, (read32 c_reg (read32 s_reg s).1).1)

  -- The loop of `transfer_write` over the bytes left, and the wait at its end.
  unfoldable pub send_loop : List ℕ → S → Outcome (Unit {0})
  send_loop [] s = or_log (wait_done s) (λ t. (ok tt, t))
  send_loop (b ∷ bs) s =
      or_log (wait_for (bit_or (bit_or s_txd s_err) s_clkt) s)
        (λ t. or_log (check_error t) (λ u. send_loop bs (write32 fifo_reg b u)))

  unfoldable pub send_start : ℕ → ℕ → S → S
  send_start addr len s =
      let s = write32 a_reg addr s in
      let s = write32 dlen_reg len s in
      let s = write32 s_reg u32_max s in
      let s = write32 c_reg (bit_or c_i2cen c_clear) s in write32 c_reg (bit_or c_i2cen c_st) s

  unfoldable pub transfer_write : ℕ → List ℕ → S → Outcome (Unit {0})
  transfer_write addr bytes s =
      if ltb 0xffff (length bytes)
      then (err i2c_write, s)
      else send_loop bytes (send_start addr (length bytes) s)

  -- The inner loop of `transfer_read`: as many of the `k` bytes missing as the FIFO holds. It returns
  -- what is still missing and the bytes read.
  unfoldable pub drain_fifo : ℕ → List ℕ → S → (ℕ × List ℕ) × S
  drain_fifo zero got s = ((0, got), s)
  drain_fifo (suc k) got s =
      let (status, s1) = read32 s_reg s in
      let (byte, s2) = read32 fifo_reg s1 in
      let more = drain_fifo k (got ++ (byte % 256 ∷ [])) s2 in
      if bit_and status s_rxd == 0 then ((suc k, got), s1) else more

  -- The end of `transfer_read`.
  unfoldable pub finish_read : List ℕ → Outcome (Unit {0}) → Outcome (List ℕ)
  finish_read got (ok t, s) = (ok got, s)
  finish_read got (err e, s) = (err e, (read32 c_reg (read32 s_reg s).1).1)

  -- The two checks before the FIFO is read; the state after their log lines where they fail.
  unfoldable pub ready_to_read : S → Outcome (Unit {0})
  ready_to_read s =
      or_log (wait_for (bit_or (bit_or (bit_or s_rxd s_done) s_err) s_clkt) s)
        (λ t. or_log (check_error t) (λ u. (ok tt, u)))

  abbrev pub then_read :
      Outcome (Unit {0}) → (S → Option (Outcome (List ℕ))) → Option (Outcome (List ℕ))
  then_read (ok t, s) next = next s
  then_read (err e, s) next = some (err e, s)

  -- The outer loop, with fuel: `none` when the fuel does not suffice.
  unfoldable pub receive_loop : ℕ → ℕ → List ℕ → S → Option (Outcome (List ℕ))
  receive_loop zero k got s = none
  receive_loop (suc fuel) zero got s = some (finish_read got (wait_done s))
  receive_loop (suc fuel) (suc k) got s =
      then_read (ready_to_read s)
        (λ t. let ((left, now), u) = drain_fifo (suc k) got t in receive_loop fuel left now u)

  unfoldable pub receive_start : ℕ → ℕ → S → S
  receive_start addr len s =
      let s = write32 a_reg addr s in
      let s = write32 dlen_reg len s in
      let s = write32 s_reg u32_max s in
      write32 c_reg (bit_or (bit_or (bit_or c_i2cen c_clear) c_read) c_st) s

  unfoldable pub transfer_read : ℕ → ℕ → ℕ → S → Option (Outcome (List ℕ))
  transfer_read fuel addr len s =
      if ltb 0xffff len
      then some (err i2c_read, s)
      else receive_loop fuel len [] (receive_start addr len s)

  -- `Rp1I2cBus::write_read`; `write` is `transfer_write`.
  unfoldable pub write_read : ℕ → ℕ → List ℕ → ℕ → S → Option (Outcome (List ℕ))
  write_read fuel addr bytes len s =
      then_read (transfer_write addr bytes s) (transfer_read fuel addr len)
