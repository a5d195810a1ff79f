-- ===== src/Bootstrap.antt =====
-- rp1_chainboot_poc/src/rp1_bootstrap.rs: loading and starting RP1 over its I2C boot protocol. The
-- bus (the trait `Rp1I2cBus`) and the reset pin are parameters; a call of theirs passes the state of
-- the hardware on. Delays and log lines are left out.
mod Tests
pub mod Loading
use rp1_bootloader_po_c.Base.{
  ℕ, zero, suc, ◌+◌, ◌-◌, ◌%◌, min, bit_or, bit_xor, Bool, List, [], ◌∷◌, ◌++◌, ltb, leb,
  if◌then◌else◌, Option, none, some, Result, BootError, ok, err, length, slice, i2c_write, i2c_read,
  i2c_nack, rp1_chunk_too_large, address_overflow,
}
use rp1_bootloader_po_c.Base.Words.{checked_add32, to_be_bytes, to_le_bytes, from_le_bytes, u32_mod}
use rp1_bootloader_po_c.Rp1Image.{Rp1Image}

abbrev pub rp1_i2c_addr : ℕ
rp1_i2c_addr = 0x43

abbrev pub rp1_chunk_size : ℕ
rp1_chunk_size = 0x40

abbrev pub rp1_boot_magic : ℕ
rp1_boot_magic = 0xb007_c0de

abbrev pub rp1_scratch_magic : ℕ
rp1_scratch_magic = 0x4015_400c

abbrev pub rp1_scratch_entry : ℕ
rp1_scratch_entry = 0x4015_4010

abbrev pub rp1_scratch_stack : ℕ
rp1_scratch_stack = 0x4015_4018

abbrev pub rp1_boot_ctrl_a : ℕ
rp1_boot_ctrl_a = 0x4001_0008

abbrev pub rp1_boot_command : ℕ
rp1_boot_command = 0x4015_4000

abbrev pub rp1_chip_id : ℕ
rp1_chip_id = 0x4000_0000

abbrev pub rp1_resets_clr : ℕ
rp1_resets_clr = 0x4001_7004

abbrev pub rp1_resets_all_clr_mask_for_chip_id : ℕ
rp1_resets_all_clr_mask_for_chip_id = 0x0080_0000

-- The bus and the reset pin, over the state of the hardware.
pub record Hardware : Type 1 where
  pub State : Type 0
  pub write : ℕ → List ℕ → State → Result (Unit {0}) (Unit {0}) × State
  pub write_read : ℕ → List ℕ → ℕ → State → Result (Unit {0}) (List ℕ) × State
  pub set_low : State → Result BootError (Unit {0}) × State
  pub set_high : State → Result BootError (Unit {0}) × State

module _ (hw : Hardware) where
  abbrev pub Outcome : Type 0 → Type 0
  Outcome A = Result BootError A × Hardware.State hw

  -- A method with `&mut self` that returns a result, and its `?`.
  abbrev pub Method : Type 0 → Type 0
  Method A = Hardware.State hw → Outcome A

  abbrev pub after : {A B : Type 0} → Outcome A → (A → Method B) → Outcome B
  after (ok a, s) f = f a s
  after (err e, s) f = (err e, s)

  -- `map_err`.
  abbrev pub with_error :
      {A : Type 0} → BootError → Result (Unit {0}) A × Hardware.State hw → Outcome A
  with_error e (ok a, s) = (ok a, s)
  with_error e (err t, s) = (err e, s)

  unfoldable pub write_mem : ℕ → List ℕ → Method (Unit {0})
  write_mem addr bytes s =
      if ltb rp1_chunk_size (length bytes)
      then (err rp1_chunk_too_large, s)
      else with_error i2c_write (hw.write rp1_i2c_addr (to_be_bytes 4 addr ++ bytes) s)

  unfoldable pub read_mem : ℕ → ℕ → Method (List ℕ)
  read_mem addr len s = with_error i2c_read (hw.write_read rp1_i2c_addr (to_be_bytes 4 addr) len s)

  unfoldable pub write32 : ℕ → ℕ → Method (Unit {0})
  write32 addr value s = write_mem addr (to_le_bytes 4 value) s

  unfoldable pub probe_chip_id : Method ℕ
  probe_chip_id s = after (read_mem rp1_chip_id 4 s) (λ bytes t. (ok (from_le_bytes bytes), t))

  -- The loop of `load_image` from the offset `off` on. Each round writes a byte at least, so the length
  -- of the payload is fuel enough.
  unfoldable pub load_chunk : Rp1Image → ℕ → Method (Unit {0})
  load_chunk image off s =
      let n = min rp1_chunk_size (length image.payload - off) in
      elim (checked_add32 image.load_addr (off % u32_mod)) [
        | none ↦ (err address_overflow, s)
        | some dst ↦ write_mem dst (slice image.payload off (off + n)) s
      ]

  unfoldable pub load_chunks : ℕ → Rp1Image → ℕ → Method (Unit {0})
  load_chunks zero image off s = (ok tt, s)
  load_chunks (suc fuel) image off s =
      if ltb off (length image.payload)
      then after (load_chunk image off s)
          (λ t. load_chunks fuel image (off + min rp1_chunk_size (length image.payload - off)))
      else (ok tt, s)

  unfoldable pub load_image : Rp1Image → Method (Unit {0})
  load_image image s = load_chunks (length image.payload) image 0 s

  unfoldable pub program_scratch : ℕ → ℕ → Method (Unit {0})
  program_scratch entry stack s = after (write32 rp1_scratch_magic rp1_boot_magic s) (λ t1 s1.
      after (write32 rp1_scratch_entry (bit_xor (bit_or entry 1) rp1_boot_magic) s1)
        (λ t2 s2. write32 rp1_scratch_stack stack s2))

  unfoldable pub start : Method (Unit {0})
  start s =
      after (write32 rp1_boot_ctrl_a 0x100 s) (λ t s1. write32 rp1_boot_command 0x8000_0000 s1)

  unfoldable pub load_and_start : Rp1Image → Method (Unit {0})
  load_and_start image s =
      after (load_image image s)
        (λ t1 s1. after (program_scratch image.entry image.stack s1) (λ t2 s2. start s2))

  abbrev or_retry : {A : Type 0} → Outcome A → (BootError → Method A) → Outcome A
  or_retry (ok a, s) again = (ok a, s)
  or_retry (err e, s) again = again e s

  -- A loop of attempts: the first success, or the last error.
  unfoldable pub attempts : {A : Type 0} → ℕ → Method A → BootError → Method A
  attempts zero m last s = (err last, s)
  attempts (suc left) m last s = or_retry (m s) (attempts left m)

  unfoldable pub reset_into_bootrom : Method (Option ℕ)
  reset_into_bootrom s = after (hw.set_low s) (λ t1 s1. after (hw.set_high s1) (λ t2 s2.
      after (attempts 100 (write32 rp1_resets_clr rp1_resets_all_clr_mask_for_chip_id) i2c_write s2)
        (λ t3 s3. after (attempts 50 probe_chip_id i2c_nack s3) (λ id s4. (ok (some id), s4)))))
