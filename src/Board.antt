-- ===== src/Board.antt =====
-- The BCM2712 side of the RP1 boot protocol: the accesses that rp1_chainboot_poc/src/bcm2712_i2c.rs
-- and bcm2712_aon.rs make to device registers, over the state `S` of the device.
pub mod I2c
pub mod RunPin
pub mod Pins
mod Protocol
mod Receive
mod Delivery
mod Tests
use rp1_bootloader_po_c.Base.{ℕ}

pub record Mmio (S : Type 0) : Type 0 where
  pub read : S → ℕ → ℕ × S
  pub write : S → ℕ → ℕ → S
