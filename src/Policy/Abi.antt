-- ===== src/Policy/Abi.antt =====
-- The part of the crate rp1-abi (module `owner`) that the repository uses and does not hold: the
-- device numbers and the mask of a device.
use rp1_bootloader_po_c.Base.{ℕ, ◌^◌, ◌<◌, ◌≡◌, List, [], ◌∷◌, All}

pub record Rp1Abi : Type 0 where
  pub bit : ℕ → ℕ
  pub dev_gpio : ℕ
  pub dev_uart0 : ℕ
  pub dev_uart1 : ℕ
  pub dev_i2c0 : ℕ
  pub dev_i2c1 : ℕ
  pub dev_spi0 : ℕ
  pub dev_pio0 : ℕ
  pub dev_pio1 : ℕ
  pub dev_dma : ℕ
  pub dev_timer : ℕ

abbrev pub devices : Rp1Abi → List ℕ
devices abi =
    abi.dev_gpio ∷ abi.dev_uart0 ∷ abi.dev_uart1 ∷ abi.dev_i2c0 ∷ abi.dev_i2c1 ∷ abi.dev_spi0
    ∷ abi.dev_pio0 ∷ abi.dev_pio1 ∷ abi.dev_dma ∷ abi.dev_timer ∷ []

-- The mask of a device is its bit in a 64-bit word, and the device numbers are bit numbers.
pub record IsMask (abi : Rp1Abi) : Type 0 where
  pub bit_is : (dev : ℕ) → dev < 64 → abi.bit dev ≡ 2 ^ dev
  pub in_word : All (λ dev. dev < 64) (devices abi)
