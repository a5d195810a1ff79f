-- ===== src/Policy.antt =====
-- rp1_chainboot_poc/src/rp1_dtb_policy.rs: which side owns each RP1 device, and the check of an
-- owner table. The device numbers and their masks come from the crate rp1-abi, a parameter.
mod Tests
pub mod Abi
pub mod Owners
use Prim.Native.String.{String}
use rp1_bootloader_po_c.Base.{
  ℕ, ◌-◌, bit_and, bit_or, Bool, not, Option, none, some, List, [], ◌∷◌, ◌==◌, if◌then◌else◌,
  Result, BootError, ok, err, guard, ◌>>=◌, ◌>>◌, rp1_dtb_policy_invalid, rp1_config_invalid,
}
use rp1_bootloader_po_c.Base.Words.{usize_mod}
use rp1_bootloader_po_c.Rp1Note.{Rp1BootInfo}
use rp1_bootloader_po_c.Config.{Rp1Config}
use rp1_bootloader_po_c.Base.{rp1_config_invalid}
use Abi.{Rp1Abi}

pub data Rp1DtbPolicySource : Type 0 where
  note config : Rp1DtbPolicySource

pub data Rp1DeviceOwner : Type 0 where
  rp1 linux disabled unspecified : Rp1DeviceOwner

pub record Rp1DtbPolicy : Type 0 where
  pub owner_rp1 : ℕ
  pub owner_linux : ℕ
  pub owner_disabled : ℕ
  pub source : Rp1DtbPolicySource

-- `Rp1DeviceOwner::linux_status`.
unfoldable pub linux_status : Rp1DeviceOwner → Option String
linux_status rp1 = some "disabled"
linux_status disabled = some "disabled"
linux_status linux = some "okay"
linux_status unspecified = none

module _ (abi : Rp1Abi) where
  open abi use {
    bit, dev_gpio, dev_uart0, dev_uart1, dev_i2c0, dev_i2c1, dev_spi0, dev_pio0, dev_pio1, dev_dma,
    dev_timer,
  }

  -- `RP1_KNOWN_DEVICE_MASK`.
  unfoldable pub known_device_mask : ℕ
  known_device_mask =
      bit_or
        (bit_or
          (bit_or
            (bit_or
              (bit_or
                (bit_or
                  (bit_or (bit_or (bit_or (bit dev_gpio) (bit dev_uart0)) (bit dev_uart1))
                    (bit dev_i2c0))
                  (bit dev_i2c1))
                (bit dev_spi0))
              (bit dev_pio0))
            (bit dev_pio1))
          (bit dev_dma))
        (bit dev_timer)

  unfoldable pub validate : Rp1DtbPolicy → Result BootError (Unit {0})
  validate p = do
    let overlap =
        bit_or (bit_or (bit_and p.owner_rp1 p.owner_linux) (bit_and p.owner_rp1 p.owner_disabled))
          (bit_and p.owner_linux p.owner_disabled)
    guard (overlap == 0) rp1_dtb_policy_invalid
    let specified = bit_or (bit_or p.owner_rp1 p.owner_linux) p.owner_disabled
    guard (bit_and specified (usize_mod - 1 - known_device_mask) == 0) rp1_dtb_policy_invalid
    guard (bit_and specified known_device_mask == known_device_mask) rp1_dtb_policy_invalid
    guard (bit_and p.owner_linux (bit_or (bit dev_pio0) (bit dev_pio1)) == 0) rp1_dtb_policy_invalid

  unfoldable pub from_note : Rp1BootInfo → Result BootError Rp1DtbPolicy
  from_note note_info = do
    let policy : Rp1DtbPolicy = record {
      owner_rp1 = note_info.owner_rp1;
      owner_linux = note_info.owner_linux;
      owner_disabled = note_info.owner_disabled;
      source = note;
    }
    validate policy
    ok policy

  unfoldable pub from_config : Rp1Config → Result BootError Rp1DtbPolicy
  from_config c = do
    guard c.owner_table_seen rp1_config_invalid
    let policy : Rp1DtbPolicy = record {
      owner_rp1 = c.owner_rp1;
      owner_linux = c.owner_linux;
      owner_disabled = c.owner_disabled;
      source = config;
    }
    validate policy
    ok policy

  unfoldable pub owner_of : Rp1DtbPolicy → ℕ → Rp1DeviceOwner
  owner_of p dev =
      let mask = bit dev in
      if not (bit_and p.owner_rp1 mask == 0)
      then rp1
      else if not (bit_and p.owner_linux mask == 0)
      then linux
      else if not (bit_and p.owner_disabled mask == 0)
      then disabled
      else unspecified

  -- One entry of `RP1_DEVICE_DTB_NODES`.
  pub record Rp1DeviceDtbNode : Type 0 where
    pub bit_of : ℕ
    pub name : String
    pub fallback_paths : List String

  -- `RP1_DEVICE_DTB_NODES`.
  unfoldable pub rp1_device_dtb_nodes : List Rp1DeviceDtbNode
  rp1_device_dtb_nodes =
      record {
        bit_of = dev_gpio;
        name = "gpio";
        fallback_paths =
            "/axi/pcie@1000120000/rp1/gpio@d0000" ∷ "/axi/pcie@120000/rp1/gpio@d0000"
            ∷ "/soc/rp1/gpio@d0000" ∷ [];
      }
      ∷ record {
        bit_of = dev_uart0;
        name = "uart0";
        fallback_paths =
            "/axi/pcie@1000120000/rp1/serial@30000" ∷ "/axi/pcie@120000/rp1/uart@30000"
            ∷ "/soc/rp1/uart@30000" ∷ [];
      }
      ∷ record {
        bit_of = dev_uart1;
        name = "uart1";
        fallback_paths =
            "/axi/pcie@1000120000/rp1/serial@34000" ∷ "/axi/pcie@120000/rp1/uart@34000"
            ∷ "/soc/rp1/uart@34000" ∷ [];
      }
      ∷ record {
        bit_of = dev_i2c0;
        name = "i2c0";
        fallback_paths =
            "/axi/pcie@1000120000/rp1/i2c@70000" ∷ "/axi/pcie@120000/rp1/i2c@70000"
            ∷ "/soc/rp1/i2c@70000" ∷ [];
      }
      ∷ record {
        bit_of = dev_i2c1;
        name = "i2c1";
        fallback_paths =
            "/axi/pcie@1000120000/rp1/i2c@74000" ∷ "/axi/pcie@120000/rp1/i2c@74000"
            ∷ "/soc/rp1/i2c@74000" ∷ [];
      }
      ∷ record {
        bit_of = dev_spi0;
        name = "spi0";
        fallback_paths =
            "/axi/pcie@1000120000/rp1/spi@50000" ∷ "/axi/pcie@120000/rp1/spi@50000"
            ∷ "/soc/rp1/spi@50000" ∷ [];
      }
      ∷ record {
        bit_of = dev_pio0;
        name = "pio0";
        fallback_paths =
            "/axi/pcie@1000120000/rp1/pio@178000" ∷ "/axi/pcie@120000/rp1/pio@178000"
            ∷ "/soc/rp1/pio@178000" ∷ [];
      }
      ∷ record {
        bit_of = dev_pio1;
        name = "pio1";
        fallback_paths =
            "/axi/pcie@1000120000/rp1/pio@178000" ∷ "/axi/pcie@120000/rp1/pio@178000"
            ∷ "/soc/rp1/pio@178000" ∷ [];
      }
      ∷ record {
        bit_of = dev_dma;
        name = "dma";
        fallback_paths =
            "/axi/pcie@1000120000/rp1/dma@188000" ∷ "/axi/pcie@120000/rp1/dma@188000"
            ∷ "/soc/rp1/dma@188000" ∷ [];
      }
      ∷ record { bit_of = dev_timer; name = "timer"; fallback_paths = [] }
      ∷ []
