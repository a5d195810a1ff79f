-- ===== src/Config/Tests.antt =====
-- The owner lines at one device.
use rp1_bootloader_po_c.Base.{arith}
use rp1_bootloader_po_c.Base.{◌^◌, ◌≡◌, ◌≤◌, refl, ok}
use rp1_bootloader_po_c.Policy.Abi.{Rp1Abi}
use rp1_bootloader_po_c.Config.{Rp1Config, default_config, set_owner}
use rp1_bootloader_po_c.Config.Words.{word_linux}
use rp1_bootloader_po_c.Config.Owned.{sides, set_owner-keeps}

abbrev numbered : Rp1Abi
numbered = record {
  bit = λ n. 2 ^ n;
  dev_gpio = 0;
  dev_uart0 = 1;
  dev_uart1 = 2;
  dev_i2c0 = 3;
  dev_i2c1 = 4;
  dev_spi0 = 5;
  dev_pio0 = 6;
  dev_pio1 = 7;
  dev_dma = 8;
  dev_timer = 9;
}

abbrev with_uart : Rp1Config
with_uart = record default_config { owner_linux = 2 }

given : set_owner numbered default_config 1 word_linux ≡ ok with_uart
unfolding set_owner
given = refl

set_owner-keeps_example :
    (sides with_uart 1 ≤ 1)
    × (with_uart ≡ record default_config {
      owner_rp1 = with_uart.owner_rp1;
      owner_linux = with_uart.owner_linux;
      owner_disabled = with_uart.owner_disabled;
    })
set_owner-keeps_example =
    set_owner-keeps numbered default_config with_uart 1 word_linux 1 (omega arith) given
