-- ===== src/Policy/Tests.antt =====
-- The properties of the owner tables at a table that shares the devices out.
use rp1_bootloader_po_c.Base.{arith}
use rp1_bootloader_po_c.Base.{◌^◌, ◌≡◌, ◌↔◌, refl, ok}
use rp1_bootloader_po_c.Base.Bits.{test_bit}
use rp1_bootloader_po_c.Policy.Abi.{Rp1Abi, IsMask}
use rp1_bootloader_po_c.Policy.{
  Rp1DtbPolicy, note, rp1, linux, disabled, unspecified, validate, owner_of, known_device_mask,
}
use rp1_bootloader_po_c.Policy.Owners.{owners, IsPartition, validate-IsPartition, owner_of-IsSide}

abbrev numbered : Rp1Abi
numbered = record {
  bit = λ n. 2 ^ n;
  dev_gpio = 0;
  dev_uart0 = 1;
  dev_uart1 = 2;
  dev_i2c0 = 3;
  dev_i2c1 = 4;
  dev_spi0 = 5;
  dev_pio0 = 6;
  dev_pio1 = 7;
  dev_dma = 8;
  dev_timer = 9;
}

numbered-IsMask : IsMask numbered
numbered-IsMask = record {
  bit_is = λ dev h. refl;
  in_word = (
    omega arith,
    (
      omega arith,
      (
        omega arith,
        (
          omega arith,
          (
            omega arith,
            (omega arith, (omega arith, (omega arith, (omega arith, (omega arith, tt))))),
          ),
        ),
      ),
    ),
  );
}

abbrev shared : Rp1DtbPolicy
shared = record { owner_rp1 = 0x2c1; owner_linux = 0x03e; owner_disabled = 0x100; source = note }

validated : validate numbered shared ≡ ok tt
unfolding validate known_device_mask
validated = refl

validate-IsPartition_example : IsPartition numbered numbered-IsMask shared
validate-IsPartition_example = validate-IsPartition numbered numbered-IsMask shared validated

owner_of-IsSide_example :
    ((owner_of numbered shared 5 ≡ rp1) ↔ (test_bit shared.owner_rp1 5 ≡ 1))
    × ((owner_of numbered shared 5 ≡ linux) ↔ (test_bit shared.owner_linux 5 ≡ 1))
    × ((owner_of numbered shared 5 ≡ disabled) ↔ (test_bit shared.owner_disabled 5 ≡ 1))
    × ((owner_of numbered shared 5 ≡ unspecified) ↔ (owners shared 5 ≡ 0))
owner_of-IsSide_example = owner_of-IsSide numbered numbered-IsMask shared 5 (omega arith) validated
