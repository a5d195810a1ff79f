-- ===== src/Start/Tests.antt =====
-- A configuration that forces the boot of a file without a note.
use rp1_bootloader_po_c.Base.{ℕ, ◌^◌, ◌≡◌, refl, List, [], ◌∷◌, some, ok, replicate}
use rp1_bootloader_po_c.Rp1Note.{NoteAbi, parse_rp1_note, find_note_section}
use rp1_bootloader_po_c.Config.{
  parse_optional_config, config_loop, line_step, entry_step, root_entry, set_owner, owner_key_bit,
  split_once, strip_comment, trim, trim_value, parse_u32,
}
use rp1_bootloader_po_c.Policy.Abi.{Rp1Abi}
use rp1_bootloader_po_c.Policy.{Rp1DtbPolicy, config, validate, from_config, known_device_mask}
use rp1_bootloader_po_c.Start.{policy_of_note, enforce_rp1_elf_note_policy_with_config}
use rp1_bootloader_po_c.Start.Validated.{enforce_rp1_elf_note_policy_with_config-validate}

abbrev numbered : Rp1Abi
numbered = record {
  bit = λ n. 2 ^ n;
  dev_gpio = 0;
  dev_uart0 = 1;
  dev_uart1 = 2;
  dev_i2c0 = 3;
  dev_i2c1 = 4;
  dev_spi0 = 5;
  dev_pio0 = 6;
  dev_pio1 = 7;
  dev_dma = 8;
  dev_timer = 9;
}

abbrev small_abi : NoteAbi
small_abi = record {
  note_magic = replicate 8 77;
  note_name = 82 ∷ [];
  note_type_boot_v1 = 1;
  note_abi_version = 1;
  boot_info_size = 80;
  version_non_pio = 2;
}

-- force_boot, and an owner table that gives the PIO devices to RP1.
abbrev text : List ℕ
text =
    102 ∷ 111 ∷ 114 ∷ 99 ∷ 101 ∷ 95 ∷ 98 ∷ 111 ∷ 111 ∷ 116 ∷ 32 ∷ 61 ∷ 32 ∷ 116 ∷ 114 ∷ 117 ∷ 101
    ∷ 32 ∷ 35 ∷ 32 ∷ 100 ∷ 101 ∷ 98 ∷ 117 ∷ 103 ∷ 10 ∷ 91 ∷ 111 ∷ 119 ∷ 110 ∷ 101 ∷ 114 ∷ 93 ∷ 10
    ∷ 103 ∷ 112 ∷ 105 ∷ 111 ∷ 61 ∷ 108 ∷ 105 ∷ 110 ∷ 117 ∷ 120 ∷ 10 ∷ 117 ∷ 97 ∷ 114 ∷ 116 ∷ 48 ∷ 61
    ∷ 108 ∷ 105 ∷ 110 ∷ 117 ∷ 120 ∷ 10 ∷ 117 ∷ 97 ∷ 114 ∷ 116 ∷ 49 ∷ 61 ∷ 108 ∷ 105 ∷ 110 ∷ 117
    ∷ 120 ∷ 10 ∷ 105 ∷ 50 ∷ 99 ∷ 48 ∷ 61 ∷ 108 ∷ 105 ∷ 110 ∷ 117 ∷ 120 ∷ 10 ∷ 105 ∷ 50 ∷ 99 ∷ 49
    ∷ 61 ∷ 108 ∷ 105 ∷ 110 ∷ 117 ∷ 120 ∷ 10 ∷ 115 ∷ 112 ∷ 105 ∷ 48 ∷ 61 ∷ 108 ∷ 105 ∷ 110 ∷ 117
    ∷ 120 ∷ 10 ∷ 112 ∷ 105 ∷ 111 ∷ 48 ∷ 61 ∷ 34 ∷ 114 ∷ 112 ∷ 49 ∷ 34 ∷ 10 ∷ 112 ∷ 105 ∷ 111 ∷ 49
    ∷ 61 ∷ 34 ∷ 114 ∷ 112 ∷ 49 ∷ 34 ∷ 10 ∷ 100 ∷ 109 ∷ 97 ∷ 61 ∷ 108 ∷ 105 ∷ 110 ∷ 117 ∷ 120 ∷ 10
    ∷ 116 ∷ 105 ∷ 109 ∷ 101 ∷ 114 ∷ 61 ∷ 108 ∷ 105 ∷ 110 ∷ 117 ∷ 120 ∷ 10 ∷ []

abbrev policy : Rp1DtbPolicy
policy = record { owner_rp1 = 0xc0; owner_linux = 0x33f; owner_disabled = 0; source = config }

enforced :
    enforce_rp1_elf_note_policy_with_config numbered small_abi (λ bytes. some bytes) [] (some text)
    ≡ ok policy
unfolding enforce_rp1_elf_note_policy_with_config policy_of_note parse_rp1_note find_note_section
    parse_optional_config config_loop line_step entry_step root_entry set_owner owner_key_bit
    split_once strip_comment trim trim_value parse_u32 from_config validate known_device_mask
enforced = refl

enforce_rp1_elf_note_policy_with_config-validate_example : validate numbered policy ≡ ok tt
enforce_rp1_elf_note_policy_with_config-validate_example =
    enforce_rp1_elf_note_policy_with_config-validate numbered small_abi (λ bytes. some bytes) []
      (some text) policy enforced
