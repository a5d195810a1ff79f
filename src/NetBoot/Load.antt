-- ===== src/NetBoot/Load.antt =====
-- The artifacts that rp1_chainboot_poc/src/net_boot.rs fetches: the RP1 firmware with its configuration
-- and owner policy, and the kernel. The check of the sealed digest, which features add, is the argument
-- `sealed`.
use rp1_bootloader_po_c.Base.{false}
use rp1_bootloader_po_c.NetBoot.{String}
use rp1_bootloader_po_c.Base.{◌&&◌}
use rp1_bootloader_po_c.Base.{
  ℕ, Bool, List, [], ◌∷◌, Option, none, some, Result, BootError, ok, ok_or, guard, ◌>>=◌, ◌>>◌,
  slice, length, eq_bytes, rp1_image_invalid, dtb_patch,
}
use rp1_bootloader_po_c.Base.{◌==◌}
use rp1_bootloader_po_c.Base.Words.{from_be_bytes}
use rp1_bootloader_po_c.DeviceTree.{DeviceTreeApi}
use rp1_bootloader_po_c.Dhcp.{NetworkBootLease}
use rp1_bootloader_po_c.Config.{Rp1Config, parse_optional_config}
use rp1_bootloader_po_c.Policy.Abi.{Rp1Abi}
use rp1_bootloader_po_c.Policy.{Rp1DtbPolicy}
use rp1_bootloader_po_c.Rp1Note.{NoteAbi}
use rp1_bootloader_po_c.Rp1Image.{ImageFeatures}
use rp1_bootloader_po_c.Rp1Image.Elf.{Rp1ElfInfo, inspect_rp1_elf}
use rp1_bootloader_po_c.Start.{config_or_invalid, enforce_rp1_elf_note_policy_with_config}
use rp1_bootloader_po_c.NetBoot.{
  TftpApi, Step, after, download_tftp_required, download_tftp_optional, flush_tftp_transfer,
  drain_rx, tftp_rp1_elf_staging_max, tftp_rp1_config_staging_max,
}

-- What a boot builds on: the crates' constants, the features, the digest check, the decoder of
-- configuration texts and how often the drain looks at the clock.
pub record Build : Type 0 where
  pub abi : Rp1Abi
  pub note_abi : NoteAbi
  pub from_utf8 : List ℕ → Option (List ℕ)
  pub features : ImageFeatures
  pub sealed : List ℕ → Bool
  pub drain_looks : ℕ

-- `log_rp1_elf_file_selection` of main.rs.
unfoldable pub log_rp1_elf_file_selection : Build → List ℕ → Result BootError Rp1ElfInfo
log_rp1_elf_file_selection b elf = do
  guard (b.sealed elf) rp1_image_invalid
  inspect_rp1_elf b.features elf

pub record Loaded : Type 0 where
  pub elf : List ℕ
  pub policy : Rp1DtbPolicy
  pub config : Rp1Config

-- The checks behind the two downloads.
unfoldable pub judge_files : Build → List ℕ → Option (List ℕ) → Result BootError Loaded
judge_files b elf cfg_file = do
  parsed ← config_or_invalid (parse_optional_config b.abi b.from_utf8 cfg_file)
  policy ← enforce_rp1_elf_note_policy_with_config b.abi b.note_abi b.from_utf8 elf cfg_file
  ok (record { elf = elf; policy = policy; config = parsed })

module _ {S : Type 0} (api : TftpApi S) (b : Build) (lease : NetworkBootLease) where
  -- A check that touches neither the device nor the ports.
  abbrev pub pure : {A : Type 0} → Result BootError A → Step S A
  pure r w = (r, w)

  unfoldable pub flush_and_drain : Loaded → Step S Loaded
  flush_and_drain loaded w =
      after (flush_tftp_transfer api lease w)
        (λ t u. (ok loaded, drain_rx api lease b.drain_looks 200000 u))

  unfoldable pub load_rp1_elf_and_policy_from_tftp : Step S Loaded
  load_rp1_elf_and_policy_from_tftp w =
      after (download_tftp_required api lease "RP1.elf" tftp_rp1_elf_staging_max w) (λ elf w1.
        after (pure (log_rp1_elf_file_selection b elf) w1) (λ info w2.
          after (download_tftp_optional api lease "config_rp1.txt" tftp_rp1_config_staging_max w2)
            (λ cfg_file w3. after (pure (judge_files b elf cfg_file) w3) flush_and_drain)))

  unfoldable pub load_rp1_policy_from_tftp : Step S Rp1DtbPolicy
  load_rp1_policy_from_tftp w =
      after (load_rp1_elf_and_policy_from_tftp w) (λ loaded u. (ok loaded.policy, u))

-- The property that a device tree must have for the console's clock.
same_bytes : Option (List ℕ) → List ℕ → Bool
same_bytes none value = false
same_bytes (some v) value = eq_bytes v value

module _ (dt : DeviceTreeApi) where
  open dt use {Parser, Tree, Node, from_parser, find_node_by_path, node, property}

  tree_node : Tree → String → Result BootError Node
  tree_node tree path = do
    id ← ok_or (find_node_by_path tree path) dtb_patch
    ok_or (node tree id) dtb_patch

  clock_rate : Node → Node → Result BootError ℕ
  clock_rate provider uart = do
    rate ← ok_or (property provider "clock-frequency") dtb_patch
    phandle ← ok_or (property provider "phandle") dtb_patch
    clocks ← ok_or (property uart "clocks") dtb_patch
    guard
        (same_bytes (property provider "compatible")
            (0x66 ∷ 0x69 ∷ 0x78 ∷ 0x65 ∷ 0x64 ∷ 0x2d ∷ 0x63 ∷ 0x6c ∷ 0x6f ∷ 0x63 ∷ 0x6b ∷ 0 ∷ [])
          && same_bytes (property provider "#clock-cells") (0 ∷ 0 ∷ 0 ∷ 0 ∷ [])
          && length clocks == 8
          && length phandle == 4
          && eq_bytes (slice clocks 0 4) phandle)
        dtb_patch
    guard (length rate == 4) dtb_patch
    ok (from_be_bytes rate)

  console_clock_hz : Parser → Result BootError ℕ
  console_clock_hz parser = do
    tree ← ok_or (from_parser parser) dtb_patch
    provider ← tree_node tree "/clocks/clk-uart"
    uart ← tree_node tree "/soc@107c000000/serial@7d001000"
    clock_rate provider uart
