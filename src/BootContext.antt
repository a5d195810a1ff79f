-- ===== src/BootContext.antt =====
-- rp1_chainboot_poc/src/boot_context.rs: how the firmware booted, read from the device tree.
mod Tests
pub mod Modes
use Prim.Native.String.{String}
use rp1_bootloader_po_c.Base.{
  ℕ, Option, none, some, List, [], ◌∷◌, ◌==◌, if◌then◌else◌, get_range, Result, BootError, ok, err,
  ok_or, ◌>>=◌, ◌>>◌, boot_mode_dtb_node_missing, boot_mode_dtb_node_invalid,
  firmware_booted_from_sd_or_emmc, firmware_booted_from_usb_msd, firmware_boot_mode_unsupported,
}
use rp1_bootloader_po_c.Base.Words.{from_be_bytes}
use rp1_bootloader_po_c.DeviceTree.{DeviceTreeApi}

pub data FirmwareBootMode : Type 0 where
  sd_or_emmc network rpiboot usb_msd nvme http : FirmwareBootMode
  unknown : ℕ → FirmwareBootMode

pub record FirmwareBootContext : Type 0 where
  pub boot_mode : FirmwareBootMode
  pub boot_partition : Option ℕ

unfoldable pub from_raw : ℕ → FirmwareBootMode
from_raw value =
    if value == 1
    then sd_or_emmc
    else if value == 2
    then network
    else if value == 3
    then rpiboot
    else if value == 4
    then usb_msd
    else if value == 6
    then nvme
    else if value == 7
    then http
    else unknown value

unfoldable pub raw_value : FirmwareBootMode → ℕ
raw_value sd_or_emmc = 1
raw_value network = 2
raw_value rpiboot = 3
raw_value usb_msd = 4
raw_value nvme = 6
raw_value http = 7
raw_value (unknown value) = value

unfoldable pub as_str : FirmwareBootMode → String
as_str sd_or_emmc = "sd-emmc"
as_str network = "network"
as_str rpiboot = "rpiboot"
as_str usb_msd = "usb-msd"
as_str nvme = "nvme"
as_str http = "http"
as_str (unknown _) = "unknown"

unfoldable pub parse_be_u32_prefix : List ℕ → Option ℕ
parse_be_u32_prefix bytes = elim (get_range bytes 0 4) [
  | none ↦ none
  | some four ↦ some (from_be_bytes four)
]

unfoldable pub parse_boot_mode_prop : Option (List ℕ) → Result BootError FirmwareBootMode
unfolding parse_be_u32_prefix from_raw
parse_boot_mode_prop none = err boot_mode_dtb_node_missing
parse_boot_mode_prop (some bytes) = do
  raw ← ok_or (parse_be_u32_prefix bytes) boot_mode_dtb_node_invalid
  ok (from_raw raw)

unfoldable pub parse_optional_be_u32_prop : Option (List ℕ) → Option ℕ
unfolding parse_be_u32_prefix
parse_optional_be_u32_prop none = none
parse_optional_be_u32_prop (some bytes) = parse_be_u32_prefix bytes

unfoldable pub enforce_default_policy : FirmwareBootContext → Result BootError (Unit {0})
enforce_default_policy c = elim c.boot_mode [
  | network ↦ ok tt
  | sd_or_emmc ↦ err firmware_booted_from_sd_or_emmc
  | usb_msd ↦ err firmware_booted_from_usb_msd
  | _ ↦ err firmware_boot_mode_unsupported
]

module _ (api : DeviceTreeApi) where
  open api use {Parser, Tree, Node, from_parser, find_node_by_path, node, property}

  -- `tree.find_node_by_path(path).and_then(|id| tree.node(id))`.
  pub node_at : Tree → String → Option Node
  node_at tree path = elim (find_node_by_path tree path) [ none ↦ none | some id ↦ node tree id ]

  pub from_dtb : Parser → Result BootError FirmwareBootContext
  unfolding node_at parse_boot_mode_prop parse_optional_be_u32_prop
  from_dtb parser = do
    tree ← ok_or (from_parser parser) boot_mode_dtb_node_invalid
    bootloader ← ok_or (node_at tree "/chosen/bootloader") boot_mode_dtb_node_missing
    mode ← parse_boot_mode_prop (property bootloader "boot-mode")
    ok (record {
      boot_mode = mode;
      boot_partition = parse_optional_be_u32_prop (property bootloader "partition");
    })

  -- The part of `main_flow` of main.rs that decides whether the boot goes on.
  pub checked_boot_context : Parser → Result BootError FirmwareBootContext
  unfolding from_dtb enforce_default_policy
  checked_boot_context parser = do
    boot_ctx ← from_dtb parser
    enforce_default_policy boot_ctx
    ok boot_ctx
