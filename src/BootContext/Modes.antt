-- ===== src/BootContext/Modes.antt =====
-- Which boot modes are accepted, and that the raw values and the modes correspond.
use rp1_bootloader_po_c.Base.{
  ℕ, ◌≡◌, ◌≤◌, some, List, arith, length, slice, ok, inl, inr, Option-cases,
}
use rp1_bootloader_po_c.Base.Words.{from_be_bytes}
use rp1_bootloader_po_c.DeviceTree.{DeviceTreeApi}
use rp1_bootloader_po_c.BootContext.{
  FirmwareBootContext, network, from_raw, raw_value, node_at, parse_optional_be_u32_prop,
  checked_boot_context,
}

-- Decoding a raw value and encoding the mode gives the raw value back, whatever it is.
pub raw_value-from_raw : (value : ℕ) → raw_value (from_raw value) ≡ value
unfolding raw_value from_raw
raw_value-from_raw value = ground arith

module _ (api : DeviceTreeApi) where
  open api use {Parser, Node, from_parser, property}

  -- The device tree parses and its node /chosen/bootloader has a property boot-mode whose first
  -- four bytes are the big-endian number 2.
  pub record SaysNetwork (parser : Parser) : Type 0 where
    pub tree : DeviceTreeApi.Tree api
    pub parsed : from_parser parser ≡ some tree
    pub bootloader : Node
    pub found : node_at api tree "/chosen/bootloader" ≡ some bootloader
    pub bytes : List ℕ
    pub has_mode : property bootloader "boot-mode" ≡ some bytes
    pub long : 4 ≤ length bytes
    pub is_two : from_be_bytes (slice bytes 0 4) ≡ 2

  -- Without the feature tftp-boot, the loader goes on from the firmware's boot context only if the
  -- device tree says that the firmware booted over the network; the context then has that mode.
  pub checked_boot_context-SaysNetwork :
      (parser : Parser) (ctx : FirmwareBootContext)
      → checked_boot_context api parser ≡ ok ctx
      → SaysNetwork parser × (ctx.boot_mode ≡ network)
  unfolding checked_boot_context
  checked_boot_context-SaysNetwork parser ctx h = elim (Option-cases (from_parser parser)) [
    | inl absent ↦ absurd (ground arith)
    | inr (tree, parsed) ↦ elim (Option-cases (node_at api tree "/chosen/bootloader")) [
      | inl absent ↦ absurd (ground arith)
      | inr (bootloader, found) ↦ elim (Option-cases (property bootloader "boot-mode")) [
        | inl absent ↦ absurd (ground arith)
        | inr (bytes, has_mode) ↦
            let says : SaysNetwork parser = record {
              tree = tree;
              parsed = parsed;
              bootloader = bootloader;
              found = found;
              bytes = bytes;
              has_mode = has_mode;
              long = ground arith;
              is_two = ground arith;
            } in
            (says, ground arith)
      ]
    ]
  ]

  -- Where the device tree says that the firmware booted over the network, the loader goes on.
  pub checked_boot_context-ok :
      (parser : Parser) (s : SaysNetwork parser)
      → checked_boot_context api parser
        ≡ ok (record {
          boot_mode = network;
          boot_partition = parse_optional_be_u32_prop (property s.bootloader "partition");
        })
  unfolding checked_boot_context
  checked_boot_context-ok parser s = ground arith
