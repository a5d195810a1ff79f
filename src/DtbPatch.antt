-- ===== src/DtbPatch.antt =====
-- rp1_chainboot_poc/src/dtb_patch.rs: the device tree for Linux, with the initrd, the command line and
-- the status of the RP1 devices by their owners. The crate dtb is a parameter. Log lines are left out.
pub mod Statuses
mod Tests
use Prim.Native.String.{String}
use Prim.Native.Char.{code}
use rp1_bootloader_po_c.Base.{
  ℕ, zero, suc, ◌+◌, Bool, true, false, ◌||◌, not, ltb, if◌then◌else◌, List, [], ◌∷◌, ◌++◌, Option,
  none, some, Result, BootError, ok, err, ok_or, guard, ◌>>=◌, ◌>>◌, eq_bytes, length, bit_and,
  dtb_patch, rp1_dtb_policy_invalid, rp1_dtb_node_not_found,
}
use rp1_bootloader_po_c.Base.{◌==◌}
use rp1_bootloader_po_c.Base.Words.{to_be_bytes}
use rp1_bootloader_po_c.DeviceTree.{DeviceTreeApi, DeviceTreeEditApi}
use rp1_bootloader_po_c.Placement.{Memory}
use rp1_bootloader_po_c.Placement.{write_bytes}
use rp1_bootloader_po_c.Policy.Abi.{Rp1Abi}
use rp1_bootloader_po_c.Policy.{
  Rp1DtbPolicy, Rp1DeviceDtbNode, validate, owner_of, linux_status, rp1_device_dtb_nodes,
}

-- The bytes of an ASCII text.
unfoldable pub as_bytes : String → List ℕ
as_bytes String.[] = []
as_bytes (String.◌∷◌ c s) = code c ∷ as_bytes s

unfoldable pub status_prop : String → List ℕ
status_prop value = as_bytes value ++ (0 ∷ [])

unfoldable pub be64 : ℕ → List ℕ
be64 value = to_be_bytes 8 value

unfoldable pub is_trimmed : ℕ → Bool
is_trimmed b = b == 0 || b == 10 || b == 13

-- The loop drops trailing NULs and newlines: what is kept is up to the last other byte.
unfoldable pub trim_ascii_nul_newline : List ℕ → List ℕ
trim_ascii_nul_newline [] = []
trim_ascii_nul_newline (b ∷ bs) = elim (trim_ascii_nul_newline bs) [
  | [] ↦ if is_trimmed b then [] else b ∷ []
  | (c ∷ cs) ↦ b ∷ c ∷ cs
]

pub record PatchedDtb : Type 0 where
  pub addr : ℕ
  pub len : ℕ

-- The properties of a node that `validate_firmware_board` compares.
module _ (dt : DeviceTreeApi) where
  open dt use {Parser, Tree, Node, from_parser, find_node_by_path, node, property}

  node_of : Tree → String → Option Node
  node_of tree path = elim (find_node_by_path tree path) [ none ↦ none | some id ↦ node tree id ]

  same_value : Option (List ℕ) → List ℕ → Bool
  same_value none value = false
  same_value (some v) value = eq_bytes v value

  same_properties : Node → Node → List String → Result BootError (Unit {0})
  same_properties before after [] = ok tt
  same_properties before after (p ∷ ps) = do
    value ← ok_or (property before p) dtb_patch
    guard (same_value (property after p) value) dtb_patch
    same_properties before after ps

  same_nodes : Tree → Tree → List (String × List String) → Result BootError (Unit {0})
  same_nodes original candidate [] = ok tt
  same_nodes original candidate ((path, props) ∷ rest) = do
    before ← ok_or (node_of original path) dtb_patch
    after ← ok_or (node_of candidate path) dtb_patch
    same_properties before after props
    same_nodes original candidate rest

  board_properties : List (String × List String)
  board_properties =
      ("/memory@0", "reg" ∷ [])
      ∷ ("/soc@107c000000/pinctrl@7d504100", "compatible" ∷ "reg" ∷ [])
      ∷ ("/soc@107c000000/pinctrl@7d510700", "compatible" ∷ "reg" ∷ [])
      ∷ ("/soc@107c000000/serial@7d001000", "compatible" ∷ "reg" ∷ "interrupts" ∷ [])
      ∷ []

  validate_firmware_board : Parser → Parser → Result BootError (Unit {0})
  validate_firmware_board firmware candidate = do
    original ← ok_or (from_parser firmware) dtb_patch
    linux ← ok_or (from_parser candidate) dtb_patch
    same_nodes original linux board_properties

abbrev pub first_some : Option ℕ → Option ℕ → Option ℕ
first_some none other = other
first_some (some id) other = some id

module _ {Parser : Type 0} (edit : DeviceTreeEditApi Parser) (abi : Rp1Abi) where
  open edit use {
    Owned, into_owned, get_or_create_node_by_path, find_owned_by_path, set_property, into_dtb_box,
  }

  unfoldable pub find_existing_node : Owned → List String → Option ℕ
  find_existing_node tree [] = none
  find_existing_node tree (p ∷ ps) =
      first_some (find_owned_by_path tree p) (find_existing_node tree ps)

  -- The part of the loop behind the owner's status.
  unfoldable pub set_status : Owned → List String → String → Result BootError Owned
  set_status tree [] status = ok tree
  set_status tree (p ∷ ps) status = do
    id ← ok_or (find_existing_node tree (p ∷ ps)) rp1_dtb_node_not_found
    ok_or (set_property tree id "status" (status_prop status)) dtb_patch

  unfoldable pub apply_device : Rp1DtbPolicy → Owned → Rp1DeviceDtbNode abi → Result BootError Owned
  apply_device policy tree spec = do
    status ← ok_or (linux_status (owner_of abi policy spec.bit_of)) rp1_dtb_policy_invalid
    set_status tree spec.fallback_paths status

  unfoldable pub apply_devices :
      Rp1DtbPolicy → Owned → List (Rp1DeviceDtbNode abi) → Result BootError Owned
  apply_devices policy tree [] = ok tree
  apply_devices policy tree (spec ∷ specs) = do
    changed ← apply_device policy tree spec
    apply_devices policy changed specs

  unfoldable pub apply_rp1_policy : Owned → Rp1DtbPolicy → Result BootError Owned
  apply_rp1_policy tree policy = do
    validate abi policy
    apply_devices policy tree (rp1_device_dtb_nodes abi)

  unfoldable pub with_bootargs : Owned → ℕ → Option (List ℕ) → Result BootError Owned
  with_bootargs tree chosen none = ok tree
  with_bootargs tree chosen (some cmdline) =
      ok_or (set_property tree chosen "bootargs" (trim_ascii_nul_newline cmdline ++ (0 ∷ [])))
        dtb_patch

  unfoldable pub with_policy : Owned → Option Rp1DtbPolicy → Result BootError Owned
  with_policy tree none = ok tree
  with_policy tree (some policy) = apply_rp1_policy tree policy

  -- The properties of `/chosen`.
  unfoldable pub patch_chosen : Owned → ℕ → ℕ → Option (List ℕ) → Result BootError Owned
  patch_chosen tree initrd_start initrd_end bootargs = do
    (chosen, tree) ← ok_or (get_or_create_node_by_path tree "/chosen") dtb_patch
    tree ← ok_or (set_property tree chosen "linux,initrd-start" (be64 initrd_start)) dtb_patch
    tree ← ok_or (set_property tree chosen "linux,initrd-end" (be64 initrd_end)) dtb_patch
    with_bootargs tree chosen bootargs

  -- The tree that Linux is given.
  unfoldable pub patched_tree :
      Parser → ℕ → ℕ → Option (List ℕ) → Option Rp1DtbPolicy → Result BootError Owned
  patched_tree parser initrd_start initrd_end bootargs rp1_policy = do
    tree ← ok_or (into_owned parser) dtb_patch
    tree ← patch_chosen tree initrd_start initrd_end bootargs
    with_policy tree rp1_policy

  -- `patch_dtb_for_linux`, with the memory that it writes to.
  unfoldable pub patch_dtb_for_linux :
      Parser
      → ℕ
      → ℕ
      → ℕ
      → ℕ
      → Option (List ℕ)
      → Option Rp1DtbPolicy
      → Memory
      → Result BootError (PatchedDtb × Memory)
  patch_dtb_for_linux parser base max initrd_start initrd_end bootargs rp1_policy memory = do
    tree ← patched_tree parser initrd_start initrd_end bootargs rp1_policy
    dtb ← ok_or (into_dtb_box tree) dtb_patch
    guard (not (ltb max (length dtb) || not (bit_and base 7 == 0))) dtb_patch
    ok (record { addr = base; len = length dtb }, write_bytes memory base dtb)
