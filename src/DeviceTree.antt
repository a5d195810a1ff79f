-- ===== src/DeviceTree.antt =====
-- The `dtb` crate, which the repository does not hold: what the loader calls of it, as a parameter.
use Prim.Native.String.{String}
use rp1_bootloader_po_c.Base.{ℕ, Option, List}

-- Reading a device tree. A property is its bytes.
pub record DeviceTreeApi : Type 1 where
  pub Parser : Type 0
  pub Tree : Type 0
  pub Node : Type 0
  pub from_parser : Parser → Option Tree
  pub find_node_by_path : Tree → String → Option ℕ
  pub node : Tree → ℕ → Option Node
  pub property : Node → String → Option (List ℕ)

-- Editing an owned tree: `get_or_create_node_by_path`, `node_mut` with `set_property`, which is `none`
-- where there is no such node, and `into_dtb_box`.
pub record DeviceTreeEditApi (Parser : Type 0) : Type 1 where
  pub Owned : Type 0
  pub into_owned : Parser → Option Owned
  pub get_or_create_node_by_path : Owned → String → Option (ℕ × Owned)
  pub find_owned_by_path : Owned → String → Option ℕ
  pub set_property : Owned → ℕ → String → List ℕ → Option Owned
  pub into_dtb_box : Owned → Option (List ℕ)
