-- ===== src/BootContext/Tests.antt =====
-- The boot mode properties on a small device tree.
use rp1_bootloader_po_c.Base.{arith}
use rp1_bootloader_po_c.Base.{◌≡◌, refl, some, [], ◌∷◌, ok}
use rp1_bootloader_po_c.DeviceTree.{DeviceTreeApi}
use rp1_bootloader_po_c.BootContext.{FirmwareBootContext, network, checked_boot_context}
use rp1_bootloader_po_c.BootContext.Modes.{SaysNetwork, checked_boot_context-SaysNetwork}

-- A device tree of one node, whose every property is the number 2.
abbrev one_node : DeviceTreeApi
one_node = record {
  Parser = Unit {0};
  Tree = Unit {0};
  Node = Unit {0};
  from_parser = λ p. some p;
  find_node_by_path = λ t path. some 0;
  node = λ t id. some t;
  property = λ n name. some (0 ∷ 0 ∷ 0 ∷ 2 ∷ []);
}

abbrev network_context : FirmwareBootContext
network_context = record { boot_mode = network; boot_partition = some 2 }

accepted : checked_boot_context one_node tt ≡ ok network_context
unfolding checked_boot_context
accepted = refl

checked_boot_context-SaysNetwork_example :
    SaysNetwork one_node tt × (network_context.boot_mode ≡ network)
checked_boot_context-SaysNetwork_example =
    checked_boot_context-SaysNetwork one_node tt network_context accepted

says_network : SaysNetwork one_node tt
unfolding checked_boot_context
says_network = record {
  tree = tt;
  parsed = refl;
  bootloader = tt;
  found = refl;
  bytes = 0 ∷ 0 ∷ 0 ∷ 2 ∷ [];
  has_mode = refl;
  long = ground arith;
  is_two = refl;
}
