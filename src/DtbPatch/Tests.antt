-- ===== src/DtbPatch/Tests.antt =====
-- The policy on a tree where one node stands for every path.
use rp1_bootloader_po_c.Base.{true}
use rp1_bootloader_po_c.Base.{false}
use Prim.Native.String.{String}
use rp1_bootloader_po_c.Base.{
  ℕ, zero, suc, ◌^◌, ◌≡◌, ◌≢◌, refl, sym, ap, ◌∙◌, if◌then◌else◌, List, [], ◌∷◌, Option, none, some,
  ok, get_elem?, arith,
}
use rp1_bootloader_po_c.Base.{◌==◌}
use rp1_bootloader_po_c.DeviceTree.{DeviceTreeEditApi}
use rp1_bootloader_po_c.Policy.Abi.{Rp1Abi}
use rp1_bootloader_po_c.Policy.{
  Rp1DtbPolicy, Rp1DeviceDtbNode, note, rp1_device_dtb_nodes, validate, known_device_mask, owner_of,
  linux_status,
}
use rp1_bootloader_po_c.DtbPatch.{
  find_existing_node, apply_rp1_policy, apply_devices, apply_device, set_status, status_prop,
}
use rp1_bootloader_po_c.DtbPatch.Statuses.{
  IsEditor, apply_rp1_policy-statuses, status_bytes, some_injective,
}

abbrev numbers : Rp1Abi
numbers = record {
  bit = λ n. 2 ^ n;
  dev_gpio = 0;
  dev_uart0 = 1;
  dev_uart1 = 2;
  dev_i2c0 = 3;
  dev_i2c1 = 4;
  dev_spi0 = 5;
  dev_pio0 = 6;
  dev_pio1 = 7;
  dev_dma = 8;
  dev_timer = 9;
}

abbrev all_rp1 : Rp1DtbPolicy
all_rp1 = record { owner_rp1 = 0x3ff; owner_linux = 0; owner_disabled = 0; source = note }

-- A tree that keeps one property per node.
abbrev one_node : DeviceTreeEditApi (Unit {0})
one_node = record {
  Owned = ℕ → Option (List ℕ);
  into_owned = λ p. some (λ i. none);
  get_or_create_node_by_path = λ t p. some (0, t);
  find_owned_by_path = λ t p. some 0;
  set_property = λ t id name v. some (λ i. if i == id then some v else t i);
  into_dtb_box = λ t. some [];
}

abbrev property_of : (ℕ → Option (List ℕ)) → ℕ → String → Option (List ℕ)
property_of t id name = t id

test_self : (id : ℕ) → (id == id) ≡ true
test_self id = ground arith

test_other : (id other : ℕ) → id ≢ other → (other == id) ≡ false
test_other id other h = ground arith

one_node-IsEditor : IsEditor one_node property_of
one_node-IsEditor = record {
  set_same = λ t u id name v e.
      ap (λ (w : ℕ → Option (List ℕ)). w id) (sym (some_injective e)) ∙ (rw (test_self id) refl);
  set_other = λ t u id other name v e h.
      ap (λ (w : ℕ → Option (List ℕ)). w other) (sym (some_injective e))
      ∙ (rw (test_other id other h) refl);
  find_set = λ t u id name v p e. refl;
}

empty_tree : ℕ → Option (List ℕ)
empty_tree i = none

all_disabled :
    (j : ℕ) (b : Rp1DeviceDtbNode numbers)
    → get_elem? (rp1_device_dtb_nodes numbers) j ≡ some b
    → linux_status (owner_of numbers all_rp1 b.bit_of) ≡ some "disabled"
unfolding rp1_device_dtb_nodes owner_of linux_status
all_disabled zero b e =
    ap (λ (s : Rp1DeviceDtbNode numbers). linux_status (owner_of numbers all_rp1 s.bit_of))
      (sym (some_injective e))
all_disabled (suc zero) b e =
    ap (λ (s : Rp1DeviceDtbNode numbers). linux_status (owner_of numbers all_rp1 s.bit_of))
      (sym (some_injective e))
all_disabled (suc (suc zero)) b e =
    ap (λ (s : Rp1DeviceDtbNode numbers). linux_status (owner_of numbers all_rp1 s.bit_of))
      (sym (some_injective e))
all_disabled (suc (suc (suc zero))) b e =
    ap (λ (s : Rp1DeviceDtbNode numbers). linux_status (owner_of numbers all_rp1 s.bit_of))
      (sym (some_injective e))
all_disabled (suc (suc (suc (suc zero)))) b e =
    ap (λ (s : Rp1DeviceDtbNode numbers). linux_status (owner_of numbers all_rp1 s.bit_of))
      (sym (some_injective e))
all_disabled (suc (suc (suc (suc (suc zero))))) b e =
    ap (λ (s : Rp1DeviceDtbNode numbers). linux_status (owner_of numbers all_rp1 s.bit_of))
      (sym (some_injective e))
all_disabled (suc (suc (suc (suc (suc (suc zero)))))) b e =
    ap (λ (s : Rp1DeviceDtbNode numbers). linux_status (owner_of numbers all_rp1 s.bit_of))
      (sym (some_injective e))
all_disabled (suc (suc (suc (suc (suc (suc (suc zero))))))) b e =
    ap (λ (s : Rp1DeviceDtbNode numbers). linux_status (owner_of numbers all_rp1 s.bit_of))
      (sym (some_injective e))
all_disabled (suc (suc (suc (suc (suc (suc (suc (suc zero)))))))) b e =
    ap (λ (s : Rp1DeviceDtbNode numbers). linux_status (owner_of numbers all_rp1 s.bit_of))
      (sym (some_injective e))
all_disabled (suc (suc (suc (suc (suc (suc (suc (suc (suc zero))))))))) b e =
    ap (λ (s : Rp1DeviceDtbNode numbers). linux_status (owner_of numbers all_rp1 s.bit_of))
      (sym (some_injective e))
all_disabled (suc (suc (suc (suc (suc (suc (suc (suc (suc (suc j)))))))))) b e = absurd cc

patched : ℕ → Option (List ℕ)
patched i = if i == 0 then some (status_prop "disabled") else none

abbrev gpio_spec : Rp1DeviceDtbNode numbers
gpio_spec = record {
  bit_of = 0;
  name = "gpio";
  fallback_paths =
      "/axi/pcie@1000120000/rp1/gpio@d0000" ∷ "/axi/pcie@120000/rp1/gpio@d0000"
      ∷ "/soc/rp1/gpio@d0000" ∷ [];
}

tree_after :
    (u : ℕ → Option (List ℕ)) × (apply_rp1_policy one_node numbers empty_tree all_rp1 ≡ ok u)
unfolding apply_rp1_policy apply_devices apply_device set_status find_existing_node validate
    known_device_mask rp1_device_dtb_nodes owner_of linux_status
tree_after = (_, refl)

apply_rp1_policy-statuses_example :
    tree_after.0 0 ≡ status_bytes (linux_status (owner_of numbers all_rp1 0))
unfolding rp1_device_dtb_nodes find_existing_node
apply_rp1_policy-statuses_example =
    apply_rp1_policy-statuses one_node numbers property_of all_rp1 one_node-IsEditor empty_tree
      tree_after.0 0 0 gpio_spec tree_after.1 refl refl
      (λ j b at f. all_disabled j b at ∙ sym (all_disabled 0 gpio_spec refl))
