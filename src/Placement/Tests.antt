-- ===== src/Placement/Tests.antt =====
-- The placement properties at concrete ranges.
use rp1_bootloader_po_c.Placement.{check_one}
use rp1_bootloader_po_c.Base.{ℕ, ◌≡◌, ◌↔◌, refl, List, [], ◌∷◌, All, ok}
use rp1_bootloader_po_c.Placement.{
  Range, Memory, new, write_bytes, kernel_load_base, kernel_max_size, check_no_overlap,
  copy_to_phys, boot_ranges,
}
use rp1_bootloader_po_c.Placement.Disjoint.{Contains, IsPlaced, check_no_overlap-IsPlaced}
use rp1_bootloader_po_c.Placement.Copy.{beside_kernel, kernel_copy_safe}

abbrev two_ranges : List Range
two_ranges = new "low" 0x1000 0x100 ∷ new "high" 0x2000 0x100 ∷ []

check_no_overlap-IsPlaced_example : (check_no_overlap two_ranges ≡ ok tt) ↔ IsPlaced two_ranges
check_no_overlap-IsPlaced_example = check_no_overlap-IsPlaced two_ranges

abbrev zero_memory : Memory
zero_memory a = 0

abbrev three_bytes : List ℕ
three_bytes = 7 ∷ 8 ∷ 9 ∷ []

copied :
    copy_to_phys 0x4000 8 three_bytes zero_memory ≡ ok (write_bytes zero_memory 0x4000 three_bytes)
unfolding copy_to_phys
copied = refl

abbrev program : Range
program = new "program" 0x8_0000 0x8_0000

abbrev stack : Range
stack = new "stack" 0x18_0000 0x1_0000

placed : check_no_overlap (boot_ranges program stack 0x1_0000) ≡ ok tt
unfolding check_no_overlap check_one boot_ranges
placed = refl

kernel_copied :
    copy_to_phys kernel_load_base kernel_max_size three_bytes zero_memory
    ≡ ok (write_bytes zero_memory kernel_load_base three_bytes)
unfolding copy_to_phys
kernel_copied = refl

kernel_copy_safe_example :
    All
      (λ r.
        (a : ℕ)
        → Contains r a
        → write_bytes zero_memory kernel_load_base three_bytes a ≡ zero_memory a)
      (beside_kernel program stack 0x1_0000)
kernel_copy_safe_example =
    kernel_copy_safe program stack 0x1_0000 three_bytes zero_memory
      (write_bytes zero_memory kernel_load_base three_bytes) placed kernel_copied
