-- ===== src/Placement.antt =====
-- rp1_chainboot_poc/src/placement.rs: the fixed physical placement, the overlap check and the
-- copy to physical memory; and the ranges that `main_flow` of main.rs checks with it.
mod Tests
pub mod Disjoint
pub mod Copy
use Prim.Native.String.{String}
use rp1_bootloader_po_c.Base.{
  ℕ, zero, suc, ◌+◌, ◌-◌, ◌≤◌, ◌<◌, Bool, true, false, ◌&&◌, Option, List, [], ◌∷◌, ltb, leb,
  if◌then◌else◌, length, get_or, Result, BootError, ok, err, memory_overlap, address_overflow,
  ◌>>=◌, ◌>>◌,
}

abbrev pub dtb_ptr : ℕ
dtb_ptr = 0x2000_0000

abbrev pub kernel_load_base : ℕ
kernel_load_base = 0x0600_0000

abbrev pub kernel_max_size : ℕ
kernel_max_size = 0x0800_0000

abbrev pub initramfs_load_base : ℕ
initramfs_load_base = 0x1000_0000

abbrev pub initramfs_max_size : ℕ
initramfs_max_size = 0x0800_0000

abbrev pub dtb_copy_base : ℕ
dtb_copy_base = 0x2020_0000

abbrev pub dtb_max_size : ℕ
dtb_max_size = 0x0020_0000

abbrev pub rp1_img_scratch_max : ℕ
rp1_img_scratch_max = 0x0002_0000

abbrev pub rp1_img_scratch_base : ℕ
rp1_img_scratch_base = 0x1ffe_0000

pub record Range : Type 0 where
  pub name : String
  pub start : ℕ
  pub end : ℕ

-- `Range::new`.
abbrev pub new : String → ℕ → ℕ → Range
new name start len = record { name = name; start = start; end = start + len }

-- The inner loop: one range against all behind it.
pub check_one : Range → List Range → Result BootError (Unit {0})
check_one a [] = ok tt
check_one a (b ∷ rest) =
    if ltb a.start b.end && ltb b.start a.end then err memory_overlap else check_one a rest

unfoldable pub check_no_overlap : List Range → Result BootError (Unit {0})
unfolding check_one
check_no_overlap [] = ok tt
check_no_overlap (a ∷ rest) =
    if leb a.end a.start then err memory_overlap else (check_one a rest >> check_no_overlap rest)

-- Physical memory: a byte for each address.
abbrev pub Memory : Type 0
Memory = ℕ → ℕ

-- `copy_nonoverlapping(src, dst, src.len())`.
abbrev pub write_bytes : Memory → ℕ → List ℕ → Memory
write_bytes m dst src a =
    if leb dst a && ltb a (dst + length src) then get_or src (a - dst) 0 else m a

unfoldable pub copy_to_phys : ℕ → ℕ → List ℕ → Memory → Result BootError Memory
copy_to_phys dst max_len src m =
    if ltb max_len (length src) then err address_overflow else ok (write_bytes m dst src)

-- The ranges that `main_flow` checks. The linker script gives the first two.
unfoldable pub boot_ranges : Range → Range → ℕ → List Range
boot_ranges program stack dtb_size =
    program
    ∷ stack
    ∷ new "dtb-input" dtb_ptr dtb_size
    ∷ new "kernel" kernel_load_base kernel_max_size
    ∷ new "initramfs" initramfs_load_base initramfs_max_size
    ∷ new "dtb-copy" dtb_copy_base dtb_max_size
    ∷ new "rp1-scratch" rp1_img_scratch_base rp1_img_scratch_max
    ∷ []
