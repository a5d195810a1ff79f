-- ===== src/Heap.antt =====
-- The global allocator `BumpAllocator` of rp1_chainboot_poc/src/main.rs. The state is the offset;
-- `heap` is the address of the heap array.
mod Tests
pub mod Regions
use rp1_bootloader_po_c.Base.{
  ℕ, ◌+◌, ◌-◌, ◌*◌, ◌^◌, ◌%◌, bit_and, Bool, Option, none, some, ltb, leb, ◌==◌, if◌then◌else◌,
}
use rp1_bootloader_po_c.Base.Words.{checked_add, usize_mod}

abbrev pub heap_size : ℕ
heap_size = 80 * 1024 * 1024

pub record Layout : Type 0 where
  pub size : ℕ
  pub align : ℕ

pub record BumpAllocator : Type 0 where
  pub offset : ℕ
  pub heap : ℕ

-- `(current + align - 1) & !(align - 1)`, in 64-bit words.
unfoldable pub align_up : ℕ → ℕ → ℕ
align_up current align = bit_and ((current + align - 1) % usize_mod) (usize_mod - 1 - (align - 1))

-- `None` is the null pointer.
unfoldable pub alloc : BumpAllocator → Layout → Option ℕ × BumpAllocator
alloc s layout =
    let aligned = align_up s.offset layout.align in
    elim (checked_add aligned layout.size) [
      | none ↦ (none, s)
      | some next ↦
          if leb next heap_size
          then (some ((s.heap + aligned) % usize_mod), record s { offset = next })
          else (none, s)
    ]

unfoldable pub dealloc : BumpAllocator → ℕ → Layout → BumpAllocator
dealloc s ptr layout = if ltb ptr s.heap then s else elim (checked_add (ptr - s.heap) layout.size) [
  | none ↦ s
  | some end ↦ if end == s.offset then record s { offset = ptr - s.heap } else s
]
