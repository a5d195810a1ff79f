-- ===== src/Heap/Tests.antt =====
-- The heap properties at a heap whose address is not a multiple of 16.
use rp1_bootloader_po_c.Base.{arith}
use rp1_bootloader_po_c.Base.{◌+◌, ◌-◌, ◌%◌, ◌^◌, ◌≤◌, ◌<◌, ◌≡◌, ◌≢◌, refl, some}
use rp1_bootloader_po_c.Heap.{BumpAllocator, alloc, align_up}
use rp1_bootloader_po_c.Heap.Regions.{IsValid, alloc_block, alloc_misaligned}

abbrev before : BumpAllocator
before = record { offset = 3; heap = 0x10_0008 }

abbrev behind : BumpAllocator
behind = record { offset = 116; heap = 0x10_0008 }

before-IsValid : IsValid before
before-IsValid = record { in_heap = omega arith; no_wrap = omega arith }

allocated : alloc before (record { size = 100; align = 2 ^ 4 }) ≡ (some 0x10_0018, behind)
unfolding alloc align_up
allocated = refl

alloc_block_example :
    IsValid behind
    × (before.heap + before.offset ≤ 0x10_0018)
    × (0x10_0018 < before.heap + before.offset + 2 ^ 4)
    × (0x10_0018 + 100 ≡ behind.heap + behind.offset)
    × (behind.heap ≡ before.heap)
    × ((0x10_0018 - before.heap) % 2 ^ 4 ≡ 0)
alloc_block_example =
    alloc_block before behind 100 4 0x10_0018 (omega arith) before-IsValid allocated

alloc_misaligned_example : 0x10_0018 % 2 ^ 4 ≢ 0
alloc_misaligned_example =
    alloc_misaligned before behind 100 4 0x10_0018 (omega arith) before-IsValid (λ e. omega arith)
      allocated
