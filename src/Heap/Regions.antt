-- ===== src/Heap/Regions.antt =====
-- Every block lies in the heap, behind the blocks that are still in use, and is aligned as far as
-- the heap array itself is.
use rp1_bootloader_po_c.Base.{◌∙◌}
use rp1_bootloader_po_c.Base.{sym}
use rp1_bootloader_po_c.Base.{
  ℕ, ◌+◌, ◌-◌, ◌*◌, ◌/◌, ◌%◌, ◌^◌, ◌≤◌, ◌<◌, ◌≡◌, ◌≢◌, ap, some, arith, leb, ltb, Bool-cases, inl,
  inr,
}
use native.Mathlib.Nat.{pow-le-pow_right, one-le-pow, mul-mod_left, add-mul-mod_self_right}
use rp1_bootloader_po_c.Base.Bits.{bit_and-high_mask}
use rp1_bootloader_po_c.Base.Words.{usize_mod}
use rp1_bootloader_po_c.Heap.{heap_size, BumpAllocator, align_up, alloc, dealloc}

-- The allocator's state: the offset stays in the heap, which does not wrap around.
pub record IsValid (s : BumpAllocator) : Type 0 where
  pub in_heap : s.offset ≤ heap_size
  pub no_wrap : s.heap + heap_size < usize_mod

-- Rounding up gives the next multiple.
align_up_lem :
    (k c : ℕ) → k ≤ 63 → c ≤ heap_size → align_up c (2 ^ k) ≡ (c + 2 ^ k - 1) / 2 ^ k * 2 ^ k
unfolding align_up
align_up_lem k c h l =
    let small : 2 ^ k ≤ 2 ^ 63 = pow-le-pow_right {n = 2} (omega arith) {i = k} {j = 63} h in
    let one : 1 ≤ 2 ^ k = one-le-pow k 2 (omega arith) in
    let width : 64 - k + k ≡ 64 = omega arith in
    let whole : (c + 2 ^ k - 1) % usize_mod ≡ c + 2 ^ k - 1 = omega arith in
    let mask : usize_mod - 1 - (2 ^ k - 1) ≡ 2 ^ 64 - 2 ^ k = omega arith in
    let fits : c + 2 ^ k - 1 < 2 ^ (64 - k + k) = rw width (omega arith) in
    rw (whole, mask) (rw width at (bit_and-high_mask k (64 - k) (c + 2 ^ k - 1) fits))

-- The next multiple is at most one alignment away.
up_bounds :
    (k c : ℕ)
    → k ≤ 63
    → c ≤ heap_size
    → (c ≤ align_up c (2 ^ k)) × (align_up c (2 ^ k) < c + 2 ^ k) × (align_up c (2 ^ k) % 2 ^ k ≡ 0)
up_bounds k c h l =
    let one : 1 ≤ 2 ^ k = one-le-pow k 2 (omega arith) in
    rw (align_up_lem k c h l)
      (omega arith, omega arith, mul-mod_left ((c + 2 ^ k - 1) / 2 ^ k) (2 ^ k))

-- A block that was handed out starts behind the old offset and ends at the new one, inside the
-- heap; its offset is a multiple of the alignment, and less than one alignment is skipped.
pub alloc_block :
    (s s' : BumpAllocator) (size k ptr : ℕ)
    → k ≤ 63
    → IsValid s
    → alloc s (record { size = size; align = 2 ^ k }) ≡ (some ptr, s')
    → IsValid s'
      × (s.heap + s.offset ≤ ptr)
      × (ptr < s.heap + s.offset + 2 ^ k)
      × (ptr + size ≡ s'.heap + s'.offset)
      × (s'.heap ≡ s.heap)
      × ((ptr - s.heap) % 2 ^ k ≡ 0)
unfolding alloc
alloc_block s s' size k ptr h v e =
    let b = up_bounds k s.offset h v.in_heap in
    elim (Bool-cases (ltb (align_up s.offset (2 ^ k) + size) usize_mod)) [
      | inr wraps ↦ absurd (ground arith)
      | inl fits ↦ elim (Bool-cases (leb (align_up s.offset (2 ^ k) + size) heap_size)) [
        | inr full ↦ absurd (ground arith)
        | inl room ↦
            let at : s.heap + align_up s.offset (2 ^ k) ≡ ptr = ground arith in
            let back : ptr - s.heap ≡ align_up s.offset (2 ^ k) = omega arith in
            (ground arith, ground arith, ground arith, ground arith, ground arith, rw back b.2)
      ]
    ]

freed :
    (s : BumpAllocator) (ptr size align : ℕ)
    → s.heap ≤ ptr
    → ptr + size ≡ s.heap + s.offset
    → s.offset ≤ heap_size
    → dealloc s ptr (record { size = size; align = align }) ≡ record s { offset = ptr - s.heap }
unfolding dealloc
freed s ptr size align h k l = ground arith

-- Freeing the newest block takes the offset back to its start, and the heap stays where it is.
pub dealloc-alloc :
    (s s' : BumpAllocator) (size k ptr : ℕ)
    → k ≤ 63
    → IsValid s
    → alloc s (record { size = size; align = 2 ^ k }) ≡ (some ptr, s')
    → dealloc s' ptr (record { size = size; align = 2 ^ k })
      ≡ record { offset = ptr - s.heap; heap = s.heap }
dealloc-alloc s s' size k ptr h v e =
    let b = alloc_block s s' size k ptr h v e in
    freed s' ptr size (2 ^ k) (omega arith) b.3 b.0.in_heap
    ∙ ap (λ (base : ℕ). record { offset = ptr - base; heap = base }) b.4

-- Freeing an older block, one that does not end at the offset, changes nothing.
pub dealloc_older :
    (s : BumpAllocator) (ptr size align : ℕ)
    → s.heap ≤ ptr
    → ptr + size ≢ s.heap + s.offset
    → dealloc s ptr (record { size = size; align = align }) ≡ s
unfolding dealloc
dealloc_older s ptr size align h k = ground arith

-- Where the heap array does not start at a multiple of the alignment, no block that is handed out
-- does either: the offset is aligned, not the address.
pub alloc_misaligned :
    (s s' : BumpAllocator) (size k ptr : ℕ)
    → k ≤ 63
    → IsValid s
    → s.heap % 2 ^ k ≢ 0
    → alloc s (record { size = size; align = 2 ^ k }) ≡ (some ptr, s')
    → ptr % 2 ^ k ≢ 0
alloc_misaligned s s' size k ptr h v ne e aligned =
    let b = alloc_block s s' size k ptr h v e in
    let q = (ptr - s.heap) / 2 ^ k in
    let at : ptr ≡ s.heap + q * 2 ^ k = omega (arith, b.5, b.1) in
    ne
      (sym (add-mul-mod_self_right s.heap q (2 ^ k)) ∙ ap (λ (t : ℕ). t % 2 ^ k) (sym at) ∙ aligned)
